-- ===== src/Mes/Records/Values.antt =====
-- The values that a record of the MES has of a row of the interface table (MUTABLE of
-- services/mes/mes_app/intake.py).
use pipe_vision.Prelude.{
  ℕ, ◌≡◌, ◌==◌, ==_iff, refl, ap, true, false, Option, none, some, List, [], ◌∷◌, arith,
}
use pipe_vision.Prelude.Int.{ℤ, ℤ-discrete}
use pipe_vision.Prelude.Text.{Text, text_eq, text_eq_iff}
use pipe_vision.Api.Rows.{upper, MesQualityIf}
use pipe_vision.Mes.Records.{
  incoming, QualityRecord, opt_eq, codes_eq, refreshed, same_values, normalize, upper_or_none,
  or_old, int_eq,
}

-- The record has the value of a column where the row has one.
abbrev pub Has : {A : Type 0} → Option A → Option A → Type 0
Has none b = Unit
Has (some a) b = b ≡ some a

-- A record with the values of a row of the interface table, in each column of MUTABLE. A null in the
-- row stands for a null of the second verdict and of the work order, and says nothing of the others.
pub record Reflects (s : MesQualityIf) (q : QualityRecord) : Type 0 where
  pub final_verdict : q.final_verdict ≡ upper s.final_verdict
  pub defect_codes : q.defect_codes ≡ s.defect_codes
  pub manual_verdict : q.manual_verdict ≡ upper_or_none s.manual_verdict
  pub work_order : q.work_order ≡ s.work_order
  pub inspection_id : Has s.inspection_id q.inspection_id
  pub item_code : Has s.item_code q.item_code
  pub inspection_stage : Has s.inspection_stage q.inspection_stage
  pub tube_index : Has s.tube_index q.tube_index
  pub count_detected : Has s.count_detected q.count_detected
  pub count_expected : Has s.count_expected q.count_expected
  pub meas_length_mm : Has s.meas_length_mm q.meas_length_mm
  pub deviation_mm : Has s.deviation_mm q.deviation_mm

Has-or_old : {A : Type 0} (a b : Option A) → Has a (or_old a b)
Has-or_old none b = tt
Has-or_old (some a) b = refl

Has-kept : {A : Type 0} (a b : Option A) → b ≡ or_old a b → Has a b
Has-kept none b h = tt
Has-kept (some a) b h = h

pub Has-self : {A : Type 0} (a : Option A) → Has a a
Has-self none = tt
Has-self (some a) = refl

codes_eq→≡ : (a b : List Text) → codes_eq a b ≡ true → a ≡ b
unfolding codes_eq
codes_eq→≡ [] [] h = refl
codes_eq→≡ [] (d ∷ ds) h = cc
codes_eq→≡ (c ∷ cs) [] h = cc
codes_eq→≡ (c ∷ cs) (d ∷ ds) h = ground (arith, text_eq_iff c d, codes_eq→≡ cs ds)

pub text_option : (a b : Option Text) → opt_eq text_eq a b ≡ true → a ≡ b
unfolding opt_eq
text_option none none h = refl
text_option none (some b) h = cc
text_option (some a) none h = cc
text_option (some a) (some b) h = ap some ((text_eq_iff a b).0 h)

pub number_option : (a b : Option ℕ) → opt_eq (λ m n. m == n) a b ≡ true → a ≡ b
unfolding opt_eq
number_option none none h = refl
number_option none (some b) h = cc
number_option (some a) none h = cc
number_option (some a) (some b) h = ap some ((==_iff a b).0 h)

int_eq→≡ : (a b : ℤ) → int_eq a b ≡ true → a ≡ b
unfolding int_eq
int_eq→≡ a b h =
    elim (ℤ-discrete a b) as (λ d. elim d [ yes _ ↦ true | no _ ↦ false ] ≡ true → a ≡ b) [
      | yes e ↦ λ k. e
      | no n ↦ λ k. cc
    ]
      h

int_option : (a b : Option ℤ) → opt_eq int_eq a b ≡ true → a ≡ b
unfolding opt_eq
int_option none none h = refl
int_option none (some b) h = cc
int_option (some a) none h = cc
int_option (some a) (some b) h = ap some (int_eq→≡ a b h)

pub same_values-Reflects :
    (s : MesQualityIf) (q : QualityRecord)
    → same_values q (refreshed (normalize (incoming s)) q) ≡ true
    → Reflects s q
unfolding same_values refreshed normalize
same_values-Reflects s q h = record {
  final_verdict = (text_eq_iff q.final_verdict (upper s.final_verdict)).0 (ground arith);
  defect_codes = codes_eq→≡ q.defect_codes s.defect_codes (ground arith);
  manual_verdict = text_option q.manual_verdict (upper_or_none s.manual_verdict) (ground arith);
  work_order = text_option q.work_order s.work_order (ground arith);
  inspection_id =
      Has-kept s.inspection_id q.inspection_id
        (number_option q.inspection_id (or_old s.inspection_id q.inspection_id) (ground arith));
  item_code =
      Has-kept s.item_code q.item_code
        (text_option q.item_code (or_old s.item_code q.item_code) (ground arith));
  inspection_stage = Has-kept s.inspection_stage q.inspection_stage (
      text_option q.inspection_stage (or_old s.inspection_stage q.inspection_stage) (ground arith));
  tube_index =
      Has-kept s.tube_index q.tube_index
        (number_option q.tube_index (or_old s.tube_index q.tube_index) (ground arith));
  count_detected =
      Has-kept s.count_detected q.count_detected
        (number_option q.count_detected (or_old s.count_detected q.count_detected) (ground arith));
  count_expected =
      Has-kept s.count_expected q.count_expected
        (number_option q.count_expected (or_old s.count_expected q.count_expected) (ground arith));
  meas_length_mm =
      Has-kept s.meas_length_mm q.meas_length_mm
        (int_option q.meas_length_mm (or_old s.meas_length_mm q.meas_length_mm) (ground arith));
  deviation_mm =
      Has-kept s.deviation_mm q.deviation_mm
        (int_option q.deviation_mm (or_old s.deviation_mm q.deviation_mm) (ground arith));
}

pub refreshed-Reflects :
    (s : MesQualityIf) (q : QualityRecord) (now : ℕ)
    → Reflects s (record (refreshed (normalize (incoming s)) q) { updated_at = some now })
unfolding refreshed normalize
refreshed-Reflects s q now = record {
  final_verdict = refl;
  defect_codes = refl;
  manual_verdict = refl;
  work_order = refl;
  inspection_id = Has-or_old s.inspection_id q.inspection_id;
  item_code = Has-or_old s.item_code q.item_code;
  inspection_stage = Has-or_old s.inspection_stage q.inspection_stage;
  tube_index = Has-or_old s.tube_index q.tube_index;
  count_detected = Has-or_old s.count_detected q.count_detected;
  count_expected = Has-or_old s.count_expected q.count_expected;
  meas_length_mm = Has-or_old s.meas_length_mm q.meas_length_mm;
  deviation_mm = Has-or_old s.deviation_mm q.deviation_mm;
}
