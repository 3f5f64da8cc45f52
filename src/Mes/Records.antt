-- ===== src/Mes/Records.antt =====
-- The quality records of the MES and their upsert (`normalize` and `upsert_record` of
-- services/mes/mes_app/intake.py, `QualityRecord` of services/mes/mes_app/models.py), from rows of
-- `mes_quality_if` or bodies of the REST intake. The numbers of the records and the time of receipt
-- are left out. A text that is missing where one is required is the empty one.
pub mod Values
pub mod Upsert
pub mod View
use pipe_vision.Prelude.{
  ℕ, Bool, true, false, ◌&&◌, ◌||◌, not, Option, none, some, List, [], ◌∷◌, ◌++◌, ◌==◌,
  if◌then◌else◌,
}
use pipe_vision.Prelude.Int.{ℤ, ℤ-discrete}
use pipe_vision.Prelude.Text.{Text, text_eq}
use pipe_vision.Api.Rows.{upper, MesQualityIf}

pub data Source : Type 0 where
  table rest : Source

-- What is read or posted.
pub record Incoming : Type 0 where
  pub idem_key : Text
  pub inspection_id : Option ℕ
  pub lot : Text
  pub work_order : Option Text
  pub item_code : Option Text
  pub cam_id : Option Text
  pub inspection_stage : Option Text
  pub tube_index : Option ℕ
  pub inspected_at : Option ℕ
  pub final_verdict : Option Text
  pub defect_codes : Option (List Text)
  pub meas_length_mm : Option ℤ
  pub deviation_mm : Option ℤ
  pub manual_verdict : Option Text
  pub count_detected : Option ℕ
  pub count_expected : Option ℕ

-- dict(row) as what is read.
abbrev pub incoming : MesQualityIf → Incoming
incoming s = record {
  idem_key = s.idem_key;
  inspection_id = s.inspection_id;
  lot = s.lot;
  work_order = s.work_order;
  item_code = s.item_code;
  cam_id = some s.cam_id;
  inspection_stage = s.inspection_stage;
  tube_index = s.tube_index;
  inspected_at = some s.inspected_at;
  final_verdict = some s.final_verdict;
  defect_codes = some s.defect_codes;
  meas_length_mm = s.meas_length_mm;
  deviation_mm = s.deviation_mm;
  manual_verdict = s.manual_verdict;
  count_detected = s.count_detected;
  count_expected = s.count_expected;
}

pub record QualityRecord : Type 0 where
  pub idem_key : Text
  pub inspection_id : Option ℕ
  pub lot : Text
  pub work_order : Option Text
  pub item_code : Option Text
  pub cam_id : Option Text
  pub inspection_stage : Option Text
  pub tube_index : Option ℕ
  pub inspected_at : ℕ
  pub final_verdict : Text
  pub defect_codes : List Text
  pub meas_length_mm : Option ℤ
  pub deviation_mm : Option ℤ
  pub manual_verdict : Option Text
  pub count_detected : Option ℕ
  pub count_expected : Option ℕ
  pub source : Source
  pub updated_at : Option ℕ

abbrev pub upper_or_none : Option Text → Option Text
upper_or_none none = none
upper_or_none (some v) = some (upper v)

abbrev pub codes_or_nil : Option (List Text) → List Text
codes_or_nil none = []
codes_or_nil (some cs) = cs

unfoldable pub normalize : Incoming → Incoming
unfolding upper
normalize d = record d {
  final_verdict = upper_or_none d.final_verdict;
  manual_verdict = upper_or_none d.manual_verdict;
  defect_codes = some (codes_or_nil d.defect_codes);
}

unfoldable pub find_record : Text → List QualityRecord → Option QualityRecord
find_record key [] = none
find_record key (q ∷ qs) = if text_eq q.idem_key key then some q else find_record key qs

unfoldable pub set_record : Text → QualityRecord → List QualityRecord → List QualityRecord
set_record key new [] = []
set_record key new (q ∷ qs) = if text_eq q.idem_key key then new ∷ qs else q ∷ set_record key new qs

unfoldable pub opt_eq : {A : Type 0} → (A → A → Bool) → Option A → Option A → Bool
opt_eq eq none none = true
opt_eq eq (some a) (some b) = eq a b
opt_eq eq _ _ = false

codes_eq : List Text → List Text → Bool
codes_eq [] [] = true
codes_eq (c ∷ cs) (d ∷ ds) = text_eq c d && codes_eq cs ds
codes_eq _ _ = false

int_eq : ℤ → ℤ → Bool
int_eq a b = elim (ℤ-discrete a b) [ yes _ ↦ true | no _ ↦ false ]

abbrev pub or_old : {A : Type 0} → Option A → Option A → Option A
or_old none old = old
or_old (some a) old = some a

abbrev pub value_or : {A : Type 0} → Option A → A → A
value_or none old = old
value_or (some a) old = a

-- The loop over MUTABLE: a null changes only the second verdict and the work order.
unfoldable pub refreshed : Incoming → QualityRecord → QualityRecord
refreshed r q = record q {
  final_verdict = value_or r.final_verdict q.final_verdict;
  defect_codes = value_or r.defect_codes q.defect_codes;
  manual_verdict = r.manual_verdict;
  work_order = r.work_order;
  count_detected = or_old r.count_detected q.count_detected;
  count_expected = or_old r.count_expected q.count_expected;
  meas_length_mm = or_old r.meas_length_mm q.meas_length_mm;
  deviation_mm = or_old r.deviation_mm q.deviation_mm;
  inspection_stage = or_old r.inspection_stage q.inspection_stage;
  tube_index = or_old r.tube_index q.tube_index;
  item_code = or_old r.item_code q.item_code;
  inspection_id = or_old r.inspection_id q.inspection_id;
}

unfoldable pub same_values : QualityRecord → QualityRecord → Bool
unfolding opt_eq codes_eq int_eq
same_values p q =
    text_eq p.final_verdict q.final_verdict
    && codes_eq p.defect_codes q.defect_codes
    && opt_eq text_eq p.manual_verdict q.manual_verdict
    && opt_eq text_eq p.work_order q.work_order
    && opt_eq (λ a b. a == b) p.count_detected q.count_detected
    && opt_eq (λ a b. a == b) p.count_expected q.count_expected
    && opt_eq int_eq p.meas_length_mm q.meas_length_mm
    && opt_eq int_eq p.deviation_mm q.deviation_mm
    && opt_eq text_eq p.inspection_stage q.inspection_stage
    && opt_eq (λ a b. a == b) p.tube_index q.tube_index
    && opt_eq text_eq p.item_code q.item_code
    && opt_eq (λ a b. a == b) p.inspection_id q.inspection_id

-- The row of an insert, none where a column that must not be null is.
abbrev new_record : Source → Incoming → Option ℕ → Option Text → Option QualityRecord
new_record source r none v = none
new_record source r (some at) none = none
new_record source r (some at) (some verdict) = some (record {
  idem_key = r.idem_key;
  inspection_id = r.inspection_id;
  lot = r.lot;
  work_order = r.work_order;
  item_code = r.item_code;
  cam_id = r.cam_id;
  inspection_stage = r.inspection_stage;
  tube_index = r.tube_index;
  inspected_at = at;
  final_verdict = verdict;
  defect_codes = codes_or_nil r.defect_codes;
  meas_length_mm = r.meas_length_mm;
  deviation_mm = r.deviation_mm;
  manual_verdict = r.manual_verdict;
  count_detected = r.count_detected;
  count_expected = r.count_expected;
  source = source;
  updated_at = none;
})

pub data Status : Type 0 where
  stored updated duplicate : Status

abbrev is_nil : Text → Bool
is_nil [] = true
is_nil (_ ∷ _) = false

abbrev is_none : {A : Type 0} → Option A → Bool
is_none none = true
is_none (some _) = false

module _ (source : Source) (now : ℕ) where
  unfoldable pub refresh :
      Incoming → QualityRecord → List QualityRecord → Status × List QualityRecord
  unfolding refreshed same_values set_record
  refresh r q qs =
      let new = refreshed r q in
      if same_values q new
      then (duplicate, qs)
      else (updated, set_record r.idem_key (record new { updated_at = some now }) qs)

  unfoldable pub insert : Incoming → List QualityRecord → Option (Status × List QualityRecord)
  insert r qs = elim (new_record source r r.inspected_at r.final_verdict) [
    | none ↦ none
    | some q ↦ some (stored, qs ++ q ∷ [])
  ]

  -- The second attempt, none for an IntegrityError.
  unfoldable pub second_attempt :
      Incoming → List QualityRecord → Option (Status × List QualityRecord)
  unfolding insert refresh find_record
  second_attempt r qs = elim (find_record r.idem_key qs) [
    | none ↦ insert r qs
    | some q ↦ some (refresh r q qs)
  ]

  abbrev or_again :
      Option (Status × List QualityRecord)
      → Option (Status × List QualityRecord)
      → Option (Status × List QualityRecord)
  or_again none again = again
  or_again (some done) again = some done

  -- The first attempt. `others` are the records that other transactions insert between its look-up
  -- and its insert.
  unfoldable pub first_attempt :
      List QualityRecord → Incoming → List QualityRecord → Option (Status × List QualityRecord)
  unfolding second_attempt insert refresh find_record
  first_attempt others r qs = elim (find_record r.idem_key qs) [
    | some q ↦ some (refresh r q qs)
    | none ↦
        let qs1 = qs ++ others in
        elim (find_record r.idem_key qs1) [
          | none ↦ or_again (insert r qs1) (second_attempt r qs1)
          | some q ↦ second_attempt r qs1
        ]
  ]

  -- `upsert_record`, none where it raises: a value that is required is missing.
  unfoldable pub upsert_record :
      List QualityRecord → Incoming → List QualityRecord → Option (Status × List QualityRecord)
  unfolding normalize first_attempt
  upsert_record others d qs =
      let r = normalize d in
      if is_nil r.idem_key || is_nil r.lot || is_none r.inspected_at
      then none
      else first_attempt others r qs
