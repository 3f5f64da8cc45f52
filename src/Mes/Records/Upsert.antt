-- ===== src/Mes/Records/Upsert.antt =====
-- What an upsert leaves of a row that was read (`upsert_record` of services/mes/mes_app/intake.py).
use mathlib.Core.Path.{subst}
use mathlib.Core.Option.{some-injective}
use pipe_vision.Prelude.{
  ℕ, ◌≡◌, refl, sym, ◌∙◌, Bool, true, false, ◌&&◌, Option, none, some, List, [], ◌∷◌, ◌++◌, inl,
  inr, arith, Bool-cases, Option-cases,
}
use pipe_vision.Prelude.Text.{Text, text_eq, text_eq_iff, text_eq_refl}
use pipe_vision.Api.Rows.{upper, MesQualityIf}
use pipe_vision.Mes.Records.{
  incoming, Incoming, QualityRecord, Source, Status, stored, upsert_record, find_record, set_record,
  refreshed, same_values, refresh, insert, second_attempt, first_attempt, normalize, upper_or_none,
}
use pipe_vision.Mes.Records.Values.{Reflects, Has-self, same_values-Reflects, refreshed-Reflects}

and-true : (a b : Bool) → (a && b) ≡ true → (a ≡ true) × (b ≡ true)
and-true a b h = ground arith

found_key :
    (key : Text) (x q : QualityRecord)
    → some x ≡ some q
    → text_eq x.idem_key key ≡ true
    → text_eq q.idem_key key ≡ true
found_key key x q e h =
    subst (λ (z : QualityRecord). text_eq z.idem_key key ≡ true) (some-injective x q e) h

pub find_record-key :
    (key : Text) (qs : List QualityRecord) (q : QualityRecord)
    → find_record key qs ≡ some q
    → text_eq q.idem_key key ≡ true
unfolding find_record
find_record-key key [] q h = cc
find_record-key key (x ∷ xs) q h = elim (Bool-cases (text_eq x.idem_key key)) [
  | inl e ↦ found_key key x q (rw (e, find_record) at h) e
  | inr e ↦ find_record-key key xs q (rw (e, find_record) at h)
]

pub find-set :
    (key : Text) (qs : List QualityRecord) (q new : QualityRecord)
    → find_record key qs ≡ some q
    → text_eq new.idem_key key ≡ true
    → find_record key (set_record key new qs) ≡ some new
unfolding find_record set_record
find-set key [] q new h k = cc
find-set key (x ∷ xs) q new h k = ground (arith, find-set key xs q new)

find-append :
    (key : Text) (qs rs : List QualityRecord) (q : QualityRecord)
    → find_record key qs ≡ some q
    → find_record key (qs ++ rs) ≡ some q
unfolding find_record
find-append key [] rs q h = cc
find-append key (x ∷ xs) rs q h = ground (arith, find-append key xs rs q)

pub find-append_new :
    (key : Text) (qs : List QualityRecord) (q : QualityRecord)
    → find_record key qs ≡ none
    → text_eq q.idem_key key ≡ true
    → find_record key (qs ++ q ∷ []) ≡ some q
unfolding find_record
find-append_new key [] q h k = rw k refl
find-append_new key (x ∷ xs) q h k = ground (arith, find-append_new key xs q)

-- The other records stay as they are.
pub find-set_other :
    (key other : Text) (qs : List QualityRecord) (new : QualityRecord)
    → text_eq key other ≡ false
    → text_eq new.idem_key key ≡ true
    → find_record other (set_record key new qs) ≡ find_record other qs
unfolding find_record set_record
find-set_other key other [] new d k = refl
find-set_other key other (x ∷ xs) new d k = ground (
  arith,
  find-set_other key other xs new,
  text_eq_iff x.idem_key key,
  text_eq_iff key other,
  text_eq_iff x.idem_key other,
  text_eq_iff new.idem_key key,
  text_eq_iff new.idem_key other,
)

-- A record of the key of the row, with its values.
abbrev pub Stored : MesQualityIf → List QualityRecord → Type 0
Stored s qs = (q : QualityRecord) × (find_record s.idem_key qs ≡ some q) × Reflects s q

done_records :
    {a b : Status} {qs rs : List QualityRecord}
    → ◌≡◌ {A = Option (Status × List QualityRecord)} (some (a, qs)) (some (b, rs))
    → qs ≡ rs
done_records h = cc

new_entry : Source → MesQualityIf → QualityRecord
new_entry source s = record {
  idem_key = s.idem_key;
  inspection_id = s.inspection_id;
  lot = s.lot;
  work_order = s.work_order;
  item_code = s.item_code;
  cam_id = some s.cam_id;
  inspection_stage = s.inspection_stage;
  tube_index = s.tube_index;
  inspected_at = s.inspected_at;
  final_verdict = upper s.final_verdict;
  defect_codes = s.defect_codes;
  meas_length_mm = s.meas_length_mm;
  deviation_mm = s.deviation_mm;
  manual_verdict = upper_or_none s.manual_verdict;
  count_detected = s.count_detected;
  count_expected = s.count_expected;
  source = source;
  updated_at = none;
}

new_entry-Reflects : (source : Source) (s : MesQualityIf) → Reflects s (new_entry source s)
unfolding new_entry
new_entry-Reflects source s = record {
  final_verdict = refl;
  defect_codes = refl;
  manual_verdict = refl;
  work_order = refl;
  inspection_id = Has-self s.inspection_id;
  item_code = Has-self s.item_code;
  inspection_stage = Has-self s.inspection_stage;
  tube_index = Has-self s.tube_index;
  count_detected = Has-self s.count_detected;
  count_expected = Has-self s.count_expected;
  meas_length_mm = Has-self s.meas_length_mm;
  deviation_mm = Has-self s.deviation_mm;
}

module _ (source : Source) (now : ℕ) where
  refresh-Stored :
      (s : MesQualityIf) (q : QualityRecord) (qs : List QualityRecord)
      → find_record s.idem_key qs ≡ some q
      → Stored s (refresh source now (normalize (incoming s)) q qs).1
  unfolding refresh normalize refreshed
  refresh-Stored s q qs h =
      let new = refreshed (normalize (incoming s)) q in
      elim (Bool-cases (same_values q new)) [
        | inl e ↦ rw (e, refresh) (q, h, same_values-Reflects s q e)
        | inr e ↦
            rw (e, refresh)
              (
                record new { updated_at = some now },
                find-set s.idem_key qs q (record new { updated_at = some now }) h
                    (find_record-key s.idem_key qs q h),
                refreshed-Reflects s q now,
              )
      ]

  second_attempt-found :
      (r : Incoming) (qs : List QualityRecord) (q : QualityRecord)
      → find_record r.idem_key qs ≡ some q
      → second_attempt source now r qs ≡ some (refresh source now r q qs)
  unfolding second_attempt
  second_attempt-found r qs q f = rw (f, second_attempt) refl

  attempts-raced :
      (others : List QualityRecord) (s : MesQualityIf) (qs : List QualityRecord) (q : QualityRecord)
      → find_record s.idem_key qs ≡ none
      → find_record s.idem_key (qs ++ others) ≡ some q
      → first_attempt source now others (normalize (incoming s)) qs
        ≡ some (refresh source now (normalize (incoming s)) q (qs ++ others))
  unfolding first_attempt second_attempt normalize
  attempts-raced others s qs q e f =
      rw (e, first_attempt)
        (rw f (second_attempt-found (normalize (incoming s)) (qs ++ others) q f))

  attempts-new :
      (others : List QualityRecord) (s : MesQualityIf) (qs : List QualityRecord)
      → find_record s.idem_key qs ≡ none
      → find_record s.idem_key (qs ++ others) ≡ none
      → first_attempt source now others (normalize (incoming s)) qs
        ≡ some (stored, (qs ++ others) ++ new_entry source s ∷ [])
  unfolding first_attempt insert normalize new_entry
  attempts-new others s qs e f = rw (e, first_attempt) (rw f refl)

  first_attempt-Stored :
      (others : List QualityRecord) (s : MesQualityIf) (qs : List QualityRecord) (status : Status)
      (qs' : List QualityRecord)
      → first_attempt source now others (normalize (incoming s)) qs ≡ some (status, qs')
      → Stored s qs'
  unfolding first_attempt normalize new_entry
  first_attempt-Stored others s qs status qs' h = elim (Option-cases (find_record s.idem_key qs)) [
    | inr (q, e) ↦
        subst (Stored s) (done_records (rw (e, first_attempt) at h)) (refresh-Stored s q qs e)
    | inl e ↦ elim (Option-cases (find_record s.idem_key (qs ++ others))) [
      | inr (q, f) ↦
          subst (Stored s) (done_records (sym (attempts-raced others s qs q e f) ∙ h))
            (refresh-Stored s q (qs ++ others) f)
      | inl f ↦ subst (Stored s) (done_records (sym (attempts-new others s qs e f) ∙ h)) (
        new_entry source s,
        find-append_new s.idem_key (qs ++ others) (new_entry source s) f (text_eq_refl s.idem_key),
        new_entry-Reflects source s,
      )
    ]
  ]

  upsert-first_attempt :
      (others : List QualityRecord) (s : MesQualityIf) (qs : List QualityRecord) (status : Status)
      (qs' : List QualityRecord)
      → upsert_record source now others (incoming s) qs ≡ some (status, qs')
      → first_attempt source now others (normalize (incoming s)) qs ≡ some (status, qs')
  unfolding upsert_record
  upsert-first_attempt others s qs status qs' h = ground arith

  -- Another record stays as it is.
  refresh-other :
      (r : Incoming) (q : QualityRecord) (qs : List QualityRecord) (other : Text)
      → find_record r.idem_key qs ≡ some q
      → text_eq r.idem_key other ≡ false
      → find_record other (refresh source now r q qs).1 ≡ find_record other qs
  unfolding refresh refreshed
  refresh-other r q qs other f d =
      let new = refreshed r q in
      elim (Bool-cases (same_values q new)) [
        | inl e ↦ rw (e, refresh) refl
        | inr e ↦
            rw (e, refresh)
              (find-set_other r.idem_key other qs (record new { updated_at = some now }) d
                (find_record-key r.idem_key qs q f))
      ]

  first_attempt-other :
      (others : List QualityRecord) (s : MesQualityIf) (qs : List QualityRecord) (status : Status)
      (qs' : List QualityRecord) (other : Text) (p : QualityRecord)
      → text_eq s.idem_key other ≡ false
      → find_record other qs ≡ some p
      → first_attempt source now others (normalize (incoming s)) qs ≡ some (status, qs')
      → find_record other qs' ≡ some p
  unfolding first_attempt normalize new_entry
  first_attempt-other others s qs status qs' other p d there h =
      let wide = find-append other qs others p there in
      elim (Option-cases (find_record s.idem_key qs)) [
        | inr (q, e) ↦
            rw (sym (done_records (rw (e, first_attempt) at h)))
              (refresh-other (normalize (incoming s)) q qs other e d ∙ there)
        | inl e ↦ elim (Option-cases (find_record s.idem_key (qs ++ others))) [
          | inr (q, f) ↦
              rw (sym (done_records (sym (attempts-raced others s qs q e f) ∙ h)))
                (refresh-other (normalize (incoming s)) q (qs ++ others) other f d ∙ wide)
          | inl f ↦
              rw (sym (done_records (sym (attempts-new others s qs e f) ∙ h)))
                (find-append other (qs ++ others) (new_entry source s ∷ []) p wide)
        ]
      ]

  pub upsert_record-Stored :
      (others : List QualityRecord) (s : MesQualityIf) (qs : List QualityRecord) (status : Status)
      (qs' : List QualityRecord)
      → upsert_record source now others (incoming s) qs ≡ some (status, qs')
      → Stored s qs'
  upsert_record-Stored others s qs status qs' h =
      first_attempt-Stored others s qs status qs' (upsert-first_attempt others s qs status qs' h)

  pub upsert_record-other :
      (others : List QualityRecord) (s t : MesQualityIf) (qs : List QualityRecord) (status : Status)
      (qs' : List QualityRecord)
      → text_eq s.idem_key t.idem_key ≡ false
      → upsert_record source now others (incoming s) qs ≡ some (status, qs')
      → Stored t qs
      → Stored t qs'
  upsert_record-other others s t qs status qs' d h (p, there, same) = (
    p,
    first_attempt-other others s qs status qs' t.idem_key p d there
        (upsert-first_attempt others s qs status qs' h),
    same,
  )
