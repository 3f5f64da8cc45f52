-- ===== src/Mes/Records/View.antt =====
-- The records of the MES as a function of the key (`upsert_record` of
-- services/mes/mes_app/intake.py).
use mathlib.Core.Path.{subst}
use mathlib.Core.Option.{some-injective}
use pipe_vision.Prelude.{
  ℕ, ◌≡◌, ◌⊎◌, refl, sym, ap, ◌∙◌, true, false, Option, none, some, List, [], ◌∷◌, ◌++◌, inl, inr,
  arith, Bool-cases, Option-cases, ◌||◌, if◌then◌else◌,
}
use pipe_vision.Prelude.Text.{Text, text_eq, text_eq_iff, text_eq_refl}
use pipe_vision.Mes.Records.{
  Incoming, QualityRecord, Source, Status, stored, find_record, refreshed, same_values, refresh,
  insert, new_record, second_attempt, first_attempt, upsert_record, normalize, is_nil, is_none,
}
use pipe_vision.Mes.Records.Upsert.{find_record-key, find-set, find-append_new, find-set_other}

-- The records by their keys.
abbrev pub View : Type 0
View = Text → Option QualityRecord

abbrev pub view : List QualityRecord → View
view qs = λ key. find_record key qs

no_insert :
    (st : Status) (rs : List QualityRecord)
    → ¬ (◌≡◌ {A = Option (Status × List QualityRecord)} none (some (st, rs)))
no_insert st rs h = cc

inserted :
    (a b : Status) (qs rs : List QualityRecord)
    → ◌≡◌ {A = Option (Status × List QualityRecord)} (some (a, qs)) (some (b, rs))
    → qs ≡ rs
inserted a b qs rs h = cc

new_record-key :
    (source : Source) (r : Incoming) (at : Option ℕ) (verdict : Option Text) (q : QualityRecord)
    → new_record source r at verdict ≡ some q
    → text_eq q.idem_key r.idem_key ≡ true
new_record-key source r none verdict q h = cc
new_record-key source r (some at) none q h = cc
new_record-key source r (some at) (some verdict) q h =
    subst (λ (x : QualityRecord). text_eq x.idem_key r.idem_key ≡ true) (some-injective _ q h)
      (text_eq_refl r.idem_key)

module _ (source : Source) (now : ℕ) where
  -- What an upsert makes of what was at its key.
  abbrev merged : Incoming → Option QualityRecord → Option QualityRecord
  merged r none = new_record source r r.inspected_at r.final_verdict
  merged r (some q) = some (
      if same_values q (refreshed r q) then q else record (refreshed r q) { updated_at = some now })

  abbrev pub put : Incoming → View → View
  put r v key = if text_eq r.idem_key key then merged r (v key) else v key

  find-append_other :
      (other : Text) (qs : List QualityRecord) (q : QualityRecord)
      → text_eq q.idem_key other ≡ false
      → find_record other (qs ++ q ∷ []) ≡ find_record other qs
  unfolding find_record
  find-append_other other [] q h = rw h refl
  find-append_other other (x ∷ xs) q h = ground (arith, find-append_other other xs q)

  refresh_here :
      (r : Incoming) (q : QualityRecord) (qs : List QualityRecord)
      → find_record r.idem_key qs ≡ some q
      → find_record r.idem_key (refresh source now r q qs).1 ≡ merged r (some q)
  unfolding refresh
  refresh_here r q qs f = elim (Bool-cases (same_values q (refreshed r q))) [
    | inl e ↦ rw (e, refresh) f
    | inr e ↦
        rw (e, refresh)
          (find-set r.idem_key qs q (record (refreshed r q) { updated_at = some now }) f
            (find_record-key r.idem_key qs q f))
  ]

  refresh_other :
      (r : Incoming) (q : QualityRecord) (qs : List QualityRecord) (key : Text)
      → find_record r.idem_key qs ≡ some q
      → text_eq r.idem_key key ≡ false
      → find_record key (refresh source now r q qs).1 ≡ find_record key qs
  unfolding refresh
  refresh_other r q qs key f d = elim (Bool-cases (same_values q (refreshed r q))) [
    | inl e ↦ rw (e, refresh) refl
    | inr e ↦
        rw (e, refresh)
          (find-set_other r.idem_key key qs (record (refreshed r q) { updated_at = some now }) d
            (find_record-key r.idem_key qs q f))
  ]

  -- An update at the key, from what it does there and elsewhere.
  put_of :
      (r : Incoming) (qs rs : List QualityRecord)
      → find_record r.idem_key rs ≡ merged r (find_record r.idem_key qs)
      → ((key : Text) → text_eq r.idem_key key ≡ false → find_record key rs ≡ find_record key qs)
      → (key : Text) → view rs key ≡ put r (view qs) key
  put_of r qs rs here others key = elim (Bool-cases (text_eq r.idem_key key)) [
    | inl same ↦
        subst
          (λ (k : Text).
            find_record k rs
            ≡ (if text_eq r.idem_key k then merged r (find_record k qs) else find_record k qs))
          ((text_eq_iff r.idem_key key).0 same) (rw (text_eq_refl r.idem_key) here)
    | inr other ↦ rw other (others key other)
  ]

  insert-put :
      (r : Incoming) (qs : List QualityRecord) (st : Status) (rs : List QualityRecord)
      → find_record r.idem_key qs ≡ none
      → insert source now r qs ≡ some (st, rs)
      → (key : Text) → view rs key ≡ put r (view qs) key
  unfolding insert
  insert-put r qs st rs f h =
      elim (Option-cases (new_record source r r.inspected_at r.final_verdict)) [
        | inl e ↦ absurd (no_insert st rs (rw (e, insert) at h))
        | inr (q, e) ↦
            let k = new_record-key source r r.inspected_at r.final_verdict q e in
            subst (λ (x : List QualityRecord). (key : Text) → view x key ≡ put r (view qs) key)
              (inserted stored st (qs ++ q ∷ []) rs (rw (e, insert) at h))
              (put_of r qs (qs ++ q ∷ []) (find-append_new r.idem_key qs q f k ∙ sym (rw f e))
                (λ key d.
                  find-append_other key qs q (rw ((text_eq_iff q.idem_key r.idem_key).0 k) d)))
      ]

  refresh-put :
      (r : Incoming) (q : QualityRecord) (qs : List QualityRecord)
      → find_record r.idem_key qs ≡ some q
      → (key : Text) → view (refresh source now r q qs).1 key ≡ put r (view qs) key
  refresh-put r q qs f =
      put_of r qs (refresh source now r q qs).1 (refresh_here r q qs f ∙ sym (ap (merged r) f))
        (λ key d. refresh_other r q qs key f d)

  second_attempt-put :
      (r : Incoming) (qs : List QualityRecord) (st : Status) (rs : List QualityRecord)
      → second_attempt source now r qs ≡ some (st, rs)
      → (key : Text) → view rs key ≡ put r (view qs) key
  unfolding second_attempt
  second_attempt-put r qs st rs h = elim (Option-cases (find_record r.idem_key qs)) [
    | inl e ↦ insert-put r qs st rs e (rw (e, second_attempt) at h)
    | inr (q, e) ↦
        subst (λ (x : List QualityRecord). (key : Text) → view x key ≡ put r (view qs) key)
          (inserted (refresh source now r q qs).0 st (refresh source now r q qs).1 rs
            (rw (e, second_attempt) at h))
          (refresh-put r q qs e)
  ]

  -- The records are those from before with one update, at the key of the row.
  abbrev pub Updates : Incoming → List QualityRecord → List QualityRecord → Type 0
  Updates r qs rs = (key : Text) → view rs key ≡ put r (view qs) key

  first_attempt-put :
      (others : List QualityRecord) (r : Incoming) (qs : List QualityRecord) (st : Status)
      (rs : List QualityRecord)
      → first_attempt source now others r qs ≡ some (st, rs)
      → Updates r qs rs ⊎ Updates r (qs ++ others) rs
  unfolding first_attempt
  first_attempt-put others r qs st rs h = elim (Option-cases (find_record r.idem_key qs)) [
    | inr (q, e) ↦ inl (
        subst (Updates r qs)
          (inserted (refresh source now r q qs).0 st (refresh source now r q qs).1 rs
            (rw (e, first_attempt) at h))
          (refresh-put r q qs e))
    | inl e ↦ elim (Option-cases (find_record r.idem_key (qs ++ others))) [
      | inr (q, f) ↦ inr (second_attempt-put r (qs ++ others) st rs (rw (e, f, first_attempt) at h))
      | inl f ↦ elim (Option-cases (insert source now r (qs ++ others))) [
        | inl again ↦
            inr (second_attempt-put r (qs ++ others) st rs (rw (e, f, again, first_attempt) at h))
        | inr ((st1, rs1), done) ↦ inr (
            subst (Updates r (qs ++ others))
              (inserted st1 st rs1 rs (rw (e, f, done, first_attempt) at h))
              (insert-put r (qs ++ others) st1 rs1 f done))
      ]
    ]
  ]

  -- An upsert that succeeds is an update of the records at one key, as they were before, or with what
  -- others inserted meanwhile.
  pub upsert_record-put :
      (others : List QualityRecord) (d : Incoming) (qs : List QualityRecord) (st : Status)
      (rs : List QualityRecord)
      → upsert_record source now others d qs ≡ some (st, rs)
      → Updates (normalize d) qs rs ⊎ Updates (normalize d) (qs ++ others) rs
  unfolding upsert_record
  upsert_record-put others d qs st rs h =
      let r = normalize d in
      elim (Bool-cases (is_nil r.idem_key || is_nil r.lot || is_none r.inspected_at)) [
        | inl e ↦ absurd (no_insert st rs (rw (e, upsert_record) at h))
        | inr e ↦ first_attempt-put others r qs st rs (rw (e, upsert_record) at h)
      ]
