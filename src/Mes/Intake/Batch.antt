-- ===== src/Mes/Intake/Batch.antt =====
-- The rows of one poll and their records (`poll_once` of services/mes/mes_app/intake.py).
use mathlib.Core.Path.{subst}
use mathlib.Core.Logic.{⊎_elim}
use pipe_vision.Prelude.{
  zero, suc, ℕ, ◌≡◌, Bool, true, false, List, [], ◌∷◌, inl, inr, arith, In, All, Option-cases,
  if◌then◌else◌, take,
}
use pipe_vision.Prelude.Text.{Text, text_eq, text_eq_iff}
use pipe_vision.Api.Rows.{MesQualityIf}
use pipe_vision.Mes.Records.{QualityRecord, table, incoming, upsert_record}
use pipe_vision.Mes.Records.Upsert.{Stored, upsert_record-Stored, upsert_record-other}
use pipe_vision.Mes.Intake.{IfRow, Around, unconsumed, read_batch, store_rows, PollResult, count}

-- No two rows have one key (the unique constraint of `mes_quality_if`).
abbrev pub DistinctKeys : List IfRow → Type 0
DistinctKeys [] = Unit
DistinctKeys (x ∷ xs) =
    All (λ y. text_eq x.row.idem_key y.row.idem_key ≡ false) xs × DistinctKeys xs

All-if :
    (P : IfRow → Type 0) (b : Bool) (x : IfRow) (xs : List IfRow)
    → P x
    → All P xs
    → All P (if b then xs else x ∷ xs)
All-if P true x xs p a = a
All-if P false x xs p a = (p, a)

All-unconsumed : (P : IfRow → Type 0) (t : List IfRow) → All P t → All P (unconsumed t)
unfolding unconsumed
All-unconsumed P [] a = tt
All-unconsumed P (x ∷ xs) (p, a) =
    All-if P x.row.consumed x (unconsumed xs) p (All-unconsumed P xs a)

DistinctKeys-if :
    (b : Bool) (x : IfRow) (xs : List IfRow)
    → All (λ y. text_eq x.row.idem_key y.row.idem_key ≡ false) xs
    → DistinctKeys xs
    → DistinctKeys (if b then xs else x ∷ xs)
DistinctKeys-if true x xs a d = d
DistinctKeys-if false x xs a d = (a, d)

DistinctKeys-unconsumed : (t : List IfRow) → DistinctKeys t → DistinctKeys (unconsumed t)
unfolding unconsumed
DistinctKeys-unconsumed [] d = tt
DistinctKeys-unconsumed (x ∷ xs) (a, d) =
    DistinctKeys-if x.row.consumed x (unconsumed xs)
      (All-unconsumed (λ y. text_eq x.row.idem_key y.row.idem_key ≡ false) xs a)
      (DistinctKeys-unconsumed xs d)

All-take : (P : IfRow → Type 0) (n : ℕ) (t : List IfRow) → All P t → All P (take n t)
All-take P zero t a = tt
All-take P (suc n) [] a = tt
All-take P (suc n) (x ∷ xs) (p, a) = (p, All-take P n xs a)

DistinctKeys-take : (n : ℕ) (t : List IfRow) → DistinctKeys t → DistinctKeys (take n t)
DistinctKeys-take zero t d = tt
DistinctKeys-take (suc n) [] d = tt
DistinctKeys-take (suc n) (x ∷ xs) (a, d) =
    (All-take (λ y. text_eq x.row.idem_key y.row.idem_key ≡ false) n xs a, DistinctKeys-take n xs d)

text_ne_sym : (a b : Text) → text_eq a b ≡ false → text_eq b a ≡ false
text_ne_sym a b h = ground (arith, text_eq_iff a b, text_eq_iff b a)

module _ (around : Around) (now : ℕ) where
  -- What is stored stays so while rows of other keys are stored.
  store_rows-other :
      (xs : List IfRow) (s : MesQualityIf) (res : PollResult) (qs : List QualityRecord)
      → All (λ y. text_eq s.idem_key y.row.idem_key ≡ false) xs
      → Stored s qs
      → Stored s (store_rows around now xs res qs).2
  unfolding store_rows
  store_rows-other [] s res qs a h = h
  store_rows-other (x ∷ xs) s res qs (d, a) h =
      elim (Option-cases
        (upsert_record table now (around.others x.row.idem_key) (incoming x.row) qs)) [
          | inl e ↦ rw (e, store_rows) h
          | inr ((status, qs'), e) ↦
              rw (e, store_rows)
                (store_rows-other xs s (count status res) qs' a (
                  upsert_record-other table now (around.others x.row.idem_key) x.row s qs status qs'
                    (text_ne_sym s.idem_key x.row.idem_key d) e h))
        ]

  pub store_rows-Stored :
      (xs : List IfRow) (res : PollResult) (qs : List QualityRecord)
      → DistinctKeys xs
      → (store_rows around now xs res qs).0 ≡ true
      → (r : IfRow) → In r xs
      → Stored r.row (store_rows around now xs res qs).2
  unfolding store_rows
  store_rows-Stored [] res qs d h r i = absurd i
  store_rows-Stored (x ∷ xs) res qs (a, d) h r i =
      elim (Option-cases
        (upsert_record table now (around.others x.row.idem_key) (incoming x.row) qs)) [
          | inl e ↦ cc (rw (e, store_rows) at h)
          | inr ((status, qs'), e) ↦
              rw (e, store_rows)
                (⊎_elim
                  (λ same.
                    subst
                      (λ (y : IfRow).
                        Stored y.row (store_rows around now xs (count status res) qs').2)
                      same
                      (store_rows-other xs x.row (count status res) qs' a (
                        upsert_record-Stored table now (around.others x.row.idem_key) x.row qs
                          status qs' e)))
                  (λ later.
                    store_rows-Stored xs (count status res) qs' d (rw (e, store_rows) at h) r later)
                  i)
        ]

pub DistinctKeys-read_batch :
    (batch : ℕ) (t : List IfRow) → DistinctKeys t → DistinctKeys (read_batch batch t)
unfolding read_batch
DistinctKeys-read_batch batch t d =
    DistinctKeys-take batch (unconsumed t) (DistinctKeys-unconsumed t d)
