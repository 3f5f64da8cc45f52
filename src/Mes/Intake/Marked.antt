-- ===== src/Mes/Intake/Marked.antt =====
-- What the marks of a poll say (`poll_once` of services/mes/mes_app/intake.py).
use mathlib.Core.Path.{subst}
use mathlib.Core.Logic.{⊎_map, ⊎_elim}
use pipe_vision.Prelude.{
  ℕ, ◌≡◌, ◌⊎◌, ==_iff, refl, true, false, ◌&&◌, not, List, [], ◌∷◌, inl, inr, arith, In, Bool-cases,
  length, List-cases,
}
use pipe_vision.Mes.Records.Values.{number_option}
use pipe_vision.Mes.Records.Upsert.{Stored}
use pipe_vision.Mes.Intake.{
  IfRow, MesDb, Around, read_batch, store_rows, mark_row, mark_rows, mark_read, store_and_mark,
  poll_once, is_unchanged, PollResult, Polled, start_result, autostart_work_orders,
}
use pipe_vision.Mes.Intake.Batch.{DistinctKeys, DistinctKeys-read_batch, store_rows-Stored}

-- The version of a row that was read: the number, and the time of the last change.
abbrev pub SameVersion : IfRow → IfRow → Type 0
SameVersion r x = (x.id ≡ r.id) × (x.row.updated_at ≡ r.row.updated_at)

unchanged-SameVersion : (r x : IfRow) → is_unchanged r x ≡ true → SameVersion r x
unfolding is_unchanged
unchanged-SameVersion r x h = (
  (==_iff x.id r.id).0 (ground arith),
  number_option x.row.updated_at r.row.updated_at (ground arith),
)

mark_row-SameVersion :
    (now : ℕ) (r : IfRow) (t : List IfRow) (y : IfRow)
    → In y (mark_row now r t).1
    → In y t ⊎ SameVersion r y
unfolding mark_row
mark_row-SameVersion now r [] y i = absurd i
mark_row-SameVersion now r (x ∷ xs) y i = elim (Bool-cases (is_unchanged r x)) [
  | inl e ↦
      ⊎_elim (λ same. inr (subst (SameVersion r) same (unchanged-SameVersion r x e)))
        (λ later. ⊎_map inr (λ v. v) (mark_row-SameVersion now r xs y later))
        (rw (e, mark_row) at i)
  | inr e ↦
      ⊎_elim (λ same. inl (inl same))
        (λ later. ⊎_map inr (λ v. v) (mark_row-SameVersion now r xs y later))
        (rw (e, mark_row) at i)
]

-- A row that is as it was, or one that a mark was put on for a row that was read.
abbrev pub Accounted : (IfRow → Type 0) → List IfRow → List IfRow → IfRow → Type 0
Accounted P rows t y = In y t ⊎ ((r : IfRow) × In r rows × SameVersion r y × P r)

mark_rows-Accounted :
    (P : IfRow → Type 0) (now : ℕ) (rows t : List IfRow)
    → ((r : IfRow) → In r rows → P r)
    → (y : IfRow) → In y (mark_rows now rows t).1
    → Accounted P rows t y
unfolding mark_rows
mark_rows-Accounted P now [] t p y i = inl i
mark_rows-Accounted P now (r ∷ rs) t p y i =
    ⊎_elim
      (λ before.
        ⊎_map (λ h. h) (λ v. (r, inl refl, v, p r (inl refl)))
          (mark_row-SameVersion now r t y before))
      (λ (x, there, v, q). inr (x, inr there, v, q))
      (mark_rows-Accounted P now rs (mark_row now r t).1 (λ x there. p x (inr there)) y i)

module _ (around : Around) (now : ℕ) where
  -- What a poll does once it has read rows.
  abbrev Sound : List IfRow → List IfRow → Polled → Type 0
  Sound rows mid (res, db, t) =
      ((y : IfRow) → In y t → Accounted (λ r. Stored r.row db.records) rows mid y)
      × (res.error ≡ false → (r : IfRow) → In r rows → Stored r.row db.records)

  mark_read-Sound :
      (rows : List IfRow) (res : PollResult) (db : MesDb) (t : List IfRow)
      → ((r : IfRow) → In r rows → Stored r.row db.records)
      → Sound rows t (mark_read around now rows res db t)
  unfolding mark_read
  mark_read-Sound rows res db t p = elim (Bool-cases around.mark_fails) [
    | inl e ↦ rw (e, mark_read) (λ y i. inl i, λ ok. p)
    | inr e ↦
        rw (e, mark_read)
          (λ y i. mark_rows-Accounted (λ r. Stored r.row db.records) now rows t p y i, λ ok. p)
  ]

  store_and_mark-Sound :
      (rows : List IfRow) (db : MesDb) (t : List IfRow)
      → DistinctKeys rows
      → Sound rows (around.meanwhile t) (store_and_mark around now rows db t)
  unfolding store_and_mark
  store_and_mark-Sound rows db t d =
      let (done, res, qs) = store_rows around now rows (start_result (length rows)) db.records in
      elim (Bool-cases (done && not around.commit_fails)) [
        | inl e ↦
            rw (e, store_and_mark)
              (mark_read-Sound rows res
                (record { records = qs; orders = autostart_work_orders rows db.orders })
                (around.meanwhile t)
                (store_rows-Stored around now rows (start_result (length rows)) db.records d
                  (ground arith)))
        | inr e ↦ rw (e, store_and_mark) (λ y i. inl i, λ ok. cc)
      ]

module _ (around : Around) (now batch : ℕ) where
  -- What a poll does.
  abbrev Fine : List IfRow → List IfRow → Polled → Type 0
  Fine rows t (res, db, t') =
      ((y : IfRow)
        → In y t'
        → In y t ⊎ Accounted (λ r. Stored r.row db.records) rows (around.meanwhile t) y)
      × (res.error ≡ false → (r : IfRow) → In r rows → Stored r.row db.records)

  poll_once-read :
      (db : MesDb) (t : List IfRow) (x : IfRow) (xs : List IfRow)
      → around.read_fails ≡ false
      → read_batch batch t ≡ x ∷ xs
      → poll_once around now batch db t ≡ store_and_mark around now (x ∷ xs) db t
  unfolding poll_once
  poll_once-read db t x xs e m = rw (e, poll_once) (rw m refl)

  poll_once-Fine :
      (db : MesDb) (t : List IfRow)
      → DistinctKeys t
      → Fine (read_batch batch t) t (poll_once around now batch db t)
  unfolding poll_once
  poll_once-Fine db t d = elim (Bool-cases around.read_fails) [
    | inl e ↦ rw (e, poll_once) (λ y i. inl i, λ ok. cc)
    | inr e ↦ elim (List-cases (read_batch batch t)) [
      | inl n ↦ rw (e, poll_once) (rw n (λ y i. inl i, λ ok r i. absurd i))
      | inr (x, xs, m) ↦
          let (kept, done) =
            store_and_mark-Sound around now (x ∷ xs) db t
              (rw m at (DistinctKeys-read_batch batch t d)) in
          rw (poll_once-read db t x xs e m) (rw m (λ y i. inr (kept y i), done))
    ]
  ]

-- Where the keys of the table are distinct: each row of the table after a poll is one that was there
-- before, or one that AIVIS made meanwhile, or it is a row that the poll had read, in the version that
-- it had read, and the MES then has a record of its key that has the values of what was read in the
-- columns that an upsert keeps up to date (verdicts in capitals; a null in the row counts for the
-- second verdict and the work order alone). Nothing that the MES did not store so is marked as
-- consumed, whichever accesses fail.
pub marked-Stored :
    (around : Around) (now batch : ℕ) (db : MesDb) (t : List IfRow)
    → DistinctKeys t
    → (y : IfRow) → In y (poll_once around now batch db t).2
    → In y t
      ⊎ Accounted
          (λ r. Stored r.row (poll_once around now batch db t).1.records)
          (read_batch batch t)
          (around.meanwhile t)
          y
marked-Stored around now batch db t d y i = (poll_once-Fine around now batch db t d).0 y i

-- Where the keys of the table are distinct, after a poll without an error the MES has, for each row
-- that was read, a record of its key that has its values in the columns that an upsert keeps up to
-- date (verdicts in capitals; a null in the row counts for the second verdict and the work order
-- alone), even if others inserted records meanwhile.
pub poll_once-Stored :
    (around : Around) (now batch : ℕ) (db : MesDb) (t : List IfRow)
    → DistinctKeys t
    → (poll_once around now batch db t).0.error ≡ false
    → (r : IfRow) → In r (read_batch batch t)
    → Stored r.row (poll_once around now batch db t).1.records
poll_once-Stored around now batch db t d ok r i = (poll_once-Fine around now batch db t d).1 ok r i
