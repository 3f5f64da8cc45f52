-- ===== src/Api/Watchdog/Progress.antt =====
-- What a run of the watchdog does (services/api/mes/watchdog.py).
use mathlib.Core.Path.{subst}
use pipe_vision.Prelude.{
  ℕ, zero, suc, ◌+◌, ◌≤◌, ◌≡◌, refl, sym, ap, Bool, true, false, ◌&&◌, ◌||◌, not, Option, List, [],
  ◌∷◌, inl, inr, arith, ◌==◌, length, take, In, All, Bool-cases,
}
use pipe_vision.Prelude.Text.{Text}
use pipe_vision.Api.Rows.{Inspection, MesQualityIf, make_idem_key}
use pipe_vision.Api.Save.{Config, is_table, staged_row}
use pipe_vision.Api.Watchdog.{
  Transport, unconfigured, send, set_synced, Linkage, is_pending, unsynced, insert_by_time,
  sort_by_time, pending_rows, record_link, sync_row, sync_rows, run_watchdog_once,
}

In-insert_by_time :
    (a r : Inspection) (xs : List Inspection) → In a (r ∷ xs) → In a (insert_by_time r xs)
unfolding insert_by_time
In-insert_by_time a r [] h = h
In-insert_by_time a r (x ∷ xs) h = ground (arith, In-insert_by_time a r xs)

In-sort_by_time : (a : Inspection) (xs : List Inspection) → In a xs → In a (sort_by_time xs)
unfolding sort_by_time
In-sort_by_time a [] h = h
In-sort_by_time a (x ∷ xs) (inl p) = In-insert_by_time a x (sort_by_time xs) (inl p)
In-sort_by_time a (x ∷ xs) (inr i) =
    In-insert_by_time a x (sort_by_time xs) (inr (In-sort_by_time a xs i))

length-insert_by_time :
    (r : Inspection) (xs : List Inspection) → length (insert_by_time r xs) ≡ suc (length xs)
unfolding insert_by_time
length-insert_by_time r [] = refl
length-insert_by_time r (x ∷ xs) = ground (arith, length-insert_by_time r xs)

length-sort_by_time : (xs : List Inspection) → length (sort_by_time xs) ≡ length xs
unfolding sort_by_time
length-sort_by_time [] = refl
length-sort_by_time (x ∷ xs) =
    ground (arith, length-insert_by_time x (sort_by_time xs), length-sort_by_time xs)

too_long : (n : ℕ) → ¬ (suc n ≤ 0)
too_long n h = ground arith

take_all : {A : Type 0} (n : ℕ) (xs : List A) → length xs ≤ n → take n xs ≡ xs
take_all zero [] h = refl
take_all (suc n) [] h = refl
take_all zero (x ∷ xs) h = absurd (too_long (length xs) h)
take_all (suc n) (x ∷ xs) h = ap (λ ys. x ∷ ys) (take_all n xs (omega arith))

In-unsynced :
    (cfg : Config) (a : Inspection) (xs : List Inspection)
    → In a xs
    → is_pending cfg a ≡ true
    → In a (unsynced cfg xs)
unfolding unsynced
In-unsynced cfg a [] i p = absurd i
In-unsynced cfg a (x ∷ xs) (inl e) p = rw (e, p) (inl refl)
In-unsynced cfg a (x ∷ xs) (inr i) p = ground (arith, In-unsynced cfg a xs)

-- Whether one of the rows has this number.
names : ℕ → List Inspection → Bool
names id [] = false
names id (r ∷ rs) = r.id == id || names id rs

names_of_In : (a : Inspection) (rs : List Inspection) → In a rs → names a.id rs ≡ true
unfolding names
names_of_In a [] i = absurd i
names_of_In a (r ∷ rs) (inl e) = rw (e) (ground arith)
names_of_In a (r ∷ rs) (inr i) = ground (arith, names_of_In a rs)

-- Every row that is to be linked is one of these.
abbrev Covered : Config → List Inspection → List Inspection → Type 0
Covered cfg rs xs = All (λ (y : Inspection). (is_pending cfg y && not (names y.id rs)) ≡ false) xs

set_synced-Covered :
    (cfg : Config) (r : Inspection) (rs xs : List Inspection)
    → Covered cfg (r ∷ rs) xs
    → Covered cfg rs (set_synced r.id xs)
unfolding set_synced names is_pending
set_synced-Covered cfg r rs [] h = tt
set_synced-Covered cfg r rs (x ∷ xs) h = elim (Bool-cases (x.id == r.id)) [
  | inl e ↦ rw (e) (refl, set_synced-Covered cfg r rs xs h.1)
  | inr e ↦ rw (e) (ground arith, set_synced-Covered cfg r rs xs h.1)
]

Covered-start :
    (cfg : Config) (rs xs : List Inspection)
    → ((a : Inspection) → In a xs → is_pending cfg a ≡ true → In a rs)
    → Covered cfg rs xs
Covered-start cfg rs [] h = tt
Covered-start cfg rs (x ∷ xs) h = elim (Bool-cases (is_pending cfg x)) [
  | inl p ↦ (
    rw (p, names_of_In x rs (h x (inl refl) p)) refl,
    Covered-start cfg rs xs (λ a i. h a (inr i)),
  )
  | inr p ↦ (rw p refl, Covered-start cfg rs xs (λ a i. h a (inr i)))
]

Covered-unsynced : (cfg : Config) (xs : List Inspection) → Covered cfg [] xs → unsynced cfg xs ≡ []
unfolding unsynced names
Covered-unsynced cfg [] h = refl
Covered-unsynced cfg (x ∷ xs) h = ground (arith, Covered-unsynced cfg xs)

module _ {S : Type 0} (cfg : Config) (post : MesQualityIf → S → Option ℕ × S)
    (transport : Transport) (stage_fails : Text → Bool) where
  -- A run counts each row that it tries as linked or as failed.
  sync_rows-tally :
      (rows : List Inspection) (l : Linkage S)
      → ((sync_rows cfg post transport stage_fails rows l).0.scanned ≡ length rows)
        × ((sync_rows cfg post transport stage_fails rows l).0.synced
              + (sync_rows cfg post transport stage_fails rows l).0.failed
            ≡ length rows)
  unfolding sync_rows
  sync_rows-tally [] l = (refl, refl)
  sync_rows-tally (r ∷ rs) l =
      let later = sync_rows-tally rs (sync_row cfg post transport stage_fails r l).1 in
      (omega arith, ground (arith, later))

  module _ (stages : (key : Text) → stage_fails key ≡ false)
      (sends : (body : MesQualityIf) (srv : S)
        → (is_table cfg.mes_mode || (send post transport body srv).0) ≡ true) where
    rest_sends :
        (body : MesQualityIf) (srv : S)
        → is_table cfg.mes_mode ≡ false
        → (send post transport body srv).0 ≡ true
    rest_sends body srv e = rw e at (sends body srv)

    sync_row-synced :
        (r : Inspection) (l : Linkage S)
        → (sync_row cfg post transport stage_fails r l).1.db.inspections
          ≡ set_synced r.id l.db.inspections
    unfolding sync_row record_link
    sync_row-synced r l = elim (Bool-cases (is_table cfg.mes_mode)) [
      | inl e ↦ rw (e, stages (make_idem_key cfg.isoformat r.columns), sync_row, record_link) refl
      | inr e ↦
          rw
            (
              e,
              stages (make_idem_key cfg.isoformat r.columns),
              rest_sends (staged_row (make_idem_key cfg.isoformat r.columns) r) l.mes e,
              sync_row,
              record_link,
            )
            refl
    ]

    sync_rows-Covered :
        (rows : List Inspection) (l : Linkage S)
        → Covered cfg rows l.db.inspections
        → Covered cfg [] (sync_rows cfg post transport stage_fails rows l).1.db.inspections
    unfolding sync_rows
    sync_rows-Covered [] l h = h
    sync_rows-Covered (r ∷ rs) l h =
        sync_rows-Covered rs (sync_row cfg post transport stage_fails r l).1
          (rw (sync_row-synced r l) (set_synced-Covered cfg r rs l.db.inspections h))

    -- Where staging rows can be written and the MES takes what is sent, a run links every row.
    pub run_links_all :
        (batch_size : ℕ) (l : Linkage S)
        → length (unsynced cfg l.db.inspections) ≤ batch_size
        → unsynced cfg
            (run_watchdog_once cfg post transport stage_fails batch_size l).1.db.inspections
          ≡ []
    unfolding run_watchdog_once pending_rows
    run_links_all batch_size l small = Covered-unsynced cfg _ (
        sync_rows-Covered (pending_rows cfg batch_size l.db) l (
          Covered-start cfg (pending_rows cfg batch_size l.db) l.db.inspections (λ a i p.
            subst (In a)
              (sym (
                take_all batch_size (sort_by_time (unsynced cfg l.db.inspections))
                  (rw (length-sort_by_time (unsynced cfg l.db.inspections)) small)))
              (In-sort_by_time a (unsynced cfg l.db.inspections)
                (In-unsynced cfg a l.db.inspections i p)))))

module _ {S : Type 0} (cfg : Config) (post : MesQualityIf → S → Option ℕ × S)
    (stage_fails : Text → Bool) (by_rest : is_table cfg.mes_mode ≡ false) where
  sync_row_unconfigured :
      (r : Inspection) (l : Linkage S) → sync_row cfg post unconfigured stage_fails r l ≡ (false, l)
  unfolding sync_row record_link send
  sync_row_unconfigured r l = rw (by_rest, sync_row, record_link, send) refl

  sync_rows_unconfigured :
      (rows : List Inspection) (l : Linkage S)
      → ((sync_rows cfg post unconfigured stage_fails rows l).1 ≡ l)
        × ((sync_rows cfg post unconfigured stage_fails rows l).0.failed ≡ length rows)
  unfolding sync_rows
  sync_rows_unconfigured [] l = (refl, refl)
  sync_rows_unconfigured (r ∷ rs) l =
      let later = sync_rows_unconfigured rs l in
      rw (sync_row_unconfigured r l, sync_rows) (later.0, omega (arith, later.1))

  -- With the transport of a MES that is not configured, a run changes no row, and counts each row that
  -- it tries as failed.
  pub no_mes_links_nothing :
      (batch_size : ℕ) (l : Linkage S)
      → ((run_watchdog_once cfg post unconfigured stage_fails batch_size l).1 ≡ l)
        × ((run_watchdog_once cfg post unconfigured stage_fails batch_size l).0.failed
            ≡ length (pending_rows cfg batch_size l.db))
  unfolding run_watchdog_once
  no_mes_links_nothing batch_size l = sync_rows_unconfigured (pending_rows cfg batch_size l.db) l
