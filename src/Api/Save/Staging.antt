-- ===== src/Api/Save/Staging.antt =====
-- The staging row of a saved result (services/api/core/inspection_service.py `_insert_inspection`).
use pipe_vision.Prelude.{
  ℕ, Bool, true, ◌&&◌, not, Option, none, some, List, [], ◌∷◌, ◌++◌, ◌≡◌, refl, arith, inl, inr,
  Bool-cases, Option-cases, if◌then◌else◌,
}
use pipe_vision.Prelude.Text.{Text, text_eq_refl}
use mathlib.Core.Path.{subst}
use mathlib.Core.Logic.{◌≢◌}
use pipe_vision.Api.Save.Idempotent.{returned-row}
use pipe_vision.Api.Rows.{InspectionResult, Inspection, Db, MesQualityIf, make_idem_key}
use pipe_vision.Api.Save.{
  Config, find_by_natural_key, find_staged, found, new_row, insert_inspection, violates, apply,
  returned, existing_or_raise, save_new, save_inspection, is_staged, staged_row,
}

find_staged-last :
    (s : MesQualityIf) (ss : List MesQualityIf)
    → found (find_staged s.idem_key (ss ++ s ∷ [])) ≡ true
unfolding find_staged
find_staged-last s [] = rw (text_eq_refl s.idem_key) refl
find_staged-last s (t ∷ ts) = ground (arith, find_staged-last s ts)

-- What a saved result is to leave: a staging row with its key and a row marked as linked, where
-- results are staged, and otherwise the staging rows as they were.
abbrev pub Linked : Config → InspectionResult → Inspection → Db → Db → Type 0
Linked cfg r x before after =
    if is_staged cfg r
    then (x.columns.mes_synced ≡ true)
      × (found (find_staged (make_idem_key cfg.isoformat r) after.staged) ≡ true)
    else (after.staged ≡ before.staged)

insert-Linked :
    (cfg : Config) (id : ℕ) (r : InspectionResult) (db1 db2 : Db)
    → ((key : Text)
        → found (find_staged key db1.staged) ≡ true
        → found (find_staged key db2.staged) ≡ true)
    → let i = insert_inspection cfg id r db1 in Linked cfg r i.row db2 (apply i db2)
unfolding insert_inspection apply
insert-Linked cfg id r db1 db2 keeps = elim (Bool-cases (is_staged cfg r)) [
  | inl e ↦ elim (Bool-cases (found (find_staged (make_idem_key cfg.isoformat r) db1.staged))) [
    | inl k ↦ rw (e, k) (refl, keeps _ k)
    | inr k ↦
        rw (e, k)
          (
            refl,
            find_staged-last (staged_row (make_idem_key cfg.isoformat r) (new_row id r)) db2.staged,
          )
  ]
  | inr e ↦ rw e refl
]

returned-Linked :
    (cfg : Config) (r : InspectionResult) (x y : Inspection) (before after : Db)
    → returned y true ≡ returned x true
    → Linked cfg r y before after
    → Linked cfg r x before after
returned-Linked cfg r x y before after e h =
    subst (λ z. Linked cfg r z before after) (returned-row e) h

not_new : (o : Option Inspection) (x : Inspection) → existing_or_raise o ≢ returned x true
not_new none x h = cc
not_new (some y) x h = cc

save_new-Linked :
    (cfg : Config) (accepts : InspectionResult → Bool) (f g : Db → Db)
    → ((key : Text) (db : Db)
        → found (find_staged key db.staged) ≡ true
        → found (find_staged key (g db).staged) ≡ true)
    → (id : ℕ) (r : InspectionResult) (db : Db) (x : Inspection)
    → (save_new cfg accepts f g id r db).0 ≡ returned x true
    → Linked cfg r x (g (f db)) (save_new cfg accepts f g id r db).1
unfolding save_new
save_new-Linked cfg accepts f g keeps id r db x h =
    let db1 = f db in
    let i = insert_inspection cfg id r db1 in
    let db2 = g db1 in
    elim (Bool-cases (accepts r && not (violates i db2))) [
      | inl e ↦
          rw (e, save_new)
            (returned-Linked cfg r x i.row db2 (apply i db2) (rw (e, save_new) at h)
              (insert-Linked cfg id r db1 db2 (λ key. keeps key db1)))
      | inr e ↦ absurd (not_new (find_by_natural_key db2 r) x (rw (e, save_new) at h))
    ]

-- If saving a result answers with a new row, and the transactions that commit during it before the
-- insert may do anything while those before the commit take no staging row away, then in the way of
-- the staging table, for a lot that is not a training lot, the row is marked as linked and a staging
-- row with the result's key stands in the tables; in any other case the staging rows are those that
-- these transactions left.
pub save_inspection-Linked :
    (cfg : Config) (accepts : InspectionResult → Bool) (f g : Db → Db)
    → ((key : Text) (db : Db)
        → found (find_staged key db.staged) ≡ true
        → found (find_staged key (g db).staged) ≡ true)
    → (id : ℕ) (r : InspectionResult) (db : Db) (x : Inspection)
    → (save_inspection cfg accepts f g id r db).0 ≡ returned x true
    → Linked cfg r x (g (f db)) (save_inspection cfg accepts f g id r db).1
unfolding save_inspection
save_inspection-Linked cfg accepts f g keeps id r db x h =
    elim (Option-cases (find_by_natural_key db r)) [
      | inl e ↦
          rw (e, save_inspection)
            (save_new-Linked cfg accepts f g keeps id r db x (rw (e, save_inspection) at h))
      | inr (y, e) ↦ absurd (not_new (some y) x (rw (e, save_inspection) at h))
    ]
