-- ===== src/Api/Save/Lasting.antt =====
-- A row that is in the tables stays there (`save_inspection`,
-- services/api/core/inspection_service.py).
use pipe_vision.Prelude.{
  ℕ, Bool, true, ◌&&◌, not, Option, some, List, [], ◌∷◌, ◌++◌, ◌≡◌, refl, arith, inl, inr,
  Bool-cases, Option-cases,
}
use pipe_vision.Api.Rows.{InspectionResult, Inspection, Db}
use pipe_vision.Api.Save.{
  Config, Insert, found, find_row, find_by_natural_key, apply, insert_inspection, violates,
  save_new, save_inspection,
}

-- The tables have a row with the natural key of the result.
abbrev pub Stored : InspectionResult → Db → Type 0
Stored r db = found (find_by_natural_key db r) ≡ true

-- What other transactions do keeps the rows.
abbrev pub KeepsRows : (Db → Db) → Type 0
KeepsRows f = (r : InspectionResult) (db : Db) → Stored r db → Stored r (f db)

pub found_of : {A : Type 0} (o : Option A) (x : A) → o ≡ some x → found o ≡ true
found_of o x h = rw h refl

found-row-append :
    (r : InspectionResult) (xs : List Inspection) (x : Inspection)
    → found (find_row r xs) ≡ true
    → found (find_row r (xs ++ x ∷ [])) ≡ true
unfolding find_row
found-row-append r [] x h = cc
found-row-append r (y ∷ ys) x h = ground (arith, found-row-append r ys x)

apply-Stored : (i : Insert) (r : InspectionResult) (db : Db) → Stored r db → Stored r (apply i db)
unfolding apply find_by_natural_key
apply-Stored i r db h = found-row-append r db.inspections i.row h

module _ (cfg : Config) (accepts : InspectionResult → Bool) (f g : Db → Db) (id : ℕ)
    (r q : InspectionResult) (kf : KeepsRows f) (kg : KeepsRows g) where
  save_new-Stored : (db : Db) → Stored q db → Stored q (save_new cfg accepts f g id r db).1
  unfolding save_new
  save_new-Stored db h =
      let i = insert_inspection cfg id r (f db) in
      let kept : Stored q (g (f db)) = kg q (f db) (kf q db h) in
      elim (Bool-cases (accepts r && not (violates i (g (f db))))) [
        | inl e ↦ rw e (apply-Stored i q (g (f db)) kept)
        | inr e ↦ rw e kept
      ]

  pub save_inspection-Stored :
      (db : Db) → Stored q db → Stored q (save_inspection cfg accepts f g id r db).1
  unfolding save_inspection
  save_inspection-Stored db h = elim (Option-cases (find_by_natural_key db r)) [
    | inl e ↦ rw (e, save_inspection) (save_new-Stored db h)
    | inr (x, e) ↦ rw (e, save_inspection) h
  ]
