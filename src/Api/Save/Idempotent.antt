-- ===== src/Api/Save/Idempotent.antt =====
-- What becomes of a result that is sent again (`save_inspection`,
-- services/api/core/inspection_service.py).
use pipe_vision.Prelude.{
  ℕ, Bool, true, false, ◌&&◌, not, Option, none, some, List, [], ◌∷◌, ◌++◌, ◌≡◌, refl, sym, ◌∙◌, ap,
  arith, inl, inr, Bool-cases, Option-cases, ==_iff, ◌==◌,
}
use pipe_vision.Prelude.Text.{text_eq_refl}
use pipe_vision.Api.Rows.{InspectionResult, Inspection, Db, same_natural_key}
use pipe_vision.Api.Save.{
  Config, find_row, find_by_natural_key, insert_inspection, Insert, violates, apply, Saved,
  returned, existing_or_raise, save_new, save_inspection, is_staged,
}

==-refl : (n : ℕ) → (n == n) ≡ true
==-refl n = (==_iff n n).1 refl

-- The five columns of the natural key.
abbrev SameKey : InspectionResult → InspectionResult → Type 0
SameKey a b =
    (a.cam_id ≡ b.cam_id)
    × (a.inspected_at ≡ b.inspected_at)
    × (a.lot ≡ b.lot)
    × (a.item_code ≡ b.item_code)
    × (a.tube_index ≡ b.tube_index)

same_natural_key_of : (a b : InspectionResult) → SameKey a b → same_natural_key a b ≡ true
unfolding same_natural_key
same_natural_key_of a b (h1, h2, h3, h4, h5) =
    rw (h1, h2, h3, h4, h5)
      (ground (
        arith,
        text_eq_refl b.cam_id,
        ==-refl b.inspected_at,
        text_eq_refl b.lot,
        text_eq_refl b.item_code,
        ==-refl b.tube_index,
      ))

find_row_of :
    (a b : InspectionResult) (xs : List Inspection) → SameKey a b → find_row a xs ≡ find_row b xs
unfolding find_row same_natural_key
find_row_of a b [] h = refl
find_row_of a b (x ∷ xs) (h1, h2, h3, h4, h5) =
    rw (h1, h2, h3, h4, h5, find_row_of a b xs (h1, h2, h3, h4, h5)) refl

insert-SameKey :
    (cfg : Config) (id : ℕ) (r : InspectionResult) (db : Db)
    → SameKey (insert_inspection cfg id r db).row.columns r
unfolding insert_inspection
insert-SameKey cfg id r db = elim (Bool-cases (is_staged cfg r)) [
  | inl e ↦ rw e (refl, refl, refl, refl, refl)
  | inr e ↦ rw e (refl, refl, refl, refl, refl)
]

find_row-last :
    (r : InspectionResult) (xs : List Inspection) (x : Inspection)
    → find_row r xs ≡ none
    → same_natural_key x.columns r ≡ true
    → find_row r (xs ++ x ∷ []) ≡ some x
unfolding find_row
find_row-last r [] x h k = rw k refl
find_row-last r (y ∷ ys) x h k = ground (arith, find_row-last r ys x)

pub apply-found :
    (i : Insert) (r : InspectionResult) (db : Db)
    → SameKey i.row.columns r
    → violates i db ≡ false
    → find_by_natural_key (apply i db) r ≡ some i.row
unfolding apply violates find_by_natural_key
apply-found i r db k h = elim (Option-cases (find_row i.row.columns db.inspections)) [
  | inl e ↦
      find_row-last r db.inspections i.row (sym (find_row_of i.row.columns r db.inspections k) ∙ e)
        (same_natural_key_of i.row.columns r k)
  | inr (x, e) ↦ cc (rw e at h)
]

and-not : (a b : Bool) → (a && not b) ≡ true → b ≡ false
and-not a b h = ground arith

pub returned-row : {x y : Inspection} {b c : Bool} → returned x b ≡ returned y c → x ≡ y
returned-row h = cc

existing-found :
    (o : Option Inspection) (x : Inspection) (created : Bool)
    → existing_or_raise o ≡ returned x created
    → (o ≡ some x) × (created ≡ false)
existing-found none x created h = (cc, cc)
existing-found (some y) x created h = (cc, cc)

module _ (cfg : Config) (accepts : InspectionResult → Bool)
    (before_insert before_commit : Db → Db) where
  abbrev save : ℕ → InspectionResult → Db → Saved × Db
  save = save_inspection cfg accepts before_insert before_commit

  abbrev new : ℕ → InspectionResult → Db → Saved × Db
  new = save_new cfg accepts before_insert before_commit

  save_new-found :
      (id : ℕ) (r : InspectionResult) (db : Db) (x : Inspection) (created : Bool)
      → (new id r db).0 ≡ returned x created
      → find_by_natural_key (new id r db).1 r ≡ some x
  unfolding save_new
  save_new-found id r db x created h =
      let db1 = before_insert db in
      let i = insert_inspection cfg id r db1 in
      let db2 = before_commit db1 in
      elim (Bool-cases (accepts r && not (violates i db2))) [
        | inl e ↦ rw e (
            apply-found i r db2 (insert-SameKey cfg id r db1) (and-not (accepts r) _ e)
            ∙ ap some (returned-row (rw e at h)))
        | inr e ↦ rw e (existing-found (find_by_natural_key db2 r) x created (rw e at h)).0
      ]

  save-existing :
      (id : ℕ) (r : InspectionResult) (db : Db) (x : Inspection)
      → find_by_natural_key db r ≡ some x
      → save id r db ≡ (returned x false, db)
  unfolding save_inspection
  save-existing id r db x h = rw (h, save_inspection) refl

  pub save_inspection-found :
      (id : ℕ) (r : InspectionResult) (db : Db) (x : Inspection) (created : Bool)
      → (save id r db).0 ≡ returned x created
      → find_by_natural_key (save id r db).1 r ≡ some x
  unfolding save_inspection
  save_inspection-found id r db x created h = elim (Option-cases (find_by_natural_key db r)) [
    | inl e ↦
        rw (e, save_inspection) (save_new-found id r db x created (rw (e, save_inspection) at h))
    | inr (y, e) ↦
        rw (e, save_inspection) (e ∙ ap some (returned-row (rw (e, save_inspection) at h)))
  ]

-- If saving a result answers with a row, new or not, whatever other transactions commit meanwhile, then
-- saving it again on the tables that are left, by a server however set up, answers with that row as
-- one that is not new, and leaves the tables as they are.
pub resend_answers_same_row :
    (cfg cfg' : Config) (accepts accepts' : InspectionResult → Bool) (f g f' g' : Db → Db)
    (id id' : ℕ) (r : InspectionResult) (db : Db) (x : Inspection) (created : Bool)
    → (save_inspection cfg accepts f g id r db).0 ≡ returned x created
    → let db' = (save_inspection cfg accepts f g id r db).1 in
      save_inspection cfg' accepts' f' g' id' r db' ≡ (returned x false, db')
resend_answers_same_row cfg cfg' accepts accepts' f g f' g' id id' r db x created h =
    save-existing cfg' accepts' f' g' id' r _ x
      (save_inspection-found cfg accepts f g id r db x created h)
