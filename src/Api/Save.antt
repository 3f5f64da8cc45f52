-- ===== src/Api/Save.antt =====
-- `save_inspection` (services/api/core/inspection_service.py) and the staging values of
-- services/api/mes/adapter.py. Other transactions may commit between the look-up and the insert, and
-- between the insert and the commit: what they make of the tables is a function each. `accepts` is
-- whether the other constraints of the tables, such as the foreign keys, hold; the number of a new row
-- comes from a sequence.
pub mod Idempotent
pub mod Lasting
pub mod Staging
use pipe_vision.Prelude.{
  ℕ, zero, suc, Bool, true, false, ◌&&◌, ◌||◌, not, Option, none, some, List, [], ◌∷◌, ◌++◌,
  if◌then◌else◌,
}
use pipe_vision.Prelude.Text.{Text, text_eq}
use pipe_vision.Api.Rows.{
  InspectionResult, Inspection, MesQualityIf, Db, same_natural_key, make_idem_key, is_training_lot,
}

pub data MesMode : Type 0 where
  table rest : MesMode

abbrev pub is_table : MesMode → Bool
is_table table = true
is_table rest = false

-- What the server is set up with: how a time is written, the prefixes of training lots, the way to
-- the MES.
pub record Config : Type 0 where
  pub isoformat : ℕ → Text
  pub training_prefixes : List Text
  pub mes_mode : MesMode

unfoldable pub find_row : InspectionResult → List Inspection → Option Inspection
unfolding same_natural_key
find_row r [] = none
find_row r (x ∷ xs) = if same_natural_key x.columns r then some x else find_row r xs

unfoldable pub find_by_natural_key : Db → InspectionResult → Option Inspection
unfolding find_row
find_by_natural_key db r = find_row r db.inspections

unfoldable pub find_staged : Text → List MesQualityIf → Option MesQualityIf
find_staged key [] = none
find_staged key (s ∷ ss) = if text_eq s.idem_key key then some s else find_staged key ss

abbrev pub found : {A : Type 0} → Option A → Bool
found none = false
found (some _) = true

-- `staging_values`, with the key and the defaults of a new row.
unfoldable pub staged_row : Text → Inspection → MesQualityIf
staged_row key row =
    let c = row.columns in
    record {
      inspection_id = some row.id;
      idem_key = key;
      lot = c.lot;
      item_code = some c.item_code;
      inspected_at = c.inspected_at;
      cam_id = c.cam_id;
      work_order = c.work_order;
      final_verdict = c.final_verdict;
      defect_codes = c.defect_codes;
      meas_length_mm = c.meas_length_mm;
      deviation_mm = c.deviation_mm;
      inspection_stage = c.inspection_stage;
      tube_index = some c.tube_index;
      manual_verdict = c.manual_verdict;
      count_detected = c.count_detected;
      count_expected = c.count_expected;
      consumed = false;
      consumed_at = none;
      updated_at = none;
    }

abbrev bbox_or_null : Option (List ℕ) → Option (List ℕ)
bbox_or_null none = none
bbox_or_null (some []) = none
bbox_or_null (some (x ∷ xs)) = some (x ∷ xs)

-- The row of `_insert_inspection` before the staging.
abbrev pub new_row : ℕ → InspectionResult → Inspection
new_row id r = record { id = id; columns = record r { tube_bbox = bbox_or_null r.tube_bbox } }

abbrev pub is_staged : Config → InspectionResult → Bool
is_staged cfg r = is_table cfg.mes_mode && not (is_training_lot cfg.training_prefixes r.lot)

abbrev pub mark_synced : Inspection → Inspection
mark_synced row = record row { columns = record row.columns { mes_synced = true } }

-- What the transaction adds: the row, and the staging row if there is none with its key.
pub record Insert : Type 0 where
  pub row : Inspection
  pub staging : Option MesQualityIf

-- `_insert_inspection`
unfoldable pub insert_inspection : Config → ℕ → InspectionResult → Db → Insert
unfolding staged_row find_staged
insert_inspection cfg id r db =
    let row = new_row id r in
    let key = make_idem_key cfg.isoformat r in
    if is_staged cfg r
    then record {
      row = mark_synced row;
      staging = if found (find_staged key db.staged) then none else some (staged_row key row);
    }
    else record { row = row; staging = none }

abbrev key_taken : Option MesQualityIf → List MesQualityIf → Bool
key_taken none ss = false
key_taken (some s) ss = found (find_staged s.idem_key ss)

-- The unique constraints of both tables at the commit.
unfoldable pub violates : Insert → Db → Bool
violates i db = found (find_by_natural_key db i.row.columns) || key_taken i.staging db.staged

abbrev add_staged : Option MesQualityIf → List MesQualityIf → List MesQualityIf
add_staged none ss = ss
add_staged (some s) ss = ss ++ s ∷ []

unfoldable pub apply : Insert → Db → Db
apply i db = record {
  inspections = db.inspections ++ i.row ∷ [];
  staged = add_staged i.staging db.staged;
}

-- The answer: a row and whether it is new, or the IntegrityError that is raised.
pub data Saved : Type 0 where
  returned : Inspection → Bool → Saved
  integrity_error : Saved

abbrev existing_or_raise : Option Inspection → Saved
existing_or_raise none = integrity_error
existing_or_raise (some x) = returned x false

module _ (cfg : Config) (accepts : InspectionResult → Bool)
    (before_insert before_commit : Db → Db) where
  -- The transaction that saves a result which the look-up did not find.
  unfoldable pub save_new : ℕ → InspectionResult → Db → Saved × Db
  unfolding insert_inspection violates apply find_by_natural_key
  save_new id r db =
      let db1 = before_insert db in
      let i = insert_inspection cfg id r db1 in
      let db2 = before_commit db1 in
      if accepts r && not (violates i db2)
      then (returned i.row true, apply i db2)
      else (existing_or_raise (find_by_natural_key db2 r), db2)

  unfoldable pub save_inspection : ℕ → InspectionResult → Db → Saved × Db
  unfolding save_new find_by_natural_key
  save_inspection id r db = elim (find_by_natural_key db r) [
    | none ↦ save_new id r db
    | some x ↦ (returned x false, db)
  ]
