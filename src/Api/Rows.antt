-- ===== src/Api/Rows.antt =====
-- The tables `inspection` and `mes_quality_if` (services/api/db/models.py), the keys of their rows and
-- the lots for training data (services/api/core/training.py). A time is a number of microseconds; how
-- it is written (`datetime.isoformat`) is a parameter. A length, score or temperature is an integer in
-- units of its column's last decimal. `upper` changes the letters a to z.
use pipe_vision.Prelude.{
  ℕ, ◌-◌, Bool, true, false, ◌&&◌, ◌||◌, not, Option, List, [], ◌∷◌, ◌++◌, leb, ◌==◌, if◌then◌else◌,
}
use pipe_vision.Prelude.Int.{ℤ}
use pipe_vision.Prelude.Text.{Text, text_eq}
use pipe_vision.Spool.Names.{decimal}

-- The body of POST /inspection.
pub record InspectionResult : Type 0 where
  pub lot : Text
  pub work_order : Option Text
  pub item_code : Text
  pub cam_id : Text
  pub inspection_stage : Option Text
  pub inspected_at : ℕ
  pub tube_index : ℕ
  pub tube_bbox : Option (List ℕ)
  pub count_detected : Option ℕ
  pub count_expected : Option ℕ
  pub shift : Option Text
  pub operator : Option Text
  pub ref_length_mm : Option ℤ
  pub meas_length_mm : Option ℤ
  pub deviation_mm : Option ℤ
  pub meas_temp_c : Option ℤ
  pub length_verdict : Option Text
  pub oil_score : Option ℤ
  pub discolor_score : Option ℤ
  pub scratch_score : Option ℤ
  pub final_verdict : Text
  pub defect_codes : List Text
  pub confidence : Option ℤ
  pub raw_image_path : Option Text
  pub result_image_path : Option Text
  pub proc_time_ms : Option ℕ
  pub review_flag : Bool
  pub manual_verdict : Option Text
  pub mes_synced : Bool

-- A row of `inspection`: its number and its columns.
pub record Inspection : Type 0 where
  pub id : ℕ
  pub columns : InspectionResult

-- A row of `mes_quality_if`.
pub record MesQualityIf : Type 0 where
  pub inspection_id : Option ℕ
  pub idem_key : Text
  pub lot : Text
  pub item_code : Option Text
  pub inspected_at : ℕ
  pub cam_id : Text
  pub work_order : Option Text
  pub final_verdict : Text
  pub defect_codes : List Text
  pub meas_length_mm : Option ℤ
  pub deviation_mm : Option ℤ
  pub inspection_stage : Option Text
  pub tube_index : Option ℕ
  pub manual_verdict : Option Text
  pub count_detected : Option ℕ
  pub count_expected : Option ℕ
  pub consumed : Bool
  pub consumed_at : Option ℕ
  pub updated_at : Option ℕ

pub record Db : Type 0 where
  pub inspections : List Inspection
  pub staged : List MesQualityIf

-- The comparison of `find_by_natural_key` and of the unique index `ux_insp_natkey`.
unfoldable pub same_natural_key : InspectionResult → InspectionResult → Bool
same_natural_key a b =
    text_eq a.cam_id b.cam_id
    && a.inspected_at == b.inspected_at
    && text_eq a.lot b.lot
    && text_eq a.item_code b.item_code
    && a.tube_index == b.tube_index

-- `make_idem_key`, and `make_idem_key_from_row` on the columns of a row.
unfoldable pub make_idem_key : (ℕ → Text) → InspectionResult → Text
make_idem_key isoformat r =
    r.lot
    ++ b'|'
      ∷ (r.item_code
          ++ b'|' ∷ (isoformat r.inspected_at ++ b'|' ∷ (r.cam_id ++ b'|' ∷ decimal r.tube_index)))

unfoldable pub upper : Text → Text
upper [] = []
upper (c ∷ s) = (if leb b'a' c && leb c b'z' then c - 32 else c) ∷ upper s

unfoldable pub starts_with : Text → Text → Bool
starts_with s [] = true
starts_with [] (p ∷ ps) = false
starts_with (c ∷ s) (p ∷ ps) = c == p && starts_with s ps

any_prefix : Text → List Text → Bool
unfolding starts_with upper
any_prefix up [] = false
any_prefix up (p ∷ ps) = starts_with up (upper p) || any_prefix up ps

abbrev pub is_nil : Text → Bool
is_nil [] = true
is_nil (_ ∷ _) = false

-- `is_training_lot`, at the prefixes that the environment sets.
unfoldable pub is_training_lot : List Text → Text → Bool
unfolding any_prefix upper
is_training_lot prefixes lot = not (is_nil lot) && any_prefix (upper lot) prefixes
