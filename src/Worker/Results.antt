-- ===== src/Worker/Results.antt =====
-- The result rows that the worker posts: `to_inspection_result` of services/vision/pipeline.py,
-- `tube_to_inspection` of services/vision/multi/batch.py, and the row of `_run_once_count` of
-- services/vision/worker/runner.py. A score or a confidence is in ten-thousandths.
use pipe_vision.Prelude.{
  ℕ, ◌+◌, ◌-◌, ◌*◌, ◌/◌, ◌%◌, Bool, true, false, ◌||◌, not, Option, none, some, List, [], ◌∷◌, map,
  ltb, leb, ◌==◌, if◌then◌else◌,
}
use pipe_vision.Prelude.Int.{ℤ, pos}
use pipe_vision.Prelude.Text.{Text, codes}
use pipe_vision.Api.Rows.{InspectionResult}
use pipe_vision.Verdict.{
  DefectCode, len, oil, dis, scr, count, multi, Verdict, ok, ng, VerdictResult, see_length,
  see_surface,
}

-- What the rows of one picture share, without the reference length.
pub record BatchMeta : Type 0 where
  pub lot : Text
  pub item_code : Text
  pub cam_id : Text
  pub inspection_stage : Option Text
  pub inspected_at : ℕ
  pub work_order : Option Text
  pub shift : Option Text
  pub operator : Option Text
  pub raw_image_path : Option Text
  pub result_image_path : Option Text

pub record TubeResult : Type 0 where
  pub index : ℕ
  pub bbox : List ℕ
  pub length_mm : Option ℤ
  pub deviation_mm : Option ℤ
  pub length_verdict : Text
  pub oil_score : Option ℕ
  pub discolor_score : Option ℕ
  pub scratch_score : Option ℕ
  pub final_verdict : Text
  pub defect_codes : List Text
  pub confidence : Option ℕ
  pub review_flag : Bool
  pub proc_time_ms : ℕ
  pub rotated : Bool
  pub meas_temp_c : Option ℤ

abbrev code_text : DefectCode → Text
code_text len = codes "LEN"
code_text oil = codes "OIL"
code_text dis = codes "DIS"
code_text scr = codes "SCR"
code_text count = codes "COUNT"
code_text multi = codes "MULTI"

abbrev pub verdict_text : Verdict → Text
verdict_text ok = codes "OK"
verdict_text ng = codes "NG"

abbrev seen : {A : Type 0} → Bool → Option A → Option A
seen true a = a
seen false a = none

abbrev as_score : Option ℕ → Option ℤ
as_score none = none
as_score (some n) = some (pos n)

unfoldable pub to_inspection_result : VerdictResult → BatchMeta → InspectionResult
to_inspection_result v meta =
    let length = see_length meta.inspection_stage in
    let surface = see_surface meta.inspection_stage in
    record {
      lot = meta.lot;
      work_order = meta.work_order;
      item_code = meta.item_code;
      cam_id = meta.cam_id;
      inspection_stage = meta.inspection_stage;
      inspected_at = meta.inspected_at;
      tube_index = 0;
      tube_bbox = none;
      count_detected = none;
      count_expected = none;
      shift = meta.shift;
      operator = meta.operator;
      ref_length_mm = some v.length.ref_length_mm;
      meas_length_mm = seen length v.length.meas_length_mm;
      deviation_mm = seen length v.length.deviation_mm;
      meas_temp_c = seen length v.length.meas_temp_c;
      length_verdict = seen length (some (verdict_text v.length.length_verdict));
      oil_score = as_score (seen surface v.surface.oil_score);
      discolor_score = as_score (seen surface v.surface.discolor_score);
      scratch_score = as_score (seen surface v.surface.scratch_score);
      final_verdict = verdict_text v.final_verdict;
      defect_codes = map code_text v.defect_codes;
      confidence = some (pos v.confidence);
      raw_image_path = meta.raw_image_path;
      result_image_path = meta.result_image_path;
      proc_time_ms = some v.proc_time_ms;
      review_flag = v.review_flag;
      manual_verdict = none;
      mes_synced = false;
    }

-- `_bbox_list`: left, top, right and bottom of a box that is not empty.
bbox_list : List ℕ → Option (List ℕ)
bbox_list (x0 ∷ y0 ∷ x1 ∷ y1 ∷ []) =
    if leb x1 x0 || leb y1 y0 then none else some (x0 ∷ y0 ∷ x1 ∷ y1 ∷ [])
bbox_list _ = none

abbrev text_or_none : Text → Option Text
text_or_none [] = none
text_or_none (c ∷ cs) = some (c ∷ cs)

unfoldable pub tube_to_inspection : Option ℤ → BatchMeta → TubeResult → InspectionResult
unfolding bbox_list
tube_to_inspection ref_length_mm meta tube = record {
  lot = meta.lot;
  work_order = meta.work_order;
  item_code = meta.item_code;
  cam_id = meta.cam_id;
  inspection_stage = meta.inspection_stage;
  inspected_at = meta.inspected_at;
  tube_index = tube.index - 1;
  tube_bbox = if tube.rotated then none else bbox_list tube.bbox;
  count_detected = none;
  count_expected = none;
  shift = meta.shift;
  operator = meta.operator;
  ref_length_mm = ref_length_mm;
  meas_length_mm = tube.length_mm;
  deviation_mm = tube.deviation_mm;
  meas_temp_c = tube.meas_temp_c;
  length_verdict = text_or_none tube.length_verdict;
  oil_score = as_score tube.oil_score;
  discolor_score = as_score tube.discolor_score;
  scratch_score = as_score tube.scratch_score;
  final_verdict = tube.final_verdict;
  defect_codes = tube.defect_codes;
  confidence = as_score tube.confidence;
  raw_image_path = meta.raw_image_path;
  result_image_path = meta.result_image_path;
  proc_time_ms = some tube.proc_time_ms;
  review_flag = tube.review_flag;
  manual_verdict = none;
  mes_synced = false;
}

-- `round` of a quotient: to the nearest number, a half to the even one.
pub rounded : ℕ → ℕ → ℕ
rounded a n =
    let q = a / n in
    let r = a % n * 2 in if ltb r n then q else if ltb n r then q + 1 else q + q % 2

-- Of how much of the expected number the count is right.
count_confidence : ℕ → ℕ → ℕ
unfolding rounded
count_confidence detected expected =
    let off = (detected - expected) + (expected - detected) in
    if expected == 0 then 0 else rounded ((expected - off) * 10000) expected

-- The row of a crate.
unfoldable pub count_result : Option ℤ → BatchMeta → ℕ → ℕ → ℕ → InspectionResult
unfolding count_confidence
count_result ref_length_mm meta detected expected ms =
    let mismatch = not (detected == expected) in
    record {
      lot = meta.lot;
      work_order = meta.work_order;
      item_code = meta.item_code;
      cam_id = meta.cam_id;
      inspection_stage = some (codes "CRATE_COUNT");
      inspected_at = meta.inspected_at;
      tube_index = 0;
      tube_bbox = none;
      count_detected = some detected;
      count_expected = some expected;
      shift = meta.shift;
      operator = meta.operator;
      ref_length_mm = ref_length_mm;
      meas_length_mm = none;
      deviation_mm = none;
      meas_temp_c = none;
      length_verdict = none;
      oil_score = none;
      discolor_score = none;
      scratch_score = none;
      final_verdict = verdict_text (if mismatch then ng else ok);
      defect_codes = if mismatch then codes "COUNT" ∷ [] else [];
      confidence = some (pos (count_confidence detected expected));
      raw_image_path = meta.raw_image_path;
      result_image_path = meta.result_image_path;
      proc_time_ms = some ms;
      review_flag = mismatch;
      manual_verdict = none;
      mes_synced = false;
    }
