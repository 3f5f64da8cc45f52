-- ===== src/Worker/Cycle/Modes.antt =====
-- The three cycles and `run_once` of services/vision/worker/runner.py. Each answers whether all its
-- results were stored.
use pipe_vision.Prelude.{
  ℕ, Bool, true, false, ◌&&◌, ◌||◌, not, none, some, ltb, ◌==◌, map, length, if◌then◌else◌,
}
use pipe_vision.Prelude.Int.{pos}
use pipe_vision.Prelude.Text.{text_eq}
use pipe_vision.Verdict.{VerdictResult, is_ng}
use pipe_vision.Worker.Client.{ItemMaster}
use pipe_vision.Worker.Orders.{crate_count, cur_stage}
use pipe_vision.Worker.Results.{TubeResult, to_inspection_result, tube_to_inspection, count_result}
use pipe_vision.Worker.Cycle.Report.{
  per_ea_ms, with_ms, one_if, raised, save_images, no_frame, with_frame, deliver, deliver_all,
}
use pipe_vision.Worker.State.{BatchResult, Clock, Env, Worker}
use pipe_vision.Worker.Cycle.{
  expected_of, looks_empty, send_status, empty_gate, vision_empty, show_ng, meta_of,
}

module _ {S Cam Scene Frame : Type 0} (env : Env S Cam Frame) where
  -- `_run_once_single`, from the verdict on.
  unfoldable pub report_single :
      Clock → Frame → ℕ → VerdictResult → Worker S Cam Scene Frame → Bool × Worker S Cam Scene Frame
  unfolding save_images deliver send_status meta_of to_inspection_result
  report_single clock frame at v w =
      let ng = is_ng v.final_verdict in
      let (saved, w1) = save_images env frame (meta_of env at none none w) ng v.review_flag w in
      let r =
        with_ms clock.total_ms (
          to_inspection_result v (meta_of env at saved.raw_image_path saved.result_image_path w)) in
      deliver env saved.pending_images r
        (send_status env 1 1 (one_if ng) false clock.total_ms none (show_ng env ng w1))

  unfoldable pub judge_single :
      Clock → Frame → ℕ → Worker S Cam Scene Frame → Bool × Worker S Cam Scene Frame
  unfolding report_single cur_stage
  judge_single clock frame at w = elim w.station.order.item [
    | none ↦ raised env w
    | some item ↦ elim (env.eyes.judge frame item (cur_stage env.cfg w.station.order)) [
      | none ↦ raised env w
      | some v ↦ report_single clock frame at v w
    ]
  ]

  unfoldable pub single_frame :
      Clock → Frame → ℕ → Worker S Cam Scene Frame → Bool × Worker S Cam Scene Frame
  unfolding judge_single vision_empty
  single_frame clock frame at w =
      if empty_gate env w
      then elim (env.eyes.sees_tubes frame) [
        | none ↦ raised env w
        | some seen ↦ if seen then judge_single clock frame at w else (true, vision_empty env w)
      ]
      else judge_single clock frame at w

  unfoldable pub run_once_single :
      Clock → Worker S Cam Scene Frame → Bool × Worker S Cam Scene Frame
  unfolding single_frame no_frame
  run_once_single clock w = with_frame env (single_frame clock) clock 1 w

  -- `_run_once_batch`, from the inspection of the picture on.
  unfoldable pub report_batch :
      Clock
      → Frame
      → ℕ
      → ℕ
      → ItemMaster
      → BatchResult
      → Worker S Cam Scene Frame
      → Bool × Worker S Cam Scene Frame
  unfolding save_images deliver_all meta_of tube_to_inspection per_ea_ms
  report_batch clock frame at expected item b w =
      let (saved, w1) =
        save_images env frame (meta_of env at none none w) b.batch_ng b.any_review w in
      let meta = meta_of env at saved.raw_image_path saved.result_image_path w in
      let ea = per_ea_ms clock.total_ms (length b.tubes) in
      deliver_all env clock expected b saved.pending_images
        (map
          (λ (t : TubeResult).
            with_ms ea (tube_to_inspection (some (pos item.ref_length_mm)) meta t))
          b.tubes)
        (show_ng env (not (b.ng_count == 0) || b.count_mismatch || b.count_uncertain) w1)

  unfoldable pub batch_frame :
      Clock → Frame → ℕ → Worker S Cam Scene Frame → Bool × Worker S Cam Scene Frame
  unfolding report_batch vision_empty looks_empty cur_stage
  batch_frame clock frame at w = elim w.station.order.item [
    | none ↦ raised env w
    | some item ↦
        let expected = expected_of w.station.order.item in
        elim (env.eyes.inspect_batch frame item expected (cur_stage env.cfg w.station.order)) [
          | none ↦ raised env w
          | some b ↦
              if empty_gate env w && looks_empty (length b.tubes) expected
              then (true, vision_empty env w)
              else report_batch clock frame at expected item b w
        ]
  ]

  unfoldable pub run_once_batch : Clock → Worker S Cam Scene Frame → Bool × Worker S Cam Scene Frame
  unfolding batch_frame no_frame
  run_once_batch clock w =
      with_frame env (batch_frame clock) clock (expected_of w.station.order.item) w

  -- `_run_once_count`, from the count on.
  unfoldable pub report_count :
      Clock
      → Frame
      → ℕ
      → ℕ
      → ItemMaster
      → ℕ
      → Worker S Cam Scene Frame
      → Bool × Worker S Cam Scene Frame
  unfolding save_images deliver send_status meta_of count_result
  report_count clock frame at expected item detected w =
      let mismatch = not (detected == expected) in
      let (saved, w1) = save_images env frame (meta_of env at none none w) mismatch mismatch w in
      let r =
        count_result (some (pos item.ref_length_mm))
          (meta_of env at saved.raw_image_path saved.result_image_path w) detected expected
          clock.total_ms in
      let (ok, w2) = deliver env saved.pending_images r (show_ng env mismatch w1) in
      (ok, send_status env expected detected (one_if mismatch) mismatch clock.total_ms none w2)

  unfoldable pub count_frame :
      Clock → Frame → ℕ → Worker S Cam Scene Frame → Bool × Worker S Cam Scene Frame
  unfolding report_count vision_empty looks_empty
  count_frame clock frame at w = elim w.station.order.item [
    | none ↦ raised env w
    | some item ↦
        let expected = expected_of w.station.order.item in
        elim (env.eyes.count_bundle frame) [
          | none ↦ raised env w
          | some detected ↦
              if empty_gate env w && looks_empty detected expected
              then (true, vision_empty env w)
              else report_count clock frame at expected item detected w
        ]
  ]

  unfoldable pub run_once_count : Clock → Worker S Cam Scene Frame → Bool × Worker S Cam Scene Frame
  unfolding count_frame no_frame
  run_once_count clock w =
      with_frame env (count_frame clock) clock (expected_of w.station.order.item) w

  -- `run_once`
  unfoldable pub run_once : Clock → Worker S Cam Scene Frame → Bool × Worker S Cam Scene Frame
  unfolding run_once_single run_once_batch run_once_count cur_stage
  run_once clock w =
      if text_eq (cur_stage env.cfg w.station.order) crate_count
      then run_once_count clock w
      else if ltb 1 (expected_of w.station.order.item)
      then run_once_batch clock w
      else run_once_single clock w
