-- ===== src/Worker/Cycle/Keeps.antt =====
-- What a cycle leaves of the order and the camera
-- (services/vision/worker/runner.py).
pub mod Rows
use pipe_vision.Worker.Cycle.Keeps.Rows.{
  grab_with_retry-keeps, report_single-Holds, report_batch-Holds, report_count-Holds,
  vision_empty-Holds,
}
use mathlib.Core.Path.{subst}
use pipe_vision.Prelude.{
  ℕ, zero, suc, ◌≡◌, ◌⊎◌, refl, Bool, true, ◌&&◌, ◌||◌, not, Option, none, some, List, [], ◌∷◌, inl,
  inr, leb, ltb, ◌==◌, length, Bool-cases, Option-cases, map,
}
use pipe_vision.Prelude.Int.{pos}
use pipe_vision.Prelude.Text.{Text, text_eq}
use pipe_vision.Api.Rows.{InspectionResult}
use pipe_vision.Verdict.{VerdictResult}
use pipe_vision.Worker.Client.{ItemMaster, post_inspection_json}
use pipe_vision.Worker.Orders.{Order, cur_stage, crate_count}
use pipe_vision.Worker.Results.{BatchMeta, TubeResult, tube_to_inspection}
use pipe_vision.Worker.State.{
  Try, taken, camera_error, other_error, Grab, grabbed, not_grabbed, grab_raised, BatchResult,
  Clock, Env, Worker,
}
use pipe_vision.Worker.Cycle.{
  expected_of, looks_empty, grab_with_retry, max_retries, send_status, send_idle_status, send,
  empty_gate, vision_empty, grab_cycle, held_by, from_camera, spool_result, post_or_classify,
  meta_of, show_ng,
}
use pipe_vision.Worker.Cycle.Report.{
  save_images, no_frame, with_frame, deliver, deliver_all, spool_all, post_all, with_ms, per_ea_ms,
  time_of,
}
use pipe_vision.Worker.Cycle.Modes.{
  report_single, judge_single, single_frame, run_once_single, report_batch, batch_frame,
  run_once_batch, report_count, count_frame, run_once_count, run_once,
}

Grab-cases :
    {F : Type 0} (g : Grab F)
    → ((f : F) × (g ≡ grabbed f)) ⊎ ((g ≡ not_grabbed) ⊎ (g ≡ grab_raised))
Grab-cases (grabbed f) = inl (f, refl)
Grab-cases not_grabbed = inr (inl refl)
Grab-cases grab_raised = inr (inr refl)

module _ {S Cam Scene Frame : Type 0} (env : Env S Cam Frame) (P : Order → Option Cam → Type 0)
    (of_grab : (o : Order) (c : Cam) → P o (some c) → P o (some (env.grab_once c).1)) where
  abbrev pub Holds : Worker S Cam Scene Frame → Type 0
  Holds w = P w.station.order w.station.camera

  judge_single-Holds :
      (clock : Clock) (frame : Frame) (at : ℕ) (w : Worker S Cam Scene Frame)
      → Holds w
      → Holds (judge_single env clock frame at w).1
  unfolding judge_single
  judge_single-Holds clock frame at w h = elim (Option-cases w.station.order.item) [
    | inl e ↦ rw (e, judge_single) h
    | inr (item, e) ↦
        elim (Option-cases (env.eyes.judge frame item (cur_stage env.cfg w.station.order))) [
          | inl f ↦ rw (e, f, judge_single) h
          | inr (v, f) ↦
              rw (e, f, judge_single) (report_single-Holds env P of_grab clock frame at v w h)
        ]
  ]

  single_frame-Holds :
      (clock : Clock) (frame : Frame) (at : ℕ) (w : Worker S Cam Scene Frame)
      → Holds w
      → Holds (single_frame env clock frame at w).1
  unfolding single_frame
  single_frame-Holds clock frame at w h = elim (Bool-cases (empty_gate env w)) [
    | inr e ↦ rw (e, single_frame) (judge_single-Holds clock frame at w h)
    | inl e ↦ elim (Option-cases (env.eyes.sees_tubes frame)) [
      | inl f ↦ rw (e, f, single_frame) h
      | inr (seen, f) ↦ elim (Bool-cases seen) [
        | inl y ↦ rw (e, f, y, single_frame) (judge_single-Holds clock frame at w h)
        | inr y ↦ rw (e, f, y, single_frame) (vision_empty-Holds env P of_grab w h)
      ]
    ]
  ]

  batch_frame-Holds :
      (clock : Clock) (frame : Frame) (at : ℕ) (w : Worker S Cam Scene Frame)
      → Holds w
      → Holds (batch_frame env clock frame at w).1
  unfolding batch_frame
  batch_frame-Holds clock frame at w h = elim (Option-cases w.station.order.item) [
    | inl e ↦ rw (e, batch_frame) h
    | inr (item, e) ↦
        let expected = expected_of w.station.order.item in
        elim (Option-cases
          (env.eyes.inspect_batch frame item expected (cur_stage env.cfg w.station.order))) [
            | inl f ↦ rw (e, f, batch_frame) h
            | inr (b, f) ↦
                elim (Bool-cases (empty_gate env w && looks_empty (length b.tubes) expected)) [
                  | inl y ↦ rw (e, f, y, batch_frame) (vision_empty-Holds env P of_grab w h)
                  | inr y ↦
                      rw (e, f, y, batch_frame)
                        (report_batch-Holds env P of_grab clock frame at expected item b w h)
                ]
          ]
  ]

  count_frame-Holds :
      (clock : Clock) (frame : Frame) (at : ℕ) (w : Worker S Cam Scene Frame)
      → Holds w
      → Holds (count_frame env clock frame at w).1
  unfolding count_frame
  count_frame-Holds clock frame at w h = elim (Option-cases w.station.order.item) [
    | inl e ↦ rw (e, count_frame) h
    | inr (item, e) ↦
        let expected = expected_of w.station.order.item in
        elim (Option-cases (env.eyes.count_bundle frame)) [
          | inl f ↦ rw (e, f, count_frame) h
          | inr (n, f) ↦ elim (Bool-cases (empty_gate env w && looks_empty n expected)) [
            | inl y ↦ rw (e, f, y, count_frame) (vision_empty-Holds env P of_grab w h)
            | inr y ↦
                rw (e, f, y, count_frame)
                  (report_count-Holds env P of_grab clock frame at expected item n w h)
          ]
        ]
  ]

  from_camera-Holds :
      (o : Option Cam) (w : Worker S Cam Scene Frame)
      → w.station.camera ≡ o
      → Holds w
      → Holds (from_camera env o w).1
  from_camera-Holds none w e h = h
  from_camera-Holds (some c) w e h =
      grab_with_retry-keeps env.grab_once (λ (x : Cam). P w.station.order (some x))
        (λ x q. of_grab w.station.order x q) max_retries c
        (subst (λ (x : Option Cam). P w.station.order x) e h)

  grab_cycle-Holds : (w : Worker S Cam Scene Frame) → Holds w → Holds (grab_cycle env w).1
  unfolding grab_cycle
  grab_cycle-Holds w h = elim (Bool-cases w.manual) [
    | inl e ↦
        rw (e, grab_cycle) (from_camera-Holds w.station.camera (record w { manual = true }) refl h)
    | inr e ↦ elim (Option-cases (held_by env w.vision).0) [
      | inl f ↦
          rw (e, f, grab_cycle)
            (from_camera-Holds w.station.camera (record w { vision = (held_by env w.vision).1 })
              refl h)
      | inr (picture, f) ↦ rw (e, f, grab_cycle) h
    ]
  ]

  with_frame-Holds :
      (work : Frame → ℕ → Worker S Cam Scene Frame → Bool × Worker S Cam Scene Frame)
      → ((frame : Frame) (at : ℕ) (w : Worker S Cam Scene Frame)
          → Holds w
          → Holds (work frame at w).1)
      → (clock : Clock) (expected : ℕ) (w : Worker S Cam Scene Frame) → Holds w
      → Holds (with_frame env work clock expected w).1
  unfolding no_frame send_status send
  with_frame-Holds work step clock expected w h =
      let held = grab_cycle-Holds w h in
      elim (Grab-cases (grab_cycle env w).0.0) [
        | inl (f, e) ↦
            rw e (step f (time_of (grab_cycle env w).0.1 clock.now) (grab_cycle env w).1 held)
        | inr (inl e) ↦ rw e held
        | inr (inr e) ↦ rw e held
      ]

  -- A cycle keeps what is said of the order and the camera.
  pub run_once-Holds :
      (clock : Clock) (w : Worker S Cam Scene Frame) → Holds w → Holds (run_once env clock w).1
  unfolding run_once run_once_single run_once_batch run_once_count
  run_once-Holds clock w h =
      elim (Bool-cases (text_eq (cur_stage env.cfg w.station.order) crate_count)) [
        | inl e ↦
            rw (e, run_once)
              (with_frame-Holds (count_frame env clock) (count_frame-Holds clock) clock
                (expected_of w.station.order.item) w h)
        | inr e ↦ elim (Bool-cases (ltb 1 (expected_of w.station.order.item))) [
          | inl f ↦
              rw (e, f, run_once)
                (with_frame-Holds (batch_frame env clock) (batch_frame-Holds clock) clock
                  (expected_of w.station.order.item) w h)
          | inr f ↦
              rw (e, f, run_once)
                (with_frame-Holds (single_frame env clock) (single_frame-Holds clock) clock 1 w h)
        ]
      ]
