-- ===== src/Worker/Cycle/Report.antt =====
-- What the cycles of services/vision/worker/runner.py do around and after the image code: `finally` and
-- `except`, the pictures, and the delivery of the rows. The text of an error is shortened.
use pipe_vision.Prelude.{
  ℕ, ◌+◌, Bool, true, false, ◌&&◌, not, Option, none, some, List, [], ◌∷◌, ◌==◌, length,
  if◌then◌else◌,
}
use pipe_vision.Prelude.Text.{Text, codes}
use pipe_vision.Api.Rows.{InspectionResult}
use pipe_vision.Worker.Images.{ImageSaveResult, save_pair_via_backend}
use pipe_vision.Worker.Results.{BatchMeta, rounded}
use pipe_vision.Worker.State.{grabbed, not_grabbed, grab_raised, BatchResult, Clock, Env, Worker}
use pipe_vision.Worker.Cycle.{
  send_status, grab_cycle, show_fault, fail, spool_result, post_or_classify,
}

abbrev pub time_of : Option ℕ → ℕ → ℕ
time_of none now = now
time_of (some held_at) now = held_at

abbrev pub one_if : Bool → ℕ
one_if true = 1
one_if false = 0

-- `per_ea_ms` (timing.py)
unfoldable pub per_ea_ms : ℕ → ℕ → ℕ
per_ea_ms total n = if n == 0 then total else rounded total n

abbrev pub with_ms : ℕ → InspectionResult → InspectionResult
with_ms ms r = record r { proc_time_ms = some ms }

abbrev no_images : ImageSaveResult
no_images = record {
  raw_image_path = none;
  result_image_path = none;
  failed = true;
  pending_images = [];
}

abbrev pub has_images : List Text → Bool
has_images [] = false
has_images (_ ∷ _) = true

module _ {S Cam Scene Frame : Type 0} (env : Env S Cam Frame) where
  -- The end of a cycle: `finally: self.processed += 1`.
  abbrev pub finish : Bool × Worker S Cam Scene Frame → Bool × Worker S Cam Scene Frame
  finish (ok, w) = (ok, record w { processed = w.processed + 1 })

  -- The handler of an exception.
  abbrev pub raised : Worker S Cam Scene Frame → Bool × Worker S Cam Scene Frame
  raised w = (false, fail env w)

  -- The pictures of a cycle, without any where drawing them raises an exception.
  unfoldable pub save_images :
      Frame
      → BatchMeta
      → Bool
      → Bool
      → Worker S Cam Scene Frame
      → ImageSaveResult × Worker S Cam Scene Frame
  save_images frame meta ng review w = elim (env.eyes.draw frame meta ng) [
    | none ↦ (no_images, w)
    | some d ↦
        let (saved, places) =
          save_pair_via_backend env.put env.disk env.raw_policy w.station.order.training
            (record {
              name = d.name;
              raw_jpeg = d.raw_jpeg;
              result_jpeg = d.result_jpeg;
              ng = ng;
              review = review;
            })
            (record { storage = w.station.link.server; spool = w.spool }) in
        (
          saved,
          record w {
            station = record w.station { link = record w.station.link { server = places.storage } };
            spool = places.spool;
          },
        )
  ]

  -- No picture: the fault light and a heartbeat.
  unfoldable pub no_frame : ℕ → Worker S Cam Scene Frame → Bool × Worker S Cam Scene Frame
  unfolding send_status
  no_frame expected w = (
    false,
    send_status env expected 0 0 true 0 (some (codes "acquisition failed"))
        (show_fault env (fail env w)),
  )

  -- A cycle from its picture on, at what it does with one and the number that it expects.
  abbrev pub with_frame :
      (Frame → ℕ → Worker S Cam Scene Frame → Bool × Worker S Cam Scene Frame)
      → Clock
      → ℕ
      → Worker S Cam Scene Frame
      → Bool × Worker S Cam Scene Frame
  with_frame work clock expected w =
      let ((g, held_at), w1) = grab_cycle env w in
      finish (elim g [
        | grabbed f ↦ work f (time_of held_at clock.now) w1
        | not_grabbed ↦ no_frame expected w1
        | grab_raised ↦ raised w1
      ])

  -- A result goes to the server, or with its pictures to the spool.
  unfoldable pub deliver :
      List Text → InspectionResult → Worker S Cam Scene Frame → Bool × Worker S Cam Scene Frame
  unfolding post_or_classify spool_result
  deliver images r w =
      if has_images images then (false, spool_result env images r w) else post_or_classify env r w

  unfoldable pub spool_all :
      List Text → List InspectionResult → Worker S Cam Scene Frame → Worker S Cam Scene Frame
  unfolding spool_result
  spool_all images [] w = w
  spool_all images (r ∷ rs) w = spool_all images rs (spool_result env images r w)

  unfoldable pub post_all :
      List InspectionResult → Worker S Cam Scene Frame → Bool × Worker S Cam Scene Frame
  unfolding post_or_classify
  post_all [] w = (true, w)
  post_all (r ∷ rs) w =
      let (ok, w1) = post_or_classify env r w in
      let (all_ok, w2) = post_all rs w1 in (ok && all_ok, w2)

  -- The rows of a picture: with pictures in the spool, the code sends no heartbeat.
  unfoldable pub deliver_all :
      Clock
      → ℕ
      → BatchResult
      → List Text
      → List InspectionResult
      → Worker S Cam Scene Frame
      → Bool × Worker S Cam Scene Frame
  unfolding spool_all post_all send_status
  deliver_all clock expected b images rs w =
      if has_images images
      then (false, spool_all images rs w)
      else (let (all_ok, w1) = post_all rs w in
          (
            all_ok && not (length rs == 0),
            send_status env expected b.count_detected b.ng_count b.count_mismatch clock.total_ms
                none w1,
          ))
