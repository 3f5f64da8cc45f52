-- ===== src/Worker/Cycle.antt =====
-- What the cycles of services/vision/worker/runner.py share: taking a picture, the heartbeat, the empty
-- scene, and the delivery of a result.
pub mod Report
pub mod Modes
pub mod Delivery
pub mod Keeps
use pipe_vision.Worker.State.{
  BatchResult, Clock, Drawn, Env, Eyes, Grab, Try, Worker, camera_error, grab_raised, grabbed,
  not_grabbed, other_error, taken,
}
use pipe_vision.Prelude.{
  ℕ, zero, suc, ◌+◌, ◌-◌, ◌/◌, Bool, true, false, ◌&&◌, ◌||◌, not, Option, none, some, List, [],
  ◌∷◌, String, ltb, leb, ◌==◌, max, if◌then◌else◌,
}
use pipe_vision.Prelude.Int.{ℤ}
use pipe_vision.Prelude.Text.{Text, codes, text_eq}
use pipe_vision.Api.Rows.{InspectionResult}
use pipe_vision.Spool.Store.{Disk, Payload, Spool, enqueue}
use pipe_vision.Tower.{Tower, signal, fault}
use pipe_vision.Trigger.Vision.{
  Mode, arrival, departure, Settings, VisionTrigger, take_frame, learn_empty,
}
use pipe_vision.Verdict.{VerdictResult}
use pipe_vision.Worker.Client.{ItemMaster, Commands, Status, Http, heartbeat, post_inspection_json}
use pipe_vision.Worker.Images.{Pictures, RawPolicy}
use pipe_vision.Worker.Orders.{
  WorkerConfig, Order, Station, cur_stage, cur_item_code, cur_lot, cur_work_order, crate_count,
}
use pipe_vision.Worker.Results.{BatchMeta, TubeResult}

abbrev pub max_retries : ℕ
max_retries = 3

-- `grab_with_retry`: at most so many tries.
unfoldable pub grab_with_retry :
    {Cam Frame : Type 0} → (Cam → Try Frame × Cam) → ℕ → Cam → Grab Frame × Cam
grab_with_retry grab_once zero c = (not_grabbed, c)
grab_with_retry grab_once (suc tries) c =
    let (r, c') = grab_once c in
    elim r [
      | taken f ↦ (grabbed f, c')
      | camera_error ↦ grab_with_retry grab_once tries c'
      | other_error ↦ (grab_raised, c')
    ]

-- `int(expected_count or 1)`
abbrev pub expected_of : Option ItemMaster → ℕ
expected_of none = 1
expected_of (some item) = if item.expected_count == 0 then 1 else item.expected_count

-- `_looks_empty`
unfoldable pub looks_empty : ℕ → ℕ → Bool
looks_empty detected expected =
    detected == 0 || leb 5 expected && leb detected (max 1 (expected / 10))

abbrev is_some : {A : Type 0} → Option A → Bool
is_some none = false
is_some (some _) = true

abbrev signalled : (ℕ → Bool) → Bool → Option Tower → Option Tower
signalled pin_fails ng none = none
signalled pin_fails ng (some t) = some (signal pin_fails ng t)

abbrev faulty : (ℕ → Bool) → Option Tower → Option Tower
faulty pin_fails none = none
faulty pin_fails (some t) = some (fault pin_fails t)

abbrev asks_live : Option Commands → Bool
asks_live none = false
asks_live (some c) = c.live

abbrev pub asks_capture : Option Commands → Bool
asks_capture none = false
asks_capture (some c) = c.capture

module _ {S Cam Scene Frame : Type 0} (env : Env S Cam Frame) where
  abbrev pub with_server : S → Worker S Cam Scene Frame → Worker S Cam Scene Frame
  with_server srv w = record w {
    station = record w.station { link = record w.station.link { server = srv } };
  }

  -- `_handle_commands`
  abbrev obey : Option Commands → Worker S Cam Scene Frame → Worker S Cam Scene Frame
  obey c w = record w { live = w.live || asks_live c; capture = w.capture || asks_capture c }

  unfoldable pub send : Status → Worker S Cam Scene Frame → Worker S Cam Scene Frame
  unfolding heartbeat
  send status w =
      let (r, srv) = heartbeat env.http w.station.link.client status w.station.link.server in
      obey r (with_server srv w)

  unfoldable pub status_of :
      ℕ → ℕ → ℕ → Bool → ℕ → Option Text → Bool → Worker S Cam Scene Frame → Status
  unfolding cur_item_code cur_stage cur_lot
  status_of expected detected ng mismatch ms error waiting w = record {
    cam_id = env.cfg.cam_id;
    item_code = cur_item_code env.cfg w.station.order;
    stage = cur_stage env.cfg w.station.order;
    lot = cur_lot env.cfg w.station.order;
    expected = expected;
    detected = detected;
    ng = ng;
    mismatch = mismatch;
    proc_time_ms = ms;
    error = error;
    waiting = waiting;
  }

  -- `_send_status`
  unfoldable pub send_status :
      ℕ → ℕ → ℕ → Bool → ℕ → Option Text → Worker S Cam Scene Frame → Worker S Cam Scene Frame
  unfolding send status_of
  send_status expected detected ng mismatch ms error w =
      send (status_of expected detected ng mismatch ms error false w) w

  -- `_send_idle_status`
  unfoldable pub send_idle_status : Worker S Cam Scene Frame → Worker S Cam Scene Frame
  unfolding send status_of
  send_idle_status w = send (status_of (expected_of w.station.order.item) 0 0 false 0 none true w) w

  abbrev provided_mode : Worker S Cam Scene Frame → Mode
  provided_mode w =
      if text_eq (cur_stage env.cfg w.station.order) crate_count then departure else arrival

  -- `_empty_gate`
  abbrev pub empty_gate : Worker S Cam Scene Frame → Bool
  empty_gate w = is_some w.vision && not w.manual

  abbrev learnt : Mode → Option (VisionTrigger Scene Frame) → Option (VisionTrigger Scene Frame)
  learnt m none = none
  learnt m (some t) = some (learn_empty env.settings (some m) t)

  -- `_vision_empty`
  unfoldable pub vision_empty : Worker S Cam Scene Frame → Worker S Cam Scene Frame
  unfolding send_idle_status cur_stage
  vision_empty w = send_idle_status (record w { vision = learnt (provided_mode w) w.vision })

  abbrev from_camera : Option Cam → Worker S Cam Scene Frame → Grab Frame × Worker S Cam Scene Frame
  from_camera none w = (grab_raised, w)
  from_camera (some c) w =
      let (g, c') = grab_with_retry env.grab_once max_retries c in
      (g, record w { station = record w.station { camera = some c' } })

  -- What the trigger has kept, if there is a trigger that keeps pictures.
  abbrev held_by :
      Option (VisionTrigger Scene Frame) → Option (Frame × ℕ) × Option (VisionTrigger Scene Frame)
  held_by none = (none, none)
  held_by (some t) = let (held, t') = take_frame env.settings t in (held, some t')

  abbrev not_held : Worker S Cam Scene Frame → (Grab Frame × Option ℕ) × Worker S Cam Scene Frame
  not_held w = let (g, w') = from_camera w.station.camera w in ((g, none), w')

  -- `_grab_cycle`: the picture, and its time if the trigger has kept it.
  unfoldable pub grab_cycle :
      Worker S Cam Scene Frame → (Grab Frame × Option ℕ) × Worker S Cam Scene Frame
  unfolding grab_with_retry
  grab_cycle w =
      if w.manual
      then not_held w
      else (let (held, vision) = held_by w.vision in
          let w1 = record w { vision = vision } in
          elim held [
            | none ↦ not_held w1
            | some picture ↦ ((grabbed picture.0, some picture.1), w1)
          ])

  abbrev pub show_ng : Bool → Worker S Cam Scene Frame → Worker S Cam Scene Frame
  show_ng ng w = record w { tower = signalled env.pin_fails ng w.tower }

  abbrev pub fail : Worker S Cam Scene Frame → Worker S Cam Scene Frame
  fail w = record w { failure = w.failure + 1 }

  abbrev pub show_fault : Worker S Cam Scene Frame → Worker S Cam Scene Frame
  show_fault w = record w { tower = faulty env.pin_fails w.tower }

  -- `spool.enqueue`, and the count of it.
  unfoldable pub spool_result :
      List Text → InspectionResult → Worker S Cam Scene Frame → Worker S Cam Scene Frame
  spool_result images r w = record w {
    spool = (enqueue env.disk env.json_size (env.model_dump r) images w.spool).1;
    spooled = w.spooled + 1;
  }

  -- `_post_or_classify`; `_run_once_single` has the same.
  unfoldable pub post_or_classify :
      InspectionResult → Worker S Cam Scene Frame → Bool × Worker S Cam Scene Frame
  unfolding post_inspection_json spool_result
  post_or_classify r w =
      let (status, srv) =
        post_inspection_json env.http w.station.link.client (env.model_dump r)
          w.station.link.server in
      let w1 = with_server srv w in
      if leb 200 status && ltb status 300
      then (true, record w1 { success = w1.success + 1 })
      else if status == 0 || leb 500 status
      then (false, spool_result [] r w1)
      else (false, fail w1)

  -- The labels of the rows of this cycle.
  unfoldable pub meta_of : ℕ → Option Text → Option Text → Worker S Cam Scene Frame → BatchMeta
  unfolding cur_item_code cur_stage cur_lot cur_work_order
  meta_of at raw_path result_path w = record {
    lot = cur_lot env.cfg w.station.order;
    item_code = cur_item_code env.cfg w.station.order;
    cam_id = env.cfg.cam_id;
    inspection_stage = some (cur_stage env.cfg w.station.order);
    inspected_at = at;
    work_order = cur_work_order w.station.order;
    shift = env.cfg.shift;
    operator = env.cfg.operator;
    raw_image_path = raw_path;
    result_image_path = result_path;
  }
