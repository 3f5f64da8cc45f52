-- ===== src/Examples/Worker.antt =====
-- Examples for services/vision/worker and services/vision/verdict.
use pipe_vision.Prelude.{
  ℕ, ◌≡◌, ◌⊎◌, ◌↔◌, refl, Bool, true, false, none, some, List, [], ◌∷◌, inl, inr, In, All, String,
  arith,
}
use pipe_vision.Prelude.Int.{pos}
use pipe_vision.Prelude.Text.{Text, codes}
use pipe_vision.Api.Rows.{InspectionResult}
use pipe_vision.Spool.Store.{Payload, Spool, Disk, total_bytes}
use pipe_vision.Spool.Store.Pictures.{HasImage}
use pipe_vision.Spool.Store.Room.{Room}
use pipe_vision.Verdict.{
  scr, multi, ng, code_eq, has_code, LengthResult, SurfaceResult, Limits, combine_verdict,
}
use pipe_vision.Verdict.Mode.{shows, ShowsOne, combine_verdict-codes, ng_iff_ShowsOne}
use pipe_vision.Worker.Client.{
  ItemMaster, ActiveOrder, Http, Link, no_reply, reply, Status, wait_for_api, get_active_order,
  post_inspection_json, heartbeat, ApiClient,
}
use pipe_vision.Worker.Client.Waiting.{Answers, wait_for_api-Answers}
use pipe_vision.Worker.Images.{Pictures, Places, save_pair_via_backend, all_raw}
use pipe_vision.Worker.Images.Pending.{save_pair-HasImage}
use pipe_vision.Worker.Orders.{WorkerConfig, Station, maybe_switch_order}
use pipe_vision.Worker.Orders.Switch.{Switched, switch_is_atomic}
use pipe_vision.Worker.Orders.Recipe.{InSync}
use pipe_vision.Worker.State.{BatchResult, Clock, Env, Worker, taken}
use pipe_vision.Worker.Cycle.{asks_capture}
use pipe_vision.Worker.Loop.{Round, Plant, run_rounds}
use pipe_vision.Worker.Loop.Sync.{Reached, run_rounds-InSync}
use pipe_vision.Worker.Loop.Idle.{Rests, idle_station_waits}
use pipe_vision.Worker.Cycle.Report.{deliver_all}
use pipe_vision.Worker.Cycle.Delivery.{Settled, needed, deliver_all-Settled}

abbrev item : Text → String → ItemMaster
item code recipe = record {
  item_code = code;
  version = 1;
  ref_length_mm = 100;
  px_to_mm_scale = 1;
  tol_plus_mm = 1;
  tol_minus_mm = 1;
  oil_threshold = none;
  discolor_threshold = none;
  scratch_threshold = none;
  expected_count = 1;
  capture_recipe = some recipe;
}

abbrev new_order : ActiveOrder
new_order = record {
  item_code = codes "T20";
  lot = some (codes "L2");
  work_order = some (codes "W2");
  inspection_stage = some (codes "crate_count");
  training = false;
}

-- A server that is down for results, and that keeps what it was sent.
abbrev Log : Type 0
Log = List (Payload × ℕ)

abbrev http : Http Log
http = record {
  get_health = λ s. (no_reply, s);
  post_login = λ s. (no_reply, s);
  get_item = λ h code s. (reply 200 (some (item code "fast")), s);
  get_active = λ h cam s. (reply 200 (some new_order), s);
  post_inspection = λ h p s. (reply 503 none, (p, 503) ∷ s);
  post_status = λ h b s. (no_reply, s);
  took = λ s. 100;
}

abbrev link : Link Log
link = record { client = record { service_token = none; bearer_token = none }; server = [] }

wait_for_api-Answers_example : Answers (wait_for_api http 3 0 link).0
wait_for_api-Answers_example = wait_for_api-Answers http 3 0 link

abbrev worker_config : WorkerConfig
worker_config = record {
  item_code = codes "T10";
  cam_id = codes "CAM1";
  lot = codes "L0";
  inspection_stage = codes "CUT_LENGTH";
  item_reload_s = 30;
  shift = none;
  operator = none;
  max_iterations = 0;
}

-- A camera that keeps its recipe.
abbrev configure : String → String → String
configure r c = r

abbrev station : Station Log String
station = record {
  link = link;
  camera = some "slow";
  order = record {
    item = some (item (codes "T10") "slow");
    last_item_reload = none;
    active_lot = none;
    active_work_order = none;
    active_stage = none;
    training = false;
  };
}

switch_is_atomic_example :
    ((maybe_switch_order http configure worker_config station).order ≡ station.order)
    ⊎ ((a : ActiveOrder) × ((get_active_order http (some (codes "CAM1")) link).0 ≡ some a)
        × Switched http configure worker_config a
            (get_active_order http (some (codes "CAM1")) link).1
            (maybe_switch_order http configure worker_config station).order)
switch_is_atomic_example = switch_is_atomic http configure worker_config station

station-InSync : InSync (λ (c : String). c) station
station-InSync = (item (codes "T10") "slow", refl, refl)

abbrev spool : Spool
spool = record {
  pending = [];
  images = [];
  dead_files = [];
  max_bytes = 1000;
  flush_batch = 10;
  enqueued = 0;
  sent = 0;
  dropped = 0;
  dead = 0;
}

abbrev disk : Disk
disk = record { unlink_fails = λ t. false; replace_fails = λ n. false; write_fails = λ t. false }

abbrev pictures : Pictures
pictures = record {
  name = codes "L2_T20.jpg";
  raw_jpeg = 1 ∷ [];
  result_jpeg = 2 ∷ [];
  ng = true;
  review = false;
}

-- A storage that is down.
abbrev no_storage : Text → List ℕ → Log → Bool × Log
no_storage key jpeg s = (false, s)

abbrev places : Places Log
places = record { storage = []; spool = spool }

save_pair-HasImage_example :
    let r = save_pair_via_backend no_storage disk all_raw false pictures places in
    All (HasImage r.1.spool) r.0.pending_images
save_pair-HasImage_example = save_pair-HasImage no_storage disk all_raw false pictures places

abbrev env : Env Log String ℕ
env = record {
  http = http;
  put = no_storage;
  cfg = worker_config;
  disk = disk;
  json_size = λ p. 7;
  model_dump = λ r. record {
    inspected_ms = r.inspected_at;
    cam_id = some (some r.cam_id);
    pending_images = none;
    fields = "{}";
  };
  pin_fails = λ p. false;
  raw_policy = all_raw;
  settings = record {
    forced_mode = none;
    settle = 1;
    depart_settle = 1;
    motion_thr = 1;
    change_thr = 1;
    big_change = 1;
    depart_drop = 1;
  };
  grab_once = λ c. (taken 5, c);
  eyes = record {
    sees_tubes = λ f. some true;
    judge = λ f i s. none;
    inspect_batch = λ f i n s. none;
    count_bundle = λ f. some f;
    draw = λ f meta ng. none;
  };
}

abbrev worker : Worker Log String ℕ ℕ
worker = record {
  station = station;
  spool = spool;
  tower = none;
  vision = none;
  manual = false;
  capture = false;
  live = false;
  success = 0;
  failure = 0;
  processed = 0;
  spooled = 0;
}

abbrev Answered : Payload → ℕ → Log → Type 0
Answered p n s = In (p, n) s

abbrev batch : BatchResult
batch = record {
  tubes = [];
  count_detected = 2;
  count_mismatch = false;
  ng_count = 0;
  any_review = false;
  batch_ng = false;
  count_uncertain = false;
}

abbrev row : ℕ → InspectionResult
row tube = record {
  lot = codes "L2";
  work_order = none;
  item_code = codes "T20";
  cam_id = codes "CAM1";
  inspection_stage = none;
  inspected_at = 12;
  tube_index = tube;
  tube_bbox = none;
  count_detected = none;
  count_expected = none;
  shift = none;
  operator = none;
  ref_length_mm = none;
  meas_length_mm = none;
  deviation_mm = none;
  meas_temp_c = none;
  length_verdict = none;
  oil_score = none;
  discolor_score = none;
  scratch_score = none;
  final_verdict = codes "OK";
  defect_codes = [];
  confidence = none;
  raw_image_path = none;
  result_image_path = none;
  proc_time_ms = none;
  review_flag = false;
  manual_verdict = none;
  mes_synced = false;
}

abbrev clock : Clock
clock = record { now = 12; total_ms = 80 }

answers :
    (c : ApiClient) (p : Payload) (srv : Log)
    → Answered p (post_inspection_json http c p srv).0 (post_inspection_json http c p srv).1
unfolding post_inspection_json
answers c p srv = inl refl

post_keeps :
    (c : ApiClient) (p q : Payload) (n : ℕ) (srv : Log)
    → Answered q n srv
    → Answered q n (post_inspection_json http c p srv).1
unfolding post_inspection_json
post_keeps c p q n srv h = inr h

status_keeps :
    (c : ApiClient) (s : Status) (q : Payload) (n : ℕ) (srv : Log)
    → Answered q n srv
    → Answered q n (heartbeat http c s srv).1
unfolding heartbeat
status_keeps c s q n srv h = h

two_fit : Room (needed env.json_size env.model_dump [] (row 0 ∷ row 1 ∷ [])) spool
unfolding needed total_bytes
two_fit = omega arith

deliver_all-Settled_example :
    All
      (λ (r : InspectionResult).
        Settled env Answered [] r (deliver_all env clock 2 batch [] (row 0 ∷ row 1 ∷ []) worker).1)
      (row 0 ∷ row 1 ∷ [])
deliver_all-Settled_example =
    deliver_all-Settled env (λ t. refl) Answered answers post_keeps status_keeps clock 2 batch []
      (row 0 ∷ row 1 ∷ []) worker two_fit

abbrev confidence : LengthResult → SurfaceResult → Limits → Bool → Bool → ℕ
confidence l s limits see_length see_surface = 9000

abbrev too_long : LengthResult
too_long = record {
  ref_length_mm = pos 100;
  meas_length_mm = some (pos 109);
  deviation_mm = some (pos 9);
  length_verdict = ng;
  edge_detected = true;
  meas_temp_c = none;
}

abbrev scratched : SurfaceResult
scratched = record {
  oil_score = none;
  discolor_score = none;
  scratch_score = some 9000;
  defect_codes = scr ∷ [];
}

abbrev limits : Limits
limits = record {
  tol_plus_mm = 5;
  tol_minus_mm = 5;
  oil_threshold = none;
  discolor_threshold = none;
  scratch_threshold = some 5000;
}

scr_not_multi : code_eq multi scr ≡ false
unfolding code_eq
scr_not_multi = refl

-- The mode for lengths does not show the scratch.
combine_verdict-codes_example :
    has_code scr
      (combine_verdict confidence
        (some (codes "CUT_LENGTH"))
        12
        too_long
        scratched
        limits).defect_codes
    ≡ shows (some (codes "CUT_LENGTH")) too_long scratched scr
combine_verdict-codes_example =
    combine_verdict-codes confidence (some (codes "CUT_LENGTH")) 12 too_long scratched limits scr
      scr_not_multi

ng_iff_ShowsOne_example :
    ((combine_verdict confidence none 12 too_long scratched limits).final_verdict ≡ ng)
    ↔ ShowsOne none too_long scratched
ng_iff_ShowsOne_example = ng_iff_ShowsOne confidence none 12 too_long scratched limits

abbrev plant : Plant Log String ℕ
plant = record { env = env; configure = configure; upload = none; event_driven = true }

abbrev quiet : Round
quiet = record { stopped = false; wish = false; fired = some false; stop = false; clock = clock }

unasked : (c : ApiClient) (s : Status) (srv : Log) → asks_capture (heartbeat http c s srv).0 ≡ false
unfolding heartbeat
unasked c s srv = refl

idle_station_waits_example : Rests 3 0 (run_rounds plant (quiet ∷ quiet ∷ []) 3 worker)
idle_station_waits_example =
    idle_station_waits plant refl unasked (quiet ∷ quiet ∷ []) 3 worker
      ((refl, refl, refl, refl), ((refl, refl, refl, refl), tt)) refl

-- A product comes, and then none.
abbrev two_rounds : List Round
two_rounds = record quiet { fired = some true } ∷ quiet ∷ []

run_rounds-InSync_example :
    Reached
      (λ (v : Worker Log String ℕ ℕ). InSync (λ (c : String). c) v.station)
      (run_rounds plant two_rounds 0 worker)
run_rounds-InSync_example =
    run_rounds-InSync plant (λ (c : String). c) (λ r c. refl) (λ c. refl) two_rounds 0 worker
      station-InSync
