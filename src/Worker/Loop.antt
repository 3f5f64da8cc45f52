-- ===== src/Worker/Loop.antt =====
-- The loop of `run` of services/vision/worker/runner.py. A round has what the trigger, the signals and
-- the live view give: whether the worker has been told to stop and the live view has wished for a
-- picture when the round begins, whether the trigger fired, none where it raised an exception, and
-- whether the worker has been told to stop when that wait is over. The log lines are left out.
pub mod Idle
pub mod Sync
use pipe_vision.Prelude.{
  ℕ, ◌+◌, Bool, true, false, ◌&&◌, ◌||◌, not, Option, none, some, List, [], ◌∷◌, String, ltb, leb,
  ◌==◌, length, if◌then◌else◌,
}
use pipe_vision.Prelude.Text.{Text}
use pipe_vision.Spool.Flush.{Upload, flush}
use pipe_vision.Spool.Store.{Spool}
use pipe_vision.Worker.Client.{post_inspection_json}
use pipe_vision.Worker.Orders.{maybe_reload_item}
use pipe_vision.Worker.State.{Clock, Env, Worker}
use pipe_vision.Worker.Cycle.{send_idle_status, with_server}
use pipe_vision.Worker.Cycle.Modes.{run_once}

pub record Round : Type 0 where
  pub stopped : Bool
  pub wish : Bool
  pub fired : Option Bool
  pub stop : Bool
  pub clock : Clock

-- What the loop does with the rest of the program.
pub record Plant (S Cam Frame : Type 0) : Type 0 where
  pub env : Env S Cam Frame
  pub configure : String → Cam → Cam
  pub upload : Option (Text → List ℕ → S → Upload × S)
  pub event_driven : Bool

-- Where the loop goes on, or the number of its cycles where it ends.
pub data Next (W : Type 0) : Type 0 where
  goes_on : ℕ → W → Next W
  ends : ℕ → W → Next W

abbrev has_fired : Bool → Option Bool → Bool
has_fired event_driven none = not event_driven
has_fired event_driven (some fired) = fired

abbrev is_empty_list : {A : Type 0} → List A → Bool
is_empty_list [] = true
is_empty_list (_ ∷ _) = false

-- `max_iterations`, where 0 is no limit.
abbrev at_limit : ℕ → ℕ → Bool
at_limit max_iterations n = not (max_iterations == 0) && leb max_iterations n

module _ {S Cam Scene Frame : Type 0} (p : Plant S Cam Frame) where
  -- `flush_spool`
  unfoldable pub flush_spool : Worker S Cam Scene Frame → Worker S Cam Scene Frame
  flush_spool w =
      let r =
        flush p.env.disk (post_inspection_json p.env.http w.station.link.client) p.upload none
          w.spool w.station.link.server in
      if is_empty_list w.spool.pending then w else record w {
        station = record w.station { link = record w.station.link { server = r.server } };
        spool = r.spool;
      }

  unfoldable pub reload : Clock → Worker S Cam Scene Frame → Worker S Cam Scene Frame
  unfolding maybe_reload_item
  reload clock w = record w {
    station = maybe_reload_item p.env.http p.configure p.env.cfg clock.now w.station;
  }

  -- `_run_manual_capture`, with the wish for it taken back.
  unfoldable pub run_manual_capture : Clock → Worker S Cam Scene Frame → Worker S Cam Scene Frame
  unfolding reload flush_spool run_once
  run_manual_capture clock w =
      let w1 =
        (run_once p.env clock (reload clock (record w { capture = false; manual = true }))).1 in
      flush_spool (record w1 { manual = false })

  -- A round in which no product came.
  unfoldable pub wait_round : Clock → Worker S Cam Scene Frame → Worker S Cam Scene Frame
  unfolding reload flush_spool send_idle_status
  wait_round clock w = flush_spool (send_idle_status p.env (reload clock w))

  unfoldable pub cycle_round : Clock → Worker S Cam Scene Frame → Worker S Cam Scene Frame
  unfolding reload flush_spool run_once
  cycle_round clock w = flush_spool (run_once p.env clock (reload clock w)).1

  unfoldable pub round : Round → ℕ → Worker S Cam Scene Frame → Next (Worker S Cam Scene Frame)
  unfolding run_manual_capture wait_round cycle_round
  round r n w =
      if r.stopped
      then ends n w
      else if w.capture || r.wish
      then goes_on n (run_manual_capture r.clock w)
      else if r.stop
      then ends n w
      else if p.event_driven && not (has_fired p.event_driven r.fired)
      then goes_on n (wait_round r.clock w)
      else (let w1 = cycle_round r.clock w in
          if at_limit p.env.cfg.max_iterations (n + 1) then ends (n + 1) w1 else goes_on (n + 1) w1)

  -- The loop over the rounds that come.
  unfoldable pub run_rounds :
      List Round → ℕ → Worker S Cam Scene Frame → Next (Worker S Cam Scene Frame)
  unfolding round
  run_rounds [] n w = goes_on n w
  run_rounds (r ∷ rs) n w = elim (round r n w) [
    | ends n1 w1 ↦ ends n1 w1
    | goes_on n1 w1 ↦ run_rounds rs n1 w1
  ]
