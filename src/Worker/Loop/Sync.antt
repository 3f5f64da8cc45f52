-- ===== src/Worker/Loop/Sync.antt =====
-- What the loop keeps of the order and the camera (`run` of services/vision/worker/runner.py).
use pipe_vision.Prelude.{
  ℕ, ◌+◌, ◌≡◌, ◌⊎◌, ◌∙◌, refl, Bool, true, false, ◌&&◌, ◌||◌, not, Option, some, List, [], ◌∷◌,
  String, inl, inr, Bool-cases, if◌then◌else◌,
}
use pipe_vision.Worker.Client.{ItemMaster}
use pipe_vision.Worker.Orders.{Order, Station, maybe_reload_item}
use pipe_vision.Worker.Orders.Switch.{HasStage}
use pipe_vision.Worker.Orders.Recipe.{
  RunsRecipe, InSync, maybe_reload_item-InSync, maybe_reload_item-HasStage,
}
use pipe_vision.Worker.State.{Clock, Worker}
use pipe_vision.Worker.Cycle.{send_idle_status, send}
use pipe_vision.Worker.Cycle.Keeps.{run_once-Holds}
use pipe_vision.Worker.Cycle.Modes.{run_once}
use pipe_vision.Worker.Loop.{
  Round, Plant, Next, goes_on, ends, flush_spool, reload, wait_round, cycle_round,
  run_manual_capture, round, run_rounds, has_fired, is_empty_list, at_limit,
}

-- What is said of a worker, of the one that the loop has got to.
abbrev pub Reached : {W : Type 0} → (W → Type 0) → Next W → Type 0
Reached Q (goes_on n w) = Q w
Reached Q (ends n w) = Q w

if_Reached :
    {W : Type 0} (Q : W → Type 0) (b : Bool) (x y : Next W)
    → Reached Q x
    → Reached Q y
    → Reached Q (if b then x else y)
if_Reached Q true x y h k = h
if_Reached Q false x y h k = k

Next-cases :
    {W : Type 0} (x : Next W)
    → ((n : ℕ) × (w : W) × (x ≡ goes_on n w)) ⊎ ((n : ℕ) × (w : W) × (x ≡ ends n w))
Next-cases (goes_on n w) = inl (n, w, refl)
Next-cases (ends n w) = inr (n, w, refl)

module _ {S Cam Scene Frame : Type 0} (p : Plant S Cam Frame) (P : Order → Option Cam → Type 0)
    (of_grab : (o : Order) (c : Cam) → P o (some c) → P o (some (p.env.grab_once c).1))
    (of_reload : (now : ℕ) (s : Station S Cam)
      → P s.order s.camera
      → P
          (maybe_reload_item p.env.http p.configure p.env.cfg now s).order
          (maybe_reload_item p.env.http p.configure p.env.cfg now s).camera) where
  abbrev Held : Worker S Cam Scene Frame → Type 0
  Held w = P w.station.order w.station.camera

  flush_spool-Held : (w : Worker S Cam Scene Frame) → Held w → Held (flush_spool p w)
  unfolding flush_spool
  flush_spool-Held w h = elim (Bool-cases (is_empty_list w.spool.pending)) [
    | inl e ↦ rw (e, flush_spool) h
    | inr e ↦ rw (e, flush_spool) h
  ]

  reload-Held : (clock : Clock) (w : Worker S Cam Scene Frame) → Held w → Held (reload p clock w)
  unfolding reload
  reload-Held clock w h = of_reload clock.now w.station h

  cycle_round-Held :
      (clock : Clock) (w : Worker S Cam Scene Frame) → Held w → Held (cycle_round p clock w)
  unfolding cycle_round
  cycle_round-Held clock w h =
      flush_spool-Held (run_once p.env clock (reload p clock w)).1
        (run_once-Holds p.env P of_grab clock (reload p clock w) (reload-Held clock w h))

  manual-Held :
      (clock : Clock) (w : Worker S Cam Scene Frame) → Held w → Held (run_manual_capture p clock w)
  unfolding run_manual_capture
  manual-Held clock w h =
      let w0 : Worker S Cam Scene Frame =
        reload p clock (record w { capture = false; manual = true }) in
      flush_spool-Held (record (run_once p.env clock w0).1 { manual = false })
        (run_once-Holds p.env P of_grab clock w0
          (reload-Held clock (record w { capture = false; manual = true }) h))

  wait_round-Held :
      (clock : Clock) (w : Worker S Cam Scene Frame) → Held w → Held (wait_round p clock w)
  unfolding wait_round send_idle_status send
  wait_round-Held clock w h =
      flush_spool-Held (send_idle_status p.env (reload p clock w)) (reload-Held clock w h)

  abbrev waits_or_cycles : Round → ℕ → Worker S Cam Scene Frame → Next (Worker S Cam Scene Frame)
  waits_or_cycles r n w =
      if p.event_driven && not (has_fired p.event_driven r.fired)
      then goes_on n (wait_round p r.clock w)
      else if at_limit p.env.cfg.max_iterations (n + 1)
      then ends (n + 1) (cycle_round p r.clock w)
      else goes_on (n + 1) (cycle_round p r.clock w)

  abbrev after_wait : Round → ℕ → Worker S Cam Scene Frame → Next (Worker S Cam Scene Frame)
  after_wait r n w = if r.stop then ends n w else waits_or_cycles r n w

  round-Held :
      (r : Round) (n : ℕ) (w : Worker S Cam Scene Frame) → Held w → Reached Held (round p r n w)
  unfolding round
  round-Held r n w h =
      if_Reached Held r.stopped (ends n w)
        (if w.capture || r.wish
          then goes_on n (run_manual_capture p r.clock w)
          else after_wait r n w)
        h
        (if_Reached Held (w.capture || r.wish) (goes_on n (run_manual_capture p r.clock w))
          (after_wait r n w) (manual-Held r.clock w h)
          (if_Reached Held r.stop (ends n w) (waits_or_cycles r n w) h (
            if_Reached Held (p.event_driven && not (has_fired p.event_driven r.fired))
              (goes_on n (wait_round p r.clock w))
              (if at_limit p.env.cfg.max_iterations (n + 1)
                then ends (n + 1) (cycle_round p r.clock w)
                else goes_on (n + 1) (cycle_round p r.clock w))
              (wait_round-Held r.clock w h)
              (if_Reached Held (at_limit p.env.cfg.max_iterations (n + 1))
                (ends (n + 1) (cycle_round p r.clock w)) (goes_on (n + 1) (cycle_round p r.clock w))
                (cycle_round-Held r.clock w h) (cycle_round-Held r.clock w h)))))

  run_rounds-Held :
      (rs : List Round) (n : ℕ) (w : Worker S Cam Scene Frame)
      → Held w
      → Reached Held (run_rounds p rs n w)
  unfolding run_rounds
  run_rounds-Held [] n w h = h
  run_rounds-Held (r ∷ rs) n w h =
      let next = round-Held r n w h in
      elim (Next-cases (round p r n w)) [
        | inl (m, v, e) ↦ rw (e, run_rounds) (run_rounds-Held rs m v (rw e at next))
        | inr (m, v, e) ↦ rw (e, run_rounds) (rw e at next)
      ]

-- Through the whole loop the camera runs the recipe of the item.
pub run_rounds-InSync :
    {S Cam Scene Frame : Type 0} (p : Plant S Cam Frame) (observed : Cam → String)
    → ((r : String) (c : Cam) → observed (p.configure r c) ≡ r)
    → ((c : Cam) → observed (p.env.grab_once c).1 ≡ observed c)
    → (rs : List Round) (n : ℕ) (w : Worker S Cam Scene Frame) → InSync observed w.station
    → Reached (λ (v : Worker S Cam Scene Frame). InSync observed v.station) (run_rounds p rs n w)
run_rounds-InSync p observed configured grabs rs n w h =
    run_rounds-Held p
      (λ (o : Order) c. (item : ItemMaster) × (o.item ≡ some item) × RunsRecipe observed item c)
      (λ o c (item, e, q). (item, e, grabs c ∙ q))
      (λ now s q.
        maybe_reload_item-InSync p.configure observed p.env.http p.env.cfg configured now s q)
      rs n w h

-- Through the whole loop the mode of the active order is one that there is.
pub run_rounds-HasStage :
    {S Cam Scene Frame : Type 0} (p : Plant S Cam Frame) (rs : List Round) (n : ℕ)
    (w : Worker S Cam Scene Frame)
    → HasStage w.station.order
    → Reached (λ (v : Worker S Cam Scene Frame). HasStage v.station.order) (run_rounds p rs n w)
run_rounds-HasStage p rs n w h =
    run_rounds-Held p (λ (o : Order) c. HasStage o) (λ o c q. q)
      (λ now s q. maybe_reload_item-HasStage p.env.http p.configure p.env.cfg now s q) rs n w h
