-- ===== src/Worker/Loop/Idle.antt =====
-- A station that no product comes to (`run` of services/vision/worker/runner.py).
use mathlib.Core.Path.{subst}
use pipe_vision.Prelude.{
  ℕ, ◌≡◌, ◌∙◌, refl, Bool, true, false, ◌||◌, none, some, List, [], ◌∷◌, inl, inr, arith,
  Bool-cases, All,
}
use pipe_vision.Worker.Client.{ApiClient, Status, heartbeat}
use pipe_vision.Worker.State.{Clock, Worker}
use pipe_vision.Worker.Cycle.{send_idle_status, send, status_of, expected_of, asks_capture}
use pipe_vision.Worker.Loop.{
  Round, Plant, Next, goes_on, ends, flush_spool, reload, wait_round, round, run_rounds,
  is_empty_list,
}

-- The trigger says that nothing came, the worker is not told to stop, and the live view wishes for no
-- picture.
abbrev pub Quiet : Round → Type 0
Quiet r = (r.fired ≡ some false) × (r.stop ≡ false) × (r.stopped ≡ false) × (r.wish ≡ false)

-- The loop goes on with so many cycles, no picture asked for, and none taken since.
abbrev pub Rests : {S Cam Scene Frame : Type 0} → ℕ → ℕ → Next (Worker S Cam Scene Frame) → Type 0
Rests n taken (goes_on m w) = (m ≡ n) × (w.capture ≡ false) × (w.processed ≡ taken)
Rests n taken (ends m w) = ⊥

or_false : (a b : Bool) → b ≡ false → (a || b) ≡ a
or_false a b h = ground arith

module _ {S Cam Scene Frame : Type 0} (p : Plant S Cam Frame) (sensor : p.event_driven ≡ true)
    (unasked : (c : ApiClient) (s : Status) (srv : S)
      → asks_capture (heartbeat p.env.http c s srv).0 ≡ false) where
  flush_spool-keeps :
      (w : Worker S Cam Scene Frame)
      → ((flush_spool p w).capture ≡ w.capture) × ((flush_spool p w).processed ≡ w.processed)
  unfolding flush_spool
  flush_spool-keeps w = elim (Bool-cases (is_empty_list w.spool.pending)) [
    | inl e ↦ rw (e, flush_spool) (refl, refl)
    | inr e ↦ rw (e, flush_spool) (refl, refl)
  ]

  idle_status-keeps :
      (w : Worker S Cam Scene Frame)
      → ((send_idle_status p.env w).capture ≡ w.capture)
        × ((send_idle_status p.env w).processed ≡ w.processed)
  unfolding send_idle_status send
  idle_status-keeps w = (
    or_false w.capture
        (asks_capture
          (heartbeat p.env.http w.station.link.client
            (status_of p.env (expected_of w.station.order.item) 0 0 false 0 none true w)
            w.station.link.server).0)
        (unasked w.station.link.client
          (status_of p.env (expected_of w.station.order.item) 0 0 false 0 none true w)
          w.station.link.server),
    refl,
  )

  wait_round-keeps :
      (clock : Clock) (w : Worker S Cam Scene Frame)
      → ((wait_round p clock w).capture ≡ w.capture)
        × ((wait_round p clock w).processed ≡ w.processed)
  unfolding wait_round reload
  wait_round-keeps clock w =
      let later = flush_spool-keeps (send_idle_status p.env (reload p clock w)) in
      let idle = idle_status-keeps (reload p clock w) in (later.0 ∙ idle.0, later.1 ∙ idle.1)

  still_round :
      (r : Round) (n : ℕ) (w : Worker S Cam Scene Frame)
      → Quiet r
      → w.capture ≡ false
      → round p r n w ≡ goes_on n (wait_round p r.clock w)
  unfolding round
  still_round r n w q c = rw (c, q.1, q.2, q.3, sensor, q.0, round) refl

  -- With a trigger that waits for products, and with no wish for a picture at the start: if in every
  -- round the trigger says that none came, neither the live view nor an answer of the server to a
  -- heartbeat asks for a picture, and no signal to stop comes, then the loop goes on, with no cycle more and no picture taken, and
  -- there is still no wish for one.
  pub idle_station_waits :
      (rs : List Round) (n : ℕ) (w : Worker S Cam Scene Frame)
      → All Quiet rs
      → w.capture ≡ false
      → Rests n w.processed (run_rounds p rs n w)
  unfolding run_rounds
  idle_station_waits [] n w q c = (refl, c, refl)
  idle_station_waits (r ∷ rs) n w q c =
      let kept = wait_round-keeps r.clock w in
      rw (still_round r n w q.0 c, run_rounds)
        (subst (λ (k : ℕ). Rests n k (run_rounds p rs n (wait_round p r.clock w))) kept.1
          (idle_station_waits rs n (wait_round p r.clock w) q.1 (kept.0 ∙ c)))
