-- ===== src/Trigger/Gpio.antt =====
-- `GpioTrigger` of services/vision/acquisition/trigger.py: a proximity sensor on an input pin. What
-- the backend answers to a call is an input of the model: whether the sensor is active when the pin
-- is set up, and whether a wait ended by its condition, and not by its timeout.
use pipe_vision.Prelude.{
  ℕ, ◌+◌, ◌≤◌, ◌≡◌, ◌⊎◌, refl, Bool, true, false, not, Option, none, some, List, [], ◌∷◌, arith,
  if◌then◌else◌,
}

pub record GpioTrigger : Type 0 where
  pub pin : Option ℕ
  pub has_backend : Bool
  pub ready : Bool
  pub armed : Bool
  pub fired : ℕ

-- What the backend answers during one call of `wait_for_trigger`.
pub record Answers : Type 0 where
  pub gpio_opens : Bool
  pub active_at_setup : Bool
  pub left : Bool
  pub came : Bool

abbrev pub new_trigger : Option ℕ → Bool → GpioTrigger
new_trigger pin has_backend = record {
  pin = pin;
  has_backend = has_backend;
  ready = false;
  armed = true;
  fired = 0;
}

pub set_up : Answers → GpioTrigger → GpioTrigger
set_up a t = record t { has_backend = true; armed = not a.active_at_setup; ready = true }

abbrev with_pin : Option ℕ → Answers → GpioTrigger → Option GpioTrigger
with_pin none a t = none
with_pin (some pin) a t =
    if t.has_backend then some (set_up a t) else if a.gpio_opens then some (set_up a t) else none

-- `_ensure`, none for the TriggerSDKError: no pin, or the GPIO cannot be opened.
ensure : Answers → GpioTrigger → Option GpioTrigger
unfolding set_up
ensure a t = if t.ready then some t else with_pin t.pin a t

-- The waits: first for the last product to leave, if it is still there, then for the next one.
await_sensor : Answers → GpioTrigger → Bool × GpioTrigger
await_sensor a t =
    if t.armed
    then (if a.came then (true, record t { armed = false; fired = t.fired + 1 }) else (false, t))
    else if a.left
    then (if a.came
        then (true, record t { armed = false; fired = t.fired + 1 })
        else (false, record t { armed = true }))
    else (false, t)

abbrev await_ready : Option GpioTrigger → Answers → GpioTrigger → Option Bool × GpioTrigger
await_ready none a t = (none, t)
await_ready (some t') a t = let (came, t'') = await_sensor a t' in (some came, t'')

-- `wait_for_trigger`: whether a product came, none for the error, and the trigger afterwards.
pub wait_for_trigger : Answers → GpioTrigger → Option Bool × GpioTrigger
unfolding ensure await_sensor
wait_for_trigger a t = await_ready (ensure a t) a t

pub run : List Answers → GpioTrigger → GpioTrigger
unfolding wait_for_trigger
run [] t = t
run (a ∷ as') t = run as' (wait_for_trigger a t).1

-- The waits in which the product was seen to leave.
pub departures : List Answers → ℕ
departures [] = 0
departures (a ∷ as') = (if a.left then 1 else 0) + departures as'

abbrev pub flag : Bool → ℕ
flag true = 1
flag false = 0

-- Before the pin is set up, the trigger is armed.
abbrev pub ArmedUntilReady : GpioTrigger → Type 0
ArmedUntilReady t = t.ready ≡ false → t.armed ≡ true

wait_for_trigger-fired :
    (a : Answers) (t : GpioTrigger)
    → ArmedUntilReady t
    → let t' = (wait_for_trigger a t).1 in
      ArmedUntilReady t'
      × (t'.fired + flag t'.armed ≤ t.fired + flag t.armed + (if a.left then 1 else 0))
unfolding wait_for_trigger
wait_for_trigger-fired a t h = ground arith

run-fired :
    (as' : List Answers) (t : GpioTrigger)
    → ArmedUntilReady t
    → let t' = run as' t in t'.fired + flag t'.armed ≤ t.fired + flag t.armed + departures as'
unfolding run departures
run-fired [] t h = omega arith
run-fired (a ∷ as') t h =
    let (h', step) = wait_for_trigger-fired a t h in
    omega (arith, step, run-fired as' (wait_for_trigger a t).1 h')

-- A product that stays before the sensor is taken once: however often the worker waits, and whatever
-- errors come between, a new trigger fires at most once more than a product was seen to leave.
pub fired-le-departures :
    (pin : Option ℕ) (has_backend : Bool) (as' : List Answers)
    → (run as' (new_trigger pin has_backend)).fired ≤ 1 + departures as'
fired-le-departures pin has_backend as' =
    omega (arith, run-fired as' (new_trigger pin has_backend) (λ e. refl))

-- A sensor that has been set up, is free, or becomes free, and then sees a product fires the trigger,
-- which waits for that product to leave.
pub wait_for_trigger_fires :
    (pin : ℕ) (a : Answers) (t : GpioTrigger)
    → t.pin ≡ some pin
    → t.ready ≡ true
    → a.came ≡ true
    → ((t.armed ≡ true) ⊎ (a.left ≡ true))
    → wait_for_trigger a t ≡ (some true, record t { armed = false; fired = t.fired + 1 })
unfolding wait_for_trigger
wait_for_trigger_fires pin a t p r c h = ground arith
