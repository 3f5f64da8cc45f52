-- ===== src/Tower.antt =====
-- The signal tower (services/vision/fieldio/tower.py) on the output pins of a GPIO backend. The
-- backend keeps the level of each pin (`FakeGpioBackend.write` of services/vision/fieldio/gpio.py);
-- a pin whose write raises an exception keeps its level. The timer of a short buzz is armed or not,
-- and its firing is an event of its own.
pub mod Alarm
use pipe_vision.Prelude.{
  ℕ, ◌+◌, Bool, true, false, ◌||◌, Option, none, some, List, [], ◌∷◌, leb, ◌==◌, max, if◌then◌else◌,
}

pub record TowerPins : Type 0 where
  pub red : Option ℕ
  pub green : Option ℕ
  pub yellow : Option ℕ
  pub buzzer : Option ℕ
  pub active_low : Bool

abbrev is_set : Option ℕ → Bool
is_set none = false
is_set (some p) = true

-- `TowerPins.any`
pub any_pin : TowerPins → Bool
any_pin pins = is_set pins.red || is_set pins.green || is_set pins.yellow || is_set pins.buzzer

pub record Tower : Type 0 where
  pub pins : TowerPins
  pub buzz_ms : ℕ
  pub consec_threshold : ℕ
  pub consecutive_ng : ℕ
  pub timer_armed : Bool
  pub latched : Bool
  pub level : ℕ → Bool

-- `SignalTower.__init__`: every output starts switched off.
pub new_tower : TowerPins → ℕ → ℕ → Tower
new_tower pins buzz_ms threshold = record {
  pins = pins;
  buzz_ms = buzz_ms;
  consec_threshold = max 1 threshold;
  consecutive_ng = 0;
  timer_armed = false;
  latched = false;
  level = λ p. false;
}

-- `SignalTower.from_env`, none for the NullTower: no pin is set, or the GPIO cannot be opened.
pub tower_from_env : TowerPins → Bool → ℕ → ℕ → Option Tower
unfolding any_pin new_tower
tower_from_env pins gpio_opens buzz_ms threshold =
    if any_pin pins
    then (if gpio_opens then some (new_tower pins buzz_ms threshold) else none)
    else none

module _ (write_fails : ℕ → Bool) where
  -- `_set`
  write : Option ℕ → Bool → (ℕ → Bool) → ℕ → Bool
  write none on level p = level p
  write (some pin) on level p =
      if pin == p then (if write_fails pin then level p else on) else level p

  set_pin : Option ℕ → Bool → Tower → Tower
  unfolding write
  set_pin pin on t = record t { level = write pin on t.level }

  abbrev cancel_buzz : Tower → Tower
  cancel_buzz t = record t { timer_armed = false }

  buzz_pulse : Tower → Tower
  unfolding set_pin
  buzz_pulse t =
      if is_set t.pins.buzzer
      then (if leb t.buzz_ms 0
          then t
          else record (set_pin t.pins.buzzer true (cancel_buzz t)) { timer_armed = true })
      else t

  -- `signal(ng=True)` from the count of this NG on.
  alarm : Tower → Tower
  unfolding set_pin buzz_pulse
  alarm t =
      if leb t.consec_threshold t.consecutive_ng
      then set_pin t.pins.buzzer true (record (cancel_buzz t) { latched = true })
      else if t.latched
      then t
      else buzz_pulse t

  pub signal : Bool → Tower → Tower
  unfolding set_pin alarm
  signal ng t =
      let t1 = set_pin t.pins.yellow false t in
      if ng
      then alarm (
          set_pin t.pins.red true
            (set_pin t.pins.green false (record t1 { consecutive_ng = t1.consecutive_ng + 1 })))
      else set_pin t.pins.green true (
          set_pin t.pins.red false (
            set_pin t.pins.buzzer false
              (cancel_buzz (record t1 { consecutive_ng = 0; latched = false }))))

  pub fault : Tower → Tower
  unfolding set_pin
  fault t = set_pin t.pins.yellow true t

  pub close : Tower → Tower
  unfolding set_pin
  close t = set_pin t.pins.buzzer false (
      set_pin t.pins.yellow false
        (set_pin t.pins.green false (set_pin t.pins.red false (cancel_buzz t))))

  -- The function that the timer calls; a cancelled timer calls nothing.
  pub timer_fires : Tower → Tower
  unfolding set_pin
  timer_fires t =
      if t.timer_armed then record (set_pin t.pins.buzzer false t) { timer_armed = false } else t

pub data TowerEvent : Type 0 where
  ok_cycle ng_cycle fault_seen timer_end : TowerEvent

module _ (write_fails : ℕ → Bool) where
  pub react : TowerEvent → Tower → Tower
  unfolding signal fault timer_fires
  react ok_cycle t = signal write_fails false t
  react ng_cycle t = signal write_fails true t
  react fault_seen t = fault write_fails t
  react timer_end t = timer_fires write_fails t

  pub react_all : List TowerEvent → Tower → Tower
  unfolding react
  react_all [] t = t
  react_all (e ∷ es) t = react_all es (react e t)
