-- ===== src/Examples/Devices.antt =====
-- Examples for services/vision/fieldio/tower.py and services/vision/acquisition/trigger.py.
use pipe_vision.Prelude.{
  ℕ, ◌+◌, ◌≤◌, ◌≡◌, ◌≢◌, refl, Bool, true, false, none, some, List, [], ◌∷◌, arith, All, max, ◌==◌,
  if◌then◌else◌,
}
use pipe_vision.Tower.{new_tower, ok_cycle, ng_cycle, fault_seen, timer_end, react_all, TowerEvent}
use pipe_vision.Tower.Alarm.{trailing_ng, repeated_ng_keeps_buzzing, wired_pins}
use pipe_vision.Trigger.Gpio
use pipe_vision.Trigger.Gpio.{
  Answers, GpioTrigger, wait_for_trigger, departures, fired-le-departures, wait_for_trigger_fires,
}
use pipe_vision.Prelude.Text.{Text, codes, text_eq}
use pipe_vision.Trigger.Files.{Within, images_of, all_members, member}
use pipe_vision.Trigger.Vision.{
  Mode, arrival, departure, Measures, Settings, Held, VisionTrigger, Input, mode, new_trigger, step,
  run, take_frame,
}
use pipe_vision.Trigger.Vision.Fires.{no_second_picture}
use pipe_vision.Trigger.Vision.Crate.{crate_picture}

abbrev cycles : List TowerEvent
cycles = ng_cycle ∷ ok_cycle ∷ ng_cycle ∷ timer_end ∷ ng_cycle ∷ fault_seen ∷ timer_end ∷ []

pins_differ :
    (◌≢◌ {A = ℕ} 1 2)
    × (◌≢◌ {A = ℕ} 1 3)
    × (◌≢◌ {A = ℕ} 1 4)
    × (◌≢◌ {A = ℕ} 2 3)
    × (◌≢◌ {A = ℕ} 2 4)
    × (◌≢◌ {A = ℕ} 3 4)
pins_differ = (
  λ e. omega arith,
  λ e. omega arith,
  λ e. omega arith,
  λ e. omega arith,
  λ e. omega arith,
  λ e. omega arith,
)

two_ng : 1 ≤ trailing_ng 0 cycles
unfolding trailing_ng
two_ng = omega arith

enough_ng : max 1 2 ≤ trailing_ng 0 cycles
unfolding trailing_ng
enough_ng = omega arith

repeated_ng_keeps_buzzing_example :
    let t = react_all (λ p. false) cycles (new_tower (wired_pins 1 2 3 4 false) 700 2) in
    (t.level 4 ≡ true) × (t.timer_armed ≡ false)
repeated_ng_keeps_buzzing_example =
    repeated_ng_keeps_buzzing 1 2 3 4 pins_differ (λ p. false) (λ p. refl) false 700 2 cycles
      enough_ng

abbrev answers : Bool → Bool → Answers
answers left came = record { gpio_opens = true; active_at_setup = true; left = left; came = came }

fired-le-departures_example :
    (Gpio.run (answers true true ∷ answers false true ∷ []) (Gpio.new_trigger (some 4) true)).fired
    ≤ 1 + departures (answers true true ∷ answers false true ∷ [])
fired-le-departures_example =
    fired-le-departures (some 4) true (answers true true ∷ answers false true ∷ [])

abbrev waiting_trigger : GpioTrigger
waiting_trigger = record {
  pin = some 4;
  has_backend = true;
  ready = true;
  armed = false;
  fired = 6;
}

-- Scenes are numbers: two differ wholly or not at all.
abbrev numbers : Measures ℕ
numbers = record {
  frac = λ a b. if a == b then 0 else 10000;
  same_shape = λ a b. true;
  texture = λ a. 100;
}

abbrev settings : Settings
settings = record {
  forced_mode = none;
  settle = 300;
  depart_settle = 500;
  motion_thr = 100;
  change_thr = 300;
  big_change = 2500;
  depart_drop = 3500;
}

abbrev preview : Mode → ℕ → ℕ → Input ℕ ℕ
preview m scene now = record { scene = scene; now = now; mode = some m; grab = some now }

abbrev still_for : Mode → VisionTrigger ℕ ℕ
still_for m = record new_trigger { prev = some 5; still_since = some 100; mode_seen = some m }

arrival_fires : (step numbers settings (preview arrival 5 400) (still_for arrival)).0 ≡ true
unfolding step
arrival_fires = refl

abbrev lying : List (Input ℕ ℕ)
lying = preview arrival 5 500 ∷ preview arrival 5 900 ∷ []

no_second_picture_example :
    All
      (λ shot. shot ≡ false)
      (run numbers settings lying
        (step numbers settings (preview arrival 5 400) (still_for arrival)).1).0
no_second_picture_example =
    no_second_picture numbers settings (preview arrival 5 400) lying (still_for arrival)
      arrival_fires (omega arith, refl, (omega arith, refl, tt))

abbrev crate : Held ℕ ℕ
crate = record { frame = 77; preview = 8; texture = 100; at = 50 }

abbrev crate_there : VisionTrigger ℕ ℕ
crate_there = record (still_for departure) { held = some crate }

departure_fires : (step numbers settings (preview departure 5 700) crate_there).0 ≡ true
unfolding step
departure_fires = refl

crate_picture_example :
    (h : Held ℕ ℕ) × ((mode settings (some departure) crate_there).1.held ≡ some h)
    × ((take_frame settings (step numbers settings (preview departure 5 700) crate_there).1).0
        ≡ some (h.frame, h.at))
crate_picture_example =
    crate_picture numbers settings (preview departure 5 700) crate_there refl departure_fires

abbrev there : List Text
there = codes "a.jpg" ∷ codes "b.PNG" ∷ []

listed_before :
    All (λ files. Within files there) (there ∷ (codes "b.PNG" ∷ codes "c.txt" ∷ []) ∷ [])
unfolding images_of all_members member text_eq
listed_before = (refl, (refl, tt))
