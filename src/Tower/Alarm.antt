-- ===== src/Tower/Alarm.antt =====
-- What the lamps and the buzzer show.
use pipe_vision.Prelude.{
  ℕ, ◌+◌, ◌≤◌, ◌≡◌, ◌≢◌, refl, ◌∙◌, Bool, true, false, Option, none, some, List, [], ◌∷◌, arith,
  leb, le→leb, max,
}
use pipe_vision.Tower.{
  TowerPins, Tower, new_tower, write, TowerEvent, ok_cycle, ng_cycle, fault_seen, timer_end, react,
  react_all,
}

-- The level of a pin that may be absent.
abbrev pub lit : Option ℕ → Tower → Bool
lit none t = false
lit (some p) t = t.level p

-- The NG cycles since the last OK cycle, counted on from n.
unfoldable pub trailing_ng : ℕ → List TowerEvent → ℕ
trailing_ng n [] = n
trailing_ng n (ok_cycle ∷ es) = trailing_ng 0 es
trailing_ng n (ng_cycle ∷ es) = trailing_ng (n + 1) es
trailing_ng n (fault_seen ∷ es) = trailing_ng n es
trailing_ng n (timer_end ∷ es) = trailing_ng n es

abbrev pub wired_pins : ℕ → ℕ → ℕ → ℕ → Bool → TowerPins
wired_pins red green yellow buzzer low = record {
  red = some red;
  green = some green;
  yellow = some yellow;
  buzzer = some buzzer;
  active_low = low;
}

-- Between two events, on four pins that differ.
pub record IsSound (red green yellow buzzer : ℕ) (t : Tower) : Type 0 where
  pub wired : t.pins ≡ record {
    red = some red;
    green = some green;
    yellow = some yellow;
    buzzer = some buzzer;
    active_low = t.pins.active_low;
  }
  pub latched_iff : t.latched ≡ leb t.consec_threshold t.consecutive_ng
  pub latched_disarms : t.latched ≡ true → t.timer_armed ≡ false
  pub latched_buzzes : t.latched ≡ true → t.level buzzer ≡ true
  pub threshold_pos : 1 ≤ t.consec_threshold
  pub ng_red : 1 ≤ t.consecutive_ng → (t.level red ≡ true) × (t.level green ≡ false)

module _ (red green yellow buzzer : ℕ)
    (differ : (red ≢ green)
      × (red ≢ yellow)
      × (red ≢ buzzer)
      × (green ≢ yellow)
      × (green ≢ buzzer)
      × (yellow ≢ buzzer))
    (write_fails : ℕ → Bool) (works : (p : ℕ) → write_fails p ≡ false) where
  react-IsSound :
      (e : TowerEvent) (t : Tower)
      → IsSound red green yellow buzzer t
      → IsSound red green yellow buzzer (react write_fails e t)
  unfolding react write
  react-IsSound ok_cycle t s = ground (arith, works red, works green, works yellow, works buzzer)
  react-IsSound ng_cycle t s = ground (arith, works red, works green, works yellow, works buzzer)
  react-IsSound fault_seen t s = ground (arith, works red, works green, works yellow, works buzzer)
  react-IsSound timer_end t s = ground (arith, works red, works green, works yellow, works buzzer)

  react-consecutive_ng :
      (e : TowerEvent) (t : Tower)
      → (react write_fails e t).consecutive_ng ≡ trailing_ng t.consecutive_ng (e ∷ [])
  unfolding react trailing_ng
  react-consecutive_ng ok_cycle t = ground arith
  react-consecutive_ng ng_cycle t = ground arith
  react-consecutive_ng fault_seen t = ground arith
  react-consecutive_ng timer_end t = ground arith

  react-consec_threshold :
      (e : TowerEvent) (t : Tower) → (react write_fails e t).consec_threshold ≡ t.consec_threshold
  unfolding react
  react-consec_threshold ok_cycle t = ground arith
  react-consec_threshold ng_cycle t = ground arith
  react-consec_threshold fault_seen t = ground arith
  react-consec_threshold timer_end t = ground arith

  react_all-IsSound :
      (es : List TowerEvent) (t : Tower)
      → IsSound red green yellow buzzer t
      → IsSound red green yellow buzzer (react_all write_fails es t)
        × ((react_all write_fails es t).consecutive_ng ≡ trailing_ng t.consecutive_ng es)
        × ((react_all write_fails es t).consec_threshold ≡ t.consec_threshold)
  unfolding react_all trailing_ng
  react_all-IsSound [] t s = (s, refl, refl)
  react_all-IsSound (e ∷ es) t s =
      let t' = react write_fails e t in
      let (sound, count, same) = react_all-IsSound es t' (react-IsSound e t s) in
      (sound, count ∙ after e, same ∙ react-consec_threshold e t)
    where
      after :
          (e : TowerEvent)
          → trailing_ng (react write_fails e t).consecutive_ng es
            ≡ trailing_ng t.consecutive_ng (e ∷ es)
      after ok_cycle = rw react-consecutive_ng refl
      after ng_cycle = rw react-consecutive_ng refl
      after fault_seen = rw react-consecutive_ng refl
      after timer_end = rw react-consecutive_ng refl

  -- Whatever cycles, faults and expiries of the timer come: if the last cycle was NG, red is lit and
  -- green is not. The four pins differ, and every write works.
  pub ng_shows_red :
      (pins_low : Bool) (buzz_ms threshold : ℕ) (es : List TowerEvent)
      → 1 ≤ trailing_ng 0 es
      → let t =
          react_all write_fails es
            (new_tower (wired_pins red green yellow buzzer pins_low) buzz_ms threshold) in
        (t.level red ≡ true) × (t.level green ≡ false)
  unfolding new_tower
  ng_shows_red pins_low buzz_ms threshold es h =
      let (sound, count, same) =
        react_all-IsSound es
          (new_tower (wired_pins red green yellow buzzer pins_low) buzz_ms threshold)
          (ground arith) in
      sound.ng_red (rw count h)

  -- If the last cycles were NG, as many as the threshold (at least one) or more, the buzzer sounds,
  -- and no timer is left to end it. The four pins differ, and every write works.
  pub repeated_ng_keeps_buzzing :
      (pins_low : Bool) (buzz_ms threshold : ℕ) (es : List TowerEvent)
      → max 1 threshold ≤ trailing_ng 0 es
      → let t =
          react_all write_fails es
            (new_tower (wired_pins red green yellow buzzer pins_low) buzz_ms threshold) in
        (t.level buzzer ≡ true) × (t.timer_armed ≡ false)
  unfolding new_tower
  repeated_ng_keeps_buzzing pins_low buzz_ms threshold es h =
      let (sound, count, same) =
        react_all-IsSound es
          (new_tower (wired_pins red green yellow buzzer pins_low) buzz_ms threshold)
          (ground arith) in
      let t =
        react_all write_fails es
          (new_tower (wired_pins red green yellow buzzer pins_low) buzz_ms threshold) in
      let on : t.latched ≡ true =
        sound.latched_iff ∙ le→leb t.consec_threshold t.consecutive_ng (rw (count, same) h) in
      (sound.latched_buzzes on, sound.latched_disarms on)
