-- ===== src/Trigger/Vision.antt =====
-- `VisionTrigger` of services/vision/acquisition/trigger.py: when to take a picture, from the preview
-- of the camera. A preview is a value of `Scene`. Its measures, which the code has from numpy and
-- OpenCV, are parameters: the share of pixels that differ between two scenes (1 where the shapes
-- differ), whether the shapes are equal, and the texture. Shares and thresholds are ten-thousandths,
-- times milliseconds. The camera may fail to grab a frame.
pub mod Fires
pub mod Crate
use pipe_vision.Prelude.{
  ℕ, zero, suc, ◌+◌, ◌-◌, ◌*◌, Bool, true, false, not, ◌&&◌, ◌||◌, Option, none, some, List, [],
  ◌∷◌, ◌++◌, max, ltb, leb, if◌then◌else◌, length, drop,
}

pub data Mode : Type 0 where
  arrival departure : Mode

pub record Measures (Scene : Type 0) : Type 0 where
  pub frac : Scene → Scene → ℕ
  pub same_shape : Scene → Scene → Bool
  pub texture : Scene → ℕ

pub record Settings : Type 0 where
  pub forced_mode : Option Mode
  pub settle : ℕ
  pub depart_settle : ℕ
  pub motion_thr : ℕ
  pub change_thr : ℕ
  pub big_change : ℕ
  pub depart_drop : ℕ

pub record Held (Scene Frame : Type 0) : Type 0 where
  pub frame : Frame
  pub preview : Scene
  pub texture : ℕ
  pub at : ℕ

pub record VisionTrigger (Scene Frame : Type 0) : Type 0 where
  pub prev : Option Scene
  pub still_since : Option ℕ
  pub moved : Bool
  pub episode_peak : ℕ
  pub baseline : Option Scene
  pub last_fired : Option Scene
  pub held : Option (Held Scene Frame)
  pub pending : Option (Held Scene Frame)
  pub empties : List Scene
  pub mode_seen : Option Mode
  pub fired : ℕ

-- What the camera and the mode provider give while one preview is handled. The provider's answer is
-- none where it raises, or answers no mode.
pub record Input (Scene Frame : Type 0) : Type 0 where
  pub scene : Scene
  pub now : ℕ
  pub mode : Option Mode
  pub grab : Option Frame

abbrev pub max_empties : ℕ
max_empties = 5

module _ {Scene Frame : Type 0} where
  -- `_reset_state`
  pub reset_state : VisionTrigger Scene Frame → VisionTrigger Scene Frame
  reset_state t = record t {
    prev = none;
    still_since = none;
    moved = true;
    episode_peak = 0;
    baseline = none;
    last_fired = none;
    held = none;
    pending = none;
    empties = [];
  }

  -- The trigger as `__init__` leaves it.
  abbrev pub new_trigger : VisionTrigger Scene Frame
  new_trigger = record {
    prev = none;
    still_since = none;
    moved = true;
    episode_peak = 0;
    baseline = none;
    last_fired = none;
    held = none;
    pending = none;
    empties = [];
    mode_seen = none;
    fired = 0;
  }

abbrev or_arrival : Option Mode → Mode
or_arrival none = arrival
or_arrival (some m) = m

abbrev or_else : Option Mode → Option Mode → Option Mode
or_else none m = m
or_else (some m) _ = some m

abbrev pub is_arrival : Mode → Bool
is_arrival arrival = true
is_arrival departure = false

abbrev same_mode : Option Mode → Mode → Bool
same_mode none m = false
same_mode (some arrival) m = is_arrival m
same_mode (some departure) m = not (is_arrival m)

abbrev has_value : {A : Type 0} → Option A → Bool
has_value none = false
has_value (some _) = true

-- The last n items.
abbrev last_of : {A : Type 0} → ℕ → List A → List A
last_of n xs = drop (length xs - n) xs

abbrev pub chosen_mode : Settings → Option Mode → Mode
chosen_mode s provided = or_arrival (or_else s.forced_mode provided)

module _ {Scene Frame : Type 0} (s : Settings) where
  -- `mode`: a change of the mode starts over, but for the empty scenes of the camera.
  pub mode : Option Mode → VisionTrigger Scene Frame → Mode × VisionTrigger Scene Frame
  unfolding reset_state
  mode provided t =
      let m = chosen_mode s provided in
      if same_mode t.mode_seen m
      then (m, t)
      else if has_value t.mode_seen
      then (m, record (reset_state t) { empties = t.empties; mode_seen = some m })
      else (m, record t { mode_seen = some m })

abbrev settle_of : Settings → Mode → ℕ
settle_of s arrival = s.settle
settle_of s departure = s.depart_settle

module _ {Scene : Type 0} (measures : Measures Scene) (s : Settings) where
  open measures use {frac}

  -- `_matches_empty`
  matches_empty : Scene → List Scene → Bool
  matches_empty cur [] = false
  matches_empty cur (e ∷ es) = leb (frac cur e) s.change_thr || matches_empty cur es

  abbrev near : Scene → Option Scene → Bool
  near cur none = false
  near cur (some b) = leb (frac cur b) s.change_thr

  abbrev change_from : Scene → Option Scene → ℕ → ℕ
  change_from cur none peak = peak
  change_from cur (some ref) peak = max peak (frac cur ref)

module _ {Scene Frame : Type 0} (measures : Measures Scene) (s : Settings) where
  open measures use {frac, same_shape, texture}

  -- `_stable_arrival`
  stable_arrival : Scene → ℕ → VisionTrigger Scene Frame → Bool × VisionTrigger Scene Frame
  unfolding matches_empty
  stable_arrival cur peak t =
      if matches_empty measures s cur t.empties
      then (false, record t { baseline = some cur })
      else if has_value t.baseline && ltb peak s.big_change && near measures s cur t.baseline
      then (false, t)
      else (true, record t { baseline = some cur; last_fired = some cur; fired = t.fired + 1 })

  -- `_hold`: a picture that cannot be taken leaves the one that is held.
  hold : Input Scene Frame → Scene → ℕ → VisionTrigger Scene Frame → VisionTrigger Scene Frame
  hold input cur tex t = elim input.grab [
    | none ↦ t
    | some f ↦ record t {
      held = some (record { frame = f; preview = cur; texture = tex; at = input.now });
    }
  ]

  -- `_emit`, at what is held: that is handed to the worker, and the next scene is held.
  emit :
      Input Scene Frame
      → Held Scene Frame
      → Option (Scene × ℕ)
      → VisionTrigger Scene Frame
      → Bool × VisionTrigger Scene Frame
  unfolding hold
  emit input h next t =
      let t1 = record t { pending = some h; last_fired = some h.preview; held = none } in
      let t2 : VisionTrigger Scene Frame = elim next [
        | none ↦ t1
        | some (cur, tex) ↦ hold input cur tex t1
      ] in
      (true, record t2 { fired = t2.fired + 1 })

  -- `_stable_departure`, by whether a picture is held.
  depart :
      Input Scene Frame
      → Option (Held Scene Frame)
      → Scene
      → VisionTrigger Scene Frame
      → Bool × VisionTrigger Scene Frame
  unfolding hold emit matches_empty
  depart input none cur t =
      if matches_empty measures s cur t.empties
      then (false, t)
      else (false, hold input cur (texture cur) t)
  depart input (some h) cur t =
      let tex = texture cur in
      let d = frac cur h.preview in
      if matches_empty measures s cur t.empties
      then emit input h none t
      else if leb d s.change_thr
      then (false, t)
      else if leb s.big_change d || ltb (tex * 10000) (h.texture * (10000 - s.depart_drop))
      then emit input h (some (cur, tex)) t
      else (false, hold input cur tex t)

  stable_departure :
      Input Scene Frame → Scene → VisionTrigger Scene Frame → Bool × VisionTrigger Scene Frame
  unfolding depart
  stable_departure input cur t = depart input t.held cur t

  abbrev preview_of : Option (Held Scene Frame) → Option Scene
  preview_of none = none
  preview_of (some h) = some h.preview

  abbrev reference : Mode → VisionTrigger Scene Frame → Option Scene
  reference arrival t = t.baseline
  reference departure t = preview_of t.held

  abbrev by_mode :
      Mode
      → Input Scene Frame
      → Scene
      → ℕ
      → VisionTrigger Scene Frame
      → Bool × VisionTrigger Scene Frame
  by_mode arrival input cur peak t = stable_arrival cur peak t
  by_mode departure input cur peak t = stable_departure input cur t

  -- A scene that does not move, by the time since which it has not.
  still :
      Mode
      → Input Scene Frame
      → Option ℕ
      → VisionTrigger Scene Frame
      → Bool × VisionTrigger Scene Frame
  still m input none t = (false, record t { still_since = some input.now })
  still m input (some since) t =
      if ltb (input.now - since) (settle_of s m) || not t.moved
      then (false, t)
      else by_mode m input input.scene t.episode_peak (record t { moved = false; episode_peak = 0 })

  -- A scene with one before it.
  compared :
      Mode
      → Input Scene Frame
      → Scene
      → VisionTrigger Scene Frame
      → Bool × VisionTrigger Scene Frame
  unfolding still
  compared m input before t =
      let cur = input.scene in
      if not (same_shape before cur)
      then (false, record t { still_since = none })
      else if ltb s.motion_thr (frac cur before)
      then (
        false,
        record t {
          still_since = none;
          moved = true;
          episode_peak = change_from measures s cur (reference m t) t.episode_peak;
        },
      )
      else still m input t.still_since t

  after_mode :
      Mode → Input Scene Frame → VisionTrigger Scene Frame → Bool × VisionTrigger Scene Frame
  unfolding compared
  after_mode m input t =
      let t1 = record t { prev = some input.scene } in
      elim t.prev [
        | none ↦ (false, record t1 { still_since = none })
        | some before ↦ compared m input before t1
      ]

  -- `_step`: whether to take a picture now.
  unfoldable pub step :
      Input Scene Frame → VisionTrigger Scene Frame → Bool × VisionTrigger Scene Frame
  unfolding mode after_mode stable_arrival stable_departure
  step input t = let (m, t1) = mode s input.mode t in after_mode m input t1

  pub run :
      List (Input Scene Frame) → VisionTrigger Scene Frame → List Bool × VisionTrigger Scene Frame
  unfolding step
  run [] t = ([], t)
  run (i ∷ is) t = let (shot, t') = step i t in let (shots, t'') = run is t' in (shot ∷ shots, t'')

module _ {Scene Frame : Type 0} (s : Settings) where
  -- `take_frame`: the picture that was held, which is handed out once.
  pub take_frame : VisionTrigger Scene Frame → Option (Frame × ℕ) × VisionTrigger Scene Frame
  take_frame t =
      (elim t.pending [ none ↦ none | some h ↦ some (h.frame, h.at) ], record t { pending = none })

  -- `learn_empty`
  pub learn_empty : Option Mode → VisionTrigger Scene Frame → VisionTrigger Scene Frame
  unfolding mode
  learn_empty provided t = elim t.last_fired [
    | none ↦ t
    | some ref ↦
        let t1 = record t { empties = last_of max_empties (t.empties ++ ref ∷ []) } in
        let (m, t2) = mode s provided t1 in
        if is_arrival m then record t2 { baseline = some ref } else t2
  ]
