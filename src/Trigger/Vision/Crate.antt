-- ===== src/Trigger/Vision/Crate.antt =====
-- The empty scenes that the trigger has learnt, and the picture of a crate that has left.
use pipe_vision.Prelude.{
  ℕ, zero, suc, ◌-◌, ◌≤◌, ◌≡◌, refl, ◌∙◌, true, false, not, ◌||◌, Option, none, some, List, [], ◌∷◌,
  ◌++◌, arith, le→leb, ltb, length, Bool-cases, inl, inr, In, In-append_right, drop, length-append,
}
use pipe_vision.Trigger.Vision.Fires.{mode-in_mode, Mode-cases}
use pipe_vision.Trigger.Vision.{
  Mode, arrival, departure, Measures, Settings, Held, VisionTrigger, Input, max_empties,
  chosen_mode, mode, matches_empty, last_of, stable_arrival, depart, stable_departure, still,
  compared, after_mode, step, take_frame, learn_empty, is_arrival, by_mode,
}

In-drop : {A : Type 0} (n : ℕ) (a : A) (xs : List A) → n ≤ length xs → In a (drop n (xs ++ a ∷ []))
In-drop zero a xs h = In-append_right a xs (a ∷ []) (inl refl)
In-drop (suc n) a [] h = elim h [ ]
In-drop (suc n) a (x ∷ xs) h = In-drop n a xs (omega arith)

In-last_of : {A : Type 0} (n : ℕ) (a : A) (xs : List A) → In a (last_of (suc n) (xs ++ a ∷ []))
In-last_of n a xs =
    In-drop (length (xs ++ a ∷ []) - suc n) a xs (omega (arith, length-append xs (a ∷ [])))

module _ {Scene : Type 0} (measures : Measures Scene) (s : Settings) where
  open measures use {frac}

  matches_empty-In :
      (cur e : Scene) (es : List Scene)
      → In e es
      → frac cur e ≤ s.change_thr
      → matches_empty measures s cur es ≡ true
  unfolding matches_empty
  matches_empty-In cur e [] i h = absurd i
  matches_empty-In cur e (x ∷ es) (inl p) h = ground (arith, le→leb (frac cur e) s.change_thr)
  matches_empty-In cur e (x ∷ es) (inr i) h = ground (arith, matches_empty-In cur e es)

module _ {Scene Frame : Type 0} (measures : Measures Scene) (s : Settings) where
  open measures use {frac}

  -- A departure fires only where a picture is held, and hands that picture over.
  depart-fires :
      (input : Input Scene Frame) (held : Option (Held Scene Frame)) (cur : Scene)
      (t : VisionTrigger Scene Frame)
      → (depart measures s input held cur t).0 ≡ true
      → (h : Held Scene Frame) × (held ≡ some h)
        × ((depart measures s input held cur t).1.pending ≡ some h)
  unfolding depart
  depart-fires input none cur t e = absurd (ground arith)
  depart-fires input (some h) cur t e = (h, refl, ground arith)

  still-departure :
      (input : Input Scene Frame) (q : Option ℕ) (t : VisionTrigger Scene Frame)
      → (still measures s departure input q t).0 ≡ true
      → (h : Held Scene Frame) × (t.held ≡ some h)
        × ((still measures s departure input q t).1.pending ≡ some h)
  unfolding still stable_departure
  still-departure input none t e = absurd (ground arith)
  still-departure input (some since) t e =
      elim (Bool-cases (ltb (input.now - since) s.depart_settle || not t.moved)) [
        | inl early ↦ cc (rw (early, still) at e)
        | inr now ↦
            let t1 = record t { moved = false; episode_peak = 0 } in
            let (h, p, q) = depart-fires input t.held input.scene t1 (rw (now, still) at e) in
            (h, p, rw (now, still) q)
      ]

  compared-departure :
      (input : Input Scene Frame) (before : Scene) (t : VisionTrigger Scene Frame)
      → (compared measures s departure input before t).0 ≡ true
      → compared measures s departure input before t
        ≡ still measures s departure input t.still_since t
  unfolding compared
  compared-departure input before t e = ground arith

  after_mode-departure :
      (input : Input Scene Frame) (p : Option Scene) (t : VisionTrigger Scene Frame)
      → t.prev ≡ p
      → (after_mode measures s departure input t).0 ≡ true
      → (h : Held Scene Frame) × (t.held ≡ some h)
        × ((after_mode measures s departure input t).1.pending ≡ some h)
  unfolding after_mode
  after_mode-departure input none t e f = cc (rw (e, after_mode) at f)
  after_mode-departure input (some before) t e f =
      let t1 = record t { prev = some input.scene } in
      let f' = rw (e, after_mode) at f in
      let same = compared-departure input before t1 f' in
      rw (e, after_mode) (rw same (still-departure input t.still_since t1 (rw same at f')))

  after_mode-hands_over :
      (m : Mode) (input : Input Scene Frame) (t : VisionTrigger Scene Frame)
      → m ≡ departure
      → (after_mode measures s m input t).0 ≡ true
      → (h : Held Scene Frame) × (t.held ≡ some h)
        × ((after_mode measures s m input t).1.pending ≡ some h)
  after_mode-hands_over arrival input t e f = cc
  after_mode-hands_over departure input t e f = after_mode-departure input t.prev t refl f

  take_frame-some :
      (t : VisionTrigger Scene Frame) (h : Held Scene Frame)
      → t.pending ≡ some h
      → (take_frame s t).0 ≡ some (h.frame, h.at)
  unfolding take_frame
  take_frame-some t h e = rw e refl

  -- For a crate, a picture is handed over only when one is held, and it is the one held before this
  -- step: a picture from before the crate left, not of the scene after it.
  pub crate_picture :
      (input : Input Scene Frame) (t : VisionTrigger Scene Frame)
      → chosen_mode s input.mode ≡ departure
      → (step measures s input t).0 ≡ true
      → (h : Held Scene Frame) × ((mode s input.mode t).1.held ≡ some h)
        × ((take_frame s (step measures s input t).1).0 ≡ some (h.frame, h.at))
  unfolding step
  crate_picture input t d f =
      let (m, t1) = mode s input.mode t in
      let (h, held, handed) =
        after_mode-hands_over m input t1 ((mode-in_mode measures s input.mode t).0 ∙ d) f in
      (h, held, take_frame-some (after_mode measures s m input t1).1 h handed)

  by_mode-empty :
      (input : Input Scene Frame) (peak : ℕ) (t : VisionTrigger Scene Frame)
      → matches_empty measures s input.scene t.empties ≡ true
      → (by_mode measures s arrival input input.scene peak t).0 ≡ false
  unfolding stable_arrival
  by_mode-empty input peak t h = ground arith

  still-empty :
      (input : Input Scene Frame) (q : Option ℕ) (t : VisionTrigger Scene Frame)
      → matches_empty measures s input.scene t.empties ≡ true
      → (still measures s arrival input q t).0 ≡ false
  unfolding still
  still-empty input none t h = refl
  still-empty input (some since) t h =
      ground
        (arith, by_mode-empty input t.episode_peak (record t { moved = false; episode_peak = 0 }))

  compared-empty :
      (input : Input Scene Frame) (before : Scene) (t : VisionTrigger Scene Frame)
      → matches_empty measures s input.scene t.empties ≡ true
      → (compared measures s arrival input before t).0 ≡ false
  unfolding compared
  compared-empty input before t h = ground (arith, still-empty input t.still_since t)

  after_mode-empty :
      (m : Mode) (input : Input Scene Frame) (p : Option Scene) (t : VisionTrigger Scene Frame)
      → m ≡ arrival
      → t.prev ≡ p
      → matches_empty measures s input.scene t.empties ≡ true
      → (after_mode measures s m input t).0 ≡ false
  unfolding after_mode
  after_mode-empty departure input p t a e h = cc
  after_mode-empty arrival input none t a e h = rw (e, after_mode) refl
  after_mode-empty arrival input (some before) t a e h =
      rw (e, after_mode) (compared-empty input before (record t { prev = some input.scene }) h)

  mode-empties :
      (provided : Option Mode) (t : VisionTrigger Scene Frame)
      → (mode s provided t).1.empties ≡ t.empties
  unfolding mode
  mode-empties provided t = elim (Mode-cases (chosen_mode s provided)) [
    | inl e ↦ rw e (ground arith)
    | inr e ↦ rw e (ground arith)
  ]

  learn_empty-In :
      (provided : Option Mode) (t : VisionTrigger Scene Frame) (ref : Scene)
      → t.last_fired ≡ some ref
      → In ref (learn_empty s provided t).empties
  unfolding learn_empty
  learn_empty-In provided t ref e =
      let learnt = last_of max_empties (t.empties ++ ref ∷ []) in
      let t1 = record t { empties = learnt } in
      let kept = mode-empties provided t1 in
      let there = In-last_of 4 ref t.empties in
      elim (Bool-cases (is_arrival (mode s provided t1).0)) [
        | inl a ↦ rw (e, learn_empty) (rw a (rw kept there))
        | inr d ↦ rw (e, learn_empty) (rw d (rw kept there))
      ]

  -- Once the worker has found no product in the last picture, no picture is taken of a scene that
  -- differs from that one by no more than the threshold of change, in the mode for arrivals.
  pub learned_empty_is_silent :
      (provided : Option Mode) (input : Input Scene Frame) (t : VisionTrigger Scene Frame)
      (ref : Scene)
      → t.last_fired ≡ some ref
      → chosen_mode s input.mode ≡ arrival
      → frac input.scene ref ≤ s.change_thr
      → (step measures s input (learn_empty s provided t)).0 ≡ false
  unfolding step
  learned_empty_is_silent provided input t ref e a h =
      let t1 = learn_empty s provided t in
      let (m, t2) = mode s input.mode t1 in
      after_mode-empty m input t2.prev t2 ((mode-in_mode measures s input.mode t1).0 ∙ a) refl (
        matches_empty-In measures s input.scene ref t2.empties
          (rw (mode-empties input.mode t1) (learn_empty-In provided t ref e)) h)
