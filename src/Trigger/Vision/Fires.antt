-- ===== src/Trigger/Vision/Fires.antt =====
-- When the vision trigger fires: once for each motion, in a still scene, and not in an empty one.
use pipe_vision.Prelude.{
  ℕ, ◌-◌, ◌≤◌, ◌≡◌, ◌⊎◌, refl, Bool, true, false, Option, none, some, List, [], ◌∷◌, arith, All,
  inl, inr,
}
use pipe_vision.Trigger.Vision.{
  Mode, arrival, departure, Measures, Settings, Held, VisionTrigger, Input, chosen_mode, mode,
  stable_arrival, depart, stable_departure, still, compared, after_mode, step, run, settle_of,
  by_mode,
}

pub Mode-cases : (m : Mode) → (m ≡ arrival) ⊎ (m ≡ departure)
Mode-cases arrival = inl refl
Mode-cases departure = inr refl

module _ {Scene Frame : Type 0} (measures : Measures Scene) (s : Settings) where
  open measures use {frac}

  -- What a fire needs: the last preview, and a stillness that has lasted.
  pub record IsStill (m : Mode) (input : Input Scene Frame) (t : VisionTrigger Scene Frame)
      : Type 0 where
    pub before : Scene
    pub since : ℕ
    pub seen : t.prev ≡ some before
    pub unmoved : frac input.scene before ≤ s.motion_thr
    pub timed : t.still_since ≡ some since
    pub lasted : settle_of s m ≤ input.now - since
    pub after_motion : t.moved ≡ true

  still-fires :
      (m : Mode) (input : Input Scene Frame) (q : Option ℕ) (t : VisionTrigger Scene Frame)
      → (still measures s m input q t).0 ≡ true
      → (since : ℕ) × (q ≡ some since) × (settle_of s m ≤ input.now - since) × (t.moved ≡ true)
  unfolding still
  still-fires m input none t h = cc
  still-fires m input (some since) t h = (since, refl, ground arith, ground arith)

  compared-fires :
      (m : Mode) (input : Input Scene Frame) (before : Scene) (t : VisionTrigger Scene Frame)
      → (compared measures s m input before t).0 ≡ true
      → (frac input.scene before ≤ s.motion_thr)
        × ((still measures s m input t.still_since t).0 ≡ true)
  unfolding compared
  compared-fires m input before t h = ground arith

  after_mode-fires :
      (m : Mode) (input : Input Scene Frame) (p : Option Scene) (t : VisionTrigger Scene Frame)
      → t.prev ≡ p
      → (after_mode measures s m input t).0 ≡ true
      → IsStill m input t
  unfolding after_mode
  after_mode-fires m input none t e h = absurd (not_fired (rw (e, after_mode) at h))
    where
      not_fired : Path Bool false true → ⊥
      not_fired f = cc
  after_mode-fires m input (some before) t e h =
      let (unmoved, quiet) =
        compared-fires m input before (record t { prev = some input.scene })
          (rw (e, after_mode) at h) in
      let (since, timed, lasted, moved) =
        still-fires m input t.still_since (record t { prev = some input.scene }) quiet in
      record {
        before = before;
        since = since;
        seen = e;
        unmoved = unmoved;
        timed = timed;
        lasted = lasted;
        after_motion = moved;
      }

  -- A picture is taken only of a scene that stands still: there was a preview before, from which
  -- this one differs by no more than the threshold of motion, the scene has been still for the time
  -- that the mode asks for, and something had moved since the last scene that was judged.
  pub fires-IsStill :
      (input : Input Scene Frame) (t : VisionTrigger Scene Frame)
      → (step measures s input t).0 ≡ true
      → let (m, t1) = mode s input.mode t in IsStill m input t1
  unfolding step
  fires-IsStill input t h =
      let (m, t1) = mode s input.mode t in after_mode-fires m input t1.prev t1 refl h

-- A trigger that has judged the last scene and seen no motion since.
pub record Rested {Scene Frame : Type 0} (m : Mode) (p : Scene) (t : VisionTrigger Scene Frame)
    : Type 0 where
  pub judged : t.moved ≡ false
  pub last : t.prev ≡ some p
  pub in_mode : t.mode_seen ≡ some m

module _ {Scene Frame : Type 0} (measures : Measures Scene) (s : Settings) where
  open measures use {frac}

  depart-keeps :
      (input : Input Scene Frame) (held : Option (Held Scene Frame)) (cur : Scene)
      (t : VisionTrigger Scene Frame)
      → let t' = (depart measures s input held cur t).1 in
        (t'.moved ≡ t.moved) × (t'.prev ≡ t.prev) × (t'.mode_seen ≡ t.mode_seen)
  unfolding depart
  depart-keeps input none cur t = ground arith
  depart-keeps input (some h) cur t = ground arith

  by_mode-keeps :
      (m : Mode) (input : Input Scene Frame) (cur : Scene) (peak : ℕ)
      (t : VisionTrigger Scene Frame)
      → let t' = (by_mode measures s m input cur peak t).1 in
        (t'.moved ≡ t.moved) × (t'.prev ≡ t.prev) × (t'.mode_seen ≡ t.mode_seen)
  unfolding stable_arrival stable_departure
  by_mode-keeps arrival input cur peak t = ground arith
  by_mode-keeps departure input cur peak t = depart-keeps input t.held cur t

  still-Rested :
      (m n : Mode) (p : Scene) (input : Input Scene Frame) (q : Option ℕ)
      (t : VisionTrigger Scene Frame)
      → t.prev ≡ some p
      → t.mode_seen ≡ some n
      → (((still measures s m input q t).0 ≡ true) ⊎ (t.moved ≡ false))
      → Rested n p (still measures s m input q t).1
        × ((t.moved ≡ false) → (still measures s m input q t).0 ≡ false)
  unfolding still
  still-Rested m n p input none t e f h = ground arith
  still-Rested m n p input (some since) t e f h = ground (
    arith,
    by_mode-keeps m input input.scene t.episode_peak (record t { moved = false; episode_peak = 0 }),
  )

  compared-Rested :
      (m n : Mode) (input : Input Scene Frame) (before : Scene) (t : VisionTrigger Scene Frame)
      → t.prev ≡ some input.scene
      → t.mode_seen ≡ some n
      → (((compared measures s m input before t).0 ≡ true)
          ⊎ ((t.moved ≡ false) × (frac input.scene before ≤ s.motion_thr)))
      → Rested n input.scene (compared measures s m input before t).1
        × ((t.moved ≡ false) → (compared measures s m input before t).0 ≡ false)
  unfolding compared
  compared-Rested m n input before t e f h =
      ground (arith, still-Rested m n input.scene input t.still_since t e f)

  after_mode-Rested :
      (m n : Mode) (input : Input Scene Frame) (p : Option Scene) (t : VisionTrigger Scene Frame)
      → t.prev ≡ p
      → t.mode_seen ≡ some n
      → (after_mode measures s m input t).0 ≡ true
      → Rested n input.scene (after_mode measures s m input t).1
  unfolding after_mode
  after_mode-Rested m n input none t e f h = absurd (not_fired (rw (e, after_mode) at h))
    where
      not_fired : Path Bool false true → ⊥
      not_fired q = cc
  after_mode-Rested m n input (some before) t e f h =
      rw (e, after_mode)
        (compared-Rested m n input before (record t { prev = some input.scene }) refl f
          (inl (rw (e, after_mode) at h))).0

  after_mode-quiet :
      (m n : Mode) (p : Scene) (input : Input Scene Frame) (t : VisionTrigger Scene Frame)
      → Rested n p t
      → frac input.scene p ≤ s.motion_thr
      → ((after_mode measures s m input t).0 ≡ false)
        × Rested n input.scene (after_mode measures s m input t).1
  unfolding after_mode
  after_mode-quiet m n p input t r h =
      let (rested, silent) =
        compared-Rested m n input p (record t { prev = some input.scene }) refl r.in_mode
          (inr (r.judged, h)) in
      rw (r.last, after_mode) (silent r.judged, rested)

  mode-same :
      (provided : Option Mode) (t : VisionTrigger Scene Frame)
      → t.mode_seen ≡ some (chosen_mode s provided)
      → mode s provided t ≡ (chosen_mode s provided, t)
  unfolding mode
  mode-same provided t h = elim (Mode-cases (chosen_mode s provided)) [
    | inl e ↦ rw (h, e) refl
    | inr e ↦ rw (h, e) refl
  ]

  -- Previews that do not move, starting at the scene p, with the mode unchanged.
  abbrev pub Quiet : Mode → Scene → List (Input Scene Frame) → Type 0
  Quiet m p [] = Unit
  Quiet m p (i ∷ is) =
      (frac i.scene p ≤ s.motion_thr) × (chosen_mode s i.mode ≡ m) × Quiet m i.scene is

  run-Quiet :
      (m : Mode) (p : Scene) (is : List (Input Scene Frame)) (t : VisionTrigger Scene Frame)
      → Rested m p t
      → Quiet m p is
      → All (λ shot. shot ≡ false) (run measures s is t).0
  unfolding run step
  run-Quiet m p [] t r q = tt
  run-Quiet m p (i ∷ is) t r q =
      let same = mode-same i.mode t (rw q.1 r.in_mode) in
      let (silent, r') = after_mode-quiet (chosen_mode s i.mode) m p i t r q.0 in
      rw (same, run)
        (silent, run-Quiet m i.scene is (after_mode measures s (chosen_mode s i.mode) i t).1 r' q.2)

  pub mode-in_mode :
      (provided : Option Mode) (t : VisionTrigger Scene Frame)
      → let (m, t') = mode s provided t in
        (m ≡ chosen_mode s provided) × (t'.mode_seen ≡ some (chosen_mode s provided))
  unfolding mode
  mode-in_mode provided t = elim (Mode-cases (chosen_mode s provided)) [
    | inl e ↦ rw e (ground arith)
    | inr e ↦ rw e (ground arith)
  ]

  -- After a picture has been taken, no other is taken as long as the previews do not move and the
  -- mode stays: a product that lies still is taken once.
  pub no_second_picture :
      (input : Input Scene Frame) (is : List (Input Scene Frame)) (t : VisionTrigger Scene Frame)
      → (step measures s input t).0 ≡ true
      → Quiet (chosen_mode s input.mode) input.scene is
      → All (λ shot. shot ≡ false) (run measures s is (step measures s input t).1).0
  unfolding step
  no_second_picture input is t h q =
      let (m, t1) = mode s input.mode t in
      let n = chosen_mode s input.mode in
      run-Quiet n input.scene is (after_mode measures s m input t1).1
        (after_mode-Rested m n input t1.prev t1 refl (mode-in_mode input.mode t).1 h) q
