-- ===== src/Verdict/Mode.antt =====
-- What a verdict says (services/vision/verdict/combine.py).
use mathlib.Core.Path.{subst}
use pipe_vision.Prelude.{
  ℕ, ◌≡◌, ◌↔◌, ◌∙◌, refl, sym, ap, Bool, true, false, ◌&&◌, ◌||◌, not, Option, none, some, List, [],
  ◌∷◌, ◌++◌, inl, inr, arith, leb, ◌==◌, ==_iff, length, Bool-cases, if◌then◌else◌,
}
use pipe_vision.Prelude.Text.{Text}
use pipe_vision.Verdict.{
  DefectCode, code_number, len, oil, dis, scr, count, multi, ng, code_eq, has_code, LengthResult,
  SurfaceResult, Limits, codes_for_stage, is_ng, see_length, see_surface, add_surface, found_codes,
  with_multi, verdict_of, combine_verdict,
}

abbrev code_of : ℕ → DefectCode
code_of n =
    if n == 0
    then len
    else if n == 1
    then oil
    else if n == 2
    then dis
    else if n == 3
    then scr
    else if n == 4
    then count
    else multi

code_of-number : (c : DefectCode) → code_of (code_number c) ≡ c
code_of-number len = refl
code_of-number oil = refl
code_of-number dis = refl
code_of-number scr = refl
code_of-number count = refl
code_of-number multi = refl

code_eq→eq : (a b : DefectCode) → code_eq a b ≡ true → a ≡ b
unfolding code_eq
code_eq→eq a b h =
    sym (code_of-number a)
    ∙ ap code_of ((==_iff (code_number a) (code_number b)).0 h)
    ∙ code_of-number b

has_code-append :
    (c d : DefectCode) (ds : List DefectCode)
    → has_code c (ds ++ d ∷ []) ≡ (has_code c ds || code_eq d c)
unfolding has_code
has_code-append c d [] = ground arith
has_code-append c d (e ∷ es) = ground (arith, has_code-append c d es)

added :
    (c d : DefectCode) (allowed found : List DefectCode) (later : Bool)
    → (has_code d allowed && not (has_code d found)) ≡ true
    → ((has_code c found || code_eq d c) || later && has_code c allowed)
      ≡ (has_code c found || (code_eq d c || later) && has_code c allowed)
added c d allowed found later h = elim (Bool-cases (code_eq d c)) [
  | inl same ↦ rw (same) (rw (← code_eq→eq d c same) (ground arith))
  | inr other ↦ ground arith
]

passed :
    (c d : DefectCode) (allowed found : List DefectCode) (later : Bool)
    → (has_code d allowed && not (has_code d found)) ≡ false
    → (has_code c found || later && has_code c allowed)
      ≡ (has_code c found || (code_eq d c || later) && has_code c allowed)
passed c d allowed found later h = elim (Bool-cases (code_eq d c)) [
  | inl same ↦ rw (same) (rw (← code_eq→eq d c same) (ground arith))
  | inr other ↦ ground arith
]

has_code-add_surface :
    (c : DefectCode) (allowed cs found : List DefectCode)
    → has_code c (add_surface allowed cs found)
      ≡ (has_code c found || has_code c cs && has_code c allowed)
unfolding add_surface has_code
has_code-add_surface c allowed [] found = ground arith
has_code-add_surface c allowed (d ∷ ds) found =
    elim (Bool-cases (has_code d allowed && not (has_code d found))) [
      | inl e ↦
          rw
            (
              e,
              add_surface,
              has_code-add_surface c allowed ds (found ++ d ∷ []),
              has_code-append c d found,
            )
            (added c d allowed found (has_code c ds) e)
      | inr e ↦
          rw (e, add_surface, has_code-add_surface c allowed ds found)
            (passed c d allowed found (has_code c ds) e)
    ]

-- The products that the mode finds a defect of this kind on.
abbrev pub shows : Option Text → LengthResult → SurfaceResult → DefectCode → Bool
shows stage length surface c =
    see_length stage && is_ng length.length_verdict && code_eq len c
    || see_surface stage && has_code c surface.defect_codes && has_code c (codes_for_stage stage)

first_codes :
    (t : Bool) (c : DefectCode) → has_code c (if t then len ∷ [] else []) ≡ (t && code_eq len c)
unfolding has_code
first_codes true c = ground arith
first_codes false c = refl

has_code-found_codes :
    (stage : Option Text) (length : LengthResult) (surface : SurfaceResult) (c : DefectCode)
    → has_code c (found_codes stage length surface) ≡ shows stage length surface c
unfolding found_codes
has_code-found_codes stage length surface c =
    let t = see_length stage && is_ng length.length_verdict in
    elim (Bool-cases (see_surface stage)) [
      | inl e ↦
          rw
            (
              e,
              found_codes,
              has_code-add_surface c (codes_for_stage stage) surface.defect_codes
                  (if t then len ∷ [] else []),
              first_codes t c,
            )
            (ground arith)
      | inr e ↦ rw (e, found_codes, first_codes t c) (ground arith)
    ]

has_code-with_multi :
    (c : DefectCode) (found : List DefectCode)
    → code_eq multi c ≡ false
    → has_code c (with_multi found) ≡ has_code c found
unfolding with_multi
has_code-with_multi c found h =
    elim (Bool-cases (leb 2 (length found) && not (has_code multi found))) [
      | inl e ↦ rw (e, with_multi, has_code-append c multi found) (ground arith)
      | inr e ↦ rw (e, with_multi) refl
    ]

code_eq_refl : (c : DefectCode) → code_eq c c ≡ true
unfolding code_eq
code_eq_refl c = ground arith

has_code-multi : (stage : Option Text) → has_code multi (codes_for_stage stage) ≡ false
unfolding codes_for_stage has_code code_eq
has_code-multi none = refl
has_code-multi (some s) = ground arith

-- A defect of one kind.
abbrev pub ShowsOne : Option Text → LengthResult → SurfaceResult → Type 0
ShowsOne stage length surface =
    (c : DefectCode) × (code_eq multi c ≡ false) × (shows stage length surface c ≡ true)

multi_hidden :
    (stage : Option Text) (length : LengthResult) (surface : SurfaceResult) (d : DefectCode)
    → multi ≡ d
    → ¬ (shows stage length surface d ≡ true)
unfolding code_eq
multi_hidden stage length surface d p h = ground (
  arith,
  has_code-multi stage,
  subst (λ (x : DefectCode). shows stage length surface x ≡ true) (sym p) h,
)

some_code :
    (stage : Option Text) (length : LengthResult) (surface : SurfaceResult) (d : DefectCode)
    → has_code d (found_codes stage length surface) ≡ true
    → ShowsOne stage length surface
some_code stage length surface d h =
    let shown = sym (has_code-found_codes stage length surface d) ∙ h in
    elim (Bool-cases (code_eq multi d)) [
      | inr other ↦ (d, other, shown)
      | inl same ↦ absurd (multi_hidden stage length surface d (code_eq→eq multi d same) shown)
    ]

verdict_of-ng :
    (found : List DefectCode)
    → (verdict_of found ≡ ng)
    → (d : DefectCode) × (has_code d found ≡ true)
unfolding has_code
verdict_of-ng [] h = cc
verdict_of-ng (d ∷ ds) h = (d, ground (arith, code_eq_refl d))

has_code-verdict_of :
    (d : DefectCode) (found : List DefectCode) → has_code d found ≡ true → verdict_of found ≡ ng
unfolding has_code
has_code-verdict_of d [] h = cc
has_code-verdict_of d (e ∷ es) h = refl

with_multi-verdict_of : (found : List DefectCode) → verdict_of (with_multi found) ≡ verdict_of found
unfolding with_multi
with_multi-verdict_of [] = refl
with_multi-verdict_of (d ∷ ds) =
    elim (Bool-cases (leb 2 (length (d ∷ ds)) && not (has_code multi (d ∷ ds)))) [
      | inl e ↦ rw (e, with_multi) refl
      | inr e ↦ rw (e, with_multi) refl
    ]

module _ (confidence : LengthResult → SurfaceResult → Limits → Bool → Bool → ℕ) where
  -- The codes of a verdict are the defects that its mode shows.
  pub combine_verdict-codes :
      (stage : Option Text) (ms : ℕ) (length : LengthResult) (surface : SurfaceResult)
      (limits : Limits) (c : DefectCode)
      → code_eq multi c ≡ false
      → has_code c (combine_verdict confidence stage ms length surface limits).defect_codes
        ≡ shows stage length surface c
  unfolding combine_verdict
  combine_verdict-codes stage ms length surface limits c h =
      has_code-with_multi c (found_codes stage length surface) h
      ∙ has_code-found_codes stage length surface c

  -- A product is NG just when its mode shows a defect.
  pub ng_iff_ShowsOne :
      (stage : Option Text) (ms : ℕ) (length : LengthResult) (surface : SurfaceResult)
      (limits : Limits)
      → ((combine_verdict confidence stage ms length surface limits).final_verdict ≡ ng)
        ↔ ShowsOne stage length surface
  unfolding combine_verdict
  ng_iff_ShowsOne stage ms length surface limits = (
    (λ h.
        let found =
          verdict_of-ng (found_codes stage length surface)
            (sym (with_multi-verdict_of (found_codes stage length surface)) ∙ h) in
        some_code stage length surface found.0 found.1),
    (λ (c, other, shown).
        with_multi-verdict_of (found_codes stage length surface)
        ∙ has_code-verdict_of c (found_codes stage length surface)
            (has_code-found_codes stage length surface c ∙ shown)),
  )
