-- ===== src/Verdict.antt =====
-- The verdict of a product from its length and its surface (services/vision/verdict/combine.py), for the
-- mode that the station is in. Lengths, tolerances, scores and thresholds are integers in one unit each,
-- a score in ten-thousandths; where the code compares floats, the comparison here is of the exact
-- numbers, at the default `review_rel_band` of 15 %. The confidence is a parameter.
pub mod Mode
use pipe_vision.Prelude.{
  ℕ, suc, ◌+◌, ◌-◌, ◌*◌, Bool, true, false, ◌&&◌, ◌||◌, not, Option, none, some, List, [], ◌∷◌,
  ◌++◌, leb, ltb, ◌==◌, max, length, if◌then◌else◌,
}
use pipe_vision.Prelude.Int.{ℤ, pos, negsuc}
use pipe_vision.Prelude.Text.{Text, codes, text_eq}

pub data DefectCode : Type 0 where
  len oil dis scr count multi : DefectCode

pub data Verdict : Type 0 where
  ok ng : Verdict

abbrev code_number : DefectCode → ℕ
code_number len = 0
code_number oil = 1
code_number dis = 2
code_number scr = 3
code_number count = 4
code_number multi = 5

unfoldable pub code_eq : DefectCode → DefectCode → Bool
code_eq a b = code_number a == code_number b

-- `code in codes`
unfoldable pub has_code : DefectCode → List DefectCode → Bool
unfolding code_eq
has_code c [] = false
has_code c (d ∷ ds) = code_eq d c || has_code c ds

pub record LengthResult : Type 0 where
  pub ref_length_mm : ℤ
  pub meas_length_mm : Option ℤ
  pub deviation_mm : Option ℤ
  pub length_verdict : Verdict
  pub edge_detected : Bool
  pub meas_temp_c : Option ℤ

pub record SurfaceResult : Type 0 where
  pub oil_score : Option ℕ
  pub discolor_score : Option ℕ
  pub scratch_score : Option ℕ
  pub defect_codes : List DefectCode

-- What the verdict needs of the recipe.
pub record Limits : Type 0 where
  pub tol_plus_mm : ℕ
  pub tol_minus_mm : ℕ
  pub oil_threshold : Option ℕ
  pub discolor_threshold : Option ℕ
  pub scratch_threshold : Option ℕ

pub record VerdictResult : Type 0 where
  pub final_verdict : Verdict
  pub defect_codes : List DefectCode
  pub confidence : ℕ
  pub review_flag : Bool
  pub length : LengthResult
  pub surface : SurfaceResult
  pub proc_time_ms : ℕ

abbrev all_codes : List DefectCode
all_codes = len ∷ oil ∷ dis ∷ scr ∷ []

-- `STAGE_CODES.get`
abbrev stage_codes : Text → List DefectCode
stage_codes key =
    if text_eq key (codes "CUT_LENGTH")
    then len ∷ []
    else if text_eq key (codes "POST_WASH_SURFACE")
    then oil ∷ dis ∷ scr ∷ []
    else if text_eq key (codes "CRATE_COUNT")
    then count ∷ []
    else all_codes

unfoldable pub codes_for_stage : Option Text → List DefectCode
codes_for_stage none = all_codes
codes_for_stage (some stage) = stage_codes stage

abbrev pub is_ng : Verdict → Bool
is_ng ok = false
is_ng ng = true

unfoldable pub see_length : Option Text → Bool
unfolding has_code codes_for_stage
see_length stage = has_code len (codes_for_stage stage)

unfoldable pub see_surface : Option Text → Bool
unfolding has_code codes_for_stage
see_surface stage =
    let allowed = codes_for_stage stage in
    has_code oil allowed || has_code dis allowed || has_code scr allowed

-- The loop over the codes of the surface.
unfoldable pub add_surface : List DefectCode → List DefectCode → List DefectCode → List DefectCode
unfolding has_code
add_surface allowed [] found = found
add_surface allowed (c ∷ cs) found =
    add_surface allowed cs
      (if has_code c allowed && not (has_code c found) then found ++ c ∷ [] else found)

unfoldable pub found_codes : Option Text → LengthResult → SurfaceResult → List DefectCode
unfolding add_surface codes_for_stage see_length see_surface
found_codes stage length surface =
    let first = if see_length stage && is_ng length.length_verdict then len ∷ [] else [] in
    if see_surface stage
    then add_surface (codes_for_stage stage) surface.defect_codes first
    else first

unfoldable pub with_multi : List DefectCode → List DefectCode
unfolding has_code
with_multi found =
    if leb 2 (length found) && not (has_code multi found) then found ++ multi ∷ [] else found

abbrev verdict_of : List DefectCode → Verdict
verdict_of [] = ok
verdict_of (_ ∷ _) = ng

abbrev distance : ℕ → ℕ → ℕ
distance a b = (a - b) + (b - a)

abbrev threshold : Option ℕ → ℕ
threshold none = 5000
threshold (some t) = t

-- `_near_threshold`: within the band of 15 % of the threshold, or of 0.03.
near_threshold : Option ℕ → Option ℕ → Bool
near_threshold none th = false
near_threshold (some score) th =
    leb (distance score (threshold th) * 100) (max (threshold th * 15) 30000)

near_tolerance : ℕ → ℕ → Bool
near_tolerance dev tol = ltb 0 tol && leb (distance dev tol * 100) (tol * 15)

abbrev deviation_near : Limits → ℤ → Bool
deviation_near limits (pos n) = near_tolerance n limits.tol_plus_mm
deviation_near limits (negsuc n) = near_tolerance (suc n) limits.tol_minus_mm

unfoldable pub review_length : Limits → LengthResult → Bool
unfolding near_tolerance
review_length limits length = elim length.deviation_mm [
  | none ↦ true
  | some dev ↦ if length.edge_detected then deviation_near limits dev else true
]

review_surface : Limits → SurfaceResult → Bool
unfolding near_threshold
review_surface limits surface =
    near_threshold surface.oil_score limits.oil_threshold
    || near_threshold surface.discolor_score limits.discolor_threshold
    || near_threshold surface.scratch_score limits.scratch_threshold

-- The confidence below which a person looks again, 0.65.
abbrev sure : ℕ
sure = 6500

module _ (confidence : LengthResult → SurfaceResult → Limits → Bool → Bool → ℕ) where
  unfoldable pub combine_verdict :
      Option Text → ℕ → LengthResult → SurfaceResult → Limits → VerdictResult
  unfolding found_codes with_multi review_length review_surface see_length see_surface
  combine_verdict stage proc_time_ms length surface limits =
      let found = with_multi (found_codes stage length surface) in
      let sureness = confidence length surface limits (see_length stage) (see_surface stage) in
      record {
        final_verdict = verdict_of found;
        defect_codes = found;
        confidence = sureness;
        review_flag =
            see_length stage && review_length limits length
            || see_surface stage && review_surface limits surface
            || ltb sureness sure;
        length = length;
        surface = surface;
        proc_time_ms = proc_time_ms;
      }
