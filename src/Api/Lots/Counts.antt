-- ===== src/Api/Lots/Counts.antt =====
-- No row of a lot is lost or counted twice when the lot is summed up (`lot_summary` of
-- services/api/routers/inspection.py).
use pipe_vision.Prelude.{
  ℕ, suc, ◌+◌, Bool, false, ◌||◌, Option, List, [], ◌∷◌, ◌++◌, ◌≡◌, refl, ap, ◌∙◌, arith, ltb, ◌==◌,
  length, if◌then◌else◌,
}
use pipe_vision.Prelude.Text.{Text, codes, text_eq, text_eq_iff}
use pipe_vision.Api.Rows.{Inspection}
use pipe_vision.Api.Lots.{
  Group, LotStage, required_of, stage_of, rows_of_lot, add_row, group_rows, has_stage, insert_group,
  sort_groups, ng_rows, lot_stage, lot_stages, any_ng, missing_of, is_none, lot_summary,
}

unfoldable pub sum_totals : List LotStage → ℕ
sum_totals [] = 0
sum_totals (s ∷ ss) = s.total + sum_totals ss

unfoldable pub sum_ng : List LotStage → ℕ
sum_ng [] = 0
sum_ng (s ∷ ss) = s.ng + sum_ng ss

-- The required stages that no row has, from the rows.
unfoldable pub row_with : Text → List Inspection → Bool
row_with k [] = false
row_with k (r ∷ rs) = text_eq (stage_of r) k || row_with k rs

unfoldable pub stages_without_row : List Inspection → List Text → List Text
unfolding row_with
stages_without_row rs [] = []
stages_without_row rs (s ∷ ss) =
    let rest = stages_without_row rs ss in if row_with s rs then rest else s ∷ rest

-- The rows and the NG rows of some groups.
group_total : List Group → ℕ
group_total [] = 0
group_total (g ∷ gs) = length g.rows + group_total gs

group_ng : List Group → ℕ
group_ng [] = 0
group_ng (g ∷ gs) = length (ng_rows g.rows) + group_ng gs

ng_rows-append :
    (r : Inspection) (rs : List Inspection)
    → length (ng_rows (rs ++ r ∷ [])) ≡ length (ng_rows (r ∷ [])) + length (ng_rows rs)
unfolding ng_rows
ng_rows-append r [] = ground arith
ng_rows-append r (x ∷ rs) = ground (arith, ng_rows-append r rs)

length-last : (r : Inspection) (rs : List Inspection) → length (rs ++ r ∷ []) ≡ suc (length rs)
length-last r [] = refl
length-last r (x ∷ rs) = ap suc (length-last r rs)

add_row-group_total :
    (k : Text) (r : Inspection) (gs : List Group)
    → group_total (add_row k r gs) ≡ suc (group_total gs)
unfolding add_row group_total
add_row-group_total k r [] = refl
add_row-group_total k r (g ∷ gs) = ground (arith, length-last r g.rows, add_row-group_total k r gs)

add_row-group_ng :
    (k : Text) (r : Inspection) (gs : List Group)
    → group_ng (add_row k r gs) ≡ length (ng_rows (r ∷ [])) + group_ng gs
unfolding add_row group_ng
add_row-group_ng k r [] = omega arith
add_row-group_ng k r (g ∷ gs) = ground (arith, ng_rows-append r g.rows, add_row-group_ng k r gs)

add_row-has_stage :
    (k s : Text) (r : Inspection) (gs : List Group)
    → has_stage s (add_row k r gs) ≡ (text_eq k s || has_stage s gs)
unfolding add_row has_stage
add_row-has_stage k s r [] = refl
add_row-has_stage k s r (g ∷ gs) =
    ground
      (arith, text_eq_iff g.key k, text_eq_iff g.key s, text_eq_iff k s, add_row-has_stage k s r gs)

group_rows-group_total :
    (rs : List Inspection) (gs : List Group)
    → group_total (group_rows rs gs) ≡ length rs + group_total gs
unfolding group_rows
group_rows-group_total [] gs = omega arith
group_rows-group_total (r ∷ rs) gs = omega (
  arith,
  group_rows-group_total rs (add_row (stage_of r) r gs),
  add_row-group_total (stage_of r) r gs,
)

ng_rows-cons :
    (r : Inspection) (rs : List Inspection)
    → length (ng_rows (r ∷ rs)) ≡ length (ng_rows (r ∷ [])) + length (ng_rows rs)
unfolding ng_rows
ng_rows-cons r rs = ground arith

group_rows-group_ng :
    (rs : List Inspection) (gs : List Group)
    → group_ng (group_rows rs gs) ≡ length (ng_rows rs) + group_ng gs
unfolding group_rows ng_rows
group_rows-group_ng [] gs = omega arith
group_rows-group_ng (r ∷ rs) gs = omega (
  arith,
  group_rows-group_ng rs (add_row (stage_of r) r gs),
  add_row-group_ng (stage_of r) r gs,
  ng_rows-cons r rs,
)

group_rows-has_stage :
    (s : Text) (rs : List Inspection) (gs : List Group)
    → has_stage s (group_rows rs gs) ≡ (row_with s rs || has_stage s gs)
unfolding group_rows row_with
group_rows-has_stage s [] gs = refl
group_rows-has_stage s (r ∷ rs) gs = ground (
  arith,
  group_rows-has_stage s rs (add_row (stage_of r) r gs),
  add_row-has_stage (stage_of r) s r gs,
)

insert_group-group_total :
    (g : Group) (gs : List Group) → group_total (insert_group g gs) ≡ length g.rows + group_total gs
unfolding insert_group group_total
insert_group-group_total g [] = refl
insert_group-group_total g (h ∷ hs) = ground (arith, insert_group-group_total g hs)

insert_group-group_ng :
    (g : Group) (gs : List Group)
    → group_ng (insert_group g gs) ≡ length (ng_rows g.rows) + group_ng gs
unfolding insert_group group_ng
insert_group-group_ng g [] = refl
insert_group-group_ng g (h ∷ hs) = ground (arith, insert_group-group_ng g hs)

sort_groups-group_total : (gs : List Group) → group_total (sort_groups gs) ≡ group_total gs
unfolding sort_groups group_total
sort_groups-group_total [] = refl
sort_groups-group_total (g ∷ gs) =
    omega (arith, insert_group-group_total g (sort_groups gs), sort_groups-group_total gs)

sort_groups-group_ng : (gs : List Group) → group_ng (sort_groups gs) ≡ group_ng gs
unfolding sort_groups group_ng
sort_groups-group_ng [] = refl
sort_groups-group_ng (g ∷ gs) =
    omega (arith, insert_group-group_ng g (sort_groups gs), sort_groups-group_ng gs)

lot_stages-sum_totals : (gs : List Group) → sum_totals (lot_stages gs) ≡ group_total gs
unfolding lot_stages sum_totals group_total lot_stage
lot_stages-sum_totals [] = refl
lot_stages-sum_totals (g ∷ gs) = omega (arith, lot_stages-sum_totals gs)

lot_stages-sum_ng : (gs : List Group) → sum_ng (lot_stages gs) ≡ group_ng gs
unfolding lot_stages sum_ng group_ng lot_stage
lot_stages-sum_ng [] = refl
lot_stages-sum_ng (g ∷ gs) = omega (arith, lot_stages-sum_ng gs)

stages-sum_ng : (gs : List Group) → sum_ng (lot_stages (sort_groups gs)) ≡ group_ng gs
stages-sum_ng gs = lot_stages-sum_ng (sort_groups gs) ∙ sort_groups-group_ng gs

stages-sum_totals : (gs : List Group) → sum_totals (lot_stages (sort_groups gs)) ≡ group_total gs
stages-sum_totals gs = lot_stages-sum_totals (sort_groups gs) ∙ sort_groups-group_total gs

counted :
    (rs : List Inspection) → sum_totals (lot_stages (sort_groups (group_rows rs []))) ≡ length rs
unfolding group_total
counted rs = omega (arith, stages-sum_totals (group_rows rs []), group_rows-group_total rs [])

counted_ng :
    (rs : List Inspection)
    → sum_ng (lot_stages (sort_groups (group_rows rs []))) ≡ length (ng_rows rs)
unfolding group_ng
counted_ng rs = omega (arith, stages-sum_ng (group_rows rs []), group_rows-group_ng rs [])

-- The verdict of a lot, from how many rows and NG rows it has and the required stages without a row.
abbrev pub verdict_from : ℕ → ℕ → List Text → Text
verdict_from total ng missing =
    if total == 0
    then codes "NONE"
    else if ltb 0 ng
    then codes "NG"
    else if is_none missing
    then codes "OK"
    else codes "INCOMPLETE"

any_ng-sum_ng : (ss : List LotStage) → any_ng ss ≡ ltb 0 (sum_ng ss)
unfolding any_ng sum_ng
any_ng-sum_ng [] = refl
any_ng-sum_ng (s ∷ ss) = ground (arith, any_ng-sum_ng ss)

missing_of-stages_without_row :
    (rs : List Inspection) (ss : List Text)
    → missing_of (group_rows rs []) ss ≡ stages_without_row rs ss
unfolding missing_of stages_without_row has_stage
missing_of-stages_without_row rs [] = refl
missing_of-stages_without_row rs (s ∷ ss) =
    ground (arith, group_rows-has_stage s rs [], missing_of-stages_without_row rs ss)

is_none-length : (rs : List Inspection) → is_none rs ≡ (length rs == 0)
is_none-length [] = refl
is_none-length (r ∷ rs) = ground arith

-- In the summary of a lot the stages have as many rows together as the lot, and as many NG rows; the
-- missing stages are the required ones that no row of the lot has; and the verdict is NONE where the
-- lot has no row, else NG where it has an NG row, else OK where no stage is missing, else INCOMPLETE.
pub summary_counts_rows :
    (lot : Text) (require : Option Text) (configs : List (Option Text)) (table : List Inspection)
    → let s = lot_summary lot require configs table in
      let rows = rows_of_lot lot table in
      let missing = stages_without_row rows (required_of require configs) in
      ((sum_totals s.stages ≡ length rows) × (sum_ng s.stages ≡ length (ng_rows rows)))
      × ((s.missing_stages ≡ missing)
          × (s.final_verdict ≡ verdict_from (length rows) (length (ng_rows rows)) missing))
unfolding lot_summary
summary_counts_rows lot require configs table =
    let rows = rows_of_lot lot table in
    let stages = lot_stages (sort_groups (group_rows rows [])) in
    let missing = missing_of-stages_without_row rows (required_of require configs) in
    let ng = counted_ng rows in
    (
      (counted rows, ng),
      (missing, rw (missing, any_ng-sum_ng stages, ng, is_none-length rows) refl),
    )
