-- ===== src/Mes/Production.antt =====
-- The count of production from quality records (services/mes/mes_app/production.py). A dictionary is
-- an association list in the order of its insertions. The labels of the stages are left out, and
-- `good` is the difference of two counters of which the second is never the greater.
pub mod Totals
pub mod Orders
use pipe_vision.Prelude.{
  ℕ, ◌+◌, ◌-◌, Bool, true, false, ◌&&◌, not, Option, none, some, List, [], ◌∷◌, ◌==◌, if◌then◌else◌,
  max, min,
}
use pipe_vision.Prelude.Text.{Text, codes, text_eq}
use pipe_vision.Api.Rows.{upper}
use pipe_vision.Spool.Store.{key_le}
use pipe_vision.Mes.Records.{QualityRecord}

abbrev crate : Text
crate = codes "CRATE_COUNT"

pub record StageStat : Type 0 where
  pub stage : Text
  pub inspected : ℕ
  pub ai_ng : ℕ
  pub final_ng : ℕ
  pub reviewed : ℕ
  pub by_code : List (Text × ℕ)

abbrev new_stat : Text → StageStat
new_stat key = record {
  stage = key;
  inspected = 0;
  ai_ng = 0;
  final_ng = 0;
  reviewed = 0;
  by_code = [];
}

-- `StageStat.good`
good : StageStat → ℕ
good s = s.inspected - s.final_ng

pub data GoodSource : Type 0 where
  no_source from_crates : GoodSource
  from_stage : Text → GoodSource

pub record Production : Type 0 where
  pub inspected_rows : ℕ
  pub stages : List StageStat
  pub defect_total : ℕ
  pub by_code : List (Text × ℕ)
  pub good_qty : ℕ
  pub good_source : GoodSource
  pub crate_count : ℕ
  pub crate_tubes : ℕ
  pub crate_mismatch : ℕ
  pub first_at : Option ℕ
  pub last_at : Option ℕ

abbrev pub new_production : Production
new_production = record {
  inspected_rows = 0;
  stages = [];
  defect_total = 0;
  by_code = [];
  good_qty = 0;
  good_source = no_source;
  crate_count = 0;
  crate_tubes = 0;
  crate_mismatch = 0;
  first_at = none;
  last_at = none;
}

abbrev nonempty_or : Option Text → Text → Text
nonempty_or none other = other
nonempty_or (some []) other = other
nonempty_or (some (c ∷ cs)) other = c ∷ cs

pub effective_verdict : QualityRecord → Text
effective_verdict r = upper (nonempty_or r.manual_verdict r.final_verdict)

pub is_ng : Text → Bool
is_ng verdict = text_eq verdict (codes "NG")

abbrev text_is : Option Text → Text → Bool
text_is none t = false
text_is (some s) t = text_eq s t

pub is_crate : QualityRecord → Bool
is_crate r = text_is r.inspection_stage crate

abbrev is_reviewed : Option Text → Bool
is_reviewed none = false
is_reviewed (some []) = false
is_reviewed (some (c ∷ cs)) = true

abbrev pub one_if : Bool → ℕ
one_if true = 1
one_if false = 0

add_code : Text → List (Text × ℕ) → List (Text × ℕ)
add_code c [] = (c, 1) ∷ []
add_code c ((k, n) ∷ rest) =
    let later = add_code c rest in if text_eq k c then (k, n + 1) ∷ rest else (k, n) ∷ later

add_codes : List Text → List (Text × ℕ) → List (Text × ℕ)
unfolding add_code
add_codes [] counts = counts
add_codes (c ∷ cs) counts = add_codes cs (add_code c counts)

without_multi : List Text → List Text
without_multi [] = []
without_multi (c ∷ cs) =
    let rest = without_multi cs in if text_eq c (codes "MULTI") then rest else c ∷ rest

abbrev or_manual : List Text → List Text
or_manual [] = codes "MANUAL" ∷ []
or_manual (c ∷ cs) = c ∷ cs

codes_counted : QualityRecord → List Text
unfolding without_multi
codes_counted r = or_manual (without_multi r.defect_codes)

count_codes : QualityRecord → List (Text × ℕ) → List (Text × ℕ)
unfolding add_codes codes_counted
count_codes r counts =
    if is_ng (effective_verdict r) then add_codes (codes_counted r) counts else counts

-- What one record adds to its stage.
count_in : QualityRecord → StageStat → StageStat
unfolding count_codes
count_in r s = record s {
  inspected = s.inspected + 1;
  ai_ng = s.ai_ng + one_if (is_ng (upper r.final_verdict));
  reviewed = s.reviewed + one_if (is_reviewed r.manual_verdict);
  final_ng = s.final_ng + one_if (is_ng (effective_verdict r));
  by_code = count_codes r s.by_code;
}

count_stage : Text → QualityRecord → List StageStat → List StageStat
unfolding count_in
count_stage key r [] = count_in r (new_stat key) ∷ []
count_stage key r (s ∷ ss) =
    let later = count_stage key r ss in if text_eq s.stage key then count_in r s ∷ ss else s ∷ later

abbrev earliest : ℕ → Option ℕ → Option ℕ
earliest at none = some at
earliest at (some t) = some (min t at)

abbrev latest : ℕ → Option ℕ → Option ℕ
latest at none = some at
latest at (some t) = some (max t at)

abbrev or_zero : Option ℕ → ℕ
or_zero none = 0
or_zero (some n) = n

-- One round of the loop of `summarize`.
count_record : QualityRecord → Production → Production
unfolding count_stage count_codes
count_record r p0 =
    let p = record p0 {
      inspected_rows = p0.inspected_rows + 1;
      first_at = earliest r.inspected_at p0.first_at;
      last_at = latest r.inspected_at p0.last_at;
    } in
    if is_crate r
    then record p {
      crate_count = p.crate_count + 1;
      crate_tubes = p.crate_tubes + or_zero r.count_detected;
      crate_mismatch = p.crate_mismatch + one_if (is_ng (upper r.final_verdict));
    }
    else record p {
      stages = count_stage (nonempty_or r.inspection_stage (codes "UNKNOWN")) r p.stages;
      by_code = count_codes r p.by_code;
    }

count_records : List QualityRecord → Production → Production
unfolding count_record
count_records [] p = p
count_records (r ∷ rs) p = count_records rs (count_record r p)

-- The place of a stage in STAGE_ORDER.
order_of : Text → ℕ
order_of stage =
    if text_eq stage (codes "CUT_LENGTH")
    then 0
    else if text_eq stage (codes "POST_WASH_SURFACE")
    then 1
    else 99

insert_stage : StageStat → List StageStat → List StageStat
unfolding order_of
insert_stage s [] = s ∷ []
insert_stage s (x ∷ xs) =
    let later = insert_stage s xs in
    if key_le (order_of s.stage, s.stage) (order_of x.stage, x.stage) then s ∷ x ∷ xs else x ∷ later

sort_stages : List StageStat → List StageStat
unfolding insert_stage
sort_stages [] = []
sort_stages (s ∷ ss) = insert_stage s (sort_stages ss)

pub total : (StageStat → ℕ) → List StageStat → ℕ
total f [] = 0
total f (s ∷ ss) = f s + total f ss

known_stages : List StageStat → List StageStat
unfolding order_of
known_stages [] = []
known_stages (s ∷ ss) =
    let rest = known_stages ss in if order_of s.stage == 99 then rest else s ∷ rest

last_stage : List StageStat → Option StageStat
last_stage [] = none
last_stage (s ∷ ss) = elim (last_stage ss) [ none ↦ some s | some l ↦ some l ]

abbrev or_last : Option StageStat → Option StageStat → Option StageStat
or_last none other = other
or_last (some s) other = some s

abbrev good_of : Option StageStat → Production → Production
good_of none p = p
good_of (some s) p = record p { good_qty = good s; good_source = from_stage s.stage }

finish : Production → Production
unfolding sort_stages total known_stages last_stage good
finish p0 =
    let stages = sort_stages p0.stages in
    let p = record p0 { stages = stages; defect_total = total (λ s. s.final_ng) stages } in
    if p.crate_count == 0
    then good_of (or_last (last_stage (known_stages stages)) (last_stage stages)) p
    else record p { good_qty = p.crate_tubes; good_source = from_crates }

pub summarize : List QualityRecord → Production
unfolding count_records finish
summarize rs = finish (count_records rs new_production)
