-- ===== src/Api/Lots.antt =====
-- The verdict of a lot from the results of its stations (`lot_summary` of
-- services/api/routers/inspection.py). The labels, the reasons and the rounded rates, which are for
-- display, are left out; `strip` and `upper` are those of the other modules.
pub mod Counts
use pipe_vision.Prelude.{
  ℕ, zero, suc, ◌+◌, Bool, true, false, ◌&&◌, ◌||◌, not, Option, none, some, List, [], ◌∷◌, ◌++◌,
  leb, ltb, ◌==◌, max, min, length, if◌then◌else◌,
}
use pipe_vision.Prelude.Text.{Text, codes, text_eq}
use pipe_vision.Spool.Names.{is_space, strip}
use pipe_vision.Spool.Store.{text_le}
use pipe_vision.Api.Rows.{InspectionResult, Inspection, upper, is_nil}

-- An entry of `by_stage`.
pub record Group : Type 0 where
  pub key : Text
  pub rows : List Inspection

pub record CodeCount : Type 0 where
  pub code : Text
  pub count : ℕ

pub record LotStage : Type 0 where
  pub stage : Text
  pub cam_ids : List Text
  pub total : ℕ
  pub ng : ℕ
  pub by_code : List CodeCount
  pub pending_review : ℕ
  pub first_at : Option ℕ
  pub last_at : Option ℕ

pub record LotSummary : Type 0 where
  pub lot : Text
  pub item_codes : List Text
  pub final_verdict : Text
  pub required_stages : List Text
  pub missing_stages : List Text
  pub stages : List LotStage

insert_text : Text → List Text → List Text
insert_text t [] = t ∷ []
insert_text t (u ∷ us) =
    if text_eq t u then u ∷ us else if text_le t u then t ∷ u ∷ us else u ∷ insert_text t us

-- sorted of a set
unfoldable pub sorted_set : List Text → List Text
unfolding insert_text
sorted_set [] = []
sorted_set (t ∷ ts) = insert_text t (sorted_set ts)

cons_text : Text → List Text → List Text
cons_text t ts = if is_nil t then ts else t ∷ ts

unfoldable pub given_stages : List (Option Text) → List Text
unfolding cons_text
given_stages [] = []
given_stages (none ∷ cs) = given_stages cs
given_stages (some t ∷ cs) = cons_text t (given_stages cs)

-- require.split(",")
unfoldable pub split_commas : Text → Text → List Text
split_commas part [] = part ∷ []
split_commas part (c ∷ s) =
    if c == b',' then part ∷ split_commas [] s else split_commas (part ++ c ∷ []) s

unfoldable pub named_stages : List Text → List Text
unfolding cons_text upper strip
named_stages [] = []
named_stages (t ∷ ts) = cons_text (upper (strip is_space t)) (named_stages ts)

-- `required`, from the query and the stages of the stations.
unfoldable pub required_of : Option Text → List (Option Text) → List Text
unfolding named_stages given_stages sorted_set split_commas
required_of none configs = sorted_set (given_stages configs)
required_of (some require) configs =
    if is_nil require
    then sorted_set (given_stages configs)
    else named_stages (split_commas [] require)

unfoldable pub stage_of : Inspection → Text
stage_of r = elim r.columns.inspection_stage [
  | none ↦ codes "UNSPECIFIED"
  | some t ↦ if is_nil t then codes "UNSPECIFIED" else t
]

unfoldable pub rows_of_lot : Text → List Inspection → List Inspection
rows_of_lot lot [] = []
rows_of_lot lot (r ∷ rs) =
    let rest = rows_of_lot lot rs in if text_eq r.columns.lot lot then r ∷ rest else rest

-- by_stage.setdefault(k, []).append(r)
unfoldable pub add_row : Text → Inspection → List Group → List Group
add_row k r [] = record { key = k; rows = r ∷ [] } ∷ []
add_row k r (g ∷ gs) =
    if text_eq g.key k then record g { rows = g.rows ++ r ∷ [] } ∷ gs else g ∷ add_row k r gs

unfoldable pub group_rows : List Inspection → List Group → List Group
unfolding add_row stage_of
group_rows [] gs = gs
group_rows (r ∷ rs) gs = group_rows rs (add_row (stage_of r) r gs)

unfoldable pub has_stage : Text → List Group → Bool
has_stage k [] = false
has_stage k (g ∷ gs) = text_eq g.key k || has_stage k gs

-- The place in `_STAGE_KO`.
abbrev rank : Text → ℕ
rank k =
    if text_eq k (codes "CUT_LENGTH")
    then 0
    else if text_eq k (codes "POST_WASH_SURFACE")
    then 1
    else if text_eq k (codes "CRATE_COUNT")
    then 2
    else 99

unfoldable pub insert_group : Group → List Group → List Group
insert_group g [] = g ∷ []
insert_group g (h ∷ hs) =
    if leb (rank g.key) (rank h.key) then g ∷ h ∷ hs else h ∷ insert_group g hs

unfoldable pub sort_groups : List Group → List Group
unfolding insert_group
sort_groups [] = []
sort_groups (g ∷ gs) = insert_group g (sort_groups gs)

abbrev pub is_ng_row : Inspection → Bool
is_ng_row r = text_eq r.columns.final_verdict (codes "NG")

unfoldable pub ng_rows : List Inspection → List Inspection
ng_rows [] = []
ng_rows (r ∷ rs) = let rest = ng_rows rs in if is_ng_row r then r ∷ rest else rest

-- One more of a code, in the order of the codes.
add_code : Text → List CodeCount → List CodeCount
add_code c [] = record { code = c; count = 1 } ∷ []
add_code c (x ∷ xs) =
    if text_eq x.code c
    then record x { count = x.count + 1 } ∷ xs
    else if text_le c x.code
    then record { code = c; count = 1 } ∷ x ∷ xs
    else x ∷ add_code c xs

add_codes : List Text → List CodeCount → List CodeCount
unfolding add_code
add_codes [] xs = xs
add_codes (c ∷ cs) xs = add_codes cs (add_code c xs)

unfoldable pub count_codes : List Inspection → List CodeCount → List CodeCount
unfolding add_codes
count_codes [] xs = xs
count_codes (r ∷ rs) xs = count_codes rs (add_codes r.columns.defect_codes xs)

abbrev is_pending : Inspection → Bool
is_pending r =
    r.columns.review_flag && elim r.columns.manual_verdict [ none ↦ true | some v ↦ false ]

unfoldable pub count_pending : List Inspection → ℕ
count_pending [] = 0
count_pending (r ∷ rs) = let rest = count_pending rs in if is_pending r then suc rest else rest

-- min and max of times, none where there are none.
abbrev best : (ℕ → ℕ → ℕ) → ℕ → Option ℕ → ℕ
best pick a none = a
best pick a (some b) = pick a b

unfoldable pub best_time : (ℕ → ℕ → ℕ) → List Inspection → Option ℕ
best_time pick [] = none
best_time pick (r ∷ rs) = some (best pick r.columns.inspected_at (best_time pick rs))

unfoldable pub texts_of : (InspectionResult → Text) → List Inspection → List Text
texts_of f [] = []
texts_of f (r ∷ rs) = f r.columns ∷ texts_of f rs

unfoldable pub nonempty_texts : List Text → List Text
unfolding cons_text
nonempty_texts [] = []
nonempty_texts (t ∷ ts) = cons_text t (nonempty_texts ts)

unfoldable pub lot_stage : Group → LotStage
unfolding ng_rows count_codes count_pending best_time texts_of sorted_set
lot_stage g = record {
  stage = g.key;
  cam_ids = sorted_set (texts_of (λ c. c.cam_id) g.rows);
  total = length g.rows;
  ng = length (ng_rows g.rows);
  by_code = count_codes (ng_rows g.rows) [];
  pending_review = count_pending g.rows;
  first_at = best_time min g.rows;
  last_at = best_time max g.rows;
}

unfoldable pub lot_stages : List Group → List LotStage
unfolding lot_stage
lot_stages [] = []
lot_stages (g ∷ gs) = lot_stage g ∷ lot_stages gs

-- `any_ng`
unfoldable pub any_ng : List LotStage → Bool
any_ng [] = false
any_ng (s ∷ ss) = ltb 0 s.ng || any_ng ss

unfoldable pub missing_of : List Group → List Text → List Text
unfolding has_stage
missing_of gs [] = []
missing_of gs (s ∷ ss) = let rest = missing_of gs ss in if has_stage s gs then rest else s ∷ rest

abbrev is_none : {A : Type 0} → List A → Bool
is_none [] = true
is_none (x ∷ xs) = false

-- `lot_summary`, over the rows of the table.
unfoldable pub lot_summary : Text → Option Text → List (Option Text) → List Inspection → LotSummary
unfolding required_of rows_of_lot group_rows sort_groups lot_stages any_ng missing_of nonempty_texts
lot_summary lot require configs table =
    let rows = rows_of_lot lot table in
    let required = required_of require configs in
    let by_stage = group_rows rows [] in
    let stages = lot_stages (sort_groups by_stage) in
    let missing = missing_of by_stage required in
    record {
      lot = lot;
      item_codes = sorted_set (nonempty_texts (texts_of (λ c. c.item_code) rows));
      final_verdict =
          if is_none rows
          then codes "NONE"
          else if any_ng stages
          then codes "NG"
          else if is_none missing
          then codes "OK"
          else codes "INCOMPLETE";
      required_stages = required;
      missing_stages = missing;
      stages = stages;
    }
