-- ===== src/Worker/Orders.antt =====
-- The order that the worker inspects for (services/vision/worker/runner.py): the recipe of the item, the
-- lot, the work order and the stage, taken over from the server while the worker runs. The camera is a
-- state that `configure` changes, where it raises an exception too; a recipe is the text of its
-- dictionary. Times and the interval are in seconds.
pub mod Switch
pub mod Recipe
use pipe_vision.Prelude.{
  ℕ, ◌-◌, Bool, true, false, ◌&&◌, ◌||◌, not, Option, none, some, List, [], ◌∷◌, String, ltb, leb,
  ◌==◌, str_eq, if◌then◌else◌,
}
use pipe_vision.Prelude.Text.{Text, codes, text_eq}
use pipe_vision.Api.Rows.{upper}
use pipe_vision.Worker.Client.{ItemMaster, ActiveOrder, Http, Link, get_active_order, refetch_item}

pub record WorkerConfig : Type 0 where
  pub item_code : Text
  pub cam_id : Text
  pub lot : Text
  pub inspection_stage : Text
  pub item_reload_s : ℕ
  pub shift : Option Text
  pub operator : Option Text
  pub max_iterations : ℕ

-- What `Worker` keeps of the order.
pub record Order : Type 0 where
  pub item : Option ItemMaster
  pub last_item_reload : Option ℕ
  pub active_lot : Option Text
  pub active_work_order : Option Text
  pub active_stage : Option Text
  pub training : Bool

pub record Station (S Cam : Type 0) : Type 0 where
  pub link : Link S
  pub camera : Option Cam
  pub order : Order

abbrev opt_same : {A : Type 0} → (A → A → Bool) → Option A → Option A → Bool
opt_same eq none none = true
opt_same eq (some a) (some b) = eq a b
opt_same eq _ _ = false

abbrev pub same_recipe : Option String → Option String → Bool
same_recipe a b = opt_same (λ s t. str_eq s t) a b

abbrev number_same : Option ℕ → Option ℕ → Bool
number_same a b = opt_same (λ m n. m == n) a b

-- `_item_changed`: the keys of `_RELOAD_KEYS`.
unfoldable pub item_changed : ItemMaster → ItemMaster → Bool
item_changed old new = not (
    old.version == new.version
    && old.px_to_mm_scale == new.px_to_mm_scale
    && old.tol_plus_mm == new.tol_plus_mm
    && old.tol_minus_mm == new.tol_minus_mm
    && number_same old.oil_threshold new.oil_threshold
    && number_same old.discolor_threshold new.discolor_threshold
    && number_same old.scratch_threshold new.scratch_threshold
    && old.expected_count == new.expected_count
    && same_recipe old.capture_recipe new.capture_recipe)

abbrev is_empty : Text → Bool
is_empty [] = true
is_empty (_ ∷ _) = false

-- `x or None` and `x or y` of a text.
abbrev pub or_none : Option Text → Option Text
or_none none = none
or_none (some t) = if is_empty t then none else some t

abbrev or_text : Option Text → Text → Text
or_text none d = d
or_text (some t) d = if is_empty t then d else t

abbrev pub cut_length : Text
cut_length = codes "CUT_LENGTH"

abbrev pub post_wash_surface : Text
post_wash_surface = codes "POST_WASH_SURFACE"

abbrev pub crate_count : Text
crate_count = codes "CRATE_COUNT"

-- The values of `InspectionStage`.
unfoldable pub is_stage : Text → Bool
is_stage t = text_eq t cut_length || text_eq t post_wash_surface || text_eq t crate_count

-- `_apply_active_stage`
abbrev upper_or_none : Option Text → Option Text
upper_or_none none = none
upper_or_none (some t) = some (upper t)

unfoldable pub apply_active_stage : Option Text → Order → Order
unfolding is_stage upper
apply_active_stage raw o = elim (upper_or_none (or_none raw)) [
  | none ↦ record o { active_stage = none }
  | some new ↦ if is_stage new then record o { active_stage = some new } else o
]

-- `_apply_active_meta`
unfoldable pub apply_active_meta : ActiveOrder → Order → Order
unfolding apply_active_stage
apply_active_meta active o = record (apply_active_stage active.inspection_stage o) {
  training = active.training;
  active_lot = or_none active.lot;
  active_work_order = or_none active.work_order;
}

module _ (cfg : WorkerConfig) where
  unfoldable pub cur_stage : Order → Text
  cur_stage o = or_text o.active_stage cfg.inspection_stage

  unfoldable pub cur_item_code : Order → Text
  cur_item_code o = elim o.item [ none ↦ cfg.item_code | some item ↦ item.item_code ]

  unfoldable pub cur_lot : Order → Text
  cur_lot o = or_text o.active_lot cfg.lot

unfoldable pub cur_work_order : Order → Option Text
cur_work_order o = o.active_work_order

-- `capture_recipe or {}`
abbrev pub recipe_or_empty : Option String → String
recipe_or_empty none = "{}"
recipe_or_empty (some r) = r

abbrev pub configure_camera :
    {Cam : Type 0} → (String → Cam → Cam) → String → Option Cam → Option Cam
configure_camera configure r none = none
configure_camera configure r (some c) = some (configure r c)

module _ {S Cam : Type 0} (http : Http S) (configure : String → Cam → Cam)
    (cfg : WorkerConfig) where
  unfoldable pub reapply_recipe_if_changed : ItemMaster → ItemMaster → Station S Cam → Station S Cam
  reapply_recipe_if_changed old new s =
      if same_recipe new.capture_recipe old.capture_recipe then s else record s {
        camera = configure_camera configure (recipe_or_empty new.capture_recipe) s.camera;
      }

  -- The item is replaced, and its recipe applied. There is an item whenever the loop runs; without one
  -- the code fails at the recipe of the old one.
  unfoldable pub replace_item : Option ItemMaster → ItemMaster → Station S Cam → Station S Cam
  unfolding reapply_recipe_if_changed
  replace_item none fresh s = record s { order = record s.order { item = some fresh } }
  replace_item (some old) fresh s =
      reapply_recipe_if_changed old fresh
        (record s { order = record s.order { item = some fresh } })

  abbrev is_item : Text → Option ItemMaster → Bool
  is_item target none = false
  is_item target (some item) = text_eq target item.item_code

  -- `_maybe_switch_order`, from the answer of the server on.
  unfoldable pub switch_to : ActiveOrder → Station S Cam → Station S Cam
  unfolding replace_item apply_active_meta
  switch_to active s =
      if is_empty active.item_code
      then s
      else if is_item active.item_code s.order.item
      then record s { order = apply_active_meta active s.order }
      else (let (fresh, link) = refetch_item http active.item_code s.link in
          elim fresh [
            | none ↦ record s { link = link }
            | some item ↦
                replace_item s.order.item item
                  (record s { link = link; order = apply_active_meta active s.order })
          ])

  unfoldable pub maybe_switch_order : Station S Cam → Station S Cam
  unfolding switch_to
  maybe_switch_order s =
      let (active, link) = get_active_order http (some cfg.cam_id) s.link in
      elim active [
        | none ↦ record s { link = link }
        | some order ↦ switch_to order (record s { link = link })
      ]

  abbrev too_early : ℕ → Option ℕ → Bool
  too_early now none = false
  too_early now (some last) = ltb (now - last) cfg.item_reload_s

  -- What `_maybe_reload_item` does with the recipe that it got.
  unfoldable pub take_fresh : Option ItemMaster → Station S Cam → Station S Cam
  unfolding replace_item item_changed
  take_fresh none s = s
  take_fresh (some fresh) s = elim s.order.item [
    | none ↦ s
    | some old ↦ if item_changed old fresh then replace_item (some old) fresh s else s
  ]

  unfoldable pub reload_item : ℕ → Station S Cam → Station S Cam
  unfolding maybe_switch_order take_fresh cur_item_code
  reload_item now s =
      let s1 =
        maybe_switch_order (record s { order = record s.order { last_item_reload = some now } }) in
      let (fresh, link) = refetch_item http (cur_item_code cfg s1.order) s1.link in
      take_fresh fresh (record s1 { link = link })

  abbrev has_item : Option ItemMaster → Bool
  has_item none = false
  has_item (some _) = true

  -- `_maybe_reload_item`
  unfoldable pub maybe_reload_item : ℕ → Station S Cam → Station S Cam
  unfolding reload_item
  maybe_reload_item now s =
      if leb cfg.item_reload_s 0
        || not (has_item s.order.item)
        || too_early now s.order.last_item_reload
      then s
      else reload_item now s
