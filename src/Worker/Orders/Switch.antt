-- ===== src/Worker/Orders/Switch.antt =====
-- The switch to another order: `_maybe_switch_order`, `_apply_active_meta` and `_apply_active_stage` of
-- services/vision/worker/runner.py.
use mathlib.Core.Path.{subst}
use mathlib.Core.Logic.{⊎_map}
use pipe_vision.Prelude.{
  ◌≡◌, ◌⊎◌, refl, sym, Bool, true, false, Option, none, some, String, inl, inr, Bool-cases,
  Option-cases,
}
use pipe_vision.Prelude.Text.{Text, text_eq_iff}
use pipe_vision.Worker.Client.{ItemMaster, ActiveOrder, Http, Link, get_active_order, refetch_item}
use pipe_vision.Worker.Orders.{
  WorkerConfig, Order, Station, or_none, upper_or_none, is_stage, apply_active_stage,
  apply_active_meta, replace_item, reapply_recipe_if_changed, switch_to, maybe_switch_order,
  is_item, is_empty, same_recipe,
}

-- The labels of the results are those of the active order.
abbrev pub Carries : ActiveOrder → Order → Type 0
Carries a o =
    (o.active_lot ≡ or_none a.lot)
    × (o.active_work_order ≡ or_none a.work_order)
    × (o.training ≡ a.training)

abbrev valid_or_none : Option Text → Bool
valid_or_none none = true
valid_or_none (some t) = is_stage t

-- The mode that the active order sets is one that there is.
abbrev pub HasStage : Order → Type 0
HasStage o = valid_or_none o.active_stage ≡ true

keeps_labels_of_stage :
    (raw : Option Text) (o : Order)
    → ((apply_active_stage raw o).item ≡ o.item)
      × (HasStage o → HasStage (apply_active_stage raw o))
unfolding apply_active_stage
keeps_labels_of_stage raw o = elim (Option-cases (upper_or_none (or_none raw))) [
  | inl e ↦ rw (e, apply_active_stage) (refl, λ h. refl)
  | inr (new, e) ↦ elim (Bool-cases (is_stage new)) [
    | inl v ↦ rw (e, v, apply_active_stage) (refl, λ h. v)
    | inr v ↦ rw (e, v, apply_active_stage) (refl, λ h. h)
  ]
]

apply_active_meta-Carries : (a : ActiveOrder) (o : Order) → Carries a (apply_active_meta a o)
unfolding apply_active_meta
apply_active_meta-Carries a o = (refl, refl, refl)

pub apply_active_meta-item : (a : ActiveOrder) (o : Order) → (apply_active_meta a o).item ≡ o.item
unfolding apply_active_meta
apply_active_meta-item a o = (keeps_labels_of_stage a.inspection_stage o).0

pub apply_active_meta-HasStage :
    (a : ActiveOrder) (o : Order) → HasStage o → HasStage (apply_active_meta a o)
unfolding apply_active_meta
apply_active_meta-HasStage a o = (keeps_labels_of_stage a.inspection_stage o).1

module _ {S Cam : Type 0} (http : Http S) (configure : String → Cam → Cam)
    (cfg : WorkerConfig) where
  pub replace_item-order :
      (old : Option ItemMaster) (fresh : ItemMaster) (s : Station S Cam)
      → (replace_item http configure cfg old fresh s).order ≡ record s.order { item = some fresh }
  unfolding replace_item reapply_recipe_if_changed
  replace_item-order none fresh s = refl
  replace_item-order (some old) fresh s =
      elim (Bool-cases (same_recipe fresh.capture_recipe old.capture_recipe)) [
        | inl e ↦ rw (e, replace_item, reapply_recipe_if_changed) refl
        | inr e ↦ rw (e, replace_item, reapply_recipe_if_changed) refl
      ]

  -- The item is the one that the order names, or what the server answered for it.
  abbrev pub ItemFor : ActiveOrder → Link S → Option ItemMaster → Type 0
  ItemFor a l o =
      (item : ItemMaster) × (o ≡ some item)
      × ((a.item_code ≡ item.item_code) ⊎ ((refetch_item http a.item_code l).0 ≡ some item))

  abbrev pub Switched : ActiveOrder → Link S → Order → Type 0
  Switched a l o = Carries a o × ItemFor a l o.item

  is_item-ItemFor :
      (a : ActiveOrder) (l : Link S) (o : Option ItemMaster)
      → is_item http configure cfg a.item_code o ≡ true
      → ItemFor a l o
  is_item-ItemFor a l none h = cc
  is_item-ItemFor a l (some item) h =
      (item, refl, inl ((text_eq_iff a.item_code item.item_code).0 h))

  kept_item :
      (a : ActiveOrder) (l : Link S) (o : Order)
      → ItemFor a l o.item
      → Switched a l (apply_active_meta a o)
  unfolding apply_active_meta
  kept_item a l o h = (
    apply_active_meta-Carries a o,
    subst (ItemFor a l) (sym (keeps_labels_of_stage a.inspection_stage o).0) h,
  )

  switch_to_fresh :
      (a : ActiveOrder) (s : Station S Cam) (item : ItemMaster)
      → is_empty a.item_code ≡ false
      → is_item http configure cfg a.item_code s.order.item ≡ false
      → (refetch_item http a.item_code s.link).0 ≡ some item
      → (switch_to http configure cfg a s).order
        ≡ record (apply_active_meta a s.order) { item = some item }
  unfolding switch_to
  switch_to_fresh a s item e other got =
      rw (e, other, got, switch_to)
        (replace_item-order s.order.item item (record s {
          link = (refetch_item http a.item_code s.link).1;
          order = apply_active_meta a s.order;
        }))

  switch_to-Switched :
      (a : ActiveOrder) (s : Station S Cam)
      → ((switch_to http configure cfg a s).order ≡ s.order)
        ⊎ Switched a s.link (switch_to http configure cfg a s).order
  unfolding switch_to
  switch_to-Switched a s = elim (Bool-cases (is_empty a.item_code)) [
    | inl e ↦ rw (e, switch_to) (inl refl)
    | inr e ↦ elim (Bool-cases (is_item http configure cfg a.item_code s.order.item)) [
      | inl same ↦
          rw (e, same, switch_to)
            (inr (kept_item a s.link s.order (is_item-ItemFor a s.link s.order.item same)))
      | inr other ↦ elim (Option-cases (refetch_item http a.item_code s.link).0) [
        | inl missing ↦ rw (e, other, missing, switch_to) (inl refl)
        | inr (item, got) ↦ inr (
            subst (Switched a s.link) (sym (switch_to_fresh a s item e other got))
              (apply_active_meta-Carries a s.order, (item, refl, inr got)))
      ]
    ]
  ]

  -- What the worker knows of its order changes as a whole or not at all.
  pub switch_is_atomic :
      (s : Station S Cam)
      → ((maybe_switch_order http configure cfg s).order ≡ s.order)
        ⊎ ((a : ActiveOrder) × ((get_active_order http (some cfg.cam_id) s.link).0 ≡ some a)
            × Switched a
                (get_active_order http (some cfg.cam_id) s.link).1
                (maybe_switch_order http configure cfg s).order)
  unfolding maybe_switch_order
  switch_is_atomic s = elim (Option-cases (get_active_order http (some cfg.cam_id) s.link).0) [
    | inl e ↦ rw (e, maybe_switch_order) (inl refl)
    | inr (a, e) ↦
        rw (e, maybe_switch_order)
          (⊎_map (λ kept. kept) (λ switched. (a, refl, switched))
            (switch_to-Switched a
              (record s { link = (get_active_order http (some cfg.cam_id) s.link).1 })))
  ]
