-- ===== src/Worker/Orders/Recipe.antt =====
-- What a change of the item keeps of the camera and the mode (services/vision/worker/runner.py).
use mathlib.Core.Path.{subst}
use mathlib.Core.Option.{some-injective}
use pipe_vision.Prelude.{
  ℕ, ◌≡◌, ◌||◌, not, ◌∙◌, refl, sym, ap, true, Option, none, some, String, inl, inr, leb,
  Bool-cases, Option-cases, eq_iff,
}
use pipe_vision.Worker.Client.{ItemMaster, ActiveOrder, Http, Link, get_active_order, refetch_item}
use pipe_vision.Worker.Orders.{
  WorkerConfig, Station, apply_active_meta, recipe_or_empty, replace_item,
  reapply_recipe_if_changed, switch_to, maybe_switch_order, take_fresh, reload_item,
  maybe_reload_item, is_item, is_empty, same_recipe, configure_camera, item_changed, has_item,
  too_early, cur_item_code,
}
use pipe_vision.Worker.Orders.Switch.{
  replace_item-order, apply_active_meta-item, apply_active_meta-HasStage, HasStage,
}

same_recipe→eq : (a b : Option String) → same_recipe a b ≡ true → a ≡ b
same_recipe→eq none none h = refl
same_recipe→eq none (some b) h = cc
same_recipe→eq (some a) none h = cc
same_recipe→eq (some a) (some b) h = ap some ((eq_iff a b).0 h)

abbrev pub RunsRecipe : {Cam : Type 0} → (Cam → String) → ItemMaster → Option Cam → Type 0
RunsRecipe observed item none = Unit
RunsRecipe observed item (some c) = observed c ≡ recipe_or_empty item.capture_recipe

-- There is an item, and the camera, where there is one, runs its recipe.
abbrev pub InSync : {S Cam : Type 0} → (Cam → String) → Station S Cam → Type 0
InSync observed s =
    (item : ItemMaster) × (s.order.item ≡ some item) × RunsRecipe observed item s.camera

RunsRecipe-same :
    {Cam : Type 0} (observed : Cam → String) (old fresh : ItemMaster) (c : Option Cam)
    → fresh.capture_recipe ≡ old.capture_recipe
    → RunsRecipe observed old c
    → RunsRecipe observed fresh c
RunsRecipe-same observed old fresh none e h = tt
RunsRecipe-same observed old fresh (some c) e h = h ∙ ap recipe_or_empty (sym e)

module _ {S Cam : Type 0} (http : Http S) (configure : String → Cam → Cam) (cfg : WorkerConfig)
    (P : Station S Cam → Type 0)
    (of_link : (l : Link S) (s : Station S Cam) → P s → P (record s { link = l }))
    (of_meta : (a : ActiveOrder) (s : Station S Cam)
      → P s
      → P (record s { order = apply_active_meta a s.order }))
    (of_time : (now : ℕ) (s : Station S Cam)
      → P s
      → P (record s { order = record s.order { last_item_reload = some now } }))
    (of_item : (o : Option ItemMaster) (fresh : ItemMaster) (s : Station S Cam)
      → s.order.item ≡ o
      → P s
      → P (replace_item http configure cfg o fresh s)) where
  switch_to-Keeps :
      (a : ActiveOrder) (s : Station S Cam) → P s → P (switch_to http configure cfg a s)
  unfolding switch_to
  switch_to-Keeps a s h = elim (Bool-cases (is_empty a.item_code)) [
    | inl e ↦ rw (e, switch_to) h
    | inr e ↦ elim (Bool-cases (is_item http configure cfg a.item_code s.order.item)) [
      | inl same ↦ rw (e, same, switch_to) (of_meta a s h)
      | inr other ↦ elim (Option-cases (refetch_item http a.item_code s.link).0) [
        | inl missing ↦
            rw (e, other, missing, switch_to) (of_link (refetch_item http a.item_code s.link).1 s h)
        | inr (item, got) ↦
            rw (e, other, got, switch_to)
              (of_item s.order.item item
                (record s {
                  link = (refetch_item http a.item_code s.link).1;
                  order = apply_active_meta a s.order;
                })
                (apply_active_meta-item a s.order)
                (of_link (refetch_item http a.item_code s.link).1
                  (record s { order = apply_active_meta a s.order }) (of_meta a s h)))
      ]
    ]
  ]

  maybe_switch_order-Keeps : (s : Station S Cam) → P s → P (maybe_switch_order http configure cfg s)
  unfolding maybe_switch_order
  maybe_switch_order-Keeps s h =
      elim (Option-cases (get_active_order http (some cfg.cam_id) s.link).0) [
        | inl e ↦ rw (e, maybe_switch_order) (of_link _ s h)
        | inr (a, e) ↦ rw (e, maybe_switch_order) (switch_to-Keeps a _ (of_link _ s h))
      ]

  take_fresh-Keeps :
      (fresh : Option ItemMaster) (s : Station S Cam)
      → P s
      → P (take_fresh http configure cfg fresh s)
  unfolding take_fresh
  take_fresh-Keeps none s h = h
  take_fresh-Keeps (some fresh) s h = elim (Option-cases s.order.item) [
    | inl e ↦ rw (e, take_fresh) h
    | inr (old, e) ↦ elim (Bool-cases (item_changed old fresh)) [
      | inl changed ↦ rw (e, changed, take_fresh) (of_item (some old) fresh s e h)
      | inr same ↦ rw (e, same, take_fresh) h
    ]
  ]

  reload_item-Keeps : (now : ℕ) (s : Station S Cam) → P s → P (reload_item http configure cfg now s)
  unfolding reload_item
  reload_item-Keeps now s h =
      let s0 : Station S Cam = record s {
        order = record s.order { last_item_reload = some now };
      } in
      let s1 = maybe_switch_order http configure cfg s0 in
      let r = refetch_item http (cur_item_code cfg s1.order) s1.link in
      take_fresh-Keeps r.0 (record s1 { link = r.1 })
        (of_link r.1 s1 (maybe_switch_order-Keeps s0 (of_time now s h)))

  pub maybe_reload_item-Keeps :
      (now : ℕ) (s : Station S Cam) → P s → P (maybe_reload_item http configure cfg now s)
  unfolding maybe_reload_item
  maybe_reload_item-Keeps now s h =
      elim (Bool-cases (
        leb cfg.item_reload_s 0
        || not (has_item http configure cfg s.order.item)
        || too_early http configure cfg now s.order.last_item_reload)) [
          | inl e ↦ rw (e, maybe_reload_item) h
          | inr e ↦ rw (e, maybe_reload_item) (reload_item-Keeps now s h)
        ]

module _ {S Cam : Type 0} (configure : String → Cam → Cam) (observed : Cam → String) (http : Http S)
    (cfg : WorkerConfig) (configured : (r : String) (c : Cam) → observed (configure r c) ≡ r) where
  configure_camera-RunsRecipe :
      (fresh : ItemMaster) (c : Option Cam)
      → RunsRecipe observed fresh
          (configure_camera configure (recipe_or_empty fresh.capture_recipe) c)
  configure_camera-RunsRecipe fresh none = tt
  configure_camera-RunsRecipe fresh (some c) = configured (recipe_or_empty fresh.capture_recipe) c

  reapply-InSync :
      (old fresh : ItemMaster) (s : Station S Cam)
      → RunsRecipe observed old s.camera
      → s.order.item ≡ some fresh
      → InSync observed (reapply_recipe_if_changed http configure cfg old fresh s)
  unfolding reapply_recipe_if_changed
  reapply-InSync old fresh s h i =
      elim (Bool-cases (same_recipe fresh.capture_recipe old.capture_recipe)) [
        | inl e ↦
            rw (e, reapply_recipe_if_changed)
              (
                fresh,
                i,
                RunsRecipe-same observed old fresh s.camera
                    (same_recipe→eq fresh.capture_recipe old.capture_recipe e) h,
              )
        | inr e ↦
            rw (e, reapply_recipe_if_changed) (fresh, i, configure_camera-RunsRecipe fresh s.camera)
      ]

  replace_item-InSync :
      (o : Option ItemMaster) (fresh : ItemMaster) (s : Station S Cam)
      → s.order.item ≡ o
      → InSync observed s
      → InSync observed (replace_item http configure cfg o fresh s)
  unfolding replace_item
  replace_item-InSync none fresh s e (old, p, h) = cc
  replace_item-InSync (some kept) fresh s e (old, p, h) =
      reapply-InSync kept fresh (record s { order = record s.order { item = some fresh } })
        (subst (λ (x : ItemMaster). RunsRecipe observed x s.camera)
          (some-injective old kept (sym p ∙ e)) h)
        refl

  -- Reloading keeps the camera at the recipe of the item.
  pub maybe_reload_item-InSync :
      (now : ℕ) (s : Station S Cam)
      → InSync observed s
      → InSync observed (maybe_reload_item http configure cfg now s)
  maybe_reload_item-InSync now s h =
      maybe_reload_item-Keeps http configure cfg (InSync observed) (λ l s h. h)
        (λ a s h. (h.0, apply_active_meta-item a s.order ∙ h.1, h.2)) (λ now s h. h)
        replace_item-InSync now s h

-- Reloading sets no mode that there is not.
pub maybe_reload_item-HasStage :
    {S Cam : Type 0} (http : Http S) (configure : String → Cam → Cam) (cfg : WorkerConfig) (now : ℕ)
    (s : Station S Cam)
    → HasStage s.order
    → HasStage (maybe_reload_item http configure cfg now s).order
maybe_reload_item-HasStage http configure cfg now s h =
    maybe_reload_item-Keeps http configure cfg (λ s. HasStage s.order) (λ l s h. h)
      (λ a s h. apply_active_meta-HasStage a s.order h) (λ now s h. h)
      (λ o fresh s e h. subst HasStage (sym (replace_item-order http configure cfg o fresh s)) h)
      now s h
