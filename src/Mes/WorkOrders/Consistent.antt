-- ===== src/Mes/WorkOrders/Consistent.antt =====
-- Work orders over all that changes them (services/mes/mes_app/routers/orders.py, and
-- `autostart_work_orders` of services/mes/mes_app/intake.py).
use mathlib.Core.Option.{some-injective}
use pipe_vision.Prelude.{
  ℕ, ◌++◌, sym, Bool, ◌&&◌, ◌||◌, Option, none, some, List, [], ◌∷◌, ◌≡◌, refl, ap, ◌∙◌, inl, inr,
  ◌==◌, Bool-cases, Option-cases, All,
}
use pipe_vision.Prelude.Text.{Text}
use pipe_vision.Mes.Numbers.{is_taken}
use pipe_vision.Mes.Records.{QualityRecord}
use pipe_vision.Mes.Intake.{IfRow, firsts}
use pipe_vision.Mes.Production.{summarize}
use pipe_vision.Mes.Production.Orders.{records_for}
use pipe_vision.Mes.WorkOrders.{
  SalesOrder, WorkRow, Calendar, Meanwhile, Reply, answered, not_found, forbidden, unprocessable,
  conflict, failed, WorkOrderIn, WorkOrderPatch, start_at_first, new_work, new_id, add_work,
  start_from, start_work, refresh_work, with_item, item_of, create_work_order, patched_work,
  find_work, patch_work_order, changes_plan, wo_nos, lots,
}
use pipe_vision.Mes.WorkOrders.Commit.{Same}
use pipe_vision.Mes.WorkOrders.Times.{
  is_set, IsConsistent, AllConsistent, patched_work-IsConsistent, find_work-Consistent,
  find_work-id, commit_row-Consistent,
}
use pipe_vision.Mes.WorkOrders.Started.{written_starts, written_starts-Consistent, StillPlanned}

-- What others did before a patch is committed keeps all orders consistent, and has not changed the
-- status or the times of the order that it had read.
abbrev pub FairPatch : (List WorkRow → List WorkRow) → ℕ → List WorkRow → Type 0
FairPatch meanwhile id ws =
    AllConsistent (meanwhile ws)
    × ((w : WorkRow) → find_work id ws ≡ some w → All (Same w) (meanwhile ws))

patch-Consistent :
    (meanwhile : List WorkRow → List WorkRow) (is_operator : Bool) (now id : ℕ)
    (body : WorkOrderPatch) (ws : List WorkRow)
    → FairPatch meanwhile id ws
    → AllConsistent ws
    → AllConsistent (patch_work_order meanwhile is_operator now id body ws).1
unfolding patch_work_order
patch-Consistent meanwhile is_operator now id body ws fair hs =
    elim (Option-cases (find_work id ws)) [
      | inl e ↦ rw (e, patch_work_order) hs
      | inr (w, e) ↦ elim (Bool-cases (changes_plan body && is_operator)) [
        | inl k ↦ rw (e, k, patch_work_order) hs
        | inr k ↦ elim (Option-cases (patched_work now body w)) [
          | inl f ↦ rw (e, k, f, patch_work_order) fair.0
          | inr (w', f) ↦
              rw (e, k, f, patch_work_order)
                (commit_row-Consistent w w' (meanwhile ws)
                  (patched_work-IsConsistent now body w w' f (find_work-Consistent id w ws e hs))
                  (fair.1 w e) fair.0)
        ]
      ]
    ]

-- What others do while an order is made keeps all orders consistent, and does not change the status
-- or the times of the new row.
abbrev pub FairCreate : Meanwhile → ℕ → List WorkRow → Type 0
FairCreate around ahead ws =
    let ws1 = around.before_insert ws in
    AllConsistent ws1
    × ((w : WorkRow)
        → w.id ≡ new_id ahead ws1
        → IsConsistent w
        → let ws2 = around.before_refresh (ws1 ++ w ∷ []) in
          (AllConsistent ws2 × All (Same w) ws2)
          × (AllConsistent (around.before_start ws2) × All (Same w) (around.before_start ws2)))

-- Rows that have the status and the times of w have those of another row of its key that has.
Same-through :
    (w x : WorkRow) (ws : List WorkRow) → x.id ≡ w.id → Same w x → All (Same w) ws → All (Same x) ws
Same-through w x [] key like h = tt
Same-through w x (y ∷ ys) key like h = (
  λ e.
      let (a, b, c) = h.0 (e ∙ key) in
      let (a', b', c') = like key in (a ∙ sym a', b ∙ sym b', c ∙ sym c'),
  Same-through w x ys key like h.1,
)

found-Same :
    (w x : WorkRow) (id : ℕ) (ws : List WorkRow)
    → find_work id ws ≡ some x
    → All (Same w) ws
    → Same w x
unfolding find_work
found-Same w x id [] e h = cc
found-Same w x id (y ∷ ys) e h = elim (Bool-cases (y.id == id)) [
  | inl k ↦ rw (← some-injective y x (rw k at e)) h.0
  | inr k ↦ found-Same w x id ys (rw k at e) h.1
]

module _ (c : Calendar) (around : Meanwhile) (qs : List QualityRecord) where
  start_from-Consistent :
      (first : Option ℕ) (w : WorkRow) (ws : List WorkRow)
      → w.finished_at ≡ none
      → AllConsistent ws
      → AllConsistent (around.before_start ws)
      → All (Same w) (around.before_start ws)
      → AllConsistent (start_from c around qs first w ws).1
  unfolding start_from
  start_from-Consistent none w ws open_ hs later same = hs
  start_from-Consistent (some at) w ws open_ hs later same =
      commit_row-Consistent w (start_at_first (some at) w) (around.before_start ws)
        (record { finished = ap is_set open_; begun = λ e. refl }) same later

  refresh_work-Consistent :
      (w : WorkRow) (ws : List WorkRow)
      → w.finished_at ≡ none
      → AllConsistent ws × All (Same w) ws
      → AllConsistent (around.before_start ws) × All (Same w) (around.before_start ws)
      → AllConsistent (refresh_work c around qs w.id ws).1
  unfolding refresh_work start_work
  refresh_work-Consistent w ws unfinished (hs, same) (later, same') =
      elim (Option-cases (find_work w.id ws)) [
        | inl e ↦ rw (e, refresh_work) hs
        | inr (x, e) ↦
            let key = find_work-id w.id x ws e in
            let like = found-Same w x w.id ws e same in
            rw (e, refresh_work)
              (start_from-Consistent (summarize (records_for x.order qs)).first_at x ws
                ((like key).2 ∙ unfinished) hs later
                (Same-through w x (around.before_start ws) key like same'))
      ]

  with_item-Consistent :
      (ahead : ℕ) (body : WorkOrderIn) (ws : List WorkRow) (item : Reply Text)
      → FairCreate around ahead ws
      → AllConsistent ws
      → AllConsistent (with_item c around qs ahead body ws item).1
  unfolding with_item add_work
  with_item-Consistent ahead body ws (answered item) (first, after) hs =
      let ws1 = around.before_insert ws in
      let w : WorkRow = new_work c (new_id ahead ws1) body item ws in
      let (read, later) = after w refl (record { finished = refl; begun = λ e. cc }) in
      elim (Bool-cases (is_taken w.order.wo_no (wo_nos ws1) || is_taken w.order.lot (lots ws1))) [
        | inl e ↦ rw (e, with_item) first
        | inr e ↦
            rw (e, with_item)
              (refresh_work-Consistent w (around.before_refresh (ws1 ++ w ∷ [])) refl read later)
      ]
  with_item-Consistent ahead body ws not_found fair hs = hs
  with_item-Consistent ahead body ws forbidden fair hs = hs
  with_item-Consistent ahead body ws unprocessable fair hs = hs
  with_item-Consistent ahead body ws conflict fair hs = hs
  with_item-Consistent ahead body ws failed fair hs = hs

  create-Consistent :
      (ahead : ℕ) (body : WorkOrderIn) (ss : List SalesOrder) (ws : List WorkRow)
      → FairCreate around ahead ws
      → AllConsistent ws
      → AllConsistent (create_work_order c around qs ahead body ss ws).1
  unfolding create_work_order
  create-Consistent ahead body ss ws fair hs =
      with_item-Consistent ahead body ws (item_of body ss) fair hs

-- What changes work orders: the two routers, and results that the MES takes in.
pub data Change : Type 0 where
  create : Calendar → Meanwhile → List QualityRecord → ℕ → WorkOrderIn → List SalesOrder → Change
  patch : (List WorkRow → List WorkRow) → Bool → ℕ → ℕ → WorkOrderPatch → Change
  take_in : (List WorkRow → List WorkRow) → List IfRow → Change

unfoldable pub apply_change : Change → List WorkRow → List WorkRow
unfolding create_work_order patch_work_order written_starts firsts
apply_change (create c around qs ahead body ss) ws =
    (create_work_order c around qs ahead body ss ws).1
apply_change (patch meanwhile is_operator now id body) ws =
    (patch_work_order meanwhile is_operator now id body ws).1
apply_change (take_in meanwhile rows) ws = written_starts (firsts rows []) ws (meanwhile ws)

unfoldable pub apply_changes : List Change → List WorkRow → List WorkRow
unfolding apply_change
apply_changes [] ws = ws
apply_changes (x ∷ xs) ws = apply_changes xs (apply_change x ws)

-- What others do between the accesses of a change, from the orders as they are then.
abbrev pub Fair : Change → List WorkRow → Type 0
Fair (create c around qs ahead body ss) ws = FairCreate around ahead ws
Fair (patch meanwhile is_operator now id body) ws = FairPatch meanwhile id ws
Fair (take_in meanwhile rows) ws =
    AllConsistent (meanwhile ws) × All (StillPlanned ws) (meanwhile ws)

abbrev pub AllFair : List Change → List WorkRow → Type 0
AllFair [] ws = Unit
AllFair (x ∷ xs) ws = Fair x ws × AllFair xs (apply_change x ws)

apply_change-Consistent :
    (x : Change) (ws : List WorkRow)
    → Fair x ws
    → AllConsistent ws
    → AllConsistent (apply_change x ws)
unfolding apply_change
apply_change-Consistent (create c around qs ahead body ss) ws fair hs =
    create-Consistent c around qs ahead body ss ws fair hs
apply_change-Consistent (patch meanwhile is_operator now id body) ws fair hs =
    patch-Consistent meanwhile is_operator now id body ws fair hs
apply_change-Consistent (take_in meanwhile rows) ws (later, still) hs =
    written_starts-Consistent (firsts rows []) ws (meanwhile ws) hs still later

-- Whatever work orders are made and changed and whatever results are taken in, if all work orders are
-- consistent at the start, then each has a finishing time just when it is done or cancelled, and a
-- starting time if it runs. Other transactions may come between the accesses of each change, also
-- between the two commits of a new order. They are to keep all orders consistent, and not to change
-- the status or the times of the order that is made or patched, or of one that was planned when a
-- poll read it, between that reading and the commit; the code has no guard against one that does.
pub apply_changes-AllConsistent :
    (xs : List Change) (ws : List WorkRow)
    → AllFair xs ws
    → AllConsistent ws
    → AllConsistent (apply_changes xs ws)
unfolding apply_changes
apply_changes-AllConsistent [] ws fair hs = hs
apply_changes-AllConsistent (x ∷ xs) ws fair hs =
    apply_changes-AllConsistent xs (apply_change x ws) fair.1
      (apply_change-Consistent x ws fair.0 hs)
