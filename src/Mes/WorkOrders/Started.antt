-- ===== src/Mes/WorkOrders/Started.antt =====
-- The work orders that results start (`autostart_work_orders` of services/mes/mes_app/intake.py), as
-- rows that a commit writes.
use pipe_vision.Prelude.{
  sym, true, false, none, some, List, [], ◌∷◌, map, ◌≡◌, refl, ap, ◌∙◌, inl, inr, Bool-cases,
  Option-cases, All,
}
use pipe_vision.Mes.Intake.{
  WorkOrder, OrderStatus, planned, running, done, cancelled, is_planned, IfRow, First, firsts,
  starts, start_order, start_by, start_planned, start_all, autostart_work_orders,
}
use pipe_vision.Mes.WorkOrders.{WorkRow, find_work, written_row}
use pipe_vision.Mes.WorkOrders.Commit.{Same, written_row-same}
use pipe_vision.Mes.WorkOrders.Times.{
  is_over, IsConsistent, is_over, AllConsistent, find_work-Consistent, find_work-id,
  written_row-IsConsistent,
}

-- `autostart_work_orders` on whole rows.
unfoldable pub start_row : List First → WorkRow → WorkRow
unfolding start_planned
start_row fs w = record w { order = start_planned fs w.order }

abbrev orders_of : List WorkRow → List WorkOrder
orders_of ws = map (λ w. w.order) ws

start_row-start_all :
    (fs : List First) (ws : List WorkRow)
    → orders_of (map (start_row fs) ws) ≡ start_all fs (orders_of ws)
unfolding start_row start_all
start_row-start_all fs [] = refl
start_row-start_all fs (w ∷ ws) =
    ap (λ os. start_planned fs w.order ∷ os) (start_row-start_all fs ws)

-- The orders of the rows are what the poll makes of them.
pub start_row-autostart :
    (rows : List IfRow) (ws : List WorkRow)
    → orders_of (map (start_row (firsts rows [])) ws) ≡ autostart_work_orders rows (orders_of ws)
unfolding autostart_work_orders
start_row-autostart rows ws = start_row-start_all (firsts rows []) ws

-- The commit of a poll that read these rows, on a row as it is by then.
unfoldable pub written_start : List First → List WorkRow → WorkRow → WorkRow
unfolding start_row written_row find_work
written_start fs read x = elim (find_work x.id read) [
  | none ↦ x
  | some old ↦ written_row old (start_row fs old) x
]

unfoldable pub written_starts : List First → List WorkRow → List WorkRow → List WorkRow
unfolding written_start
written_starts fs read [] = []
written_starts fs read (x ∷ xs) = written_start fs read x ∷ written_starts fs read xs

-- An order that has no finishing time, and is neither done nor cancelled.
abbrev Open : WorkRow → Type 0
Open w = IsConsistent w × (is_over w.order.status ≡ false)

start_order-Open :
    (f : First) (w : WorkRow) → Open w → Open (record w { order = start_order f w.order })
unfolding start_order
start_order-Open f w (h, unfinished) = elim (Bool-cases (starts f w.order)) [
  | inr e ↦ rw (e, start_order) (h, unfinished)
  | inl e ↦
      rw (e, start_order) (record { finished = h.finished ∙ unfinished; begun = λ k. refl }, refl)
]

start_by-Open :
    (fs : List First) (w : WorkRow) → Open w → Open (record w { order = start_by fs w.order })
unfolding start_by
start_by-Open [] w h = h
start_by-Open (f ∷ fs) w h =
    start_by-Open fs (record w { order = start_order f w.order }) (start_order-Open f w h)

planned-is_over : (a : OrderStatus) → is_planned a ≡ true → (a ≡ planned) × (is_over a ≡ false)
planned-is_over planned h = (refl, refl)
planned-is_over running h = cc
planned-is_over done h = cc
planned-is_over cancelled h = cc

-- No other has changed the status or the times of an order that was planned when it was read.
abbrev pub StillPlanned : List WorkRow → WorkRow → Type 0
StillPlanned read x =
    (old : WorkRow) → find_work x.id read ≡ some old → old.order.status ≡ planned → Same old x

written_start-IsConsistent :
    (fs : List First) (read : List WorkRow) (x : WorkRow)
    → AllConsistent read
    → StillPlanned read x
    → IsConsistent x
    → IsConsistent (written_start fs read x)
unfolding written_start start_row start_planned
written_start-IsConsistent fs read x rs still h = elim (Option-cases (find_work x.id read)) [
  | inl e ↦ rw (e, written_start) h
  | inr (old, e) ↦ elim (Bool-cases (is_planned old.order.status)) [
    | inl k ↦
        let (was, unfinished) = planned-is_over old.order.status k in
        let ok = find_work-Consistent x.id old read e rs in
        rw (e, k, written_start)
          (written_row-IsConsistent old (record old { order = start_by fs old.order }) x
            (still old e was (sym (find_work-id x.id old read e)))
            (start_by-Open fs old (ok, unfinished)).0)
    | inr k ↦ rw (e, k, written_start) (rw (written_row-same old x) h)
  ]
]

pub written_starts-Consistent :
    (fs : List First) (read ws : List WorkRow)
    → AllConsistent read
    → All (StillPlanned read) ws
    → AllConsistent ws
    → AllConsistent (written_starts fs read ws)
unfolding written_starts
written_starts-Consistent fs read [] rs still hs = tt
written_starts-Consistent fs read (x ∷ xs) rs still hs = (
  written_start-IsConsistent fs read x rs still.0 hs.0,
  written_starts-Consistent fs read xs rs still.1 hs.1,
)
