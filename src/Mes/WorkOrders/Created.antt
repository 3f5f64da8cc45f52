-- ===== src/Mes/WorkOrders/Created.antt =====
-- A new work order whose numbers the MES chooses (services/mes/mes_app/routers/orders.py).
use pipe_vision.Prelude.{
  ℕ, false, ◌≤◌, suc, List, [], ◌∷◌, ◌++◌, ◌≡◌, Option, none, some, arith, refl,
}
use pipe_vision.Prelude.Text.{Text, codes}
use pipe_vision.Mes.Numbers.{next_no-fresh, is_taken}
use pipe_vision.Mes.Intake.{planned}
use pipe_vision.Mes.Records.{QualityRecord}
use pipe_vision.Mes.Production.{summarize}
use pipe_vision.Mes.Production.Orders.{records_for}
use pipe_vision.Mes.WorkOrders.{
  SalesOrder, WorkRow, Calendar, answered, WorkOrderIn, stripped, or_today, started, start_at_first,
  new_work, new_id, last_id, nobody, start_from, start_work, refresh_work, commit_row, add_work,
  with_item, item_of, create_work_order, wo_nos, lots,
}
use pipe_vision.Mes.WorkOrders.Commit.{find-new_row, write_row-new_row, written_row-start}

-- What follows the insert of a new order, if nobody else writes.
start_from-new_row :
    (c : Calendar) (qs : List QualityRecord) (first : Option ℕ) (w : WorkRow) (ws : List WorkRow)
    → suc (last_id ws) ≤ w.id
    → w.order.status ≡ planned
    → w.order.started_at ≡ none
    → start_from c nobody qs first w (ws ++ w ∷ [])
      ≡ (answered (start_at_first first w), ws ++ start_at_first first w ∷ [])
unfolding start_from commit_row
start_from-new_row c qs none w ws fresh status began = refl
start_from-new_row c qs (some at) w ws fresh status began =
    let written = written_row-start w at status began in
    rw
      (
        find-new_row w ws fresh,
        written,
        write_row-new_row w (start_at_first (some at) w) ws fresh written,
        start_from,
        commit_row,
      )
      refl

add_work-fresh :
    (c : Calendar) (qs : List QualityRecord) (w : WorkRow) (ws : List WorkRow)
    → suc (last_id ws) ≤ w.id
    → w.order.status ≡ planned
    → w.order.started_at ≡ none
    → is_taken w.order.wo_no (wo_nos ws) ≡ false
    → is_taken w.order.lot (lots ws) ≡ false
    → add_work c nobody qs w ws ≡ (answered (started qs w), ws ++ started qs w ∷ [])
unfolding add_work refresh_work start_work started
add_work-fresh c qs w ws fresh status began no_number no_lot =
    rw (no_number, no_lot)
      (rw (find-new_row w ws fresh, refresh_work)
        (start_from-new_row c qs (summarize (records_for w.order qs)).first_at w ws fresh status
          began))

-- If a body leaves the number and the lot to the MES and an item is named by it or its sales order,
-- then, if nobody else writes meanwhile, the work order is made and added, with no conflict.
pub create-fresh :
    (c : Calendar) (qs : List QualityRecord) (ahead : ℕ) (body : WorkOrderIn) (ss : List SalesOrder)
    (ws : List WorkRow) (item : Text)
    → stripped body.wo_no ≡ []
    → stripped body.lot ≡ []
    → item_of body ss ≡ answered item
    → let w = started qs (new_work c (new_id ahead ws) body item ws) in
      create_work_order c nobody qs ahead body ss ws ≡ (answered w, ws ++ w ∷ [])
unfolding create_work_order with_item
create-fresh c qs ahead body ss ws item no_number no_lot named =
    let day = c.written (or_today c body.plan_date) in
    let w : WorkRow = new_work c (new_id ahead ws) body item ws in
    rw named (
      add_work-fresh c qs w ws (omega arith) refl refl
        (rw no_number (next_no-fresh (codes "WO") 3 day (wo_nos ws)))
        (rw no_lot (next_no-fresh (codes "L") 2 day (lots ws))))
