-- ===== src/Mes/WorkOrders.antt =====
-- Sales orders and work orders of the MES (services/mes/mes_app/routers/orders.py, and the bodies of
-- services/mes/mes_app/schemas.py). A date is a number of days, `Calendar` says which is today and how
-- a date is written; a time is a number of microseconds. What other transactions make of a
-- table between two accesses of a request is a function: `meanwhile`, or a field of `Meanwhile`. The check that a quantity is positive, the names of users, the times at
-- which rows were made and the percentage of progress are left out. In a body that changes a row,
-- `none` is a field that is not there and `some none` a null.
pub mod Commit
pub mod Times
pub mod Started
pub mod Consistent
pub mod Created
use pipe_vision.Prelude.{
  ℕ, suc, ◌+◌, max, Bool, true, false, ◌&&◌, ◌||◌, not, Option, none, some, List, [], ◌∷◌, ◌++◌,
  ◌==◌, if◌then◌else◌,
}
use pipe_vision.Prelude.Text.{Text, codes, text_eq}
use pipe_vision.Spool.Names.{strip, is_space}
use pipe_vision.Mes.Numbers.{next_no, is_taken}
use pipe_vision.Mes.Records.{QualityRecord, opt_eq}
use pipe_vision.Mes.Intake.{WorkOrder, OrderStatus, planned, running, done, cancelled}
use pipe_vision.Mes.Production.{Production, summarize}
use pipe_vision.Mes.Production.Orders.{records_for}

pub data SoStatus : Type 0 where
  open_ closed : SoStatus

pub record SalesOrder : Type 0 where
  pub id : ℕ
  pub so_no : Text
  pub customer : Text
  pub item_code : Text
  pub qty : ℕ
  pub order_date : ℕ
  pub due_date : Option ℕ
  pub status : SoStatus
  pub note : Option Text

-- A row of work orders: `order` has the columns that the intake of results uses.
pub record WorkRow : Type 0 where
  pub id : ℕ
  pub so_id : Option ℕ
  pub item_code : Text
  pub plan_qty : ℕ
  pub plan_date : Option ℕ
  pub finished_at : Option ℕ
  pub note : Option Text
  pub order : WorkOrder

pub record Calendar : Type 0 where
  pub today : ℕ
  pub written : ℕ → Text

-- The answers of the routers: a value, or the status of an HTTPException; `failed` is an exception
-- that is not caught.
pub data Reply (A : Type 0) : Type 0 where
  answered : A → Reply A
  not_found forbidden unprocessable conflict failed : Reply A

abbrev pub or_today : Calendar → Option ℕ → ℕ
or_today c none = c.today
or_today c (some on) = on

abbrev pub stripped : Option Text → Text
stripped none = []
stripped (some t) = strip is_space t

abbrev pub or_text : Text → Text → Text
or_text [] other = other
or_text (c ∷ s) other = c ∷ s

unfoldable pub find_sales : ℕ → List SalesOrder → Option SalesOrder
find_sales id [] = none
find_sales id (s ∷ ss) = if s.id == id then some s else find_sales id ss

unfoldable pub so_nos : List SalesOrder → List Text
so_nos [] = []
so_nos (s ∷ ss) = s.so_no ∷ so_nos ss

-- `SalesOrderIn`
pub record SalesOrderIn : Type 0 where
  pub so_no : Option Text
  pub customer : Text
  pub item_code : Text
  pub qty : ℕ
  pub order_date : ℕ
  pub due_date : Option ℕ
  pub note : Option Text

abbrev new_sales : Calendar → ℕ → SalesOrderIn → List SalesOrder → SalesOrder
new_sales c id body ss = record {
  id = id;
  so_no =
      or_text (stripped body.so_no)
        (next_no (codes "SO") 3 (c.written body.order_date) (so_nos ss));
  customer = strip is_space body.customer;
  item_code = strip is_space body.item_code;
  qty = body.qty;
  order_date = body.order_date;
  due_date = body.due_date;
  status = open_;
  note = body.note;
}

-- The unique column at the commit.
pub create_order :
    Calendar
    → (List SalesOrder → List SalesOrder)
    → ℕ
    → SalesOrderIn
    → List SalesOrder
    → Reply SalesOrder × List SalesOrder
unfolding next_no is_taken so_nos
create_order c meanwhile id body ss =
    let so = new_sales c id body ss in
    let ss1 = meanwhile ss in
    if is_taken so.so_no (so_nos ss1) then (conflict, ss1) else (answered so, ss1 ++ so ∷ [])

-- `SalesOrderPatch`
pub record SalesOrderPatch : Type 0 where
  pub status : Option (Option SoStatus)
  pub qty : Option (Option ℕ)
  pub due_date : Option (Option ℕ)
  pub note : Option (Option Text)

-- A field that is set, a null included; and one whose column must not be null, none for the error.
abbrev pub set_field : {A : Type 0} → Option (Option A) → Option A → Option A
set_field none old = old
set_field (some new) old = new

abbrev pub set_required : {A : Type 0} → Option (Option A) → A → Option A
set_required none old = some old
set_required (some none) old = none
set_required (some (some new)) old = some new

patched_sales : SalesOrderPatch → SalesOrder → Option SalesOrder
patched_sales body so = elim (set_required body.status so.status) [
  | none ↦ none
  | some status ↦ elim (set_required body.qty so.qty) [
    | none ↦ none
    | some qty ↦ some (record so {
      status = status;
      qty = qty;
      due_date = set_field body.due_date so.due_date;
      note = set_field body.note so.note;
    })
  ]
]

put_sales : SalesOrder → List SalesOrder → List SalesOrder
put_sales so [] = []
put_sales so (s ∷ ss) = if s.id == so.id then so ∷ ss else s ∷ put_sales so ss

pub patch_order : ℕ → SalesOrderPatch → List SalesOrder → Reply SalesOrder × List SalesOrder
unfolding find_sales patched_sales put_sales
patch_order id body ss = elim (find_sales id ss) [
  | none ↦ (not_found, ss)
  | some so ↦ elim (patched_sales body so) [
    | none ↦ (failed, ss)
    | some so' ↦ (answered so', put_sales so' ss)
  ]
]

unfoldable pub wo_nos : List WorkRow → List Text
wo_nos [] = []
wo_nos (w ∷ ws) = w.order.wo_no ∷ wo_nos ws

unfoldable pub lots : List WorkRow → List Text
lots [] = []
lots (w ∷ ws) = w.order.lot ∷ lots ws

-- `WorkOrderIn`
pub record WorkOrderIn : Type 0 where
  pub wo_no : Option Text
  pub so_id : Option ℕ
  pub item_code : Option Text
  pub lot : Option Text
  pub plan_qty : ℕ
  pub plan_date : Option ℕ
  pub note : Option Text

-- The item of a new work order: that of the body, or of the sales order.
unfoldable pub item_of : WorkOrderIn → List SalesOrder → Reply Text
unfolding find_sales
item_of body ss =
    let item = stripped body.item_code in
    let check : Text → Reply Text = λ t. elim t [ [] ↦ unprocessable | c ∷ s ↦ answered (c ∷ s) ] in
    elim body.so_id [
      | none ↦ check item
      | some id ↦ elim (find_sales id ss) [
        | none ↦ not_found
        | some so ↦ check (or_text item so.item_code)
      ]
    ]

abbrev pub new_work : Calendar → ℕ → WorkOrderIn → Text → List WorkRow → WorkRow
new_work c id body item ws =
    let day = c.written (or_today c body.plan_date) in
    record {
      id = id;
      so_id = body.so_id;
      item_code = item;
      plan_qty = body.plan_qty;
      plan_date = body.plan_date;
      finished_at = none;
      note = body.note;
      order = record {
        wo_no = or_text (stripped body.wo_no) (next_no (codes "WO") 3 day (wo_nos ws));
        lot = or_text (stripped body.lot) (next_no (codes "L") 2 day (lots ws));
        status = planned;
        started_at = none;
      };
    }

-- Results that came before their work order start it at the first of them.
abbrev pub start_at_first : Option ℕ → WorkRow → WorkRow
start_at_first none w = w
start_at_first (some at) w = record w {
  order = record w.order { status = running; started_at = some at };
}

unfoldable pub started : List QualityRecord → WorkRow → WorkRow
started qs w = start_at_first (summarize (records_for w.order qs)).first_at w

unfoldable pub find_work : ℕ → List WorkRow → Option WorkRow
find_work id [] = none
find_work id (w ∷ ws) = if w.id == id then some w else find_work id ws

unfoldable pub same_status : OrderStatus → OrderStatus → Bool
same_status planned planned = true
same_status running running = true
same_status done done = true
same_status cancelled cancelled = true
same_status _ _ = false

-- A commit writes the columns that a transaction has changed, on the row as it is by then.
abbrev pub column : {A : Type 0} → Bool → A → A → A
column same new current = if same then current else new

unfoldable pub written_row : WorkRow → WorkRow → WorkRow → WorkRow
unfolding opt_eq same_status
written_row old new x = record x {
  plan_qty = column (old.plan_qty == new.plan_qty) new.plan_qty x.plan_qty;
  plan_date = column (opt_eq (λ a b. a == b) old.plan_date new.plan_date) new.plan_date x.plan_date;
  finished_at =
      column (opt_eq (λ a b. a == b) old.finished_at new.finished_at) new.finished_at x.finished_at;
  note = column (opt_eq text_eq old.note new.note) new.note x.note;
  order = record x.order {
    status = column (same_status old.order.status new.order.status) new.order.status x.order.status;
    started_at =
        column (opt_eq (λ a b. a == b) old.order.started_at new.order.started_at)
          new.order.started_at x.order.started_at;
  };
}

unfoldable pub write_row : WorkRow → WorkRow → List WorkRow → List WorkRow
unfolding written_row
write_row old new [] = []
write_row old new (x ∷ xs) =
    (if x.id == old.id then written_row old new x else x) ∷ write_row old new xs

-- `db.commit` and `db.refresh`, for a row that was read as `old`.
unfoldable pub commit_row : WorkRow → WorkRow → List WorkRow → Reply WorkRow × List WorkRow
unfolding find_work write_row
commit_row old new ws = elim (find_work old.id ws) [
  | none ↦ (failed, ws)
  | some x ↦ (answered (written_row old new x), write_row old new ws)
]

unfoldable pub last_id : List WorkRow → ℕ
last_id [] = 0
last_id (w ∷ ws) = max w.id (last_id ws)

-- The primary key of a new row is beyond those that are there.
abbrev pub new_id : ℕ → List WorkRow → ℕ
new_id ahead ws = suc (ahead + last_id ws)

-- What others do before each access of `create_work_order`.
pub record Meanwhile : Type 0 where
  pub before_insert : List WorkRow → List WorkRow
  pub before_refresh : List WorkRow → List WorkRow
  pub before_start : List WorkRow → List WorkRow

abbrev pub nobody : Meanwhile
nobody = record { before_insert = λ ws. ws; before_refresh = λ ws. ws; before_start = λ ws. ws }

module _ (c : Calendar) (around : Meanwhile) (qs : List QualityRecord) where
  -- The second transaction, where the lot has results.
  unfoldable pub start_from : Option ℕ → WorkRow → List WorkRow → Reply WorkRow × List WorkRow
  unfolding commit_row
  start_from none w ws = (answered w, ws)
  start_from (some at) w ws = commit_row w (start_at_first (some at) w) (around.before_start ws)

  unfoldable pub start_work : WorkRow → List WorkRow → Reply WorkRow × List WorkRow
  unfolding start_from
  start_work w ws = start_from (summarize (records_for w.order qs)).first_at w ws

  unfoldable pub refresh_work : ℕ → List WorkRow → Reply WorkRow × List WorkRow
  unfolding find_work start_work
  refresh_work id ws = elim (find_work id ws) [ none ↦ (failed, ws) | some w ↦ start_work w ws ]

  -- The first transaction, and what follows.
  unfoldable pub add_work : WorkRow → List WorkRow → Reply WorkRow × List WorkRow
  unfolding is_taken wo_nos lots refresh_work
  add_work w ws =
      if is_taken w.order.wo_no (wo_nos ws) || is_taken w.order.lot (lots ws)
      then (conflict, ws)
      else refresh_work w.id (around.before_refresh (ws ++ w ∷ []))

  -- An answer that is an error ends the request.
  unfoldable pub with_item :
      ℕ → WorkOrderIn → List WorkRow → Reply Text → Reply WorkRow × List WorkRow
  unfolding add_work next_no last_id
  with_item ahead body ws (answered item) =
      let ws1 = around.before_insert ws in add_work (new_work c (new_id ahead ws1) body item ws) ws1
  with_item ahead body ws not_found = (not_found, ws)
  with_item ahead body ws forbidden = (forbidden, ws)
  with_item ahead body ws unprocessable = (unprocessable, ws)
  with_item ahead body ws conflict = (conflict, ws)
  with_item ahead body ws failed = (failed, ws)

  unfoldable pub create_work_order :
      ℕ → WorkOrderIn → List SalesOrder → List WorkRow → Reply WorkRow × List WorkRow
  unfolding item_of with_item
  create_work_order ahead body ss ws = with_item ahead body ws (item_of body ss)

-- `WorkOrderPatch`
pub record WorkOrderPatch : Type 0 where
  pub status : Option (Option OrderStatus)
  pub plan_qty : Option (Option ℕ)
  pub plan_date : Option (Option ℕ)
  pub note : Option (Option Text)

abbrev is_there : {A : Type 0} → Option A → Bool
is_there none = false
is_there (some a) = true

abbrev pub changes_plan : WorkOrderPatch → Bool
changes_plan body = is_there body.plan_qty || is_there body.plan_date || is_there body.note

abbrev or_now : ℕ → Option ℕ → Option ℕ
or_now now none = some now
or_now now (some at) = some at

abbrev pub with_status : OrderStatus → WorkRow → WorkRow
with_status status w = record w { order = record w.order { status = status } }

-- What a new status does to the times.
unfoldable pub move_to : ℕ → OrderStatus → WorkRow → WorkRow
move_to now planned w = with_status planned (record w { finished_at = none })
move_to now running w = with_status running (record w {
  finished_at = none;
  order = record w.order { started_at = or_now now w.order.started_at };
})
move_to now done w = with_status done (record w { finished_at = some now })
move_to now cancelled w = with_status cancelled (record w { finished_at = some now })

unfoldable pub set_status : ℕ → Option (Option OrderStatus) → WorkRow → WorkRow
unfolding same_status move_to
set_status now none w = w
set_status now (some none) w = w
set_status now (some (some status)) w =
    if same_status status w.order.status then w else move_to now status w

unfoldable pub patched_work : ℕ → WorkOrderPatch → WorkRow → Option WorkRow
unfolding set_status
patched_work now body w =
    let w1 = set_status now body.status w in
    elim (set_required body.plan_qty w.plan_qty) [
      | none ↦ none
      | some qty ↦ some (record w1 {
        plan_qty = qty;
        plan_date = set_field body.plan_date w1.plan_date;
        note = set_field body.note w1.note;
      })
    ]

unfoldable pub patch_work_order :
    (List WorkRow → List WorkRow)
    → Bool
    → ℕ
    → ℕ
    → WorkOrderPatch
    → List WorkRow
    → Reply WorkRow × List WorkRow
unfolding find_work patched_work commit_row
patch_work_order meanwhile is_operator now id body ws = elim (find_work id ws) [
  | none ↦ (not_found, ws)
  | some w ↦
      if changes_plan body && is_operator then (forbidden, ws) else elim (patched_work now body w) [
        | none ↦ (failed, meanwhile ws)
        | some w' ↦ commit_row w w' (meanwhile ws)
      ]
]
