-- ===== src/Mes/Intake.antt =====
-- The polling of `mes_quality_if` by the MES (`autostart_work_orders` and `InterfaceReader.poll_once`
-- of services/mes/mes_app/intake.py). The table is a list in the order of its numbers, with the
-- columns `consumed_at` and `updated_at`. `Around` has what is around a poll: which accesses raise a
-- database error, the records that others insert during an upsert, and what AIVIS makes of its table
-- between the reading and the marking. The text of an error is left out, and what a
-- marking that fails has counted.
pub mod Batch
pub mod Marked
use pipe_vision.Prelude.{
  ℕ, ◌+◌, Bool, true, false, ◌&&◌, ◌||◌, not, Option, none, some, List, [], ◌∷◌, ◌++◌, ltb, ◌==◌,
  if◌then◌else◌, take, length,
}
use pipe_vision.Prelude.Text.{Text, text_eq}
use pipe_vision.Api.Rows.{MesQualityIf}
use pipe_vision.Mes.Records.{
  incoming, Incoming, QualityRecord, Source, table, Status, stored, updated, duplicate,
  upsert_record, opt_eq,
}

-- A row of the table, with its number.
pub record IfRow : Type 0 where
  pub id : ℕ
  pub row : MesQualityIf

pub data OrderStatus : Type 0 where
  planned running done cancelled : OrderStatus

pub record WorkOrder : Type 0 where
  pub wo_no : Text
  pub lot : Text
  pub status : OrderStatus
  pub started_at : Option ℕ

-- The first time of each pair of a lot and a work order, in the order in which the pairs came.
pub record First : Type 0 where
  pub lot : Text
  pub work_order : Option Text
  pub at : ℕ

unfoldable pub add_first : MesQualityIf → List First → List First
add_first r [] = record { lot = r.lot; work_order = r.work_order; at = r.inspected_at } ∷ []
add_first r (f ∷ fs) =
    let later = add_first r fs in
    if text_eq f.lot r.lot && opt_eq text_eq f.work_order r.work_order
    then (if ltb r.inspected_at f.at then record f { at = r.inspected_at } ∷ fs else f ∷ fs)
    else f ∷ later

unfoldable pub firsts : List IfRow → List First → List First
unfolding add_first
firsts [] fs = fs
firsts (r ∷ rs) fs = firsts rs (add_first r.row fs)

abbrev names_order : Option Text → WorkOrder → Bool
names_order none wo = false
names_order (some []) wo = false
names_order (some (c ∷ cs)) wo = text_eq wo.wo_no (c ∷ cs)

abbrev pub is_planned : OrderStatus → Bool
is_planned planned = true
is_planned _ = false

unfoldable pub starts : First → WorkOrder → Bool
starts f wo = text_eq wo.lot f.lot || names_order f.work_order wo

unfoldable pub start_order : First → WorkOrder → WorkOrder
unfolding starts
start_order f wo =
    if starts f wo then record wo { status = running; started_at = some f.at } else wo

unfoldable pub start_by : List First → WorkOrder → WorkOrder
unfolding start_order
start_by [] wo = wo
start_by (f ∷ fs) wo = start_by fs (start_order f wo)

-- The session does not flush before a query: each one finds the orders that were planned at first,
-- and the last pair that finds an order sets its time.
unfoldable pub start_planned : List First → WorkOrder → WorkOrder
unfolding start_by
start_planned fs wo = if is_planned wo.status then start_by fs wo else wo

unfoldable pub start_all : List First → List WorkOrder → List WorkOrder
unfolding start_planned
start_all fs [] = []
start_all fs (wo ∷ wos) = start_planned fs wo ∷ start_all fs wos

unfoldable pub autostart_work_orders : List IfRow → List WorkOrder → List WorkOrder
unfolding firsts start_all
autostart_work_orders rs wos = start_all (firsts rs []) wos

pub record PollResult : Type 0 where
  pub scanned : ℕ
  pub stored_count : ℕ
  pub updated_count : ℕ
  pub duplicates : ℕ
  pub marked : ℕ
  pub error : Bool

abbrev pub count : Status → PollResult → PollResult
count stored res = record res { stored_count = res.stored_count + 1 }
count updated res = record res { updated_count = res.updated_count + 1 }
count duplicate res = record res { duplicates = res.duplicates + 1 }

-- The tables of the MES.
pub record MesDb : Type 0 where
  pub records : List QualityRecord
  pub orders : List WorkOrder

pub record Around : Type 0 where
  pub read_fails : Bool
  pub commit_fails : Bool
  pub mark_fails : Bool
  pub others : Text → List QualityRecord
  pub meanwhile : List IfRow → List IfRow

unfoldable pub unconsumed : List IfRow → List IfRow
unconsumed [] = []
unconsumed (x ∷ xs) = let rest = unconsumed xs in if x.row.consumed then rest else x ∷ rest

unfoldable pub read_batch : ℕ → List IfRow → List IfRow
unfolding unconsumed
read_batch batch t = take batch (unconsumed t)

module _ (around : Around) (now : ℕ) where
  -- The upserts of one transaction: false where one raises.
  pub store_rows :
      List IfRow → PollResult → List QualityRecord → Bool × PollResult × List QualityRecord
  unfolding upsert_record
  store_rows [] res qs = (true, res, qs)
  store_rows (x ∷ xs) res qs =
      elim (upsert_record table now (around.others x.row.idem_key) (incoming x.row) qs) [
        | none ↦ (false, res, qs)
        | some (status, qs') ↦ store_rows xs (count status res) qs'
      ]

-- The update of one row: it is marked if it is the one that was read, not consumed, and was not
-- changed since.
pub is_unchanged : IfRow → IfRow → Bool
is_unchanged r x =
    x.id == r.id && not x.row.consumed && opt_eq (λ a b. a == b) x.row.updated_at r.row.updated_at

pub mark_row : ℕ → IfRow → List IfRow → ℕ × List IfRow
unfolding is_unchanged
mark_row now r [] = (0, [])
mark_row now r (x ∷ xs) =
    let (n, xs') = mark_row now r xs in
    if is_unchanged r x
    then (n + 1, record x { row = record x.row { consumed = true; consumed_at = some now } } ∷ xs')
    else (n, x ∷ xs')

pub mark_rows : ℕ → List IfRow → List IfRow → ℕ × List IfRow
unfolding mark_row
mark_rows now [] t = (0, t)
mark_rows now (r ∷ rs) t =
    let (n, t1) = mark_row now r t in let (m, t2) = mark_rows now rs t1 in (n + m, t2)

abbrev pub start_result : ℕ → PollResult
start_result n = record {
  scanned = n;
  stored_count = 0;
  updated_count = 0;
  duplicates = 0;
  marked = 0;
  error = false;
}

abbrev failed : PollResult → PollResult
failed res = record res { error = true }

abbrev pub Polled : Type 0
Polled = PollResult × MesDb × List IfRow

module _ (around : Around) (now : ℕ) where
  -- After the commit of the rows.
  pub mark_read : List IfRow → PollResult → MesDb → List IfRow → Polled
  unfolding mark_rows
  mark_read rows res db t =
      if around.mark_fails
      then (failed res, db, t)
      else let (n, t') = mark_rows now rows t in (record res { marked = n }, db, t')

  pub store_and_mark : List IfRow → MesDb → List IfRow → Polled
  unfolding store_rows mark_read autostart_work_orders
  store_and_mark rows db t =
      let (all_stored, res, qs) =
        store_rows around now rows (start_result (length rows)) db.records in
      if all_stored && not around.commit_fails
      then mark_read rows res
          (record { records = qs; orders = autostart_work_orders rows db.orders })
          (around.meanwhile t)
      else (failed res, db, around.meanwhile t)

  unfoldable pub poll_once : ℕ → MesDb → List IfRow → Polled
  unfolding read_batch store_and_mark store_rows mark_read mark_rows mark_row is_unchanged
      autostart_work_orders firsts add_first start_all start_planned
  poll_once batch db t =
      if around.read_fails then (failed (start_result 0), db, t) else elim (read_batch batch t) [
        | [] ↦ (start_result 0, db, t)
        | x ∷ xs ↦ store_and_mark (x ∷ xs) db t
      ]
