-- ===== src/Examples/Office.antt =====
-- Examples for services/mes/mes_app/routers and services/mes/mes_app/kpi.py.
use mathlib.Core.Option.{some-injective}
use pipe_vision.Prelude.{
  ℕ, ◌+◌, ◌*◌, ◌/◌, ◌%◌, ◌≡◌, ◌≤◌, refl, true, Option, none, some, List, [], ◌∷◌, ◌++◌, All,
  All-append, Bool-cases, inl, inr, ◌==◌, arith,
}
use pipe_vision.Prelude.Text.{codes, text_eq}
use pipe_vision.Spool.Names.{decimal, strip, is_space, int}
use pipe_vision.Mes.Records.{opt_eq}
use pipe_vision.Mes.Intake.{OrderStatus, planned, running, done}
use pipe_vision.Mes.WorkOrders.{
  SalesOrder, WorkRow, open_, closed, WorkOrderIn, WorkOrderPatch, Calendar, Meanwhile, nobody,
  answered, started, new_work, new_id, create_work_order, item_of, patch_work_order, find_work,
  set_status, commit_row, write_row, written_row, start_from,
}
use pipe_vision.Mes.WorkOrders.Commit.{Same, AllSame-new_row}
use pipe_vision.Mes.WorkOrders.Times.{IsConsistent, AllConsistent}
use pipe_vision.Mes.WorkOrders.Consistent.{
  Change, create, patch, apply_change, apply_changes, FairPatch, FairCreate,
  apply_changes-AllConsistent,
}
use pipe_vision.Mes.WorkOrders.Created.{create-fresh}
use pipe_vision.Mes.Logistics.{Shipment, ClaimIn, ClaimPatch}
use pipe_vision.Mes.Logistics.Claims as Claims
use pipe_vision.Mes.Logistics.Claims.{serve_claims-IsConsistent, serve_claims}
use pipe_vision.Mes.Kpi.{Month, figures, shipped_between, claimed_between, monthly}
use pipe_vision.Mes.Kpi.Months.{shipped_in, leaked_in, year_is_its_months}

abbrev calendar : Calendar
calendar = record { today = 20; written = decimal }

abbrev body : WorkOrderIn
body = record {
  wo_no = none;
  so_id = none;
  item_code = some (codes " T10");
  lot = some (codes " ");
  plan_qty = 5;
  plan_date = none;
  note = none;
}

item_is_named : item_of body [] ≡ answered (codes "T10")
unfolding item_of strip is_space
item_is_named = refl

no_lot : strip is_space (codes " ") ≡ []
unfolding strip is_space
no_lot = refl

create-fresh_example :
    let w = started [] (new_work calendar (new_id 0 []) body (codes "T10") []) in
    create_work_order calendar nobody [] 0 body [] [] ≡ (answered w, [] ++ w ∷ [])
create-fresh_example = create-fresh calendar [] 0 body [] [] (codes "T10") refl no_lot item_is_named

abbrev to_status : OrderStatus → WorkOrderPatch
to_status s = record { status = some (some s); plan_qty = none; plan_date = none; note = none }

-- The others write a note while an order is patched.
abbrev noted : List WorkRow → List WorkRow
noted [] = []
noted (w ∷ ws) = record w { note = some (codes "urgent") } ∷ noted ws

abbrev made : WorkRow
made = record {
  id = 1;
  so_id = none;
  item_code = codes "T10";
  plan_qty = 5;
  plan_date = none;
  finished_at = none;
  note = none;
  order = record { wo_no = codes "W"; lot = codes "L"; status = planned; started_at = none };
}

-- A work order is started and finished, and another is made.
abbrev changes : List Change
changes =
    patch noted true 30 1 (to_status running)
    ∷ patch (λ ws. ws) true 40 1 (to_status done)
    ∷ create calendar nobody [] 0 body []
    ∷ []

abbrev at_work : Option ℕ → OrderStatus → WorkRow
at_work finished status = record made {
  finished_at = finished;
  note = some (codes "urgent");
  order = record made.order { status = status; started_at = some 30 };
}

abbrev first : List WorkRow
first = apply_change (patch noted true 30 1 (to_status running)) (made ∷ [])

abbrev second : List WorkRow
second = apply_change (patch (λ ws. ws) true 40 1 (to_status done)) first

first_is : first ≡ at_work none running ∷ []
unfolding apply_change patch_work_order set_status commit_row write_row opt_eq text_eq
first_is = refl

second_is : second ≡ at_work (some 40) done ∷ []
unfolding apply_change patch_work_order set_status commit_row write_row opt_eq text_eq
second_is = refl

found_Same : (x w : WorkRow) → find_work 1 (x ∷ []) ≡ some w → Same w x
unfolding find_work
found_Same x w h = elim (Bool-cases (x.id == 1)) [
  | inl e ↦ rw (← some-injective x w (rw e at h)) (λ k. (refl, refl, refl))
  | inr e ↦ cc
]

noted_fair : FairPatch noted 1 (made ∷ [])
noted_fair = ((record { finished = refl; begun = λ e. cc }, tt), λ w h. (found_Same made w h, tt))

first_fair : FairPatch (λ ws. ws) 1 first
first_fair = rw first_is (
  (record { finished = refl; begun = λ e. refl }, tt),
  λ w h. (found_Same (at_work none running) w h, tt),
)

second_Consistent : AllConsistent second
second_Consistent = rw second_is (record { finished = refl; begun = λ e. cc }, tt)

quiet_fair : (ahead : ℕ) (ws : List WorkRow) → AllConsistent ws → FairCreate nobody ahead ws
quiet_fair ahead ws h = (
  h,
  λ w key ok.
      let new : AllConsistent (ws ++ w ∷ []) × All (Same w) (ws ++ w ∷ []) =
        (All-append IsConsistent ws (w ∷ []) h (ok, tt), AllSame-new_row w ws (omega arith)) in
      (new, new),
)

-- An order with results is finished by another after it was inserted, before it is set to running.
abbrev finish_all : List WorkRow → List WorkRow
finish_all [] = []
finish_all (w ∷ ws) =
    record w { finished_at = some 7; order = record w.order { status = done } } ∷ finish_all ws

abbrev late_done : Meanwhile
late_done = record nobody { before_start = finish_all }

race :
    (start_from calendar late_done [] (some 5) made (made ∷ [])).1
    ≡ record made {
      finished_at = some 7;
      order = record made.order { status = running; started_at = some 5 };
    }
      ∷ []
unfolding start_from commit_row find_work write_row written_row opt_eq text_eq
race = refl

apply_changes-AllConsistent_example : All IsConsistent (apply_changes changes (made ∷ []))
apply_changes-AllConsistent_example =
    apply_changes-AllConsistent changes (made ∷ [])
      (noted_fair, (first_fair, (quiet_fair 0 second second_Consistent, tt)))
      (record { finished = refl; begun = λ e. cc }, tt)

abbrev complaint : ClaimIn
complaint = record {
  claim_no = none;
  customer = codes "C";
  lot = none;
  item_code = none;
  defect_qty = 2;
  defect_type = some (codes "oil");
  occurred_date = 40;
  description = none;
}

abbrev closing : ClaimPatch
closing = record {
  status = some (some closed);
  defect_qty = none;
  defect_type = none;
  description = none;
}

serve_claims-IsConsistent_example : All Claims.IsConsistent (
    serve_claims
      (Claims.create calendar (λ xs. xs) 1 complaint ∷ Claims.patch 50 1 closing ∷ [])
      [])
serve_claims-IsConsistent_example =
    serve_claims-IsConsistent
      (Claims.create calendar (λ xs. xs) 1 complaint ∷ Claims.patch 50 1 closing ∷ []) []
      ((λ xs h. h), (tt, tt)) tt

-- A calendar with twelve months of thirty days.
abbrev first_day : ℕ → ℕ → ℕ
first_day y m = y * 360 + m * 30

abbrev shipment : ℕ → ℕ → Shipment
shipment qty at = record {
  id = 1;
  ship_no = codes "SH-1";
  so_id = some 1;
  lot = none;
  item_code = codes "T10";
  customer = codes "C";
  qty = qty;
  ship_date = at;
  note = none;
}

abbrev order : SalesOrder
order = record {
  id = 1;
  so_no = codes "SO-1";
  customer = codes "C";
  item_code = codes "T10";
  qty = 9;
  order_date = 700;
  due_date = some 800;
  status = open_;
  note = none;
}

abbrev shipments : List Shipment
shipments = shipment 4 770 ∷ shipment 3 1100 ∷ []

later : (m : ℕ) → 1 ≤ m → m ≤ 12 → first_day 2 m ≤ first_day (2 + m / 12) (m % 12 + 1)
later m h k = omega arith

year_is_its_months_example :
    let ends = first_day 3 1 in
    let year =
      figures
        (order ∷ [])
        (shipped_between (first_day 2 1) ends shipments)
        (claimed_between (first_day 2 1) ends []) in
    (shipped_in first_day (order ∷ []) shipments [] 2 12 ≡ year.shipped_qty)
    × (leaked_in first_day (order ∷ []) shipments [] 2 12 ≡ year.leak_defect_qty)
year_is_its_months_example =
    year_is_its_months first_day (order ∷ []) shipments [] 2 (omega arith) (omega arith) later

abbrev january : Month
january =
    figures (order ∷ []) (shipped_between (first_day 2 1) (first_day 2 2) shipments)
      (claimed_between (first_day 2 1) (first_day 2 2) [])

january_is : monthly first_day (codes "2-01") (order ∷ []) shipments [] ≡ some january
unfolding monthly int
january_is = refl
