-- ===== src/Mes/Logistics.antt =====
-- Shipments and claims of the MES (services/mes/mes_app/routers/logistics.py, and the bodies of
-- services/mes/mes_app/schemas.py). As for the orders: dates are numbers of days, checks that a number
-- is positive and the names of users are left out, and `meanwhile` is what others do before a commit.
pub mod Claims
use pipe_vision.Prelude.{
  ℕ, zero, suc, ◌+◌, ◌/◌, ◌%◌, Bool, true, false, ◌&&◌, ◌||◌, not, Option, none, some, List, [],
  ◌∷◌, ◌++◌, ◌==◌, leb, ltb, length, if◌then◌else◌,
}
use pipe_vision.Prelude.Int.{ℤ, pos, negsuc}
use pipe_vision.Prelude.Text.{Text, codes, text_eq}
use pipe_vision.Spool.Names.{strip, is_space}
use pipe_vision.Api.Rows.{upper}
use pipe_vision.Mes.Numbers.{next_no, is_taken}
use pipe_vision.Mes.WorkOrders.{
  SalesOrder, SoStatus, open_, closed, Calendar, Reply, answered, not_found, forbidden,
  unprocessable, conflict, failed, stripped, or_text, find_sales, set_field, set_required,
}

pub record Shipment : Type 0 where
  pub id : ℕ
  pub ship_no : Text
  pub so_id : Option ℕ
  pub lot : Option Text
  pub item_code : Text
  pub customer : Text
  pub qty : ℕ
  pub ship_date : ℕ
  pub note : Option Text

-- `ShipmentIn`
pub record ShipmentIn : Type 0 where
  pub ship_no : Option Text
  pub so_id : Option ℕ
  pub lot : Option Text
  pub item_code : Option Text
  pub customer : Option Text
  pub qty : ℕ
  pub ship_date : ℕ
  pub note : Option Text

-- `x or None`
abbrev nonempty : Option Text → Option Text
nonempty none = none
nonempty (some []) = none
nonempty (some (c ∷ s)) = some (c ∷ s)

unfoldable pub ship_nos : List Shipment → List Text
ship_nos [] = []
ship_nos (s ∷ ss) = s.ship_no ∷ ship_nos ss

-- The item and the customer: those of the body, or of the sales order.
abbrev named : Text → Text → Reply (Text × Text)
named [] customer = unprocessable
named (c ∷ s) [] = unprocessable
named (c ∷ s) (d ∷ t) = answered (c ∷ s, d ∷ t)

pub names_of : ShipmentIn → List SalesOrder → Reply (Text × Text)
unfolding find_sales
names_of body sos =
    let item = stripped body.item_code in
    let customer = stripped body.customer in
    elim body.so_id [
      | none ↦ named item customer
      | some id ↦ elim (find_sales id sos) [
        | none ↦ not_found
        | some so ↦ named (or_text item so.item_code) (or_text customer so.customer)
      ]
    ]

abbrev new_shipment : Calendar → ℕ → ShipmentIn → Text × Text → List Shipment → Shipment
new_shipment c id body names ss = record {
  id = id;
  ship_no =
      or_text (stripped body.ship_no)
        (next_no (codes "SH") 3 (c.written body.ship_date) (ship_nos ss));
  so_id = body.so_id;
  lot = nonempty body.lot;
  item_code = names.0;
  customer = names.1;
  qty = body.qty;
  ship_date = body.ship_date;
  note = body.note;
}

pub add_shipment : Shipment → List Shipment → Reply Shipment × List Shipment
unfolding is_taken ship_nos
add_shipment s ss =
    if is_taken s.ship_no (ship_nos ss) then (conflict, ss) else (answered s, ss ++ s ∷ [])

module _ (c : Calendar) (meanwhile : List Shipment → List Shipment) where
  pub with_names :
      ℕ → ShipmentIn → List Shipment → Reply (Text × Text) → Reply Shipment × List Shipment
  unfolding add_shipment next_no
  with_names id body ss (answered names) =
      add_shipment (new_shipment c id body names ss) (meanwhile ss)
  with_names id body ss not_found = (not_found, ss)
  with_names id body ss forbidden = (forbidden, ss)
  with_names id body ss unprocessable = (unprocessable, ss)
  with_names id body ss conflict = (conflict, ss)
  with_names id body ss failed = (failed, ss)

  pub create_shipment :
      ℕ → ShipmentIn → List SalesOrder → List Shipment → Reply Shipment × List Shipment
  unfolding names_of with_names
  create_shipment id body sos ss = with_names id body ss (names_of body sos)

pub record Claim : Type 0 where
  pub id : ℕ
  pub claim_no : Text
  pub customer : Text
  pub lot : Option Text
  pub item_code : Option Text
  pub defect_qty : ℕ
  pub defect_type : Option Text
  pub occurred_date : ℕ
  pub description : Option Text
  pub status : SoStatus
  pub closed_at : Option ℕ

-- `ClaimIn`
pub record ClaimIn : Type 0 where
  pub claim_no : Option Text
  pub customer : Text
  pub lot : Option Text
  pub item_code : Option Text
  pub defect_qty : ℕ
  pub defect_type : Option Text
  pub occurred_date : ℕ
  pub description : Option Text

unfoldable pub claim_nos : List Claim → List Text
claim_nos [] = []
claim_nos (x ∷ xs) = x.claim_no ∷ claim_nos xs

abbrev new_claim : Calendar → ℕ → ClaimIn → List Claim → Claim
new_claim c id body xs = record {
  id = id;
  claim_no =
      or_text (stripped body.claim_no)
        (next_no (codes "CL") 3 (c.written body.occurred_date) (claim_nos xs));
  customer = strip is_space body.customer;
  lot = nonempty body.lot;
  item_code = nonempty body.item_code;
  defect_qty = body.defect_qty;
  defect_type = nonempty (some (upper (stripped body.defect_type)));
  occurred_date = body.occurred_date;
  description = body.description;
  status = open_;
  closed_at = none;
}

unfoldable pub create_claim :
    Calendar → (List Claim → List Claim) → ℕ → ClaimIn → List Claim → Reply Claim × List Claim
unfolding next_no is_taken claim_nos upper strip is_space
create_claim c meanwhile id body xs =
    let x = new_claim c id body xs in
    let xs1 = meanwhile xs in
    if is_taken x.claim_no (claim_nos xs1) then (conflict, xs1) else (answered x, xs1 ++ x ∷ [])

-- `ClaimPatch`
pub record ClaimPatch : Type 0 where
  pub status : Option (Option SoStatus)
  pub defect_qty : Option (Option ℕ)
  pub defect_type : Option (Option Text)
  pub description : Option (Option Text)

-- What a new status does to the closing time: nothing where it is not new.
unfoldable pub move_claim : ℕ → Option (Option SoStatus) → Claim → Claim
move_claim now none x = x
move_claim now (some none) x = x
move_claim now (some (some open_)) x = elim x.status [
  | open_ ↦ x
  | closed ↦ record x { status = open_; closed_at = none }
]
move_claim now (some (some closed)) x = elim x.status [
  | open_ ↦ record x { status = closed; closed_at = some now }
  | closed ↦ x
]

-- A defect type that is not empty is stripped and in upper case.
abbrev tidy_type : Option (Option Text) → Option (Option Text)
tidy_type none = none
tidy_type (some none) = some none
tidy_type (some (some [])) = some (some [])
tidy_type (some (some (c ∷ s))) = some (some (upper (strip is_space (c ∷ s))))

unfoldable pub patched_claim : ℕ → ClaimPatch → Claim → Option Claim
unfolding move_claim upper strip is_space
patched_claim now body x =
    let x1 = move_claim now body.status x in
    elim (set_required body.defect_qty x.defect_qty) [
      | none ↦ none
      | some qty ↦ some (record x1 {
        defect_qty = qty;
        defect_type = set_field (tidy_type body.defect_type) x1.defect_type;
        description = set_field body.description x1.description;
      })
    ]

unfoldable pub find_claim : ℕ → List Claim → Option Claim
find_claim id [] = none
find_claim id (x ∷ xs) = if x.id == id then some x else find_claim id xs

unfoldable pub put_claim : Claim → List Claim → List Claim
put_claim x [] = []
put_claim x (y ∷ ys) = if y.id == x.id then x ∷ ys else y ∷ put_claim x ys

unfoldable pub patch_claim : ℕ → ℕ → ClaimPatch → List Claim → Reply Claim × List Claim
unfolding find_claim patched_claim put_claim
patch_claim now id body xs = elim (find_claim id xs) [
  | none ↦ (not_found, xs)
  | some x ↦ elim (patched_claim now body x) [
    | none ↦ (failed, xs)
    | some x' ↦ (answered x', put_claim x' xs)
  ]
]
