-- ===== src/Mes/Production/Orders.antt =====
-- Which records count for a work order, and which for none (`records_for` and `unassigned_lots` of
-- services/mes/mes_app/production.py).
use pipe_vision.Prelude.{
  ◌≢◌, ℕ, ◌≡◌, refl, Bool, true, false, ◌&&◌, ◌||◌, not, Option, none, some, List, [], ◌∷◌, ◌++◌,
  arith, leb, max, if◌then◌else◌,
}
use pipe_vision.Prelude.Text.{Text, text_eq}
use pipe_vision.Mes.Records.{QualityRecord}
use pipe_vision.Mes.Intake.{WorkOrder}
use pipe_vision.Mes.Production.{Production, summarize}

abbrev pub is_set : Option Text → Bool
is_set none = false
is_set (some []) = false
is_set (some (c ∷ cs)) = true

abbrev is_text : Option Text → Text → Bool
is_text none t = false
is_text (some s) t = text_eq s t

-- The condition of `records_for`.
unfoldable pub belongs : WorkOrder → QualityRecord → Bool
belongs wo r = is_text r.work_order wo.wo_no || text_eq r.lot wo.lot && not (is_set r.work_order)

pub records_for : WorkOrder → List QualityRecord → List QualityRecord
unfolding belongs
records_for wo [] = []
records_for wo (r ∷ rs) = let rest = records_for wo rs in if belongs wo r then r ∷ rest else rest

unfoldable pub any_order : (WorkOrder → Bool) → List WorkOrder → Bool
any_order p [] = false
any_order p (wo ∷ wos) = p wo || any_order p wos

-- The records that `unassigned_lots` passes over.
unfoldable pub is_assigned : List WorkOrder → QualityRecord → Bool
unfolding any_order
is_assigned wos r =
    is_set r.work_order && any_order (λ wo. is_text r.work_order wo.wo_no) wos
    || any_order (λ wo. text_eq r.lot wo.lot) wos

pub record LotGroup : Type 0 where
  pub lot : Text
  pub members : List QualityRecord

add_member : QualityRecord → List LotGroup → List LotGroup
add_member r [] = record { lot = r.lot; members = r ∷ [] } ∷ []
add_member r (g ∷ gs) =
    let later = add_member r gs in
    if text_eq g.lot r.lot then record g { members = g.members ++ r ∷ [] } ∷ gs else g ∷ later

group_lots : List WorkOrder → List QualityRecord → List LotGroup → List LotGroup
unfolding add_member is_assigned
group_lots wos [] gs = gs
group_lots wos (r ∷ rs) gs = group_lots wos rs (if is_assigned wos r then gs else add_member r gs)

newest : List QualityRecord → ℕ
newest [] = 0
newest (r ∷ rs) = max r.inspected_at (newest rs)

insert_group : LotGroup → List LotGroup → List LotGroup
unfolding newest
insert_group g [] = g ∷ []
insert_group g (x ∷ xs) =
    let later = insert_group g xs in
    if leb (newest x.members) (newest g.members) then g ∷ x ∷ xs else x ∷ later

sort_groups : List LotGroup → List LotGroup
unfolding insert_group
sort_groups [] = []
sort_groups (g ∷ gs) = insert_group g (sort_groups gs)

first_order : List QualityRecord → Option Text
first_order [] = none
first_order (r ∷ rs) =
    let later = first_order rs in if is_set r.work_order then r.work_order else later

first_item : List QualityRecord → Option Text
first_item [] = none
first_item (r ∷ rs) = let later = first_item rs in if is_set r.item_code then r.item_code else later

pub record UnassignedLot : Type 0 where
  pub lot : Text
  pub work_order : Option Text
  pub item_code : Option Text
  pub production : Production

show_groups : List LotGroup → List UnassignedLot
unfolding first_order first_item
show_groups [] = []
show_groups (g ∷ gs) =
    record {
      lot = g.lot;
      work_order = first_order g.members;
      item_code = first_item g.members;
      production = summarize g.members;
    }
    ∷ show_groups gs

pub unassigned_lots : List WorkOrder → List QualityRecord → List UnassignedLot
unfolding group_lots sort_groups show_groups
unassigned_lots wos rs = show_groups (sort_groups (group_lots wos rs []))

belongs_unset :
    (wo : WorkOrder) (r : QualityRecord) → r.work_order ≡ none → belongs wo r ≡ text_eq r.lot wo.lot
unfolding belongs
belongs_unset wo r h = ground arith

any_order-unset :
    (r : QualityRecord) (wos : List WorkOrder)
    → r.work_order ≡ none
    → any_order (λ wo. belongs wo r) wos ≡ any_order (λ wo. text_eq r.lot wo.lot) wos
unfolding any_order
any_order-unset r [] h = refl
any_order-unset r (wo ∷ wos) h = rw (belongs_unset wo r h, any_order-unset r wos h) refl

-- A record without a work order's number is passed over by the list of unassigned lots just when it
-- counts for one of the orders.
pub is_assigned-belongs :
    (wos : List WorkOrder) (r : QualityRecord)
    → r.work_order ≡ none
    → is_assigned wos r ≡ any_order (λ wo. belongs wo r) wos
unfolding is_assigned
is_assigned-belongs wos r h = rw (any_order-unset r wos h) (rw h refl)

counts_not :
    (w : Option Text) (num lot lot' : Text)
    → w ≢ some []
    → (is_set w && is_text w num) ≡ false
    → text_eq lot lot' ≡ false
    → (is_text w num || text_eq lot lot' && not (is_set w)) ≡ false
counts_not none num lot lot' ne h k = ground arith
counts_not (some []) num lot lot' ne h k = absurd (ne refl)
counts_not (some (c ∷ cs)) num lot lot' ne h k = ground arith

any_order-none :
    (wos : List WorkOrder) (r : QualityRecord)
    → r.work_order ≢ some []
    → (is_set r.work_order && any_order (λ wo. is_text r.work_order wo.wo_no) wos) ≡ false
    → any_order (λ wo. text_eq r.lot wo.lot) wos ≡ false
    → any_order (λ wo. belongs wo r) wos ≡ false
unfolding any_order belongs
any_order-none [] r ne h k = refl
any_order-none (wo ∷ wos) r ne h k =
    let head = counts_not r.work_order wo.wo_no r.lot wo.lot ne (ground arith) (ground arith) in
    let rest = any_order-none wos r ne (ground arith) (ground arith) in rw (head, rest) refl

-- A record that is listed under an unassigned lot counts for no order, unless its number of a work
-- order is the empty text.
pub unassigned_counts_for_none :
    (wos : List WorkOrder) (r : QualityRecord)
    → r.work_order ≢ some []
    → is_assigned wos r ≡ false
    → any_order (λ wo. belongs wo r) wos ≡ false
unfolding is_assigned
unassigned_counts_for_none wos r ne h = any_order-none wos r ne (ground arith) (ground arith)
