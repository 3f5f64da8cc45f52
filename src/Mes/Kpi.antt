-- ===== src/Mes/Kpi.antt =====
-- The figures of a month (services/mes/mes_app/kpi.py). Dates are numbers of days; `first_day` is that
-- of the first day of a month. `int` reads the decimal numbers. A share or a mean is the pair of what
-- is divided, and the sum of the lead times that of the days of shipping and of ordering: the rounded
-- quotients are left out.
pub mod Months
use pipe_vision.Prelude.{
  ℕ, suc, ◌+◌, ◌/◌, ◌%◌, Bool, true, false, ◌&&◌, Option, none, some, List, [], ◌∷◌, ◌==◌, leb, ltb,
  length, if◌then◌else◌,
}
use pipe_vision.Prelude.Text.{Text}
use pipe_vision.Spool.Names.{int}
use pipe_vision.Mes.WorkOrders.{SalesOrder, find_sales}
use pipe_vision.Mes.Logistics.{Shipment, Claim}

-- period.split("-")
unfoldable pub split_dash : Text → List Text
split_dash [] = [] ∷ []
split_dash (c ∷ s) = elim (split_dash s) [
  | [] ↦ (c ∷ []) ∷ []
  | t ∷ ts ↦ (if c == b'-' then [] ∷ t ∷ ts else (c ∷ t) ∷ ts)
]

abbrev two_numbers : List Text → Option (ℕ × ℕ)
two_numbers [] = none
two_numbers (y ∷ []) = none
two_numbers (y ∷ m ∷ []) = elim (int y) [
  | none ↦ none
  | some year ↦ elim (int m) [ none ↦ none | some month ↦ some (year, month) ]
]
two_numbers (y ∷ m ∷ x ∷ xs) = none

pub record Month : Type 0 where
  pub shipment_count : ℕ
  pub shipped_qty : ℕ
  pub shipped_days : ℕ
  pub ordered_days : ℕ
  pub lead_time_samples : ℕ
  pub on_time : ℕ
  pub on_time_samples : ℕ
  pub claim_count : ℕ
  pub leak_defect_qty : ℕ

unfoldable pub between : ℕ → ℕ → ℕ → Bool
between start end at = leb start at && ltb at end

unfoldable pub shipped_between : ℕ → ℕ → List Shipment → List Shipment
unfolding between
shipped_between start end [] = []
shipped_between start end (s ∷ ss) =
    let rest = shipped_between start end ss in
    if between start end s.ship_date then s ∷ rest else rest

unfoldable pub claimed_between : ℕ → ℕ → List Claim → List Claim
unfolding between
claimed_between start end [] = []
claimed_between start end (x ∷ xs) =
    let rest = claimed_between start end xs in
    if between start end x.occurred_date then x ∷ rest else rest

unfoldable pub sum_of : {A : Type 0} → (A → ℕ) → List A → ℕ
sum_of f [] = 0
sum_of f (x ∷ xs) = f x + sum_of f xs

-- The sales order of a shipment, if it has one.
unfoldable pub order_of : List SalesOrder → Shipment → Option SalesOrder
unfolding find_sales
order_of sos s = elim s.so_id [
  | none ↦ none
  | some id ↦ if id == 0 then none else find_sales id sos
]

abbrev due_of : Option SalesOrder → Option ℕ
due_of none = none
due_of (some so) = so.due_date

abbrev count_if : {A : Type 0} → Option A → ℕ
count_if none = 0
count_if (some a) = 1

abbrev days_if : Option SalesOrder → ℕ → ℕ
days_if none at = 0
days_if (some so) at = at

abbrev ordered_if : Option SalesOrder → ℕ
ordered_if none = 0
ordered_if (some so) = so.order_date

abbrev in_time : Option ℕ → ℕ → ℕ
in_time none at = 0
in_time (some due) at = if leb at due then 1 else 0

-- `monthly` between two dates.
unfoldable pub figures : List SalesOrder → List Shipment → List Claim → Month
unfolding sum_of order_of
figures sos ships claims = record {
  shipment_count = length ships;
  shipped_qty = sum_of (λ s. s.qty) ships;
  shipped_days = sum_of (λ s. days_if (order_of sos s) s.ship_date) ships;
  ordered_days = sum_of (λ s. ordered_if (order_of sos s)) ships;
  lead_time_samples = sum_of (λ s. count_if (order_of sos s)) ships;
  on_time = sum_of (λ s. in_time (due_of (order_of sos s)) s.ship_date) ships;
  on_time_samples = sum_of (λ s. count_if (due_of (order_of sos s))) ships;
  claim_count = length claims;
  leak_defect_qty = sum_of (λ x. x.defect_qty) claims;
}

module _ (first_day : ℕ → ℕ → ℕ) where
  is_month : ℕ → ℕ → Bool
  is_month y m = leb 1 y && leb y 9999 && leb 1 m && leb m 12

  -- The first day of a month and that of the next, none for a ValueError.
  unfoldable pub bounds_of : ℕ → ℕ → Option (ℕ × ℕ)
  unfolding is_month
  bounds_of y m =
      if is_month y m && is_month (y + m / 12) (m % 12 + 1)
      then some (first_day y m, first_day (y + m / 12) (m % 12 + 1))
      else none

  unfoldable pub month_bounds : Text → Option (ℕ × ℕ)
  unfolding split_dash int bounds_of
  month_bounds period = elim (two_numbers (split_dash period)) [
    | none ↦ none
    | some (y, m) ↦ bounds_of y m
  ]

  abbrev pub figures_of :
      List SalesOrder → List Shipment → List Claim → Option (ℕ × ℕ) → Option Month
  figures_of sos ships claims none = none
  figures_of sos ships claims (some (start, end)) =
      some (figures sos (shipped_between start end ships) (claimed_between start end claims))

  unfoldable pub monthly : Text → List SalesOrder → List Shipment → List Claim → Option Month
  unfolding month_bounds figures shipped_between claimed_between
  monthly period sos ships claims = figures_of sos ships claims (month_bounds period)
