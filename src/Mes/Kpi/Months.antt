-- ===== src/Mes/Kpi/Months.antt =====
-- The figures of the months of a year (services/mes/mes_app/kpi.py).
use mathlib.Core.Option.{some-injective}
use pipe_vision.Prelude.{
  ℕ, zero, suc, ◌+◌, ◌/◌, ◌%◌, ◌≤◌, ◌<◌, true, Option, none, some, List, [], ◌∷◌, ◌≡◌, refl, sym,
  arith, inl, inr, Option-cases, length, le→leb,
}
use pipe_vision.Prelude.Text.{Text}
use pipe_vision.Mes.WorkOrders.{SalesOrder}
use pipe_vision.Mes.Logistics.{Shipment, Claim}
use pipe_vision.Mes.Kpi.{
  Month, between, shipped_between, claimed_between, sum_of, order_of, due_of, count_if, in_time,
  figures, is_month, bounds_of, month_bounds, figures_of, monthly,
}

sum-shipped_split :
    (f : Shipment → ℕ) (a b c : ℕ) (ss : List Shipment)
    → a ≤ b
    → b ≤ c
    → sum_of f (shipped_between a b ss) + sum_of f (shipped_between b c ss)
      ≡ sum_of f (shipped_between a c ss)
unfolding sum_of shipped_between between
sum-shipped_split f a b c [] h k = omega arith
sum-shipped_split f a b c (s ∷ ss) h k = ground (arith, sum-shipped_split f a b c ss h k)

sum-claimed_split :
    (f : Claim → ℕ) (a b c : ℕ) (xs : List Claim)
    → a ≤ b
    → b ≤ c
    → sum_of f (claimed_between a b xs) + sum_of f (claimed_between b c xs)
      ≡ sum_of f (claimed_between a c xs)
unfolding sum_of claimed_between between
sum-claimed_split f a b c [] h k = omega arith
sum-claimed_split f a b c (x ∷ xs) h k = ground (arith, sum-claimed_split f a b c xs h k)

sum-shipped_none :
    (f : Shipment → ℕ) (a : ℕ) (ss : List Shipment) → sum_of f (shipped_between a a ss) ≡ 0
unfolding sum_of shipped_between between
sum-shipped_none f a [] = refl
sum-shipped_none f a (s ∷ ss) = ground (arith, sum-shipped_none f a ss)

sum-claimed_none : (f : Claim → ℕ) (a : ℕ) (xs : List Claim) → sum_of f (claimed_between a a xs) ≡ 0
unfolding sum_of claimed_between between
sum-claimed_none f a [] = refl
sum-claimed_none f a (x ∷ xs) = ground (arith, sum-claimed_none f a xs)

is_month-true :
    (first_day : ℕ → ℕ → ℕ) (y m : ℕ)
    → 1 ≤ y
    → y ≤ 9999
    → 1 ≤ m
    → m ≤ 12
    → is_month first_day y m ≡ true
unfolding is_month
is_month-true first_day y m a b c d =
    rw (le→leb 1 y a, le→leb y 9999 b, le→leb 1 m c, le→leb m 12 d) refl

abbrev shipped_qty_of : Option Month → ℕ
shipped_qty_of none = 0
shipped_qty_of (some k) = k.shipped_qty

abbrev leak_of : Option Month → ℕ
leak_of none = 0
leak_of (some k) = k.leak_defect_qty

module _ (first_day : ℕ → ℕ → ℕ) (sos : List SalesOrder) (ships : List Shipment)
    (claims : List Claim) (y : ℕ) where
  -- The figures of the month of the year.
  abbrev pub month : ℕ → Option Month
  month m = figures_of first_day sos ships claims (bounds_of first_day y m)

  -- What the first months of the year come to.
  abbrev pub shipped_in : ℕ → ℕ
  shipped_in zero = 0
  shipped_in (suc m) = shipped_in m + shipped_qty_of (month (suc m))

  abbrev pub leaked_in : ℕ → ℕ
  leaked_in zero = 0
  leaked_in (suc m) = leaked_in m + leak_of (month (suc m))

  abbrev end_of : ℕ → ℕ
  end_of m = first_day (y + m / 12) (m % 12 + 1)

  module _ (from_one : 1 ≤ y) (below : y < 9999)
      (later : (m : ℕ) → 1 ≤ m → m ≤ 12 → first_day y m ≤ end_of m) where
    start-eq-end : (m : ℕ) → m < 12 → first_day y (suc m) ≡ end_of m
    start-eq-end m h =
        let in_year : y + m / 12 ≡ y = omega arith in
        let next : m % 12 + 1 ≡ suc m = omega arith in rw (in_year, next) refl

    bounds_of-end :
        (m : ℕ) → m < 12 → bounds_of first_day y (suc m) ≡ some (end_of m, end_of (suc m))
    unfolding bounds_of
    bounds_of-end m h =
        rw
          (
            is_month-true first_day y (suc m) from_one (omega arith) (omega arith) (omega arith),
            is_month-true first_day (y + suc m / 12) (suc m % 12 + 1) (omega arith) (omega arith)
                (omega arith) (omega arith),
            start-eq-end m h,
          )
          refl

    end-ge : (m : ℕ) → m ≤ 12 → first_day y 1 ≤ end_of m
    end-ge zero h = omega (arith, start-eq-end 0 (omega arith))
    end-ge (suc m) h = omega (
      arith,
      end-ge m (omega arith),
      start-eq-end m (omega arith),
      later (suc m) (omega arith) (omega arith),
    )

    end-le-next : (m : ℕ) → m < 12 → end_of m ≤ end_of (suc m)
    end-le-next m h = omega (arith, start-eq-end m h, later (suc m) (omega arith) (omega arith))

    shipped_in-total :
        (m : ℕ)
        → m ≤ 12
        → shipped_in m ≡ sum_of (λ s. s.qty) (shipped_between (first_day y 1) (end_of m) ships)
    shipped_in-total zero h =
        rw (← start-eq-end 0 (omega arith))
          (sym (sum-shipped_none (λ s. s.qty) (first_day y 1) ships))
    shipped_in-total (suc m) h =
        rw (bounds_of-end m (omega arith), shipped_in-total m (omega arith))
          (unfold figures in
            sum-shipped_split (λ s. s.qty) (first_day y 1) (end_of m) (end_of (suc m)) ships
              (end-ge m (omega arith)) (end-le-next m (omega arith)))

    leaked_in-total :
        (m : ℕ)
        → m ≤ 12
        → leaked_in m
          ≡ sum_of (λ x. x.defect_qty) (claimed_between (first_day y 1) (end_of m) claims)
    leaked_in-total zero h =
        rw (← start-eq-end 0 (omega arith))
          (sym (sum-claimed_none (λ x. x.defect_qty) (first_day y 1) claims))
    leaked_in-total (suc m) h =
        rw (bounds_of-end m (omega arith), leaked_in-total m (omega arith))
          (unfold figures in
            sum-claimed_split (λ x. x.defect_qty) (first_day y 1) (end_of m) (end_of (suc m)) claims
              (end-ge m (omega arith)) (end-le-next m (omega arith)))

    -- Where the first day of a month comes no later than that of the next, the quantities shipped and
    -- the defects claimed in the twelve months of a year before 9999 are together those of all
    -- shipments and claims from its first day up to the first day of the next year: none is counted
    -- twice and none is left out.
    pub year_is_its_months :
        let ends = first_day (y + 1) 1 in
        let year =
          figures sos
            (shipped_between (first_day y 1) ends ships)
            (claimed_between (first_day y 1) ends claims) in
        (shipped_in 12 ≡ year.shipped_qty) × (leaked_in 12 ≡ year.leak_defect_qty)
    year_is_its_months =
        unfold figures in (shipped_in-total 12 (omega arith), leaked_in-total 12 (omega arith))

sum-le :
    (f g : Shipment → ℕ) (ss : List Shipment)
    → ((s : Shipment) → f s ≤ g s)
    → sum_of f ss ≤ sum_of g ss
unfolding sum_of
sum-le f g [] h = omega arith
sum-le f g (s ∷ ss) h = omega (arith, h s, sum-le f g ss h)

sum_one-length : (ss : List Shipment) → sum_of (λ s. 1) ss ≡ length ss
unfolding sum_of
sum_one-length [] = refl
sum_one-length (s ∷ ss) = omega (arith, sum_one-length ss)

in_time-le : (due : Option ℕ) (at : ℕ) → in_time due at ≤ count_if due
in_time-le none at = omega arith
in_time-le (some due) at = ground arith

due-le : (o : Option SalesOrder) → count_if (due_of o) ≤ count_if o
due-le none = omega arith
due-le (some so) = ground arith

count-le : (o : Option SalesOrder) → count_if o ≤ 1
count-le none = omega arith
count-le (some so) = omega arith

-- The figures of a month are in order: no more are in time than have a due date, no more of these than
-- shipments with a sales order, and no more of these than shipments.
pub shares_in_order :
    (first_day : ℕ → ℕ → ℕ) (period : Text) (sos : List SalesOrder) (ships : List Shipment)
    (claims : List Claim) (k : Month)
    → monthly first_day period sos ships claims ≡ some k
    → (k.on_time ≤ k.on_time_samples)
      × (k.on_time_samples ≤ k.lead_time_samples)
      × (k.lead_time_samples ≤ k.shipment_count)
unfolding monthly
shares_in_order first_day period sos ships claims k h =
    elim (Option-cases (month_bounds first_day period)) [
      | inl none_ ↦ cc (rw none_ at h)
      | inr ((start, end), e) ↦
          rw
            (← some-injective
              (figures sos (shipped_between start end ships) (claimed_between start end claims)) k
              (rw e at h))
            (in_order (shipped_between start end ships) (claimed_between start end claims))
    ]
  where
    in_order :
        (ss : List Shipment) (xs : List Claim)
        → let f = figures sos ss xs in
          (f.on_time ≤ f.on_time_samples)
          × (f.on_time_samples ≤ f.lead_time_samples)
          × (f.lead_time_samples ≤ f.shipment_count)
    in_order ss xs = (
      sum-le _ _ ss (λ s. in_time-le (due_of (order_of sos s)) s.ship_date),
      sum-le _ _ ss (λ s. due-le (order_of sos s)),
      omega (
        arith,
        sum-le (λ s. count_if (order_of sos s)) (λ s. 1) ss (λ s. count-le (order_of sos s)),
        sum_one-length ss,
      ),
    )
