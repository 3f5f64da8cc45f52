-- ===== src/Mes/WorkOrders/Commit.antt =====
-- What a commit makes of the row that it writes (services/mes/mes_app/routers/orders.py).
use pipe_vision.Prelude.{
  ℕ, suc, ◌≤◌, ◌≡◌, ◌==◌, ==_iff, refl, ap, ◌∙◌, Bool, true, false, Option, none, some, List, [],
  ◌∷◌, ◌++◌, arith, All,
}
use pipe_vision.Prelude.Text.{Text, text_eq, text_eq_refl}
use pipe_vision.Mes.Records.{opt_eq}
use pipe_vision.Mes.Records.Values.{number_option}
use pipe_vision.Mes.Intake.{OrderStatus, planned, running, done, cancelled}
use pipe_vision.Mes.WorkOrders.{
  WorkRow, start_at_first, same_status, column, written_row, write_row, find_work, last_id,
}

-- A row of the same key has the status and the times that were read.
abbrev pub Same : WorkRow → WorkRow → Type 0
Same old x =
    x.id ≡ old.id
    → (x.order.status ≡ old.order.status)
      × (x.order.started_at ≡ old.order.started_at)
      × (x.finished_at ≡ old.finished_at)

pub same_status→≡ : (a b : OrderStatus) → same_status a b ≡ true → a ≡ b
unfolding same_status
same_status→≡ planned planned h = refl
same_status→≡ running running h = refl
same_status→≡ done done h = refl
same_status→≡ cancelled cancelled h = refl
same_status→≡ planned running h = cc
same_status→≡ planned done h = cc
same_status→≡ planned cancelled h = cc
same_status→≡ running planned h = cc
same_status→≡ running done h = cc
same_status→≡ running cancelled h = cc
same_status→≡ done planned h = cc
same_status→≡ done running h = cc
same_status→≡ done cancelled h = cc
same_status→≡ cancelled planned h = cc
same_status→≡ cancelled running h = cc
same_status→≡ cancelled done h = cc

column-new :
    {A : Type 0} (same : Bool) (old new current : A)
    → (same ≡ true → old ≡ new)
    → current ≡ old
    → column same new current ≡ new
column-new true old new current sound h = h ∙ sound refl
column-new false old new current sound h = refl

pub column_self : {A : Type 0} (same : Bool) (a : A) → column same a a ≡ a
column_self true a = refl
column_self false a = refl

-- A row whose status and times are as they were read gets those of the transaction.
pub written_row-new :
    (old new x : WorkRow)
    → (x.order.status ≡ old.order.status)
      × (x.order.started_at ≡ old.order.started_at)
      × (x.finished_at ≡ old.finished_at)
    → let y = written_row old new x in
      (y.order.status ≡ new.order.status)
      × (y.order.started_at ≡ new.order.started_at)
      × (y.finished_at ≡ new.finished_at)
unfolding written_row
written_row-new old new x (status, began, finished) = (
  column-new (same_status old.order.status new.order.status) old.order.status new.order.status
      x.order.status (same_status→≡ old.order.status new.order.status) status,
  column-new (opt_eq (λ a b. a == b) old.order.started_at new.order.started_at) old.order.started_at
      new.order.started_at x.order.started_at
      (number_option old.order.started_at new.order.started_at) began,
  column-new (opt_eq (λ a b. a == b) old.finished_at new.finished_at) old.finished_at
      new.finished_at x.finished_at (number_option old.finished_at new.finished_at) finished,
)

-- The key of a new row is that of no other.
pub find-new_row :
    (w : WorkRow) (ws : List WorkRow)
    → suc (last_id ws) ≤ w.id
    → find_work w.id (ws ++ w ∷ []) ≡ some w
unfolding find_work last_id
find-new_row w [] h = ground arith
find-new_row w (x ∷ xs) h = ground (arith, find-new_row w xs)

pub AllSame-new_row :
    (w : WorkRow) (ws : List WorkRow) → suc (last_id ws) ≤ w.id → All (Same w) (ws ++ w ∷ [])
unfolding last_id
AllSame-new_row w [] h = (λ e. (refl, refl, refl), tt)
AllSame-new_row w (x ∷ xs) h = (λ e. absurd (omega arith), AllSame-new_row w xs (omega arith))

pub write_row-new_row :
    (old new : WorkRow) (ws : List WorkRow)
    → suc (last_id ws) ≤ old.id
    → written_row old new old ≡ new
    → write_row old new (ws ++ old ∷ []) ≡ ws ++ new ∷ []
unfolding write_row last_id
write_row-new_row old new [] h e =
    let same : (old.id == old.id) ≡ true = (==_iff old.id old.id).1 refl in rw (same, e) refl
write_row-new_row old new (x ∷ xs) h e =
    let other : (x.id == old.id) ≡ false = ground arith in
    rw other (ap (λ (r : List WorkRow). x ∷ r) (write_row-new_row old new xs (omega arith) e))

-- A planned order is started.
pub written_row-start :
    (w : WorkRow) (at : ℕ)
    → w.order.status ≡ planned
    → w.order.started_at ≡ none
    → written_row w (start_at_first (some at) w) w ≡ start_at_first (some at) w
unfolding written_row opt_eq same_status
written_row-start w at status began =
    rw
      (
        status,
        began,
        column_self (w.plan_qty == w.plan_qty) w.plan_qty,
        column_self (opt_eq (λ a b. a == b) w.plan_date w.plan_date) w.plan_date,
        column_self (opt_eq (λ a b. a == b) w.finished_at w.finished_at) w.finished_at,
        column_self (opt_eq text_eq w.note w.note) w.note,
      )
      refl

column-same : {A : Type 0} (same : Bool) (a b : A) → same ≡ true → column same a b ≡ b
column-same same a b h = rw h refl

option_self : (a : Option ℕ) → opt_eq (λ m n. m == n) a a ≡ true
unfolding opt_eq
option_self none = refl
option_self (some a) = (==_iff a a).1 refl

text_self : (a : Option Text) → opt_eq text_eq a a ≡ true
unfolding opt_eq
text_self none = refl
text_self (some a) = text_eq_refl a

status_self : (a : OrderStatus) → same_status a a ≡ true
unfolding same_status
status_self planned = refl
status_self running = refl
status_self done = refl
status_self cancelled = refl

-- A transaction that changed nothing writes nothing.
pub written_row-same : (old x : WorkRow) → written_row old old x ≡ x
unfolding written_row
written_row-same old x =
    let qty : (old.plan_qty == old.plan_qty) ≡ true = (==_iff old.plan_qty old.plan_qty).1 refl in
    rw
      (
        qty,
        option_self old.plan_date,
        option_self old.finished_at,
        option_self old.order.started_at,
        text_self old.note,
        status_self old.order.status,
      )
      refl
