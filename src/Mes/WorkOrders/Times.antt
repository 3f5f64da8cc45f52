-- ===== src/Mes/WorkOrders/Times.antt =====
-- The status of a work order and its times (services/mes/mes_app/routers/orders.py).
use mathlib.Core.Option.{some-injective}
use pipe_vision.Prelude.{
  ℕ, ==_iff, sym, Bool, true, false, Option, none, some, List, [], ◌∷◌, ◌≡◌, refl, ap, ◌∙◌, arith,
  inl, inr, ◌==◌, Bool-cases, Option-cases, All,
}
use pipe_vision.Mes.Intake.{OrderStatus, planned, running, done, cancelled}
use pipe_vision.Mes.WorkOrders.{
  WorkRow, WorkOrderPatch, same_status, move_to, set_status, set_required, set_field, patched_work,
  find_work, written_row, write_row, commit_row,
}
use pipe_vision.Mes.WorkOrders.Commit.{Same, written_row-new}

abbrev pub is_over : OrderStatus → Bool
is_over planned = false
is_over running = false
is_over done = true
is_over cancelled = true

abbrev pub is_set : {A : Type 0} → Option A → Bool
is_set none = false
is_set (some a) = true

-- A work order has a finishing time just when it is done or cancelled, and one that runs has a
-- starting time.
pub record IsConsistent (w : WorkRow) : Type 0 where
  pub finished : is_set w.finished_at ≡ is_over w.order.status
  pub begun : w.order.status ≡ running → is_set w.order.started_at ≡ true

move_to-IsConsistent :
    (now : ℕ) (status : OrderStatus) (w : WorkRow) → IsConsistent (move_to now status w)
unfolding move_to
move_to-IsConsistent now planned w = record { finished = refl; begun = λ e. cc }
move_to-IsConsistent now running w = record { finished = refl; begun = λ e. ground arith }
move_to-IsConsistent now done w = record { finished = refl; begun = λ e. cc }
move_to-IsConsistent now cancelled w = record { finished = refl; begun = λ e. cc }

set_status-IsConsistent :
    (now : ℕ) (status : Option (Option OrderStatus)) (w : WorkRow)
    → IsConsistent w
    → IsConsistent (set_status now status w)
unfolding set_status
set_status-IsConsistent now none w h = h
set_status-IsConsistent now (some none) w h = h
set_status-IsConsistent now (some (some status)) w h =
    elim (Bool-cases (same_status status w.order.status)) [
      | inl e ↦ rw e h
      | inr e ↦ rw e (move_to-IsConsistent now status w)
    ]

pub patched_work-IsConsistent :
    (now : ℕ) (body : WorkOrderPatch) (w w' : WorkRow)
    → patched_work now body w ≡ some w'
    → IsConsistent w
    → IsConsistent w'
unfolding patched_work
patched_work-IsConsistent now body w w' e h =
    let w1 = set_status now body.status w in
    let ok = set_status-IsConsistent now body.status w h in
    elim (Option-cases (set_required body.plan_qty w.plan_qty)) [
      | inl no_qty ↦ cc (rw (no_qty, patched_work) at e)
      | inr (qty, has) ↦
          kept
            (record w1 {
              plan_qty = qty;
              plan_date = set_field body.plan_date w1.plan_date;
              note = set_field body.note w1.note;
            })
            w' (rw (has, patched_work) at e) (record { finished = ok.finished; begun = ok.begun })
    ]
  where
    kept : (u v : WorkRow) → some u ≡ some v → IsConsistent u → IsConsistent v
    kept u v e k = rw (← some-injective u v e) k

abbrev pub AllConsistent : List WorkRow → Type 0
AllConsistent = All IsConsistent

pub find_work-Consistent :
    (id : ℕ) (w : WorkRow) (ws : List WorkRow)
    → find_work id ws ≡ some w
    → AllConsistent ws
    → IsConsistent w
unfolding find_work
find_work-Consistent id w [] e hs = cc
find_work-Consistent id w (x ∷ xs) e hs = elim (Bool-cases (x.id == id)) [
  | inl k ↦ rw (← some-injective x w (rw k at e)) hs.0
  | inr k ↦ find_work-Consistent id w xs (rw k at e) hs.1
]

-- A commit of a transaction that leaves its row consistent, if no other has changed the status or
-- the times of that row since it was read.
pub written_row-IsConsistent :
    (old new x : WorkRow)
    → (x.order.status ≡ old.order.status)
      × (x.order.started_at ≡ old.order.started_at)
      × (x.finished_at ≡ old.finished_at)
    → IsConsistent new
    → IsConsistent (written_row old new x)
written_row-IsConsistent old new x same ok =
    let (status, began, finished) = written_row-new old new x same in
    record {
      finished = ap is_set finished ∙ ok.finished ∙ ap is_over (sym status);
      begun = λ k. ap is_set began ∙ ok.begun (sym status ∙ k);
    }

write_row-Consistent :
    (old new : WorkRow) (ws : List WorkRow)
    → IsConsistent new
    → All (Same old) ws
    → AllConsistent ws
    → AllConsistent (write_row old new ws)
unfolding write_row
write_row-Consistent old new [] ok same hs = tt
write_row-Consistent old new (x ∷ xs) ok same hs =
    let rest = write_row-Consistent old new xs ok same.1 hs.1 in
    elim (Bool-cases (x.id == old.id)) [
      | inl e ↦
          rw e (written_row-IsConsistent old new x (same.0 ((==_iff x.id old.id).0 e)) ok, rest)
      | inr e ↦ rw e (hs.0, rest)
    ]

pub commit_row-Consistent :
    (old new : WorkRow) (ws : List WorkRow)
    → IsConsistent new
    → All (Same old) ws
    → AllConsistent ws
    → AllConsistent (commit_row old new ws).1
unfolding commit_row
commit_row-Consistent old new ws ok same hs = elim (Option-cases (find_work old.id ws)) [
  | inl e ↦ rw (e, commit_row) hs
  | inr (x, e) ↦ rw (e, commit_row) (write_row-Consistent old new ws ok same hs)
]

pub find_work-id : (id : ℕ) (w : WorkRow) (ws : List WorkRow) → find_work id ws ≡ some w → w.id ≡ id
unfolding find_work
find_work-id id w [] e = cc
find_work-id id w (x ∷ xs) e = elim (Bool-cases (x.id == id)) [
  | inl k ↦ ap (λ (v : WorkRow). v.id) (sym (some-injective x w (rw k at e))) ∙ (==_iff x.id id).0 k
  | inr k ↦ find_work-id id w xs (rw k at e)
]
