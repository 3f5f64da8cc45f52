-- ===== src/Api/Alarm.antt =====
-- The counters of NG verdicts in a row for each camera (services/api/ws/alarm.py). The lock of the code
-- makes each operation one step.
use pipe_vision.Prelude.{
  ℕ, ◌+◌, ◌≡◌, refl, Bool, inl, inr, Bool-cases, List, [], ◌∷◌, arith, if◌then◌else◌,
}
use pipe_vision.Prelude.Text.{Text, text_eq, text_eq_iff}

abbrev pub Counts : Type 0
Counts = List (Text × ℕ)

-- `current`
unfoldable pub current : Text → Counts → ℕ
current cam [] = 0
current cam ((c, n) ∷ counts) = if text_eq c cam then n else current cam counts

unfoldable pub set_count : Text → ℕ → Counts → Counts
set_count cam n [] = (cam, n) ∷ []
set_count cam n ((c, m) ∷ counts) =
    if text_eq c cam then (c, n) ∷ counts else (c, m) ∷ set_count cam n counts

-- `record`: the count of the camera after a verdict, which is NG or not.
unfoldable pub record_verdict : Text → Bool → Counts → ℕ × Counts
unfolding current set_count
record_verdict cam is_ng counts =
    let n = if is_ng then current cam counts + 1 else 0 in (n, set_count cam n counts)

unfoldable pub record_all : List (Text × Bool) → Counts → Counts
unfolding record_verdict
record_all [] counts = counts
record_all ((cam, is_ng) ∷ vs) counts = record_all vs (record_verdict cam is_ng counts).1

current-set_count :
    (cam other : Text) (n : ℕ) (counts : Counts)
    → current other (set_count cam n counts)
      ≡ (if text_eq cam other then n else current other counts)
unfolding current set_count
current-set_count cam other n [] = refl
current-set_count cam other n ((c, m) ∷ counts) = ground (
  arith,
  text_eq_iff c cam,
  text_eq_iff c other,
  text_eq_iff cam other,
  current-set_count cam other n counts,
)

-- The NG verdicts of a camera since its last other verdict, from what they were before.
abbrev pub run_of : Text → List (Text × Bool) → ℕ → ℕ
run_of cam [] n = n
run_of cam ((c, is_ng) ∷ vs) n =
    run_of cam vs (if text_eq c cam then (if is_ng then n + 1 else 0) else n)

-- After any verdicts, of any cameras and in any order, the count of a camera is the number of its NG
-- verdicts since its last other one.
pub record_all-run_of :
    (cam : Text) (vs : List (Text × Bool)) (counts : Counts)
    → current cam (record_all vs counts) ≡ run_of cam vs (current cam counts)
unfolding record_all record_verdict
record_all-run_of cam [] counts = refl
record_all-run_of cam ((c, is_ng) ∷ vs) counts =
    let n = if is_ng then current c counts + 1 else 0 in
    rw (record_all-run_of cam vs (set_count c n counts), current-set_count c cam n counts)
      (elim (Bool-cases (text_eq c cam)) [
        | inl e ↦ rw (e, (text_eq_iff c cam).0 e) refl
        | inr e ↦ rw e refl
      ])
