-- ===== src/Worker/Client/Waiting.antt =====
-- The waits of services/vision/worker/client.py: `wait_for_api` and `fetch_item`.
use pipe_vision.Prelude.{
  ℕ, zero, suc, ◌+◌, ◌*◌, ◌≤◌, ◌≡◌, refl, true, false, Option, none, some, inl, inr, arith, max,
  ltb, Bool-cases, Option-cases,
}
use pipe_vision.Prelude.Text.{Text}
use pipe_vision.Worker.Client.{
  Http, Link, wait_loop, wait_for_api, fetch_loop, fetch_item, fetch_round, health_ok, next_delay,
  first_delay, second,
}

-- An answer, whatever it is.
abbrev pub Answers {ℓ} : {A : Type ℓ} → Option A → Type ℓ
Answers {A} o = (a : A) × (o ≡ some a)

-- A sleep is not made shorter.
next_delay-first_delay : (d : ℕ) → first_delay ≤ d → first_delay ≤ next_delay d
next_delay-first_delay d h = ground arith

not_yet : (now deadline : ℕ) → ltb now deadline ≡ true → ¬ (deadline ≤ now + 0)
not_yet now deadline e h = ground arith

closer :
    (now f took deadline delay : ℕ)
    → deadline ≤ now + suc f * first_delay
    → first_delay ≤ delay
    → deadline ≤ now + took + delay + f * first_delay
closer now f took deadline delay h d = omega arith

module _ {S : Type 0} (http : Http S) where
  wait_loop-Answers :
      (fuel now deadline delay : ℕ) (l : Link S)
      → deadline ≤ now + fuel * first_delay
      → first_delay ≤ delay
      → Answers (wait_loop http (suc fuel) now deadline delay l).0
  unfolding wait_loop
  wait_loop-Answers zero now deadline delay l h d = elim (Bool-cases (ltb now deadline)) [
    | inr e ↦ rw (e, wait_loop) (false, refl)
    | inl e ↦ absurd (not_yet now deadline e h)
  ]
  wait_loop-Answers (suc f) now deadline delay l h d = elim (Bool-cases (ltb now deadline)) [
    | inr e ↦ rw (e, wait_loop) (false, refl)
    | inl e ↦ elim (Bool-cases (health_ok http l).0) [
      | inl up ↦ rw (e, up, wait_loop) (true, refl)
      | inr down ↦
          rw (e, down, wait_loop)
            (wait_loop-Answers f (now + http.took l.server + delay) deadline (next_delay delay)
              (health_ok http l).1 (closer now f (http.took l.server) deadline delay h d)
              (next_delay-first_delay delay d))
    ]
  ]

  -- Waiting for the server ends with an answer.
  pub wait_for_api-Answers :
      (timeout_s now : ℕ) (l : Link S) → Answers (wait_for_api http timeout_s now l).0
  unfolding wait_for_api
  wait_for_api-Answers timeout_s now l =
      wait_loop-Answers (max 1 timeout_s * 2) now (now + max 1 timeout_s * second) first_delay l
        (omega arith) (omega arith)

  fetch_loop-Answers :
      (fuel now deadline delay : ℕ) (code : Text) (l : Link S)
      → deadline ≤ now + fuel * first_delay
      → first_delay ≤ delay
      → Answers (fetch_loop http (suc fuel) now deadline delay code l).0
  unfolding fetch_loop
  fetch_loop-Answers zero now deadline delay code l h d = elim (Bool-cases (ltb now deadline)) [
    | inr e ↦ rw (e, fetch_loop) (none, refl)
    | inl e ↦ absurd (not_yet now deadline e h)
  ]
  fetch_loop-Answers (suc f) now deadline delay code l h d = elim (Bool-cases (ltb now deadline)) [
    | inr e ↦ rw (e, fetch_loop) (none, refl)
    | inl e ↦ elim (Option-cases (fetch_round http code l).0) [
      | inr (item, up) ↦ rw (e, up, fetch_loop) (some item, refl)
      | inl down ↦
          rw (e, down, fetch_loop)
            (fetch_loop-Answers f (now + http.took l.server + delay) deadline (next_delay delay)
              code (fetch_round http code l).1
              (closer now f (http.took l.server) deadline delay h d)
              (next_delay-first_delay delay d))
    ]
  ]

  -- Waiting for a recipe ends with an answer.
  pub fetch_item-Answers :
      (timeout_s now : ℕ) (code : Text) (l : Link S)
      → Answers (fetch_item http timeout_s now code l).0
  unfolding fetch_item
  fetch_item-Answers timeout_s now code l =
      fetch_loop-Answers (max 1 timeout_s * 2) now (now + max 1 timeout_s * second) first_delay code
        l (omega arith) (omega arith)
