-- ===== src/Spool/Store/Fresh.antt =====
-- The loop of `enqueue` finds a name that no pending file has.
use mathlib.Core.Logic.{⊎_map}
use native.Mathlib.Decide.{dec_le}
use pipe_vision.Prelude.{
  ℕ, zero, suc, ◌+◌, ◌≤◌, ◌<◌, ◌≡◌, ◌⊎◌, refl, ap, none, some, List, [], ◌∷◌, inl, inr, arith, In,
  Option-cases, length,
}
use pipe_vision.Prelude.Text.{Text, text_eq_iff}
use pipe_vision.Prelude.Pigeonhole.{pigeonhole}
use pipe_vision.Spool.Names.{file_name, safe_token}
use pipe_vision.Spool.Names.Order.{file_name_inj}
use pipe_vision.Spool.Store.{Entry, Payload, find_entry, free_number, free_name, cam_or_default}

abbrev names : List Entry → List Text
names [] = []
names (e ∷ es) = e.name ∷ names es

length-names : (es : List Entry) → length (names es) ≡ length es
length-names [] = refl
length-names (e ∷ es) = ap suc (length-names es)

In-names : (n : Text) (e : Entry) (es : List Entry) → find_entry n es ≡ some e → In n (names es)
unfolding find_entry
In-names n e [] h = cc
In-names n e (x ∷ es) h = ground (arith, In-names n e es, text_eq_iff x.name n)

-- Either the number found is free, or all that were tried are taken.
free_number-cases :
    (fuel n ms : ℕ) (cam : Text) (es : List Entry)
    → (find_entry (file_name ms cam (free_number fuel n ms cam es)) es ≡ none)
      ⊎ ((i : ℕ) → n ≤ i → i < n + suc fuel → In (file_name ms cam i) (names es))
unfolding free_number
free_number-cases zero n ms cam es = elim (Option-cases (find_entry (file_name ms cam n) es)) [
  | inl free ↦ inl free
  | inr (e, taken) ↦ inr λ i lo hi.
      let only : n ≡ i = omega arith in rw (← only) (In-names (file_name ms cam n) e es taken)
]
free_number-cases (suc fuel) n ms cam es =
    elim (Option-cases (find_entry (file_name ms cam n) es)) [
      | inl free ↦ inl (rw (free, free_number) free)
      | inr (e, taken) ↦
          rw (taken, free_number)
            (⊎_map (λ free. free)
              (λ rest i lo hi. elim (dec_le i n) [
                | yes at ↦
                    let only : n ≡ i = omega arith in
                    rw (← only) (In-names (file_name ms cam n) e es taken)
                | no past ↦ rest i (omega arith) (omega arith)
              ])
              (free_number-cases fuel (n + 1) ms cam es))
    ]

-- `enqueue` writes to a name that no pending file has, so it overwrites none; the search for the
-- name ends within as many rounds as there are pending files.
pub free_name-fresh : (p : Payload) (es : List Entry) → find_entry (free_name p es) es ≡ none
unfolding free_name
free_name-fresh p es =
    let cam = safe_token (cam_or_default p.cam_id) in
    let ms = p.inspected_ms in
    elim (free_number-cases (length es) 0 ms cam es) [
      | inl free ↦ free
      | inr taken ↦ absurd (
          omega (
            arith,
            length-names es,
            pigeonhole (file_name ms cam) (suc (length es)) 0 (names es) (file_name_inj ms cam)
                taken,
          ))
    ]
