-- ===== src/Mes/Numbers.antt =====
-- The numbers that orders, lots, shipments and claims are given (`next_no` of
-- services/mes/mes_app/common.py). A column is the list of its texts; `LIKE` takes case into account.
use mathlib.Core.List.{append_cancel_left}
use mathlib.Core.Option.{some-injective}
use native.Mathlib.Decide.{dec_le}
use pipe_vision.Prelude.{
  ℕ, zero, suc, ◌+◌, ◌-◌, ◌≤◌, ◌<◌, ◌≡◌, ◌⊎◌, refl, sym, ap, ◌∙◌, Bool, true, false, ◌||◌, List, [],
  ◌∷◌, ◌++◌, inl, inr, arith, In, Bool-cases, length, some, if◌then◌else◌,
}
use pipe_vision.Prelude.Text.{Text, codes, text_eq, text_eq_iff}
use pipe_vision.Prelude.Pigeonhole.{pigeonhole}
use pipe_vision.Spool.Names.{decimal, int_from}
use pipe_vision.Spool.Names.Order.{int_from-decimal, int_from-zero}
use pipe_vision.Api.Rows.{starts_with}

zeros : ℕ → Text → Text
zeros zero t = t
zeros (suc k) t = b'0' ∷ zeros k t

-- f"{n:0{width}d}"
pad : ℕ → ℕ → Text
unfolding zeros decimal
pad width n = zeros (width - length (decimal n)) (decimal n)

-- The texts of the column that start with the head.
count_like : Text → List Text → ℕ
unfolding starts_with
count_like head [] = 0
count_like head (t ∷ ts) =
    let rest = count_like head ts in if starts_with t head then suc rest else rest

unfoldable pub is_taken : Text → List Text → Bool
is_taken t [] = false
is_taken t (u ∷ us) = text_eq u t || is_taken t us

-- The loop that looks for a free number.
free_from : ℕ → ℕ → Text → ℕ → List Text → ℕ
unfolding is_taken pad
free_from zero n head width column = n
free_from (suc fuel) n head width column =
    let next = free_from fuel (n + 1) head width column in
    if is_taken (head ++ pad width n) column then next else n

abbrev pub head_of : Text → Text → Text
head_of prefix day = prefix ++ codes "-" ++ day ++ codes "-"

unfoldable pub next_no : Text → ℕ → Text → List Text → Text
unfolding count_like free_from pad
next_no prefix width day column =
    let head = head_of prefix day in
    let n = count_like head column + 1 in
    head ++ pad width (free_from (length column) n head width column)

int_from-zeros : (k : ℕ) (t : Text) → int_from 0 (zeros k t) ≡ int_from 0 t
unfolding zeros
int_from-zeros zero t = refl
int_from-zeros (suc k) t = int_from-zero (zeros k t) ∙ int_from-zeros k t

pad_inj : (width n m : ℕ) → pad width n ≡ pad width m → n ≡ m
unfolding pad
pad_inj width n m e = some-injective n m (sym (value n) ∙ ap (int_from 0) e ∙ value m)
  where
    value : (k : ℕ) → int_from 0 (pad width k) ≡ some k
    value k = int_from-zeros (width - length (decimal k)) (decimal k) ∙ int_from-decimal k

candidate_inj : (head : Text) (width n m : ℕ) → head ++ pad width n ≡ head ++ pad width m → n ≡ m
candidate_inj head width n m e =
    pad_inj width n m (append_cancel_left head (pad width n) (pad width m) e)

In-of_taken : (t : Text) (column : List Text) → is_taken t column ≡ true → In t column
unfolding is_taken
In-of_taken t [] h = cc
In-of_taken t (u ∷ us) h = ground (arith, In-of_taken t us, text_eq_iff u t)

-- Either the number found is free, or all that were tried are taken.
free_from-cases :
    (fuel n : ℕ) (head : Text) (width : ℕ) (column : List Text)
    → (is_taken (head ++ pad width (free_from fuel n head width column)) column ≡ false)
      ⊎ ((i : ℕ) → n ≤ i → i < n + suc fuel → In (head ++ pad width i) column)
unfolding free_from
free_from-cases zero n head width column =
    elim (Bool-cases (is_taken (head ++ pad width n) column)) [
      | inr free ↦ inl free
      | inl taken ↦ inr λ i lo hi.
          let only : n ≡ i = omega arith in
          rw (← only) (In-of_taken (head ++ pad width n) column taken)
    ]
free_from-cases (suc fuel) n head width column =
    elim (Bool-cases (is_taken (head ++ pad width n) column)) [
      | inr free ↦ inl (rw (free, free_from) free)
      | inl taken ↦
          rw (taken, free_from)
            (elim (free_from-cases fuel (n + 1) head width column) [
              | inl free ↦ inl free
              | inr rest ↦ inr λ i lo hi. elim (dec_le i n) [
                | yes at ↦
                    let only : n ≡ i = omega arith in
                    rw (← only) (In-of_taken (head ++ pad width n) column taken)
                | no past ↦ rest i (omega arith) (omega arith)
              ]
            ])
    ]

-- The search for a number ends, within as many rounds as the column has texts, with one that the
-- column does not have.
pub next_no-fresh :
    (prefix : Text) (width : ℕ) (day : Text) (column : List Text)
    → is_taken (next_no prefix width day column) column ≡ false
unfolding next_no
next_no-fresh prefix width day column =
    let head = head_of prefix day in
    let n = count_like head column + 1 in
    elim (free_from-cases (length column) n head width column) [
      | inl free ↦ free
      | inr taken ↦ absurd (
          omega (
            arith,
            pigeonhole (λ i. head ++ pad width i) (suc (length column)) n column
                (candidate_inj head width) taken,
          ))
    ]
