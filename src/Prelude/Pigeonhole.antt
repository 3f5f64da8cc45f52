-- ===== src/Prelude/Pigeonhole.antt =====
-- More different values than a list has places are not all in it.
use Prim.Native.Nat.{ℕ, zero, suc, ◌+◌, ◌≤◌, ◌<◌}
use mathlib.Core.Path.{◌≡◌, refl, sym, ◌∙◌}
use mathlib.Core.Logic.{◌≢◌, inl, inr}
use mathlib.Core.List.{List, [], ◌∷◌}
use native.Mathlib.Omega.{arith}
use pipe_vision.Prelude.Lists.{length, In}

-- The list without the place that the membership shows.
without : {A : Type 0} (a : A) (xs : List A) → In a xs → List A
without a [] h = absurd h
without a (x ∷ xs) (inl e) = xs
without a (x ∷ xs) (inr h) = x ∷ without a xs h

length-without :
    {A : Type 0} (a : A) (xs : List A) (h : In a xs) → suc (length (without a xs h)) ≡ length xs
unfolding without
length-without a [] h = absurd h
length-without a (x ∷ xs) (inl e) = refl
length-without a (x ∷ xs) (inr h) = omega (arith, length-without a xs h)

In-without :
    {A : Type 0} (a b : A) (xs : List A) (h : In a xs) → a ≢ b → In b xs → In b (without a xs h)
unfolding without
In-without a b [] h ne k = absurd h
In-without a b (x ∷ xs) (inl e) ne (inl f) = absurd (ne (sym e ∙ f))
In-without a b (x ∷ xs) (inl e) ne (inr k) = k
In-without a b (x ∷ xs) (inr h) ne (inl f) = inl f
In-without a b (x ∷ xs) (inr h) ne (inr k) = inr (In-without a b xs h ne k)

-- The values of an injective function at m numbers in a row need m places.
pub pigeonhole :
    {A : Type 0} (g : ℕ → A) (m k : ℕ) (xs : List A)
    → ((i j : ℕ) → g i ≡ g j → i ≡ j)
    → ((i : ℕ) → k ≤ i → i < k + m → In (g i) xs)
    → m ≤ length xs
pigeonhole g zero k xs inj h = omega arith
pigeonhole g (suc m) k xs inj h =
    let first = h k (omega arith) (omega arith) in
    let rest : m ≤ length (without (g k) xs first) =
      pigeonhole g m (suc k) (without (g k) xs first) inj (λ i lo hi.
        In-without (g k) (g i) xs first (λ e. absurd (ne i lo (inj k i e)))
          (h i (omega arith) (omega arith))) in
    omega (arith, length-without (g k) xs first)
  where
    ne : (i : ℕ) → suc k ≤ i → ¬ (k ≡ i)
    ne i lo e = omega arith
