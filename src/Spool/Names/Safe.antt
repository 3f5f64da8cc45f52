-- ===== src/Spool/Names/Safe.antt =====
-- What `_safe_token` returns can stand in a file name.
use pipe_vision.Prelude.{ℕ, ◌≡◌, Bool, true, false, not, Option, [], ◌∷◌, arith, All}
use pipe_vision.Prelude.Text.{Text}
use pipe_vision.Spool.Names.{
  is_safe_char, is_edge_char, sub_unsafe, lstrip, rstrip, strip, or_fallback, text_or, is_space,
  safe_token, not_available,
}

abbrev IsSafe : ℕ → Type 0
IsSafe c = is_safe_char c ≡ true

abbrev pub AllSafe : Text → Type 0
AllSafe = All (λ c. is_safe_char c ≡ true)

-- The first character is there and is none of "._-".
abbrev pub HasFirst : Text → Type 0
HasFirst [] = ⊥
HasFirst (c ∷ s) = is_edge_char c ≡ false

sub_unsafe-AllSafe : (in_run : Bool) (s : Text) → AllSafe (sub_unsafe in_run s)
unfolding sub_unsafe is_safe_char
sub_unsafe-AllSafe in_run [] = tt
sub_unsafe-AllSafe in_run (c ∷ s) = ground (arith, sub_unsafe-AllSafe (not (is_safe_char c)) s)

lstrip-AllSafe : (p : ℕ → Bool) (s : Text) → AllSafe s → AllSafe (lstrip p s)
unfolding lstrip
lstrip-AllSafe p [] h = tt
lstrip-AllSafe p (c ∷ s) h = ground (arith, lstrip-AllSafe p s)

rstrip-AllSafe : (p : ℕ → Bool) (s : Text) → AllSafe s → AllSafe (rstrip p s)
unfolding rstrip
rstrip-AllSafe p [] h = tt
rstrip-AllSafe p (c ∷ s) h = ground (arith, rstrip-AllSafe p s)

strip-AllSafe : (p : ℕ → Bool) (s : Text) → AllSafe s → AllSafe (strip p s)
unfolding strip
strip-AllSafe p s h = rstrip-AllSafe p (lstrip p s) (lstrip-AllSafe p s h)

-- Empty, or starting with a character that `strip` does not take off.
abbrev StartsOutside : (ℕ → Bool) → Text → Type 0
StartsOutside p [] = Unit
StartsOutside p (c ∷ s) = p c ≡ false

lstrip-StartsOutside : (p : ℕ → Bool) (s : Text) → StartsOutside p (lstrip p s)
unfolding lstrip
lstrip-StartsOutside p [] = tt
lstrip-StartsOutside p (c ∷ s) = ground (arith, lstrip-StartsOutside p s)

rstrip-StartsOutside : (p : ℕ → Bool) (s : Text) → StartsOutside p s → StartsOutside p (rstrip p s)
unfolding rstrip
rstrip-StartsOutside p [] h = tt
rstrip-StartsOutside p (c ∷ s) h = ground arith

or_fallback-IsToken :
    (s : Text)
    → AllSafe s
    → StartsOutside is_edge_char s
    → AllSafe (or_fallback s not_available) × HasFirst (or_fallback s not_available)
unfolding is_safe_char is_edge_char
or_fallback-IsToken [] h k = ground arith
or_fallback-IsToken (c ∷ s) h k = (h, k)

-- Whatever the camera's name, its token is not empty, is made of [A-Za-z0-9._-] and does not start
-- with one of "._-": it names no other directory and no hidden file.
pub safe_token-AllSafe :
    (value : Option Text) → AllSafe (safe_token value) × HasFirst (safe_token value)
unfolding safe_token strip
safe_token-AllSafe value =
    let cleaned = sub_unsafe false (strip is_space (text_or value)) in
    or_fallback-IsToken (strip is_edge_char cleaned)
      (strip-AllSafe is_edge_char cleaned
        (sub_unsafe-AllSafe false (strip is_space (text_or value))))
      (rstrip-StartsOutside is_edge_char (lstrip is_edge_char cleaned)
        (lstrip-StartsOutside is_edge_char cleaned))
