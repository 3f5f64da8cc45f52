-- ===== src/Spool/Names/Order.antt =====
-- The key by which pending files are sorted reads back the time that `enqueue` wrote.
use mathlib.Core.List.{append_cancel_left, append_cancel_right, tail-eq_of_cons-eq}
use mathlib.Core.Option.{some-injective}
use pipe_vision.Prelude.{
  ℕ, zero, suc, ◌+◌, ◌/◌, ◌%◌, ◌<◌, ◌≡◌, ◌≢◌, refl, sym, ap, ◌∙◌, true, some, [], ◌∷◌, ◌++◌, arith,
  All,
}
use pipe_vision.Prelude.Text.{Text, codes}
use pipe_vision.Spool.Names.{
  digits, decimal, is_digit, int_from, int, before_underscore, oldest_key, suffix, file_name,
}

AllDigits : Text → Type 0
AllDigits = All (λ c. is_digit c ≡ true)

digits-AllDigits : (fuel n : ℕ) (acc : Text) → AllDigits acc → AllDigits (digits fuel n acc)
unfolding AllDigits digits is_digit
digits-AllDigits zero n acc h = h
digits-AllDigits (suc fuel) n acc h =
    ground (arith, digits-AllDigits fuel (n / 10) ((b'0' + n % 10) ∷ acc))

-- Reading the digits of n, and then more, is reading on from n.
int_from-digits :
    (fuel n : ℕ) (acc : Text) → n < fuel → int_from 0 (digits fuel n acc) ≡ int_from n acc
unfolding int_from digits is_digit
int_from-digits zero n acc h = elim h [ ]
int_from-digits (suc fuel) n acc h =
    ground (arith, int_from-digits fuel (n / 10) ((b'0' + n % 10) ∷ acc))

before_underscore-append : (s t : Text) → AllDigits s → before_underscore (s ++ b'_' ∷ t) ≡ s
unfolding AllDigits before_underscore is_digit
before_underscore-append [] t h = refl
before_underscore-append (c ∷ s) t h = ground (arith, before_underscore-append s t)

-- The digits of a number are not nothing.
digits-ne-nil : (fuel n : ℕ) (acc : Text) → (fuel ≡ zero → acc ≢ []) → digits fuel n acc ≢ []
unfolding digits
digits-ne-nil zero n acc h = h refl
digits-ne-nil (suc fuel) n acc h =
    ground (arith, digits-ne-nil fuel (n / 10) ((b'0' + n % 10) ∷ acc))

int-eq-int_from : (s : Text) → s ≢ [] → int s ≡ int_from 0 s
unfolding int
int-eq-int_from [] h = absurd (h refl)
int-eq-int_from (c ∷ s) h = refl

pub int_from-decimal : (n : ℕ) → int_from 0 (decimal n) ≡ some n
unfolding decimal int_from
int_from-decimal n = int_from-digits (suc n) n [] (omega arith)

pub int_from-zero : (t : Text) → int_from 0 (b'0' ∷ t) ≡ int_from 0 t
unfolding int_from is_digit
int_from-zero t = refl

int-decimal : (n : ℕ) → int (decimal n) ≡ some n
unfolding decimal int_from
int-decimal n =
    rw (int-eq-int_from (digits (suc n) n []) (digits-ne-nil (suc n) n [] (λ e. cc)))
      (int_from-digits (suc n) n [] (omega arith))

-- The key of a name that `enqueue` makes starts with the time in it, in whichever attempt and for
-- whichever camera: sorting by the key is sorting by the time of inspection.
pub oldest_key-file_name :
    (ms : ℕ) (cam : Text) (n : ℕ) → oldest_key (file_name ms cam n) ≡ (ms, file_name ms cam n)
unfolding oldest_key file_name decimal AllDigits
oldest_key-file_name ms cam n =
    let rest = cam ++ (suffix n ++ codes ".json") in
    rw (before_underscore-append (decimal ms) rest (digits-AllDigits (suc ms) ms [] tt))
      (rw (int-decimal ms))

suffix_inj : (n m : ℕ) → suffix n ≡ suffix m → n ≡ m
unfolding suffix decimal
suffix_inj zero zero e = refl
suffix_inj zero (suc m) e = cc
suffix_inj (suc n) zero e = cc
suffix_inj (suc n) (suc m) e =
    some-injective (suc n) (suc m)
      (sym (int-decimal (suc n)) ∙ ap int (tail-eq_of_cons-eq e) ∙ int-decimal (suc m))

-- Each attempt has a name of its own.
pub file_name_inj :
    (ms : ℕ) (cam : Text) (n m : ℕ) → file_name ms cam n ≡ file_name ms cam m → n ≡ m
unfolding file_name
file_name_inj ms cam n m e = suffix_inj n m (
    append_cancel_right (suffix n) (suffix m) (codes ".json")
      (append_cancel_left cam _ _ (tail-eq_of_cons-eq (append_cancel_left (decimal ms) _ _ e))))
