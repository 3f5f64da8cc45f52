-- ===== src/Spool/Names.antt =====
-- `_safe_token`, `_oldest_key`, the file names of `enqueue` and the relative path of an image key
-- (services/vision/worker/spool.py). A file name is the list of its code points. `int` reads the
-- decimal numbers, which is what `enqueue` writes; signs and blanks in a name are not modelled.
pub mod Safe
pub mod Order
use pipe_vision.Prelude.{
  ℕ, zero, suc, ◌+◌, ◌-◌, ◌*◌, ◌/◌, ◌%◌, ◌^◌, Bool, true, false, not, ◌&&◌, ◌||◌, Option, none,
  some, List, [], ◌∷◌, ◌++◌, ltb, leb, ◌==◌, if◌then◌else◌,
}
use pipe_vision.Prelude.Text.{Text, codes, text_eq}

-- [A-Za-z0-9._-]
unfoldable pub is_safe_char : ℕ → Bool
is_safe_char c =
    leb b'A' c && leb c b'Z'
    || leb b'a' c && leb c b'z'
    || leb b'0' c && leb c b'9'
    || c == b'.'
    || c == b'_'
    || c == b'-'

-- The characters that `strip` takes off: Python's white space.
unfoldable pub is_space : ℕ → Bool
is_space c =
    leb 9 c && leb c 13
    || leb 28 c && leb c 32
    || c == 0x85
    || c == 0xa0
    || c == 0x1680
    || leb 0x2000 c && leb c 0x200a
    || c == 0x2028
    || c == 0x2029
    || c == 0x202f
    || c == 0x205f
    || c == 0x3000

-- The characters of `strip("._-")`.
unfoldable pub is_edge_char : ℕ → Bool
is_edge_char c = c == b'.' || c == b'_' || c == b'-'

-- `_UNSAFE.sub("_", s)`: one underscore for each longest run of characters that are not safe.
sub_unsafe : Bool → Text → Text
sub_unsafe in_run [] = []
sub_unsafe in_run (c ∷ s) =
    let rest = sub_unsafe (not (is_safe_char c)) s in
    if is_safe_char c then c ∷ rest else if in_run then rest else b'_' ∷ rest

unfoldable pub lstrip : (ℕ → Bool) → Text → Text
lstrip p [] = []
lstrip p (c ∷ s) = let rest = lstrip p s in if p c then rest else c ∷ s

abbrev is_empty : Text → Bool
is_empty [] = true
is_empty (_ ∷ _) = false

unfoldable pub rstrip : (ℕ → Bool) → Text → Text
rstrip p [] = []
rstrip p (c ∷ s) = let rest = rstrip p s in if is_empty rest && p c then [] else c ∷ rest

unfoldable pub strip : (ℕ → Bool) → Text → Text
unfolding lstrip rstrip
strip p s = rstrip p (lstrip p s)

abbrev text_or : Option Text → Text
text_or none = []
text_or (some s) = s

abbrev or_fallback : Text → Text → Text
or_fallback [] fallback = fallback
or_fallback (c ∷ s) fallback = c ∷ s

abbrev pub not_available : Text
not_available = codes "NA"

unfoldable pub safe_token : Option Text → Text
unfolding strip sub_unsafe is_space rstrip lstrip
safe_token value =
    or_fallback (strip is_edge_char (sub_unsafe false (strip is_space (text_or value))))
      not_available

-- str(n): the digits of n in front of `acc`. The fuel is never used up, since n / 10 is below n.
digits : ℕ → ℕ → Text → Text
digits zero n acc = acc
digits (suc fuel) n acc =
    let acc' = (b'0' + n % 10) ∷ acc in
    let rest = digits fuel (n / 10) acc' in if ltb n 10 then acc' else rest

unfoldable pub decimal : ℕ → Text
unfolding digits
decimal n = digits (suc n) n []

unfoldable pub is_digit : ℕ → Bool
is_digit c = leb b'0' c && leb c b'9'

unfoldable pub int_from : ℕ → Text → Option ℕ
int_from acc [] = some acc
int_from acc (c ∷ s) = if is_digit c then int_from (acc * 10 + (c - b'0')) s else none

-- int(s), none for a ValueError.
unfoldable pub int : Text → Option ℕ
unfolding int_from is_digit
int [] = none
int (c ∷ s) = int_from 0 (c ∷ s)

-- name.split("_", 1)[0]
before_underscore : Text → Text
before_underscore [] = []
before_underscore (c ∷ s) = let rest = before_underscore s in if c == b'_' then [] else c ∷ rest

abbrev or_far_future : Option ℕ → ℕ
or_far_future none = 2 ^ 62
or_far_future (some ms) = ms

-- The key that pending files are sorted by.
unfoldable pub oldest_key : Text → ℕ × Text
unfolding int before_underscore
oldest_key name = (or_far_future (int (before_underscore name)), name)

-- f"{ms}_{cam}.json", and f"{ms}_{cam}-{n}.json" from the second attempt on.
suffix : ℕ → Text
unfolding decimal
suffix zero = []
suffix (suc n) = b'-' ∷ decimal (suc n)

unfoldable pub file_name : ℕ → Text → ℕ → Text
unfolding suffix decimal
file_name ms cam n = decimal ms ++ b'_' ∷ (cam ++ (suffix n ++ codes ".json"))

-- The parts of Path(key.lstrip("/")): between slashes, without the empty ones and the dots.
split_slash : Text → Text → List Text
split_slash part [] = part ∷ []
split_slash part (c ∷ s) = elim (c == b'/') [
  | true ↦ part ∷ split_slash [] s
  | false ↦ split_slash (part ++ c ∷ []) s
]

real_parts : List Text → List Text
real_parts [] = []
real_parts (p ∷ ps) =
    let rest = real_parts ps in if is_empty p || text_eq p (codes ".") then rest else p ∷ rest

-- A part ".." is left as it is: `save_image` takes no key that has one.
unfoldable pub path_parts : Text → List Text
unfolding split_slash real_parts
path_parts key = real_parts (split_slash [] key)

-- ".." in rel.parts
unfoldable pub has_parent_step : List Text → Bool
has_parent_step [] = false
has_parent_step (p ∷ ps) = text_eq p (codes "..") || has_parent_step ps
