-- ===== src/Trigger/Files.antt =====
-- `FileWatchTrigger` of services/vision/acquisition/trigger.py: a picture is taken when a new image
-- file appears. A set of files is the list of their names. What the directory holds in each round of a
-- wait is an input; the rounds are those until the deadline.
use pipe_vision.Prelude.{
  ◌+◌, ◌≡◌, refl, Bool, true, false, ◌&&◌, ◌||◌, Option, none, some, List, [], ◌∷◌, ◌++◌, ◌==◌, leb,
  arith, All, if◌then◌else◌,
}
use pipe_vision.Prelude.Text.{Text, codes, text_eq}

lower : Text → Text
lower [] = []
lower (c ∷ s) = (if leb b'A' c && leb c b'Z' then c + 32 else c) ∷ lower s

unfoldable pub member : Text → List Text → Bool
member n [] = false
member n (m ∷ ms) = text_eq m n || member n ms

-- What follows the last dot, with it.
last_dot : Text → Option Text
last_dot [] = none
last_dot (c ∷ s) = elim (last_dot s) [
  | some t ↦ some t
  | none ↦ if c == b'.' then some (c ∷ s) else none
]

-- Path(name).suffix; a dot in the first place starts none.
suffix : Text → Text
unfolding last_dot
suffix [] = []
suffix (c ∷ s) = elim (last_dot s) [ none ↦ [] | some t ↦ t ]

abbrev exts : List Text
exts = codes ".jpg" ∷ codes ".jpeg" ∷ codes ".png" ∷ codes ".bmp" ∷ []

-- `_list`, of the files of the directory.
unfoldable pub images_of : List Text → List Text
unfolding member suffix lower
images_of [] = []
images_of (n ∷ ns) =
    let rest = images_of ns in if member (lower (suffix n)) exts then n ∷ rest else rest

unfoldable pub all_members : List Text → List Text → Bool
unfolding member
all_members [] seen = true
all_members (n ∷ ns) seen = member n seen && all_members ns seen

-- The trigger as `__init__` leaves it: the files that are there do not fire.
pub new_watch : List Text → List Text
unfolding images_of
new_watch files = images_of files

-- `wait_for_trigger`: whether a new file came, and the files seen.
pub watch_files : List (List Text) → List Text → Bool × List Text
unfolding images_of all_members
watch_files [] seen = (false, seen)
watch_files (files ∷ rounds) seen =
    let current = images_of files in
    elim (all_members current seen) [
      | false ↦ (true, current)
      | true ↦ watch_files rounds (seen ++ current)
    ]

-- The images of one listing are among those of another.
abbrev pub Within : List Text → List Text → Type 0
Within files seen = all_members (images_of files) seen ≡ true

member-append : (n : Text) (xs ys : List Text) → member n xs ≡ true → member n (xs ++ ys) ≡ true
unfolding member
member-append n [] ys h = cc
member-append n (x ∷ xs) ys h = ground (arith, member-append n xs ys)

all_members-append :
    (ns xs ys : List Text) → all_members ns xs ≡ true → all_members ns (xs ++ ys) ≡ true
unfolding all_members
all_members-append [] xs ys h = refl
all_members-append (n ∷ ns) xs ys h =
    ground (arith, member-append n xs ys, all_members-append ns xs ys)

All-Within :
    (rounds : List (List Text)) (xs ys : List Text)
    → All (λ files. Within files xs) rounds
    → All (λ files. Within files (xs ++ ys)) rounds
All-Within [] xs ys a = tt
All-Within (files ∷ rounds) xs ys (h, a) =
    (all_members-append (images_of files) xs ys h, All-Within rounds xs ys a)

-- However long a wait goes on, files that were seen before do not fire: if the images of each round
-- are among those seen, no picture is taken.
pub seen_files_are_silent :
    (rounds : List (List Text)) (seen : List Text)
    → All (λ files. Within files seen) rounds
    → (watch_files rounds seen).0 ≡ false
unfolding watch_files
seen_files_are_silent [] seen a = refl
seen_files_are_silent (files ∷ rounds) seen (h, a) =
    rw (h, watch_files)
      (seen_files_are_silent rounds (seen ++ images_of files)
        (All-Within rounds seen (images_of files) a))
