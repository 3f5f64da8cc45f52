-- ===== src/Spool/Store/Entries.antt =====
-- Lemmas on a directory as a list of files with distinct names.
use pipe_vision.Prelude.{
  ◌≡◌, ◌⊎◌, ◌∙◌, refl, sym, false, none, some, List, [], ◌∷◌, inl, inr, arith, In, Bool-cases,
}
use pipe_vision.Prelude.Text.{Text, text_eq, text_eq_iff, text_eq_refl}
use pipe_vision.Spool.Store.{Entry, find_entry, unlink_entry, insert_oldest, sort_oldest}

-- No two files have one name.
abbrev pub Distinct : List Entry → Type 0
Distinct [] = Unit
Distinct (e ∷ es) = (find_entry e.name es ≡ none) × Distinct es

pub find-unlink_of_none :
    (n m : Text) (es : List Entry)
    → find_entry n es ≡ none
    → find_entry n (unlink_entry m es) ≡ none
unfolding find_entry unlink_entry
find-unlink_of_none n m [] h = refl
find-unlink_of_none n m (e ∷ es) h = ground (arith, find-unlink_of_none n m es)

pub Distinct-unlink : (m : Text) (es : List Entry) → Distinct es → Distinct (unlink_entry m es)
unfolding unlink_entry
Distinct-unlink m [] h = tt
Distinct-unlink m (e ∷ es) h = ground (arith, Distinct-unlink m es, find-unlink_of_none e.name m es)

pub find-unlink_self :
    (n : Text) (es : List Entry) → Distinct es → find_entry n (unlink_entry n es) ≡ none
unfolding find_entry unlink_entry
find-unlink_self n [] h = refl
find-unlink_self n (e ∷ es) h = ground (arith, find-unlink_self n es, text_eq_iff e.name n)

pub find-name_ne :
    (n : Text) (e : Entry) (es : List Entry)
    → find_entry n es ≡ none
    → In e es
    → text_eq e.name n ≡ false
unfolding find_entry
find-name_ne n e [] h i = absurd i
find-name_ne n e (x ∷ es) h i = ground (arith, find-name_ne n e es)

pub find_of_In :
    (e : Entry) (es : List Entry) → Distinct es → In e es → find_entry e.name es ≡ some e
unfolding find_entry
find_of_In e [] d i = absurd i
find_of_In e (x ∷ es) d (inl p) = rw (← p) (rw text_eq_refl refl)
find_of_In e (x ∷ es) d (inr i) = ground (
  arith,
  find_of_In e es,
  find-name_ne x.name e es,
  text_eq_iff x.name e.name,
  text_eq_iff e.name x.name,
)

pub In-unlink_ne :
    (n : Text) (e : Entry) (es : List Entry)
    → text_eq e.name n ≡ false
    → In e es
    → In e (unlink_entry n es)
unfolding unlink_entry
In-unlink_ne n e [] h i = absurd i
In-unlink_ne n e (x ∷ es) h (inl p) = ground arith
In-unlink_ne n e (x ∷ es) h (inr i) = ground (arith, In-unlink_ne n e es)

pub find-name :
    (n : Text) (x : Entry) (es : List Entry) → find_entry n es ≡ some x → (x.name ≡ n) × In x es
unfolding find_entry
find-name n x [] h = cc
find-name n x (y ∷ es) h = ground (arith, find-name n x es, text_eq_iff y.name n)

-- A file that is pending, or in dead/ under a name that is not pending, is still so after another
-- file, or it, has been moved to dead/.
pub move-In :
    (e x : Entry) (n : Text) (es ds : List Entry)
    → Distinct es
    → find_entry n es ≡ some x
    → In e es ⊎ (In e ds × (find_entry e.name es ≡ none))
    → In e (unlink_entry x.name es)
      ⊎ (In e (x ∷ unlink_entry x.name ds) × (find_entry e.name (unlink_entry x.name es) ≡ none))
move-In e x n es ds d h (inl i) = elim (Bool-cases (text_eq e.name x.name)) [
  | inl same ↦
      let p : e.name ≡ x.name = (text_eq_iff e.name x.name).0 same in
      let found : some x ≡ some e =
        sym h ∙ rw (sym (find-name n x es h).0) (rw (← p) (find_of_In e es d i)) in
      inr (inl (cc), rw p (find-unlink_self x.name es d))
  | inr other ↦ inl (In-unlink_ne x.name e es other i)
]
move-In e x n es ds d h (inr (i, away)) = inr (
  inr (
      In-unlink_ne x.name e ds
        (ground (
          arith,
          find-name_ne e.name x es away (find-name n x es h).1,
          text_eq_iff e.name x.name,
          text_eq_iff x.name e.name,
        ))
        i),
  find-unlink_of_none e.name x.name es away,
)

pub In-of_unlink : (n : Text) (e : Entry) (es : List Entry) → In e (unlink_entry n es) → In e es
unfolding unlink_entry
In-of_unlink n e [] h = h
In-of_unlink n e (x ∷ es) h = ground (arith, In-of_unlink n e es)

In-insert_oldest : (a e : Entry) (es : List Entry) → In a (insert_oldest e es) → In a (e ∷ es)
unfolding insert_oldest
In-insert_oldest a e [] h = h
In-insert_oldest a e (x ∷ xs) h = ground (arith, In-insert_oldest a e xs)

insert_oldest-In : (a e : Entry) (es : List Entry) → In a (e ∷ es) → In a (insert_oldest e es)
unfolding insert_oldest
insert_oldest-In a e [] h = h
insert_oldest-In a e (x ∷ xs) h = ground (arith, insert_oldest-In a e xs)

-- Sorting keeps what there is.
pub In-sort_oldest : (a : Entry) (es : List Entry) → In a (sort_oldest es) → In a es
unfolding sort_oldest
In-sort_oldest a [] h = h
In-sort_oldest a (e ∷ es) h =
    ground (arith, In-insert_oldest a e (sort_oldest es), In-sort_oldest a es)

pub sort_oldest-In : (a : Entry) (es : List Entry) → In a es → In a (sort_oldest es)
unfolding sort_oldest
sort_oldest-In a [] h = h
sort_oldest-In a (e ∷ es) h =
    ground (arith, insert_oldest-In a e (sort_oldest es), sort_oldest-In a es)
