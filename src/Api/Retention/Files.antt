-- ===== src/Api/Retention/Files.antt =====
-- Deleting pictures from a directory in which names are distinct (services/api/core/retention.py).
use pipe_vision.Prelude.{
  Bool, true, false, ◌&&◌, List, [], ◌∷◌, ◌≡◌, refl, sym, ◌∙◌, ap, arith, inl, inr, Bool-cases, All,
  In,
}
use pipe_vision.Prelude.Text.{text_eq, text_eq_iff, text_eq_refl}
use pipe_vision.Api.Retention.{
  Picture, Dir, raw, result, review, dir_eq, same_file, remove_picture, select,
}

-- No two pictures have one directory and name.
abbrev pub Distinct : List Picture → Type 0
Distinct [] = Unit
Distinct (p ∷ ps) = All (λ q. same_file p q ≡ false) ps × Distinct ps

pub same_file_refl : (p : Picture) → same_file p p ≡ true
unfolding same_file dir_eq
same_file_refl p = elim p.dir as (λ d. (dir_eq d d && text_eq p.name p.name) ≡ true) [
  | raw ↦ text_eq_refl p.name
  | result ↦ text_eq_refl p.name
  | review ↦ text_eq_refl p.name
]

pub dir_eq-eq : (d e : Dir) → dir_eq d e ≡ true → d ≡ e
unfolding dir_eq
dir_eq-eq raw raw h = refl
dir_eq-eq result result h = refl
dir_eq-eq review review h = refl
dir_eq-eq raw result h = cc
dir_eq-eq raw review h = cc
dir_eq-eq result raw h = cc
dir_eq-eq result review h = cc
dir_eq-eq review raw h = cc
dir_eq-eq review result h = cc

pub dir_eq_refl : (d : Dir) → dir_eq d d ≡ true
unfolding dir_eq
dir_eq_refl raw = refl
dir_eq_refl result = refl
dir_eq_refl review = refl

and-true : (a b : Bool) → (a && b) ≡ true → (a ≡ true) × (b ≡ true)
and-true a b h = ground arith

same_file-of : (p q r : Picture) → same_file p q ≡ true → same_file p r ≡ same_file q r
unfolding same_file
same_file-of p q r h =
    let (d, t) = and-true _ _ h in
    rw (dir_eq-eq p.dir q.dir d, (text_eq_iff p.name q.name).0 t) refl

pub same_file-sym : (p q : Picture) → same_file p q ≡ same_file q p
same_file-sym p q = elim (Bool-cases (same_file p q)) [
  | inl e ↦ e ∙ sym (sym (same_file-of p q p e) ∙ same_file_refl p)
  | inr e ↦ elim (Bool-cases (same_file q p)) [
    | inl k ↦ absurd (false_ne e (sym (same_file-of q p q k) ∙ same_file_refl q))
    | inr k ↦ e ∙ sym k
  ]
]
  where
    false_ne : {b : Bool} → b ≡ false → b ≡ true → ⊥
    false_ne h k = cc

pub All-In : (P : Picture → Type 0) (q : Picture) (ps : List Picture) → All P ps → In q ps → P q
All-In P q [] h i = absurd i
All-In P q (p ∷ ps) h (inl e) = rw (← e) h.0
All-In P q (p ∷ ps) h (inr i) = All-In P q ps h.1 i

-- In a list of distinct pictures a file is one picture.
pub one_picture :
    (ps : List Picture) (p q : Picture)
    → Distinct ps
    → In p ps
    → In q ps
    → same_file p q ≡ true
    → p ≡ q
one_picture [] p q d i j h = absurd i
one_picture (x ∷ xs) p q d (inl e) (inl f) h = sym e ∙ f
one_picture (x ∷ xs) p q d (inl e) (inr j) h =
    cc (rw (← e) at h, All-In (λ z. same_file x z ≡ false) q xs d.0 j)
one_picture (x ∷ xs) p q d (inr i) (inl f) h =
    cc (rw (← f) at h, same_file-sym p x, All-In (λ z. same_file x z ≡ false) p xs d.0 i)
one_picture (x ∷ xs) p q d (inr i) (inr j) h = one_picture xs p q d.1 i j h

pub In-of_remove : (p q : Picture) (ps : List Picture) → In q (remove_picture p ps) → In q ps
unfolding remove_picture
In-of_remove p q [] i = i
In-of_remove p q (x ∷ xs) i = elim (Bool-cases (same_file x p)) [
  | inl e ↦ inr (rw e at i)
  | inr e ↦ ground (arith, In-of_remove p q xs)
]

pub In-remove_ne :
    (p q : Picture) (ps : List Picture)
    → same_file q p ≡ false
    → In q ps
    → In q (remove_picture p ps)
unfolding remove_picture
In-remove_ne p q [] ne i = i
In-remove_ne p q (x ∷ xs) ne (inl e) = rw (ap (λ z. same_file z p) e ∙ ne) (inl e)
In-remove_ne p q (x ∷ xs) ne (inr i) = elim (Bool-cases (same_file x p)) [
  | inl e ↦ rw e i
  | inr e ↦ rw e (inr (In-remove_ne p q xs ne i))
]

All-remove :
    (P : Picture → Type 0) (p : Picture) (ps : List Picture)
    → All P ps
    → All P (remove_picture p ps)
unfolding remove_picture
All-remove P p [] h = h
All-remove P p (x ∷ xs) h = elim (Bool-cases (same_file x p)) [
  | inl e ↦ rw e h.1
  | inr e ↦ rw e (h.0, All-remove P p xs h.1)
]

pub Distinct-remove :
    (p : Picture) (ps : List Picture) → Distinct ps → Distinct (remove_picture p ps)
unfolding remove_picture
Distinct-remove p [] d = d
Distinct-remove p (x ∷ xs) d = elim (Bool-cases (same_file x p)) [
  | inl e ↦ rw e d.1
  | inr e ↦ rw e (All-remove (λ q. same_file x q ≡ false) p xs d.0, Distinct-remove p xs d.1)
]

pub remove-gone : (p : Picture) (ps : List Picture) → Distinct ps → ¬ In p (remove_picture p ps)
unfolding remove_picture
remove-gone p [] d i = i
remove-gone p (x ∷ xs) d i = elim (Bool-cases (same_file x p)) [
  | inl e ↦ cc (All-In (λ q. same_file x q ≡ false) p xs d.0 (rw e at i))
  | inr e ↦ elim (rw e at i) [
    | inl f ↦ cc (ap (λ z. same_file z p) f, same_file_refl p)
    | inr j ↦ remove-gone p xs d.1 j
  ]
]

pub In-select :
    (keep : Picture → Bool) (p : Picture) (ps : List Picture)
    → In p ps
    → keep p ≡ true
    → In p (select keep ps)
unfolding select
In-select keep p [] i h = i
In-select keep p (x ∷ xs) (inl e) h = rw (ap keep e ∙ h) (inl e)
In-select keep p (x ∷ xs) (inr i) h = elim (Bool-cases (keep x)) [
  | inl e ↦ rw e (inr (In-select keep p xs i h))
  | inr e ↦ rw e (In-select keep p xs i h)
]

pub In-of_select :
    (keep : Picture → Bool) (p : Picture) (ps : List Picture)
    → In p (select keep ps)
    → In p ps × (keep p ≡ true)
unfolding select
In-of_select keep p [] i = absurd i
In-of_select keep p (x ∷ xs) i = elim (Bool-cases (keep x)) [
  | inl e ↦ elim (rw e at i) [
    | inl f ↦ (inl f, sym (ap keep f) ∙ e)
    | inr j ↦ let (k, h) = In-of_select keep p xs j in (inr k, h)
  ]
  | inr e ↦ let (k, h) = In-of_select keep p xs (rw e at i) in (inr k, h)
]
