-- ===== src/Archive/Files.antt =====
-- Lists of the files of a directory (services/vision/imaging/archive.py).
use pipe_vision.Prelude.{
  ℕ, zero, suc, false, some, List, [], ◌∷◌, ◌≡◌, refl, ◌∙◌, sym, ap, arith, inl, inr, Bool-cases,
  In, take, if◌then◌else◌,
}
use pipe_vision.Prelude.Text.{Text, text_eq, text_eq_iff}
use pipe_vision.Archive.{File, find_file, put_file, remove_file, jpg_files}

pub find-put_file :
    (rel : Text) (new : File) (fs : List File)
    → find_file rel (put_file new fs) ≡ (if text_eq new.rel rel then some new else find_file rel fs)
unfolding find_file put_file
find-put_file rel new [] = refl
find-put_file rel new (f ∷ fs) = ground (
  arith,
  text_eq_iff f.rel new.rel,
  text_eq_iff f.rel rel,
  text_eq_iff new.rel rel,
  find-put_file rel new fs,
)

pub In-remove_file : (f : File) (rel : Text) (fs : List File) → In f (remove_file rel fs) → In f fs
unfolding remove_file
In-remove_file f rel [] h = h
In-remove_file f rel (x ∷ fs) h = elim (Bool-cases (text_eq x.rel rel)) [
  | inl e ↦ inr (rw (e, remove_file) at h)
  | inr e ↦ elim (rw (e, remove_file) at h) [
    | inl same ↦ inl same
    | inr later ↦ inr (In-remove_file f rel fs later)
  ]
]

differ : (f : File) (rel : Text) → text_eq f.rel rel ≡ false → ¬ (f.rel ≡ rel)
differ f rel ne e = grind (arith, text_eq_iff f.rel rel)

pub remove_file-In :
    (f : File) (rel : Text) (fs : List File)
    → text_eq f.rel rel ≡ false
    → In f fs
    → In f (remove_file rel fs)
unfolding remove_file
remove_file-In f rel [] ne h = h
remove_file-In f rel (x ∷ fs) ne h = elim (Bool-cases (text_eq x.rel rel)) [
  | inl e ↦ elim h [
    | inl same ↦
        absurd (differ f rel ne (ap (λ (g : File). g.rel) (sym same) ∙ (text_eq_iff x.rel rel).0 e))
    | inr later ↦ rw (e, remove_file) later
  ]
  | inr e ↦ elim h [
    | inl same ↦ rw (e, remove_file) (inl same)
    | inr later ↦ rw (e, remove_file) (inr (remove_file-In f rel fs ne later))
  ]
]

pub In-take : (f : File) (n : ℕ) (fs : List File) → In f (take n fs) → In f fs
In-take f zero fs h = absurd h
In-take f (suc n) [] h = absurd h
In-take f (suc n) (x ∷ fs) (inl e) = inl e
In-take f (suc n) (x ∷ fs) (inr h) = inr (In-take f n fs h)

pub In-jpg_files : (f : File) (fs : List File) → In f (jpg_files fs) → In f fs
unfolding jpg_files
In-jpg_files f [] h = h
In-jpg_files f (x ∷ fs) h = ground (arith, In-jpg_files f fs)
