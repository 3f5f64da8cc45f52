-- ===== src/Spool/Store/Pictures.antt =====
-- The images that `save_image` of services/vision/worker/spool.py keeps.
use pipe_vision.Prelude.{
  ℕ, ◌≡◌, refl, true, false, ◌||◌, Option, none, some, List, [], ◌∷◌, inl, inr, arith, Bool-cases,
}
use pipe_vision.Prelude.Text.{Text, text_eq_refl, text_eq_iff}
use pipe_vision.Spool.Names.{path_parts, has_parent_step}
use pipe_vision.Spool.Store.{
  Disk, Spool, Image, image_file, save_image, find_image, unlink_image, path_eq, put_image,
  is_no_path,
}

path_eq_refl : (p : List Text) → path_eq p p ≡ true
unfolding path_eq
path_eq_refl [] = refl
path_eq_refl (t ∷ ts) = ground (arith, path_eq_refl ts, text_eq_refl t)

path_eq→eq : (p q : List Text) → path_eq p q ≡ true → p ≡ q
unfolding path_eq
path_eq→eq [] [] h = refl
path_eq→eq [] (t ∷ ts) h = cc
path_eq→eq (t ∷ ts) [] h = cc
path_eq→eq (t ∷ ts) (u ∷ us) h = ground (arith, path_eq→eq ts us, text_eq_iff t u)

-- There is an image of this key.
abbrev pub HasImage : Spool → Text → Type 0
HasImage s key = (i : Image) × (find_image (path_parts key) s.images ≡ some i)

find-unlink_other :
    (p q : List Text) (is : List Image) (i : Image)
    → path_eq q p ≡ false
    → find_image p is ≡ some i
    → find_image p (unlink_image q is) ≡ some i
unfolding find_image unlink_image
find-unlink_other p q [] i ne h = cc
find-unlink_other p q (x ∷ xs) i ne h =
    ground (arith, find-unlink_other p q xs i, path_eq→eq x.path q)

find-put :
    (p : List Text) (new : Image) (is : List Image) (i : Image)
    → find_image p is ≡ some i
    → (j : Image) × (find_image p (put_image new is) ≡ some j)
unfolding put_image find_image
find-put p new is i h = elim (Bool-cases (path_eq new.path p)) [
  | inl e ↦ rw (e) (new, refl)
  | inr e ↦ rw (e) (i, find-unlink_other p new.path is i e h)
]

nothing : (path : List Text) → ¬ (◌≡◌ {A = Option (List Text)} none (some path))
nothing path h = cc

pub save_image-HasImage :
    (disk : Disk) (key : Text) (jpeg : List ℕ) (s : Spool) (path : List Text)
    → (save_image disk key jpeg s).0 ≡ some path
    → HasImage (save_image disk key jpeg s).1 key
unfolding save_image find_image put_image
save_image-HasImage disk key jpeg s path h =
    elim (Bool-cases (
      is_no_path (path_parts key)
      || has_parent_step (path_parts key)
      || disk.write_fails (image_file (path_parts key)))) [
        | inl e ↦ absurd (nothing path (rw (e, save_image) at h))
        | inr e ↦
            rw (e, save_image, put_image, find_image, path_eq_refl (path_parts key))
              (record { path = path_parts key; jpeg = jpeg }, refl)
      ]

pub save_image-keeps :
    (disk : Disk) (key other : Text) (jpeg : List ℕ) (s : Spool)
    → HasImage s other
    → HasImage (save_image disk key jpeg s).1 other
unfolding save_image
save_image-keeps disk key other jpeg s h =
    elim (Bool-cases (
      is_no_path (path_parts key)
      || has_parent_step (path_parts key)
      || disk.write_fails (image_file (path_parts key)))) [
        | inl e ↦ rw (e, save_image) h
        | inr e ↦
            rw (e, save_image)
              (find-put (path_parts other) (record { path = path_parts key; jpeg = jpeg }) s.images
                h.0 h.1)
      ]
