-- ===== src/Worker/Images/Pending.antt =====
-- The pictures that are to be uploaded later (services/vision/imaging/save.py).
use pipe_vision.Prelude.{
  ℕ, Bool, Option, none, some, List, [], ◌∷◌, inl, inr, Bool-cases, Option-cases, All, All-append,
}
use pipe_vision.Prelude.Text.{Text}
use pipe_vision.Spool.Store.{Disk, Spool, save_image}
use pipe_vision.Spool.Store.Pictures.{HasImage, save_image-HasImage, save_image-keeps}
use pipe_vision.Worker.Images.{
  Pictures, Places, RawPolicy, put_or_spool, put_result, keep_remote_raw, save_pair_via_backend,
  raw_key, result_key,
}

images_kept :
    (disk : Disk) (key : Text) (jpeg : List ℕ) (s : Spool) (keys : List Text)
    → All (HasImage s) keys
    → All (HasImage (save_image disk key jpeg s).1) keys
images_kept disk key jpeg s [] h = tt
images_kept disk key jpeg s (k ∷ ks) h =
    (save_image-keeps disk key k jpeg s h.0, images_kept disk key jpeg s ks h.1)

module _ {S : Type 0} (put : Text → List ℕ → S → Bool × S) (disk : Disk) where
  -- The keys that an upload leaves, if it raises no exception.
  abbrev KeysIn : Option (List Text) → Spool → Type 0
  KeysIn none s = Unit
  KeysIn (some keys) s = All (HasImage s) keys

  put_or_spool-KeysIn :
      (key : Text) (jpeg : List ℕ) (pending : List Text) (w : Places S)
      → All (HasImage w.spool) pending
      → KeysIn
          (put_or_spool put disk key jpeg pending w).0
          (put_or_spool put disk key jpeg pending w).1.spool
  unfolding put_or_spool
  put_or_spool-KeysIn key jpeg pending w h = elim (Bool-cases (put key jpeg w.storage).0) [
    | inl e ↦ rw (e, put_or_spool) h
    | inr e ↦ elim (Option-cases (save_image disk key jpeg w.spool).0) [
      | inl lost ↦ rw (e, lost, put_or_spool) tt
      | inr (path, kept) ↦
          rw (e, kept, put_or_spool)
            (All-append (HasImage (save_image disk key jpeg w.spool).1) pending (key ∷ [])
              (images_kept disk key jpeg w.spool pending h)
              (save_image-HasImage disk key jpeg w.spool path kept, tt))
    ]
  ]

  put_result-InSpool :
      (p : Pictures) (raw_path : Option Text) (pending : List Text) (w : Places S)
      → All (HasImage w.spool) pending
      → All
          (HasImage (put_result put disk p raw_path pending w).1.spool)
          (put_result put disk p raw_path pending w).0.pending_images
  unfolding put_result
  put_result-InSpool p raw_path pending w h =
      let kept = put_or_spool-KeysIn (result_key p.name) p.result_jpeg pending w h in
      elim (Option-cases (put_or_spool put disk (result_key p.name) p.result_jpeg pending w).0) [
        | inl e ↦ rw (e, put_result) tt
        | inr (keys, e) ↦ elim (Bool-cases p.review) [
          | inl r ↦ rw (e, r, put_result) (rw e at kept)
          | inr r ↦ rw (e, r, put_result) (rw e at kept)
        ]
      ]

  -- Each picture that is to be uploaded later is in the spool.
  pub save_pair-HasImage :
      (policy : RawPolicy) (force_raw : Bool) (p : Pictures) (w : Places S)
      → All
          (HasImage (save_pair_via_backend put disk policy force_raw p w).1.spool)
          (save_pair_via_backend put disk policy force_raw p w).0.pending_images
  unfolding save_pair_via_backend
  save_pair-HasImage policy force_raw p w =
      let kept = put_or_spool-KeysIn (raw_key p.name) p.raw_jpeg [] w tt in
      elim (Bool-cases (keep_remote_raw policy p.ng p.review force_raw)) [
        | inr e ↦ rw (e, save_pair_via_backend) (put_result-InSpool p none [] w tt)
        | inl e ↦ elim (Option-cases (put_or_spool put disk (raw_key p.name) p.raw_jpeg [] w).0) [
          | inl lost ↦ rw (e, lost, save_pair_via_backend) tt
          | inr (keys, got) ↦
              rw (e, got, save_pair_via_backend)
                (put_result-InSpool p (some (raw_key p.name)) keys
                  (put_or_spool put disk (raw_key p.name) p.raw_jpeg [] w).1 (rw got at kept))
        ]
      ]
