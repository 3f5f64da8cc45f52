-- ===== src/Archive/Kept.antt =====
-- What becomes of a picture that the archive was given (services/vision/imaging/archive.py).
use pipe_vision.Prelude.{
  ℕ, ◌+◌, ◌≤◌, ◌<◌, true, not, ◌||◌, ◌&&◌, ◌==◌, some, List, [], ◌∷◌, ◌≡◌, ◌⊎◌, refl, sym, arith,
  inl, inr, Bool-cases, In, In-append_left, In-last, In-append_right, length, take, ltb,
}
use pipe_vision.Prelude.Text.{text_eq, text_eq_iff, text_eq_refl}
use pipe_vision.Archive.{
  File, Task, Archive, World, find_file, put_file, remove_file, respool_file, jpg_files, write_nas,
  to_spool, store, forget, move_files, retry_spool, after_retry,
}
use pipe_vision.Archive.Files.{find-put_file, In-remove_file, remove_file-In, In-take, In-jpg_files}

-- The file of the picture, and how many pictures had been dropped.
module _ (f : File) (d : ℕ) where
  -- No other content goes by the name of the file.
  abbrev pub Fits : File → Type 0
  Fits g = g.rel ≡ f.rel → g ≡ f

  abbrev pub Only : List File → Type 0
  Only fs = (g : File) → In g fs → Fits g

  abbrev OnNas : Archive → Type 0
  OnNas a = find_file f.rel a.nas ≡ some f

  abbrev pub Stored : Archive → Type 0
  Stored a = OnNas a ⊎ (In f a.spool ⊎ (d < a.dropped))

  -- The tasks q are left as they are.
  abbrev pub Sound : List Task → Archive → Type 0
  Sound q a = (Only a.spool × (d ≤ a.dropped)) × (a.queue ≡ q)

  OnNas-put_file :
      (g : File) (fs : List File)
      → Fits g
      → find_file f.rel fs ≡ some f
      → find_file f.rel (put_file g fs) ≡ some f
  OnNas-put_file g fs fits h = elim (Bool-cases (text_eq g.rel f.rel)) [
    | inl e ↦ rw (find-put_file f.rel g fs, e, fits ((text_eq_iff g.rel f.rel).0 e)) refl
    | inr e ↦ rw (find-put_file f.rel g fs, e) h
  ]

  respool_file-Only : (g : File) (fs : List File) → Fits g → Only fs → Only (respool_file g fs)
  unfolding respool_file
  respool_file-Only g fs fits only x h = elim (In-last x g (remove_file g.rel fs) h) [
    | inl k ↦ only x (In-remove_file x g.rel fs k)
    | inr e ↦ rw (sym e) fits
  ]

  In-respool_file : (g : File) (fs : List File) → Fits g → In f fs → In f (respool_file g fs)
  unfolding respool_file
  In-respool_file g fs fits h = elim (Bool-cases (text_eq f.rel g.rel)) [
    | inl e ↦
        In-append_right f (remove_file g.rel fs) (g ∷ [])
          (inl (fits (sym ((text_eq_iff f.rel g.rel).0 e))))
    | inr e ↦ In-append_left f (remove_file g.rel fs) (g ∷ []) (remove_file-In f g.rel fs e h)
  ]

  write_nas-OnNas :
      (w : World) (g : File) (a : Archive)
      → (write_nas w g a).0 ≡ true
      → g ≡ f
      → OnNas (write_nas w g a).1
  unfolding write_nas
  write_nas-OnNas w g a done same =
      elim (Bool-cases (not (w.marker_seen g.rel) || w.nas_fails g.rel)) [
        | inl e ↦ cc (rw (e, write_nas) at done)
        | inr e ↦ rw (e, write_nas, find-put_file f.rel g a.nas, same, text_eq_refl f.rel) refl
      ]

  dropped_more : (a : Archive) → Stored a → Stored (record a { dropped = a.dropped + 1 })
  dropped_more a (inl n) = inl n
  dropped_more a (inr (inl m)) = inr (inl m)
  dropped_more a (inr (inr m)) = inr (inr (omega arith))

  -- Q: the picture still waits.
  module _ (Q : Type 0) (q : List Task) where
    abbrev pub Fate : Archive → Type 0
    Fate a = Sound q a × (Q ⊎ Stored a)

    still : {A : Type 0} {B : Type 0} → (A → B) → Q ⊎ A → Q ⊎ B
    still k (inl q) = inl q
    still k (inr x) = inr (k x)

    write_nas-Fate :
        (w : World) (g : File) (a : Archive) → Fits g → Fate a → Fate (write_nas w g a).1
    unfolding write_nas
    write_nas-Fate w g a fits (sound, h) =
        elim (Bool-cases (not (w.marker_seen g.rel) || w.nas_fails g.rel)) [
          | inl e ↦ rw (e, write_nas) (sound, h)
          | inr e ↦
              rw (e, write_nas)
                (
                  sound,
                  still
                      (λ k. elim k [
                        | inl there ↦ inl (OnNas-put_file g a.nas fits there)
                        | inr else_ ↦ inr else_
                      ])
                      h,
                )
        ]

    pub to_spool-Fate :
        (w : World) (g : File) (a : Archive) → Fits g → Fate a → Fate (to_spool w g a)
    unfolding to_spool
    to_spool-Fate w g a fits (((only, le), same), h) =
        elim (Bool-cases (ltb a.spool_max_bytes (a.spool_bytes + length g.bytes))) [
          | inl e ↦ rw (e, to_spool) (((only, omega arith), same), still (dropped_more a) h)
          | inr e ↦ elim (Bool-cases (w.spool_fails g.rel)) [
            | inl k ↦ rw (e, k, to_spool) (((only, omega arith), same), still (dropped_more a) h)
            | inr k ↦
                rw (e, k, to_spool)
                  (
                    ((respool_file-Only g a.spool fits only, le), same),
                    still
                        (λ s. elim s [
                          | inl there ↦ inl there
                          | inr (inl m) ↦ inr (inl (In-respool_file g a.spool fits m))
                          | inr (inr m) ↦ inr (inr m)
                        ])
                        h,
                  )
          ]
        ]

    pub store-Fate : (w : World) (g : File) (a : Archive) → Fits g → Fate a → Fate (store w g a)
    unfolding store
    store-Fate w g a fits h = elim (Bool-cases (write_nas w g a).0) [
      | inl e ↦ rw (e, store) (write_nas-Fate w g a fits h)
      | inr e ↦
          rw (e, store) (to_spool-Fate w g (write_nas w g a).1 fits (write_nas-Fate w g a fits h))
    ]

    forget-Fate : (g : File) (a : Archive) → Fits g → (g ≡ f → OnNas a) → Fate a → Fate (forget g a)
    unfolding forget
    forget-Fate g a fits there (((only, le), same), h) = (
      ((λ x k. only x (In-remove_file x g.rel a.spool k), le), same),
      still
          (λ s. elim s [
            | inl n ↦ inl n
            | inr (inr m) ↦ inr (inr m)
            | inr (inl m) ↦ elim (Bool-cases (text_eq f.rel g.rel)) [
              | inl e ↦ inl (there (fits (sym ((text_eq_iff f.rel g.rel).0 e))))
              | inr e ↦ inr (inl (remove_file-In f g.rel a.spool e m))
            ]
          ])
          h,
    )

    move_files-Fate :
        (w : World) (fs : List File) (n : ℕ) (a : Archive)
        → Only fs
        → Fate a
        → Fate (move_files w fs n a).1
    unfolding move_files
    move_files-Fate w [] n a only h = h
    move_files-Fate w (g ∷ fs) n a only h = elim (Bool-cases (w.read_fails g.rel)) [
      | inl e ↦ rw (e, move_files) h
      | inr e ↦
          let fits : Fits g = only g (inl refl) in
          let h1 : Fate (write_nas w g a).1 = write_nas-Fate w g a fits h in
          elim (Bool-cases (write_nas w g a).0) [
            | inr k ↦ rw (e, k, move_files) h1
            | inl done ↦ elim (Bool-cases (w.unlink_fails g.rel)) [
              | inl k ↦ rw (e, done, k, move_files) h1
              | inr k ↦
                  let there : g ≡ f → OnNas (write_nas w g a).1 = write_nas-OnNas w g a done in
                  rw (e, done, k, move_files)
                    (move_files-Fate w fs (n + 1) (forget g (write_nas w g a).1)
                      (λ x m. only x (inr m)) (forget-Fate g (write_nas w g a).1 fits there h1))
            ]
          ]
    ]

    pub retry_spool-Fate : (w : World) (n : ℕ) (a : Archive) → Fate a → Fate (retry_spool w n a).1
    unfolding retry_spool
    retry_spool-Fate w n a h =
        elim (Bool-cases (a.pending == 0 || not w.seen_at_retry || w.list_fails)) [
          | inl e ↦ rw (e, retry_spool) h
          | inr e ↦
              let only : Only (take n (jpg_files a.spool)) =
                λ x m. h.0.0.0 x (In-jpg_files x a.spool (In-take x n (jpg_files a.spool) m)) in
              rw (e, retry_spool) (move_files-Fate w (take n (jpg_files a.spool)) 0 a only h)
        ]

    pub after_retry-Fate : (w : World) (r : ℕ × Archive) → Fate r.1 → Fate (after_retry w r)
    after_retry-Fate w (n, a) h = elim (Bool-cases (n == 0 && a.pending == 0)) [
      | inl e ↦ rw e h
      | inr e ↦ rw e h
    ]

  pub to_spool-Stored : (w : World) (a : Archive) → d ≤ a.dropped → Stored (to_spool w f a)
  unfolding to_spool respool_file
  to_spool-Stored w a le =
      elim (Bool-cases (ltb a.spool_max_bytes (a.spool_bytes + length f.bytes))) [
        | inl e ↦ rw (e, to_spool) (inr (inr (omega arith)))
        | inr e ↦ elim (Bool-cases (w.spool_fails f.rel)) [
          | inl k ↦ rw (e, k, to_spool) (inr (inr (omega arith)))
          | inr k ↦
              rw (e, k, to_spool)
                (inr (inl (In-append_right f (remove_file f.rel a.spool) (f ∷ []) (inl refl))))
        ]
      ]

  pub store-Stored : (w : World) (a : Archive) → Sound a.queue a → Stored (store w f a)
  unfolding store
  store-Stored w a h = elim (Bool-cases (write_nas w f a).0) [
    | inl e ↦ rw (e, store) (inl (write_nas-OnNas w f a e refl))
    | inr e ↦
        rw (e, store)
          (to_spool-Stored w (write_nas w f a).1
            (write_nas-Fate Unit a.queue w f a (λ k. refl) (h, inl tt)).0.0.1)
  ]
