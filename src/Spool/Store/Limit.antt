-- ===== src/Spool/Store/Limit.antt =====
-- The size limit of the spool: what `_enforce_cap` leaves.
use mathlib.Core.Logic.{⊎_map, ⊎_elim}
use pipe_vision.Prelude.{
  le→leb, ℕ, ◌+◌, ◌-◌, ◌≤◌, ◌≡◌, ◌⊎◌, ◌∙◌, refl, false, List, [], ◌∷◌, ◌++◌, inl, inr, arith, In,
  Bool-cases, Option-cases, leb, leb→le, if◌then◌else◌, length,
}
use pipe_vision.Prelude.Text.{Text, text_eq_refl}
use pipe_vision.Spool.Store.{
  Entry, Image, Spool, Target, pending_file, image_file, dead_file, Disk, find_entry, unlink_entry,
  find_image, unlink_image, entry_bytes, image_bytes, total_bytes, sort_oldest, pending_files,
  item_image_files, stat_size, unlink, drop_files, cap_pending, cap_dead, enforce_cap, size_or_zero,
  jpeg_or_nil, existing_images, referenced,
}
use pipe_vision.Spool.Store.Entries.{
  Distinct, Distinct-unlink, find-unlink_self, find-name_ne, In-of_unlink, sort_oldest-In,
}
use pipe_vision.Spool.Names.{path_parts}

entry_bytes-unlink :
    (n : Text) (es : List Entry)
    → entry_bytes (unlink_entry n es) + size_or_zero (find_entry n es) ≡ entry_bytes es
unfolding entry_bytes unlink_entry find_entry
entry_bytes-unlink n [] = omega arith
entry_bytes-unlink n (e ∷ es) = ground (arith, entry_bytes-unlink n es)

image_bytes-unlink :
    (path : List Text) (is : List Image)
    → image_bytes (unlink_image path is) + length (jpeg_or_nil (find_image path is))
      ≡ image_bytes is
unfolding image_bytes unlink_image find_image
image_bytes-unlink path [] = omega arith
image_bytes-unlink path (i ∷ is) = ground (arith, image_bytes-unlink path is)

-- What is counted as freed is what the directory has less.
total_bytes-unlink :
    (t : Target) (s : Spool) → total_bytes (unlink t s) + stat_size t s ≡ total_bytes s
unfolding total_bytes unlink stat_size
total_bytes-unlink (pending_file n) s = omega (arith, entry_bytes-unlink n s.pending)
total_bytes-unlink (image_file path) s = omega (arith, image_bytes-unlink path s.images)
total_bytes-unlink (dead_file n) s = omega (arith, entry_bytes-unlink n s.dead_files)

module _ (disk : Disk) (works : (t : Target) → disk.unlink_fails t ≡ false) where
  drop_files-total_bytes :
      (ts : List Target) (freed : ℕ) (s : Spool)
      → let (freed', s') = drop_files disk ts freed s in
        total_bytes s' + freed' ≡ total_bytes s + freed
  unfolding drop_files
  drop_files-total_bytes [] freed s = refl
  drop_files-total_bytes (t ∷ ts) freed s =
      rw (works t, drop_files)
        (omega (
          arith,
          total_bytes-unlink t s,
          drop_files-total_bytes ts (freed + stat_size t s) (unlink t s),
        ))

  -- Dropping an item deletes its file, and leaves the other items and dead/ as they are.
  drop_item-pending :
      (n : Text) (ks : List Text) (is : List Image) (freed : ℕ) (s : Spool)
      → let (freed', s') = drop_files disk (existing_images ks is ++ pending_file n ∷ []) freed s in
        (s'.pending ≡ unlink_entry n s.pending)
        × (s'.dead_files ≡ s.dead_files)
        × (s'.max_bytes ≡ s.max_bytes)
  unfolding drop_files unlink existing_images
  drop_item-pending n [] is freed s = rw (works (pending_file n), drop_files) (refl, refl, refl)
  drop_item-pending n (k ∷ ks) is freed s = elim (Option-cases (find_image (path_parts k) is)) [
    | inl e ↦ rw (e, existing_images) (drop_item-pending n ks is freed s)
    | inr (i, e) ↦
        rw (e, existing_images)
          (rw (works (image_file (path_parts k)), drop_files)
            (drop_item-pending n ks is (freed + stat_size (image_file (path_parts k)) s)
              (unlink (image_file (path_parts k)) s)))
  ]

  total_bytes_step :
      (total freed : ℕ) (s s1 : Spool)
      → total ≡ total_bytes s
      → total_bytes s1 + freed ≡ total_bytes s + 0
      → total - freed ≡ total_bytes (record s1 { dropped = s1.dropped + 1 })
  unfolding total_bytes
  total_bytes_step total freed s s1 t exact = omega arith

  -- Every file of `xs` is in `es`.
  abbrev Covered : List Entry → List Entry → Type 0
  Covered xs es = (y : Entry) → In y xs → In y es

  Covered-unlink :
      (x : Entry) (es xs : List Entry)
      → Distinct xs
      → Covered xs (x ∷ es)
      → Covered (unlink_entry x.name xs) es
  Covered-unlink x es xs d c y i = elim (c y (In-of_unlink x.name y xs i)) [
    | inl e ↦ absurd (
        ground (
          arith,
          find-name_ne x.name y (unlink_entry x.name xs) (find-unlink_self x.name xs d) i,
          text_eq_refl x.name,
        ))
    | inr k ↦ k
  ]

  Covered-nil : (xs : List Entry) → Covered xs [] → xs ≡ []
  Covered-nil [] c = refl
  Covered-nil (x ∷ xs) c = absurd (c x (inl refl))

  cap_pending-lem :
      (es : List Entry) (total dropped : ℕ) (s : Spool)
      → total ≡ total_bytes s
      → Distinct s.pending
      → Covered s.pending es
      → let (total', dropped', s') = cap_pending disk es total dropped s in
        (total' ≡ total_bytes s')
        × (s'.dead_files ≡ s.dead_files)
        × (s'.max_bytes ≡ s.max_bytes)
        × ((total' ≤ s'.max_bytes) ⊎ (s'.pending ≡ []))
  unfolding cap_pending
  cap_pending-lem [] total dropped s t d c = (t, refl, refl, inr (Covered-nil s.pending c))
  cap_pending-lem (e ∷ es) total dropped s t d c = elim (Bool-cases (leb total s.max_bytes)) [
    | inl fits ↦ rw (fits, cap_pending) (t, refl, refl, inl (leb→le _ _ fits))
    | inr over ↦
        let ks = referenced (find_entry e.name s.pending) in
        let (freed, s1) =
          drop_files disk (item_image_files e.name s ++ pending_file e.name ∷ []) 0 s in
        let (gone, same_dead, same_max) = drop_item-pending e.name ks s.images 0 s in
        let exact =
          drop_files-total_bytes (item_image_files e.name s ++ pending_file e.name ∷ []) 0 s in
        let (t', dead', max', fits') =
          cap_pending-lem es (total - freed) (dropped + 1) (record s1 { dropped = s1.dropped + 1 })
            (total_bytes_step total freed s s1 t exact)
            (rw gone (Distinct-unlink e.name s.pending d))
            (rw gone (Covered-unlink e es s.pending d c)) in
        rw (over, cap_pending) (t', dead' ∙ same_dead, max' ∙ same_max, fits')
  ]

  drop_dead-lem :
      (n : Text) (s : Spool)
      → let (freed', s') = drop_files disk (dead_file n ∷ []) 0 s in
        (s'.pending ≡ s.pending)
        × (s'.dead_files ≡ unlink_entry n s.dead_files)
        × (s'.max_bytes ≡ s.max_bytes)
  unfolding drop_files unlink
  drop_dead-lem n s = rw (works (dead_file n), drop_files) (refl, refl, refl)

  cap_dead-lem :
      (es : List Entry) (total : ℕ) (s : Spool)
      → total ≡ total_bytes s
      → Distinct s.dead_files
      → Covered s.dead_files es
      → let s' = cap_dead disk es total s in
        (s'.pending ≡ s.pending)
        × (s'.max_bytes ≡ s.max_bytes)
        × ((total_bytes s' ≤ s'.max_bytes) ⊎ (s'.dead_files ≡ []))
  unfolding cap_dead
  cap_dead-lem [] total s t d c = (refl, refl, inr (Covered-nil s.dead_files c))
  cap_dead-lem (e ∷ es) total s t d c = elim (Bool-cases (leb total s.max_bytes)) [
    | inl fits ↦ rw (fits, cap_dead) (refl, refl, inl (rw (← t) (leb→le total s.max_bytes fits)))
    | inr over ↦
        let (freed, s1) = drop_files disk (dead_file e.name ∷ []) 0 s in
        let (same, gone, same_max) = drop_dead-lem e.name s in
        let exact = drop_files-total_bytes (dead_file e.name ∷ []) 0 s in
        let (same', max', fits') =
          cap_dead-lem es (total - freed) s1 (omega arith)
            (rw gone (Distinct-unlink e.name s.dead_files d))
            (rw gone (Covered-unlink e es s.dead_files d c)) in
        rw (over, cap_dead) (same' ∙ same, max' ∙ same_max, fits')
  ]

leb-false : (a b : ℕ) → leb a b ≡ false → a ≤ b → ⊥
leb-false a b h k = ground arith

-- After the pending files, those in dead/.
cap_rest-lem :
    (disk : Disk)
    → ((t : Target) → disk.unlink_fails t ≡ false)
    → (total : ℕ) (s : Spool) → total ≡ total_bytes s
    → Distinct s.dead_files
    → ((total ≤ s.max_bytes) ⊎ (s.pending ≡ []))
    → let s' =
        if leb total s.max_bytes then s else cap_dead disk (sort_oldest s.dead_files) total s in
      (s'.max_bytes ≡ s.max_bytes)
      × ((total_bytes s' ≤ s'.max_bytes) ⊎ ((s'.pending ≡ []) × (s'.dead_files ≡ [])))
cap_rest-lem disk works total s t dd fits = elim (Bool-cases (leb total s.max_bytes)) [
  | inl small ↦ rw small (refl, inl (rw (← t) (leb→le total s.max_bytes small)))
  | inr over ↦
      let (same, same_max, end) =
        cap_dead-lem disk works (sort_oldest s.dead_files) total s t dd
          (λ y i. sort_oldest-In y s.dead_files i) in
      rw over (
        same_max,
        ⊎_map (λ h. h)
            (λ h.
              (same ∙ ⊎_elim (λ le. absurd (leb-false total s.max_bytes over le)) (λ e. e) fits, h))
            end,
      )
]

-- Where deleting works and the files of a directory have distinct names, the spool is afterwards
-- within its limit, or nothing is left of pending/ and dead/. The limit itself stays.
pub enforce_cap-le :
    (disk : Disk)
    → ((t : Target) → disk.unlink_fails t ≡ false)
    → (s : Spool) → Distinct s.pending
    → Distinct s.dead_files
    → let s' = (enforce_cap disk s).1 in
      (s'.max_bytes ≡ s.max_bytes)
      × ((total_bytes s' ≤ s'.max_bytes) ⊎ ((s'.pending ≡ []) × (s'.dead_files ≡ [])))
unfolding enforce_cap pending_files
enforce_cap-le disk works s d dd = elim (Bool-cases (leb (total_bytes s) s.max_bytes)) [
  | inl fits ↦ rw fits (refl, inl (leb→le (total_bytes s) s.max_bytes fits))
  | inr over ↦
      let (total', dropped', s') = cap_pending disk (pending_files s) (total_bytes s) 0 s in
      let (t, same_dead, same_max, fits) =
        cap_pending-lem disk works (pending_files s) (total_bytes s) 0 s refl d
          (λ y i. sort_oldest-In y s.pending i) in
      let (max', end) = cap_rest-lem disk works total' s' t (rw same_dead dd) fits in
      rw over (max' ∙ same_max, end)
]

-- A spool within its limit is left as it is.
pub enforce_cap_fits :
    (disk : Disk) (s : Spool) → total_bytes s ≤ s.max_bytes → enforce_cap disk s ≡ (0, s)
unfolding enforce_cap
enforce_cap_fits disk s h = rw (le→leb (total_bytes s) s.max_bytes h) refl
