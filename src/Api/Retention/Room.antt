-- ===== src/Api/Retention/Room.antt =====
-- The room that a clean-up leaves (services/api/core/retention.py).
use pipe_vision.Prelude.{
  ℕ, Bool, true, false, ◌&&◌, not, List, [], ◌∷◌, ◌≡◌, ◌⊎◌, ◌≤◌, refl, sym, ◌∙◌, ap, arith, inl,
  inr, Bool-cases, In, leb, ltb, leb→le,
}
use pipe_vision.Api.Retention.{
  new_report, Picture, Dir, raw, result, review, dir_eq, same_file, Store, Os, Policy, free,
  clean_buckets, buckets, enough_free, clean_more, iter_files, is_ng_name, expired, expire_one,
  delete_expired, days_of, expire_dir, expire_all, cleanup_images,
}
use pipe_vision.Api.Retention.Files.{Distinct, In-select, In-of_select, dir_eq_refl, one_picture}
use pipe_vision.Api.Retention.Loop.{Distinct-delete, In-delete_ne}
use pipe_vision.Api.Retention.Buckets.{InSome, clean_buckets-tried, In-of_clean_buckets}

pub Dir-cases : (d : Dir) → (d ≡ raw) ⊎ (d ≡ result) ⊎ (d ≡ review)
Dir-cases raw = inl refl
Dir-cases result = inr (inl refl)
Dir-cases review = inr (inr refl)

enough_of : (enough n : ℕ) → (ltb 0 enough && ltb n enough) ≡ false → enough ≤ n
enough_of enough n h = ground arith

module _ (os : Os) where
  Distinct-expire_one :
      (days : Picture → ℕ) (p : Picture) (s : Store)
      → Distinct s.pictures
      → Distinct (expire_one os days p s).pictures
  unfolding expire_one
  Distinct-expire_one days p s d = elim (Bool-cases (expired os (days p) p)) [
    | inl e ↦ rw e (Distinct-delete os p s d)
    | inr e ↦ rw e d
  ]

  In-expire_one :
      (days : Picture → ℕ) (all : List Picture) (q p : Picture) (s : Store)
      → Distinct all
      → In q all
      → In p all
      → expired os (days q) q ≡ false
      → In q s.pictures
      → In q (expire_one os days p s).pictures
  unfolding expire_one
  In-expire_one days all q p s d there at keep i = elim (Bool-cases (expired os (days p) p)) [
    | inr e ↦ rw e i
    | inl e ↦ elim (Bool-cases (same_file q p)) [
      | inl same ↦
          let it : q ≡ p = one_picture all q p d there at same in
          absurd (clash (sym (ap (λ z. expired os (days z) z) it) ∙ keep) e)
      | inr other ↦ rw e (In-delete_ne os p q s other i)
    ]
  ]
    where
      clash : {b : Bool} → b ≡ false → b ≡ true → ⊥
      clash h k = cc

  -- The loops over what has expired.
  Distinct-delete_expired :
      (days : Picture → ℕ) (ps : List Picture) (s : Store)
      → Distinct s.pictures
      → Distinct (delete_expired os days ps s).pictures
  unfolding delete_expired
  Distinct-delete_expired days [] s d = d
  Distinct-delete_expired days (p ∷ ps) s d =
      Distinct-delete_expired days ps (expire_one os days p s) (Distinct-expire_one days p s d)

  In-delete_expired :
      (days : Picture → ℕ) (all : List Picture) (q : Picture) (ps : List Picture) (s : Store)
      → Distinct all
      → In q all
      → ((p : Picture) → In p ps → In p all)
      → expired os (days q) q ≡ false
      → In q s.pictures
      → In q (delete_expired os days ps s).pictures
  unfolding delete_expired
  In-delete_expired days all q [] s d there sub keep i = i
  In-delete_expired days all q (p ∷ ps) s d there sub keep i =
      In-delete_expired days all q ps (expire_one os days p s) d there (λ r j. sub r (inr j)) keep
        (In-expire_one days all q p s d there (sub p (inl refl)) keep i)

  pub In-of_iter_files :
      (d : Dir) (q : Picture) (ps : List Picture) → In q (iter_files os d ps) → In q ps
  unfolding iter_files
  In-of_iter_files d q ps i = elim (Bool-cases (os.list_fails d)) [
    | inl e ↦ absurd (rw e at i)
    | inr e ↦ (In-of_select (λ p. dir_eq p.dir d) q ps (rw e at i)).0
  ]

  -- One of the three directories.
  Distinct-expire_dir :
      (pol : Policy) (d : Dir) (s : Store)
      → Distinct s.pictures
      → Distinct (expire_dir os pol d s).pictures
  unfolding expire_dir
  Distinct-expire_dir pol d s h =
      Distinct-delete_expired (days_of os pol) (iter_files os d s.pictures) s h

  In-expire_dir :
      (pol : Policy) (d : Dir) (q : Picture) (s : Store)
      → Distinct s.pictures
      → expired os (days_of os pol q) q ≡ false
      → In q s.pictures
      → In q (expire_dir os pol d s).pictures
  unfolding expire_dir
  In-expire_dir pol d q s h keep i =
      In-delete_expired (days_of os pol) s.pictures q (iter_files os d s.pictures) s h i
        (λ p j. In-of_iter_files d p s.pictures j) keep i

  pub Distinct-expire_all :
      (pol : Policy) (s : Store) → Distinct s.pictures → Distinct (expire_all os pol s).pictures
  unfolding expire_all
  Distinct-expire_all pol s h =
      let s1 = expire_dir os pol raw s in
      let s2 = expire_dir os pol result s1 in
      Distinct-expire_dir pol review s2
        (Distinct-expire_dir pol result s1 (Distinct-expire_dir pol raw s h))

  -- A picture that has not expired is there after what has expired is gone.
  pub In-expire_all :
      (pol : Policy) (q : Picture) (s : Store)
      → Distinct s.pictures
      → expired os (days_of os pol q) q ≡ false
      → In q s.pictures
      → In q (expire_all os pol s).pictures
  unfolding expire_all
  In-expire_all pol q s h keep i =
      let s1 = expire_dir os pol raw s in
      let s2 = expire_dir os pol result s1 in
      let h1 = Distinct-expire_dir pol raw s h in
      let h2 = Distinct-expire_dir pol result s1 h1 in
      In-expire_dir pol review q s2 h2 keep
        (In-expire_dir pol result q s1 h1 keep (In-expire_dir pol raw q s h keep i))

  module _ (lists : (d : Dir) → os.list_fails d ≡ false) where
    pub In-iter_files :
        (d : Dir) (q : Picture) (ps : List Picture)
        → q.dir ≡ d
        → In q ps
        → In q (iter_files os d ps)
    unfolding iter_files
    In-iter_files d q ps at_dir i =
        rw (lists d)
          (In-select (λ p. dir_eq p.dir d) q ps i (ap (λ x. dir_eq x d) at_dir ∙ dir_eq_refl d))

    In-buckets : (q : Picture) (ps : List Picture) → In q ps → InSome q (buckets os ps)
    unfolding buckets
    In-buckets q ps i = elim (Dir-cases q.dir) [
      | inl e ↦ inl (In-iter_files raw q ps e i)
      | inr (inr e) ↦ inr (inr (inr (inl (In-iter_files review q ps e i))))
      | inr (inl e) ↦
          let j = In-iter_files result q ps e i in
          elim (Bool-cases (is_ng_name q.name)) [
            | inl k ↦ inr (inr (inl (In-select (λ p. is_ng_name p.name) q _ j k)))
            | inr k ↦ inr (inl (In-select (λ p. not (is_ng_name p.name)) q _ j (ap not k)))
          ]
    ]

    clean_more-frees :
        (stats : (p : Picture) → os.stat_fails p ≡ false) (pol : Policy) (s : Store)
        → Distinct s.pictures
        → let after = (clean_more os pol s).pictures in
          (enough_free os pol ≤ free os after)
          ⊎ ((q : Picture) → In q after → os.unlink_fails q ≡ true)
    unfolding clean_more
    clean_more-frees stats pol s d =
        let enough = enough_free os pol in
        let s1 : Store = record s { report = record s.report { emergency = true } } in
        let bs = buckets os s.pictures in
        let out = clean_buckets os enough bs s1 in
        elim (Bool-cases (ltb 0 enough && ltb (free os s.pictures) enough)) [
          | inr e ↦ rw e (inl (enough_of enough (free os s.pictures) e))
          | inl e ↦ elim (Bool-cases (leb enough (free os out.pictures))) [
            | inl k ↦ rw e (inl (leb→le enough _ k))
            | inr k ↦ rw e (
                inr (λ q i.
                  clean_buckets-tried os stats enough q bs s1 d k
                    (In-buckets q s.pictures (In-of_clean_buckets os stats enough q bs s1 i)) i))
          ]
        ]

    -- Where directories can be listed, files looked up and no two pictures have one directory and
    -- name, a clean-up leaves the space free that is asked for, or no picture that can be deleted.
    pub cleanup_frees :
        (stats : (p : Picture) → os.stat_fails p ≡ false) (pol : Policy) (ps : List Picture)
        → Distinct ps
        → let after = (cleanup_images os pol ps).pictures in
          (enough_free os pol ≤ free os after)
          ⊎ ((q : Picture) → In q after → os.unlink_fails q ≡ true)
    unfolding cleanup_images
    cleanup_frees stats pol ps d =
        let s : Store = record {
          pictures = ps;
          report = record (new_report os) { free_before = free os ps };
        } in
        clean_more-frees stats pol (expire_all os pol s) (Distinct-expire_all pol s d)
