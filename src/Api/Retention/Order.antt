-- ===== src/Api/Retention/Order.antt =====
-- What a clean-up deletes before what (services/api/core/retention.py).
use pipe_vision.Prelude.{
  ℕ, Bool, true, false, ◌&&◌, not, List, [], ◌∷◌, ◌≡◌, ◌⊎◌, ◌<◌, ◌≤◌, refl, ap, arith, inl, inr,
  Bool-cases, In, if◌then◌else◌, leb, ltb,
}
use pipe_vision.Api.Retention.{
  Picture, Dir, raw, result, review, dir_eq, same_file, select, Store, Os, Policy, free,
  clean_bucket, clean_buckets, buckets, enough_free, clean_more, iter_files, is_ng_name, expired,
  days_of, expire_all, cleanup_images, new_report,
}
use pipe_vision.Api.Retention.Files.{Distinct, In-select, In-of_select, one_picture, dir_eq-eq}
use pipe_vision.Api.Retention.Buckets.{
  Distinct-clean_bucket, clean_bucket-tried, In-clean_bucket, clean_buckets-enough,
  In-of_clean_buckets,
}
use pipe_vision.Api.Retention.Room.{
  Dir-cases, In-of_iter_files, In-iter_files, Distinct-expire_all, In-expire_all,
}

-- The order in which pictures are given up: those that were measured, those of good products, those of
-- bad ones, those for a review.
abbrev pub rank : Picture → ℕ
rank p = elim p.dir [ raw ↦ 0 | result ↦ (if is_ng_name p.name then 2 else 1) | review ↦ 3 ]

-- The bucket of the first picture comes before that of the second.
abbrev Precedes : Picture → Picture → List (List Picture) → Type 0
Precedes q p [] = ⊥
Precedes q p (b ∷ bs) = (¬ In p b) × (In q b ⊎ Precedes q p bs)

false_of_not : (b : Bool) → not b ≡ true → b ≡ false
false_of_not b h = ground arith

dir_of_iter :
    (os : Os) (d : Dir) (p : Picture) (ps : List Picture) → In p (iter_files os d ps) → p.dir ≡ d
unfolding iter_files
dir_of_iter os d p ps i = elim (Bool-cases (os.list_fails d)) [
  | inl e ↦ absurd (rw e at i)
  | inr e ↦ dir_eq-eq p.dir d (In-of_select (λ r. dir_eq r.dir d) p ps (rw e at i)).1
]

module _ (os : Os) (stats : (p : Picture) → os.stat_fails p ≡ false) where
  other_file :
      (all : List Picture) (p : Picture) (b : List Picture)
      → Distinct all
      → In p all
      → ((r : Picture) → In r b → In r all)
      → ¬ In p b
      → (r : Picture) → In r b
      → same_file p r ≡ false
  other_file all p b d i sub out r j = elim (Bool-cases (same_file p r)) [
    | inl e ↦ absurd (out (rw (one_picture all p r d i (sub r j) e) j))
    | inr e ↦ e
  ]

  abbrev AllIn : List (List Picture) → List Picture → Type 0
  AllIn [] all = Unit
  AllIn (b ∷ bs) all = ((r : Picture) → In r b → In r all) × AllIn bs all

  clean_buckets-order :
      (enough : ℕ) (all : List Picture) (p q : Picture) (bs : List (List Picture)) (s : Store)
      → Distinct all
      → AllIn bs all
      → Precedes q p bs
      → In p all
      → Distinct s.pictures
      → In p s.pictures
      → ¬ In p (clean_buckets os enough bs s).pictures
      → In q (clean_buckets os enough bs s).pictures
      → os.unlink_fails q ≡ true
  unfolding clean_buckets
  clean_buckets-order enough all p q [] s d sub before there ds i gone left = absurd before
  clean_buckets-order enough all p q (b ∷ bs) s d sub (out, before) there ds i gone left =
      let s1 = clean_bucket os enough b s in
      let i1 : In p s1.pictures =
        In-clean_bucket os stats enough p b s (other_file all p b d there sub.0 out) i in
      elim (Bool-cases (leb enough (free os s.pictures))) [
        | inl e ↦ absurd ((rw e at gone) i)
        | inr e ↦ elim before [
          | inr later ↦
              clean_buckets-order enough all p q bs s1 d sub.1 later there
                (Distinct-clean_bucket os stats enough b s ds) i1 (rw e at gone) (rw e at left)
          | inl here ↦ elim (Bool-cases (leb enough (free os s1.pictures))) [
            | inl k ↦
                absurd ((rw (clean_buckets-enough os stats enough bs s1 k) at (rw e at gone)) i1)
            | inr k ↦
                clean_bucket-tried os stats enough q b s ds k here
                  (In-of_clean_buckets os stats enough q bs s1 (rw e at left))
          ]
        ]
      ]

  module _ (lists : (d : Dir) → os.list_fails d ≡ false) where
    buckets-AllIn : (ps : List Picture) → AllIn (buckets os ps) ps
    unfolding buckets
    buckets-AllIn ps = (
      λ r i. In-of_iter_files os raw r ps i,
      (
        λ r i.
            In-of_iter_files os result r ps
              (In-of_select (λ p. not (is_ng_name p.name)) r (iter_files os result ps) i).0,
        (
          λ r i.
              In-of_iter_files os result r ps
                (In-of_select (λ p. is_ng_name p.name) r (iter_files os result ps) i).0,
          (λ r i. In-of_iter_files os review r ps i, tt),
        ),
      ),
    )

    rank-raw : (p : Picture) (ps : List Picture) → In p (iter_files os raw ps) → rank p ≡ 0
    rank-raw p ps i = rw (dir_of_iter os raw p ps i) refl

    rank-ok :
        (p : Picture) (ps : List Picture)
        → In p (select (λ r. not (is_ng_name r.name)) (iter_files os result ps))
        → rank p ≡ 1
    rank-ok p ps i =
        let (j, k) = In-of_select (λ r. not (is_ng_name r.name)) p (iter_files os result ps) i in
        rw (dir_of_iter os result p ps j, false_of_not (is_ng_name p.name) k) refl

    rank-ng :
        (p : Picture) (ps : List Picture)
        → In p (select (λ r. is_ng_name r.name) (iter_files os result ps))
        → rank p ≡ 2
    rank-ng p ps i =
        let (j, k) = In-of_select (λ r. is_ng_name r.name) p (iter_files os result ps) i in
        rw (dir_of_iter os result p ps j, k) refl

    rank-le : (p : Picture) → rank p ≤ 3
    rank-le p = elim (Dir-cases p.dir) [
      | inl e ↦ rw e (omega arith)
      | inr (inr e) ↦ rw e (omega arith)
      | inr (inl e) ↦ elim (Bool-cases (is_ng_name p.name)) [
        | inl k ↦ rw (e, k) (omega arith)
        | inr k ↦ rw (e, k) (omega arith)
      ]
    ]

    buckets-Precedes :
        (p q : Picture) (ps : List Picture)
        → In q ps
        → rank q < rank p
        → Precedes q p (buckets os ps)
    unfolding buckets
    buckets-Precedes p q ps i before = elim (Dir-cases q.dir) [
      | inl e ↦ (not_raw, inl (In-iter_files os lists raw q ps e i))
      | inr (inr e) ↦ absurd (too_high (rw e refl))
      | inr (inl e) ↦
          let j = In-iter_files os lists result q ps e i in
          elim (Bool-cases (is_ng_name q.name)) [
            | inr k ↦ (
              not_raw,
              inr (
                (λ h. not_ok (rw (e, k) refl) h),
                inl (In-select (λ r. not (is_ng_name r.name)) q _ j (ap not k)),
              ),
            )
            | inl k ↦ (
              not_raw,
              inr (
                (λ h. not_ok' (rw (e, k) refl) h),
                inr (
                  (λ h. not_ng (rw (e, k) refl) h),
                  inl (In-select (λ r. is_ng_name r.name) q _ j k),
                ),
              ),
            )
          ]
    ]
      where
        not_raw : ¬ In p (iter_files os raw ps)
        not_raw h = omega (arith, rank-raw p ps h)

        too_high : rank q ≡ 3 → ⊥
        too_high h = omega (arith, rank-le p)

        not_ok :
            rank q ≡ 1 → ¬ In p (select (λ r. not (is_ng_name r.name)) (iter_files os result ps))
        not_ok e h = omega (arith, rank-ok p ps h)

        not_ok' :
            rank q ≡ 2 → ¬ In p (select (λ r. not (is_ng_name r.name)) (iter_files os result ps))
        not_ok' e h = omega (arith, rank-ok p ps h)

        not_ng : rank q ≡ 2 → ¬ In p (select (λ r. is_ng_name r.name) (iter_files os result ps))
        not_ng e h = omega (arith, rank-ng p ps h)

    clean_more-order :
        (pol : Policy) (p q : Picture) (s : Store)
        → Distinct s.pictures
        → In p s.pictures
        → ¬ In p (clean_more os pol s).pictures
        → In q (clean_more os pol s).pictures
        → rank q < rank p
        → os.unlink_fails q ≡ true
    unfolding clean_more
    clean_more-order pol p q s d i gone left before =
        let enough = enough_free os pol in
        let bs = buckets os s.pictures in
        let s1 : Store = record s { report = record s.report { emergency = true } } in
        elim (Bool-cases (ltb 0 enough && ltb (free os s.pictures) enough)) [
          | inr e ↦ absurd ((rw e at gone) i)
          | inl e ↦
              let left1 : In q (clean_buckets os enough bs s1).pictures = rw e at left in
              clean_buckets-order enough s.pictures p q bs s1 d (buckets-AllIn s.pictures)
                (buckets-Precedes p q s.pictures (In-of_clean_buckets os stats enough q bs s1 left1)
                  before)
                i d i (rw e at gone) left1
        ]

    -- Where directories can be listed, files looked up and no two pictures have one directory and
    -- name: if a clean-up deletes a picture that has not expired, then each picture that is left and
    -- is of a lower rank is one that cannot be deleted. The ranks are, from the lowest: raw pictures,
    -- pictures of results that are not NG, those of results that are, pictures for a review.
    pub less_valuable_first :
        (pol : Policy) (ps : List Picture) (p q : Picture)
        → Distinct ps
        → In p ps
        → expired os (days_of os pol p) p ≡ false
        → ¬ In p (cleanup_images os pol ps).pictures
        → In q (cleanup_images os pol ps).pictures
        → rank q < rank p
        → os.unlink_fails q ≡ true
    unfolding cleanup_images
    less_valuable_first pol ps p q d i keep gone left before =
        let s : Store = record {
          pictures = ps;
          report = record (new_report os) { free_before = free os ps };
        } in
        clean_more-order pol p q (expire_all os pol s) (Distinct-expire_all os pol s d)
          (In-expire_all os pol p s d keep i) gone left before
