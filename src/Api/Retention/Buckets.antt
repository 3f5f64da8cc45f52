-- ===== src/Api/Retention/Buckets.antt =====
-- The buckets of a clean-up that needs more room (services/api/core/retention.py).
use pipe_vision.Prelude.{
  ℕ, Bool, true, false, List, [], ◌∷◌, ◌≡◌, ◌⊎◌, refl, arith, inl, inr, Bool-cases, In, leb,
}
use pipe_vision.Api.Retention.{
  Picture, same_file, Store, Os, free, can_delete, any_stat_fails, sort_oldest, clean_bucket,
  clean_buckets,
}
use pipe_vision.Api.Retention.Files.{Distinct}
use pipe_vision.Api.Retention.Loop.{
  In-of_delete_oldest, Distinct-delete_oldest, delete_oldest-tried, In-sort_oldest,
  In-of_sort_oldest, In-delete_oldest,
}

abbrev pub InSome : Picture → List (List Picture) → Type 0
InSome q [] = ⊥
InSome q (b ∷ bs) = In q b ⊎ InSome q bs

module _ (os : Os) (stats : (p : Picture) → os.stat_fails p ≡ false) where
  cannot_unlink : (q : Picture) → can_delete os q ≡ false → os.unlink_fails q ≡ true
  cannot_unlink q h = ground (arith, stats q)

  stats_work : (ps : List Picture) → any_stat_fails os ps ≡ false
  unfolding any_stat_fails
  stats_work [] = refl
  stats_work (p ∷ ps) = rw (stats p) (stats_work ps)

  pub In-of_clean_bucket :
      (enough : ℕ) (q : Picture) (b : List Picture) (s : Store)
      → In q (clean_bucket os enough b s).pictures
      → In q s.pictures
  unfolding clean_bucket
  In-of_clean_bucket enough q b s i =
      In-of_delete_oldest os enough q (sort_oldest os b) s (rw (stats_work b) at i)

  pub Distinct-clean_bucket :
      (enough : ℕ) (b : List Picture) (s : Store)
      → Distinct s.pictures
      → Distinct (clean_bucket os enough b s).pictures
  unfolding clean_bucket
  Distinct-clean_bucket enough b s d =
      rw (stats_work b) (Distinct-delete_oldest os enough (sort_oldest os b) s d)

  pub clean_bucket-tried :
      (enough : ℕ) (q : Picture) (b : List Picture) (s : Store)
      → Distinct s.pictures
      → leb enough (free os (clean_bucket os enough b s).pictures) ≡ false
      → In q b
      → In q (clean_bucket os enough b s).pictures
      → os.unlink_fails q ≡ true
  unfolding clean_bucket
  clean_bucket-tried enough q b s d short i left = cannot_unlink q (
      delete_oldest-tried os enough q (sort_oldest os b) s d (rw (stats_work b) at short)
        (In-sort_oldest os q b i) (rw (stats_work b) at left))

  pub In-clean_bucket :
      (enough : ℕ) (q : Picture) (b : List Picture) (s : Store)
      → ((p : Picture) → In p b → same_file q p ≡ false)
      → In q s.pictures
      → In q (clean_bucket os enough b s).pictures
  unfolding clean_bucket
  In-clean_bucket enough q b s ne i = rw (stats_work b) (
      In-delete_oldest os enough q (sort_oldest os b) s (λ p j. ne p (In-of_sort_oldest os p b j))
        i)

  -- Where enough is free no bucket is opened.
  pub clean_buckets-enough :
      (enough : ℕ) (bs : List (List Picture)) (s : Store)
      → leb enough (free os s.pictures) ≡ true
      → clean_buckets os enough bs s ≡ s
  unfolding clean_buckets
  clean_buckets-enough enough [] s h = refl
  clean_buckets-enough enough (b ∷ bs) s h = rw h refl

  pub In-of_clean_buckets :
      (enough : ℕ) (q : Picture) (bs : List (List Picture)) (s : Store)
      → In q (clean_buckets os enough bs s).pictures
      → In q s.pictures
  unfolding clean_buckets
  In-of_clean_buckets enough q [] s i = i
  In-of_clean_buckets enough q (b ∷ bs) s i = elim (Bool-cases (leb enough (free os s.pictures))) [
    | inl e ↦ rw e at i
    | inr e ↦
        In-of_clean_bucket enough q b s
          (In-of_clean_buckets enough q bs (clean_bucket os enough b s) (rw e at i))
  ]

  pub clean_buckets-tried :
      (enough : ℕ) (q : Picture) (bs : List (List Picture)) (s : Store)
      → Distinct s.pictures
      → leb enough (free os (clean_buckets os enough bs s).pictures) ≡ false
      → InSome q bs
      → In q (clean_buckets os enough bs s).pictures
      → os.unlink_fails q ≡ true
  unfolding clean_buckets
  clean_buckets-tried enough q [] s d short i left = absurd i
  clean_buckets-tried enough q (b ∷ bs) s d short i left =
      let s1 = clean_bucket os enough b s in
      elim (Bool-cases (leb enough (free os s.pictures))) [
        | inl e ↦ absurd (both e (rw e at short))
        | inr e ↦ elim i [
          | inl here ↦ elim (Bool-cases (leb enough (free os s1.pictures))) [
            | inl k ↦ absurd (both k (rw (clean_buckets-enough enough bs s1 k) at (rw e at short)))
            | inr k ↦
                clean_bucket-tried enough q b s d k here
                  (In-of_clean_buckets enough q bs s1 (rw e at left))
          ]
          | inr later ↦
              clean_buckets-tried enough q bs s1 (Distinct-clean_bucket enough b s d)
                (rw e at short) later (rw e at left)
        ]
      ]
    where
      both : {b : Bool} → b ≡ true → b ≡ false → ⊥
      both h k = cc
