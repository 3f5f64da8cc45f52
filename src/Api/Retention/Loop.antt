-- ===== src/Api/Retention/Loop.antt =====
-- The loops of a clean-up that delete pictures (services/api/core/retention.py).
use pipe_vision.Prelude.{ℕ, false, List, [], ◌∷◌, ◌≡◌, refl, inl, inr, Bool-cases, In, leb}
use pipe_vision.Api.Retention.{
  Picture, same_file, Store, Os, free, delete, can_delete, insert_oldest, sort_oldest,
  delete_oldest,
}
use pipe_vision.Api.Retention.Files.{
  Distinct, In-of_remove, In-remove_ne, Distinct-remove, remove-gone,
}

module _ (os : Os) where
  pub In-of_delete : (p q : Picture) (s : Store) → In q (delete os p s).pictures → In q s.pictures
  unfolding delete
  In-of_delete p q s i = elim (Bool-cases (can_delete os p)) [
    | inl e ↦ In-of_remove p q s.pictures (rw e at i)
    | inr e ↦ rw e at i
  ]

  pub Distinct-delete :
      (p : Picture) (s : Store) → Distinct s.pictures → Distinct (delete os p s).pictures
  unfolding delete
  Distinct-delete p s d = elim (Bool-cases (can_delete os p)) [
    | inl e ↦ rw e (Distinct-remove p s.pictures d)
    | inr e ↦ rw e d
  ]

  delete-gone :
      (p : Picture) (s : Store)
      → Distinct s.pictures
      → In p (delete os p s).pictures
      → can_delete os p ≡ false
  unfolding delete
  delete-gone p s d i = elim (Bool-cases (can_delete os p)) [
    | inl e ↦ absurd (remove-gone p s.pictures d (rw e at i))
    | inr e ↦ e
  ]

  -- A picture which is not the file that is deleted stays.
  pub In-delete_ne :
      (p q : Picture) (s : Store)
      → same_file q p ≡ false
      → In q s.pictures
      → In q (delete os p s).pictures
  unfolding delete
  In-delete_ne p q s ne i = elim (Bool-cases (can_delete os p)) [
    | inl e ↦ rw e (In-remove_ne p q s.pictures ne i)
    | inr e ↦ rw e i
  ]

  pub In-of_delete_oldest :
      (enough : ℕ) (q : Picture) (ps : List Picture) (s : Store)
      → In q (delete_oldest os enough ps s).pictures
      → In q s.pictures
  unfolding delete_oldest
  In-of_delete_oldest enough q [] s i = i
  In-of_delete_oldest enough q (p ∷ ps) s i = elim (Bool-cases (leb enough (free os s.pictures))) [
    | inl e ↦ rw e at i
    | inr e ↦ In-of_delete p q s (In-of_delete_oldest enough q ps (delete os p s) (rw e at i))
  ]

  pub Distinct-delete_oldest :
      (enough : ℕ) (ps : List Picture) (s : Store)
      → Distinct s.pictures
      → Distinct (delete_oldest os enough ps s).pictures
  unfolding delete_oldest
  Distinct-delete_oldest enough [] s d = d
  Distinct-delete_oldest enough (p ∷ ps) s d = elim (Bool-cases (leb enough (free os s.pictures))) [
    | inl e ↦ rw e d
    | inr e ↦ rw e (Distinct-delete_oldest enough ps (delete os p s) (Distinct-delete p s d))
  ]

  -- What is left of the pictures of a loop that did not free enough.
  pub delete_oldest-tried :
      (enough : ℕ) (q : Picture) (ps : List Picture) (s : Store)
      → Distinct s.pictures
      → leb enough (free os (delete_oldest os enough ps s).pictures) ≡ false
      → In q ps
      → In q (delete_oldest os enough ps s).pictures
      → can_delete os q ≡ false
  unfolding delete_oldest
  delete_oldest-tried enough q [] s d short i left = absurd i
  delete_oldest-tried enough q (p ∷ ps) s d short i left =
      elim (Bool-cases (leb enough (free os s.pictures))) [
        | inl e ↦ cc
        | inr e ↦
            let s1 = delete os p s in
            let d1 = Distinct-delete p s d in
            let left1 : In q (delete_oldest os enough ps s1).pictures = rw e at left in
            elim i [
              | inl same ↦
                  delete-gone q s d
                    (rw same at (In-of_delete_oldest enough q ps (delete os p s) left1))
              | inr j ↦ delete_oldest-tried enough q ps (delete os p s) d1 (rw e at short) j left1
            ]
      ]

  In-insert_oldest :
      (p q : Picture) (ps : List Picture) → In q (p ∷ ps) → In q (insert_oldest os p ps)
  unfolding insert_oldest
  In-insert_oldest p q [] i = i
  In-insert_oldest p q (x ∷ xs) i = elim (Bool-cases (leb p.mtime x.mtime)) [
    | inl e ↦ rw e i
    | inr e ↦ rw e (elim i [
      | inl same ↦ inr (In-insert_oldest p q xs (inl same))
      | inr j ↦ elim j [ inl same ↦ inl same | inr k ↦ inr (In-insert_oldest p q xs (inr k)) ]
    ])
  ]

  pub In-sort_oldest : (q : Picture) (ps : List Picture) → In q ps → In q (sort_oldest os ps)
  unfolding sort_oldest
  In-sort_oldest q [] i = i
  In-sort_oldest q (p ∷ ps) (inl e) = In-insert_oldest p q (sort_oldest os ps) (inl e)
  In-sort_oldest q (p ∷ ps) (inr i) =
      In-insert_oldest p q (sort_oldest os ps) (inr (In-sort_oldest q ps i))

  In-of_insert_oldest :
      (p q : Picture) (ps : List Picture) → In q (insert_oldest os p ps) → In q (p ∷ ps)
  unfolding insert_oldest
  In-of_insert_oldest p q [] i = i
  In-of_insert_oldest p q (x ∷ xs) i = elim (Bool-cases (leb p.mtime x.mtime)) [
    | inl e ↦ rw e at i
    | inr e ↦ elim (rw e at i) [
      | inl same ↦ inr (inl same)
      | inr j ↦ elim (In-of_insert_oldest p q xs j) [ inl same ↦ inl same | inr k ↦ inr (inr k) ]
    ]
  ]

  pub In-of_sort_oldest : (q : Picture) (ps : List Picture) → In q (sort_oldest os ps) → In q ps
  unfolding sort_oldest
  In-of_sort_oldest q [] i = i
  In-of_sort_oldest q (p ∷ ps) i = elim (In-of_insert_oldest p q (sort_oldest os ps) i) [
    | inl same ↦ inl same
    | inr j ↦ inr (In-of_sort_oldest q ps j)
  ]

  -- A picture stays in a loop over other files.
  pub In-delete_oldest :
      (enough : ℕ) (q : Picture) (ps : List Picture) (s : Store)
      → ((p : Picture) → In p ps → same_file q p ≡ false)
      → In q s.pictures
      → In q (delete_oldest os enough ps s).pictures
  unfolding delete_oldest
  In-delete_oldest enough q [] s ne i = i
  In-delete_oldest enough q (p ∷ ps) s ne i = elim (Bool-cases (leb enough (free os s.pictures))) [
    | inl e ↦ rw e i
    | inr e ↦ rw e (
        In-delete_oldest enough q ps (delete os p s) (λ r j. ne r (inr j))
          (In-delete_ne p q s (ne p (inl refl)) i))
  ]
