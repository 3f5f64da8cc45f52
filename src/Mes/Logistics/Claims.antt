-- ===== src/Mes/Logistics/Claims.antt =====
-- When a claim has a closing time (services/mes/mes_app/routers/logistics.py).
use mathlib.Core.Option.{some-injective}
use pipe_vision.Prelude.{
  ℕ, Bool, true, false, Option, none, some, List, [], ◌∷◌, ◌≡◌, refl, arith, inl, inr, ◌==◌,
  Bool-cases, Option-cases, All, All-append,
}
use pipe_vision.Mes.Numbers.{is_taken}
use pipe_vision.Mes.WorkOrders.{Calendar, SoStatus, open_, closed, set_required, set_field}
use pipe_vision.Mes.Logistics.{
  Claim, ClaimIn, ClaimPatch, new_claim, claim_nos, create_claim, move_claim, tidy_type,
  patched_claim, find_claim, put_claim, patch_claim,
}

abbrev is_closed : SoStatus → Bool
is_closed open_ = false
is_closed closed = true

abbrev is_set : Option ℕ → Bool
is_set none = false
is_set (some at) = true

-- A claim has a closing time just when it is closed.
abbrev pub IsConsistent : Claim → Type 0
IsConsistent x = is_set x.closed_at ≡ is_closed x.status

move_claim-IsConsistent :
    (now : ℕ) (status : Option (Option SoStatus)) (x : Claim)
    → IsConsistent x
    → IsConsistent (move_claim now status x)
unfolding move_claim
move_claim-IsConsistent now none x h = h
move_claim-IsConsistent now (some none) x h = h
move_claim-IsConsistent now (some (some open_)) x h = ground arith
move_claim-IsConsistent now (some (some closed)) x h = ground arith

patched_claim-IsConsistent :
    (now : ℕ) (body : ClaimPatch) (x x' : Claim)
    → patched_claim now body x ≡ some x'
    → IsConsistent x
    → IsConsistent x'
unfolding patched_claim
patched_claim-IsConsistent now body x x' e h =
    let x1 = move_claim now body.status x in
    elim (Option-cases (set_required body.defect_qty x.defect_qty)) [
      | inl no_qty ↦ cc (rw (no_qty, patched_claim) at e)
      | inr (qty, has) ↦
          kept
            (record x1 {
              defect_qty = qty;
              defect_type = set_field (tidy_type body.defect_type) x1.defect_type;
              description = set_field body.description x1.description;
            })
            x' (rw (has, patched_claim) at e) (move_claim-IsConsistent now body.status x h)
    ]
  where
    kept : (u v : Claim) → some u ≡ some v → IsConsistent u → IsConsistent v
    kept u v e k = rw (← some-injective u v e) k

put_claim-Consistent :
    (x : Claim) (xs : List Claim)
    → IsConsistent x
    → All IsConsistent xs
    → All IsConsistent (put_claim x xs)
unfolding put_claim
put_claim-Consistent x [] h hs = hs
put_claim-Consistent x (y ∷ ys) h hs = elim (Bool-cases (y.id == x.id)) [
  | inl e ↦ rw e (h, hs.1)
  | inr e ↦ rw e (hs.0, put_claim-Consistent x ys h hs.1)
]

find_claim-Consistent :
    (id : ℕ) (x : Claim) (xs : List Claim)
    → find_claim id xs ≡ some x
    → All IsConsistent xs
    → IsConsistent x
unfolding find_claim
find_claim-Consistent id x [] e hs = cc
find_claim-Consistent id x (y ∷ ys) e hs = elim (Bool-cases (y.id == id)) [
  | inl k ↦ rw (← some-injective y x (rw k at e)) hs.0
  | inr k ↦ find_claim-Consistent id x ys (rw k at e) hs.1
]

-- The requests that make and change claims.
pub data Request : Type 0 where
  create : Calendar → (List Claim → List Claim) → ℕ → ClaimIn → Request
  patch : ℕ → ℕ → ClaimPatch → Request

unfoldable pub serve_claims : List Request → List Claim → List Claim
unfolding create_claim patch_claim
serve_claims [] xs = xs
serve_claims (create c meanwhile id body ∷ qs) xs =
    serve_claims qs (create_claim c meanwhile id body xs).1
serve_claims (patch now id body ∷ qs) xs = serve_claims qs (patch_claim now id body xs).1

abbrev pub Fair : Request → Type 0
Fair (create c meanwhile id body) =
    (xs : List Claim) → All IsConsistent xs → All IsConsistent (meanwhile xs)
Fair (patch now id body) = Unit

create_claim-Consistent :
    (c : Calendar) (meanwhile : List Claim → List Claim) (id : ℕ) (body : ClaimIn) (xs : List Claim)
    → ((ys : List Claim) → All IsConsistent ys → All IsConsistent (meanwhile ys))
    → All IsConsistent xs
    → All IsConsistent (create_claim c meanwhile id body xs).1
unfolding create_claim
create_claim-Consistent c meanwhile id body xs keeps hs =
    let x = new_claim c id body xs in
    elim (Bool-cases (is_taken x.claim_no (claim_nos (meanwhile xs)))) [
      | inl e ↦ rw e (keeps xs hs)
      | inr e ↦ rw e (All-append IsConsistent (meanwhile xs) (x ∷ []) (keeps xs hs) (refl, tt))
    ]

patch_claim-Consistent :
    (now id : ℕ) (body : ClaimPatch) (xs : List Claim)
    → All IsConsistent xs
    → All IsConsistent (patch_claim now id body xs).1
unfolding patch_claim
patch_claim-Consistent now id body xs hs = elim (Option-cases (find_claim id xs)) [
  | inl e ↦ rw (e, patch_claim) hs
  | inr (x, e) ↦ elim (Option-cases (patched_claim now body x)) [
    | inl f ↦ rw (e, f, patch_claim) hs
    | inr (x', f) ↦
        rw (e, f, patch_claim)
          (put_claim-Consistent x' xs
            (patched_claim-IsConsistent now body x x' f (find_claim-Consistent id x xs e hs)) hs)
  ]
]

-- Whatever claims are made and changed, if at the start each has a closing time just when it is closed,
-- and what other transactions do meanwhile keeps that, then it stays so.
pub serve_claims-IsConsistent :
    (qs : List Request) (xs : List Claim)
    → All Fair qs
    → All IsConsistent xs
    → All IsConsistent (serve_claims qs xs)
unfolding serve_claims
serve_claims-IsConsistent [] xs fair hs = hs
serve_claims-IsConsistent (create c meanwhile id body ∷ qs) xs fair hs =
    serve_claims-IsConsistent qs (create_claim c meanwhile id body xs).1 fair.1
      (create_claim-Consistent c meanwhile id body xs fair.0 hs)
serve_claims-IsConsistent (patch now id body ∷ qs) xs fair hs =
    serve_claims-IsConsistent qs (patch_claim now id body xs).1 fair.1
      (patch_claim-Consistent now id body xs hs)
