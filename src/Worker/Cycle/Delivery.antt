-- ===== src/Worker/Cycle/Delivery.antt =====
-- Where the rows of a picture are afterwards (`_post_or_classify` and `_run_once_batch` of
-- services/vision/worker/runner.py).
use mathlib.Core.Logic.{⊎_map}
use pipe_vision.Prelude.{
  ℕ, ◌+◌, ◌≡◌, ◌⊎◌, Bool, true, false, ◌&&◌, ◌||◌, not, Option, none, List, [], ◌∷◌, inl, inr,
  arith, leb, ltb, ◌==◌, Bool-cases, All,
}
use pipe_vision.Prelude.Text.{Text}
use pipe_vision.Api.Rows.{InspectionResult}
use pipe_vision.Spool.Store.{Payload, Target, with_images}
use pipe_vision.Spool.Store.Room.{HasPayload, Room, enqueue-HasPayload, enqueue-keeps, enqueue-Room}
use pipe_vision.Worker.Client.{ApiClient, Status, heartbeat, post_inspection_json}
use pipe_vision.Worker.State.{BatchResult, Clock, Env, Worker}
use pipe_vision.Worker.Cycle.{post_or_classify, spool_result, send_status, send, status_of}
use pipe_vision.Worker.Cycle.Report.{post_all, spool_all, deliver_all}

-- An answer after which the row is not sent again.
unfoldable pub is_final : ℕ → Bool
is_final status = not (status == 0 || leb 500 status)

accepted_is_final : (n : ℕ) → (leb 200 n && ltb n 300) ≡ true → is_final n ≡ true
unfolding is_final
accepted_is_final n h = ground arith

other_is_final : (n : ℕ) → (n == 0 || leb 500 n) ≡ false → is_final n ≡ true
unfolding is_final
other_is_final n h = ground arith

abbrev size_of : (Payload → ℕ) → (InspectionResult → Payload) → List Text → InspectionResult → ℕ
size_of json_size dump images r = json_size (with_images images (dump r))

-- The room that the rows take in the spool.
unfoldable pub needed :
    (Payload → ℕ) → (InspectionResult → Payload) → List Text → List InspectionResult → ℕ
needed json_size dump images [] = 0
needed json_size dump images (r ∷ rs) =
    size_of json_size dump images r + needed json_size dump images rs

All-mono :
    {A : Type 0} {P Q : A → Type 0} (xs : List A) → ((a : A) → P a → Q a) → All P xs → All Q xs
All-mono [] f h = tt
All-mono (x ∷ xs) f h = (f x h.0, All-mono xs f h.1)

-- The server has given a final answer, or the row is in the spool.
abbrev pub Settled :
    {S Cam Scene Frame : Type 0}
    → Env S Cam Frame
    → (Payload → ℕ → S → Type 0)
    → List Text
    → InspectionResult
    → Worker S Cam Scene Frame
    → Type 0
Settled env Answered images r w =
    HasPayload (with_images images (env.model_dump r)) w.spool
    ⊎ ((n : ℕ) × Answered (env.model_dump r) n w.station.link.server × (is_final n ≡ true))

module _ {S Cam Scene Frame : Type 0} (env : Env S Cam Frame)
    (writes : (t : Target) → env.disk.write_fails t ≡ false) (Answered : Payload → ℕ → S → Type 0)
    (answers : (c : ApiClient) (p : Payload) (srv : S)
      → Answered p
          (post_inspection_json env.http c p srv).0
          (post_inspection_json env.http c p srv).1)
    (post_keeps : (c : ApiClient) (p q : Payload) (n : ℕ) (srv : S)
      → Answered q n srv
      → Answered q n (post_inspection_json env.http c p srv).1)
    (status_keeps : (c : ApiClient) (s : Status) (q : Payload) (n : ℕ) (srv : S)
      → Answered q n srv
      → Answered q n (heartbeat env.http c s srv).1) where
  post_or_classify-Settled :
      (r : InspectionResult) (w : Worker S Cam Scene Frame)
      → Room (size_of env.json_size env.model_dump [] r) w.spool
      → Settled env Answered [] r (post_or_classify env r w).1
  unfolding post_or_classify spool_result
  post_or_classify-Settled r w room =
      let c = w.station.link.client in
      let got = post_inspection_json env.http c (env.model_dump r) w.station.link.server in
      let known = answers c (env.model_dump r) w.station.link.server in
      elim (Bool-cases (leb 200 got.0 && ltb got.0 300)) [
        | inl e ↦ rw (e, post_or_classify) (inr (got.0, known, accepted_is_final got.0 e))
        | inr e ↦ elim (Bool-cases (got.0 == 0 || leb 500 got.0)) [
          | inl retry ↦
              rw (e, retry, post_or_classify, spool_result)
                (inl (
                  enqueue-HasPayload env.disk env.json_size writes (env.model_dump r) [] w.spool
                    room))
          | inr refused ↦
              rw (e, refused, post_or_classify) (inr (got.0, known, other_is_final got.0 refused))
        ]
      ]

  post_or_classify-keeps :
      (r q : InspectionResult) (images : List Text) (w : Worker S Cam Scene Frame)
      → Room (size_of env.json_size env.model_dump [] r) w.spool
      → Settled env Answered images q w
      → Settled env Answered images q (post_or_classify env r w).1
  unfolding post_or_classify spool_result
  post_or_classify-keeps r q images w room h =
      let c = w.station.link.client in
      let p = env.model_dump r in
      let got = post_inspection_json env.http c p w.station.link.server in
      let later : (n : ℕ) × Answered (env.model_dump q) n w.station.link.server
            × (is_final n ≡ true)
          → (n : ℕ) × Answered (env.model_dump q) n got.1 × (is_final n ≡ true) =
        λ (n, a, f). (n, post_keeps c p (env.model_dump q) n w.station.link.server a, f) in
      elim (Bool-cases (leb 200 got.0 && ltb got.0 300)) [
        | inl e ↦ rw (e, post_or_classify) (⊎_map (λ i. i) later h)
        | inr e ↦ elim (Bool-cases (got.0 == 0 || leb 500 got.0)) [
          | inl retry ↦
              rw (e, retry, post_or_classify, spool_result)
                (⊎_map
                  (enqueue-keeps env.disk env.json_size writes p
                    (with_images images (env.model_dump q)) [] w.spool room)
                  later h)
          | inr refused ↦ rw (e, refused, post_or_classify) (⊎_map (λ i. i) later h)
        ]
      ]

  post_or_classify-Room :
      (r : InspectionResult) (n : ℕ) (w : Worker S Cam Scene Frame)
      → Room (size_of env.json_size env.model_dump [] r + n) w.spool
      → Room n (post_or_classify env r w).1.spool
  unfolding post_or_classify spool_result
  post_or_classify-Room r n w room =
      let got =
        post_inspection_json env.http w.station.link.client (env.model_dump r)
          w.station.link.server in
      elim (Bool-cases (leb 200 got.0 && ltb got.0 300)) [
        | inl e ↦ rw (e, post_or_classify) (omega arith)
        | inr e ↦ elim (Bool-cases (got.0 == 0 || leb 500 got.0)) [
          | inl retry ↦
              rw (e, retry, post_or_classify, spool_result)
                (enqueue-Room env.disk env.json_size writes (env.model_dump r) [] n w.spool room)
          | inr refused ↦ rw (e, refused, post_or_classify) (omega arith)
        ]
      ]

  module _ (images : List Text) where
    spool_result-keeps :
        (r q : InspectionResult) (w : Worker S Cam Scene Frame)
        → Room (size_of env.json_size env.model_dump images r) w.spool
        → Settled env Answered images q w
        → Settled env Answered images q (spool_result env images r w)
    unfolding spool_result
    spool_result-keeps r q w room h =
        ⊎_map
          (enqueue-keeps env.disk env.json_size writes (env.model_dump r)
            (with_images images (env.model_dump q)) images w.spool room)
          (λ a. a) h

    spool_all-keeps :
        (q : InspectionResult) (rs : List InspectionResult) (w : Worker S Cam Scene Frame)
        → Room (needed env.json_size env.model_dump images rs) w.spool
        → Settled env Answered images q w
        → Settled env Answered images q (spool_all env images rs w)
    unfolding spool_all needed spool_result
    spool_all-keeps q [] w room h = h
    spool_all-keeps q (r ∷ rs) w room h =
        spool_all-keeps q rs (spool_result env images r w)
          (enqueue-Room env.disk env.json_size writes (env.model_dump r) images
            (needed env.json_size env.model_dump images rs) w.spool room)
          (spool_result-keeps r q w (omega arith) h)

    spool_all-Settled :
        (rs : List InspectionResult) (w : Worker S Cam Scene Frame)
        → Room (needed env.json_size env.model_dump images rs) w.spool
        → All
            (λ (r : InspectionResult). Settled env Answered images r (spool_all env images rs w))
            rs
    unfolding spool_all needed spool_result
    spool_all-Settled [] w room = tt
    spool_all-Settled (r ∷ rs) w room =
        let later =
          enqueue-Room env.disk env.json_size writes (env.model_dump r) images
            (needed env.json_size env.model_dump images rs) w.spool room in
        (
          spool_all-keeps r rs (spool_result env images r w) later (
              inl (
                enqueue-HasPayload env.disk env.json_size writes (env.model_dump r) images w.spool
                  (omega arith))),
          spool_all-Settled rs (spool_result env images r w) later,
        )

  post_all-keeps :
      (q : InspectionResult) (rs : List InspectionResult) (w : Worker S Cam Scene Frame)
      → Room (needed env.json_size env.model_dump [] rs) w.spool
      → Settled env Answered [] q w
      → Settled env Answered [] q (post_all env rs w).1
  unfolding post_all needed
  post_all-keeps q [] w room h = h
  post_all-keeps q (r ∷ rs) w room h =
      post_all-keeps q rs (post_or_classify env r w).1
        (post_or_classify-Room r (needed env.json_size env.model_dump [] rs) w room)
        (post_or_classify-keeps r q [] w (omega arith) h)

  post_all-Settled :
      (rs : List InspectionResult) (w : Worker S Cam Scene Frame)
      → Room (needed env.json_size env.model_dump [] rs) w.spool
      → All (λ (r : InspectionResult). Settled env Answered [] r (post_all env rs w).1) rs
  unfolding post_all needed
  post_all-Settled [] w room = tt
  post_all-Settled (r ∷ rs) w room =
      let later = post_or_classify-Room r (needed env.json_size env.model_dump [] rs) w room in
      (
        post_all-keeps r rs (post_or_classify env r w).1 later
            (post_or_classify-Settled r w (omega arith)),
        post_all-Settled rs (post_or_classify env r w).1 later,
      )

  send_status-keeps :
      (expected detected ng : ℕ) (mismatch : Bool) (ms : ℕ) (error : Option Text)
      (images : List Text) (q : InspectionResult) (w : Worker S Cam Scene Frame)
      → Settled env Answered images q w
      → Settled env Answered images q (send_status env expected detected ng mismatch ms error w)
  unfolding send_status send
  send_status-keeps expected detected ng mismatch ms error images q w h =
      ⊎_map (λ i. i)
        (λ (n, a, f). (
          n,
          status_keeps w.station.link.client
              (status_of env expected detected ng mismatch ms error false w) (env.model_dump q) n
              w.station.link.server a,
          f,
        ))
        h

  -- Every row of a picture is in the spool afterwards, or the server has given a final answer to it.
  pub deliver_all-Settled :
      (clock : Clock) (expected : ℕ) (b : BatchResult) (images : List Text)
      (rs : List InspectionResult) (w : Worker S Cam Scene Frame)
      → Room (needed env.json_size env.model_dump images rs) w.spool
      → All
          (λ (r : InspectionResult).
            Settled env Answered images r (deliver_all env clock expected b images rs w).1)
          rs
  unfolding deliver_all
  deliver_all-Settled clock expected b (i ∷ is) rs w room = spool_all-Settled (i ∷ is) rs w room
  deliver_all-Settled clock expected b [] rs w room =
      All-mono rs
        (λ (r : InspectionResult) h.
          send_status-keeps expected b.count_detected b.ng_count b.count_mismatch clock.total_ms
            none [] r (post_all env rs w).1 h)
        (post_all-Settled rs w room)
