-- ===== src/Worker/Cycle/Keeps/Rows.antt =====
-- What the rows and the pictures of a cycle leave of the order and the camera
-- (services/vision/worker/runner.py).
use pipe_vision.Prelude.{
  ℕ, zero, suc, ◌≡◌, ◌⊎◌, refl, Bool, ◌&&◌, ◌||◌, not, Option, none, some, List, [], ◌∷◌, inl, inr,
  leb, ltb, ◌==◌, length, Bool-cases, Option-cases, map,
}
use pipe_vision.Prelude.Int.{pos}
use pipe_vision.Prelude.Text.{Text}
use pipe_vision.Api.Rows.{InspectionResult}
use pipe_vision.Verdict.{VerdictResult}
use pipe_vision.Worker.Client.{ItemMaster, post_inspection_json}
use pipe_vision.Worker.Orders.{Order}
use pipe_vision.Worker.Results.{BatchMeta, TubeResult, tube_to_inspection}
use pipe_vision.Worker.State.{
  Try, taken, camera_error, other_error, BatchResult, Clock, Env, Worker,
}
use pipe_vision.Worker.Cycle.{
  grab_with_retry, send_status, send_idle_status, send, vision_empty, spool_result,
  post_or_classify, meta_of, show_ng,
}
use pipe_vision.Worker.Cycle.Report.{
  save_images, deliver, deliver_all, spool_all, post_all, with_ms, per_ea_ms,
}
use pipe_vision.Worker.Cycle.Modes.{report_single, report_batch, report_count}

Try-cases :
    {F : Type 0} (t : Try F) → ((f : F) × (t ≡ taken f)) ⊎ ((t ≡ camera_error) ⊎ (t ≡ other_error))
Try-cases (taken f) = inl (f, refl)
Try-cases camera_error = inr (inl refl)
Try-cases other_error = inr (inr refl)

module _ {Cam Frame : Type 0} (grab_once : Cam → Try Frame × Cam) (Q : Cam → Type 0)
    (of_grab : (c : Cam) → Q c → Q (grab_once c).1) where
  pub grab_with_retry-keeps : (n : ℕ) (c : Cam) → Q c → Q (grab_with_retry grab_once n c).1
  unfolding grab_with_retry
  grab_with_retry-keeps zero c h = h
  grab_with_retry-keeps (suc n) c h = elim (Try-cases (grab_once c).0) [
    | inl (f, e) ↦ rw (e, grab_with_retry) (of_grab c h)
    | inr (inl e) ↦ rw (e, grab_with_retry) (grab_with_retry-keeps n (grab_once c).1 (of_grab c h))
    | inr (inr e) ↦ rw (e, grab_with_retry) (of_grab c h)
  ]

module _ {S Cam Scene Frame : Type 0} (env : Env S Cam Frame) (P : Order → Option Cam → Type 0)
    (of_grab : (o : Order) (c : Cam) → P o (some c) → P o (some (env.grab_once c).1)) where
  abbrev Holds : Worker S Cam Scene Frame → Type 0
  Holds w = P w.station.order w.station.camera

  send_status-Holds :
      (expected detected ng : ℕ) (mismatch : Bool) (ms : ℕ) (error : Option Text)
      (w : Worker S Cam Scene Frame)
      → Holds w
      → Holds (send_status env expected detected ng mismatch ms error w)
  unfolding send_status send
  send_status-Holds expected detected ng mismatch ms error w h = h

  pub vision_empty-Holds : (w : Worker S Cam Scene Frame) → Holds w → Holds (vision_empty env w)
  unfolding vision_empty send_idle_status send
  vision_empty-Holds w h = h

  post_or_classify-Holds :
      (r : InspectionResult) (w : Worker S Cam Scene Frame)
      → Holds w
      → Holds (post_or_classify env r w).1
  unfolding post_or_classify spool_result
  post_or_classify-Holds r w h =
      let got =
        post_inspection_json env.http w.station.link.client (env.model_dump r)
          w.station.link.server in
      elim (Bool-cases (leb 200 got.0 && ltb got.0 300)) [
        | inl e ↦ rw (e, post_or_classify) h
        | inr e ↦ elim (Bool-cases (got.0 == 0 || leb 500 got.0)) [
          | inl f ↦ rw (e, f, post_or_classify, spool_result) h
          | inr f ↦ rw (e, f, post_or_classify) h
        ]
      ]

  post_all-Holds :
      (rs : List InspectionResult) (w : Worker S Cam Scene Frame)
      → Holds w
      → Holds (post_all env rs w).1
  unfolding post_all
  post_all-Holds [] w h = h
  post_all-Holds (r ∷ rs) w h =
      post_all-Holds rs (post_or_classify env r w).1 (post_or_classify-Holds r w h)

  spool_all-Holds :
      (images : List Text) (rs : List InspectionResult) (w : Worker S Cam Scene Frame)
      → Holds w
      → Holds (spool_all env images rs w)
  unfolding spool_all spool_result
  spool_all-Holds images [] w h = h
  spool_all-Holds images (r ∷ rs) w h = spool_all-Holds images rs (spool_result env images r w) h

  deliver-Holds :
      (images : List Text) (r : InspectionResult) (w : Worker S Cam Scene Frame)
      → Holds w
      → Holds (deliver env images r w).1
  unfolding deliver spool_result
  deliver-Holds [] r w h = post_or_classify-Holds r w h
  deliver-Holds (i ∷ is) r w h = h

  deliver_all-Holds :
      (clock : Clock) (expected : ℕ) (b : BatchResult) (images : List Text)
      (rs : List InspectionResult) (w : Worker S Cam Scene Frame)
      → Holds w
      → Holds (deliver_all env clock expected b images rs w).1
  unfolding deliver_all
  deliver_all-Holds clock expected b [] rs w h =
      send_status-Holds expected b.count_detected b.ng_count b.count_mismatch clock.total_ms none
        (post_all env rs w).1 (post_all-Holds rs w h)
  deliver_all-Holds clock expected b (i ∷ is) rs w h = spool_all-Holds (i ∷ is) rs w h

  save_images-Holds :
      (frame : Frame) (meta : BatchMeta) (ng review : Bool) (w : Worker S Cam Scene Frame)
      → Holds w
      → Holds (save_images env frame meta ng review w).1
  unfolding save_images
  save_images-Holds frame meta ng review w h = elim (Option-cases (env.eyes.draw frame meta ng)) [
    | inl e ↦ rw (e, save_images) h
    | inr (d, e) ↦ rw (e, save_images) h
  ]

  pub report_single-Holds :
      (clock : Clock) (frame : Frame) (at : ℕ) (v : VerdictResult) (w : Worker S Cam Scene Frame)
      → Holds w
      → Holds (report_single env clock frame at v w).1
  unfolding report_single send_status send
  report_single-Holds clock frame at v w h = deliver-Holds _ _ _ (save_images-Holds frame _ _ _ w h)

  pub report_batch-Holds :
      (clock : Clock) (frame : Frame) (at expected : ℕ) (item : ItemMaster) (b : BatchResult)
      (w : Worker S Cam Scene Frame)
      → Holds w
      → Holds (report_batch env clock frame at expected item b w).1
  unfolding report_batch
  report_batch-Holds clock frame at expected item b w h =
      let saved = save_images env frame (meta_of env at none none w) b.batch_ng b.any_review w in
      let meta = meta_of env at saved.0.raw_image_path saved.0.result_image_path w in
      deliver_all-Holds clock expected b saved.0.pending_images
        (map
          (λ (t : TubeResult).
            with_ms (per_ea_ms clock.total_ms (length b.tubes))
              (tube_to_inspection (some (pos item.ref_length_mm)) meta t))
          b.tubes)
        (show_ng env (not (b.ng_count == 0) || b.count_mismatch || b.count_uncertain) saved.1)
        (save_images-Holds frame (meta_of env at none none w) b.batch_ng b.any_review w h)

  pub report_count-Holds :
      (clock : Clock) (frame : Frame) (at expected : ℕ) (item : ItemMaster) (detected : ℕ)
      (w : Worker S Cam Scene Frame)
      → Holds w
      → Holds (report_count env clock frame at expected item detected w).1
  unfolding report_count send_status send
  report_count-Holds clock frame at expected item detected w h =
      deliver-Holds _ _ _ (save_images-Holds frame _ _ _ w h)
