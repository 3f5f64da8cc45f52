-- ===== src/Spool/Flush/Network.antt =====
-- What a flush sends, and a flush without a network.
use pipe_vision.Prelude.{
  ℕ, suc, ◌+◌, ◌≡◌, ◌≢◌, refl, ◌∙◌, ◌-◌, true, Option, none, some, List, [], ◌∷◌, inl, inr, arith,
  Bool-cases, Option-cases, take, max,
}
use pipe_vision.Prelude.Text.{Text}
use pipe_vision.Spool.Names.{path_parts}
use pipe_vision.Spool.Store.{
  Payload, Entry, Spool, Disk, find_entry, find_image, image_keys, pending_files,
}
use pipe_vision.Spool.Store.Entries.{Distinct, find_of_In, In-sort_oldest}
use pipe_vision.Spool.Flush.{
  start, forget_image, limit_of, Upload, unreachable, UploadState, ok, hold, abort, Run,
  without_images, is_accepted_status, upload_pending_images, judge, transmit, after_images,
  flush_item, flush_items, flush,
}

-- A property of the server that a post keeps if the payload has no image keys, and an upload keeps.
pub record Stable {S : Type 0} (Q : S → Type 0) (post : Payload → S → ℕ × S)
    (upload : Option (Text → List ℕ → S → Upload × S)) : Type 0 where
  pub by_post : (p : Payload) (s : S) → p.pending_images ≡ none → Q s → Q (post p s).1
  pub by_upload :
      (f : Text → List ℕ → S → Upload × S)
      → upload ≡ some f
      → (k : Text) (j : List ℕ) (s : S) → Q s
      → Q (f k j s).1

module _ {S : Type 0} (Q : S → Type 0) (disk : Disk) (post : Payload → S → ℕ × S) where
  uploads-Stable :
      (upload : Option (Text → List ℕ → S → Upload × S))
      → Stable Q post upload
      → (keys : List Text) (s : Spool) (srv : S) → Q srv
      → Q (upload_pending_images disk post upload keys s srv).2
  unfolding upload_pending_images
  uploads-Stable upload law [] s srv q = q
  uploads-Stable none law (key ∷ keys) s srv q =
      elim (Option-cases (find_image (path_parts key) s.images)) [
        | inl e ↦ rw (e, upload_pending_images) (uploads-Stable none law keys s srv q)
        | inr (img, e) ↦ rw (e, upload_pending_images) q
      ]
  uploads-Stable (some f) law (key ∷ keys) s srv q =
      elim (Option-cases (find_image (path_parts key) s.images)) [
        | inl e ↦ rw (e, upload_pending_images) (uploads-Stable (some f) law keys s srv q)
        | inr (img, e) ↦
            rw (e, upload_pending_images)
              (ground (
                arith,
                law.by_upload f refl key img.jpeg srv q,
                uploads-Stable (some f) law keys (forget_image disk (path_parts key) s)
                    (f key img.jpeg srv).1,
              ))
      ]

module _ {S : Type 0} (Q : S → Type 0) (disk : Disk) (post : Payload → S → ℕ × S)
    (upload : Option (Text → List ℕ → S → Upload × S)) (law : Stable Q post upload) where
  judge-server :
      (n : Text) (status : ℕ) (r : Run S) → (judge disk post upload n status r).1.server ≡ r.server
  unfolding judge
  judge-server n status r = ground arith

  after_images-Stable :
      (n : Text) (p : Payload) (state : UploadState) (r : Run S)
      → Q r.server
      → Q (after_images disk post upload n p state r).1.server
  unfolding after_images transmit
  after_images-Stable n p ok r q =
      let p' = without_images p in rw judge-server (law.by_post p' r.server refl q)
  after_images-Stable n p hold r q = q
  after_images-Stable n p abort r q = q

  flush_item-Stable :
      (n : Text) (r : Run S) → Q r.server → Q (flush_item disk post upload n r).1.server
  unfolding flush_item
  flush_item-Stable n r q = elim (Option-cases (find_entry n r.spool.pending)) [
    | inl gone ↦ rw (gone, flush_item) q
    | inr (x, found) ↦ elim (Option-cases x.body) [
      | inl broken ↦ rw (found, flush_item) (rw (broken, flush_item) q)
      | inr (p, body) ↦
          let (state, s, srv) =
            upload_pending_images disk post upload (image_keys p) r.spool r.server in
          rw (found, flush_item)
            (rw (body, flush_item)
              (after_images-Stable n p state (record r { spool = s; server = srv })
                (uploads-Stable Q disk post upload law (image_keys p) r.spool r.server q)))
    ]
  ]

  flush_items-Stable :
      (es : List Entry) (r : Run S) → Q r.server → Q (flush_items disk post upload es r).server
  unfolding flush_items
  flush_items-Stable [] r q = q
  flush_items-Stable (e ∷ es) r q =
      let (stop, r') = flush_item disk post upload e.name r in
      let q' = flush_item-Stable e.name r q in
      elim (Bool-cases stop) [
        | inl halt ↦ rw (halt, flush_items) q'
        | inr go ↦ rw (go, flush_items) (flush_items-Stable es r' q')
      ]

  -- The server only ever sees payloads without the image keys: whatever property of it each upload
  -- keeps, and each post of a payload without them, a flush keeps too.
  pub flush_posts_no_image_keys :
      (batch : Option ℕ) (s : Spool) (srv : S)
      → Q srv
      → Q (flush disk post upload batch s srv).server
  unfolding flush
  flush_posts_no_image_keys batch s srv q =
      flush_items-Stable (take (max 1 (limit_of batch s)) (pending_files s)) (start s srv) q

module _ {S : Type 0} (disk : Disk) (post : Payload → S → ℕ × S)
    (f : Text → List ℕ → S → Upload × S) (down : (p : Payload) (s : S) → (post p s).0 ≡ 0)
    (cut_off : (k : Text) (j : List ℕ) (s : S) → (f k j s).0 ≡ unreachable) where
  uploads_down :
      (keys : List Text) (s : Spool) (srv : S)
      → let (state, s', srv') = upload_pending_images disk post (some f) keys s srv in
        (state ≢ hold) × (s' ≡ s)
  unfolding upload_pending_images
  uploads_down [] s srv = ground arith
  uploads_down (key ∷ keys) s srv = elim (Option-cases (find_image (path_parts key) s.images)) [
    | inl e ↦ rw (e, upload_pending_images) (uploads_down keys s srv)
    | inr (img, e) ↦
        rw (e, upload_pending_images) (rw (cut_off, upload_pending_images) (ground arith))
  ]

  after_images_down :
      (n : Text) (p : Payload) (state : UploadState) (r : Run S)
      → state ≢ hold
      → let (stop, r') = after_images disk post (some f) n p state r in
        (stop ≡ true)
        × (r'.spool ≡ r.spool)
        × (r'.report ≡ record r.report { held = r.report.held + 1; aborted = true })
  unfolding after_images transmit judge is_accepted_status
  after_images_down n p ok r h = rw down (refl, refl, refl)
  after_images_down n p hold r h = absurd (h refl)
  after_images_down n p abort r h = (refl, refl, refl)

  flush_item_down :
      (n : Text) (x : Entry) (p : Payload) (r : Run S)
      → find_entry n r.spool.pending ≡ some x
      → x.body ≡ some p
      → let (stop, r') = flush_item disk post (some f) n r in
        (stop ≡ true)
        × (r'.spool ≡ r.spool)
        × (r'.report ≡ record r.report { held = r.report.held + 1; aborted = true })
  unfolding flush_item
  flush_item_down n x p r found body =
      let (state, s, srv) =
        upload_pending_images disk post (some f) (image_keys p) r.spool r.server in
      let (not_held, same) = uploads_down (image_keys p) r.spool r.server in
      let (stops, kept, told) =
        after_images_down n p state (record r { spool = s; server = srv }) not_held in
      rw (found, flush_item) (rw (body, flush_item) (stops, kept ∙ same, told))

  -- With no network, where no post and no upload is answered, a flush that has a function to upload
  -- pictures gives up at the oldest item: the spool is as it was, and the report says that one item
  -- is held and that the flush was aborted. The oldest item's file is one that can be read, and
  -- pending files have distinct names.
  pub flush_offline :
      (batch : Option ℕ) (s : Spool) (srv : S) (e : Entry) (es : List Entry) (p : Payload)
      → Distinct s.pending
      → pending_files s ≡ e ∷ es
      → e.body ≡ some p
      → let r = flush disk post (some f) batch s srv in
        (r.spool ≡ s) × (r.report ≡ record { sent = 0; held = 1; dead = 0; aborted = true })
  unfolding flush flush_items pending_files
  flush_offline batch s srv e es p d oldest body =
      let n = max 1 (limit_of batch s) in
      let at_least : n ≡ suc (n - 1) = omega arith in
      let found = find_of_In e s.pending d (In-sort_oldest e s.pending (rw oldest (inl refl))) in
      let (stops, kept, told) = flush_item_down e.name e p (start s srv) found body in
      rw (oldest, at_least) (rw (stops, flush_items) (kept, told))
