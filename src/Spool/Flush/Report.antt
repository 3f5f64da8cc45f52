-- ===== src/Spool/Flush/Report.antt =====
-- What the report of a flush counts.
use pipe_vision.Prelude.{
  ℕ, suc, ◌+◌, ◌≤◌, ◌≡◌, ◌⊎◌, refl, Bool, true, false, Option, List, [], ◌∷◌, inl, inr, arith,
  Option-cases, take, max, min, length, length-take,
}
use pipe_vision.Prelude.Text.{Text}
use pipe_vision.Spool.Store.{
  Payload, Entry, Spool, Disk, find_entry, image_keys, insert_oldest, sort_oldest,
}
use pipe_vision.Spool.Flush.{
  limit_of, Upload, UploadState, ok, hold, abort, FlushReport, Run, without_images,
  upload_pending_images, judge, transmit, after_images, flush_item, flush_items, flush,
}

-- The items that a report counts.
abbrev pub tally : FlushReport → ℕ
tally r = r.sent + r.held + r.dead

module _ {S : Type 0} (disk : Disk) (post : Payload → S → ℕ × S)
    (upload : Option (Text → List ℕ → S → Upload × S)) where
  -- One item adds one to the tally, and stops the flush just when it sets `aborted`.
  abbrev Counted : Run S → Bool × Run S → Type 0
  Counted r (stop, r') =
      (tally r'.report ≡ tally r.report + 1)
      × (((stop ≡ true) × (r'.report.aborted ≡ true))
          ⊎ ((stop ≡ false) × (r'.report.aborted ≡ r.report.aborted)))

  judge-Counted :
      (n : Text) (status : ℕ) (r : Run S) → Counted r (judge disk post upload n status r)
  unfolding judge
  judge-Counted n status r = ground arith

  after_images-Counted :
      (n : Text) (p : Payload) (state : UploadState) (r : Run S)
      → Counted r (after_images disk post upload n p state r)
  unfolding after_images transmit
  after_images-Counted n p ok r =
      judge-Counted n (post (without_images p) r.server).0
        (record r { server = (post (without_images p) r.server).1 })
  after_images-Counted n p hold r = ground arith
  after_images-Counted n p abort r = ground arith

  flush_item-Counted : (n : Text) (r : Run S) → Counted r (flush_item disk post upload n r)
  unfolding flush_item
  flush_item-Counted n r = elim (Option-cases (find_entry n r.spool.pending)) [
    | inl gone ↦ rw (gone, flush_item) (ground arith)
    | inr (x, found) ↦ elim (Option-cases x.body) [
      | inl broken ↦ rw (found, flush_item) (rw (broken, flush_item) (ground arith))
      | inr (p, body) ↦
          let (state, s, srv) =
            upload_pending_images disk post upload (image_keys p) r.spool r.server in
          rw (found, flush_item)
            (rw (body, flush_item)
              (after_images-Counted n p state (record r { spool = s; server = srv })))
    ]
  ]

  abbrev Tallied : ℕ → Run S → Run S → Type 0
  Tallied n r r' =
      (tally r'.report ≤ tally r.report + n)
      × ((r'.report.aborted ≡ true)
          ⊎ ((tally r'.report ≡ tally r.report + n) × (r'.report.aborted ≡ r.report.aborted)))

  flush_items-Tallied :
      (es : List Entry) (r : Run S) → Tallied (length es) r (flush_items disk post upload es r)
  unfolding flush_items
  flush_items-Tallied [] r = ground arith
  flush_items-Tallied (e ∷ es) r = ground (
    arith,
    flush_item-Counted e.name r,
    flush_items-Tallied es (flush_item disk post upload e.name r).1,
  )

length-insert_oldest : (e : Entry) (es : List Entry) → length (insert_oldest e es) ≡ suc (length es)
unfolding insert_oldest
length-insert_oldest e [] = refl
length-insert_oldest e (x ∷ xs) = ground (arith, length-insert_oldest e xs)

length-sort_oldest : (es : List Entry) → length (sort_oldest es) ≡ length es
unfolding sort_oldest
length-sort_oldest [] = refl
length-sort_oldest (e ∷ es) =
    omega (arith, length-insert_oldest e (sort_oldest es), length-sort_oldest es)

module _ {S : Type 0} (disk : Disk) (post : Payload → S → ℕ × S)
    (upload : Option (Text → List ℕ → S → Upload × S)) where
  -- The items that a flush reports as sent, held or dead are as many as the batch (at least one) and
  -- the queue allow, or at most so many if it reports that it was aborted.
  pub flush-tally :
      (batch : Option ℕ) (s : Spool) (srv : S)
      → let report = (flush disk post upload batch s srv).report in
        let due = min (max 1 (limit_of batch s)) (length s.pending) in
        (tally report ≤ due) × ((report.aborted ≡ true) ⊎ (tally report ≡ due))
  unfolding flush
  flush-tally batch s srv =
      let n = max 1 (limit_of batch s) in
      ground (
        arith,
        length-sort_oldest s.pending,
        length-take n (sort_oldest s.pending),
        flush_items-Tallied disk post upload (take n (sort_oldest s.pending)) (record {
          report = record { sent = 0; held = 0; dead = 0; aborted = false };
          spool = s;
          server = srv;
        }),
      )
