-- ===== src/Spool/Flush/Loss.antt =====
-- What a flush does with the items: none is lost, and no item is posted with its image keys.
use mathlib.Core.Logic.{⊎_map, ⊎_elim}
use pipe_vision.Prelude.{
  ℕ, ◌+◌, ◌≡◌, ◌⊎◌, ◌==◌, refl, sym, ap, ◌∙◌, true, false, Option, none, some, List, [], ◌∷◌, inl,
  inr, arith, In, Bool-cases, Option-cases, some,
}
use pipe_vision.Prelude.Text.{Text, text_eq, text_eq_iff}
use pipe_vision.Spool.Names.{path_parts}
use pipe_vision.Spool.Store.{
  pending_file, Payload, Entry, Spool, Disk, find_entry, unlink_entry, find_image, move_dead,
  image_keys,
}
use pipe_vision.Spool.Store.Entries.{
  Distinct, find-unlink_of_none, Distinct-unlink, find_of_In, In-unlink_ne, move-In,
}
use pipe_vision.Spool.Flush.{
  forget_image, Upload, UploadState, ok, hold, abort, Run, without_images, is_accepted_status,
  is_permanent_status, upload_pending_images, bury, settle, judge, transmit, after_images, handle,
  flush_item, flush_items, flush,
}

-- A server with the payloads that it has taken: it forgets none, and has taken what it answers 2xx.
pub record Remembers {S : Type 0} (accepted : S → List Payload) (post : Payload → S → ℕ × S)
    (upload : Option (Text → List ℕ → S → Upload × S)) : Type 0 where
  pub post_keeps : (p q : Payload) (s : S) → In q (accepted s) → In q (accepted (post p s).1)
  pub post_takes :
      (p : Payload) (s : S) → is_accepted_status (post p s).0 ≡ true → In p (accepted (post p s).1)
  pub upload_keeps :
      (f : Text → List ℕ → S → Upload × S)
      → upload ≡ some f
      → (k : Text) (j : List ℕ) (q : Payload) (s : S) → In q (accepted s)
      → In q (accepted (f k j s).1)

-- An item that is pending, or in dead/ and away from pending/.
abbrev pub OnDisk : Entry → Spool → Type 0
OnDisk e s = In e s.pending ⊎ (In e s.dead_files × (find_entry e.name s.pending ≡ none))

module _ {S : Type 0} (accepted : S → List Payload) where
  -- The server has taken the item, without its image keys.
  pub record Taken (e : Entry) (srv : S) : Type 0 where
    pub payload : Payload
    pub is_body : e.body ≡ some payload
    pub taken : In (without_images payload) (accepted srv)

  -- Where an item may be: still pending, in dead/, or taken.
  abbrev pub Kept : Entry → Spool → S → Type 0
  Kept e s srv = OnDisk e s ⊎ Taken e srv

module _ {S : Type 0} (disk : Disk) (post : Payload → S → ℕ × S) where
  upload_none-pending :
      (keys : List Text) (s : Spool) (srv : S)
      → let (state, s', srv') = upload_pending_images disk post none keys s srv in
        (s' ≡ s) × (srv' ≡ srv)
  unfolding upload_pending_images
  upload_none-pending [] s srv = (refl, refl)
  upload_none-pending (key ∷ keys) s srv = ground (arith, upload_none-pending keys s srv)

abbrev some_payload : Payload
some_payload = record { inspected_ms = 0; cam_id = none; pending_images = none; fields = "" }

module _ {S : Type 0} {accepted : S → List Payload} (disk : Disk) (post : Payload → S → ℕ × S) where
  -- The uploads change no item, and the server forgets nothing.
  upload-pending :
      (f : Text → List ℕ → S → Upload × S)
      → Remembers accepted post (some f)
      → (keys : List Text) (q : Payload) (s : Spool) (srv : S)
      → let (state, s', srv') = upload_pending_images disk post (some f) keys s srv in
        (s'.pending ≡ s.pending)
        × (s'.dead_files ≡ s.dead_files)
        × (In q (accepted srv) → In q (accepted srv'))
  unfolding upload_pending_images
  upload-pending f law [] q s srv = (refl, refl, λ i. i)
  upload-pending f law (key ∷ keys) q s srv =
      elim (Option-cases (find_image (path_parts key) s.images)) [
        | inl e ↦ rw (e, upload_pending_images) (upload-pending f law keys q s srv)
        | inr (img, e) ↦
            rw (e, upload_pending_images)
              (ground (
                arith,
                law.upload_keeps f refl key img.jpeg q srv,
                upload-pending f law keys q (forget_image disk (path_parts key) s)
                    (f key img.jpeg srv).1,
              ))
      ]

module _ {S : Type 0} {accepted : S → List Payload} (disk : Disk) (post : Payload → S → ℕ × S) where
  uploads_keep :
      (upload : Option (Text → List ℕ → S → Upload × S))
      → Remembers accepted post upload
      → (keys : List Text) (s : Spool) (srv : S)
      → let (state, s', srv') = upload_pending_images disk post upload keys s srv in
        (s'.pending ≡ s.pending)
        × (s'.dead_files ≡ s.dead_files)
        × ((q : Payload) → In q (accepted srv) → In q (accepted srv'))
  uploads_keep none law keys s srv =
      let (same, srv_same) = upload_none-pending disk post keys s srv in
      (
        ap (λ (t : Spool). t.pending) same,
        ap (λ (t : Spool). t.dead_files) same,
        λ q i. rw srv_same i,
      )
  uploads_keep (some f) law keys s srv =
      let facts = λ (q : Payload). upload-pending disk post f law keys q s srv in
      ((facts some_payload).0, (facts some_payload).1, λ q. (facts q).2)

OnDisk-move_dead :
    (disk : Disk) (e : Entry) (n : Text) (s : Spool)
    → disk.replace_fails n ≡ false
    → Distinct s.pending
    → OnDisk e s
    → OnDisk e (move_dead disk n s)
unfolding move_dead
OnDisk-move_dead disk e n s moves d k = elim (Option-cases (find_entry n s.pending)) [
  | inl p ↦ rw moves (rw p k)
  | inr (x, p) ↦ rw moves (rw p (move-In e x n s.pending s.dead_files d p k))
]

Distinct-move_dead :
    (disk : Disk) (n : Text) (s : Spool)
    → Distinct s.pending
    → Distinct (move_dead disk n s).pending
unfolding move_dead
Distinct-move_dead disk n s d = elim (Option-cases (find_entry n s.pending)) [
  | inl p ↦ rw p (ground (arith, Distinct-unlink n s.pending))
  | inr (x, p) ↦
      rw p (ground (arith, Distinct-unlink n s.pending, Distinct-unlink x.name s.pending))
]

module _ {S : Type 0} (accepted : S → List Payload) where
  pub record Good (e : Entry) (s : Spool) (srv : S) : Type 0 where
    pub distinct : Distinct s.pending
    pub kept : Kept accepted e s srv

module _ {S : Type 0} {accepted : S → List Payload} (disk : Disk) (post : Payload → S → ℕ × S)
    (upload : Option (Text → List ℕ → S → Upload × S))
    (moves : (name : Text) → disk.replace_fails name ≡ false) (e : Entry) where
  Good-bury :
      (n : Text) (r : Run S)
      → Good accepted e r.spool r.server
      → Good accepted e (bury disk post upload n r).spool r.server
  unfolding bury
  Good-bury n r g = record {
    distinct = Distinct-move_dead disk n r.spool g.distinct;
    kept = ⊎_map (OnDisk-move_dead disk e n r.spool (moves n) g.distinct) (λ t. t) g.kept;
  }

  -- The item that was just posted and taken may be deleted.
  Good-settle :
      (n : Text) (x : Entry) (p : Payload) (r : Run S)
      → find_entry n r.spool.pending ≡ some x
      → x.body ≡ some p
      → In (without_images p) (accepted r.server)
      → Good accepted e r.spool r.server
      → Good accepted e (settle disk post upload n r).spool r.server
  unfolding settle
  Good-settle n x p r found body taken g = record {
    distinct = ground (arith, g.distinct, Distinct-unlink n r.spool.pending);
    kept = elim (Bool-cases (disk.unlink_fails (pending_file n))) [
      | inl stays ↦ rw stays g.kept
      | inr gone ↦ rw gone (⊎_elim (λ k. after k) inr g.kept)
    ];
  }
    where
      left : Entry → Spool
      left y = record r.spool { pending = unlink_entry n r.spool.pending; sent = r.spool.sent + 1 }

      after : OnDisk e r.spool → Kept accepted e (left e) r.server
      after (inr (i, away)) = inl (inr (i, find-unlink_of_none e.name n r.spool.pending away))
      after (inl i) = elim (Bool-cases (text_eq e.name n)) [
        | inl same ↦
            let q : e.name ≡ n = (text_eq_iff e.name n).0 same in
            let is_x : some x ≡ some e =
              sym found ∙ rw (← q) (find_of_In e r.spool.pending g.distinct i) in
            inr (record { payload = p; is_body = cc; taken = taken })
        | inr other ↦ inl (inl (In-unlink_ne n e r.spool.pending other i))
      ]

module _ {S : Type 0} {accepted : S → List Payload} where
  Good-change :
      (e : Entry) (s s' : Spool) (srv srv' : S)
      → s'.pending ≡ s.pending
      → s'.dead_files ≡ s.dead_files
      → ((q : Payload) → In q (accepted srv) → In q (accepted srv'))
      → Good accepted e s srv
      → Good accepted e s' srv'
  Good-change e s s' srv srv' p q more g = record {
    distinct = rw p g.distinct;
    kept =
        rw (p, q)
          (⊎_map (λ k. k)
            (λ t. record { payload = t.payload; is_body = t.is_body; taken = more _ t.taken })
            g.kept);
  }

module _ {S : Type 0} {accepted : S → List Payload} (disk : Disk) (post : Payload → S → ℕ × S)
    (upload : Option (Text → List ℕ → S → Upload × S)) (law : Remembers accepted post upload)
    (moves : (name : Text) → disk.replace_fails name ≡ false) (e : Entry) where
  Good-judge :
      (n : Text) (x : Entry) (p : Payload) (status : ℕ) (r : Run S)
      → find_entry n r.spool.pending ≡ some x
      → x.body ≡ some p
      → (is_accepted_status status ≡ true → In (without_images p) (accepted r.server))
      → Good accepted e r.spool r.server
      → let (stop, r') = judge disk post upload n status r in Good accepted e r'.spool r'.server
  unfolding judge
  Good-judge n x p status r found body taken g = elim (Bool-cases (is_accepted_status status)) [
    | inl yes_taken ↦
        rw (yes_taken, judge)
          (Good-settle disk post upload moves e n x p r found body (taken yes_taken) g)
    | inr refused_ ↦
        rw (refused_, judge)
          (elim (Bool-cases (status == 0)) [
            | inl down ↦ rw down g
            | inr up ↦ rw up (elim (Bool-cases (is_permanent_status status)) [
              | inl never ↦ rw (never, judge) (Good-bury disk post upload moves e n r g)
              | inr later ↦ rw (later, judge) g
            ])
          ])
  ]

  Good-transmit :
      (n : Text) (x : Entry) (p : Payload) (r : Run S)
      → find_entry n r.spool.pending ≡ some x
      → x.body ≡ some p
      → Good accepted e r.spool r.server
      → let (stop, r') = transmit disk post upload n p r in Good accepted e r'.spool r'.server
  unfolding transmit
  Good-transmit n x p r found body g =
      let p' = without_images p in
      Good-judge n x p (post p' r.server).0 (record r { server = (post p' r.server).1 }) found body
        (law.post_takes p' r.server)
        (Good-change e r.spool r.spool r.server (post p' r.server).1 refl refl
          (λ q. law.post_keeps p' q r.server) g)

  Good-after_images :
      (n : Text) (x : Entry) (p : Payload) (state : UploadState) (r : Run S)
      → find_entry n r.spool.pending ≡ some x
      → x.body ≡ some p
      → Good accepted e r.spool r.server
      → let (stop, r') = after_images disk post upload n p state r in
        Good accepted e r'.spool r'.server
  unfolding after_images
  Good-after_images n x p ok r found body g = Good-transmit n x p r found body g
  Good-after_images n x p hold r found body g = g
  Good-after_images n x p abort r found body g = g

  Good-handle :
      (n : Text) (x : Entry) (p : Payload) (r : Run S)
      → find_entry n r.spool.pending ≡ some x
      → x.body ≡ some p
      → Good accepted e r.spool r.server
      → let (stop, r') = handle disk post upload n p r in Good accepted e r'.spool r'.server
  unfolding handle
  Good-handle n x p r found body g =
      let (state, s, srv) =
        upload_pending_images disk post upload (image_keys p) r.spool r.server in
      let (same, dead_same, more) =
        uploads_keep disk post upload law (image_keys p) r.spool r.server in
      Good-after_images n x p state (record r { spool = s; server = srv }) (rw same found) body
        (Good-change e r.spool s r.server srv same dead_same more g)

  Good-flush_item :
      (n : Text) (r : Run S)
      → Good accepted e r.spool r.server
      → let (stop, r') = flush_item disk post upload n r in Good accepted e r'.spool r'.server
  unfolding flush_item
  Good-flush_item n r g = elim (Option-cases (find_entry n r.spool.pending)) [
    | inl gone ↦ rw (gone, flush_item) (Good-bury disk post upload moves e n r g)
    | inr (x, found) ↦ elim (Option-cases x.body) [
      | inl broken ↦
          rw (found, flush_item)
            (rw (broken, flush_item) (Good-bury disk post upload moves e n r g))
      | inr (p, body) ↦
          rw (found, flush_item) (rw (body, flush_item) (Good-handle n x p r found body g))
    ]
  ]

  Good-flush_items :
      (es : List Entry) (r : Run S)
      → Good accepted e r.spool r.server
      → let r' = flush_items disk post upload es r in Good accepted e r'.spool r'.server
  unfolding flush_items
  Good-flush_items [] r g = g
  Good-flush_items (x ∷ es) r g =
      let (stop, r') = flush_item disk post upload x.name r in
      let g' = Good-flush_item x.name r g in
      elim (Bool-cases stop) [
        | inl halt ↦ rw (halt, flush_items) g'
        | inr go ↦ rw (go, flush_items) (Good-flush_items es r' g')
      ]

  -- A flush loses no item: whatever the server answers and whichever files cannot be deleted, an
  -- item that was pending is afterwards still pending, or in dead/, or the server has taken it
  -- without its image keys. It is assumed that a file can be moved to dead/, that pending files have
  -- distinct names, and that the server forgets nothing that it has answered 2xx.
  pub flush_loses_nothing :
      (batch : Option ℕ) (s : Spool) (srv : S)
      → Distinct s.pending
      → In e s.pending
      → let r = flush disk post upload batch s srv in Kept accepted e r.spool r.server
  unfolding flush
  flush_loses_nothing batch s srv d i =
      (Good-flush_items _ _ (record { distinct = d; kept = inl (inl i) })).kept
