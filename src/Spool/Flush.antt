-- ===== src/Spool/Flush.antt =====
-- `flush` of services/vision/worker/spool.py and what it calls. The server that `post_fn` and
-- `upload_fn` reach is a state that each call may change; `post_fn` returns the HTTP status, 0 where
-- the connection failed.
pub mod Loss
pub mod Report
pub mod Network
use pipe_vision.Prelude.{
  ℕ, zero, suc, ◌+◌, Bool, true, false, ◌&&◌, ◌||◌, Option, none, some, List, [], ◌∷◌, ltb, leb,
  ◌==◌, if◌then◌else◌, take, max,
}
use pipe_vision.Prelude.Text.{Text}
use pipe_vision.Spool.Names.{path_parts}
use pipe_vision.Spool.Store.{
  Payload, Entry, Spool, Disk, image_file, pending_file, find_entry, unlink_entry, find_image,
  unlink_image, image_keys, pending_files, move_dead,
}

-- What an upload does: it returns, raises a TransportError, or raises another exception.
pub data Upload : Type 0 where
  uploaded unreachable refused : Upload

pub data UploadState : Type 0 where
  ok hold abort : UploadState

pub record FlushReport : Type 0 where
  pub sent : ℕ
  pub held : ℕ
  pub dead : ℕ
  pub aborted : Bool

pub is_retryable_status : ℕ → Bool
is_retryable_status status = status == 0 || leb 500 status

unfoldable pub is_permanent_status : ℕ → Bool
is_permanent_status status = leb 400 status && ltb status 500

unfoldable pub is_accepted_status : ℕ → Bool
is_accepted_status status = leb 200 status && ltb status 300

-- The progress of a flush.
pub record Run (S : Type 0) : Type 0 where
  pub report : FlushReport
  pub spool : Spool
  pub server : S

abbrev pub without_images : Payload → Payload
without_images p = record p { pending_images = none }

module _ {S : Type 0} where
  abbrev start : Spool → S → Run S
  start s srv = record {
    report = record { sent = 0; held = 0; dead = 0; aborted = false };
    spool = s;
    server = srv;
  }

  abbrev hold_item : Run S → Run S
  hold_item r = record r { report = record r.report { held = r.report.held + 1 } }

  abbrev abort_flush : Run S → Run S
  abort_flush r = record r { report = record r.report { held = r.report.held + 1; aborted = true } }

module _ (disk : Disk) where
  abbrev forget_image : List Text → Spool → Spool
  forget_image path s =
      if disk.unlink_fails (image_file path)
      then s
      else record s { images = unlink_image path s.images }

abbrev pub limit_of : Option ℕ → Spool → ℕ
limit_of none s = s.flush_batch
limit_of (some n) s = n

module _ {S : Type 0} (disk : Disk) (post : Payload → S → ℕ × S)
    (upload : Option (Text → List ℕ → S → Upload × S)) where
  -- `_upload_pending_images`: an image that is not there has been uploaded before.
  upload_pending_images : List Text → Spool → S → UploadState × Spool × S
  unfolding find_image unlink_image
  upload_pending_images [] s srv = (ok, s, srv)
  upload_pending_images (key ∷ keys) s srv = elim (find_image (path_parts key) s.images) [
    | none ↦ upload_pending_images keys s srv
    | some img ↦ elim upload [
      | none ↦ (hold, s, srv)
      | some upload_fn ↦
          let (outcome, srv') = upload_fn key img.jpeg srv in
          elim outcome [
            | uploaded ↦ upload_pending_images keys (forget_image disk (path_parts key) s) srv'
            | unreachable ↦ (abort, s, srv')
            | refused ↦ (hold, s, srv')
          ]
    ]
  ]

  bury : Text → Run S → Run S
  unfolding move_dead
  bury name r = record r {
    report = record r.report { dead = r.report.dead + 1 };
    spool = let s = move_dead disk name r.spool in record s { dead = s.dead + 1 };
  }

  settle : Text → Run S → Run S
  unfolding unlink_entry
  settle name r =
      let s = r.spool in
      record r {
        report = record r.report { sent = r.report.sent + 1 };
        spool = record s {
          pending =
              if disk.unlink_fails (pending_file name)
              then s.pending
              else unlink_entry name s.pending;
          sent = s.sent + 1;
        };
      }

  -- What follows an answer of the server: whether the flush stops, and its progress.
  judge : Text → ℕ → Run S → Bool × Run S
  unfolding bury settle
  judge name status r =
      if is_accepted_status status
      then (false, settle name r)
      else if status == 0
      then (true, abort_flush r)
      else if is_permanent_status status
      then (false, bury name r)
      else (false, hold_item r)

  transmit : Text → Payload → Run S → Bool × Run S
  unfolding judge
  transmit name p r =
      let (status, srv) = post (without_images p) r.server in
      judge name status (record r { server = srv })

  after_images : Text → Payload → UploadState → Run S → Bool × Run S
  unfolding transmit
  after_images name p ok r = transmit name p r
  after_images name p hold r = (false, hold_item r)
  after_images name p abort r = (true, abort_flush r)

  handle : Text → Payload → Run S → Bool × Run S
  unfolding upload_pending_images after_images
  handle name p r =
      let (state, s, srv) = upload_pending_images (image_keys p) r.spool r.server in
      after_images name p state (record r { spool = s; server = srv })

  abbrev read_body : Option Entry → Option Payload
  read_body none = none
  read_body (some e) = e.body

  -- One round of the loop; a file that cannot be read is dead.
  flush_item : Text → Run S → Bool × Run S
  unfolding handle bury find_entry
  flush_item name r = elim (read_body (find_entry name r.spool.pending)) [
    | none ↦ (false, bury name r)
    | some p ↦ handle name p r
  ]

  flush_items : List Entry → Run S → Run S
  unfolding flush_item
  flush_items [] r = r
  flush_items (e ∷ es) r =
      let (stop, r') = flush_item e.name r in elim stop [ true ↦ r' | false ↦ flush_items es r' ]

  pub flush : Option ℕ → Spool → S → Run S
  unfolding flush_items pending_files
  flush batch s srv = flush_items (take (max 1 (limit_of batch s)) (pending_files s)) (start s srv)
