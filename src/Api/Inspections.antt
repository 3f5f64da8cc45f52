-- ===== src/Api/Inspections.antt =====
-- The requests that bring results (services/api/routers/inspection.py): `create_inspection` with
-- `_save_with_backup`, and `retry_local_queue`. What a request meets (other transactions, a database
-- that does not answer, a log or a file that cannot be written, the name that a backup draws) is part of
-- the request. A broadcast is a value in a list. The row of the answer is the row that is stored.
pub mod Safe
pub mod Alarms
use pipe_vision.Prelude.{
  ℕ, Bool, true, false, ◌||◌, Option, none, some, List, [], ◌∷◌, ◌++◌, leb, if◌then◌else◌,
}
use pipe_vision.Prelude.Text.{Text, codes, text_eq}
use pipe_vision.Api.Rows.{InspectionResult, Inspection, Db}
use pipe_vision.Api.Save.{Config, Saved, returned, integrity_error, save_inspection}
use pipe_vision.Api.Queue.{QueueFile, backup, backup_name, drain, pending_count}
use pipe_vision.Api.Alarm.{Counts, record_verdict}

-- What the saving of one result meets.
pub record Around : Type 0 where
  pub id : ℕ
  pub db_down : Bool
  pub accepts : InspectionResult → Bool
  pub before_insert : Db → Db
  pub before_commit : Db → Db

pub record Backup : Type 0 where
  pub stamp : Text
  pub hex : Text
  pub write_fails : Bool

pub record Server : Type 0 where
  pub db : Db
  pub files : List QueueFile
  pub counts : Counts

pub data Event : Type 0 where
  inspection_event : Inspection → Event
  ng_event : ℕ → Text → Text → List Text → Event
  consecutive_event : Text → ℕ → ℕ → Event

pub data Answer : Type 0 where
  stored_answer : Inspection → Answer
  queued_answer : ℕ → Answer
  drained_answer : ℕ → ℕ → Answer
  server_error no_answer : Answer

pub data Request : Type 0 where
  post : Around → Bool → Backup → InspectionResult → Request
  retry : (Text → Around) → (Text → Bool) → Request
  elsewhere : (Db → Db) → Request

-- `_save_with_backup`: the row and whether it is new, none for a result that went to the queue, or an
-- exception.
pub data Outcome : Type 0 where
  saved : Inspection → Bool → Outcome
  in_queue raised : Outcome

abbrev pub is_ng : Text → Bool
is_ng verdict = text_eq verdict (codes "NG")

abbrev pub alarms : ℕ → Inspection → ℕ → List Event
alarms threshold x consec =
    if is_ng x.columns.final_verdict
    then ng_event x.id x.columns.lot x.columns.cam_id x.columns.defect_codes
      ∷ (if leb threshold consec
          then consecutive_event x.columns.cam_id consec threshold ∷ []
          else [])
    else []

abbrev pub saves : Saved → Bool
saves (returned x created) = true
saves integrity_error = false

module _ (cfg : Config) (threshold : ℕ) (dump : InspectionResult → Text)
    (parse : Text → Option InspectionResult) where
  -- `save_inspection` on a database that may be down.
  unfoldable pub try_save : Around → InspectionResult → Db → Saved × Db
  unfolding save_inspection
  try_save a r db =
      if a.db_down
      then (integrity_error, db)
      else save_inspection cfg a.accepts a.before_insert a.before_commit a.id r db

  -- What follows an exception.
  unfoldable pub keep_in_queue : Backup → InspectionResult → Server → Outcome × Server
  unfolding backup backup_name
  keep_in_queue b r s =
      if b.write_fails
      then (raised, s)
      else (in_queue, record s { files = backup dump (backup_name b.stamp b.hex) r s.files })

  unfoldable pub after_save : Bool → Backup → InspectionResult → Saved → Server → Outcome × Server
  unfolding keep_in_queue
  after_save log_fails b r (returned x created) s =
      if log_fails then keep_in_queue b r s else (saved x created, s)
  after_save log_fails b r integrity_error s = keep_in_queue b r s

  unfoldable pub save_with_backup :
      Around → Bool → Backup → InspectionResult → Server → Outcome × Server
  unfolding try_save after_save
  save_with_backup a log_fails b r s =
      let (answer, db) = try_save a r s.db in after_save log_fails b r answer (record s { db = db })

  -- The rest of `create_inspection`: the answer, what is broadcast and the counters.
  unfoldable pub announce : Outcome → Server → Answer × List Event × Server
  unfolding record_verdict pending_count
  announce raised s = (server_error, [], s)
  announce in_queue s = (queued_answer (pending_count s.files), [], s)
  announce (saved x false) s = (stored_answer x, [], s)
  announce (saved x true) s =
      let (consec, counts) =
        record_verdict x.columns.cam_id (is_ng x.columns.final_verdict) s.counts in
      (
        stored_answer x,
        inspection_event x ∷ alarms threshold x consec,
        record s { counts = counts },
      )

  unfoldable pub create_inspection :
      Around → Bool → Backup → InspectionResult → Server → Answer × List Event × Server
  unfolding save_with_backup announce
  create_inspection a log_fails b r s =
      let (outcome, s') = save_with_backup a log_fails b r s in announce outcome s'

  -- The saver of `retry_local_queue`.
  unfoldable pub saver : (Text → Around) → Text → InspectionResult → Db → Bool × Db
  unfolding try_save
  saver around name r db = let (answer, db') = try_save (around name) r db in (saves answer, db')

  abbrev drained : Option ℕ → List QueueFile → Answer
  drained none files = server_error
  drained (some n) files = drained_answer n (pending_count files)

  unfoldable pub retry_local_queue : (Text → Around) → (Text → Bool) → Server → Answer × Server
  unfolding drain saver
  retry_local_queue around remove_fails s =
      let (n, db, files) = drain parse (saver around) remove_fails s.db s.files in
      (drained n files, record s { db = db; files = files })

  unfoldable pub serve : Request → Server → Answer × List Event × Server
  unfolding create_inspection retry_local_queue
  serve (post a log_fails b r) s = create_inspection a log_fails b r s
  serve (retry around remove_fails) s =
      let (answer, s') = retry_local_queue around remove_fails s in (answer, [], s')
  serve (elsewhere f) s = (no_answer, [], record s { db = f s.db })

  unfoldable pub serve_all : List Request → Server → Server
  unfolding serve
  serve_all [] s = s
  serve_all (q ∷ qs) s = let (answer, events, s') = serve q s in serve_all qs s'

  -- What the requests broadcast, in their order.
  unfoldable pub broadcasts : List Request → Server → List Event
  unfolding serve
  broadcasts [] s = []
  broadcasts (q ∷ qs) s = let (answer, events, s') = serve q s in events ++ broadcasts qs s'
