-- ===== src/Examples/Server.antt =====
-- Examples for services/api/routers/inspection.py, services/api/core/local_queue.py,
-- services/api/ws/alarm.py and services/api/core/retention.py.
use pipe_vision.Prelude.{
  ℕ, ◌≡◌, ◌≢◌, ◌≤◌, ◌⊎◌, ◌&&◌, refl, ap, true, false, Option, none, some, List, [], ◌∷◌, ◌+◌, In,
  inl, inr, arith, leb,
}
use pipe_vision.Prelude.Int.{pos}
use pipe_vision.Prelude.Text.{Text, codes, text_eq}
use pipe_vision.Spool.Names.{decimal}
use pipe_vision.Api.Rows.{InspectionResult, Inspection, Db, is_training_lot, make_idem_key}
use pipe_vision.Api.Save.{Config, rest, new_row, save_inspection}
use pipe_vision.Api.Save.Lasting.{Stored}
use pipe_vision.Api.Queue.{backup_name, is_queued_name, pending_files, load}
use pipe_vision.Api.Alarm.{run_of}
use pipe_vision.Api.Inspections.{
  Around, Backup, Server, server_error, queued_answer, stored_answer, Request, post, retry, saved,
  create_inspection, save_with_backup, serve_all, broadcasts, is_ng,
}
use pipe_vision.Api.Inspections.Safe.{answered_stays}
use pipe_vision.Api.Inspections.Alarms.{alarm_by_run, resend_is_silent, raises_alarm, verdicts}
use pipe_vision.Api.Retention.{
  raw, review, Picture, Os, Policy, default_policy, cleanup_images, free, enough_free, same_file,
  expired, days_of, sort_oldest,
}
use pipe_vision.Api.Retention.Files.{Distinct}
use pipe_vision.Api.Retention.Room.{cleanup_frees}
use pipe_vision.Api.Retention.Order.{less_valuable_first}

abbrev pub result_at : ℕ → InspectionResult
result_at at = record {
  lot = codes "L1";
  work_order = none;
  item_code = codes "T10";
  cam_id = codes "CAM1";
  inspection_stage = none;
  inspected_at = at;
  tube_index = 0;
  tube_bbox = none;
  count_detected = none;
  count_expected = none;
  shift = none;
  operator = none;
  ref_length_mm = none;
  meas_length_mm = none;
  deviation_mm = none;
  meas_temp_c = none;
  length_verdict = none;
  oil_score = none;
  discolor_score = none;
  scratch_score = none;
  final_verdict = codes "NG";
  defect_codes = codes "LEN" ∷ [];
  confidence = none;
  raw_image_path = none;
  result_image_path = none;
  proc_time_ms = none;
  review_flag = false;
  manual_verdict = none;
  mes_synced = false;
}

abbrev config : Config
config = record { isoformat = decimal; training_prefixes = []; mes_mode = rest }

-- A text of results that is read back, for those that differ in the time alone.
abbrev dump : InspectionResult → Text
dump r = r.inspected_at ∷ []

abbrev parse : Text → Option InspectionResult
parse [] = none
parse (at ∷ more) = some (result_at at)

abbrev same : Db → Db
same db = db

abbrev up : ℕ → Around
up id = record {
  id = id;
  db_down = false;
  accepts = λ r. true;
  before_insert = same;
  before_commit = same;
}

abbrev down : Around
down = record (up 0) { db_down = true }

abbrev file : Text → Backup
file hex = record { stamp = codes "20261005-120000"; hex = hex; write_fails = false }

abbrev fresh : Server
fresh = record { db = record { inspections = []; staged = [] }; files = []; counts = [] }

abbrev row : ℕ → ℕ → Inspection
row id at = new_row id (result_at at)

queued :
    (create_inspection config 3 dump parse down false (file (codes "a1")) (result_at 7) fresh).0
    ≡ queued_answer 1
unfolding create_inspection backup_name is_queued_name text_eq
queued = refl

stored :
    (create_inspection config 3 dump parse (up 5) false (file (codes "a1")) (result_at 7) fresh).0
    ≡ stored_answer (row 5 7)
unfolding create_inspection save_inspection is_training_lot make_idem_key decimal text_eq
stored = refl

-- The first post goes to the queue, the second is stored, and the queue is stored afterwards.
abbrev later : List Request
later =
    post (up 6) false (file (codes "b2")) (result_at 8) ∷ retry (λ name. up 9) (λ name. true) ∷ []

another_name :
    text_eq
      (backup_name (codes "20261005-120000") (codes "b2"))
      (backup_name (codes "20261005-120000") (codes "a1"))
    ≡ false
unfolding backup_name text_eq
another_name = refl

was_answered :
    (create_inspection config 3 dump parse down false (file (codes "a1")) (result_at 7) fresh).0
    ≢ server_error
was_answered h = cc (queued, h)

answered_stays_example :
    let after =
      (create_inspection config 3 dump parse down false
        (file (codes "a1"))
        (result_at 7)
        fresh).2 in
    let s' = serve_all config 3 dump parse later after in
    let name = backup_name (codes "20261005-120000") (codes "a1") in
    Stored (result_at 7) s'.db
    ⊎ (In name (pending_files s'.files) × (load parse name s'.files ≡ some (result_at 7)))
answered_stays_example =
    answered_stays config 3 dump parse down false (file (codes "a1")) (result_at 7) fresh later refl
      (((λ r db h. h), (λ r db h. h)), ((λ name. ((λ r db h. h), (λ r db h. h))), tt))
      (another_name, (tt, tt)) was_answered

-- Three NG rows of one camera.
abbrev two_posts : List Request
two_posts =
    post (up 1) false (file (codes "a1")) (result_at 1)
    ∷ post (up 2) false (file (codes "a2")) (result_at 2)
    ∷ []

third_is_new :
    (save_with_backup config 3 dump parse
      (up 3)
      false
      (file (codes "a3"))
      (result_at 3)
      (serve_all config 3 dump parse two_posts fresh)).0
    ≡ saved (row 3 3) true
unfolding serve_all save_with_backup save_inspection is_training_lot make_idem_key decimal text_eq
third_is_new = refl

alarm_by_run_example :
    raises_alarm config 3 dump parse
      (create_inspection config 3 dump parse
        (up 3)
        false
        (file (codes "a3"))
        (result_at 3)
        (serve_all config 3 dump parse two_posts fresh)).1
    ≡ (is_ng (codes "NG")
        && leb 3 (
            run_of
              (codes "CAM1")
              (verdicts config 3 dump parse (broadcasts config 3 dump parse two_posts fresh))
              0
            + 1))
alarm_by_run_example =
    alarm_by_run config 3 dump parse two_posts fresh (up 3) false (file (codes "a3")) (result_at 3)
      (row 3 3) refl third_is_new

resend_is_silent_example :
    let s1 =
      (create_inspection config 3 dump parse
        (up 5)
        false
        (file (codes "a1"))
        (result_at 7)
        fresh).2 in
    create_inspection config 3 dump parse (up 8) false (file (codes "c3")) (result_at 7) s1
    ≡ (stored_answer (row 5 7), [], s1)
resend_is_silent_example =
    resend_is_silent config 3 dump parse (up 5) (up 8) false (file (codes "a1")) (file (codes "c3"))
      (result_at 7) fresh (row 5 7) stored refl

-- Two pictures on a disk that is full: the raw one goes, the one for a review stays.
abbrev raw_picture : Picture
raw_picture = record { dir = raw; name = codes "a.jpg"; mtime = 99; size = 1048576 }

abbrev review_picture : Picture
review_picture = record { dir = review; name = codes "a_NG.jpg"; mtime = 10; size = 1048576 }

abbrev disk : Os
disk = record {
  now = 100;
  capacity = 3145728;
  usage_fails = false;
  list_fails = λ d. false;
  stat_fails = λ p. false;
  unlink_fails = λ p. false;
}

abbrev two_mb : Policy
two_mb = record default_policy { min_free_mb = pos 2 }

abbrev pictures : List Picture
pictures = review_picture ∷ raw_picture ∷ []

distinct : Distinct pictures
unfolding same_file
distinct = ((refl, tt), (tt, tt))

raw_goes : (cleanup_images disk two_mb pictures).pictures ≡ review_picture ∷ []
unfolding cleanup_images expired free sort_oldest text_eq
raw_goes = refl

cleanup_frees_example :
    let after = (cleanup_images disk two_mb pictures).pictures in
    (enough_free disk two_mb ≤ free disk after)
    ⊎ ((q : Picture) → In q after → disk.unlink_fails q ≡ true)
cleanup_frees_example = cleanup_frees disk (λ d. refl) (λ p. refl) two_mb pictures distinct

-- A raw picture that cannot be deleted: then the one for a review goes.
abbrev stuck_disk : Os
stuck_disk = record disk { unlink_fails = λ p. text_eq p.name (codes "a.jpg") }

review_goes : (cleanup_images stuck_disk two_mb pictures).pictures ≡ raw_picture ∷ []
unfolding cleanup_images expired free sort_oldest text_eq
review_goes = refl

not_expired : expired stuck_disk (days_of stuck_disk two_mb review_picture) review_picture ≡ false
unfolding expired days_of
not_expired = refl

review_is_gone : ¬ In review_picture (cleanup_images stuck_disk two_mb pictures).pictures
review_is_gone h = elim (rw review_goes at h) [
  | inl e ↦ cc (ap (λ (p : Picture). p.mtime) e)
  | inr none_ ↦ none_
]

raw_is_left : In raw_picture (cleanup_images stuck_disk two_mb pictures).pictures
raw_is_left = rw review_goes (inl refl)

less_valuable_first_example : stuck_disk.unlink_fails raw_picture ≡ true
less_valuable_first_example =
    less_valuable_first stuck_disk (λ p. refl) (λ d. refl) two_mb pictures review_picture
      raw_picture distinct (inl refl) not_expired review_is_gone raw_is_left (omega arith)
