-- ===== src/Api/Inspections/Alarms.antt =====
-- What is broadcast for results (services/api/routers/inspection.py, services/api/ws/alarm.py).
use pipe_vision.Prelude.{
  ℕ, ◌+◌, ◌&&◌, leb, Bool, true, false, Option, List, [], ◌∷◌, ◌++◌, ◌≡◌, ◌≢◌, refl, sym, ◌∙◌, ap,
  arith, inl, inr, Bool-cases,
}
use pipe_vision.Prelude.Text.{Text}
use pipe_vision.Api.Rows.{InspectionResult, Inspection, Db}
use pipe_vision.Api.Save.{Config, Saved, returned, integrity_error}
use pipe_vision.Api.Save.Idempotent.{resend_answers_same_row}
use pipe_vision.Api.Alarm.{Counts, current, run_of, record_all-run_of, record_all, record_verdict}
use pipe_vision.Api.Inspections.{
  Around, Backup, Server, Event, inspection_event, ng_event, consecutive_event, stored_answer,
  Request, post, retry, elsewhere, Outcome, saved, in_queue, raised, is_ng, alarms, try_save,
  keep_in_queue, after_save, save_with_backup, announce, create_inspection, retry_local_queue,
  serve, serve_all, broadcasts,
}

module _ (cfg : Config) (threshold : ℕ) (dump : InspectionResult → Text)
    (parse : Text → Option InspectionResult) where
  abbrev ng : Inspection → Bool
  ng x = is_ng x.columns.final_verdict

  -- The cameras and verdicts of the rows that were broadcast.
  abbrev pub verdicts : List Event → List (Text × Bool)
  verdicts [] = []
  verdicts (inspection_event x ∷ es) = (x.columns.cam_id, ng x) ∷ verdicts es
  verdicts (ng_event id lot cam codes ∷ es) = verdicts es
  verdicts (consecutive_event cam count limit ∷ es) = verdicts es

  verdicts-append : (es fs : List Event) → verdicts (es ++ fs) ≡ verdicts es ++ verdicts fs
  verdicts-append [] fs = refl
  verdicts-append (inspection_event x ∷ es) fs =
      ap (λ vs. (x.columns.cam_id, ng x) ∷ vs) (verdicts-append es fs)
  verdicts-append (ng_event id lot cam codes ∷ es) fs = verdicts-append es fs
  verdicts-append (consecutive_event cam count limit ∷ es) fs = verdicts-append es fs

  verdicts-alarms : (x : Inspection) (n : ℕ) → verdicts (alarms threshold x n) ≡ []
  verdicts-alarms x n = ground arith

  keep_in_queue-counts :
      (b : Backup) (r : InspectionResult) (s : Server)
      → ((keep_in_queue cfg threshold dump parse b r s).1.counts ≡ s.counts)
  unfolding keep_in_queue
  keep_in_queue-counts b r s = ground arith

  after_save-counts :
      (log_fails : Bool) (b : Backup) (r : InspectionResult) (answer : Saved) (s : Server)
      → (after_save cfg threshold dump parse log_fails b r answer s).1.counts ≡ s.counts
  unfolding after_save
  after_save-counts true b r (returned x c) s = keep_in_queue-counts b r s
  after_save-counts false b r (returned x c) s = refl
  after_save-counts log_fails b r integrity_error s = keep_in_queue-counts b r s

  save_with_backup-counts :
      (a : Around) (log_fails : Bool) (b : Backup) (r : InspectionResult) (s : Server)
      → (save_with_backup cfg threshold dump parse a log_fails b r s).1.counts ≡ s.counts
  unfolding save_with_backup
  save_with_backup-counts a log_fails b r s =
      let (answer, db) = try_save cfg threshold dump parse a r s.db in
      after_save-counts log_fails b r answer (record s { db = db })

  announce-counts :
      (o : Outcome) (s : Server)
      → let (answer, events, s') = announce cfg threshold dump parse o s in
        s'.counts ≡ record_all (verdicts events) s.counts
  unfolding announce record_all
  announce-counts raised s = refl
  announce-counts in_queue s = refl
  announce-counts (saved x false) s = refl
  announce-counts (saved x true) s =
      let (n, counts) = record_verdict x.columns.cam_id (ng x) s.counts in
      rw (verdicts-alarms x n) refl

  serve-counts :
      (q : Request) (s : Server)
      → let (answer, events, s') = serve cfg threshold dump parse q s in
        s'.counts ≡ record_all (verdicts events) s.counts
  unfolding serve create_inspection retry_local_queue
  serve-counts (post a log_fails b r) s =
      announce-counts _ _ ∙ ap (record_all _) (save_with_backup-counts a log_fails b r s)
  serve-counts (retry around remove_fails) s = unfold record_all in refl
  serve-counts (elsewhere f) s = unfold record_all in refl

  record_all-append :
      (vs ws : List (Text × Bool)) (counts : Counts)
      → record_all (vs ++ ws) counts ≡ record_all ws (record_all vs counts)
  unfolding record_all
  record_all-append [] ws counts = refl
  record_all-append ((cam, v) ∷ vs) ws counts = record_all-append vs ws _

  serve_all-counts :
      (qs : List Request) (s : Server)
      → (serve_all cfg threshold dump parse qs s).counts
        ≡ record_all (verdicts (broadcasts cfg threshold dump parse qs s)) s.counts
  unfolding serve_all broadcasts
  serve_all-counts [] s = unfold record_all in refl
  serve_all-counts (q ∷ qs) s =
      let (answer, events, s') = serve cfg threshold dump parse q s in
      let later = broadcasts cfg threshold dump parse qs s' in
      serve_all-counts qs s'
      ∙ ap (record_all (verdicts later)) (serve-counts q s)
      ∙ sym (record_all-append (verdicts events) (verdicts later) s.counts)
      ∙ ap (λ vs. record_all vs s.counts) (sym (verdicts-append events later))

  abbrev pub raises_alarm : List Event → Bool
  raises_alarm [] = false
  raises_alarm (inspection_event x ∷ es) = raises_alarm es
  raises_alarm (ng_event id lot cam codes ∷ es) = raises_alarm es
  raises_alarm (consecutive_event cam count limit ∷ es) = true

  raises_alarm-alarms :
      (x : Inspection) (n : ℕ) → raises_alarm (alarms threshold x n) ≡ (ng x && leb threshold n)
  raises_alarm-alarms x n = ground arith

  announce-raises_alarm :
      (x : Inspection) (s : Server)
      → raises_alarm (announce cfg threshold dump parse (saved x true) s).1
        ≡ (ng x && leb threshold (current x.columns.cam_id s.counts + 1))
  unfolding announce record_verdict
  announce-raises_alarm x s = elim (Bool-cases (ng x)) [
    | inl e ↦ rw (raises_alarm-alarms x _, e) refl
    | inr e ↦ rw (raises_alarm-alarms x _, e) refl
  ]

  -- When a post stores a new row on a server that has served any requests since its counters were
  -- empty, the alarm of NG verdicts in a row is broadcast just when the row is NG and the rows of its
  -- camera that were broadcast as NG since its last other one are, with it, at least the threshold.
  pub alarm_by_run :
      (qs : List Request) (s : Server) (a : Around) (log_fails : Bool) (b : Backup)
      (r : InspectionResult) (x : Inspection)
      → s.counts ≡ []
      → let s1 = serve_all cfg threshold dump parse qs s in
        (save_with_backup cfg threshold dump parse a log_fails b r s1).0 ≡ saved x true
        → let cam = x.columns.cam_id in
          let before = run_of cam (verdicts (broadcasts cfg threshold dump parse qs s)) 0 in
          raises_alarm (create_inspection cfg threshold dump parse a log_fails b r s1).1
          ≡ (ng x && leb threshold (before + 1))
  unfolding create_inspection
  alarm_by_run qs s a log_fails b r x none_counted new =
      let cam = x.columns.cam_id in
      let s1 = serve_all cfg threshold dump parse qs s in
      let vs = verdicts (broadcasts cfg threshold dump parse qs s) in
      let run =
        ap (current cam) (save_with_backup-counts a log_fails b r s1 ∙ serve_all-counts qs s)
        ∙ record_all-run_of cam vs s.counts
        ∙ ap (λ counts. run_of cam vs (current cam counts)) none_counted
        ∙ unfold current in refl in
      let s2 = (save_with_backup cfg threshold dump parse a log_fails b r s1).1 in
      rw new (announce-raises_alarm x s2 ∙ ap (λ n. ng x && leb threshold (n + 1)) run)

  stored-saved :
      (o : Outcome) (s : Server) (x : Inspection)
      → (announce cfg threshold dump parse o s).0 ≡ stored_answer x
      → ((created : Bool) × (o ≡ saved x created))
        × ((announce cfg threshold dump parse o s).2.db ≡ s.db)
  unfolding announce
  stored-saved raised s x h = cc
  stored-saved in_queue s x h = cc
  stored-saved (saved y false) s x h = ((false, cc), refl)
  stored-saved (saved y true) s x h = ((true, cc), refl)

  keep_in_queue-db :
      (b : Backup) (r : InspectionResult) (s : Server) (x : Inspection) (created : Bool)
      → (keep_in_queue cfg threshold dump parse b r s).0 ≢ saved x created
  unfolding keep_in_queue
  keep_in_queue-db b r s x created h = ground arith

  after_save-saved :
      (log_fails : Bool) (b : Backup) (r : InspectionResult) (answer : Saved) (s : Server)
      (x : Inspection) (created : Bool)
      → (after_save cfg threshold dump parse log_fails b r answer s).0 ≡ saved x created
      → (answer ≡ returned x created)
        × ((after_save cfg threshold dump parse log_fails b r answer s).1.db ≡ s.db)
  unfolding after_save
  after_save-saved true b r (returned y c) s x created h =
      absurd (keep_in_queue-db b r s x created h)
  after_save-saved false b r (returned y c) s x created h = (cc, refl)
  after_save-saved log_fails b r integrity_error s x created h =
      absurd (keep_in_queue-db b r s x created h)

  abbrev try : Around → InspectionResult → Db → Saved × Db
  try = try_save cfg threshold dump parse

  try_again :
      (a a' : Around) (r : InspectionResult) (db : Db) (x : Inspection) (created : Bool)
      → (try a r db).0 ≡ returned x created
      → a'.db_down ≡ false
      → try a' r (try a r db).1 ≡ (returned x false, (try a r db).1)
  unfolding try_save
  try_again a a' r db x created h up = elim (Bool-cases a.db_down) [
    | inl e ↦ cc (rw e at h)
    | inr e ↦
        rw (e, up)
          (resend_answers_same_row cfg cfg a.accepts a'.accepts a.before_insert a.before_commit
            a'.before_insert a'.before_commit a.id a'.id r db x created (rw e at h))
  ]

  silent_post :
      (a : Around) (b : Backup) (r : InspectionResult) (s : Server) (x : Inspection)
      → try a r s.db ≡ (returned x false, s.db)
      → create_inspection cfg threshold dump parse a false b r s ≡ (stored_answer x, [], s)
  unfolding create_inspection save_with_backup after_save announce
  silent_post a b r s x h = rw h refl

  -- If posting a result is answered with a row, then posting it again, while the database answers and
  -- the log can be written, is answered with that row, broadcasts nothing and leaves the server as
  -- it is.
  pub resend_is_silent :
      (a a' : Around) (log_fails : Bool) (b b' : Backup) (r : InspectionResult) (s : Server)
      (x : Inspection)
      → let (answer, events, s1) = create_inspection cfg threshold dump parse a log_fails b r s in
        answer ≡ stored_answer x
        → a'.db_down ≡ false
        → create_inspection cfg threshold dump parse a' false b' r s1 ≡ (stored_answer x, [], s1)
  unfolding create_inspection save_with_backup
  resend_is_silent a a' log_fails b b' r s x stored up =
      let (answer, db) = try a r s.db in
      let s1 : Server = record s { db = db } in
      let (o, s2) = after_save cfg threshold dump parse log_fails b r answer s1 in
      let ((created, is_saved), db3) = stored-saved o s2 x stored in
      let (is_returned, db2) = after_save-saved log_fails b r answer s1 x created is_saved in
      silent_post a' b' r (announce cfg threshold dump parse o s2).2 x
        (rw (db3 ∙ db2) (try_again a a' r s.db x created is_returned up))
