-- ===== src/Api/Inspections/Safe.antt =====
-- What becomes of a result that was answered (services/api/routers/inspection.py).
use pipe_vision.Prelude.{
  ℕ, Bool, true, false, Option, some, List, [], ◌∷◌, ◌≡◌, ◌≢◌, ◌⊎◌, refl, inl, inr, Bool-cases, All,
  In,
}
use pipe_vision.Prelude.Text.{Text, text_eq, text_eq_refl}
use pipe_vision.Api.Rows.{InspectionResult, Inspection, Db}
use pipe_vision.Api.Save.{Config, Saved, returned, integrity_error}
use pipe_vision.Api.Save.Idempotent.{save_inspection-found}
use pipe_vision.Api.Save.Lasting.{Stored, KeepsRows, found_of, save_inspection-Stored}
use pipe_vision.Api.Queue.{QueueFile, backup, backup_name, drain, pending_files, load}
use pipe_vision.Api.Queue.Drain.{
  InQueue, InQueue-pending, find-put_file, backup_name-is_queued_name, drain_files-Kept,
}
use pipe_vision.Api.Inspections.{
  Around, Backup, Server, server_error, Request, post, retry, elsewhere, Outcome, saved, in_queue,
  raised, try_save, keep_in_queue, after_save, save_with_backup, announce, create_inspection, saver,
  retry_local_queue, serve, serve_all, saves,
}

abbrev pub FairAround : Around → Type 0
FairAround a = KeepsRows a.before_insert × KeepsRows a.before_commit

-- Other transactions keep the rows that are there.
abbrev pub Fair : Request → Type 0
Fair (post a log_fails b r) = FairAround a
Fair (retry around remove_fails) = (name : Text) → FairAround (around name)
Fair (elsewhere f) = KeepsRows f

-- The name that a request would give to a file is not this one.
abbrev pub Spares : Text → Request → Type 0
Spares name (post a log_fails b r) = text_eq (backup_name b.stamp b.hex) name ≡ false
Spares name (retry around remove_fails) = Unit
Spares name (elsewhere f) = Unit

module _ (cfg : Config) (threshold : ℕ) (dump : InspectionResult → Text)
    (parse : Text → Option InspectionResult) where
  abbrev try : Around → InspectionResult → Db → Saved × Db
  try = try_save cfg threshold dump parse

  try_save-Stored :
      (a : Around) (r q : InspectionResult) (db : Db)
      → FairAround a
      → Stored q db
      → Stored q (try a r db).1
  unfolding try_save
  try_save-Stored a r q db fair h = elim (Bool-cases a.db_down) [
    | inl e ↦ rw e h
    | inr e ↦ rw e (
        save_inspection-Stored cfg a.accepts a.before_insert a.before_commit a.id r q fair.0 fair.1
          db h)
  ]

  try_save-saves :
      (a : Around) (r : InspectionResult) (db : Db) (x : Inspection) (created : Bool)
      → (try a r db).0 ≡ returned x created
      → Stored r (try a r db).1
  unfolding try_save
  try_save-saves a r db x created h = elim (Bool-cases a.db_down) [
    | inl e ↦ cc (rw e at h)
    | inr e ↦ rw e (
        found_of _ x (
          save_inspection-found cfg a.accepts a.before_insert a.before_commit a.id r db x created
            (rw e at h)))
  ]

  -- The result has a row, or a file of this name that the queue lists.
  abbrev Kept : Text → InspectionResult → Server → Type 0
  Kept name r s = Stored r s.db ⊎ InQueue parse name r s.files

  backup-InQueue :
      (b : Backup) (r : InspectionResult) (fs : List QueueFile)
      → parse (dump r) ≡ some r
      → let name = backup_name b.stamp b.hex in InQueue parse name r (backup dump name r fs)
  unfolding backup
  backup-InQueue b r fs reads_back =
      let name = backup_name b.stamp b.hex in
      let new : QueueFile = record { name = name; body = dump r } in
      record {
        file = new;
        is_there = rw (find-put_file name new fs, text_eq_refl name) refl;
        is_listed = backup_name-is_queued_name b.stamp b.hex;
        reads = reads_back;
      }

  backup-spares :
      (name : Text) (b : Backup) (q r : InspectionResult) (fs : List QueueFile)
      → text_eq (backup_name b.stamp b.hex) name ≡ false
      → InQueue parse name r fs
      → InQueue parse name r (backup dump (backup_name b.stamp b.hex) q fs)
  unfolding backup
  backup-spares name b q r fs spares k = record {
    file = k.file;
    is_there =
        rw
          (
            find-put_file name (record { name = backup_name b.stamp b.hex; body = dump q }) fs,
            spares,
          )
          k.is_there;
    is_listed = k.is_listed;
    reads = k.reads;
  }

  keep_in_queue-Kept :
      (name : Text) (b : Backup) (q r : InspectionResult) (s : Server)
      → text_eq (backup_name b.stamp b.hex) name ≡ false
      → Kept name r s
      → Kept name r (keep_in_queue cfg threshold dump parse b q s).1
  unfolding keep_in_queue
  keep_in_queue-Kept name b q r s spares k = elim (Bool-cases b.write_fails) [
    | inl e ↦ rw e k
    | inr e ↦ rw e (elim k [
      | inl stored ↦ inl stored
      | inr file ↦ inr (backup-spares name b q r s.files spares file)
    ])
  ]

  announce-Kept :
      (name : Text) (r : InspectionResult) (o : Outcome) (s : Server)
      → Kept name r s
      → Kept name r (announce cfg threshold dump parse o s).2
  unfolding announce
  announce-Kept name r raised s k = k
  announce-Kept name r in_queue s k = k
  announce-Kept name r (saved x false) s k = k
  announce-Kept name r (saved x true) s k = k

  after_save-Kept :
      (name : Text) (log_fails : Bool) (b : Backup) (q r : InspectionResult) (answer : Saved)
      (s : Server)
      → text_eq (backup_name b.stamp b.hex) name ≡ false
      → Kept name r s
      → Kept name r (after_save cfg threshold dump parse log_fails b q answer s).1
  unfolding after_save
  after_save-Kept name true b q r (returned x created) s spares k =
      keep_in_queue-Kept name b q r s spares k
  after_save-Kept name false b q r (returned x created) s spares k = k
  after_save-Kept name log_fails b q r integrity_error s spares k =
      keep_in_queue-Kept name b q r s spares k

  -- What another database does to a result that is kept.
  Kept-db :
      (name : Text) (r : InspectionResult) (s : Server) (db : Db)
      → (Stored r s.db → Stored r db)
      → Kept name r s
      → Kept name r (record s { db = db })
  Kept-db name r s db h (inl stored) = inl (h stored)
  Kept-db name r s db h (inr file) = inr file

  create_inspection-Kept :
      (name : Text) (a : Around) (log_fails : Bool) (b : Backup) (q r : InspectionResult)
      (s : Server)
      → FairAround a
      → text_eq (backup_name b.stamp b.hex) name ≡ false
      → Kept name r s
      → Kept name r (create_inspection cfg threshold dump parse a log_fails b q s).2
  unfolding create_inspection save_with_backup
  create_inspection-Kept name a log_fails b q r s fair spares k = announce-Kept name r _ _ (
      after_save-Kept name log_fails b q r (try a q s.db).0 (record s { db = (try a q s.db).1 })
        spares (Kept-db name r s (try a q s.db).1 (try_save-Stored a q r s.db fair) k))

  saver-keeps :
      (around : Text → Around) (p : Text) (q r : InspectionResult) (db : Db)
      → FairAround (around p)
      → Stored r db
      → Stored r (saver cfg threshold dump parse around p q db).1
  unfolding saver
  saver-keeps around p q r db fair h = try_save-Stored (around p) q r db fair h

  saves-returned :
      (answer : Saved)
      → saves answer ≡ true
      → (x : Inspection) × (created : Bool) × (answer ≡ returned x created)
  saves-returned (returned x created) h = (x, created, refl)
  saves-returned integrity_error h = cc

  saver-saves :
      (around : Text → Around) (p : Text) (r : InspectionResult) (db : Db)
      → (saver cfg threshold dump parse around p r db).0 ≡ true
      → Stored r (saver cfg threshold dump parse around p r db).1
  unfolding saver
  saver-saves around p r db h =
      let (x, created, e) = saves-returned (try (around p) r db).0 h in
      try_save-saves (around p) r db x created e

  retry-Kept :
      (name : Text) (around : Text → Around) (remove_fails : Text → Bool) (r : InspectionResult)
      (s : Server)
      → ((p : Text) → FairAround (around p))
      → Kept name r s
      → Kept name r (retry_local_queue cfg threshold dump parse around remove_fails s).1
  unfolding retry_local_queue drain
  retry-Kept name around remove_fails r s fair k =
      drain_files-Kept parse (saver cfg threshold dump parse around) remove_fails name r (Stored r)
        (λ p q db h. saver-keeps around p q r db (fair p) h) (λ p db h. saver-saves around p r db h)
        (pending_files s.files) 0 s.db s.files k

  serve-Kept :
      (name : Text) (q : Request) (r : InspectionResult) (s : Server)
      → Fair q
      → Spares name q
      → Kept name r s
      → Kept name r (serve cfg threshold dump parse q s).2
  unfolding serve
  serve-Kept name (post a log_fails b q) r s fair spares k =
      create_inspection-Kept name a log_fails b q r s fair spares k
  serve-Kept name (retry around remove_fails) r s fair spares k =
      retry-Kept name around remove_fails r s fair k
  serve-Kept name (elsewhere f) r s fair spares k = Kept-db name r s (f s.db) (fair r s.db) k

  serve_all-Kept :
      (name : Text) (qs : List Request) (r : InspectionResult) (s : Server)
      → All Fair qs
      → All (Spares name) qs
      → Kept name r s
      → Kept name r (serve_all cfg threshold dump parse qs s)
  unfolding serve_all
  serve_all-Kept name [] r s fair spares k = k
  serve_all-Kept name (q ∷ qs) r s fair spares k =
      serve_all-Kept name qs r _ fair.1 spares.1 (serve-Kept name q r s fair.0 spares.0 k)

  keep_in_queue-answered :
      (b : Backup) (r : InspectionResult) (s : Server)
      → parse (dump r) ≡ some r
      → (keep_in_queue cfg threshold dump parse b r s).0 ≢ raised
      → Kept (backup_name b.stamp b.hex) r (keep_in_queue cfg threshold dump parse b r s).1
  unfolding keep_in_queue
  keep_in_queue-answered b r s reads_back h = elim (Bool-cases b.write_fails) [
    | inl e ↦ absurd ((rw e at h) refl)
    | inr e ↦ rw e (inr (backup-InQueue b r s.files reads_back))
  ]

  after_save-answered :
      (log_fails : Bool) (b : Backup) (r : InspectionResult) (answer : Saved) (s : Server)
      → parse (dump r) ≡ some r
      → ((x : Inspection) (created : Bool) → answer ≡ returned x created → Stored r s.db)
      → (after_save cfg threshold dump parse log_fails b r answer s).0 ≢ raised
      → Kept
          (backup_name b.stamp b.hex)
          r
          (after_save cfg threshold dump parse log_fails b r answer s).1
  after_save-answered true b r (returned x created) s reads_back stored h =
      unfold after_save in keep_in_queue-answered b r s reads_back h
  after_save-answered false b r (returned x created) s reads_back stored h =
      unfold after_save in inl (stored x created refl)
  after_save-answered log_fails b r integrity_error s reads_back stored h =
      unfold after_save in keep_in_queue-answered b r s reads_back h

  announce-raised :
      (o : Outcome) (s : Server)
      → (announce cfg threshold dump parse o s).0 ≢ server_error
      → o ≢ raised
  unfolding announce
  announce-raised o s h e = h (rw e refl)

  create_inspection-answered :
      (a : Around) (log_fails : Bool) (b : Backup) (r : InspectionResult) (s : Server)
      → parse (dump r) ≡ some r
      → (create_inspection cfg threshold dump parse a log_fails b r s).0 ≢ server_error
      → Kept
          (backup_name b.stamp b.hex)
          r
          (create_inspection cfg threshold dump parse a log_fails b r s).2
  unfolding create_inspection save_with_backup
  create_inspection-answered a log_fails b r s reads_back h = announce-Kept _ r _ _ (
      after_save-answered log_fails b r (try a r s.db).0 (record s { db = (try a r s.db).1 })
        reads_back (λ x created e. try_save-saves a r s.db x created e) (announce-raised _ _ h))

  -- If posting a result is answered and not with an error of the server, then after any further
  -- requests, which draw other names for their files and whose other transactions keep the rows that
  -- are there, the tables have a row with the natural key of the result, or the queue lists the file
  -- of this post and the result is read from it. The text of the result is read back as the result.
  pub answered_stays :
      (a : Around) (log_fails : Bool) (b : Backup) (r : InspectionResult) (s : Server)
      (qs : List Request)
      → parse (dump r) ≡ some r
      → All Fair qs
      → All (Spares (backup_name b.stamp b.hex)) qs
      → (create_inspection cfg threshold dump parse a log_fails b r s).0 ≢ server_error
      → let after = (create_inspection cfg threshold dump parse a log_fails b r s).2 in
        let s' = serve_all cfg threshold dump parse qs after in
        let name = backup_name b.stamp b.hex in
        Stored r s'.db ⊎ (In name (pending_files s'.files) × (load parse name s'.files ≡ some r))
  answered_stays a log_fails b r s qs reads_back fair spares h =
      let kept =
        serve_all-Kept (backup_name b.stamp b.hex) qs r _ fair spares
          (create_inspection-answered a log_fails b r s reads_back h) in
      elim kept [ inl stored ↦ inl stored | inr file ↦ inr (InQueue-pending parse _ r _ file) ]
