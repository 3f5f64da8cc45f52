-- ===== src/Api/Queue/Drain.antt =====
-- What becomes of a file while the queue is drained (services/api/core/local_queue.py).
use pipe_vision.Prelude.{
  ℕ, ◌+◌, ◌-◌, Bool, true, false, Option, some, List, [], ◌∷◌, ◌++◌, ◌≡◌, ◌⊎◌, refl, ◌∙◌, ap, arith,
  inl, inr, Bool-cases, Option-cases, In, length, length-append, drop, le→leb, if◌then◌else◌,
}
use pipe_vision.Prelude.Text.{Text, codes, text_eq, text_eq_iff, text_eq_refl}
use pipe_vision.Spool.Store.{text_le}
use pipe_vision.Api.Rows.{InspectionResult, starts_with}
use pipe_vision.Api.Queue.{
  QueueFile, find_file, insert_name, sorted_names, queued_names, pending_files, put_file,
  remove_file, backup_name, ends_with, is_queued_name, load, drain_files,
}

drop-length : (s t : Text) → drop (length s) (s ++ t) ≡ t
drop-length [] t = refl
drop-length (c ∷ s) t = drop-length s t

ends_with-append : (s t : Text) → ends_with (s ++ t) t ≡ true
unfolding ends_with
ends_with-append s t =
    let n : length s + length t - length t ≡ length s = omega arith in
    rw
      (length-append s t, le→leb (length t) (length s + length t) (omega arith), n, drop-length s t)
      (text_eq_refl t)

pub backup_name-is_queued_name : (stamp hex : Text) → is_queued_name (backup_name stamp hex) ≡ true
unfolding is_queued_name starts_with backup_name
backup_name-is_queued_name stamp hex =
    ends_with-append (codes "insp_" ++ (stamp ++ (codes "_" ++ hex))) (codes ".json")

pub find-put_file :
    (name : Text) (new : QueueFile) (fs : List QueueFile)
    → find_file name (put_file new fs)
      ≡ (if text_eq new.name name then some new else find_file name fs)
unfolding find_file put_file
find-put_file name new [] = refl
find-put_file name new (f ∷ fs) = ground (
  arith,
  text_eq_iff f.name new.name,
  text_eq_iff f.name name,
  text_eq_iff new.name name,
  find-put_file name new fs,
)

find-remove_file :
    (name gone : Text) (fs : List QueueFile)
    → text_eq gone name ≡ false
    → find_file name (remove_file gone fs) ≡ find_file name fs
unfolding find_file remove_file
find-remove_file name gone [] h = refl
find-remove_file name gone (f ∷ fs) h = ground (
  arith,
  text_eq_iff f.name gone,
  text_eq_iff f.name name,
  text_eq_iff gone name,
  find-remove_file name gone fs,
)

some_unique : {A : Type 0} (o : Option A) (a b : A) → o ≡ some a → o ≡ some b → a ≡ b
some_unique o a b h k = cc

-- A file of this name has the result, and `pending_files` lists it.
pub record InQueue (parse : Text → Option InspectionResult) (name : Text) (r : InspectionResult)
    (fs : List QueueFile) : Type 0 where
  pub file : QueueFile
  pub is_there : find_file name fs ≡ some file
  pub is_listed : is_queued_name name ≡ true
  pub reads : parse file.body ≡ some r

In-insert_name : (n m : Text) (ms : List Text) → (m ≡ n) ⊎ In n ms → In n (insert_name m ms)
unfolding insert_name
In-insert_name n m [] h = h
In-insert_name n m (k ∷ ks) h = elim (Bool-cases (text_le m k)) [
  | inl e ↦ rw e h
  | inr e ↦ rw e (ground (arith, In-insert_name n m ks))
]

In-sorted_names : (n : Text) (ms : List Text) → In n ms → In n (sorted_names ms)
unfolding sorted_names
In-sorted_names n [] h = h
In-sorted_names n (m ∷ ms) (inl e) = In-insert_name n m (sorted_names ms) (inl e)
In-sorted_names n (m ∷ ms) (inr h) =
    In-insert_name n m (sorted_names ms) (inr (In-sorted_names n ms h))

In-queued_names :
    (name : Text) (fs : List QueueFile) (f : QueueFile)
    → find_file name fs ≡ some f
    → is_queued_name name ≡ true
    → In name (queued_names fs)
unfolding queued_names find_file
In-queued_names name [] f h q = cc
In-queued_names name (x ∷ xs) f h q = elim (Bool-cases (text_eq x.name name)) [
  | inl e ↦
      let same : x.name ≡ name = (text_eq_iff x.name name).0 e in
      rw (ap is_queued_name same ∙ q) (inl same)
  | inr e ↦
      let later : In name (queued_names xs) = In-queued_names name xs f (rw e at h) q in
      elim (Bool-cases (is_queued_name x.name)) [ inl k ↦ rw k (inr later) | inr k ↦ rw k later ]
]

pub InQueue-pending :
    (parse : Text → Option InspectionResult) (name : Text) (r : InspectionResult)
    (fs : List QueueFile)
    → InQueue parse name r fs
    → In name (pending_files fs) × (load parse name fs ≡ some r)
unfolding pending_files load
InQueue-pending parse name r fs q = (
  In-sorted_names name (queued_names fs) (In-queued_names name fs q.file q.is_there q.is_listed),
  rw (q.is_there, load) q.reads,
)

module _ {S : Type 0} (parse : Text → Option InspectionResult)
    (saver : Text → InspectionResult → S → Bool × S) (remove_fails : Text → Bool) (name : Text)
    (r : InspectionResult) (P : S → Type 0)
    (keeps : (p : Text) (q : InspectionResult) (s : S) → P s → P (saver p q s).1)
    (saves : (p : Text) (s : S) → (saver p r s).0 ≡ true → P (saver p r s).1) where
  abbrev Kept : S → List QueueFile → Type 0
  Kept s fs = P s ⊎ InQueue parse name r fs

  Kept-save :
      (p : Text) (q : InspectionResult) (s : S) (fs : List QueueFile)
      → Kept s fs
      → Kept (saver p q s).1 fs
  Kept-save p q s fs (inl h) = inl (keeps p q s h)
  Kept-save p q s fs (inr f) = inr f

  load-file :
      (q : InspectionResult) (fs : List QueueFile) (f : InQueue parse name r fs)
      → load parse name fs ≡ some q
      → q ≡ r
  unfolding load
  load-file q fs f h = some_unique (parse f.file.body) q r (rw (f.is_there, load) at h) f.reads

  Kept-remove :
      (p : Text) (q : InspectionResult) (s : S) (fs : List QueueFile)
      → load parse p fs ≡ some q
      → (saver p q s).0 ≡ true
      → Kept s fs
      → Kept (saver p q s).1 (remove_file p fs)
  Kept-remove p q s fs h ok (inl k) = inl (keeps p q s k)
  Kept-remove p q s fs h ok (inr f) = elim (Bool-cases (text_eq p name)) [
    | inl e ↦
        let same : p ≡ name = (text_eq_iff p name).0 e in
        let it : q ≡ r = load-file q fs f (rw same at h) in inl (rw it (saves p s (rw it at ok)))
    | inr e ↦ inr (record {
      file = f.file;
      is_there = find-remove_file name p fs e ∙ f.is_there;
      is_listed = f.is_listed;
      reads = f.reads;
    })
  ]

  pub drain_files-Kept :
      (ps : List Text) (n : ℕ) (s : S) (fs : List QueueFile)
      → Kept s fs
      → let (count, s', fs') = drain_files parse saver remove_fails ps n s fs in Kept s' fs'
  unfolding drain_files
  drain_files-Kept [] n s fs k = k
  drain_files-Kept (p ∷ ps) n s fs k = elim (Option-cases (load parse p fs)) [
    | inl e ↦ rw (e, drain_files) (drain_files-Kept ps n s fs k)
    | inr (q, e) ↦ elim (Bool-cases (saver p q s).0) [
      | inr no_row ↦
          rw (e, no_row, drain_files)
            (drain_files-Kept ps n (saver p q s).1 fs (Kept-save p q s fs k))
      | inl row ↦ elim (Bool-cases (remove_fails p)) [
        | inl stays ↦ rw (e, row, stays, drain_files) (Kept-save p q s fs k)
        | inr gone ↦
            rw (e, row, gone, drain_files)
              (drain_files-Kept ps (n + 1) (saver p q s).1 (remove_file p fs)
                (Kept-remove p q s fs e row k))
      ]
    ]
  ]
