-- ===== src/Api/Queue.antt =====
-- The queue of results that could not be saved (services/api/core/local_queue.py): a directory with a
-- file for each. The text of a result (`model_dump_json`, `model_validate_json`) is a parameter, and so
-- are the time and the random part of a name. A backup writes beside the name and moves the file there
-- at once; the file beside it, which a backup that fails may leave, is never listed and is left out.
pub mod Drain
use pipe_vision.Prelude.{
  ℕ, zero, suc, ◌+◌, ◌-◌, Bool, true, false, ◌&&◌, Option, none, some, List, [], ◌∷◌, ◌++◌, leb,
  length, drop, if◌then◌else◌,
}
use pipe_vision.Prelude.Text.{Text, codes, text_eq}
use pipe_vision.Spool.Store.{text_le}
use pipe_vision.Api.Rows.{InspectionResult, starts_with}

pub record QueueFile : Type 0 where
  pub name : Text
  pub body : Text

unfoldable pub find_file : Text → List QueueFile → Option QueueFile
find_file name [] = none
find_file name (f ∷ fs) = if text_eq f.name name then some f else find_file name fs

unfoldable pub remove_file : Text → List QueueFile → List QueueFile
remove_file name [] = []
remove_file name (f ∷ fs) = if text_eq f.name name then fs else f ∷ remove_file name fs

-- os.replace onto a name.
unfoldable pub put_file : QueueFile → List QueueFile → List QueueFile
put_file new [] = new ∷ []
put_file new (f ∷ fs) = if text_eq f.name new.name then new ∷ fs else f ∷ put_file new fs

-- The name that `backup` makes.
unfoldable pub backup_name : Text → Text → Text
backup_name stamp hex = (codes "insp_" ++ (stamp ++ (codes "_" ++ hex))) ++ codes ".json"

unfoldable pub backup :
    (InspectionResult → Text) → Text → InspectionResult → List QueueFile → List QueueFile
unfolding put_file
backup dump name r fs = put_file (record { name = name; body = dump r }) fs

unfoldable pub ends_with : Text → Text → Bool
ends_with s t = leb (length t) (length s) && text_eq (drop (length s - length t) s) t

unfoldable pub is_queued_name : Text → Bool
unfolding starts_with ends_with
is_queued_name name = starts_with name (codes "insp_") && ends_with name (codes ".json")

insert_name : Text → List Text → List Text
insert_name n [] = n ∷ []
insert_name n (m ∷ ms) = if text_le n m then n ∷ m ∷ ms else m ∷ insert_name n ms

unfoldable pub sorted_names : List Text → List Text
unfolding insert_name
sorted_names [] = []
sorted_names (n ∷ ns) = insert_name n (sorted_names ns)

unfoldable pub queued_names : List QueueFile → List Text
unfolding is_queued_name
queued_names [] = []
queued_names (f ∷ fs) =
    let rest = queued_names fs in if is_queued_name f.name then f.name ∷ rest else rest

-- `pending_files`
unfoldable pub pending_files : List QueueFile → List Text
unfolding sorted_names queued_names
pending_files fs = sorted_names (queued_names fs)

-- `pending_count`
unfoldable pub pending_count : List QueueFile → ℕ
unfolding pending_files
pending_count fs = length (pending_files fs)

-- `load`, none where it raises.
unfoldable pub load :
    (Text → Option InspectionResult) → Text → List QueueFile → Option InspectionResult
unfolding find_file
load parse name fs = elim (find_file name fs) [ none ↦ none | some f ↦ parse f.body ]

module _ {S : Type 0} (parse : Text → Option InspectionResult)
    (saver : Text → InspectionResult → S → Bool × S) (remove_fails : Text → Bool) where
  -- The loop of `drain` over the names that it listed: how many were saved, none where the deletion of
  -- a file raises. `saver` says whether it raised no exception.
  unfoldable pub drain_files : List Text → ℕ → S → List QueueFile → Option ℕ × S × List QueueFile
  unfolding load
  drain_files [] n s fs = (some n, s, fs)
  drain_files (p ∷ ps) n s fs = elim (load parse p fs) [
    | none ↦ drain_files ps n s fs
    | some r ↦
        let (saved, s') = saver p r s in
        elim saved [
          | false ↦ drain_files ps n s' fs
          | true ↦ elim (remove_fails p) [
            | true ↦ (none, s', fs)
            | false ↦ drain_files ps (n + 1) s' (remove_file p fs)
          ]
        ]
  ]

  unfoldable pub drain : S → List QueueFile → Option ℕ × S × List QueueFile
  unfolding drain_files pending_files
  drain s fs = drain_files (pending_files fs) 0 s fs
