-- ===== src/Archive.antt =====
-- The copy of every picture on the NAS of the plant (services/vision/imaging/archive.py). The state
-- is the two directories, the tasks in the queue and the counters; the two threads take turns: a
-- call of `submit` and a round of `_loop` are steps. `World` says what a task or a retry meets:
-- whether the marker of the NAS is seen, at each look, and which files cannot be written, read or
-- deleted. The date of a picture in its path is a parameter, and so is the encoding of an image.
-- `failed` counts the calls of `_fail`, whose texts are left out. A spooled file stands in the list
-- where its time of change puts it, the oldest first.
pub mod Files
pub mod Kept
pub mod Lasting
use pipe_vision.Prelude.{
  ℕ, zero, suc, ◌+◌, ◌-◌, Bool, true, false, ◌&&◌, ◌||◌, not, Option, none, some, List, [], ◌∷◌,
  ◌++◌, ltb, leb, ◌==◌, length, take, if◌then◌else◌,
}
use pipe_vision.Prelude.Text.{Text, codes, text_eq}
use pipe_vision.Api.Queue.{ends_with}

pub record File : Type 0 where
  pub rel : Text
  pub bytes : List ℕ

-- `_Task`: the image is encoded when the task is handled.
pub record Task : Type 0 where
  pub key : Text
  pub ts : ℕ

pub record Archive : Type 0 where
  pub nas : List File
  pub spool : List File
  pub queue : List Task
  pub queue_size : ℕ
  pub spool_max_bytes : ℕ
  pub spool_bytes : ℕ
  pub pending : ℕ
  pub written : ℕ
  pub dropped : ℕ
  pub failed : ℕ
  pub is_ok : Option Bool

pub record World : Type 0 where
  pub marker_seen : Text → Bool
  pub seen_at_retry : Bool
  pub seen_after : Bool
  pub nas_fails : Text → Bool
  pub spool_fails : Text → Bool
  pub read_fails : Text → Bool
  pub unlink_fails : Text → Bool
  pub list_fails : Bool

unfoldable pub find_file : Text → List File → Option File
find_file rel [] = none
find_file rel (f ∷ fs) = if text_eq f.rel rel then some f else find_file rel fs

-- os.replace onto a name.
unfoldable pub put_file : File → List File → List File
put_file new [] = new ∷ []
put_file new (f ∷ fs) = if text_eq f.rel new.rel then new ∷ fs else f ∷ put_file new fs

unfoldable pub remove_file : Text → List File → List File
remove_file rel [] = []
remove_file rel (f ∷ fs) = if text_eq f.rel rel then fs else f ∷ remove_file rel fs

-- The file has a new time of change: it comes last.
unfoldable pub respool_file : File → List File → List File
unfolding remove_file
respool_file new fs = remove_file new.rel fs ++ new ∷ []

-- spool.rglob("*.jpg")
unfoldable pub jpg_files : List File → List File
unfolding ends_with
jpg_files [] = []
jpg_files (f ∷ fs) =
    let rest = jpg_files fs in if ends_with f.rel (codes ".jpg") then f ∷ rest else rest

-- key.partition("/")
unfoldable pub before_slash : Text → Text
before_slash [] = []
before_slash (c ∷ s) = let rest = before_slash s in if c == b'/' then [] else c ∷ rest

unfoldable pub after_slash : Text → Text
after_slash [] = []
after_slash (c ∷ s) = let rest = after_slash s in if c == b'/' then s else rest

unfoldable pub has_slash : Text → Bool
has_slash [] = false
has_slash (c ∷ s) = c == b'/' || has_slash s

abbrev is_kind : Text → Bool
is_kind t = text_eq t (codes "raw") || text_eq t (codes "result") || text_eq t (codes "review")

abbrev is_name : Text → Bool
is_name [] = false
is_name (c ∷ s) = not (c == b'.') && not (has_slash (c ∷ s))

abbrev set_ok : Bool → Archive → Archive
set_ok ok a = record a { is_ok = some ok }

-- `_write_nas`
unfoldable pub write_nas : World → File → Archive → Bool × Archive
unfolding put_file
write_nas w f a =
    if not (w.marker_seen f.rel) || w.nas_fails f.rel
    then (false, set_ok false a)
    else (true, set_ok true (record a { nas = put_file f a.nas; written = a.written + 1 }))

abbrev fail : Archive → Archive
fail a = record a { failed = a.failed + 1 }

-- `_to_spool`
unfoldable pub to_spool : World → File → Archive → Archive
unfolding respool_file
to_spool w f a =
    if ltb a.spool_max_bytes (a.spool_bytes + length f.bytes)
    then record a { dropped = a.dropped + 1 }
    else if w.spool_fails f.rel
    then fail (record a { dropped = a.dropped + 1 })
    else record a {
      spool = respool_file f a.spool;
      spool_bytes = a.spool_bytes + length f.bytes;
      pending = a.pending + 1;
    }

unfoldable pub store : World → File → Archive → Archive
unfolding write_nas to_spool
store w f a = let (done, a') = write_nas w f a in if done then a' else to_spool w f a'

-- What follows the writing of a spooled file to the NAS.
unfoldable pub forget : File → Archive → Archive
unfolding remove_file
forget f a = record a {
  spool = remove_file f.rel a.spool;
  spool_bytes = a.spool_bytes - length f.bytes;
  pending = a.pending - 1;
}

-- The loop of `retry_spool`: how many were moved.
unfoldable pub move_files : World → List File → ℕ → Archive → ℕ × Archive
unfolding write_nas forget
move_files w [] moved a = (moved, a)
move_files w (f ∷ fs) moved a = elim (w.read_fails f.rel) [
  | true ↦ (moved, fail a)
  | false ↦
      let (done, a1) = write_nas w f a in
      elim done [
        | false ↦ (moved, a1)
        | true ↦ elim (w.unlink_fails f.rel) [
          | true ↦ (moved, fail a1)
          | false ↦ move_files w fs (moved + 1) (forget f a1)
        ]
      ]
]

-- `retry_spool`
unfoldable pub retry_spool : World → ℕ → Archive → ℕ × Archive
unfolding move_files jpg_files
retry_spool w limit a =
    if a.pending == 0 || not w.seen_at_retry || w.list_fails
    then (0, a)
    else move_files w (take limit (jpg_files a.spool)) 0 a

abbrev after_retry : World → ℕ × Archive → Archive
after_retry w (moved, a) = if moved == 0 && a.pending == 0 then set_ok w.seen_after a else a

-- What happens to an archive.
pub data Step : Type 0 where
  submitted : World → Task → Step
  round : World → World → Bool → Step

module _ (day_path : ℕ → Text) where
  -- `archive_relpath`, none for a ValueError.
  unfoldable pub archive_relpath : Text → ℕ → Option Text
  unfolding before_slash after_slash has_slash
  archive_relpath key ts =
      let kind = before_slash key in
      let name = after_slash key in
      if is_kind kind && is_name name
      then some (day_path ts ++ codes "/" ++ kind ++ codes "/" ++ name)
      else none

  module _ (encode : Task → Option (List ℕ)) where
    -- The file that a task makes, none where its key is wrong or its image cannot be encoded.
    unfoldable pub file_of : Task → Option File
    unfolding archive_relpath
    file_of t = elim (archive_relpath t.key t.ts) [
      | none ↦ none
      | some rel ↦ elim (encode t) [
        | none ↦ none
        | some bytes ↦ some (record { rel = rel; bytes = bytes })
      ]
    ]

    -- `_handle`
    unfoldable pub handle : World → Task → Archive → Archive
    unfolding file_of store
    handle w t a = elim (file_of t) [ none ↦ fail a | some f ↦ store w f a ]

    -- What `submit` does when the queue is full.
    unfoldable pub spool_now : World → Task → Archive → Archive
    unfolding file_of to_spool
    spool_now w t a = elim (file_of t) [ none ↦ fail a | some f ↦ to_spool w f a ]

    unfoldable pub submit : World → Task → Archive → Archive
    unfolding archive_relpath spool_now
    submit w t a = elim (archive_relpath t.key t.ts) [
      | none ↦ fail a
      | some rel ↦
          if ltb (length a.queue) a.queue_size
          then record a { queue = a.queue ++ t ∷ [] }
          else spool_now w t a
    ]

    -- What `_loop` does with the next task of the queue.
    unfoldable pub take_task : World → List Task → Archive → Archive
    unfolding handle
    take_task w [] a = a
    take_task w (t ∷ ts) a = handle w t (record a { queue = ts })

    -- One round of `_loop`: the next task, and the retry where it is due, which meets a world of its own.
    unfoldable pub loop_round : World → World → Bool → Archive → Archive
    unfolding take_task retry_spool
    loop_round w v retry_due a =
        let a1 = take_task w a.queue a in
        if retry_due then after_retry v (retry_spool v 500 a1) else a1

    unfoldable pub step : Step → Archive → Archive
    unfolding submit loop_round
    step (submitted w t) a = submit w t a
    step (round w v retry_due) a = loop_round w v retry_due a

    unfoldable pub steps : List Step → Archive → Archive
    unfolding step
    steps [] a = a
    steps (x ∷ xs) a = steps xs (step x a)
