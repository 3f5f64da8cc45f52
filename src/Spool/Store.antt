-- ===== src/Spool/Store.antt =====
-- The spool directory of services/vision/worker/spool.py: its files, `enqueue`, `save_image` and the
-- size limit. A file is kept as what `json.loads` reads from it (none for a broken one) and its size.
-- `Disk` says which calls of the operating system raise an OSError.
pub mod Entries
pub mod Fresh
pub mod Limit
pub mod Pictures
pub mod Room
use pipe_vision.Prelude.{
  ℕ, zero, suc, ◌+◌, ◌-◌, Bool, true, false, ◌&&◌, ◌||◌, Option, none, some, List, [], ◌∷◌, ◌++◌,
  String, ltb, leb, ◌==◌, if◌then◌else◌, length,
}
use pipe_vision.Prelude.Text.{Text, codes, text_eq}
use pipe_vision.Spool.Names.{safe_token, oldest_key, file_name, path_parts, has_parent_step}

-- The dictionary that is posted: the time that `_epoch_ms` reads from it, the camera (none if the
-- key is missing, `some none` for a null), the images still to upload, and all other fields.
pub record Payload : Type 0 where
  pub inspected_ms : ℕ
  pub cam_id : Option (Option Text)
  pub pending_images : Option (List Text)
  pub fields : String

pub record Entry : Type 0 where
  pub name : Text
  pub body : Option Payload
  pub size : ℕ

-- A file below images/, by the parts of its path.
pub record Image : Type 0 where
  pub path : List Text
  pub jpeg : List ℕ

pub record Spool : Type 0 where
  pub pending : List Entry
  pub images : List Image
  pub dead_files : List Entry
  pub max_bytes : ℕ
  pub flush_batch : ℕ
  pub enqueued : ℕ
  pub sent : ℕ
  pub dropped : ℕ
  pub dead : ℕ

pub data Target : Type 0 where
  pending_file : Text → Target
  image_file : List Text → Target
  dead_file : Text → Target

pub record Disk : Type 0 where
  pub unlink_fails : Target → Bool
  pub replace_fails : Text → Bool
  pub write_fails : Target → Bool

-- The file of a name, and the directory without it. Names in a directory are distinct.
unfoldable pub find_entry : Text → List Entry → Option Entry
find_entry name [] = none
find_entry name (e ∷ es) = if text_eq e.name name then some e else find_entry name es

unfoldable pub unlink_entry : Text → List Entry → List Entry
unlink_entry name [] = []
unlink_entry name (e ∷ es) = if text_eq e.name name then es else e ∷ unlink_entry name es

unfoldable pub path_eq : List Text → List Text → Bool
path_eq [] [] = true
path_eq (p ∷ ps) (q ∷ qs) = text_eq p q && path_eq ps qs
path_eq _ _ = false

unfoldable pub find_image : List Text → List Image → Option Image
find_image path [] = none
find_image path (i ∷ is) = if path_eq i.path path then some i else find_image path is

unfoldable pub unlink_image : List Text → List Image → List Image
unlink_image path [] = []
unlink_image path (i ∷ is) = if path_eq i.path path then is else i ∷ unlink_image path is

-- os.replace onto a name: what had the name is gone.
put_image : Image → List Image → List Image
unfolding unlink_image
put_image i is = i ∷ unlink_image i.path is

unfoldable pub entry_bytes : List Entry → ℕ
entry_bytes [] = 0
entry_bytes (e ∷ es) = e.size + entry_bytes es

unfoldable pub image_bytes : List Image → ℕ
image_bytes [] = 0
image_bytes (i ∷ is) = length i.jpeg + image_bytes is

unfoldable pub total_bytes : Spool → ℕ
unfolding entry_bytes image_bytes
total_bytes s = entry_bytes s.pending + image_bytes s.images + entry_bytes s.dead_files

-- The order of Python on pairs of a number and a text.
pub text_le : Text → Text → Bool
text_le [] t = true
text_le (c ∷ s) [] = false
text_le (c ∷ s) (d ∷ t) = ltb c d || c == d && text_le s t

pub key_le : ℕ × Text → ℕ × Text → Bool
unfolding text_le
key_le a b = ltb a.0 b.0 || a.0 == b.0 && text_le a.1 b.1

unfoldable pub insert_oldest : Entry → List Entry → List Entry
unfolding key_le
insert_oldest e [] = e ∷ []
insert_oldest e (x ∷ xs) =
    if key_le (oldest_key e.name) (oldest_key x.name) then e ∷ x ∷ xs else x ∷ insert_oldest e xs

unfoldable pub sort_oldest : List Entry → List Entry
unfolding insert_oldest
sort_oldest [] = []
sort_oldest (e ∷ es) = insert_oldest e (sort_oldest es)

-- `_pending_files`: oldest first.
unfoldable pub pending_files : Spool → List Entry
unfolding sort_oldest
pending_files s = sort_oldest s.pending

abbrev or_no_keys : Option (List Text) → List Text
or_no_keys none = []
or_no_keys (some ks) = ks

abbrev pub image_keys : Payload → List Text
image_keys p = or_no_keys p.pending_images

abbrev referenced : Option Entry → List Text
referenced none = []
referenced (some e) = elim e.body [ none ↦ [] | some p ↦ image_keys p ]

existing_images : List Text → List Image → List Target
existing_images [] is = []
existing_images (k ∷ ks) is =
    let rest = existing_images ks is in
    elim (find_image (path_parts k) is) [ none ↦ rest | some i ↦ image_file (path_parts k) ∷ rest ]

-- `_item_image_files`: the images that the file names and that are there.
item_image_files : Text → Spool → List Target
unfolding existing_images find_entry
item_image_files name s = existing_images (referenced (find_entry name s.pending)) s.images

abbrev pub size_or_zero : Option Entry → ℕ
size_or_zero none = 0
size_or_zero (some e) = e.size

abbrev pub jpeg_or_nil : Option Image → List ℕ
jpeg_or_nil none = []
jpeg_or_nil (some i) = i.jpeg

-- f.stat().st_size, 0 where the file is not there (its OSError goes on to the next file).
stat_size : Target → Spool → ℕ
unfolding find_entry find_image
stat_size (pending_file name) s = size_or_zero (find_entry name s.pending)
stat_size (image_file path) s = length (jpeg_or_nil (find_image path s.images))
stat_size (dead_file name) s = size_or_zero (find_entry name s.dead_files)

unlink : Target → Spool → Spool
unfolding unlink_entry unlink_image
unlink (pending_file name) s = record s { pending = unlink_entry name s.pending }
unlink (image_file path) s = record s { images = unlink_image path s.images }
unlink (dead_file name) s = record s { dead_files = unlink_entry name s.dead_files }

module _ (disk : Disk) where
  -- `_drop_files`: what a file frees is counted before it is deleted.
  drop_files : List Target → ℕ → Spool → ℕ × Spool
  unfolding stat_size unlink
  drop_files [] freed s = (freed, s)
  drop_files (t ∷ ts) freed s =
      drop_files ts (freed + stat_size t s) (if disk.unlink_fails t then s else unlink t s)

  -- The loop over the pending files: the size left, the items dropped, the spool.
  cap_pending : List Entry → ℕ → ℕ → Spool → ℕ × ℕ × Spool
  unfolding drop_files item_image_files
  cap_pending [] total dropped s = (total, dropped, s)
  cap_pending (e ∷ es) total dropped s = elim (leb total s.max_bytes) [
    | true ↦ (total, dropped, s)
    | false ↦
        let (freed, s') = drop_files (item_image_files e.name s ++ pending_file e.name ∷ []) 0 s in
        cap_pending es (total - freed) (dropped + 1) (record s' { dropped = s'.dropped + 1 })
  ]

  cap_dead : List Entry → ℕ → Spool → Spool
  unfolding drop_files
  cap_dead [] total s = s
  cap_dead (e ∷ es) total s = elim (leb total s.max_bytes) [
    | true ↦ s
    | false ↦
        let (freed, s') = drop_files (dead_file e.name ∷ []) 0 s in cap_dead es (total - freed) s'
  ]

  -- `_enforce_cap`: the number of items dropped, and the spool.
  pub enforce_cap : Spool → ℕ × Spool
  unfolding cap_pending cap_dead total_bytes sort_oldest pending_files
  enforce_cap s =
      let total = total_bytes s in
      if leb total s.max_bytes
      then (0, s)
      else let (total', dropped, s') = cap_pending (pending_files s) total 0 s in
        (
          dropped,
          if leb total' s'.max_bytes then s' else cap_dead (sort_oldest s'.dead_files) total' s',
        )

abbrev exists : Text → List Entry → Bool
exists name es = elim (find_entry name es) [ none ↦ false | some e ↦ true ]

-- `while dst.exists()`: the number of the first free name. As many rounds as there are files do.
free_number : ℕ → ℕ → ℕ → Text → List Entry → ℕ
unfolding find_entry
free_number zero n ms cam es = n
free_number (suc fuel) n ms cam es = elim (exists (file_name ms cam n) es) [
  | true ↦ free_number fuel (n + 1) ms cam es
  | false ↦ n
]

abbrev cam_or_default : Option (Option Text) → Option Text
cam_or_default none = some (codes "CAM")
cam_or_default (some value) = value

abbrev pub with_images : List Text → Payload → Payload
with_images [] p = p
with_images (k ∷ ks) p = record p { pending_images = some (k ∷ ks) }

-- The name that `enqueue` writes to.
unfoldable pub free_name : Payload → List Entry → Text
unfolding free_number
free_name p es =
    let cam = safe_token (cam_or_default p.cam_id) in
    file_name p.inspected_ms cam (free_number (length es) 0 p.inspected_ms cam es)

module _ (disk : Disk) (json_size : Payload → ℕ) where
  -- none where an exception is caught: the result is lost, and the spool is as it was.
  pub enqueue : Payload → List Text → Spool → Option Text × Spool
  unfolding free_name enforce_cap
  enqueue result images s =
      let p = with_images images result in
      let name = free_name p s.pending in
      let entry : Entry = record { name = name; body = some p; size = json_size p } in
      if disk.write_fails (pending_file name) then (none, s) else (
        some name,
        (enforce_cap disk
            (record s { pending = s.pending ++ entry ∷ []; enqueued = s.enqueued + 1 })).1,
      )

abbrev is_no_path : List Text → Bool
is_no_path [] = true
is_no_path (_ ∷ _) = false

-- `save_image`. An empty path is the directory itself, onto which nothing can be renamed.
pub save_image : Disk → Text → List ℕ → Spool → Option (List Text) × Spool
unfolding put_image path_parts has_parent_step
save_image disk key jpeg s =
    let path = path_parts key in
    if is_no_path path || has_parent_step path || disk.write_fails (image_file path)
    then (none, s)
    else (some path, record s { images = put_image (record { path = path; jpeg = jpeg }) s.images })

abbrev put_dead : Option Entry → Spool → Spool
put_dead none s = s
put_dead (some e) s = record s {
  pending = unlink_entry e.name s.pending;
  dead_files = e ∷ unlink_entry e.name s.dead_files;
}

-- `_move_dead`: a file that cannot be moved is deleted.
unfoldable pub move_dead : Disk → Text → Spool → Spool
unfolding find_entry unlink_entry unlink
move_dead disk name s =
    if disk.replace_fails name
    then (if disk.unlink_fails (pending_file name) then s else unlink (pending_file name) s)
    else put_dead (find_entry name s.pending) s
