-- ===== src/Api/Retention.antt =====
-- The clean-up of stored pictures (services/api/core/retention.py). A picture has the directory that it
-- is in, the time of its last change and its size; times are seconds, sizes bytes. `Os` has what the
-- operating system answers: the time, how much is free when there is no picture, and which calls raise
-- an OSError. Nothing else is written or deleted meanwhile. A file that is not there raises nothing.
pub mod Files
pub mod Loop
pub mod Buckets
pub mod Room
pub mod Order
use pipe_vision.Prelude.{
  ℕ, ◌+◌, ◌-◌, ◌*◌, Bool, true, false, ◌&&◌, ◌||◌, not, Option, none, some, List, [], ◌∷◌, ◌++◌,
  ltb, leb, ◌==◌, if◌then◌else◌,
}
use pipe_vision.Prelude.Int.{ℤ, pos, negsuc}
use pipe_vision.Prelude.Text.{Text, codes, text_eq}
use pipe_vision.Api.Rows.{upper}
use pipe_vision.Api.Queue.{ends_with}

pub data Dir : Type 0 where
  raw result review : Dir

unfoldable pub dir_eq : Dir → Dir → Bool
dir_eq raw raw = true
dir_eq result result = true
dir_eq review review = true
dir_eq _ _ = false

pub record Picture : Type 0 where
  pub dir : Dir
  pub name : Text
  pub mtime : ℕ
  pub size : ℕ

-- `RetentionPolicy`, and its defaults.
pub record Policy : Type 0 where
  pub raw_days : ℤ
  pub ok_days : ℤ
  pub ng_days : ℤ
  pub review_days : ℤ
  pub min_free_mb : ℤ

abbrev pub default_policy : Policy
default_policy = record {
  raw_days = pos 2;
  ok_days = pos 7;
  ng_days = pos 180;
  review_days = pos 730;
  min_free_mb = pos 2000;
}

-- `CleanupReport`
pub record Report : Type 0 where
  pub deleted : ℕ
  pub freed : ℕ
  pub free_before : ℕ
  pub free_after : ℕ
  pub emergency : Bool
  pub errors : List Text

pub record Os : Type 0 where
  pub now : ℕ
  pub capacity : ℕ
  pub usage_fails : Bool
  pub list_fails : Dir → Bool
  pub stat_fails : Picture → Bool
  pub unlink_fails : Picture → Bool

pub record Store : Type 0 where
  pub pictures : List Picture
  pub report : Report

unfoldable pub total_size : List Picture → ℕ
total_size [] = 0
total_size (p ∷ ps) = p.size + total_size ps

unfoldable pub same_file : Picture → Picture → Bool
unfolding dir_eq
same_file p q = dir_eq p.dir q.dir && text_eq p.name q.name

unfoldable pub remove_picture : Picture → List Picture → List Picture
unfolding same_file
remove_picture p [] = []
remove_picture p (q ∷ qs) = if same_file q p then qs else q ∷ remove_picture p qs

-- The part of a name before its last dot, all of it where there is none.
unfoldable pub has_dot : Text → Bool
has_dot [] = false
has_dot (c ∷ s) = c == b'.' || has_dot s

unfoldable pub stem : Text → Text
unfolding has_dot
stem [] = []
stem (c ∷ s) = if c == b'.' && not (has_dot s) then [] else c ∷ stem s

-- `_is_ng`
unfoldable pub is_ng_name : Text → Bool
unfolding upper stem ends_with
is_ng_name name = ends_with (upper (stem name)) (codes "_NG")

-- A number of days or megabytes that is not positive switches its rule off.
abbrev pub positive : ℤ → ℕ
positive (pos n) = n
positive (negsuc n) = 0

unfoldable pub select : (Picture → Bool) → List Picture → List Picture
select keep [] = []
select keep (p ∷ ps) = let rest = select keep ps in if keep p then p ∷ rest else rest

module _ (os : Os) where
  -- `_free_mb`, in bytes.
  unfoldable pub free : List Picture → ℕ
  unfolding total_size
  free ps = if os.usage_fails then 0 else os.capacity - total_size ps

  -- `_iter_files`
  unfoldable pub iter_files : Dir → List Picture → List Picture
  unfolding select dir_eq
  iter_files d ps = if os.list_fails d then [] else select (λ p. dir_eq p.dir d) ps

  abbrev pub can_delete : Picture → Bool
  can_delete p = not (os.stat_fails p) && not (os.unlink_fails p)

  -- `_delete`
  unfoldable pub delete : Picture → Store → Store
  unfolding remove_picture
  delete p s =
      if can_delete p
      then record {
        pictures = remove_picture p s.pictures;
        report = record s.report {
          deleted = s.report.deleted + 1;
          freed = s.report.freed + p.size;
        };
      }
      else record s { report = record s.report { errors = s.report.errors ++ p.name ∷ [] } }

  -- `_expired`
  unfoldable pub expired : ℕ → Picture → Bool
  expired days p = not (days == 0) && not (os.stat_fails p) && ltb (days * 86400) (os.now - p.mtime)

  -- One round of the three loops over the pictures of a directory.
  unfoldable pub expire_one : (Picture → ℕ) → Picture → Store → Store
  unfolding delete expired
  expire_one days p s = if expired (days p) p then delete p s else s

  unfoldable pub delete_expired : (Picture → ℕ) → List Picture → Store → Store
  unfolding expire_one
  delete_expired days [] s = s
  delete_expired days (p ∷ ps) s = delete_expired days ps (expire_one days p s)

  unfoldable pub days_of : Policy → Picture → ℕ
  unfolding is_ng_name
  days_of pol p = elim p.dir [
    | raw ↦ positive pol.raw_days
    | result ↦ positive (if is_ng_name p.name then pol.ng_days else pol.ok_days)
    | review ↦ positive pol.review_days
  ]

  unfoldable pub expire_dir : Policy → Dir → Store → Store
  unfolding delete_expired days_of iter_files
  expire_dir pol d s = delete_expired (days_of pol) (iter_files d s.pictures) s

  unfoldable pub expire_all : Policy → Store → Store
  unfolding expire_dir
  expire_all pol s = expire_dir pol review (expire_dir pol result (expire_dir pol raw s))

  -- The order by time, in which equal times keep their places.
  unfoldable pub insert_oldest : Picture → List Picture → List Picture
  insert_oldest p [] = p ∷ []
  insert_oldest p (q ∷ qs) = if leb p.mtime q.mtime then p ∷ q ∷ qs else q ∷ insert_oldest p qs

  unfoldable pub sort_oldest : List Picture → List Picture
  unfolding insert_oldest
  sort_oldest [] = []
  sort_oldest (p ∷ ps) = insert_oldest p (sort_oldest ps)

  unfoldable pub any_stat_fails : List Picture → Bool
  any_stat_fails [] = false
  any_stat_fails (p ∷ ps) = os.stat_fails p || any_stat_fails ps

  -- The loop over the sorted pictures of a bucket, until enough is free.
  unfoldable pub delete_oldest : ℕ → List Picture → Store → Store
  unfolding delete free
  delete_oldest enough [] s = s
  delete_oldest enough (p ∷ ps) s =
      let rest = delete_oldest enough ps (delete p s) in
      if leb enough (free s.pictures) then s else rest

  unfoldable pub clean_bucket : ℕ → List Picture → Store → Store
  unfolding delete_oldest sort_oldest any_stat_fails
  clean_bucket enough bucket s =
      if any_stat_fails bucket then s else delete_oldest enough (sort_oldest bucket) s

  -- The loop over the buckets, until enough is free.
  unfoldable pub clean_buckets : ℕ → List (List Picture) → Store → Store
  unfolding clean_bucket free
  clean_buckets enough [] s = s
  clean_buckets enough (b ∷ bs) s =
      let rest = clean_buckets enough bs (clean_bucket enough b s) in
      if leb enough (free s.pictures) then s else rest

  unfoldable pub buckets : List Picture → List (List Picture)
  unfolding iter_files select is_ng_name
  buckets ps =
      iter_files raw ps
      ∷ select (λ p. not (is_ng_name p.name)) (iter_files result ps)
      ∷ select (λ p. is_ng_name p.name) (iter_files result ps)
      ∷ iter_files review ps
      ∷ []

  abbrev pub enough_free : Policy → ℕ
  enough_free pol = positive pol.min_free_mb * 1048576

  -- The second part: more of the oldest where too little is free.
  unfoldable pub clean_more : Policy → Store → Store
  unfolding clean_buckets buckets free
  clean_more pol s =
      let s1 : Store = record s { report = record s.report { emergency = true } } in
      if ltb 0 (enough_free pol) && ltb (free s.pictures) (enough_free pol)
      then clean_buckets (enough_free pol) (buckets s.pictures) s1
      else s

  abbrev pub new_report : Report
  new_report = record {
    deleted = 0;
    freed = 0;
    free_before = 0;
    free_after = 0;
    emergency = false;
    errors = [];
  }

  -- `cleanup_images`, where the directory is there.
  unfoldable pub cleanup_images : Policy → List Picture → Store
  unfolding expire_all clean_more free
  cleanup_images pol ps =
      let s : Store = record {
        pictures = ps;
        report = record new_report { free_before = free ps };
      } in
      let done = clean_more pol (expire_all pol s) in
      record done { report = record done.report { free_after = free done.pictures } }

  unfoldable pub count_sizes : List Picture → ℕ × ℕ → ℕ × ℕ
  count_sizes [] n = n
  count_sizes (p ∷ ps) (total, count) =
      count_sizes ps (if os.stat_fails p then (total, count) else (total + p.size, count + 1))

  -- `storage_usage`: the bytes, the files and what is free.
  unfoldable pub storage_usage : List Picture → ℕ × ℕ × ℕ
  unfolding count_sizes iter_files free
  storage_usage ps =
      let (total, count) =
        count_sizes (iter_files raw ps ++ (iter_files result ps ++ iter_files review ps)) (0, 0) in
      (total, count, free ps)
