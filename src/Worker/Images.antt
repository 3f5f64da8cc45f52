-- ===== src/Worker/Images.antt =====
-- The pictures of a cycle in a remote storage (services/vision/imaging/save.py): the upload, and the
-- spool where an upload fails. The pictures come encoded, under the name that `build_filename` gives;
-- the storage is a state that `put` changes, and false where it raises an exception.
pub mod Pending
use pipe_vision.Prelude.{
  ℕ, Bool, true, false, ◌&&◌, ◌||◌, not, Option, none, some, List, [], ◌∷◌, ◌++◌, if◌then◌else◌,
}
use pipe_vision.Prelude.Text.{Text, codes}
use pipe_vision.Spool.Store.{Disk, Spool, save_image}

pub record Pictures : Type 0 where
  pub name : Text
  pub raw_jpeg : List ℕ
  pub result_jpeg : List ℕ
  pub ng : Bool
  pub review : Bool

pub record ImageSaveResult : Type 0 where
  pub raw_image_path : Option Text
  pub result_image_path : Option Text
  pub failed : Bool
  pub pending_images : List Text

-- The remote storage and the spool.
pub record Places (S : Type 0) : Type 0 where
  pub storage : S
  pub spool : Spool

-- AIVIS_REMOTE_RAW
pub data RawPolicy : Type 0 where
  all_raw ng_raw no_raw : RawPolicy

abbrev keeps_all : RawPolicy → Bool
keeps_all all_raw = true
keeps_all _ = false

abbrev keeps_ng : RawPolicy → Bool
keeps_ng ng_raw = true
keeps_ng _ = false

unfoldable pub keep_remote_raw : RawPolicy → Bool → Bool → Bool → Bool
keep_remote_raw policy ng review force_raw =
    keeps_all policy || force_raw || keeps_ng policy && (ng || review)

abbrev raw_key : Text → Text
raw_key name = codes "raw/" ++ name

abbrev result_key : Text → Text
result_key name = codes "result/" ++ name

abbrev review_key : Text → Text
review_key name = codes "review/" ++ name

module _ {S : Type 0} (put : Text → List ℕ → S → Bool × S) (disk : Disk) where
  -- The keys that are to be uploaded later, none where the exception goes on.
  unfoldable pub put_or_spool : Text → List ℕ → List Text → Places S → Option (List Text) × Places S
  put_or_spool key jpeg pending w =
      let (stored, storage) = put key jpeg w.storage in
      if stored
      then (some pending, record w { storage = storage })
      else (let (saved, spool) = save_image disk key jpeg w.spool in
          (
            elim saved [ none ↦ none | some path ↦ some (pending ++ key ∷ []) ],
            record { storage = storage; spool = spool },
          ))

  -- The copy for the review, whose failure is ignored.
  abbrev put_review : Pictures → Places S → Places S
  put_review p w =
      if p.review
      then record w { storage = (put (review_key p.name) p.result_jpeg w.storage).1 }
      else w

  -- What `save_inspection_images` makes of an exception.
  abbrev failed_save : ImageSaveResult
  failed_save = record {
    raw_image_path = none;
    result_image_path = none;
    failed = true;
    pending_images = [];
  }

  -- The second picture, after the first one.
  unfoldable pub put_result :
      Pictures → Option Text → List Text → Places S → ImageSaveResult × Places S
  unfolding put_or_spool
  put_result p raw_path pending w =
      let (pending', w1) = put_or_spool (result_key p.name) p.result_jpeg pending w in
      elim pending' [
        | none ↦ (failed_save, w1)
        | some keys ↦ (
          record {
            raw_image_path = raw_path;
            result_image_path = some (result_key p.name);
            failed = false;
            pending_images = keys;
          },
          put_review p w1,
        )
      ]

  -- `_save_pair_via_backend`, where its callers catch what it raises.
  unfoldable pub save_pair_via_backend :
      RawPolicy → Bool → Pictures → Places S → ImageSaveResult × Places S
  unfolding put_result put_or_spool keep_remote_raw
  save_pair_via_backend policy force_raw p w =
      if keep_remote_raw policy p.ng p.review force_raw
      then (let (pending, w1) = put_or_spool (raw_key p.name) p.raw_jpeg [] w in
          elim pending [
            | none ↦ (failed_save, w1)
            | some keys ↦ put_result p (some (raw_key p.name)) keys w1
          ])
      else put_result p none [] w
