-- ===== src/Examples/Nas.antt =====
-- Runs of the copying to the NAS.
use pipe_vision.Prelude.{
  ℕ, ◌<◌, true, false, Option, none, some, List, [], ◌∷◌, ◌≡◌, ◌⊎◌, refl, inl, inr, In,
}
use pipe_vision.Prelude.Text.{Text, codes, text_eq}
use pipe_vision.Archive.{
  File, Task, Archive, World, Step, submitted, round, find_file, archive_relpath, file_of, submit,
  steps, before_slash, after_slash, has_slash, jpg_files,
}
use pipe_vision.Archive.Lasting.{submitted_stays}

abbrev day : ℕ → Text
day ts = codes "2026/11/26"

abbrev three_bytes : Task → Option (List ℕ)
three_bytes t = some (1 ∷ 2 ∷ 3 ∷ [])

abbrev picture : Task
picture = record { key = codes "raw/a.jpg"; ts = 7 }

abbrev its_file : File
its_file = record { rel = codes "2026/11/26/raw/a.jpg"; bytes = 1 ∷ 2 ∷ 3 ∷ [] }

abbrev empty_archive : Archive
empty_archive = record {
  nas = [];
  spool = [];
  queue = [];
  queue_size = 16;
  spool_max_bytes = 100;
  spool_bytes = 0;
  pending = 0;
  written = 0;
  dropped = 0;
  failed = 0;
  is_ok = none;
}

abbrev nas_up : World
nas_up = record {
  marker_seen = λ t. true;
  seen_at_retry = true;
  seen_after = true;
  nas_fails = λ t. false;
  spool_fails = λ t. false;
  read_fails = λ t. false;
  unlink_fails = λ t. false;
  list_fails = false;
}

abbrev nas_down : World
nas_down = record nas_up { marker_seen = λ t. false; seen_at_retry = false; seen_after = false }

-- The NAS is away when the picture is handled, and comes back.
abbrev rounds : List Step
rounds = round nas_down nas_down true ∷ round nas_up nas_up true ∷ []

makes_its_file : file_of day three_bytes picture ≡ some its_file
unfolding file_of archive_relpath before_slash after_slash has_slash text_eq
makes_its_file = refl

copied_later :
    let b = steps day three_bytes rounds (submit day three_bytes nas_down picture empty_archive) in
    (b.nas ≡ its_file ∷ []) × ((b.spool ≡ []) × ((b.pending ≡ 0) × (b.written ≡ 1)))
unfolding steps submit archive_relpath before_slash after_slash has_slash text_eq jpg_files
copied_later = (refl, (refl, (refl, refl)))

no_other_task : (u : Task) → ¬ (In u [] ⊎ ((v : World) × In (submitted v u) rounds))
no_other_task u (inl m) = m
no_other_task u (inr (v, inl e)) = cc
no_other_task u (inr (v, inr (inl e))) = cc
no_other_task u (inr (v, inr (inr m))) = m

submitted_stays_example :
    let b = steps day three_bytes rounds (submit day three_bytes nas_down picture empty_archive) in
    In picture b.queue
    ⊎ ((find_file its_file.rel b.nas ≡ some its_file) ⊎ (In its_file b.spool ⊎ (0 < b.dropped)))
submitted_stays_example =
    submitted_stays day three_bytes nas_down picture its_file empty_archive rounds makes_its_file
      (λ g m. absurd m) (λ u g m made same. absurd (no_other_task u m))
