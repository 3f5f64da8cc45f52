-- ===== src/Examples/Spool.antt =====
-- Examples for services/vision/worker/spool.py.
use mathlib.Core.Path.{subst}
use mathlib.Core.Option.{some-injective}
use pipe_vision.Prelude.{
  ℕ, ◌≤◌, ◌≡◌, ◌⊎◌, refl, true, false, none, some, List, [], ◌∷◌, inl, inr, In, max, min, length,
  All,
}
use pipe_vision.Prelude.Text.{Text, codes, text_eq}
use pipe_vision.Spool.Names.{is_safe_char, is_edge_char, safe_token, oldest_key, file_name}
use pipe_vision.Spool.Names.Order.{oldest_key-file_name}
use pipe_vision.Spool.Store.{
  Payload, Entry, Spool, Disk, find_entry, free_name, pending_files, total_bytes, enforce_cap,
}
use pipe_vision.Spool.Store.Entries.{Distinct}
use pipe_vision.Spool.Store.Fresh.{free_name-fresh}
use pipe_vision.Spool.Store.Limit.{enforce_cap-le}
use pipe_vision.Spool.Flush.{Upload, uploaded, unreachable, limit_of, flush}
use pipe_vision.Spool.Flush.Loss.{Kept, Remembers, flush_loses_nothing}
use pipe_vision.Spool.Flush.Report.{tally, flush-tally}
use pipe_vision.Spool.Flush.Network.{Stable, flush_posts_no_image_keys, flush_offline}

abbrev payload : ℕ → Payload
payload ms = record {
  inspected_ms = ms;
  cam_id = some (some (codes "CAM 1"));
  pending_images = some (codes "raw/a.jpg" ∷ []);
  fields = "{}";
}

abbrev entry : ℕ → ℕ → Entry
entry ms size = record {
  name = file_name ms (codes "CAM_1") 0;
  body = some (payload ms);
  size = size;
}

abbrev two_items : Spool
two_items = record {
  pending = entry 20 7 ∷ entry 3 5 ∷ [];
  images = record { path = codes "raw" ∷ codes "a.jpg" ∷ []; jpeg = 1 ∷ 2 ∷ [] } ∷ [];
  dead_files = [];
  max_bytes = 8;
  flush_batch = 10;
  enqueued = 2;
  sent = 0;
  dropped = 0;
  dead = 0;
}

abbrev good_disk : Disk
good_disk = record {
  unlink_fails = λ t. false;
  replace_fails = λ n. false;
  write_fails = λ t. false;
}

-- A server that keeps what it is sent, and answers 201.
abbrev keep : Payload → List Payload → ℕ × List Payload
keep p ps = (201, p ∷ ps)

abbrev take_image : Text → List ℕ → List Payload → Upload × List Payload
take_image key jpeg ps = (uploaded, ps)

abbrev received : List Payload → List Payload
received ps = ps

keep-Remembers : Remembers received keep (some take_image)
keep-Remembers = record {
  post_keeps = λ p q s i. inr i;
  post_takes = λ p s h. inl refl;
  upload_keeps = λ f e k j q s i. subst (λ g. In q (g k j s).1) (some-injective take_image f e) i;
}

-- The names of the two items differ.
two_items-Distinct : Distinct two_items.pending
unfolding find_entry file_name text_eq
two_items-Distinct = (refl, (refl, tt))

flush_loses_nothing_example :
    let r = flush good_disk keep (some take_image) none two_items [] in
    Kept received (entry 3 5) r.spool r.server
flush_loses_nothing_example =
    flush_loses_nothing good_disk keep (some take_image) keep-Remembers (λ n. refl) (entry 3 5) none
      two_items [] two_items-Distinct (inr (inl refl))

flush-tally_example :
    let report = (flush good_disk keep (some take_image) (some 1) two_items []).report in
    let due = min (max 1 (limit_of (some 1) two_items)) (length two_items.pending) in
    (tally report ≤ due) × ((report.aborted ≡ true) ⊎ (tally report ≡ due))
flush-tally_example = flush-tally good_disk keep (some take_image) (some 1) two_items []

-- No payload that the server has been sent has image keys.
abbrev KeyFree : List Payload → Type 0
KeyFree ps = All (λ p. p.pending_images ≡ none) ps

keep-Stable : Stable KeyFree keep (some take_image)
keep-Stable = record {
  by_post = λ p s none q. (none, q);
  by_upload = λ f e k j s q. subst (λ g. KeyFree (g k j s).1) (some-injective take_image f e) q;
}

flush_posts_no_image_keys_example :
    KeyFree (flush good_disk keep (some take_image) none two_items []).server
flush_posts_no_image_keys_example =
    flush_posts_no_image_keys KeyFree good_disk keep (some take_image) keep-Stable none two_items []
      tt

abbrev offline : Payload → List Payload → ℕ × List Payload
offline p ps = (0, ps)

abbrev cut_off : Text → List ℕ → List Payload → Upload × List Payload
cut_off key jpeg ps = (unreachable, ps)

two_items-order : pending_files two_items ≡ entry 3 5 ∷ entry 20 7 ∷ []
unfolding pending_files oldest_key file_name
two_items-order = refl

flush_offline_example :
    let r = flush good_disk offline (some cut_off) none two_items [] in
    (r.spool ≡ two_items) × (r.report ≡ record { sent = 0; held = 1; dead = 0; aborted = true })
flush_offline_example =
    flush_offline good_disk offline cut_off (λ p s. refl) (λ k j s. refl) none two_items []
      (entry 3 5) (entry 20 7 ∷ []) (payload 3) two_items-Distinct two_items-order refl

enforce_cap-le_example :
    let s' = (enforce_cap good_disk two_items).1 in
    (s'.max_bytes ≡ 8)
    × ((total_bytes s' ≤ s'.max_bytes) ⊎ ((s'.pending ≡ []) × (s'.dead_files ≡ [])))
enforce_cap-le_example = enforce_cap-le good_disk (λ t. refl) two_items two_items-Distinct tt

two_items-total : total_bytes two_items ≡ 14
unfolding total_bytes
two_items-total = refl

free_name-fresh_example :
    find_entry (free_name (payload 3) two_items.pending) two_items.pending ≡ none
free_name-fresh_example = free_name-fresh (payload 3) two_items.pending

-- The name of the oldest item is taken: the next one has a number.
free_name-taken : free_name (payload 3) two_items.pending ≡ codes "3_CAM_1-1.json"
unfolding free_name find_entry file_name safe_token text_eq is_safe_char is_edge_char
free_name-taken = refl

oldest_key-file_name_example :
    oldest_key (file_name 3 (codes "CAM_1") 2) ≡ (3, file_name 3 (codes "CAM_1") 2)
oldest_key-file_name_example = oldest_key-file_name 3 (codes "CAM_1") 2

safe_token-dots : safe_token (some (codes " ../etc x")) ≡ codes "etc_x"
unfolding safe_token is_safe_char is_edge_char
safe_token-dots = refl
