-- ===== src/Spool/Store/Room.antt =====
-- `enqueue` of services/vision/worker/spool.py where there is room for the item.
use pipe_vision.Prelude.{
  ℕ, ◌+◌, ◌≤◌, ◌≡◌, refl, ap, false, some, List, [], ◌∷◌, ◌++◌, inl, arith, In, In-append_left,
  In-append_right,
}
use pipe_vision.Prelude.Text.{Text}
use pipe_vision.Spool.Store.{
  Disk, Spool, Entry, Payload, Target, pending_file, enqueue, with_images, free_name, total_bytes,
  entry_bytes,
}
use pipe_vision.Spool.Store.Limit.{enforce_cap_fits}

-- The payload is in a pending file.
abbrev pub HasPayload : Payload → Spool → Type 0
HasPayload p s = (e : Entry) × In e s.pending × (e.body ≡ some p)

-- There is room for n bytes.
abbrev pub Room : ℕ → Spool → Type 0
Room n s = total_bytes s + n ≤ s.max_bytes

entry_bytes-append : (es ds : List Entry) → entry_bytes (es ++ ds) ≡ entry_bytes es + entry_bytes ds
unfolding entry_bytes
entry_bytes-append [] ds = omega arith
entry_bytes-append (e ∷ es) ds = ground (arith, entry_bytes-append es ds)

module _ (disk : Disk) (json_size : Payload → ℕ)
    (writes : (t : Target) → disk.write_fails t ≡ false) where
  abbrev entry_of : Payload → List Text → Spool → Entry
  entry_of p images s = record {
    name = free_name (with_images images p) s.pending;
    body = some (with_images images p);
    size = json_size (with_images images p);
  }

  abbrev queued : Entry → Spool → Spool
  queued e s = record s { pending = s.pending ++ e ∷ []; enqueued = s.enqueued + 1 }

  queued-total : (e : Entry) (s : Spool) → total_bytes (queued e s) ≡ total_bytes s + e.size
  unfolding total_bytes entry_bytes
  queued-total e s = ground (arith, entry_bytes-append s.pending (e ∷ []))

  enqueue-queued :
      (p : Payload) (images : List Text) (s : Spool)
      → total_bytes s + json_size (with_images images p) ≤ s.max_bytes
      → (enqueue disk json_size p images s).1 ≡ queued (entry_of p images s) s
  unfolding enqueue
  enqueue-queued p images s room =
      rw (writes (pending_file (free_name (with_images images p) s.pending)), enqueue)
        (ap (λ (r : ℕ × Spool). r.1)
          (enforce_cap_fits disk (queued (entry_of p images s) s)
            (rw (queued-total (entry_of p images s) s) room)))

  pub enqueue-HasPayload :
      (p : Payload) (images : List Text) (s : Spool)
      → total_bytes s + json_size (with_images images p) ≤ s.max_bytes
      → HasPayload (with_images images p) (enqueue disk json_size p images s).1
  enqueue-HasPayload p images s room = rw (enqueue-queued p images s room) (
    entry_of p images s,
    In-append_right (entry_of p images s) s.pending (entry_of p images s ∷ []) (inl refl),
    refl,
  )

  pub enqueue-keeps :
      (p q : Payload) (images : List Text) (s : Spool)
      → total_bytes s + json_size (with_images images p) ≤ s.max_bytes
      → HasPayload q s
      → HasPayload q (enqueue disk json_size p images s).1
  enqueue-keeps p q images s room (e, i, b) =
      rw (enqueue-queued p images s room)
        (e, In-append_left e s.pending (entry_of p images s ∷ []) i, b)

  pub enqueue-Room :
      (p : Payload) (images : List Text) (n : ℕ) (s : Spool)
      → total_bytes s + (json_size (with_images images p) + n) ≤ s.max_bytes
      → total_bytes (enqueue disk json_size p images s).1 + n
        ≤ (enqueue disk json_size p images s).1.max_bytes
  enqueue-Room p images n s room =
      rw (enqueue-queued p images s (omega arith), queued-total (entry_of p images s) s)
        (omega arith)
