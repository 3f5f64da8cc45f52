-- ===== src/Archive/Lasting.antt =====
-- A picture that the archive was given, over all that happens afterwards
-- (services/vision/imaging/archive.py).
use pipe_vision.Prelude.{
  ℕ, ◌≤◌, ◌<◌, Bool, Option, none, some, List, [], ◌∷◌, ◌≡◌, ◌⊎◌, refl, sym, arith, inl, inr,
  Bool-cases, Option-cases, In, In-append_left, In-append_right, In-last, length, ltb,
}
use pipe_vision.Prelude.Text.{Text}
use pipe_vision.Archive.{
  File, Task, Archive, World, find_file, archive_relpath, file_of, handle, spool_now, submit,
  retry_spool, after_retry, take_task, loop_round, Step, submitted, round, step, steps,
}
use pipe_vision.Archive.Kept.{
  Fits, Stored, Sound, Fate, to_spool-Fate, store-Fate, retry_spool-Fate, after_retry-Fate,
  to_spool-Stored, store-Stored,
}

module _ (day_path : ℕ → Text) (encode : Task → Option (List ℕ)) (t : Task) (f : File) (d : ℕ) where
  -- A task that makes no other file of the name of f.
  abbrev Own : Task → Type 0
  Own u = (g : File) → file_of day_path encode u ≡ some g → Fits f d g

  abbrev AllOwn : List Task → Type 0
  AllOwn us = (u : Task) → In u us → Own u

  -- The picture waits or is stored.
  abbrev Given : Archive → Type 0
  Given a = Fate f d (In t a.queue) a.queue a × AllOwn a.queue

  file_of-relpath :
      (u : Task) (g : File)
      → file_of day_path encode u ≡ some g
      → archive_relpath day_path u.key u.ts ≡ none
      → ⊥
  unfolding file_of
  file_of-relpath u g h e = cc (rw (e, file_of) at h)

  handle-Fate :
      (Q : Type 0) (q : List Task) (w : World) (u : Task) (a : Archive)
      → Own u
      → Fate f d Q q a
      → Fate f d Q q (handle day_path encode w u a)
  unfolding handle
  handle-Fate Q q w u a own h = elim (Option-cases (file_of day_path encode u)) [
    | inl e ↦ rw (e, handle) h
    | inr (g, e) ↦ rw (e, handle) (store-Fate f d Q q w g a (own g e) h)
  ]

  handle-Stored :
      (w : World) (a : Archive)
      → file_of day_path encode t ≡ some f
      → Sound f d a.queue a
      → Stored f d (handle day_path encode w t a)
  unfolding handle
  handle-Stored w a e h = rw (e, handle) (store-Stored f d w a h)

  spool_now-Fate :
      (Q : Type 0) (q : List Task) (w : World) (u : Task) (a : Archive)
      → Own u
      → Fate f d Q q a
      → Fate f d Q q (spool_now day_path encode w u a)
  unfolding spool_now
  spool_now-Fate Q q w u a own h = elim (Option-cases (file_of day_path encode u)) [
    | inl e ↦ rw (e, spool_now) h
    | inr (g, e) ↦ rw (e, spool_now) (to_spool-Fate f d Q q w g a (own g e) h)
  ]

  spool_now-Stored :
      (w : World) (a : Archive)
      → file_of day_path encode t ≡ some f
      → d ≤ a.dropped
      → Stored f d (spool_now day_path encode w t a)
  unfolding spool_now
  spool_now-Stored w a e le = rw (e, spool_now) (to_spool-Stored f d w a le)

  Own-self : file_of day_path encode t ≡ some f → Own t
  Own-self makes g made same = cc

  -- The tasks that wait are still q.
  Given-of : (q : List Task) (b : Archive) → AllOwn q → Fate f d (In t q) q b → Given b
  Given-of q b own h = rw h.0.1 (((h.0.0, refl), h.1), own)

  submit-Given :
      (w : World) (u : Task) (a : Archive) → Own u → Given a → Given (submit day_path encode w u a)
  unfolding submit
  submit-Given w u a own (h, others) = elim (Option-cases (archive_relpath day_path u.key u.ts)) [
    | inl e ↦ rw (e, submit) (h, others)
    | inr (rel, e) ↦ elim (Bool-cases (ltb (length a.queue) a.queue_size)) [
      | inl k ↦
          rw (e, k, submit)
            (
              (
                (h.0.0, refl),
                elim h.1 [ inl m ↦ inl (In-append_left t a.queue (u ∷ []) m) | inr m ↦ inr m ],
              ),
              λ x m. elim (In-last x u a.queue m) [
                | inl n ↦ others x n
                | inr same ↦ rw (sym same) own
              ],
            )
      | inr k ↦
          rw (e, k, submit)
            (Given-of a.queue (spool_now day_path encode w u a) others
              (spool_now-Fate (In t a.queue) a.queue w u a own h))
    ]
  ]

  first_submit :
      (w : World) (a : Archive)
      → file_of day_path encode t ≡ some f
      → Sound f d a.queue a
      → AllOwn a.queue
      → Given (submit day_path encode w t a)
  unfolding submit spool_now
  first_submit w a makes h others = elim (Option-cases (archive_relpath day_path t.key t.ts)) [
    | inl e ↦ absurd (file_of-relpath t f makes e)
    | inr (rel, e) ↦ elim (Bool-cases (ltb (length a.queue) a.queue_size)) [
      | inl k ↦
          rw (e, k, submit)
            (
              ((h.0, refl), inl (In-append_right t a.queue (t ∷ []) (inl refl))),
              λ x m. elim (In-last x t a.queue m) [
                | inl n ↦ others x n
                | inr same ↦ rw (sym same) (Own-self makes)
              ],
            )
      | inr k ↦
          rw (e, k, submit)
            (Given-of a.queue (spool_now day_path encode w t a) others (
              (spool_now-Fate Unit a.queue w t a (Own-self makes) (h, inl tt)).0,
              inr (spool_now-Stored w a makes h.0.1),
            ))
    ]
  ]

  take_task-Given :
      (w : World) (q : List Task) (a : Archive)
      → file_of day_path encode t ≡ some f
      → Fate f d (In t q) q a
      → AllOwn q
      → Given (take_task day_path encode w q a)
  unfolding take_task
  take_task-Given w [] a makes h others = Given-of [] a others h
  take_task-Given w (u ∷ us) a makes (sound, h) others =
      let a1 : Archive = record a { queue = us } in
      let left : AllOwn us = λ x m. others x (inr m) in
      Given-of us (handle day_path encode w u a1) left (elim h [
        | inl (inl same) ↦ (
          (handle-Fate Unit us w u a1 (others u (inl refl)) ((sound.0, refl), inl tt)).0,
          inr (rw same (handle-Stored w a1 makes (sound.0, refl))),
        )
        | inl (inr m) ↦
            handle-Fate (In t us) us w u a1 (others u (inl refl)) ((sound.0, refl), inl m)
        | inr s ↦ handle-Fate (In t us) us w u a1 (others u (inl refl)) ((sound.0, refl), inr s)
      ])

  loop_round-Given :
      (w v : World) (due : Bool) (a : Archive)
      → file_of day_path encode t ≡ some f
      → Given a
      → Given (loop_round day_path encode w v due a)
  unfolding loop_round
  loop_round-Given w v due a makes (h, others) =
      let b : Archive = take_task day_path encode w a.queue a in
      let g : Given b = take_task-Given w a.queue a makes h others in
      elim (Bool-cases due) [
        | inr e ↦ rw (e, loop_round) g
        | inl e ↦
            rw (e, loop_round)
              (Given-of b.queue (after_retry v (retry_spool v 500 b)) g.1 (
                after_retry-Fate f d (In t b.queue) b.queue v (retry_spool v 500 b)
                  (retry_spool-Fate f d (In t b.queue) b.queue v 500 b g.0)))
      ]

  step-Given :
      (x : Step) (a : Archive)
      → file_of day_path encode t ≡ some f
      → ((w : World) (u : Task) → x ≡ submitted w u → Own u)
      → Given a
      → Given (step day_path encode x a)
  unfolding step
  step-Given (submitted w u) a makes own h = submit-Given w u a (own w u refl) h
  step-Given (round w v due) a makes own h = loop_round-Given w v due a makes h

  steps-Given :
      (xs : List Step) (a : Archive)
      → file_of day_path encode t ≡ some f
      → ((w : World) (u : Task) → In (submitted w u) xs → Own u)
      → Given a
      → Given (steps day_path encode xs a)
  unfolding steps
  steps-Given [] a makes own h = h
  steps-Given (x ∷ xs) a makes own h =
      steps-Given xs (step day_path encode x a) makes (λ w u m. own w u (inr m))
        (step-Given x a makes (λ w u e. own w u (inl e)) h)

-- After a picture is submitted, whatever else is submitted and however many rounds the loop makes, the
-- picture waits in the queue, or the NAS has its file, or the spool has it, or one more picture has
-- been counted as dropped. This holds for a task whose file can be made, where no other file of its
-- name, of other content, is in the spool, waits or is submitted later.
pub submitted_stays :
    (day_path : ℕ → Text) (encode : Task → Option (List ℕ)) (w : World) (t : Task) (f : File)
    (a : Archive) (xs : List Step)
    → file_of day_path encode t ≡ some f
    → ((g : File) → In g a.spool → g.rel ≡ f.rel → g ≡ f)
    → ((u : Task) (g : File)
        → In u a.queue ⊎ ((v : World) × In (submitted v u) xs)
        → file_of day_path encode u ≡ some g
        → g.rel ≡ f.rel
        → g ≡ f)
    → let b = steps day_path encode xs (submit day_path encode w t a) in
      In t b.queue ⊎ ((find_file f.rel b.nas ≡ some f) ⊎ (In f b.spool ⊎ (a.dropped < b.dropped)))
submitted_stays day_path encode w t f a xs makes spool others =
    let start : Sound f a.dropped a.queue a = ((spool, omega arith), refl) in
    (steps-Given day_path encode t f a.dropped xs (submit day_path encode w t a) makes
      (λ v u m g. others u g (inr (v, m)))
      (first_submit day_path encode t f a.dropped w a makes start
        (λ u m g. others u g (inl m)))).0.1
