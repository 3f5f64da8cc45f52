-- ===== src/Live/Session.antt =====
-- A session ends by itself, and no frame is kept that nobody watches.
use pipe_vision.Prelude.{
  ℕ, ◌+◌, ◌<◌, ◌≤◌, ◌≡◌, refl, ◌∙◌, length, Bool, false, some, List, [], ◌∷◌, String, arith, eq_iff,
  str_eq, Option-cases, inl, inr, if◌then◌else◌, All,
}
use pipe_vision.Prelude.Dict.{get, put, get-put}
use pipe_vision.Live.{
  Cam, Cams, Meta, cam_of, Request, start_view, stop_view, ask_capture, heartbeat, upload_frame,
  begin_upload, watch, told, framed, touched, max_session, max_frame_bytes, serve, serve_all,
  requested, wants, put_frame, touch, frame,
}

cam_of-put :
    (cams : Cams) (k j : String) (c : Cam)
    → cam_of (put cams k c) j ≡ (if str_eq k j then c else cam_of cams j)
unfolding cam_of
cam_of-put cams k j c = rw get-put (ground arith)

-- The requests that may start a session of a camera.
unfoldable pub starts : String → Request → Bool
starts k (start_view j user now) = str_eq j k
starts k _ = false

cam_of-get : (cams : Cams) (k : String) (c : Cam) → get cams k ≡ some c → cam_of cams k ≡ c
unfolding cam_of
cam_of-get cams k c e = rw e

wants-session_started :
    (k j : String) (now : ℕ) (cams : Cams)
    → (cam_of (wants j now cams).1 k).session_started ≡ (cam_of cams k).session_started
unfolding wants
wants-session_started k j now cams = elim (Option-cases (get cams j)) [
  | inl e ↦ rw (e, wants) refl
  | inr (c, e) ↦ rw (e, wants) (rw cam_of-put (ground (arith, eq_iff j k, cam_of-get cams j c e)))
]

-- Every other request leaves the time at which the session of a camera started.
serve-session_started :
    (k : String) (r : Request) (cams : Cams)
    → starts k r ≡ false
    → (cam_of (serve r cams).1 k).session_started ≡ (cam_of cams k).session_started
unfolding serve starts
serve-session_started k (start_view j user now) cams h = rw cam_of-put (rw h)
serve-session_started k (stop_view j now) cams h = rw cam_of-put (ground (arith, eq_iff j k))
serve-session_started k (ask_capture j user) cams h = rw cam_of-put (ground (arith, eq_iff j k))
serve-session_started k (heartbeat j now) cams h = wants-session_started k j now cams
serve-session_started k (upload_frame j jpeg meta now now') cams h =
    let c = cam_of cams j in
    ground (
      arith,
      eq_iff j k,
      cam_of-put cams j k (told c),
      cam_of-put cams j k (framed jpeg meta now c),
      wants-session_started k j now' (put cams j (framed jpeg meta now c)),
    )
serve-session_started k (begin_upload j jpeg meta now) cams h =
    let c = cam_of cams j in
    ground (
      arith,
      eq_iff j k,
      cam_of-put cams j k (told c),
      cam_of-put cams j k (framed jpeg meta now c),
    )
serve-session_started k (watch j now) cams h = elim (Option-cases (get cams j)) [
  | inl e ↦ rw (e, touch) refl
  | inr (c, e) ↦
      rw (e, touch)
        (ground (arith, eq_iff j k, cam_of-get cams j c e, cam_of-put cams j k (touched now c)))
]

serve_all-session_started :
    (k : String) (rs : List Request) (cams : Cams)
    → All (λ r. starts k r ≡ false) rs
    → (cam_of (serve_all rs cams).1 k).session_started ≡ (cam_of cams k).session_started
unfolding serve_all
serve_all-session_started k [] cams h = refl
serve_all-session_started k (r ∷ rs) cams h =
    serve_all-session_started k rs (serve r cams).1 h.1 ∙ serve-session_started k r cams h.0

-- However long screens go on watching, a camera is not asked for frames any more once the longest
-- session has passed since its session started, unless a screen starts it anew.
pub session_ends :
    (k : String) (rs : List Request) (cams : Cams) (now : ℕ)
    → All (λ r. starts k r ≡ false) rs
    → (cam_of cams k).session_started + max_session < now
    → requested (cam_of (serve_all rs cams).1 k) now ≡ false
unfolding requested
session_ends k rs cams now h late = ground (arith, serve_all-session_started k rs cams h)

-- A frame, not too large, that arrives when nobody watches is not kept: the frame to be shown, of this camera and of
-- any other, stays the one before, and the worker is told to stop.
pub late_frame_dropped :
    (k j : String) (jpeg : List ℕ) (meta : Meta) (now now' : ℕ) (cams : Cams)
    → length jpeg ≤ max_frame_bytes
    → requested (cam_of cams k) now ≡ false
    → (cams' : Cams) × (put_frame k jpeg meta now now' cams
        ≡ some ((false, (cam_of cams k).capture), cams'))
      × (frame j cams' ≡ frame j cams)
unfolding put_frame frame
late_frame_dropped k j jpeg meta now now' cams small off = (
  put cams k (told (cam_of cams k)),
  ground arith,
  ground (arith, eq_iff k j, cam_of-put cams k j (told (cam_of cams k))),
)
