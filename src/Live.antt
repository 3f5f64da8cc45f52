-- ===== src/Live.antt =====
-- The relay of the live view (services/api/core/live.py). A time is a number of hundredths of a
-- second, to which the code rounds the age of a frame; the seconds left of a session, which it rounds
-- to tenths, are left as they are. Each operation takes the reading of the clock that it makes.
-- The lock makes each operation one step, but for `put_frame`, which takes it twice: others may come
-- between its two steps, `begin_frame` and `wants`.
pub mod Capture
pub mod Session
use pipe_vision.Prelude.{
  ℕ, ◌+◌, ◌-◌, Bool, true, false, ◌&&◌, not, Option, none, some, List, [], ◌∷◌, String, max, ltb,
  leb, if◌then◌else◌, length,
}
use pipe_vision.Prelude.Dict.{get, put}

abbrev pub view_ttl : ℕ
view_ttl = 1500

abbrev pub start_ttl : ℕ
start_ttl = 3000

abbrev pub max_session : ℕ
max_session = 60000

abbrev pub max_frame_bytes : ℕ
max_frame_bytes = 1_500_000

abbrev pub stale : ℕ
stale = 500

-- What the worker sends beside a frame: the focus if it is a number, and the other entries.
pub record Meta : Type 0 where
  pub focus : Option ℕ
  pub others : List (String × String)

abbrev pub no_meta : Meta
no_meta = record { focus = none; others = [] }

pub record Cam : Type 0 where
  pub requested_until : ℕ
  pub session_started : ℕ
  pub started_by : Option String
  pub capture : Bool
  pub capture_by : Option String
  pub jpeg : Option (List ℕ)
  pub frame_at : Option ℕ
  pub seq : ℕ
  pub meta : Meta
  pub focus_peak : Option ℕ

abbrev pub new_cam : Cam
new_cam = record {
  requested_until = 0;
  session_started = 0;
  started_by = none;
  capture = false;
  capture_by = none;
  jpeg = none;
  frame_at = none;
  seq = 0;
  meta = no_meta;
  focus_peak = none;
}

abbrev pub Cams : Type 0
Cams = List (String × Cam)

abbrev cam_or_new : Option Cam → Cam
cam_or_new none = new_cam
cam_or_new (some c) = c

-- `_cam`; what it adds for a new key is what the operation then puts.
unfoldable pub cam_of : Cams → String → Cam
cam_of cams cam_id = cam_or_new (get cams cam_id)

unfoldable pub requested : Cam → ℕ → Bool
requested c now = ltb now c.requested_until && leb (now - c.session_started) max_session

pub record LiveState : Type 0 where
  pub cam_id : String
  pub is_requested : Bool
  pub streaming : Bool
  pub requested_until : Option ℕ
  pub session_left : Option ℕ
  pub frame_at : Option ℕ
  pub age : Option ℕ
  pub seq : ℕ
  pub capture_pending : Bool
  pub focus_peak : Option ℕ
  pub meta : Meta

abbrev age_of : Option ℕ → ℕ → Option ℕ
age_of none now = none
age_of (some at) now = some (now - at)

abbrev is_fresh : Option ℕ → Bool
is_fresh none = false
is_fresh (some age) = leb age stale

abbrev is_some : {A : Type 0} → Option A → Bool
is_some none = false
is_some (some _) = true

-- `_state`
unfoldable pub state_of : String → Cam → ℕ → LiveState
unfolding requested
state_of cam_id c now =
    let on = requested c now in
    record {
      cam_id = cam_id;
      is_requested = on;
      streaming = on && is_fresh (age_of c.frame_at now) && is_some c.jpeg;
      requested_until = if on then some c.requested_until else none;
      session_left = if on then some (max_session - (now - c.session_started)) else none;
      frame_at = c.frame_at;
      age = age_of c.frame_at now;
      seq = c.seq;
      capture_pending = c.capture;
      focus_peak = c.focus_peak;
      meta = c.meta;
    }

-- A new session forgets the last frame of the one before.
abbrev new_session : Cam → ℕ → Cam
new_session c now = record c {
  session_started = now;
  focus_peak = none;
  jpeg = none;
  frame_at = none;
  meta = no_meta;
}

-- What each operation does to the entry of its camera.
unfoldable pub started : Option String → ℕ → Cam → Cam
unfolding requested
started user now old =
    let c = if requested old now then old else new_session old now in
    record c { requested_until = max c.requested_until (now + start_ttl); started_by = user }

abbrev pub stopped : Cam → Cam
stopped c = record c { requested_until = 0; jpeg = none }

abbrev pub asked : Option String → Cam → Cam
asked user c = record c { capture = true; capture_by = user }

abbrev pub told : Cam → Cam
told c = record c { capture = false }

abbrev pub peak : Option ℕ → Option ℕ → Option ℕ
peak none old = old
peak (some focus) none = some focus
peak (some focus) (some old) = some (max old focus)

abbrev pub framed : List ℕ → Meta → ℕ → Cam → Cam
framed jpeg meta now c = record c {
  jpeg = some jpeg;
  frame_at = some now;
  seq = c.seq + 1;
  meta = meta;
  focus_peak = peak meta.focus c.focus_peak;
}

abbrev pub touched : ℕ → Cam → Cam
touched now c = record c { requested_until = max c.requested_until (now + view_ttl) }

unfoldable pub start : String → Option String → ℕ → Cams → LiveState × Cams
unfolding cam_of state_of started
start cam_id user now cams =
    let c = started user now (cam_of cams cam_id) in (state_of cam_id c now, put cams cam_id c)

unfoldable pub stop : String → ℕ → Cams → LiveState × Cams
unfolding cam_of state_of
stop cam_id now cams =
    let c = stopped (cam_of cams cam_id) in (state_of cam_id c now, put cams cam_id c)

unfoldable pub request_capture : String → Option String → Cams → Cams
unfolding cam_of
request_capture cam_id user cams = put cams cam_id (asked user (cam_of cams cam_id))

-- The answer to the worker: whether to send frames, and whether to take a picture now.
unfoldable pub wants : String → ℕ → Cams → (Bool × Bool) × Cams
unfolding requested
wants cam_id now cams = elim (get cams cam_id) [
  | none ↦ ((false, false), cams)
  | some c ↦ ((requested c now, c.capture), put cams cam_id (told c))
]

-- none is the ValueError for a frame that is too large. The second time is that of `wants`.
unfoldable pub put_frame : String → List ℕ → Meta → ℕ → ℕ → Cams → Option ((Bool × Bool) × Cams)
unfolding requested cam_of wants
put_frame cam_id jpeg meta now now' cams =
    let c = cam_of cams cam_id in
    if ltb max_frame_bytes (length jpeg)
    then none
    else if not (requested c now)
    then some ((false, c.capture), put cams cam_id (told c))
    else some (wants cam_id now' (put cams cam_id (framed jpeg meta now c)))

-- The first step of `put_frame`, with the answer that it gives where nobody watches.
unfoldable pub begin_frame : String → List ℕ → Meta → ℕ → Cams → Bool × Cams
unfolding requested cam_of
begin_frame cam_id jpeg meta now cams =
    let c = cam_of cams cam_id in
    if ltb max_frame_bytes (length jpeg)
    then (false, cams)
    else if not (requested c now)
    then (c.capture, put cams cam_id (told c))
    else (false, put cams cam_id (framed jpeg meta now c))

unfoldable pub touch : String → ℕ → Cams → Cams
unfolding requested
touch cam_id now cams = elim (get cams cam_id) [
  | none ↦ cams
  | some c ↦ if requested c now then put cams cam_id (touched now c) else cams
]

unfoldable pub state : String → ℕ → Cams → LiveState
unfolding cam_of state_of
state cam_id now cams = state_of cam_id (cam_of cams cam_id) now

abbrev frame_of : Option (List ℕ) → ℕ → Option (List ℕ × ℕ)
frame_of none seq = none
frame_of (some jpeg) seq = some (jpeg, seq)

unfoldable pub frame : String → Cams → Option (List ℕ × ℕ)
unfolding cam_of
frame cam_id cams = let c = cam_of cams cam_id in frame_of c.jpeg c.seq

-- The operations that change the relay, as requests of screens and workers. An upload between whose
-- steps others come is `begin_upload` and, where somebody watches, a later `heartbeat`.
pub data Request : Type 0 where
  start_view : String → Option String → ℕ → Request
  stop_view : String → ℕ → Request
  ask_capture : String → Option String → Request
  heartbeat : String → ℕ → Request
  upload_frame : String → List ℕ → Meta → ℕ → ℕ → Request
  begin_upload : String → List ℕ → Meta → ℕ → Request
  watch : String → ℕ → Request

abbrev answered : Option ((Bool × Bool) × Cams) → Cams → Bool × Cams
answered none cams = (false, cams)
answered (some ((live, capture), cams')) cams = (capture, cams')

-- Whether the answer tells a worker to take a picture, and the relay afterwards.
unfoldable pub serve : Request → Cams → Bool × Cams
unfolding start stop request_capture wants put_frame begin_frame touch
serve (start_view k user now) cams = (false, (start k user now cams).1)
serve (stop_view k now) cams = (false, (stop k now cams).1)
serve (ask_capture k user) cams = (false, request_capture k user cams)
serve (heartbeat k now) cams = answered (some (wants k now cams)) cams
serve (upload_frame k jpeg meta now now') cams = answered (put_frame k jpeg meta now now' cams) cams
serve (begin_upload k jpeg meta now) cams = begin_frame k jpeg meta now cams
serve (watch k now) cams = (false, touch k now cams)

-- The cameras that were told to take a picture, in order.
unfoldable pub serve_all : List Request → Cams → ℕ × Cams
unfolding serve
serve_all [] cams = (0, cams)
serve_all (r ∷ rs) cams =
    let (now_told, cams') = serve r cams in
    let (n, end) = serve_all rs cams' in ((if now_told then 1 else 0) + n, end)
