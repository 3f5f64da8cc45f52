-- ===== src/Live/Capture.antt =====
-- A picture that a screen asks for is taken once.
use pipe_vision.Prelude.{
  ℕ, ◌+◌, ◌≤◌, ◌≡◌, refl, ap, Bool, true, false, Option, none, some, List, [], ◌∷◌, String, arith,
  Option-cases, inl, inr,
}
use pipe_vision.Prelude.Dict.{get, put, get-put, str_eq_refl}
use pipe_vision.Live.{
  Cam, Cams, cam_of, Request, start_view, stop_view, ask_capture, heartbeat, upload_frame,
  begin_upload, watch, started, stopped, asked, told, framed, touched, serve, serve_all, wants,
  touch,
}

abbrev flag : Bool → ℕ
flag true = 1
flag false = 0

abbrev waiting : Option Cam → ℕ
waiting none = 0
waiting (some c) = flag c.capture

-- The cameras for which a picture is asked and not yet told to the worker.
pub pending_captures : Cams → ℕ
pending_captures [] = 0
pending_captures ((k, c) ∷ cams) = flag c.capture + pending_captures cams

pending_captures-put :
    (cams : Cams) (k : String) (c : Cam)
    → pending_captures (put cams k c) + waiting (get cams k)
      ≡ pending_captures cams + flag c.capture
unfolding pending_captures put get
pending_captures-put [] k c = omega arith
pending_captures-put ((j, d) ∷ cams) k c = ground (arith, pending_captures-put cams k c)

pub is_ask : Request → ℕ
is_ask (ask_capture k user) = 1
is_ask _ = 0

pub asks : List Request → ℕ
unfolding is_ask
asks [] = 0
asks (r ∷ rs) = is_ask r + asks rs

waiting-cam_of : (cams : Cams) (k : String) → waiting (get cams k) ≡ flag (cam_of cams k).capture
unfolding cam_of
waiting-cam_of cams k = ground arith

wants-pending :
    (k : String) (now : ℕ) (cams : Cams)
    → let ((live, capture), cams') = wants k now cams in
      flag capture + pending_captures cams' ≤ pending_captures cams
unfolding wants
wants-pending k now cams = elim (Option-cases (get cams k)) [
  | inl e ↦ rw (e, wants) (omega arith)
  | inr (c, e) ↦ rw (e, wants) (omega (arith, pending_captures-put cams k (told c), ap waiting e))
]

serve-pending :
    (r : Request) (cams : Cams)
    → let (now_told, cams') = serve r cams in
      flag now_told + pending_captures cams' ≤ is_ask r + pending_captures cams
unfolding serve cam_of is_ask
serve-pending (start_view k user now) cams =
    ground (arith, pending_captures-put cams k (started user now (cam_of cams k)))
serve-pending (stop_view k now) cams =
    ground (arith, pending_captures-put cams k (stopped (cam_of cams k)))
serve-pending (ask_capture k user) cams =
    ground (arith, pending_captures-put cams k (asked user (cam_of cams k)))
serve-pending (heartbeat k now) cams = omega (arith, wants-pending k now cams)
serve-pending (upload_frame k jpeg meta now now') cams =
    let c = cam_of cams k in
    ground (
      arith,
      waiting-cam_of cams k,
      pending_captures-put cams k (told c),
      pending_captures-put cams k (framed jpeg meta now c),
      wants-pending k now' (put cams k (framed jpeg meta now c)),
    )
serve-pending (begin_upload k jpeg meta now) cams =
    let c = cam_of cams k in
    ground (
      arith,
      waiting-cam_of cams k,
      pending_captures-put cams k (told c),
      pending_captures-put cams k (framed jpeg meta now c),
    )
serve-pending (watch k now) cams = elim (Option-cases (get cams k)) [
  | inl e ↦ rw (e, touch) (omega arith)
  | inr (c, e) ↦
      rw (e, touch) (ground (arith, ap waiting e, pending_captures-put cams k (touched now c)))
]

-- Over any requests, in any order, of any screens and workers, the workers are told to take a
-- picture at most as often as a screen has asked for one, counting those still waiting before: no
-- request is carried out twice.
pub captures-le-asks :
    (rs : List Request) (cams : Cams)
    → let (n, cams') = serve_all rs cams in
      n + pending_captures cams' ≤ asks rs + pending_captures cams
unfolding serve_all asks
captures-le-asks [] cams = omega arith
captures-le-asks (r ∷ rs) cams =
    ground (arith, serve-pending r cams, captures-le-asks rs (serve r cams).1)

get-put_self : (cams : Cams) (k : String) (c : Cam) → get (put cams k c) k ≡ some c
get-put_self cams k c = rw get-put (rw str_eq_refl refl)

-- A picture that was asked for is told to the worker with its next heartbeat, whether or not anybody
-- watches, and not with the one after it.
pub heartbeat-ask_capture :
    (k : String) (user : Option String) (now now' : ℕ) (cams : Cams)
    → let (first, cams') = serve (heartbeat k now) (serve (ask_capture k user) cams).1 in
      (first ≡ true) × ((serve (heartbeat k now') cams').0 ≡ false)
unfolding serve
heartbeat-ask_capture k user now now' cams =
    let c = asked user (cam_of cams k) in
    let e = get-put_self cams k c in
    (rw (e, wants) refl, rw (e, wants) (rw (get-put_self (put cams k c) k (told c), wants) refl))
