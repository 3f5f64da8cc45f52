-- ===== src/Examples/Live.antt =====
-- Examples for services/api/core/live.py.
use pipe_vision.Prelude.{◌+◌, ◌≤◌, ◌<◌, ◌≡◌, refl, false, none, some, List, [], ◌∷◌, arith, All}
use pipe_vision.Prelude.Dict.{get, put}
use pipe_vision.Live.{
  Cams, no_meta, new_cam, Request, start_view, ask_capture, heartbeat, upload_frame, watch,
  serve_all, requested, cam_of, max_session,
}
use pipe_vision.Live.Capture.{captures-le-asks, asks, pending_captures}
use pipe_vision.Live.Session.{starts}

-- Two screens ask for a picture, and the worker reports twice.
abbrev day : List Request
day =
    start_view "CAM1" (some "kim") 100
    ∷ ask_capture "CAM1" none
    ∷ ask_capture "CAM1" (some "lee")
    ∷ upload_frame "CAM1" (1 ∷ []) no_meta 150 151
    ∷ heartbeat "CAM1" 200
    ∷ []

captures-le-asks_example :
    let (n, cams') = serve_all day [] in n + pending_captures cams' ≤ asks day + pending_captures []
captures-le-asks_example = captures-le-asks day []

day-once : (serve_all day []).0 ≡ 1
unfolding serve_all get put
day-once = refl

abbrev watching : Cams
watching = ("CAM1", record new_cam { requested_until = 3100; session_started = 100 }) ∷ []

starts-none : All (λ r. starts "CAM1" r ≡ false) (watch "CAM1" 3000 ∷ ask_capture "CAM1" none ∷ [])
unfolding starts
starts-none = (refl, (refl, tt))

late : (cam_of watching "CAM1").session_started + max_session < 60201
unfolding cam_of get
late = omega arith

off : requested (cam_of watching "CAM1") 4000 ≡ false
unfolding requested cam_of get
off = refl
