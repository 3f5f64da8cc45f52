-- ===== src/Worker/State.antt =====
-- The state of `Worker` of services/vision/worker/runner.py, and what its cycles get from elsewhere. The
-- image code gives its answers as parameters in `Eyes`, none where it raises an exception; `grab_once`
-- is a try of the camera (`AcquisitionService._grab_once` of services/vision/acquisition/__init__.py),
-- and `model_dump` pydantic's. The times of a cycle are in `Clock`.
use pipe_vision.Prelude.{ℕ, Bool, Option, List}
use pipe_vision.Prelude.Text.{Text}
use pipe_vision.Api.Rows.{InspectionResult}
use pipe_vision.Spool.Store.{Disk, Payload, Spool}
use pipe_vision.Tower.{Tower}
use pipe_vision.Trigger.Vision.{Settings, VisionTrigger}
use pipe_vision.Verdict.{VerdictResult}
use pipe_vision.Worker.Client.{ItemMaster, Http}
use pipe_vision.Worker.Images.{RawPolicy}
use pipe_vision.Worker.Orders.{WorkerConfig, Station}
use pipe_vision.Worker.Results.{BatchMeta, TubeResult}

-- A try of the camera: a picture, a CameraError, or another exception.
pub data Try (Frame : Type 0) : Type 0 where
  taken : Frame → Try Frame
  camera_error other_error : Try Frame

-- The result of `grab_with_retry`.
pub data Grab (Frame : Type 0) : Type 0 where
  grabbed : Frame → Grab Frame
  not_grabbed grab_raised : Grab Frame

pub record BatchResult : Type 0 where
  pub tubes : List TubeResult
  pub count_detected : ℕ
  pub count_mismatch : Bool
  pub ng_count : ℕ
  pub any_review : Bool
  pub batch_ng : Bool
  pub count_uncertain : Bool

pub record Drawn : Type 0 where
  pub name : Text
  pub raw_jpeg : List ℕ
  pub result_jpeg : List ℕ

pub record Eyes (Frame : Type 0) : Type 0 where
  pub sees_tubes : Frame → Option Bool
  pub judge : Frame → ItemMaster → Text → Option VerdictResult
  pub inspect_batch : Frame → ItemMaster → ℕ → Text → Option BatchResult
  pub count_bundle : Frame → Option ℕ
  pub draw : Frame → BatchMeta → Bool → Option Drawn

pub record Clock : Type 0 where
  pub now : ℕ
  pub total_ms : ℕ

pub record Env (S Cam Frame : Type 0) : Type 0 where
  pub http : Http S
  pub put : Text → List ℕ → S → Bool × S
  pub cfg : WorkerConfig
  pub disk : Disk
  pub json_size : Payload → ℕ
  pub model_dump : InspectionResult → Payload
  pub pin_fails : ℕ → Bool
  pub raw_policy : RawPolicy
  pub settings : Settings
  pub grab_once : Cam → Try Frame × Cam
  pub eyes : Eyes Frame

pub record Worker (S Cam Scene Frame : Type 0) : Type 0 where
  pub station : Station S Cam
  pub spool : Spool
  pub tower : Option Tower
  pub vision : Option (VisionTrigger Scene Frame)
  pub manual : Bool
  pub capture : Bool
  pub live : Bool
  pub success : ℕ
  pub failure : ℕ
  pub processed : ℕ
  pub spooled : ℕ
