-- ===== src/Worker/Client.antt =====
-- The worker's client of the server (services/vision/worker/client.py). What httpx does with a request
-- is a parameter: the server is a state that each request may change, and a reply has a status and the
-- part of the body that the code reads, none where it is not what the code expects. A monotonic clock
-- counts tenths of a millisecond; `took` is what a round of requests takes, and a sleep lasts what it
-- is told to. `max(1, timeout_s)` is kept.
pub mod Waiting
use pipe_vision.Prelude.{
  ℕ, zero, suc, ◌+◌, ◌-◌, ◌*◌, ◌/◌, Bool, true, false, ◌&&◌, ◌||◌, not, Option, none, some, List,
  [], ◌∷◌, String, max, min, ltb, leb, ◌==◌, if◌then◌else◌,
}
use pipe_vision.Prelude.Text.{Text}
use pipe_vision.Spool.Store.{Payload}

-- Lengths, scales and thresholds are whole numbers of a unit each; the recipe of the camera is its text.
pub record ItemMaster : Type 0 where
  pub item_code : Text
  pub version : ℕ
  pub ref_length_mm : ℕ
  pub px_to_mm_scale : ℕ
  pub tol_plus_mm : ℕ
  pub tol_minus_mm : ℕ
  pub oil_threshold : Option ℕ
  pub discolor_threshold : Option ℕ
  pub scratch_threshold : Option ℕ
  pub expected_count : ℕ
  pub capture_recipe : Option String

-- The order of GET /master/active.
pub record ActiveOrder : Type 0 where
  pub item_code : Text
  pub lot : Option Text
  pub work_order : Option Text
  pub inspection_stage : Option Text
  pub training : Bool

pub record Commands : Type 0 where
  pub live : Bool
  pub capture : Bool

-- The heartbeat of POST /inspection/status, without the state of the machine and the timings.
pub record Status : Type 0 where
  pub cam_id : Text
  pub item_code : Text
  pub stage : Text
  pub lot : Text
  pub expected : ℕ
  pub detected : ℕ
  pub ng : ℕ
  pub mismatch : Bool
  pub proc_time_ms : ℕ
  pub error : Option Text
  pub waiting : Bool

-- A reply, or the HTTPError.
pub data Reply (A : Type 0) : Type 0 where
  no_reply : Reply A
  reply : ℕ → Option A → Reply A

-- How a request is signed.
pub data Headers : Type 0 where
  bearer service : String → Headers
  bare : Headers

pub record Http (S : Type 0) : Type 0 where
  pub get_health : S → Reply Bool × S
  pub post_login : S → Reply String × S
  pub get_item : Headers → Text → S → Reply ItemMaster × S
  pub get_active : Headers → Option Text → S → Reply ActiveOrder × S
  pub post_inspection : Headers → Payload → S → Reply String × S
  pub post_status : Headers → Status → S → Reply Commands × S
  pub took : S → ℕ

pub record ApiClient : Type 0 where
  pub service_token : Option String
  pub bearer_token : Option String

-- The state of a client and the server.
pub record Link (S : Type 0) : Type 0 where
  pub client : ApiClient
  pub server : S

abbrev signed : Option String → Option String → Headers
signed (some token) service_token = bearer token
signed none (some token) = service token
signed none none = bare

abbrev auth_headers : ApiClient → Headers
auth_headers c = signed c.bearer_token c.service_token

abbrev service_headers : ApiClient → Headers
service_headers c = signed none c.service_token

abbrev is_ok_health : Reply Bool → Bool
is_ok_health no_reply = false
is_ok_health (reply status none) = false
is_ok_health (reply status (some is_ok)) = status == 200 && is_ok

abbrev token_of : Reply String → Option String
token_of no_reply = none
token_of (reply status body) = if status == 200 then body else none

-- What was found, and the status, 0 for no reply.
abbrev found_with : {A : Type 0} → Reply A → Option A × ℕ
found_with no_reply = (none, 0)
found_with (reply status body) = (if status == 200 then body else none, status)

abbrev needs_login : ℕ → Bool
needs_login status = status == 401 || status == 403

abbrev pub second : ℕ
second = 10000

abbrev pub next_delay : ℕ → ℕ
next_delay delay = min (delay * 16 / 10) (5 * second)

abbrev pub first_delay : ℕ
first_delay = 5000

-- The rounds that a wait has at most: each sleeps for half a second or more.
abbrev pub rounds : ℕ → ℕ
rounds timeout_s = suc (max 1 timeout_s * 2)

module _ {S : Type 0} (http : Http S) where
  pub health_ok : Link S → Bool × Link S
  health_ok l =
      let (r, srv) = http.get_health l.server in (is_ok_health r, record l { server = srv })

  -- The loop of `wait_for_api`: the answer, none where the fuel is used up.
  wait_loop : ℕ → ℕ → ℕ → ℕ → Link S → Option Bool × Link S
  unfolding health_ok
  wait_loop zero now deadline delay l = (none, l)
  wait_loop (suc fuel) now deadline delay l = elim (ltb now deadline) [
    | false ↦ (some false, l)
    | true ↦
        let (is_up, l') = health_ok l in
        elim is_up [
          | true ↦ (some true, l')
          | false ↦ wait_loop fuel (now + http.took l.server + delay) deadline (next_delay delay) l'
        ]
  ]

  pub wait_for_api : ℕ → ℕ → Link S → Option Bool × Link S
  unfolding wait_loop
  wait_for_api timeout_s now l =
      wait_loop (rounds timeout_s) now (now + max 1 timeout_s * second) first_delay l

  pub login : Link S → Bool × Link S
  login l =
      let (r, srv) = http.post_login l.server in
      elim (token_of r) [
        | none ↦ (false, record l { server = srv })
        | some token ↦
            (true, record { client = record l.client { bearer_token = some token }; server = srv })
      ]

  get_item_once : Text → Link S → (Option ItemMaster × ℕ) × Link S
  get_item_once code l =
      let (r, srv) = http.get_item (auth_headers l.client) code l.server in
      (found_with r, record l { server = srv })

  -- One round of `fetch_item`: the request, and after a login another one.
  fetch_round : Text → Link S → Option ItemMaster × Link S
  unfolding get_item_once login
  fetch_round code l =
      let ((item, status), l1) = get_item_once code l in
      elim item [
        | some found ↦ (some found, l1)
        | none ↦ elim (needs_login status) [
          | false ↦ (none, l1)
          | true ↦
              let (logged_in, l2) = login l1 in
              elim logged_in [
                | false ↦ (none, l2)
                | true ↦ let ((again, _), l3) = get_item_once code l2 in (again, l3)
              ]
        ]
      ]

  fetch_loop : ℕ → ℕ → ℕ → ℕ → Text → Link S → Option (Option ItemMaster) × Link S
  unfolding fetch_round
  fetch_loop zero now deadline delay code l = (none, l)
  fetch_loop (suc fuel) now deadline delay code l = elim (ltb now deadline) [
    | false ↦ (some none, l)
    | true ↦
        let (item, l') = fetch_round code l in
        elim item [
          | some found ↦ (some (some found), l')
          | none ↦
              fetch_loop fuel (now + http.took l.server + delay) deadline (next_delay delay) code l'
        ]
  ]

  pub fetch_item : ℕ → ℕ → Text → Link S → Option (Option ItemMaster) × Link S
  unfolding fetch_loop
  fetch_item timeout_s now code l =
      fetch_loop (rounds timeout_s) now (now + max 1 timeout_s * second) first_delay code l

  -- `refetch_item`: one request, and after a login another one.
  pub refetch_item : Text → Link S → Option ItemMaster × Link S
  unfolding fetch_round
  refetch_item code l = fetch_round code l

  get_active_once : Option Text → Link S → (Option ActiveOrder × ℕ) × Link S
  get_active_once cam_id l =
      let (r, srv) = http.get_active (auth_headers l.client) cam_id l.server in
      (found_with r, record l { server = srv })

  pub get_active_order : Option Text → Link S → Option ActiveOrder × Link S
  unfolding get_active_once login
  get_active_order cam_id l =
      let ((active, status), l1) = get_active_once cam_id l in
      elim active [
        | some order ↦ (some order, l1)
        | none ↦ elim (needs_login status) [
          | false ↦ (none, l1)
          | true ↦
              let (logged_in, l2) = login l1 in
              elim logged_in [
                | false ↦ (none, l2)
                | true ↦ let ((again, _), l3) = get_active_once cam_id l2 in (again, l3)
              ]
        ]
      ]

  abbrev status_of : Reply String → ℕ
  status_of no_reply = 0
  status_of (reply status body) = status

  -- The status, 0 where there is no reply.
  unfoldable pub post_inspection_json : ApiClient → Payload → S → ℕ × S
  post_inspection_json c payload srv =
      let (r, srv') = http.post_inspection (service_headers c) payload srv in (status_of r, srv')

  abbrev json_or_none : Reply Commands → Option Commands
  json_or_none no_reply = none
  json_or_none (reply status body) = if leb 200 status && ltb status 300 then body else none

  -- What the screens ask for, none where there is no answer that can be read.
  unfoldable pub heartbeat : ApiClient → Status → S → Option Commands × S
  heartbeat c status srv =
      let (r, srv') = http.post_status (service_headers c) status srv in (json_or_none r, srv')
