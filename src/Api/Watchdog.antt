-- ===== src/Api/Watchdog.antt =====
-- The link to the MES (services/api/mes: adapter.py, transport.py and watchdog.py): how a row is handed
-- over, how a review hands it over again, and the watchdog that retries the rows that are not linked.
-- The REST body is the staging row. What the MES does with a request is a parameter, `post`, which
-- answers a status, or none for an exception; `stage_fails` says whether a staging row cannot be written.
-- A commit succeeds.
pub mod Progress
use pipe_vision.Prelude.{
  ℕ, suc, ◌+◌, ◌-◌, Bool, true, false, ◌&&◌, ◌||◌, not, Option, none, some, List, [], ◌∷◌, ltb, leb,
  ◌==◌, length, take, if◌then◌else◌,
}
use pipe_vision.Prelude.Text.{Text, text_eq}
use pipe_vision.Api.Rows.{
  InspectionResult, Inspection, MesQualityIf, Db, make_idem_key, is_training_lot,
}
use pipe_vision.Api.Save.{Config, MesMode, is_table, staged_row, mark_synced}

pub data Transport : Type 0 where
  httpx fake unconfigured : Transport

-- `_build_transport`, at whether there is an address, and whether the fake one is asked for.
pub build_transport : Bool → Bool → Transport
build_transport has_url rest_fake =
    if has_url then httpx else if rest_fake then fake else unconfigured

abbrev is_real : Transport → Bool
is_real httpx = true
is_real _ = false

abbrev is_answer_ok : Option ℕ → Bool
is_answer_ok none = false
is_answer_ok (some status) = ltb status 400

-- `send`: whether it raises no exception.
unfoldable pub send :
    {S : Type 0} → (MesQualityIf → S → Option ℕ × S) → Transport → MesQualityIf → S → Bool × S
send post httpx body srv = let (status, srv') = post body srv in (is_answer_ok status, srv')
send post fake body srv = (true, srv)
send post unconfigured body srv = (false, srv)

abbrev is_id : ℕ → Option ℕ → Bool
is_id id none = false
is_id id (some n) = n == id

-- `ensure_staged`, and what is then done with the row that it returns.
unfoldable pub ensure_staged :
    (MesQualityIf → MesQualityIf) → Text → Inspection → List MesQualityIf → List MesQualityIf
ensure_staged f key row [] = f (staged_row key row) ∷ []
ensure_staged f key row (x ∷ xs) =
    if text_eq x.idem_key key || is_id row.id x.inspection_id
    then f x ∷ xs
    else x ∷ ensure_staged f key row xs

unfoldable pub set_synced : ℕ → List Inspection → List Inspection
set_synced id [] = []
set_synced id (x ∷ xs) = (if x.id == id then mark_synced x else x) ∷ set_synced id xs

abbrev consume : Bool → MesQualityIf → MesQualityIf
consume real x = if real then record x { consumed = true } else x

-- The tables and the MES.
pub record Linkage (S : Type 0) : Type 0 where
  pub db : Db
  pub mes : S

abbrev same_differs : Option Text → Option Text → Bool
same_differs none none = false
same_differs (some a) (some b) = not (text_eq a b)
same_differs _ _ = true

-- A staging row whose review has changed goes to the MES again.
abbrev restaged : ℕ → Inspection → MesQualityIf → MesQualityIf
restaged now row x =
    if same_differs x.manual_verdict row.columns.manual_verdict
    then record x {
      manual_verdict = row.columns.manual_verdict;
      consumed = false;
      consumed_at = none;
      updated_at = some now;
    }
    else x

restage_first : ℕ → Inspection → List MesQualityIf → List MesQualityIf
restage_first now row [] = []
restage_first now row (x ∷ xs) =
    if is_id row.id x.inspection_id then restaged now row x ∷ xs else x ∷ restage_first now row xs

unset_synced : ℕ → List Inspection → List Inspection
unset_synced id [] = []
unset_synced id (x ∷ xs) =
    (if x.id == id then record x { columns = record x.columns { mes_synced = false } } else x)
    ∷ unset_synced id xs

-- `restage_after_review`
pub restage_after_review : Config → ℕ → Inspection → Db → Db
unfolding restage_first unset_synced
restage_after_review cfg now row db =
    if is_training_lot cfg.training_prefixes row.columns.lot then db else (record {
      inspections =
          if is_table cfg.mes_mode then db.inspections else unset_synced row.id db.inspections;
      staged = restage_first now row db.staged;
    })

-- Rows that are to be linked and are not.
unfoldable pub is_pending : Config → Inspection → Bool
is_pending cfg row =
    not row.columns.mes_synced && not (is_training_lot cfg.training_prefixes row.columns.lot)

unfoldable pub unsynced : Config → List Inspection → List Inspection
unfolding is_pending
unsynced cfg [] = []
unsynced cfg (x ∷ xs) = if is_pending cfg x then x ∷ unsynced cfg xs else unsynced cfg xs

unfoldable pub insert_by_time : Inspection → List Inspection → List Inspection
insert_by_time r [] = r ∷ []
insert_by_time r (x ∷ xs) =
    if leb r.columns.inspected_at x.columns.inspected_at
    then r ∷ x ∷ xs
    else x ∷ insert_by_time r xs

unfoldable pub sort_by_time : List Inspection → List Inspection
unfolding insert_by_time
sort_by_time [] = []
sort_by_time (x ∷ xs) = insert_by_time x (sort_by_time xs)

-- `_pending_rows`
unfoldable pub pending_rows : Config → ℕ → Db → List Inspection
unfolding unsynced sort_by_time
pending_rows cfg batch_size db = take batch_size (sort_by_time (unsynced cfg db.inspections))

pub record WatchdogResult : Type 0 where
  pub scanned : ℕ
  pub synced : ℕ
  pub failed : ℕ

pub record LinkageStatus : Type 0 where
  pub total : ℕ
  pub synced : ℕ
  pub pending : ℕ

production : Config → List Inspection → List Inspection
production cfg [] = []
production cfg (x ∷ xs) =
    let rest = production cfg xs in
    if is_training_lot cfg.training_prefixes x.columns.lot then rest else x ∷ rest

synced_count : List Inspection → ℕ
synced_count [] = 0
synced_count (x ∷ xs) = if x.columns.mes_synced then suc (synced_count xs) else synced_count xs

-- `get_linkage_status`, without the rate.
pub get_linkage_status : Config → Db → LinkageStatus
unfolding production synced_count
get_linkage_status cfg db =
    let total = length (production cfg db.inspections) in
    let synced = synced_count (production cfg db.inspections) in
    record { total = total; synced = synced; pending = total - synced }

module _ {S : Type 0} (cfg : Config) (post : MesQualityIf → S → Option ℕ × S)
    (transport : Transport) (stage_fails : Text → Bool) where
  -- `sync_row` after the request, or without one.
  unfoldable pub record_link : Bool → Text → Inspection → Linkage S → Bool × Linkage S
  unfolding ensure_staged set_synced
  record_link sent key row l =
      if sent && not (stage_fails key)
      then (
        true,
        record l {
          db = record {
            inspections = set_synced row.id l.db.inspections;
            staged =
                ensure_staged (consume (not (is_table cfg.mes_mode) && is_real transport)) key row
                  l.db.staged;
          };
        },
      )
      else (false, l)

  unfoldable pub sync_row : Inspection → Linkage S → Bool × Linkage S
  unfolding record_link send
  sync_row row l =
      let key = make_idem_key cfg.isoformat row.columns in
      if is_table cfg.mes_mode
      then record_link true key row l
      else (let (sent, mes) = send post transport (staged_row key row) l.mes in
          record_link sent key row (record l { mes = mes }))

  abbrev one_if : Bool → ℕ
  one_if true = 1
  one_if false = 0

  unfoldable pub sync_rows : List Inspection → Linkage S → WatchdogResult × Linkage S
  unfolding sync_row
  sync_rows [] l = (record { scanned = 0; synced = 0; failed = 0 }, l)
  sync_rows (row ∷ rows) l =
      let (ok, l1) = sync_row row l in
      let (res, l2) = sync_rows rows l1 in
      (
        record {
          scanned = res.scanned + 1;
          synced = one_if ok + res.synced;
          failed = one_if (not ok) + res.failed;
        },
        l2,
      )

  unfoldable pub run_watchdog_once : ℕ → Linkage S → WatchdogResult × Linkage S
  unfolding sync_rows pending_rows
  run_watchdog_once batch_size l = sync_rows (pending_rows cfg batch_size l.db) l
