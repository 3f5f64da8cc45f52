-- ===== src/Examples/Api.antt =====
-- Examples for services/api/core/inspection_service.py.
use pipe_vision.Prelude.{
  ℕ, ◌≡◌, ◌≤◌, ◌||◌, refl, true, false, Option, none, some, List, [], ◌∷◌, length, arith,
}
use pipe_vision.Prelude.Text.{Text, codes, text_eq}
use pipe_vision.Spool.Names.{decimal}
use pipe_vision.Api.Rows.{
  InspectionResult, Inspection, MesQualityIf, Db, make_idem_key, is_training_lot,
}
use pipe_vision.Api.Watchdog.{httpx, send, Linkage, is_pending, unsynced, run_watchdog_once}
use pipe_vision.Api.Watchdog.Progress.{run_links_all}
use pipe_vision.Api.Save.{
  Config, table, rest, is_table, Saved, returned, save_inspection, new_row, mark_synced,
}
use pipe_vision.Api.Save.Idempotent.{resend_answers_same_row}
use pipe_vision.Api.Save.Staging.{Linked, save_inspection-Linked}

abbrev result : Text → Text → InspectionResult
result lot item = record {
  lot = lot;
  work_order = none;
  item_code = item;
  cam_id = codes "CAM1";
  inspection_stage = some (codes "CUT_LENGTH");
  inspected_at = 12;
  tube_index = 0;
  tube_bbox = some [];
  count_detected = none;
  count_expected = none;
  shift = none;
  operator = none;
  ref_length_mm = none;
  meas_length_mm = none;
  deviation_mm = none;
  meas_temp_c = none;
  length_verdict = some (codes "OK");
  oil_score = none;
  discolor_score = none;
  scratch_score = none;
  final_verdict = codes "OK";
  defect_codes = [];
  confidence = none;
  raw_image_path = none;
  result_image_path = none;
  proc_time_ms = none;
  review_flag = false;
  manual_verdict = none;
  mes_synced = false;
}

abbrev config : Config
config = record { isoformat = decimal; training_prefixes = codes "TRAIN-" ∷ []; mes_mode = table }

abbrev empty_db : Db
empty_db = record { inspections = []; staged = [] }

abbrev same : Db → Db
same db = db

abbrev save : ℕ → InspectionResult → Db → Saved × Db
save = save_inspection config (λ r. true) same same

abbrev lot_a : InspectionResult
lot_a = result (codes "A|B") (codes "C")

abbrev saved_row : Inspection
saved_row = mark_synced (new_row 7 lot_a)

first_save : (save 7 lot_a empty_db).0 ≡ returned saved_row true
unfolding save_inspection is_training_lot decimal text_eq make_idem_key
first_save = refl

resend_answers_same_row_example :
    save_inspection config (λ r. false) same same 9 lot_a (save 7 lot_a empty_db).1
    ≡ (returned saved_row false, (save 7 lot_a empty_db).1)
resend_answers_same_row_example =
    resend_answers_same_row config config (λ r. true) (λ r. false) same same same same 7 9 lot_a
      empty_db saved_row true first_save

save_inspection-Linked_example : Linked config lot_a saved_row empty_db (save 7 lot_a empty_db).1
save_inspection-Linked_example =
    save_inspection-Linked config (λ r. true) same same (λ key db h. h) 7 lot_a empty_db saved_row
      first_save

-- Two results of different lots and items with one key for the MES.
one_key : make_idem_key decimal lot_a ≡ make_idem_key decimal (result (codes "A") (codes "B|C"))
unfolding make_idem_key
one_key = refl

-- The lots for training data.
training_lot : is_training_lot (codes "TRAIN-" ∷ []) (codes "train-7") ≡ true
unfolding is_training_lot
training_lot = refl

-- Two rows that are not linked, and a MES that keeps what it is sent.
abbrev waiting_rows : Db
waiting_rows = record {
  inspections =
      record { id = 1; columns = result (codes "L1") (codes "C") }
      ∷ record { id = 2; columns = result (codes "L2") (codes "C") }
      ∷ [];
  staged = [];
}

abbrev by_rest : Config
by_rest = record config { mes_mode = rest }

abbrev take_row : MesQualityIf → List MesQualityIf → Option ℕ × List MesQualityIf
take_row body taken = (some 200, body ∷ taken)

abbrev waiting : Linkage (List MesQualityIf)
waiting = record { db = waiting_rows; mes = [] }

takes_all :
    (body : MesQualityIf) (taken : List MesQualityIf)
    → (is_table by_rest.mes_mode || (send take_row httpx body taken).0) ≡ true
unfolding send
takes_all body taken = refl

two_waiting : length (unsynced by_rest waiting_rows.inspections) ≤ 100
unfolding unsynced is_pending is_training_lot
two_waiting = omega arith

run_links_all_example :
    unsynced by_rest
      (run_watchdog_once by_rest take_row httpx (λ key. false) 100 waiting).1.db.inspections
    ≡ []
run_links_all_example =
    run_links_all by_rest take_row httpx (λ key. false) (λ key. refl) takes_all 100 waiting
      two_waiting
