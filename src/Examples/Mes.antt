-- ===== src/Examples/Mes.antt =====
-- Examples for services/mes/mes_app.
use pipe_vision.Prelude.{
  ◌+◌, ◌≡◌, ◌⊎◌, refl, true, false, Option, none, some, List, [], ◌∷◌, inl, inr, In,
}
use pipe_vision.Prelude.Text.{Text, codes, text_eq}
use pipe_vision.Api.Rows.{MesQualityIf, upper}
use pipe_vision.Mes.Production.{summarize, total}
use pipe_vision.Mes.Production.Totals.{summarize-counts_once, ng_records}
use pipe_vision.Mes.Production.Orders.{belongs, any_order, is_assigned}
use pipe_vision.Mes.Records.{QualityRecord, table, stored, incoming, normalize, upsert_record}
use pipe_vision.Mes.Records.View.{Updates, upsert_record-put}
use pipe_vision.Mes.Records.Upsert.{Stored}
use pipe_vision.Mes.Intake.{
  IfRow, WorkOrder, planned, MesDb, Around, read_batch, unconsumed, poll_once,
}
use pipe_vision.Mes.Intake.Batch.{DistinctKeys}
use pipe_vision.Mes.Intake.Marked.{Accounted, marked-Stored, poll_once-Stored}

abbrev staged : Text → MesQualityIf
staged key = record {
  inspection_id = some 1;
  idem_key = key;
  lot = codes "L1";
  item_code = some (codes "T10");
  inspected_at = 12;
  cam_id = codes "CAM1";
  work_order = none;
  final_verdict = codes "ng";
  defect_codes = codes "LEN" ∷ [];
  meas_length_mm = none;
  deviation_mm = none;
  inspection_stage = none;
  tube_index = some 0;
  manual_verdict = none;
  count_detected = none;
  count_expected = none;
  consumed = false;
  consumed_at = none;
  updated_at = none;
}

abbrev first_row : IfRow
first_row = record { id = 1; row = staged (codes "a") }

abbrev second_row : IfRow
second_row = record { id = 2; row = staged (codes "b") }

-- The second row is reviewed between the reading and the marking.
abbrev reviewed_row : IfRow
reviewed_row = record second_row {
  row = record (staged (codes "b")) { manual_verdict = some (codes "OK"); updated_at = some 40 };
}

abbrev around : Around
around = record {
  read_fails = false;
  commit_fails = false;
  mark_fails = false;
  others = λ key. [];
  meanwhile = λ t. first_row ∷ reviewed_row ∷ [];
}

abbrev mes : MesDb
mes = record {
  records = [];
  orders =
      record { wo_no = codes "W1"; lot = codes "L1"; status = planned; started_at = none } ∷ [];
}

abbrev two_rows : List IfRow
two_rows = first_row ∷ second_row ∷ []

two_rows-DistinctKeys : DistinctKeys two_rows
unfolding text_eq
two_rows-DistinctKeys = ((refl, tt), (tt, tt))

abbrev marked_row : IfRow
marked_row = record first_row {
  row = record (staged (codes "a")) { consumed = true; consumed_at = some 50 };
}

-- The poll marks the first row alone: the second was changed meanwhile.
polled_rows : (poll_once around 50 10 mes two_rows).2 ≡ marked_row ∷ reviewed_row ∷ []
unfolding poll_once unconsumed upsert_record text_eq upper
polled_rows = refl

marked_there : In marked_row (poll_once around 50 10 mes two_rows).2
unfolding poll_once unconsumed upsert_record text_eq upper
marked_there = inl refl

no_error : (poll_once around 50 10 mes two_rows).0.error ≡ false
unfolding poll_once unconsumed upsert_record text_eq upper
no_error = refl

second_read : In second_row (read_batch 10 two_rows)
unfolding read_batch unconsumed
second_read = inr (inl refl)

marked-Stored_example :
    In marked_row two_rows
    ⊎ Accounted
        (λ r. Stored r.row (poll_once around 50 10 mes two_rows).1.records)
        (read_batch 10 two_rows)
        (first_row ∷ reviewed_row ∷ [])
        marked_row
marked-Stored_example =
    marked-Stored around 50 10 mes two_rows two_rows-DistinctKeys marked_row marked_there

poll_once-Stored_example :
    Stored (staged (codes "b")) (poll_once around 50 10 mes two_rows).1.records
poll_once-Stored_example =
    poll_once-Stored around 50 10 mes two_rows two_rows-DistinctKeys no_error second_row second_read

abbrev quality : Option Text → Option Text → Text → QualityRecord
quality stage order verdict = record {
  idem_key = codes "a";
  inspection_id = none;
  lot = codes "L1";
  work_order = order;
  item_code = none;
  cam_id = none;
  inspection_stage = stage;
  tube_index = none;
  inspected_at = 5;
  final_verdict = verdict;
  defect_codes = codes "LEN" ∷ [];
  meas_length_mm = none;
  deviation_mm = none;
  manual_verdict = none;
  count_detected = some 6;
  count_expected = none;
  source = table;
  updated_at = none;
}

abbrev three_records : List QualityRecord
three_records =
    quality (some (codes "CUT_LENGTH")) none (codes "NG")
    ∷ quality (some (codes "CRATE_COUNT")) none (codes "OK")
    ∷ quality none none (codes "OK")
    ∷ []

summarize-counts_once_example :
    let p = summarize three_records in
    (p.inspected_rows ≡ 3)
    × (p.crate_count + total (λ s. s.inspected) p.stages ≡ 3)
    × (p.defect_total ≡ ng_records three_records)
summarize-counts_once_example = summarize-counts_once three_records

abbrev one_order : WorkOrder
one_order = record { wo_no = codes "W1"; lot = codes "L1"; status = planned; started_at = none }

abbrev other_lot : QualityRecord
other_lot = record (quality none (some (codes "W7")) (codes "OK")) { lot = codes "L9" }

other_lot-unassigned : is_assigned (one_order ∷ []) other_lot ≡ false
unfolding is_assigned any_order text_eq
other_lot-unassigned = refl

-- A record of the lot of an order with another order's number counts for none, and is not listed.
abbrev lost : QualityRecord
lost = quality none (some (codes "W7")) (codes "OK")

lost-assigned : is_assigned (one_order ∷ []) lost ≡ true
unfolding is_assigned any_order text_eq
lost-assigned = refl

lost-counts_for_none : belongs one_order lost ≡ false
unfolding belongs text_eq
lost-counts_for_none = refl

-- The record that is made of a row.
abbrev entered : QualityRecord
entered = record {
  idem_key = codes "a";
  inspection_id = some 1;
  lot = codes "L1";
  work_order = none;
  item_code = some (codes "T10");
  cam_id = some (codes "CAM1");
  inspection_stage = none;
  tube_index = some 0;
  inspected_at = 12;
  final_verdict = codes "NG";
  defect_codes = codes "LEN" ∷ [];
  meas_length_mm = none;
  deviation_mm = none;
  manual_verdict = none;
  count_detected = none;
  count_expected = none;
  source = table;
  updated_at = none;
}

entered-stored :
    upsert_record table 50 [] (incoming (staged (codes "a"))) [] ≡ some (stored, entered ∷ [])
unfolding upsert_record upper text_eq
entered-stored = refl

upsert_record-put_example :
    Updates table 50 (normalize (incoming (staged (codes "a")))) [] (entered ∷ [])
    ⊎ Updates table 50 (normalize (incoming (staged (codes "a")))) [] (entered ∷ [])
upsert_record-put_example =
    upsert_record-put table 50 [] (incoming (staged (codes "a"))) [] stored (entered ∷ [])
      entered-stored
