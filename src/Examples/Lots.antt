-- ===== src/Examples/Lots.antt =====
-- Runs of the verdict of a lot.
use pipe_vision.Prelude.{ℕ, some, List, [], ◌∷◌, ◌≡◌, refl, length}
use pipe_vision.Prelude.Text.{Text, codes, text_eq}
use pipe_vision.Spool.Names.{is_space, strip}
use pipe_vision.Api.Rows.{Inspection, upper}
use pipe_vision.Api.Lots.{required_of, rows_of_lot, ng_rows, lot_summary, group_rows}
use pipe_vision.Api.Lots.Counts.{
  summary_counts_rows, sum_totals, sum_ng, stages_without_row, verdict_from,
}
use pipe_vision.Examples.Server.{result_at}

abbrev row : ℕ → Text → Text → Text → Inspection
row id lot stage verdict = record {
  id = id;
  columns = record (result_at id) {
    lot = lot;
    inspection_stage = some stage;
    final_verdict = verdict;
  };
}

abbrev table : List Inspection
table =
    row 1 (codes "L1") (codes "CUT_LENGTH") (codes "OK")
    ∷ row 2 (codes "L2") (codes "CUT_LENGTH") (codes "NG")
    ∷ row 3 (codes "L1") (codes "CRATE_COUNT") (codes "OK")
    ∷ row 4 (codes "L1") (codes "CUT_LENGTH") (codes "OK")
    ∷ []

abbrev query : Text
query = codes "cut_length, post_wash_surface"

wants_two_stages : required_of (some query) [] ≡ codes "CUT_LENGTH" ∷ codes "POST_WASH_SURFACE" ∷ []
unfolding required_of upper strip is_space
wants_two_stages = refl

is_incomplete : (lot_summary (codes "L1") (some query) [] table).final_verdict ≡ codes "INCOMPLETE"
unfolding lot_summary required_of upper strip is_space rows_of_lot group_rows text_eq
is_incomplete = refl

other_is_ng :
    (lot_summary (codes "L2") (some (codes "cut_length")) [] table).final_verdict ≡ codes "NG"
unfolding lot_summary required_of upper strip is_space rows_of_lot group_rows text_eq
other_is_ng = refl

summary_counts_rows_example :
    let s = lot_summary (codes "L1") (some query) [] table in
    let rows = rows_of_lot (codes "L1") table in
    let missing = stages_without_row rows (required_of (some query) []) in
    ((sum_totals s.stages ≡ length rows) × (sum_ng s.stages ≡ length (ng_rows rows)))
    × ((s.missing_stages ≡ missing)
        × (s.final_verdict ≡ verdict_from (length rows) (length (ng_rows rows)) missing))
summary_counts_rows_example = summary_counts_rows (codes "L1") (some query) [] table
