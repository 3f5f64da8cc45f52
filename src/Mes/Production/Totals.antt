-- ===== src/Mes/Production/Totals.antt =====
-- The totals of a summary, against the records themselves.
use pipe_vision.Prelude.{
  ℕ, ◌+◌, ◌≡◌, ◌==◌, refl, ap, ◌∙◌, ◌&&◌, not, Option, none, some, List, [], ◌∷◌, arith, inl, inr,
  Bool-cases, length,
}
use pipe_vision.Prelude.Text.{Text, codes}
use pipe_vision.Mes.Records.{QualityRecord}
use pipe_vision.Mes.Production.{
  StageStat, Production, effective_verdict, is_ng, is_crate, one_if, count_in, count_stage,
  count_record, count_records, insert_stage, sort_stages, total, finish, summarize, new_production,
  last_stage, known_stages, or_last, good_of, nonempty_or,
}

-- The records of a station, and those among them whose verdict in the end is NG.
pub stage_records : List QualityRecord → ℕ
stage_records [] = 0
stage_records (r ∷ rs) = one_if (not (is_crate r)) + stage_records rs

pub ng_records : List QualityRecord → ℕ
ng_records [] = 0
ng_records (r ∷ rs) = one_if (not (is_crate r) && is_ng (effective_verdict r)) + ng_records rs

total-insert_stage :
    (f : StageStat → ℕ) (s : StageStat) (xs : List StageStat)
    → total f (insert_stage s xs) ≡ f s + total f xs
unfolding insert_stage total
total-insert_stage f s [] = refl
total-insert_stage f s (x ∷ xs) = ground (arith, total-insert_stage f s xs)

total-sort_stages :
    (f : StageStat → ℕ) (xs : List StageStat) → total f (sort_stages xs) ≡ total f xs
unfolding sort_stages total
total-sort_stages f [] = refl
total-sort_stages f (x ∷ xs) =
    omega (arith, total-insert_stage f x (sort_stages xs), total-sort_stages f xs)

total_inspected :
    (key : Text) (r : QualityRecord) (xs : List StageStat)
    → total (λ s. s.inspected) (count_stage key r xs) ≡ total (λ s. s.inspected) xs + 1
unfolding count_stage count_in total
total_inspected key r [] = refl
total_inspected key r (x ∷ xs) = ground (arith, total_inspected key r xs)

total_ng :
    (key : Text) (r : QualityRecord) (xs : List StageStat)
    → total (λ s. s.final_ng) (count_stage key r xs)
      ≡ total (λ s. s.final_ng) xs + one_if (is_ng (effective_verdict r))
unfolding count_stage count_in total
total_ng key r [] = omega arith
total_ng key r (x ∷ xs) = ground (arith, total_ng key r xs)

-- The counters agree after one record.
abbrev Counted : Production → ℕ → ℕ → ℕ → Type 0
Counted p rows stations ng =
    (p.inspected_rows ≡ rows)
    × (total (λ s. s.inspected) p.stages ≡ stations)
    × (total (λ s. s.final_ng) p.stages ≡ ng)
    × (p.crate_count + stations ≡ rows)

count_record-Counted :
    (r : QualityRecord) (p : Production) (rows stations ng : ℕ)
    → Counted p rows stations ng
    → Counted
        (count_record r p)
        (rows + 1)
        (stations + one_if (not (is_crate r)))
        (ng + one_if (not (is_crate r) && is_ng (effective_verdict r)))
unfolding count_record
count_record-Counted r p rows stations ng (h1, h2, h3, h4) =
    let key = nonempty_or r.inspection_stage (codes "UNKNOWN") in
    elim (Bool-cases (is_crate r)) [
      | inl e ↦ rw (e, count_record) (omega arith, omega arith, omega arith, omega arith)
      | inr e ↦
          rw (e, count_record)
            (
              omega arith,
              total_inspected key r p.stages ∙ omega arith,
              total_ng key r p.stages ∙ omega arith,
              omega arith,
            )
    ]

count_records-Counted :
    (rs : List QualityRecord) (p : Production) (rows stations ng : ℕ)
    → Counted p rows stations ng
    → Counted
        (count_records rs p)
        (rows + length rs)
        (stations + stage_records rs)
        (ng + ng_records rs)
unfolding count_records stage_records ng_records
count_records-Counted [] p rows stations ng (h1, h2, h3, h4) =
    (omega arith, omega arith, omega arith, omega arith)
count_records-Counted (r ∷ rs) p rows stations ng h =
    let (g1, g2, g3, g4) =
      count_records-Counted rs (count_record r p) _ _ _
        (count_record-Counted r p rows stations ng h) in
    (omega arith, omega arith, omega arith, omega arith)

good_of-same :
    (o : Option StageStat) (p : Production)
    → ((good_of o p).inspected_rows ≡ p.inspected_rows)
      × ((good_of o p).stages ≡ p.stages)
      × ((good_of o p).defect_total ≡ p.defect_total)
      × ((good_of o p).crate_count ≡ p.crate_count)
good_of-same none p = (refl, refl, refl, refl)
good_of-same (some s) p = (refl, refl, refl, refl)

finish-Counted :
    (p : Production) (rows stations ng : ℕ)
    → Counted p rows stations ng
    → Counted (finish p) rows stations ng × ((finish p).defect_total ≡ ng)
unfolding finish
finish-Counted p rows stations ng (h1, h2, h3, h4) =
    let stages = sort_stages p.stages in
    let i = total-sort_stages (λ s. s.inspected) p.stages in
    let n = total-sort_stages (λ s. s.final_ng) p.stages in
    elim (Bool-cases (p.crate_count == 0)) [
      | inl e ↦
          let o = or_last (last_stage (known_stages stages)) (last_stage stages) in
          let p1 = record p { stages = stages; defect_total = total (λ s. s.final_ng) stages } in
          let (a, b, c, d) = good_of-same o p1 in
          rw (e, finish)
            (
              (
                a ∙ h1,
                ap (total (λ s. s.inspected)) b ∙ i ∙ h2,
                ap (total (λ s. s.final_ng)) b ∙ n ∙ h3,
                ap (λ k. k + stations) d ∙ h4,
              ),
              c ∙ n ∙ h3,
            )
      | inr e ↦ rw (e, finish) ((h1, i ∙ h2, n ∙ h3, h4), n ∙ h3)
    ]

new_production-Counted : Counted new_production 0 0 0
unfolding total
new_production-Counted = (refl, refl, refl, refl)

-- A summary counts every record once: the rows are the records, the records of crates and those
-- inspected in all stages are together all of them, and the total of defects is the number of the
-- records, not of crates, whose verdict after a review, if there was one, is NG.
pub summarize-counts_once :
    (rs : List QualityRecord)
    → let p = summarize rs in
      (p.inspected_rows ≡ length rs)
      × (p.crate_count + total (λ s. s.inspected) p.stages ≡ length rs)
      × (p.defect_total ≡ ng_records rs)
unfolding summarize
summarize-counts_once rs =
    let ((h1, h2, h3, h4), d) =
      finish-Counted (count_records rs new_production) _ _ _
        (count_records-Counted rs new_production 0 0 0 new_production-Counted) in
    (omega arith, omega arith, omega arith)
