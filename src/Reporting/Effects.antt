-- ===== src/Reporting/Effects.antt =====
-- The rows of the report: one for each issue, with the effects that its operations suppress.
use structural_reconciliatio.Base.{
  ℕ, suc, ◌+◌, ◌≡◌, refl, ap, ◌∙◌, String, Bool, true, false, none, some, List, [], ◌∷◌, ◌++◌, map,
  filter, length, Dict, lookup, put, ◌==◌, if◌then◌else◌, arith,
}
use structural_reconciliatio.Runtime.{Runtime}
use structural_reconciliatio.Contracts.Operations.{
  SuppressedEffect, SuppressionResult, count_effects, counts_by_root,
}
use structural_reconciliatio.Localization.Contracts.{LocalizationIssue, status_value}
use structural_reconciliatio.Localization.Service.{count_values, count_of}
use structural_reconciliatio.Localization.Counts.{occurrences, count_of-count_values}
use structural_reconciliatio.Reporting.{issue_row, count_suppressed, ReportRow, matches_by_id}
use structural_reconciliatio.Reporting.Table.{
  Report, make_issue_row, make_effect_row, effect_rows, issue_rows, build_report_table,
}

module _ ⦃R : Runtime⦄ where
  abbrev roots : List SuppressedEffect → List String
  roots effects = map (λ (e : SuppressedEffect). e.root_operation_id) effects

  count_effects-eq :
      (counts : Dict ℕ) (effects : List SuppressedEffect)
      → count_effects counts effects ≡ count_values counts (roots effects)
  unfolding count_effects count_values
  count_effects-eq counts [] = refl
  count_effects-eq counts (effect ∷ effects) =
      count_effects-eq
        (put counts effect.root_operation_id
          (elim (lookup counts effect.root_operation_id) [ none ↦ 1 | some n ↦ suc n ]))
        effects

  -- The suppressed effects of one root operation.
  unfoldable pub effects_of : List SuppressedEffect → String → List SuppressedEffect
  effects_of effects op_id = filter (λ (e : SuppressedEffect). e.root_operation_id == op_id) effects

  occurrences-roots :
      (effects : List SuppressedEffect) (op_id : String)
      → occurrences op_id (roots effects) ≡ length (effects_of effects op_id)
  unfolding occurrences effects_of filter
  occurrences-roots [] op_id = refl
  occurrences-roots (effect ∷ effects) op_id = ground (arith, occurrences-roots effects op_id)

  -- The count of a root operation is the number of the effects that it explains.
  pub counts_by_root-length :
      (result : SuppressionResult) (op_id : String)
      → count_of (counts_by_root result) op_id ≡ length (effects_of result.suppressed_effects op_id)
  unfolding counts_by_root count_of lookup
  counts_by_root-length result op_id =
      ap (λ (d : Dict ℕ). count_of d op_id) (count_effects-eq [] result.suppressed_effects)
      ∙ count_of-count_values [] (roots result.suppressed_effects) op_id
      ∙ omega (arith, occurrences-roots result.suppressed_effects op_id)

  -- All effects of the given operations.
  unfoldable pub effects_explained : List SuppressedEffect → List String → ℕ
  effects_explained effects [] = 0
  effects_explained effects (op_id ∷ op_ids) =
      length (effects_of effects op_id) + effects_explained effects op_ids

  count_suppressed-eq :
      (result : SuppressionResult) (op_ids : List String)
      → count_suppressed (counts_by_root result) op_ids
        ≡ effects_explained result.suppressed_effects op_ids
  unfolding count_suppressed effects_explained
  count_suppressed-eq result [] = refl
  count_suppressed-eq result (op_id ∷ op_ids) =
      omega (arith, counts_by_root-length result op_id, count_suppressed-eq result op_ids)

  -- What the row of an issue shows: its own number and status, and the effects that its operations
  -- explain.
  pub record ShowsIssue (r : Report) (issue : LocalizationIssue) (row : ReportRow) : Type 0 where
    pub job : row.job_id ≡ r.result.job_id
    pub numbered : row.result_id ≡ issue_row issue.issue_id
    pub status : row.localization_status ≡ some (status_value issue.localization_status)
    pub is_direct : row.is_suppressed ≡ false
    pub explains :
        row.suppressed_effect_count
        ≡ effects_explained r.result.reconciliation.suppression_result.suppressed_effects
            issue.core_operation_ids

  -- What the row of a suppressed effect shows.
  pub record ShowsEffect (r : Report) (effect : SuppressedEffect) (row : ReportRow) : Type 0 where
    pub job : row.job_id ≡ r.result.job_id
    pub is_derived : row.is_suppressed ≡ true
    pub root : row.root_operation_id ≡ some effect.root_operation_id
    pub rule : row.suppression_rule ≡ some effect.suppression_rule_id
    pub explains_none : row.suppressed_effect_count ≡ 0

  -- One row for each element, in the order of the elements.
  pub data Lists {A : Type 0} (P : A → ReportRow → Type 0) : List A → List ReportRow → Type 0 where
    nothing : Lists P [] []
    one_more :
        (x : A) (row : ReportRow) (xs : List A) (rows : List ReportRow)
        → P x row
        → Lists P xs rows
        → Lists P (x ∷ xs) (row ∷ rows)

  issue_rows-Lists :
      (r : Report) (issues : List LocalizationIssue)
      → Lists (ShowsIssue r) issues (
          map
            (make_issue_row r
              (matches_by_id [] r.result.reconciliation.match_graph.candidates)
              (counts_by_root r.result.reconciliation.suppression_result))
            issues)
  unfolding make_issue_row
  issue_rows-Lists r [] = Lists.nothing
  issue_rows-Lists r (issue ∷ issues) =
      Lists.one_more issue _ issues _
        (record {
          job = refl;
          numbered = refl;
          status = refl;
          is_direct = refl;
          explains =
              count_suppressed-eq r.result.reconciliation.suppression_result
                issue.core_operation_ids;
        })
        (issue_rows-Lists r issues)

  effect_rows-Lists :
      (r : Report) (index : ℕ) (effects : List SuppressedEffect)
      → Lists (ShowsEffect r) effects (effect_rows r index effects)
  unfolding effect_rows make_effect_row
  effect_rows-Lists r index [] = Lists.nothing
  effect_rows-Lists r index (effect ∷ effects) =
      Lists.one_more effect _ effects _
        (record { job = refl; is_derived = refl; root = refl; rule = refl; explains_none = refl })
        (effect_rows-Lists r (suc index) effects)

  shown_rows-Lists :
      (r : Report) (shown : Bool) (effects : List SuppressedEffect)
      → Lists
          (ShowsEffect r)
          (if shown then effects else [])
          (if shown then effect_rows r 0 effects else [])
  shown_rows-Lists r true effects = effect_rows-Lists r 0 effects
  shown_rows-Lists r false effects = Lists.nothing

  -- The rows of the report table are one row for each issue, in order, which shows the issue's number
  -- and status and counts the suppressed effects that the operations of the issue explain; then,
  -- where the options ask for them, one row for each suppressed effect, in order, with its root
  -- operation and its rule.
  pub build_report_table-rows :
      (r : Report)
      → (direct : List ReportRow) × (derived : List ReportRow) × ((build_report_table r).rows
          ≡ direct ++ derived)
        × Lists (ShowsIssue r) r.result.issues direct
        × Lists
            (ShowsEffect r)
            (if r.options.include_suppressed
              then r.result.reconciliation.suppression_result.suppressed_effects
              else [])
            derived
  unfolding build_report_table issue_rows
  build_report_table-rows r = (
    issue_rows r,
    _,
    refl,
    issue_rows-Lists r r.result.issues,
    shown_rows-Lists r r.options.include_suppressed
        r.result.reconciliation.suppression_result.suppressed_effects,
  )
