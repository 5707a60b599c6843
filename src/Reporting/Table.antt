-- ===== src/Reporting/Table.antt =====
-- reporting/rows.py: `build_report_table`.
use Prim.Native.String.{◌++◌ as ◌&◌}
use structural_reconciliatio.Base.{
  ℕ, suc, true, false, Option, none, some, List, [], ◌∷◌, ◌++◌, Dict, map, if◌then◌else◌,
}
use structural_reconciliatio.Runtime.{Runtime}
use structural_reconciliatio.Tree.{CanonicalTree}
use structural_reconciliatio.Contracts.Matches.{MatchCandidate}
use structural_reconciliatio.Contracts.Operations.{SuppressedEffect, counts_by_root}
use structural_reconciliatio.Suppression.{first_of}
use structural_reconciliatio.Localization.Contracts.{
  LocalizationIssue, LocalizationValidationResult, status_value, action_value,
}
use structural_reconciliatio.Reviews.{ReviewerDecision}
use structural_reconciliatio.Reporting.{
  ReportOptions, issue_row, suppressed_row, maybe_redact, decision_cell, decision_for,
  count_suppressed, ReportRow, ReportTable, node_at, path_of, revision_of, matches_by_id,
  match_status_of, collect_codes, operation_type_of, primary_type,
}

module _ ⦃R : Runtime⦄ where
  -- What the rows are built from.
  pub record Report : Type 0 where
    pub result : LocalizationValidationResult
    pub source_tree : Option CanonicalTree
    pub locale_tree : Option CanonicalTree
    pub options : ReportOptions
    pub decisions : List ReviewerDecision

  unfoldable pub make_issue_row :
      Report → Dict MatchCandidate → Dict ℕ → LocalizationIssue → ReportRow
  make_issue_row r matches counts issue =
      let source_node = node_at r.source_tree issue.source_node_ref in
      let locale_node = node_at r.locale_tree issue.locale_node_ref in
      let root = first_of issue.core_operation_ids in
      record {
        job_id = r.result.job_id;
        result_id = issue_row issue.issue_id;
        source_node_id = issue.source_node_id;
        locale_node_id = issue.locale_node_id;
        source_path = path_of source_node;
        locale_path = path_of locale_node;
        node_type = primary_type source_node locale_node;
        source_label = maybe_redact issue.source_label r.options;
        locale_label = maybe_redact issue.locale_label r.options;
        match_status = match_status_of issue.core_match_ids matches;
        localization_status = some (status_value issue.localization_status);
        operation = operation_type_of root r.result.reconciliation;
        match_confidence = issue.match_confidence;
        operation_confidence = issue.operation_confidence;
        repair_confidence = issue.repair_confidence;
        evidence_codes = collect_codes [] issue.core_match_ids matches;
        source_revision = revision_of source_node ("revision" ∷ []);
        locale_revision = revision_of locale_node ("revision" ∷ "source-revision" ∷ []);
        root_operation_id = root;
        is_suppressed = false;
        suppression_rule = none;
        suppressed_effect_count = count_suppressed counts issue.core_operation_ids;
        recommended_action = some (action_value issue.recommended_action);
        auto_fix_eligible = issue.auto_fix_eligible;
        reviewer_decision = elim (decision_for r.decisions issue.issue_id) [
          | none ↦ none
          | some decision ↦ some (decision_cell decision)
        ];
        policy_exemption = issue.policy_exemption;
        message = maybe_redact issue.message r.options;
      }

  unfoldable pub make_effect_row : Report → ℕ → SuppressedEffect → ReportRow
  make_effect_row r index effect = record {
    job_id = r.result.job_id;
    result_id = suppressed_row index;
    source_node_id = none;
    locale_node_id = none;
    source_path = none;
    locale_path = none;
    node_type = none;
    source_label = none;
    locale_label = none;
    match_status = none;
    localization_status = some "SUPPRESSED_EFFECT";
    operation = some effect.category;
    match_confidence = none;
    operation_confidence = some effect.confidence.value;
    repair_confidence = none;
    evidence_codes = [];
    source_revision = none;
    locale_revision = none;
    root_operation_id = some effect.root_operation_id;
    is_suppressed = true;
    suppression_rule = some effect.suppression_rule_id;
    suppressed_effect_count = 0;
    recommended_action = none;
    auto_fix_eligible = false;
    reviewer_decision = none;
    policy_exemption = none;
    message = some ("derived effect suppressed by " & effect.root_operation_id);
  }

  -- `enumerate(effects, start=1)`, from the number before the first
  unfoldable pub effect_rows : Report → ℕ → List SuppressedEffect → List ReportRow
  effect_rows r index [] = []
  effect_rows r index (effect ∷ effects) =
      make_effect_row r (suc index) effect ∷ effect_rows r (suc index) effects

  unfoldable pub issue_rows : Report → List ReportRow
  issue_rows r =
      map
        (make_issue_row r (matches_by_id [] r.result.reconciliation.match_graph.candidates)
          (counts_by_root r.result.reconciliation.suppression_result))
        r.result.issues

  unfoldable pub build_report_table : Report → ReportTable
  build_report_table r = record {
    job_id = r.result.job_id;
    rows =
        issue_rows r
        ++ (if r.options.include_suppressed
            then effect_rows r 0 r.result.reconciliation.suppression_result.suppressed_effects
            else []);
  }
