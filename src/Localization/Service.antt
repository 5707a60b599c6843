-- ===== src/Localization/Service.antt =====
-- application/services/localization_validation.py: `_attach`, `_summarize` and `validate`.
use structural_reconciliatio.Base.{
  ℕ, suc, ◌+◌, String, Option, none, some, List, [], ◌∷◌, Dict, lookup, put, map, length,
}
use structural_reconciliatio.Runtime.{Runtime, Float}
use structural_reconciliatio.Errors.{Result, ok, ◌>>=◌}
use structural_reconciliatio.Contracts.Profiles.{operation_value}
use structural_reconciliatio.Contracts.Operations.{StructuralOperation}
use structural_reconciliatio.Engine.{ReconciliationResult}
use structural_reconciliatio.Localization.Contracts.{
  AuthoritativeSide, LocalizationStatus, confirmed_match, probable_match, ambiguous_match,
  missing_in_locale, extra_in_locale, wrong_parent, wrong_order, locale_diverged,
  exempt_locale_variation, status_value, action_value, LocalizationIssue, LocalizationSummary,
  RepairRecommendation, LocalizationValidationResult,
}
use structural_reconciliatio.Localization.Recommendations.{recommend, attachment}
use structural_reconciliatio.Localization.Interpreter.{Interpretation, interpret}

-- `counts.get(key, 0) + 1`
abbrev pub next_count : Dict ℕ → String → ℕ
next_count counts key = elim (lookup counts key) [ none ↦ 1 | some n ↦ suc n ]

-- `counts[key] = counts.get(key, 0) + 1` for each key
unfoldable pub count_values : Dict ℕ → List String → Dict ℕ
count_values counts [] = counts
count_values counts (key ∷ keys) = count_values (put counts key (next_count counts key)) keys

-- `counts.get(key, 0)`
unfoldable pub count_of : Dict ℕ → String → ℕ
count_of counts key = elim (lookup counts key) [ none ↦ 0 | some n ↦ n ]

module _ ⦃R : Runtime⦄ where
  -- `{op.operation_id: op for op in operations}`
  unfoldable pub operations_by_id :
      Dict StructuralOperation → List StructuralOperation → Dict StructuralOperation
  operations_by_id index [] = index
  operations_by_id index (op ∷ ops) = operations_by_id (put index op.operation_id op) ops

  unfoldable pub link_issue : LocalizationIssue → Option (ℕ × Float) → LocalizationIssue
  link_issue issue none = issue
  link_issue issue (some (recommendation, confidence)) = record {
    issue_id = issue.issue_id;
    localization_status = issue.localization_status;
    severity = issue.severity;
    source_node_ref = issue.source_node_ref;
    locale_node_ref = issue.locale_node_ref;
    source_node_id = issue.source_node_id;
    locale_node_id = issue.locale_node_id;
    source_label = issue.source_label;
    locale_label = issue.locale_label;
    core_match_ids = issue.core_match_ids;
    core_operation_ids = issue.core_operation_ids;
    match_confidence = issue.match_confidence;
    operation_confidence = issue.operation_confidence;
    repair_confidence = some confidence;
    translation_state = issue.translation_state;
    recommended_action = issue.recommended_action;
    auto_fix_eligible = issue.auto_fix_eligible;
    policy_exemption = issue.policy_exemption;
    recommendation_id = some recommendation;
    message = issue.message;
  }

  -- `_attach(issue, attachments)`
  unfoldable pub attach : List RepairRecommendation → LocalizationIssue → LocalizationIssue
  attach repairs issue = link_issue issue (attachment issue.issue_id repairs)

  abbrev pub statuses : List LocalizationIssue → List String
  statuses issues = map (λ (i : LocalizationIssue). status_value i.localization_status) issues

  unfoldable pub summarize : List LocalizationIssue → ReconciliationResult → LocalizationSummary
  summarize issues result =
      let counts = count_values [] (statuses issues) in
      let count = λ (status : LocalizationStatus). count_of counts (status_value status) in
      record {
        status_counts = counts;
        operation_counts =
            count_values []
              (map (λ (op : StructuralOperation). operation_value op.type) result.operations);
        action_counts =
            count_values []
              (map (λ (i : LocalizationIssue). action_value i.recommended_action) issues);
        node_counts = record {
          confirmed = count confirmed_match;
          probable = count probable_match;
          ambiguous = count ambiguous_match;
          missing = count missing_in_locale;
          extra = count extra_in_locale;
          structurally_divergent = (count wrong_parent + count wrong_order) + count locale_diverged;
          exempt = count exempt_locale_variation;
        };
        direct_issue_count = length issues;
        suppressed_effect_count = length result.suppression_result.suppressed_effects;
        unresolved_region_count = length result.alignment_result.unresolved_region_ids;
      }

  -- `validate(...)`
  unfoldable pub validate_localization :
      Interpretation → AuthoritativeSide → Result LocalizationValidationResult
  validate_localization i side = do
    issues ← interpret i
    repairs ← recommend side (operations_by_id [] i.result.operations) 0 issues
    let attached = map (attach repairs) issues
    ok (record {
      job_id = i.result.job_id;
      locale = i.locale;
      authoritative_side = side;
      reconciliation = i.result;
      issues = attached;
      recommendations = repairs;
      summary = summarize attached i.result;
    })
