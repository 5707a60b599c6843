-- ===== src/Tests/LocalizationWitnesses.antt =====
-- The properties of the localization layer at a concrete core result.
use mathlib.Core.List.{Memᴰ}
use mathlib.Core.List.Memᴰ.{head, tail}
use structural_reconciliatio.Base.{ℕ, ◌≡◌, refl, true, none, some, [], ◌∷◌, All, arith, map}
use structural_reconciliatio.Errors.{Returns}
use structural_reconciliatio.Contracts.Profiles.{in_unit}
use structural_reconciliatio.Localization.Contracts.{
  optional_in_unit, validate_issue, validate_recommendation,
}
use structural_reconciliatio.Localization.Policy.{
  applies_to, permitting_rule, rules_complete, validate_policy, exemption_for, get_value, str_of,
  first_value, read_revision, compare_revisions, state_for,
}
use structural_reconciliatio.Localization.Recommendations.{
  status_operation, preconditions_of, postconditions_of, changes_of, opposite_side, first_ref,
  or_one, repair_confidence_of, destination_parent, proposed_operation, make_recommendation,
  recommend, attachment,
}
use structural_reconciliatio.Localization.Interpretation.{
  severity_of, action_of, message_of, is_stale, is_duplicate_id, is_truthy, or_else, shown_text,
  first_label, label_of, node_id_of, index_moves, index_all_moves, move_index, max_confidence,
  group_of, group_confidence, ambiguous_sources, ambiguous_targets, number,
}
use structural_reconciliatio.Localization.Drafts.{
  confirmed_threshold, translation_state_of, correspondence_status, correspondence_issue,
  ambiguity_issue, order_issue, node_type_of, presence_issue, conflict_issue,
}
use structural_reconciliatio.Localization.Interpreter.{
  correspondence_draft, deletion_draft, insertion_draft, presence_draft, correspondence_drafts,
  ambiguity_drafts, order_drafts, presence_drafts, conflict_drafts, drafts, contested_sources,
  contested_targets, is_contradictory, consistent_issues, interpret,
}
use structural_reconciliatio.Localization.Service.{
  count_values, count_of, operations_by_id, link_issue, attach, summarize, validate_localization,
}
use structural_reconciliatio.Localization.Contracts.{
  LocalizationIssue, source_side, status_value, missing_in_locale, extra_in_locale,
}
use structural_reconciliatio.Localization.Open.{Settled, validate_localization-Settled}
use structural_reconciliatio.Localization.Links.{Linked, validate_localization-Linked}
use structural_reconciliatio.Localization.Counts.{Counted, summarize-counts}
use structural_reconciliatio.Localization.Coverage.{
  Reports, validate_localization-deletion, validate_localization-insertion,
}
use structural_reconciliatio.Localization.Totality.{WithinBounds}
use structural_reconciliatio.Localization.Completion.{UnitArithmetic, validate_localization-Returns}
use structural_reconciliatio.Reviews.{
  is_override, validate_command, validate_decision, find_issue, make_decision, record_decision,
}
use structural_reconciliatio.Reporting.{
  maybe_redact, decision_cell, decision_for, count_suppressed, node_at, path_of, first_revision,
  revision_of, matches_by_id, match_status_of, append_codes, collect_codes, type_of_operation,
  operation_type_of, primary_type,
}
use structural_reconciliatio.Reporting.Table.{
  make_issue_row, make_effect_row, effect_rows, issue_rows, build_report_table,
}
use structural_reconciliatio.Reporting.Effects.{effects_of, effects_explained}
use structural_reconciliatio.Errors.{is_ok, Returns-is_ok}
use structural_reconciliatio.Reviews.Recorded.{About, record_decision-About}
use structural_reconciliatio.Reporting.Table.{Report}
use structural_reconciliatio.Reporting.Redaction.{Redacted, build_report_table-Redacted}
use structural_reconciliatio.Reporting.Effects.{
  Lists, ShowsIssue, ShowsEffect, build_report_table-rows,
}
use structural_reconciliatio.Base.{List, ◌++◌}
use structural_reconciliatio.Reporting.{ReportRow}
use structural_reconciliatio.Tests.Samples.{source_tree, target_tree}
use structural_reconciliatio.Tests.LocalizationSamples.{override_command}
use structural_reconciliatio.Base.{if◌then◌else◌}
use structural_reconciliatio.Tests.Runs.{program}
use structural_reconciliatio.Tests.Samples.{millionths}
use structural_reconciliatio.Tests.LocalizationSamples.{
  core_result, interpretation, deletion, insertion,
}

localization_program : Unit {0}
unfolding program is_override validate_command validate_decision find_issue make_decision
    record_decision maybe_redact decision_cell decision_for count_suppressed node_at path_of
    first_revision revision_of matches_by_id match_status_of append_codes collect_codes
    type_of_operation operation_type_of primary_type make_issue_row make_effect_row effect_rows
    issue_rows build_report_table effects_of effects_explained optional_in_unit validate_issue
    validate_recommendation applies_to permitting_rule rules_complete validate_policy exemption_for
    get_value str_of first_value read_revision compare_revisions state_for status_operation
    preconditions_of postconditions_of changes_of opposite_side first_ref or_one
    repair_confidence_of destination_parent proposed_operation make_recommendation recommend
    attachment severity_of action_of message_of is_stale is_duplicate_id is_truthy or_else
    shown_text first_label label_of node_id_of index_moves index_all_moves move_index max_confidence
    group_of group_confidence ambiguous_sources ambiguous_targets number confirmed_threshold
    translation_state_of correspondence_status correspondence_issue ambiguity_issue order_issue
    node_type_of presence_issue conflict_issue correspondence_draft deletion_draft insertion_draft
    presence_draft correspondence_drafts ambiguity_drafts order_drafts presence_drafts
    conflict_drafts drafts contested_sources contested_targets is_contradictory consistent_issues
    interpret count_values count_of operations_by_id link_issue attach summarize
    validate_localization
localization_program = tt

localized : Returns (validate_localization ⦃R = millionths⦄ interpretation source_side)
unfolding localization_program
localized = (_, refl)

-- The open deletion is withheld; the insertion is exempt.
localized_statuses :
    map
      (λ (i : LocalizationIssue ⦃R = millionths⦄). status_value i.localization_status)
      localized.0.issues
    ≡ "PROBABLE_MATCH" ∷ "AMBIGUOUS_MATCH" ∷ "MISSING_IN_LOCALE" ∷ "EXEMPT_LOCALE_VARIATION"
      ∷ "IDENTIFIER_CONFLICT" ∷ []
unfolding localization_program localized
localized_statuses = refl

validate_localization-Settled_example :
    All (Settled ⦃R = millionths⦄ core_result) localized.0.issues
validate_localization-Settled_example =
    validate_localization-Settled ⦃R = millionths⦄ interpretation source_side localized.0
      localized.1

validate_localization-Linked_example :
    All (Linked ⦃R = millionths⦄ localized.0.recommendations) localized.0.issues
validate_localization-Linked_example =
    validate_localization-Linked ⦃R = millionths⦄ interpretation source_side localized.0 localized.1

validate_localization-deletion_example :
    (issue : LocalizationIssue ⦃R = millionths⦄) × Memᴰ issue localized.0.issues
    × Reports ⦃R = millionths⦄ deletion (some "s2") none missing_in_locale issue
unfolding localization_program
validate_localization-deletion_example =
    validate_localization-deletion ⦃R = millionths⦄ interpretation source_side localized.0 deletion
      "s2" [] localized.1 (head refl) refl refl refl

validate_localization-insertion_example :
    (issue : LocalizationIssue ⦃R = millionths⦄) × Memᴰ issue localized.0.issues
    × Reports ⦃R = millionths⦄ insertion none (some "t2") extra_in_locale issue
unfolding localization_program
validate_localization-insertion_example =
    validate_localization-insertion ⦃R = millionths⦄ interpretation source_side localized.0
      insertion "t2" [] localized.1 (tail (head refl)) refl refl refl

scaled_bound :
    (x : ℕ)
    → in_unit ⦃R = millionths⦄ x ≡ true
    → in_unit ⦃R = millionths⦄ (millionths.round6 (millionths.mul x (millionths.decimal 9 1)))
      ≡ true
unfolding localization_program
scaled_bound x h = ground arith

millionths_UnitArithmetic : UnitArithmetic ⦃R = millionths⦄
unfolding localization_program
millionths_UnitArithmetic = record { one = refl; scaled = scaled_bound }

core_WithinBounds : WithinBounds ⦃R = millionths⦄ core_result
unfolding localization_program
core_WithinBounds = record {
  candidates = (refl, (refl, tt));
  operations = (refl, (refl, (refl, tt)));
}

validate_localization-Returns_example :
    Returns (validate_localization ⦃R = millionths⦄ interpretation source_side)
validate_localization-Returns_example =
    validate_localization-Returns ⦃R = millionths⦄ millionths_UnitArithmetic interpretation
      source_side core_WithinBounds

summarize-counts_example :
    Counted ⦃R = millionths⦄ localized.0.issues core_result
      (summarize ⦃R = millionths⦄ localized.0.issues core_result)
summarize-counts_example = summarize-counts ⦃R = millionths⦄ localized.0.issues core_result

-- The reviewer moves the first issue to another status.
decided :
    Returns
      (record_decision ⦃R = millionths⦄ "decision-1" "2026-01-01" override_command localized.0)
unfolding localization_program localized is_ok
decided =
    Returns-is_ok
      (record_decision ⦃R = millionths⦄ "decision-1" "2026-01-01" override_command localized.0) refl

record_decision-About_example :
    (decided.0.job_id ≡ localized.0.job_id)
    × ((issue : LocalizationIssue ⦃R = millionths⦄) × Memᴰ issue localized.0.issues
        × About ⦃R = millionths⦄ override_command issue decided.0)
record_decision-About_example =
    record_decision-About ⦃R = millionths⦄ "decision-1" "2026-01-01" override_command localized.0
      decided.0 decided.1

report : Report ⦃R = millionths⦄
report = record {
  result = localized.0;
  source_tree = some source_tree;
  locale_tree = some target_tree;
  options = record { include_suppressed = true; redact_content = true };
  decisions = [];
}

report_redacts : report.options.redact_content ≡ true
unfolding report
report_redacts = refl

build_report_table-Redacted_example :
    All (Redacted ⦃R = millionths⦄) (build_report_table ⦃R = millionths⦄ report).rows
build_report_table-Redacted_example =
    build_report_table-Redacted ⦃R = millionths⦄ report report_redacts

build_report_table-rows_example :
    (direct : List (ReportRow ⦃R = millionths⦄)) × (derived : List (ReportRow ⦃R = millionths⦄))
    × ((build_report_table ⦃R = millionths⦄ report).rows ≡ direct ++ derived)
    × Lists ⦃R = millionths⦄ (ShowsIssue ⦃R = millionths⦄ report) report.result.issues direct
    × Lists ⦃R = millionths⦄
        (ShowsEffect ⦃R = millionths⦄ report)
        (if report.options.include_suppressed
          then report.result.reconciliation.suppression_result.suppressed_effects
          else [])
        derived
build_report_table-rows_example = build_report_table-rows ⦃R = millionths⦄ report
