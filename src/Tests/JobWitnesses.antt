-- ===== src/Tests/JobWitnesses.antt =====
-- The properties of reviews, reports and jobs at a concrete comparison.

use structural_reconciliatio.Base.{
  some, none, sym, ap, ◌∙◌, is_some, Option, ℕ, ◌≡◌, ◌⊎◌, refl, String, true, List, [], ◌∷◌, All,
  map,
}
use structural_reconciliatio.Errors.{
  Result, ok, raise, Returns, value_error, evidence_required, is_ok, Returns-is_ok,
}
use structural_reconciliatio.Reporting.{matches_by_id}
use structural_reconciliatio.Orchestration.{ComparisonRequest, is_terminal, ArtifactSummary}
use structural_reconciliatio.Orchestration.Comparison.{JobOutcome}
use structural_reconciliatio.Orchestration.Outcomes.{own_id}
use structural_reconciliatio.Orchestration.Composed.{Composed, run_comparison-Composed}
use structural_reconciliatio.Orchestration.Escapes.{
  Settled, Escaped, run_comparison-Settled, run_comparison-Escaped,
}
use structural_reconciliatio.Orchestration.Ccms.{ccms_request, run_from_refs}
use structural_reconciliatio.Orchestration.Ccms.Fetching.{Fetched, run_from_refs-Fetched}
use structural_reconciliatio.Localization.Contracts.{source_side, LocalizationValidationResult}
use structural_reconciliatio.Orchestration.{Answer, given, validate_request}
use structural_reconciliatio.Delivery.{ExitCodePolicy, resolve_exit_code}
use structural_reconciliatio.Delivery.Verdicts.{Verdict, resolve_exit_code-Verdict}
use structural_reconciliatio.Runtime.Int.{pos}
use structural_reconciliatio.Redaction.Hidden.{Hidden}
use structural_reconciliatio.Localization.Contracts.{warning}
use structural_reconciliatio.Orchestration.Executor.{ExecutorState, Transition, Reachable}
use structural_reconciliatio.Orchestration.Lifecycle.{Tracked, Reachable-Tracked}
use structural_reconciliatio.Orchestration.Draining.{Drains, Ended, drain}
use structural_reconciliatio.Orchestration.Refinement.{Move, shown_state, Transition-Move}
use structural_reconciliatio.Localization.Contracts.{
  optional_in_unit, validate_issue, validate_recommendation,
}
use structural_reconciliatio.Localization.Policy.{
  applies_to, permitting_rule, rules_complete, validate_policy, exemption_for, get_value, str_of,
  first_value, read_revision, compare_revisions, state_for,
}
use structural_reconciliatio.Localization.Recommendations.{
  status_operation, preconditions_of, postconditions_of, changes_of, opposite_side, first_ref,
  or_one, repair_confidence_of, destination_parent, proposed_operation, make_recommendation,
  recommend, attachment,
}
use structural_reconciliatio.Localization.Interpretation.{
  severity_of, action_of, message_of, is_stale, is_duplicate_id, is_truthy, or_else, shown_text,
  first_label, label_of, node_id_of, index_moves, index_all_moves, move_index, max_confidence,
  group_of, group_confidence, ambiguous_sources, ambiguous_targets, number,
}
use structural_reconciliatio.Localization.Drafts.{
  confirmed_threshold, translation_state_of, correspondence_status, correspondence_issue,
  ambiguity_issue, order_issue, node_type_of, presence_issue, conflict_issue,
}
use structural_reconciliatio.Localization.Interpreter.{
  correspondence_draft, deletion_draft, insertion_draft, presence_draft, correspondence_drafts,
  ambiguity_drafts, order_drafts, presence_drafts, conflict_drafts, drafts, contested_sources,
  contested_targets, is_contradictory, consistent_issues, interpret,
}
use structural_reconciliatio.Localization.Service.{
  count_values, count_of, operations_by_id, link_issue, attach, summarize, validate_localization,
}
use structural_reconciliatio.Reviews.{
  is_override, validate_command, validate_decision, find_issue, make_decision, record_decision,
}
use structural_reconciliatio.Reporting.{
  maybe_redact, decision_cell, decision_for, count_suppressed, node_at, path_of, first_revision,
  revision_of, matches_by_id, match_status_of, append_codes, collect_codes, type_of_operation,
  operation_type_of, primary_type,
}
use structural_reconciliatio.Reporting.Table.{
  make_issue_row, make_effect_row, effect_rows, issue_rows, build_report_table,
}
use structural_reconciliatio.Reporting.Effects.{effects_of, effects_explained}
use structural_reconciliatio.Orchestration.{
  is_terminal, policy_matches, validate_request, register_profile, resolve, known_ids,
}
use structural_reconciliatio.Orchestration.Comparison.{
  reconciliation_code, resolved_id, stopped_outcome, summary_of, render_one, store_artifact,
  render_all, render_artifacts, completed_outcome, save_result, after_save, interpret_and_report,
  command_of, on_engine_error, reconcile_and_report, adapt_both, run_with_profile, run_comparison,
}
use structural_reconciliatio.Orchestration.Executor.{
  submit_synchronously, with_id, idle, running_record, submit, finish, crash, get_record,
}
use structural_reconciliatio.Orchestration.Lifecycle.{job_ids}
use structural_reconciliatio.Tests.Runs.{program}
use structural_reconciliatio.Tests.Samples.{millionths}
use structural_reconciliatio.Tests.JobSamples.{environment, weightless, request}

job_program : Unit {0}
unfolding program optional_in_unit validate_issue validate_recommendation applies_to permitting_rule
    rules_complete validate_policy exemption_for get_value str_of first_value read_revision
    compare_revisions state_for status_operation preconditions_of postconditions_of changes_of
    opposite_side first_ref or_one repair_confidence_of destination_parent proposed_operation
    make_recommendation recommend attachment severity_of action_of message_of is_stale
    is_duplicate_id is_truthy or_else shown_text first_label label_of node_id_of index_moves
    index_all_moves move_index max_confidence group_of group_confidence ambiguous_sources
    ambiguous_targets number confirmed_threshold translation_state_of correspondence_status
    correspondence_issue ambiguity_issue order_issue node_type_of presence_issue conflict_issue
    correspondence_draft deletion_draft insertion_draft presence_draft correspondence_drafts
    ambiguity_drafts order_drafts presence_drafts conflict_drafts drafts contested_sources
    contested_targets is_contradictory consistent_issues interpret count_values count_of
    operations_by_id link_issue attach summarize validate_localization is_override validate_command
    validate_decision find_issue make_decision record_decision maybe_redact decision_cell
    decision_for count_suppressed node_at path_of first_revision revision_of matches_by_id
    match_status_of append_codes collect_codes type_of_operation operation_type_of primary_type
    make_issue_row make_effect_row effect_rows issue_rows build_report_table effects_of
    effects_explained is_terminal policy_matches validate_request register_profile resolve known_ids
    reconciliation_code resolved_id stopped_outcome render_one summary_of store_artifact render_all
    render_artifacts completed_outcome save_result after_save interpret_and_report command_of
    on_engine_error reconcile_and_report adapt_both run_with_profile run_comparison
    submit_synchronously with_id idle running_record submit finish crash get_record job_ids
job_program = tt

job_run : Returns (run_comparison ⦃R = millionths⦄ environment request)
unfolding job_program is_ok
job_run = Returns-is_ok (run_comparison ⦃R = millionths⦄ environment request) refl

abbrev artifact_sizes : Result (JobOutcome ⦃R = millionths⦄) → List ℕ
artifact_sizes (ok outcome) = map (λ (a : ArtifactSummary). a.size_bytes) outcome.job.artifacts
artifact_sizes (raise e) = []

-- The HTML report could not be written; the job is completed all the same.
job_run_sizes : artifact_sizes (run_comparison ⦃R = millionths⦄ environment request) ≡ 12 ∷ 0 ∷ []
unfolding job_program
job_run_sizes = refl

has_value : {A : Type 0} (o : Option A) → is_some o ≡ true → (a : A) × (o ≡ some a)
unfolding is_some
has_value none h = absurd (cc)
has_value (some a) h = (a, refl)

abbrev result_of :
    Result (JobOutcome ⦃R = millionths⦄) → Option (LocalizationValidationResult ⦃R = millionths⦄)
result_of (ok outcome) = outcome.result
result_of (raise e) = none

job_result :
    (result : LocalizationValidationResult ⦃R = millionths⦄) × (result_of
        (run_comparison ⦃R = millionths⦄ environment request)
      ≡ some result)
unfolding job_program is_some
job_result = has_value (result_of (run_comparison ⦃R = millionths⦄ environment request)) refl

run_comparison-Composed_example : Composed ⦃R = millionths⦄ environment request job_result.0
run_comparison-Composed_example =
    run_comparison-Composed ⦃R = millionths⦄ environment request job_run.0 job_result.0 job_run.1
      (sym (ap result_of job_run.1) ∙ job_result.1)

run_comparison-Settled_example :
    (job_run.0.job.job_id ≡ own_id ⦃R = millionths⦄ environment request)
    × (is_terminal job_run.0.job.state ≡ true)
    × Settled ⦃R = millionths⦄ environment request job_run.0
run_comparison-Settled_example =
    run_comparison-Settled ⦃R = millionths⦄ environment request job_run.0 job_run.1

weightless_run :
    run_comparison ⦃R = millionths⦄ weightless request ≡ raise (value_error evidence_required)
unfolding job_program
weightless_run = refl

run_comparison-Escaped_example :
    Escaped ⦃R = millionths⦄ weightless request (value_error evidence_required)
run_comparison-Escaped_example =
    run_comparison-Escaped ⦃R = millionths⦄ weightless request (value_error evidence_required)
      weightless_run

submitted : ExecutorState ⦃R = millionths⦄
submitted = submit ⦃R = millionths⦄ "1" request (idle ⦃R = millionths⦄)

submitted_step : Transition ⦃R = millionths⦄ environment (idle ⦃R = millionths⦄) submitted
unfolding submitted
submitted_step = Transition.submits (idle ⦃R = millionths⦄) "1" request

submitted_reached : Reachable ⦃R = millionths⦄ environment submitted
submitted_reached = Reachable.next (idle ⦃R = millionths⦄) submitted Reachable.start submitted_step

Reachable-Tracked_example : Tracked ⦃R = millionths⦄ environment submitted
Reachable-Tracked_example =
    Reachable-Tracked ⦃R = millionths⦄ environment submitted submitted_reached

submitted_crashed : submitted.crashed ≡ []
unfolding job_program submitted
submitted_crashed = refl

submitted_pending :
    All
      (λ (job : String × ComparisonRequest ⦃R = millionths⦄).
        Returns (run_comparison ⦃R = millionths⦄ environment job.1))
      submitted.pending
unfolding job_program submitted is_ok
submitted_pending = (
  Returns-is_ok
      (run_comparison ⦃R = millionths⦄ environment (with_id ⦃R = millionths⦄ request "job-7")) refl,
  tt,
)

drain_example :
    (after : ExecutorState ⦃R = millionths⦄) × Drains ⦃R = millionths⦄ environment submitted after
    × Ended ⦃R = millionths⦄ environment submitted after
drain_example =
    drain ⦃R = millionths⦄ environment submitted submitted_reached submitted_crashed
      submitted_pending

Transition-Move_example :
    (shown_state ⦃R = millionths⦄ submitted "job-7"
      ≡ shown_state ⦃R = millionths⦄ (idle ⦃R = millionths⦄) "job-7")
    ⊎ Move
        (shown_state ⦃R = millionths⦄ (idle ⦃R = millionths⦄) "job-7")
        (shown_state ⦃R = millionths⦄ submitted "job-7")
Transition-Move_example =
    Transition-Move ⦃R = millionths⦄ environment (idle ⦃R = millionths⦄) submitted "job-7"
      Reachable.start submitted_step

-- The default codes, where a warning is severe enough.
exit_policy : ExitCodePolicy
exit_policy = record {
  success = pos 0;
  technical_error = pos 1;
  content_findings = pos 2;
  findings_severity = warning;
  treat_findings_as_failure = true;
}

resolve_exit_code-Verdict_example :
    Verdict ⦃R = millionths⦄ exit_policy job_run.0
      (resolve_exit_code ⦃R = millionths⦄ job_run.0.job job_run.0.result exit_policy)
resolve_exit_code-Verdict_example =
    resolve_exit_code-Verdict ⦃R = millionths⦄ exit_policy environment request job_run.0 job_run.1

-- A content system whose objects have their references as contents.
read_object : String → Answer String
read_object ref = given ref

fetched_run : Returns (
    run_from_refs ⦃R = millionths⦄ environment read_object "source" "locale" "de" "dita" source_side
      (some "job-7")
      "fresh")
unfolding job_program is_ok ccms_request run_from_refs validate_request read_object
fetched_run =
    Returns-is_ok
      (run_from_refs ⦃R = millionths⦄ environment read_object "source" "locale" "de" "dita"
        source_side (some "job-7") "fresh")
      refl

run_from_refs-Fetched_example :
    (fetched_run.0.job.job_id ≡ resolved_id (some "job-7") "fresh")
    × (is_terminal fetched_run.0.job.state ≡ true)
    × Fetched ⦃R = millionths⦄ environment read_object "source" "locale" "de" "dita" source_side
        (some "job-7")
        "fresh"
        fetched_run.0
run_from_refs-Fetched_example =
    run_from_refs-Fetched ⦃R = millionths⦄ environment read_object "source" "locale" "de" "dita"
      source_side (some "job-7") "fresh" fetched_run.0 fetched_run.1
