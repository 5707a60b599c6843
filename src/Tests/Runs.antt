-- ===== src/Tests/Runs.antt =====
-- Whole runs of the engine on the samples.
use structural_reconciliatio.Alignment.Aligner.{
  region_id_for, source_position, target_position, aligned_position, same_texts, add_pairs, ids_at,
  index_ambiguous, ambiguous_index, matched_pair, is_matched_source, positions, order_change,
  is_ordered, align_parent, parent_pairs, align,
}
use structural_reconciliatio.Alignment.Lcs.{
  entry, zero_row, fill_row, first_row, table, aligned_step, left_step, right_step, walk,
  align_sequences,
}
use structural_reconciliatio.Base.{
  lookup, put, keys, at_keys, sorted_items, filter, any, is_empty, collect, contains, nodup, insert,
  sort, sort_texts, text_le, option_eq, is_some,
}
use structural_reconciliatio.Causality.{
  operation_cost, objective_score, changed_operations, root_ids, confidence_value, explanation,
  alternatives_for, analyze,
}
use structural_reconciliatio.Classification.Classifier.{
  register, default_registry, operation_le, run_classifiers, classify,
}
use structural_reconciliatio.Classification.Context.{
  parents_correspond, first_confidence, confirmed_confidence, confirmed_pairs, both_parents,
  is_cross_parent, move_test, filter_moves, move_pairs, ambiguous_refs, suppresses_regions,
  emits_all, presence_suppressed_region, ref_in, barred, presence_suppressed_pair,
}
use structural_reconciliatio.Classification.Correspondence.{
  match_or_update, operation_word, correspondence_of, correspondence_of_pair,
  correspondence_of_region, classify_correspondence, expected_parent, move_operation,
  classify_moves, present_refs, present_match_ids, shown, reorder_of_region, classify_reorders,
}
use structural_reconciliatio.Classification.Presence.{
  evidence_codes, is_source_side, delete_operation, insert_operation, source_absence,
  target_absence, presence_of_pair, presence_of_region, classify_presence,
}
use structural_reconciliatio.Contracts.Alignments.{
  is_aligned, is_unresolved_kind, validate_pair, validate_region, refs_of_kind,
  is_unresolved_source, is_unresolved_target, unresolved_source_refs, unresolved_target_refs,
  unresolved_regions, all_in, validate_alignment, first_region, region_for, region_by_id,
}
use structural_reconciliatio.Contracts.Matches.{
  is_confirmed_state, is_ambiguous_state, validate_candidate, one_to_one, make_graph,
  confirmed_candidates, ambiguous_candidates, first_target, confirmed_target_for, first_source,
  confirmed_source_for,
}
use structural_reconciliatio.Contracts.Operations.{
  is_retained, validate_link, validate_operation, of_type, graph_is_ambiguous, validate_effect,
  count_effects, counts_by_root,
}
use structural_reconciliatio.Contracts.Profiles.{
  truthy, validate_calibration, validate_normalization, order_semantics_for, in_unit,
  weights_nonnegative, validate_matching, is_enabled, validate_operation_profile,
  validate_suppression_profile, rules_for,
}
use structural_reconciliatio.Contracts.Scores.{
  validate_confidence, plain_confidence, validate_score,
}
use structural_reconciliatio.Engine.{
  is_lcs, duplicate_id_diagnostics, region_diagnostic, alignment_diagnostics, metrics_of,
  incomplete_result, run_pipeline, on_limit, after_limits, reconcile,
}
use structural_reconciliatio.Errors.{traverse}
use structural_reconciliatio.Evidence.{
  join, repr, repr_values, repr_fields, property, present_text, first_present, repr_at, signature,
  child_signature, node_evidence, count_id, count_ids, counted_twice, by_ref, extract_tree, extract,
}
use structural_reconciliatio.Limits.{
  push, depth_loop, tree_depth, check_limit, check_depth, check_pre_limits,
}
use structural_reconciliatio.Matching.Ambiguity.{
  edge_set, best_first, source_side, contend, contenders, close_contenders, target_side,
  ambiguous_edges,
}
use structural_reconciliatio.Matching.Authoritative.{
  index_id, index_ids, unique_id_index, common_keys, authoritative_candidate, authoritative_matches,
}
use structural_reconciliatio.Matching.Candidates.{
  match_id, evaluate_constraints, derive_confidence, make_candidate,
}
use structural_reconciliatio.Matching.Matcher.{
  candidate_le, confirmed_sources, confirmed_targets, ids_are_authoritative, phase_1, match_nodes,
}
use structural_reconciliatio.Matching.Scorer.{
  first_weight, weight_for, consider, same_signal, score_features, quotient, score_pair,
}
use structural_reconciliatio.Matching.Similarity.{
  free_refs, surest_first, row_entry, score_row, alternatives, ambiguous_candidate, confirmable,
  confirmed_candidate, confirm_all, similarity_matches,
}
use structural_reconciliatio.Normalization.{
  is_space, collapse, strip_left, stripped_cons, strip_right, normalize_text, normalize_value,
  normalize_values, normalize_fields, is_excluded, is_collapsed, kept_value, normalize_content,
  property_trace, content_trace, normalize_node, normalize_nodes, normalize, normalization_trace,
}
use structural_reconciliatio.ProfileValidation.{
  rule_violations, weight_violations, profile_violations, validate_profiles,
}
use structural_reconciliatio.Runtime.Int.{int_eq, int_of_bool}
use structural_reconciliatio.Suppression.{
  add_member, add_members, extend, first_of, is_member, present_refs as suppression_present_refs,
  matched_targets, side_children, descend, descendants, find_independent_defects, concerns,
  downstream_siblings, make_effect, moved_source, affected_by, apply_rule, apply_rules,
  suppress_all, suppress,
}
use structural_reconciliatio.Tree.{
  require, subscript, validate_node, keys_agree, validate_shape, child_nodes_of, child_nodes,
}
use structural_reconciliatio.Tree.Validation.{
  child_violations, parent_violations, link_violations, walk as validation_walk, cycle_violations,
  detect_cycles, root_violations, violations, validate_tree,
}
use structural_reconciliatio.Tree.Values.{
  get_field, field_keys, count_fields, number_eq, value_eq, values_eq, fields_in, fields_eq,
}
use structural_reconciliatio.Base.{◌≡◌, refl, map, String, List, [], ◌∷◌}
use structural_reconciliatio.Errors.{Result, ok, raise}
use structural_reconciliatio.Engine.{ReconciliationResult}
use structural_reconciliatio.Contracts.Operations.{StructuralOperation}
use structural_reconciliatio.Tests.Samples.{command, millionths}

-- All definitions that a run computes with.
unfoldable pub program : Unit {0}
unfolding region_id_for source_position target_position aligned_position same_texts add_pairs ids_at
    index_ambiguous ambiguous_index matched_pair is_matched_source positions order_change is_ordered
    align_parent parent_pairs align entry zero_row fill_row first_row table aligned_step left_step
    right_step walk align_sequences lookup put keys at_keys sorted_items filter any is_empty collect
    contains nodup insert sort sort_texts text_le option_eq is_some operation_cost objective_score
    changed_operations root_ids confidence_value explanation alternatives_for analyze register
    default_registry operation_le run_classifiers classify parents_correspond first_confidence
    confirmed_confidence confirmed_pairs both_parents is_cross_parent move_test filter_moves
    move_pairs ambiguous_refs suppresses_regions emits_all presence_suppressed_region ref_in barred
    presence_suppressed_pair match_or_update operation_word correspondence_of correspondence_of_pair
    correspondence_of_region classify_correspondence expected_parent move_operation classify_moves
    present_refs present_match_ids shown reorder_of_region classify_reorders evidence_codes
    is_source_side delete_operation insert_operation source_absence target_absence presence_of_pair
    presence_of_region classify_presence is_aligned is_unresolved_kind validate_pair validate_region
    refs_of_kind is_unresolved_source is_unresolved_target unresolved_source_refs
    unresolved_target_refs unresolved_regions all_in validate_alignment first_region region_for
    region_by_id is_confirmed_state is_ambiguous_state validate_candidate one_to_one make_graph
    confirmed_candidates ambiguous_candidates first_target confirmed_target_for first_source
    confirmed_source_for is_retained validate_link validate_operation of_type graph_is_ambiguous
    validate_effect count_effects counts_by_root truthy validate_calibration validate_normalization
    order_semantics_for in_unit weights_nonnegative validate_matching is_enabled
    validate_operation_profile validate_suppression_profile rules_for validate_confidence
    plain_confidence validate_score is_lcs duplicate_id_diagnostics region_diagnostic
    alignment_diagnostics metrics_of incomplete_result run_pipeline on_limit after_limits reconcile
    traverse join repr repr_values repr_fields property present_text first_present repr_at signature
    child_signature node_evidence count_id count_ids counted_twice by_ref extract_tree extract push
    depth_loop tree_depth check_limit check_depth check_pre_limits edge_set best_first source_side
    contend contenders close_contenders target_side ambiguous_edges index_id index_ids
    unique_id_index common_keys authoritative_candidate authoritative_matches match_id
    evaluate_constraints derive_confidence make_candidate candidate_le confirmed_sources
    confirmed_targets ids_are_authoritative phase_1 match_nodes first_weight weight_for consider
    same_signal score_features quotient score_pair free_refs surest_first row_entry score_row
    alternatives ambiguous_candidate confirmable confirmed_candidate confirm_all similarity_matches
    is_space collapse strip_left stripped_cons strip_right normalize_text normalize_value
    normalize_values normalize_fields is_excluded is_collapsed kept_value normalize_content
    property_trace content_trace normalize_node normalize_nodes normalize normalization_trace
    rule_violations weight_violations profile_violations validate_profiles int_eq int_of_bool
    add_member add_members extend first_of is_member suppression_present_refs matched_targets
    side_children descend descendants find_independent_defects concerns downstream_siblings
    make_effect moved_source affected_by apply_rule apply_rules suppress_all suppress require
    subscript validate_node keys_agree validate_shape child_nodes_of child_nodes child_violations
    parent_violations link_violations validation_walk cycle_violations detect_cycles root_violations
    violations validate_tree get_field field_keys count_fields number_eq value_eq values_eq
    fields_in fields_eq
program = tt

abbrev operation_ids : Result (ReconciliationResult ⦃R = millionths⦄) → List String
operation_ids (ok r) =
    map (λ (o : StructuralOperation ⦃R = millionths⦄). o.operation_id) r.operations
operation_ids (raise e) = []

-- The chapter that stayed, the moved one and its changed topic.
run_operations :
    operation_ids (reconcile ⦃R = millionths⦄ command)
    ≡ "op:match:s2->t2" ∷ "op:move:s1->t1" ∷ "op:update:s3->t3" ∷ []
unfolding program
run_operations = refl
