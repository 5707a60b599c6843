-- ===== src/Localization/Drafts.antt =====
-- application/services/localization_validation.py: `_interpret` with the issues that it builds.
use Prim.Native.String.{◌++◌ as ◌&◌}
use structural_reconciliatio.Base.{
  String, false, Option, none, some, [], ◌∷◌, lookup, map, if◌then◌else◌,
}
use structural_reconciliatio.Runtime.{Runtime, Float, ◌<=◌}
use structural_reconciliatio.Errors.{◌>>=◌}
use structural_reconciliatio.Tree.{CanonicalNode, CanonicalTree, non_empty}
use structural_reconciliatio.Contracts.Profiles.{truthy}
use structural_reconciliatio.Contracts.Matches.{MatchCandidate}
use structural_reconciliatio.Contracts.Operations.{StructuralOperation}
use structural_reconciliatio.Engine.{ReconciliationResult}
use structural_reconciliatio.Suppression.{first_of}
use structural_reconciliatio.Localization.Contracts.{
  LocalizationStatus, confirmed_match, probable_match, ambiguous_match, wrong_parent, wrong_order,
  source_updated, identifier_conflict, exempt_locale_variation, TranslationState, unknown,
  no_action, review, reorder, warning, error, validate_issue,
}
use structural_reconciliatio.Localization.Policy.{LocaleVariationPolicy, state_for}
use structural_reconciliatio.Localization.Interpretation.{
  severity_of, action_of, message_of, is_stale, label_of, node_id_of, group_of, group_confidence,
  Draft,
}

module _ ⦃R : Runtime⦄ where
  -- `policy.confirmed_match_threshold if policy else 0.9`
  unfoldable pub confirmed_threshold : Option LocaleVariationPolicy → Float
  confirmed_threshold none = R.decimal 9 1
  confirmed_threshold (some policy) = policy.confirmed_match_threshold

  unfoldable pub translation_state_of : CanonicalNode → Option CanonicalNode → TranslationState
  translation_state_of source_node none = unknown
  translation_state_of source_node (some locale_node) = state_for source_node locale_node

  -- The status of a confirmed pair, by the move of its source where there is one.
  unfoldable pub correspondence_status :
      Option StructuralOperation → TranslationState → Float → Float → LocalizationStatus
  correspondence_status (some op) lineage confidence threshold = wrong_parent
  correspondence_status none lineage confidence threshold =
      if is_stale lineage
      then source_updated
      else if threshold <= confidence
      then confirmed_match
      else probable_match

  unfoldable pub correspondence_issue :
      MatchCandidate
      → CanonicalNode
      → Option CanonicalNode
      → Option StructuralOperation
      → Float
      → Draft
  correspondence_issue c source_node locale_node move threshold issue_id =
      let state = translation_state_of source_node locale_node in
      let status = correspondence_status move state c.confidence.value threshold in
      do
        severity ← severity_of status
        validate_issue (record {
          issue_id = issue_id;
          localization_status = status;
          severity = severity;
          source_node_ref = some c.source_node_ref;
          locale_node_ref = some c.target_node_ref;
          source_node_id = node_id_of (some source_node);
          locale_node_id = node_id_of locale_node;
          source_label = label_of (some source_node);
          locale_label = label_of locale_node;
          core_match_ids = c.match_id ∷ [];
          core_operation_ids = elim move [ none ↦ [] | some op ↦ op.operation_id ∷ [] ];
          match_confidence = some c.confidence.value;
          operation_confidence = elim move [ none ↦ none | some op ↦ some op.confidence.value ];
          repair_confidence = none;
          translation_state = state;
          recommended_action = action_of status;
          auto_fix_eligible = false;
          policy_exemption = none;
          recommendation_id = none;
          message = message_of status;
        })

  unfoldable pub ambiguity_issue : ReconciliationResult → CanonicalTree → String → Draft
  ambiguity_issue result source_tree source_ref issue_id =
      let group = group_of result source_ref in
      let source_node = lookup source_tree.nodes source_ref in
      do
        confidence ← group_confidence group
        validate_issue (record {
          issue_id = issue_id;
          localization_status = ambiguous_match;
          severity = warning;
          source_node_ref = some source_ref;
          locale_node_ref = none;
          source_node_id = node_id_of source_node;
          locale_node_id = none;
          source_label = label_of source_node;
          locale_label = none;
          core_match_ids = map (λ (c : MatchCandidate). c.match_id) group;
          core_operation_ids = [];
          match_confidence = some confidence;
          operation_confidence = none;
          repair_confidence = none;
          translation_state = unknown;
          recommended_action = review;
          auto_fix_eligible = false;
          policy_exemption = none;
          recommendation_id = none;
          message = some "multiple plausible locale correspondences require review";
        })

  unfoldable pub order_issue : StructuralOperation → Draft
  order_issue op issue_id = validate_issue (record {
    issue_id = issue_id;
    localization_status = wrong_order;
    severity = warning;
    source_node_ref = first_of op.source_node_refs;
    locale_node_ref = none;
    source_node_id = none;
    locale_node_id = none;
    source_label = none;
    locale_label = none;
    core_match_ids = op.match_ids;
    core_operation_ids = op.operation_id ∷ [];
    match_confidence = none;
    operation_confidence = some op.confidence.value;
    repair_confidence = none;
    translation_state = unknown;
    recommended_action = reorder;
    auto_fix_eligible = false;
    policy_exemption = none;
    recommendation_id = none;
    message = some "matched siblings appear in a different order under a matched parent";
  })

  unfoldable pub node_type_of : Option CanonicalNode → String
  node_type_of none = ""
  node_type_of (some node) = node.node_type

  -- `_presence_issue`: the sides that the issue names are those of the given references.
  unfoldable pub presence_issue :
      StructuralOperation
      → Option String
      → Option String
      → Option CanonicalNode
      → Option CanonicalNode
      → Option String
      → LocalizationStatus
      → Draft
  presence_issue op source_ref locale_ref source_node locale_node exemption default issue_id =
      let status = if truthy exemption then exempt_locale_variation else default in
      do
        severity ← severity_of status
        validate_issue (record {
          issue_id = issue_id;
          localization_status = status;
          severity = severity;
          source_node_ref = source_ref;
          locale_node_ref = locale_ref;
          source_node_id = node_id_of source_node;
          locale_node_id = node_id_of locale_node;
          source_label = label_of source_node;
          locale_label = label_of locale_node;
          core_match_ids = [];
          core_operation_ids = op.operation_id ∷ [];
          match_confidence = none;
          operation_confidence = some op.confidence.value;
          repair_confidence = none;
          translation_state = unknown;
          recommended_action = action_of status;
          auto_fix_eligible = false;
          policy_exemption = exemption;
          recommendation_id = none;
          message = elim exemption [
            | none ↦ none
            | some rule ↦
                if non_empty rule then some ("policy-exempt variation (" & (rule & ")")) else none
          ];
        })

  unfoldable pub conflict_issue : Draft
  conflict_issue issue_id = validate_issue (record {
    issue_id = issue_id;
    localization_status = identifier_conflict;
    severity = error;
    source_node_ref = none;
    locale_node_ref = none;
    source_node_id = none;
    locale_node_id = none;
    source_label = none;
    locale_label = none;
    core_match_ids = [];
    core_operation_ids = [];
    match_confidence = none;
    operation_confidence = none;
    repair_confidence = none;
    translation_state = unknown;
    recommended_action = no_action;
    auto_fix_eligible = false;
    policy_exemption = none;
    recommendation_id = none;
    message = some "duplicate persistent identifier detected; identity is ambiguous";
  })
