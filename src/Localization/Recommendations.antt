-- ===== src/Localization/Recommendations.antt =====
-- application/services/recommendations.py
use structural_reconciliatio.Base.{
  ℕ, suc, String, false, Option, none, some, List, [], ◌∷◌, Dict, lookup, is_some, same_count,
  if◌then◌else◌,
}
use structural_reconciliatio.Runtime.{Runtime, Float, float_one, min_float}
use structural_reconciliatio.Errors.{Result, ok, ◌>>=◌}
use structural_reconciliatio.Tree.{non_empty}
use structural_reconciliatio.Contracts.Operations.{StructuralOperation}
use structural_reconciliatio.Localization.Contracts.{
  AuthoritativeSide, source_side, locale_side, LocalizationStatus, wrong_parent, wrong_order,
  missing_in_locale, extra_in_locale, ambiguous_match, RepairOperation, move_node, reorder_nodes,
  add_node, remove_node, RepairChange, containment, order, LocalizationIssue, has_status,
  RepairRecommendation, validate_recommendation,
}

-- `_STATUS_OPERATION.get(status)`
unfoldable pub status_operation : LocalizationStatus → Option RepairOperation
status_operation wrong_parent = some move_node
status_operation wrong_order = some reorder_nodes
status_operation missing_in_locale = some add_node
status_operation extra_in_locale = some remove_node
status_operation _ = none

-- `_PRECONDITIONS`, `_POSTCONDITIONS` and `_CHANGES`
unfoldable pub preconditions_of : RepairOperation → List String
preconditions_of move_node =
    "INPUT_FINGERPRINT_UNCHANGED" ∷ "TARGET_NODE_EXISTS" ∷ "DESTINATION_PARENT_EXISTS"
    ∷ "DOMAIN_RULES_PASS" ∷ []
preconditions_of reorder_nodes =
    "INPUT_FINGERPRINT_UNCHANGED" ∷ "MATCHED_SIBLINGS_EXIST" ∷ "DOMAIN_RULES_PASS" ∷ []
preconditions_of add_node =
    "INPUT_FINGERPRINT_UNCHANGED" ∷ "DESTINATION_PARENT_EXISTS" ∷ "SOURCE_NODE_AVAILABLE"
    ∷ "DOMAIN_RULES_PASS" ∷ []
preconditions_of remove_node =
    "INPUT_FINGERPRINT_UNCHANGED" ∷ "TARGET_NODE_EXISTS" ∷ "DOMAIN_RULES_PASS" ∷ []
preconditions_of _ = []

unfoldable pub postconditions_of : RepairOperation → List String
postconditions_of move_node =
    "TARGET_PARENT_MATCHES_AUTHORITATIVE_PARENT" ∷ "XML_REMAINS_SCHEMA_VALID" ∷ []
postconditions_of reorder_nodes =
    "SIBLING_ORDER_MATCHES_AUTHORITATIVE" ∷ "XML_REMAINS_SCHEMA_VALID" ∷ []
postconditions_of add_node = "REQUIRED_NODE_PRESENT_IN_LOCALE" ∷ "XML_REMAINS_SCHEMA_VALID" ∷ []
postconditions_of remove_node = "EXTRA_NODE_REMOVED_FROM_LOCALE" ∷ "XML_REMAINS_SCHEMA_VALID" ∷ []
postconditions_of _ = []

unfoldable pub changes_of : RepairOperation → List RepairChange
changes_of reorder_nodes = order ∷ []
changes_of _ = containment ∷ []

unfoldable pub opposite_side : AuthoritativeSide → AuthoritativeSide
opposite_side source_side = locale_side
opposite_side locale_side = source_side

-- `a or b` of optional references, where the empty text counts as none
unfoldable pub first_ref : Option String → Option String → Option String
first_ref none b = b
first_ref (some a) b = if non_empty a then some a else b

module _ ⦃R : Runtime⦄ where
  unfoldable pub or_one : Option Float → Float
  or_one none = float_one
  or_one (some x) = x

  -- `_repair_confidence(issue)`
  unfoldable pub repair_confidence_of : LocalizationIssue → Float
  repair_confidence_of issue = R.round6 (
      R.mul (min_float (or_one issue.match_confidence) (or_one issue.operation_confidence))
        (R.decimal 9 1))

  -- `_geometry(issue, operations_by_id)[0]`; no sibling is ever named.
  unfoldable pub destination_parent : List String → Dict StructuralOperation → Option String
  destination_parent [] operations = none
  destination_parent (op_id ∷ op_ids) operations =
      let rest = destination_parent op_ids operations in
      elim (lookup operations op_id) [
        | none ↦ rest
        | some op ↦ elim op.from_parent_ref [ none ↦ rest | some parent ↦ some parent ]
      ]

  -- The correction for an issue, where one is proposed.
  unfoldable pub proposed_operation : LocalizationIssue → Option RepairOperation
  proposed_operation issue = elim (status_operation issue.localization_status) [
    | none ↦ none
    | some operation ↦
        if has_status ambiguous_match issue
        then none
        else if is_some issue.policy_exemption
        then none
        else some operation
  ]

  unfoldable pub make_recommendation :
      AuthoritativeSide
      → Dict StructuralOperation
      → ℕ
      → RepairOperation
      → LocalizationIssue
      → Result RepairRecommendation
  make_recommendation side operations counter operation issue = validate_recommendation (record {
    recommendation_id = counter;
    operation = operation;
    authoritative_side = side;
    target_side = opposite_side side;
    issue_id = issue.issue_id;
    source_operation_ids = issue.core_operation_ids;
    target_node_ref = first_ref issue.locale_node_ref issue.source_node_ref;
    destination_parent_ref = destination_parent issue.core_operation_ids operations;
    after_sibling_ref = none;
    before_sibling_ref = none;
    repair_confidence = repair_confidence_of issue;
    executable = false;
    auto_fix_eligible = false;
    changes = changes_of operation;
    preconditions = preconditions_of operation;
    postconditions = postconditions_of operation;
  })

  -- The loop of `recommend`, from a value of `counter`.
  unfoldable pub recommend :
      AuthoritativeSide
      → Dict StructuralOperation
      → ℕ
      → List LocalizationIssue
      → Result (List RepairRecommendation)
  recommend side operations counter [] = ok []
  recommend side operations counter (issue ∷ issues) = elim (proposed_operation issue) [
    | none ↦ recommend side operations counter issues
    | some operation ↦ do
      repair ← make_recommendation side operations (suc counter) operation issue
      repairs ← recommend side operations (suc counter) issues
      ok (repair ∷ repairs)
  ]

  -- `attachments.get(issue_id)`: the loop sets an entry for each recommendation, the last one stays.
  unfoldable pub attachment : ℕ → List RepairRecommendation → Option (ℕ × Float)
  attachment issue_id [] = none
  attachment issue_id (repair ∷ repairs) = elim (attachment issue_id repairs) [
    | some link ↦ some link
    | none ↦
        if same_count repair.issue_id issue_id
        then some (repair.recommendation_id, repair.repair_confidence)
        else none
  ]
