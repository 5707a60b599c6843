-- ===== src/Reporting.antt =====
-- reporting/contracts.py and rows.py: the table of a localization result.
pub mod Table
pub mod Redaction
pub mod Effects
use Prim.Native.String.{◌++◌ as ◌&◌}
use structural_reconciliatio.Base.{
  ℕ, zero, suc, ◌+◌, String, Bool, true, false, Option, none, some, List, [], ◌∷◌, ◌++◌, ◌==◌, Dict,
  lookup, put, contains, same_count, map, if◌then◌else◌,
}
use structural_reconciliatio.Runtime.{Runtime, Float}
use structural_reconciliatio.Tree.{CanonicalNode, CanonicalTree}
use structural_reconciliatio.Tree.Values.{Value, null, get_field}
use structural_reconciliatio.Contracts.Profiles.{evidence_value, operation_value, truthy}
use structural_reconciliatio.Contracts.Scores.{Evidence}
use structural_reconciliatio.Contracts.Matches.{MatchCandidate, state_value}
use structural_reconciliatio.Contracts.Operations.{
  StructuralOperation, SuppressedEffect, SuppressionResult, counts_by_root,
}
use structural_reconciliatio.Engine.{ReconciliationResult}
use structural_reconciliatio.Suppression.{first_of}
use structural_reconciliatio.Localization.Contracts.{
  LocalizationIssue, LocalizationValidationResult, status_value, action_value,
}
use structural_reconciliatio.Localization.Policy.{str_of}
use structural_reconciliatio.Localization.Interpretation.{or_else}
use structural_reconciliatio.Localization.Service.{count_of}
use structural_reconciliatio.Reviews.{ReviewerDecision, decision_value, is_override}

pub record ReportOptions : Type 0 where
  pub include_suppressed : Bool
  pub redact_content : Bool

-- `issue-3` and `suppressed-3`
pub data ResultId : Type 0 where
  issue_row suppressed_row : ℕ → ResultId

-- `_maybe_redact(value, options)`
unfoldable pub maybe_redact : Option String → ReportOptions → Option String
maybe_redact none options = none
maybe_redact (some value) options = if options.redact_content then some "[redacted]" else some value

-- `_decision_cell(decision)`
unfoldable pub decision_cell : ReviewerDecision → String
decision_cell decision = elim decision.overridden_status [
  | none ↦ decision_value decision.decision
  | some status ↦
      if is_override decision.decision
      then (if status == "" then decision_value decision.decision else "OVERRIDE->" & status)
      else decision_value decision.decision
]

-- `decision_by_issue.get(issue_id)`: the last decision on an issue stays.
unfoldable pub decision_for : List ReviewerDecision → ℕ → Option ReviewerDecision
decision_for [] issue_id = none
decision_for (decision ∷ decisions) issue_id = elim (decision_for decisions issue_id) [
  | some last ↦ some last
  | none ↦ if same_count decision.issue_id issue_id then some decision else none
]

-- The sum over the operation ids of an issue.
unfoldable pub count_suppressed : Dict ℕ → List String → ℕ
count_suppressed counts [] = 0
count_suppressed counts (op_id ∷ op_ids) = count_of counts op_id + count_suppressed counts op_ids

module _ ⦃R : Runtime⦄ where
  pub record ReportRow : Type 0 where
    pub job_id : String
    pub result_id : ResultId
    pub source_node_id : Option String
    pub locale_node_id : Option String
    pub source_path : Option String
    pub locale_path : Option String
    pub node_type : Option String
    pub source_label : Option String
    pub locale_label : Option String
    pub match_status : Option String
    pub localization_status : Option String
    pub operation : Option String
    pub match_confidence : Option Float
    pub operation_confidence : Option Float
    pub repair_confidence : Option Float
    pub evidence_codes : List String
    pub source_revision : Option String
    pub locale_revision : Option String
    pub root_operation_id : Option String
    pub is_suppressed : Bool
    pub suppression_rule : Option String
    pub suppressed_effect_count : ℕ
    pub recommended_action : Option String
    pub auto_fix_eligible : Bool
    pub reviewer_decision : Option String
    pub policy_exemption : Option String
    pub message : Option String

  pub record ReportTable : Type 0 where
    pub job_id : String
    pub rows : List ReportRow

  -- `_node(tree, ref)`
  unfoldable pub node_at : Option CanonicalTree → Option String → Option CanonicalNode
  node_at none ref = none
  node_at (some tree) none = none
  node_at (some tree) (some ref) = lookup tree.nodes ref

  -- `_path(node)`
  unfoldable pub path_of : Option CanonicalNode → Option String
  path_of none = none
  path_of (some node) = elim node.source_location [ none ↦ none | some location ↦ location.xpath ]

  -- `_revision(node, *keys)`: a key whose value is `None` on the identity side is passed over.
  unfoldable pub first_revision : CanonicalNode → List String → Option String
  first_revision node [] = none
  first_revision node (key ∷ keys) =
      elim (or_else (get_field node.content_properties key)
        (get_field node.identity_properties key)) [
          | none ↦ first_revision node keys
          | some value ↦ elim value [
            | null ↦ first_revision node keys
            | other ↦ some (str_of other)
          ]
        ]

  unfoldable pub revision_of : Option CanonicalNode → List String → Option String
  revision_of none keys = none
  revision_of (some node) keys = first_revision node keys

  -- `matches_by_id`
  unfoldable pub matches_by_id : Dict MatchCandidate → List MatchCandidate → Dict MatchCandidate
  matches_by_id index [] = index
  matches_by_id index (c ∷ cs) = matches_by_id (put index c.match_id c) cs

  unfoldable pub match_status_of : List String → Dict MatchCandidate → Option String
  match_status_of [] index = none
  match_status_of (match_id ∷ match_ids) index = elim (lookup index match_id) [
    | none ↦ match_status_of match_ids index
    | some c ↦ some (state_value c.state)
  ]

  -- `if code not in codes: codes.append(code)`
  unfoldable pub append_codes : List String → List Evidence → List String
  append_codes codes [] = codes
  append_codes codes (e ∷ es) =
      append_codes
        (if contains (evidence_value e.code) codes
          then codes
          else codes ++ evidence_value e.code ∷ [])
        es

  unfoldable pub collect_codes : List String → List String → Dict MatchCandidate → List String
  collect_codes codes [] index = codes
  collect_codes codes (match_id ∷ match_ids) index =
      collect_codes
        (elim (lookup index match_id) [ none ↦ codes | some c ↦ append_codes codes c.evidence ])
        match_ids index

  unfoldable pub type_of_operation : List StructuralOperation → String → Option String
  type_of_operation [] operation_id = none
  type_of_operation (op ∷ ops) operation_id =
      if op.operation_id == operation_id
      then some (operation_value op.type)
      else type_of_operation ops operation_id

  -- `_operation_type(operation_id, reconciliation)`
  unfoldable pub operation_type_of : Option String → ReconciliationResult → Option String
  operation_type_of none result = none
  operation_type_of (some operation_id) result = type_of_operation result.operations operation_id

  -- `node.node_type` of the first node that is there
  unfoldable pub primary_type : Option CanonicalNode → Option CanonicalNode → Option String
  primary_type (some node) other = some node.node_type
  primary_type none (some node) = some node.node_type
  primary_type none none = none
