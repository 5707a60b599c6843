-- ===== src/Contracts/Operations.antt =====
-- core/contracts/operations.py, causality.py and suppression.py.
use structural_reconciliatio.Base.{
  ℕ, suc, String, Bool, true, false, Option, none, some, List, [], ◌∷◌, ◌==◌, ◌&&◌, ◌||◌, not,
  is_empty, leb, length, filter, Dict, lookup, put, option_eq,
}
use structural_reconciliatio.Runtime.{Runtime, Float}
use structural_reconciliatio.Errors.{
  Result, ok, reorder_too_few, move_same_parent, move_without_match, operation_without_match,
  retained_defect_suppressed, self_link, too_short, ◌>>◌,
}
use structural_reconciliatio.Tree.{require, non_empty}
use structural_reconciliatio.Contracts.Profiles.{
  OperationType, op_match, op_update, op_move, op_reorder, same_operation,
}
use structural_reconciliatio.Contracts.Scores.{Confidence}

pub data IndependentDefectCheck : Type 0 where
  passed defect_retained not_applicable : IndependentDefectCheck

unfoldable pub is_retained : IndependentDefectCheck → Bool
is_retained defect_retained = true
is_retained _ = false

pub record CausalLink : Type 0 where
  pub root_operation_id : String
  pub derived_operation_id : String

unfoldable pub validate_link : CausalLink → Result CausalLink
validate_link link = do
  require (not (link.root_operation_id == link.derived_operation_id)) self_link
  ok link

module _ ⦃R : Runtime⦄ where
  pub record StructuralOperation : Type 0 where
    pub operation_id : String
    pub type : OperationType
    pub source_node_refs : List String
    pub target_node_refs : List String
    pub from_parent_ref : Option String
    pub to_parent_ref : Option String
    pub confidence : Confidence
    pub match_ids : List String
    pub evidence_codes : List String
    pub preconditions : List String

  abbrev pub has_type : OperationType → StructuralOperation → Bool
  has_type type op = same_operation op.type type

  unfoldable pub validate_operation : StructuralOperation → Result StructuralOperation
  validate_operation op = do
    require (not (has_type op_reorder op && not (leb 2 (length op.source_node_refs))))
        reorder_too_few
    require (not (has_type op_move op && option_eq op.from_parent_ref op.to_parent_ref))
        move_same_parent
    require (not (has_type op_move op && is_empty op.match_ids)) move_without_match
    require (not ((has_type op_match op || has_type op_update op) && is_empty op.match_ids))
        operation_without_match
    ok op

  -- `operations.of_type(type)`
  unfoldable pub of_type : OperationType → List StructuralOperation → List StructuralOperation
  of_type type operations = filter (has_type type) operations

  pub record CandidateExplanation : Type 0 where
    pub explanation_id : String
    pub root_operation_ids : List String
    pub links : List CausalLink
    pub objective_score : Float
    pub confidence : Confidence

  pub record CausalOperationGraph : Type 0 where
    pub selected : CandidateExplanation
    pub alternatives : List CandidateExplanation

  -- `graph.is_ambiguous`
  unfoldable pub graph_is_ambiguous : CausalOperationGraph → Bool
  graph_is_ambiguous graph = not (is_empty graph.alternatives)

  pub record SuppressedEffect : Type 0 where
    pub effect_id : ℕ
    pub root_operation_id : String
    pub suppression_rule_id : String
    pub category : String
    pub affected_node_refs : List String
    pub confidence : Confidence
    pub independent_defect_check : IndependentDefectCheck

  unfoldable pub validate_effect : SuppressedEffect → Result SuppressedEffect
  validate_effect effect = do
    require (non_empty effect.root_operation_id) too_short
    require (non_empty effect.suppression_rule_id) too_short
    require (non_empty effect.category) too_short
    require (not (is_retained effect.independent_defect_check)) retained_defect_suppressed
    ok effect

  pub record SuppressionResult : Type 0 where
    pub suppressed_effects : List SuppressedEffect
    pub retained_defect_node_refs : List String

  unfoldable pub count_effects : Dict ℕ → List SuppressedEffect → Dict ℕ
  count_effects counts [] = counts
  count_effects counts (effect ∷ effects) =
      count_effects
        (put counts effect.root_operation_id
          (elim (lookup counts effect.root_operation_id) [ none ↦ 1 | some n ↦ suc n ]))
        effects

  -- `result.counts_by_root()`
  unfoldable pub counts_by_root : SuppressionResult → Dict ℕ
  counts_by_root result = count_effects [] result.suppressed_effects
