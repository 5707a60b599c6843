-- ===== src/Causality.antt =====
-- core/causality: objective.py and analyzer.py.
use structural_reconciliatio.Base.{
  String, List, [], ◌∷◌, not, filter, is_empty, length, map, if◌then◌else◌,
}
use structural_reconciliatio.Runtime.{Runtime, Float, float_zero, float_one}
use structural_reconciliatio.Errors.{Result, ok, ◌>>=◌}
use structural_reconciliatio.Contracts.Profiles.{OperationType, op_match, op_move, op_reorder}
use structural_reconciliatio.Contracts.Scores.{plain_confidence}
use structural_reconciliatio.Contracts.Matches.{MatchGraph, ambiguous_candidates}
use structural_reconciliatio.Contracts.Operations.{
  StructuralOperation, CandidateExplanation, CausalOperationGraph, has_type,
}

module _ ⦃R : Runtime⦄ where
  -- `DEFAULT_OPERATION_COST.get(type, 1.0)`
  unfoldable pub operation_cost : OperationType → Float
  operation_cost op_match = float_zero
  operation_cost op_move = R.decimal 15 1
  operation_cost op_reorder = R.decimal 12 1
  operation_cost _ = float_one

  unfoldable pub objective_score : List StructuralOperation → Float
  objective_score operations =
      let plausibility =
        R.sum (map (λ (op : StructuralOperation). op.confidence.value) operations) in
      let cost = R.sum (map (λ (op : StructuralOperation). operation_cost op.type) operations) in
      R.round6 (R.sub plausibility cost)

  -- The operations that are not matches: the roots of the explanation.
  unfoldable pub changed_operations : List StructuralOperation → List StructuralOperation
  changed_operations operations = filter (λ op. not (has_type op_match op)) operations

  unfoldable pub root_ids : List StructuralOperation → List String
  root_ids operations =
      map (λ (op : StructuralOperation). op.operation_id) (changed_operations operations)

  unfoldable pub confidence_value : List StructuralOperation → Float
  confidence_value operations =
      let changed = changed_operations operations in
      if is_empty changed
      then float_one
      else R.div (R.sum (map (λ (op : StructuralOperation). op.confidence.value) changed))
          (R.of_count (length changed))

  unfoldable pub explanation : String → List StructuralOperation → Result CandidateExplanation
  explanation explanation_id operations = do
    confidence ← plain_confidence (R.round6 (confidence_value operations))
    ok (record {
      explanation_id = explanation_id;
      root_operation_ids = root_ids operations;
      links = [];
      objective_score = objective_score operations;
      confidence = confidence;
    })

  unfoldable pub alternatives_for :
      MatchGraph → List StructuralOperation → Result (List CandidateExplanation)
  alternatives_for graph operations = if is_empty (ambiguous_candidates graph) then ok [] else (do
    alternative ← explanation "explanation-ambiguous-alternative" operations
    ok (alternative ∷ []))

  -- The graph has no links, so its check for a causal cycle has nothing to walk.
  unfoldable pub analyze : List StructuralOperation → MatchGraph → Result CausalOperationGraph
  analyze operations graph = do
    selected ← explanation "explanation-primary" operations
    alternatives ← alternatives_for graph operations
    ok (record { selected = selected; alternatives = alternatives })
