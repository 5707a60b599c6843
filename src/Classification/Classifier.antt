-- ===== src/Classification/Classifier.antt =====
-- core/classification/classifier.py and the registry of registry.py.
use structural_reconciliatio.Base.{
  String, Bool, List, [], ◌∷◌, ◌++◌, ◌==◌, any, sort, text_le, collect, if◌then◌else◌,
}
use structural_reconciliatio.Runtime.{Runtime}
use structural_reconciliatio.Errors.{
  Result, ok, raise, value_error, already_registered, traverse, ◌>>=◌,
}
use structural_reconciliatio.Tree.{CanonicalTree}
use structural_reconciliatio.Contracts.Profiles.{OperationProfile, operation_value}
use structural_reconciliatio.Contracts.Matches.{MatchGraph}
use structural_reconciliatio.Contracts.Alignments.{AlignmentResult}
use structural_reconciliatio.Contracts.Operations.{StructuralOperation}
use structural_reconciliatio.Classification.Context.{ClassificationContext}
use structural_reconciliatio.Classification.Presence.{classify_presence}
use structural_reconciliatio.Classification.Correspondence.{
  classify_correspondence, classify_moves, classify_reorders,
}

module _ ⦃R : Runtime⦄ where
  pub record OperationClassifier : Type 0 where
    pub name : String
    pub classify : ClassificationContext → Result (List StructuralOperation)

  -- `registry.register(classifier)`
  unfoldable pub register :
      List OperationClassifier → OperationClassifier → Result (List OperationClassifier)
  register registry classifier =
      if any (λ (c : OperationClassifier). c.name == classifier.name) registry
      then raise (value_error already_registered)
      else ok (registry ++ classifier ∷ [])

  unfoldable pub default_registry : Result (List OperationClassifier)
  default_registry = do
    r₁ ← register [] (record { name = "match_update"; classify = classify_correspondence })
    r₂ ← register r₁ (record { name = "insert_delete"; classify = classify_presence })
    r₃ ← register r₂ (record { name = "move"; classify = classify_moves })
    register r₃ (record { name = "reorder"; classify = classify_reorders })

  -- The sort key `(op.type.value, op.operation_id)`.
  unfoldable pub operation_le : StructuralOperation → StructuralOperation → Bool
  operation_le a b =
      if operation_value a.type == operation_value b.type
      then text_le a.operation_id b.operation_id
      else text_le (operation_value a.type) (operation_value b.type)

  unfoldable pub run_classifiers :
      List OperationClassifier → ClassificationContext → Result (List StructuralOperation)
  run_classifiers registry ctx = do
    ops ← traverse (λ (c : OperationClassifier). c.classify ctx) registry
    ok (sort operation_le (collect (λ o. o) ops))

  -- `StructuralOperationClassifierService().classify(...)`
  unfoldable pub classify :
      CanonicalTree
      → CanonicalTree
      → MatchGraph
      → AlignmentResult
      → OperationProfile
      → Result (List StructuralOperation)
  classify source target graph alignment profile = do
    registry ← default_registry
    run_classifiers registry (record {
      source = source;
      target = target;
      graph = graph;
      alignment = alignment;
      profile = profile;
    })
