-- ===== src/Classification/Presence.antt =====
-- core/classification/classifiers/insert_delete.py
pub mod Settled
use Prim.Native.String.{◌++◌ as ◌&◌}
use structural_reconciliatio.Base.{
  String, Bool, true, false, Option, none, some, List, [], ◌∷◌, ◌++◌, ◌&&◌, ◌||◌, not, collect,
  contains, map, if◌then◌else◌,
}
use structural_reconciliatio.Runtime.{Runtime, float_one}
use structural_reconciliatio.Errors.{Result, ok, raise, assertion_error, traverse, ◌>>=◌, ◌>>◌}
use structural_reconciliatio.Contracts.Profiles.{OperationType, op_insert, op_delete, is_enabled}
use structural_reconciliatio.Contracts.Scores.{plain_confidence}
use structural_reconciliatio.Contracts.Alignments.{
  AlignedPair, AlignedRegion, AlignmentEdgeKind, aligned, source_only, target_only,
  unresolved_source, unresolved_target, is_unresolved, is_aligned,
}
use structural_reconciliatio.Contracts.Operations.{StructuralOperation, validate_operation}
use structural_reconciliatio.Matching.Ambiguity.{Edge}
use structural_reconciliatio.Classification.Context.{
  ClassificationContext, move_pairs, presence_suppressed_region, presence_suppressed_pair,
}

unfoldable pub evidence_codes : String → Bool → List String
evidence_codes side_code unresolved =
    if unresolved
    then side_code ∷ "UNRESOLVED_CORRESPONDENCE_FORCED_BY_POLICY" ∷ []
    else side_code ∷ []

-- `pair.kind in (SOURCE_ONLY, UNRESOLVED_SOURCE)`
unfoldable pub is_source_side : AlignmentEdgeKind → Bool
is_source_side source_only = true
is_source_side unresolved_source = true
is_source_side _ = false

module _ ⦃R : Runtime⦄ where
  unfoldable pub delete_operation : String → Bool → Result StructuralOperation
  delete_operation sc unresolved = do
    confidence ← plain_confidence float_one
    validate_operation (record {
      operation_id = "op:delete:" & sc;
      type = op_delete;
      source_node_refs = sc ∷ [];
      target_node_refs = [];
      from_parent_ref = none;
      to_parent_ref = none;
      confidence = confidence;
      match_ids = [];
      evidence_codes = evidence_codes "SOURCE_ONLY" unresolved;
      preconditions = [];
    })

  unfoldable pub insert_operation : String → Bool → Result StructuralOperation
  insert_operation tc unresolved = do
    confidence ← plain_confidence float_one
    validate_operation (record {
      operation_id = "op:insert:" & tc;
      type = op_insert;
      source_node_refs = [];
      target_node_refs = tc ∷ [];
      from_parent_ref = none;
      to_parent_ref = none;
      confidence = confidence;
      match_ids = [];
      evidence_codes = evidence_codes "TARGET_ONLY" unresolved;
      preconditions = [];
    })

module _ ⦃R : Runtime⦄ (ctx : ClassificationContext)
    (moved_sources moved_targets : List String) where
  -- `assert ref is not None`, and the two tests before a presence operation is made.
  unfoldable pub source_absence : Option String → Bool → Result (List StructuralOperation)
  source_absence none unresolved = raise assertion_error
  source_absence (some sc) unresolved =
      if contains sc moved_sources || not (is_enabled ctx.profile op_delete)
      then ok []
      else (do op ← delete_operation sc unresolved; ok (op ∷ []))

  unfoldable pub target_absence : Option String → Bool → Result (List StructuralOperation)
  target_absence none unresolved = raise assertion_error
  target_absence (some tc) unresolved =
      if contains tc moved_targets || not (is_enabled ctx.profile op_insert)
      then ok []
      else (do op ← insert_operation tc unresolved; ok (op ∷ []))

  -- The body of the loop over the pairs of a region.
  unfoldable pub presence_of_pair : AlignedPair → Result (List StructuralOperation)
  presence_of_pair pair =
      if is_aligned pair.kind || presence_suppressed_pair ctx pair
      then ok []
      else if is_source_side pair.kind
      then source_absence pair.source_node_ref (is_unresolved pair)
      else target_absence pair.target_node_ref (is_unresolved pair)

  unfoldable pub presence_of_region : AlignedRegion → Result (List StructuralOperation)
  presence_of_region region =
      if presence_suppressed_region ctx region
      then ok []
      else (do ops ← traverse presence_of_pair region.pairs; ok (collect (λ o. o) ops))

module _ ⦃R : Runtime⦄ where
  unfoldable pub classify_presence : ClassificationContext → Result (List StructuralOperation)
  classify_presence ctx = do
    moves ← move_pairs ctx
    ops ←
        traverse
          (presence_of_region ctx (map (λ (e : Edge). e.0) moves) (map (λ (e : Edge). e.1) moves))
          ctx.alignment.regions
    ok (collect (λ o. o) ops)
