-- ===== src/Classification/Correspondence.antt =====
-- core/classification/classifiers/match.py, move.py and reorder.py.
use Prim.Native.String.{◌++◌ as ◌&◌}
use structural_reconciliatio.Base.{
  String, Bool, Option, none, some, List, [], ◌∷◌, ◌&&◌, not, collect, filter, leb, length,
  if◌then◌else◌,
}
use structural_reconciliatio.Runtime.{Runtime, float_one}
use structural_reconciliatio.Errors.{Result, ok, raise, assertion_error, traverse, ◌>>=◌}
use structural_reconciliatio.Tree.{subscript, non_empty}
use structural_reconciliatio.Tree.Values.{fields_eq}
use structural_reconciliatio.Contracts.Profiles.{
  OperationType, op_match, op_update, op_move, op_reorder, is_enabled,
}
use structural_reconciliatio.Contracts.Scores.{plain_confidence}
use structural_reconciliatio.Contracts.Matches.{confirmed_target_for}
use structural_reconciliatio.Contracts.Alignments.{AlignedPair, AlignedRegion, is_aligned}
use structural_reconciliatio.Contracts.Operations.{StructuralOperation, validate_operation}
use structural_reconciliatio.Matching.Candidates.{match_id}
use structural_reconciliatio.Matching.Ambiguity.{Edge}
use structural_reconciliatio.Classification.Context.{
  ClassificationContext, move_pairs, confirmed_confidence,
}

module _ ⦃R : Runtime⦄ (ctx : ClassificationContext) where
  unfoldable pub match_or_update : Bool → OperationType
  match_or_update changed = if changed then op_update else op_match

  unfoldable pub operation_word : Bool → String
  operation_word changed = if changed then "update" else "match"

  unfoldable pub correspondence_of :
      Option String → Option String → Result (List StructuralOperation)
  correspondence_of (some sc) (some tc) = do
    source_node ← subscript ctx.source.nodes sc
    target_node ← subscript ctx.target.nodes tc
    let changed = not (fields_eq source_node.content_properties target_node.content_properties)
    if is_enabled ctx.profile (match_or_update changed)
        then (do
          confidence ← plain_confidence (confirmed_confidence ctx sc tc)
          op ← validate_operation (record {
            operation_id = ("op:" & operation_word changed) & (":" & (sc & ("->" & tc)));
            type = match_or_update changed;
            source_node_refs = sc ∷ [];
            target_node_refs = tc ∷ [];
            from_parent_ref = none;
            to_parent_ref = none;
            confidence = confidence;
            match_ids = match_id sc tc ∷ [];
            evidence_codes = (if changed then "CONTENT_CHANGED" else "IDENTITY_PRESERVED") ∷ [];
            preconditions = [];
          })
          ok (op ∷ []))
        else ok []
  correspondence_of _ _ = raise assertion_error

  unfoldable pub correspondence_of_pair : AlignedPair → Result (List StructuralOperation)
  correspondence_of_pair pair =
      if is_aligned pair.kind
      then correspondence_of pair.source_node_ref pair.target_node_ref
      else ok []

  unfoldable pub correspondence_of_region : AlignedRegion → Result (List StructuralOperation)
  correspondence_of_region region = do
    ops ← traverse correspondence_of_pair region.pairs
    ok (collect (λ o. o) ops)

  unfoldable pub classify_correspondence : Result (List StructuralOperation)
  classify_correspondence = do
    ops ← traverse correspondence_of_region ctx.alignment.regions
    ok (collect (λ o. o) ops)

  unfoldable pub expected_parent : Option String → Option String
  expected_parent none = none
  expected_parent (some source_parent) = confirmed_target_for ctx.graph source_parent

  unfoldable pub move_operation : Edge → Result StructuralOperation
  move_operation (sc, tc) = do
    target_node ← subscript ctx.target.nodes tc
    source_node ← subscript ctx.source.nodes sc
    confidence ← plain_confidence (confirmed_confidence ctx sc tc)
    validate_operation (record {
      operation_id = "op:move:" & (sc & ("->" & tc));
      type = op_move;
      source_node_refs = sc ∷ [];
      target_node_refs = tc ∷ [];
      from_parent_ref = expected_parent source_node.parent_ref;
      to_parent_ref = target_node.parent_ref;
      confidence = confidence;
      match_ids = match_id sc tc ∷ [];
      evidence_codes = "CONFIRMED_IDENTITY" ∷ "PARENT_CHANGED" ∷ [];
      preconditions = "SOURCE_AND_TARGET_MATCH_REMAINS_VALID" ∷ [];
    })

  unfoldable pub classify_moves : Result (List StructuralOperation)
  classify_moves =
      if is_enabled ctx.profile op_move
      then (do moves ← move_pairs ctx; traverse move_operation moves)
      else ok []

  -- `tuple(ref for p in matched if ref)`
  unfoldable pub present_refs : (AlignedPair → Option String) → List AlignedPair → List String
  present_refs side [] = []
  present_refs side (p ∷ ps) =
      let rest = present_refs side ps in
      elim (side p) [ none ↦ rest | some ref ↦ (if non_empty ref then ref ∷ rest else rest) ]

  unfoldable pub present_match_ids : List AlignedPair → List String
  present_match_ids [] = []
  present_match_ids (p ∷ ps) =
      let rest = present_match_ids ps in
      elim p.source_node_ref [
        | none ↦ rest
        | some sc ↦ elim p.target_node_ref [
          | none ↦ rest
          | some tc ↦ (if non_empty sc && non_empty tc then match_id sc tc ∷ rest else rest)
        ]
      ]

  -- An f-string shows `None` for a parent that is not there.
  unfoldable pub shown : Option String → String
  shown none = "None"
  shown (some s) = s

  unfoldable pub reorder_of_region : AlignedRegion → Result (List StructuralOperation)
  reorder_of_region region =
      let matched = filter (λ (p : AlignedPair). is_aligned p.kind) region.pairs in
      if (region.ordered && region.order_changed) && leb 2 (length matched)
      then (do
        confidence ← plain_confidence float_one
        op ← validate_operation (record {
          operation_id = "op:reorder:" & shown region.source_parent_ref;
          type = op_reorder;
          source_node_refs = present_refs (λ p. p.source_node_ref) matched;
          target_node_refs = present_refs (λ p. p.target_node_ref) matched;
          from_parent_ref = none;
          to_parent_ref = none;
          confidence = confidence;
          match_ids = present_match_ids matched;
          evidence_codes = "SIBLING_ORDER_CHANGED" ∷ [];
          preconditions = [];
        })
        ok (op ∷ []))
      else ok []

  unfoldable pub classify_reorders : Result (List StructuralOperation)
  classify_reorders =
      if is_enabled ctx.profile op_reorder
      then (do ops ← traverse reorder_of_region ctx.alignment.regions; ok (collect (λ o. o) ops))
      else ok []
