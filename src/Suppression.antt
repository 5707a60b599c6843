-- ===== src/Suppression.antt =====
-- core/suppression: service.py and independent_defect.py.
pub mod Rounds
pub mod Justified
pub mod Defects
use structural_reconciliatio.Base.{
  ℕ, zero, suc, String, Bool, true, false, Option, none, some, List, [], ◌∷◌, ◌++◌, ◌&&◌, ◌||◌, not,
  contains, any, filter, collect, map, is_empty, length, leb, sort_texts, if◌then◌else◌,
}
use structural_reconciliatio.Runtime.{Runtime, lt}
use structural_reconciliatio.Errors.{Result, ok, raise, index_error, fuel_spent, ◌>>=◌, ◌>>◌}
use structural_reconciliatio.Tree.{CanonicalTree, CanonicalNode, subscript, non_empty}
use structural_reconciliatio.Contracts.Profiles.{
  OperationType, op_match, op_insert, op_delete, op_update, op_move, op_reorder, SuppressionProfile,
  SuppressionRule, rules_for,
}
use structural_reconciliatio.Contracts.Scores.{Confidence, plain_confidence}
use structural_reconciliatio.Contracts.Alignments.{
  AlignedPair, AlignedRegion, AlignmentResult, is_aligned,
}
use structural_reconciliatio.Contracts.Operations.{
  StructuralOperation, has_type, SuppressedEffect, SuppressionResult, IndependentDefectCheck,
  passed, not_applicable, validate_effect,
}

-- `s.add(x)` and `s.update(xs)` of a set
unfoldable pub add_member : List String → String → List String
add_member xs x = if contains x xs then xs else x ∷ xs

unfoldable pub add_members : List String → List String → List String
add_members xs [] = xs
add_members xs (y ∷ ys) = add_members (add_member xs y) ys

-- `stack.extend(refs)`, the top of the stack in front
unfoldable pub extend : List String → List String → List String
extend stack [] = stack
extend stack (ref ∷ refs) = extend (ref ∷ stack) refs

-- `refs[0] if refs else None`
unfoldable pub first_of : List String → Option String
first_of [] = none
first_of (ref ∷ refs) = some ref

unfoldable pub is_member : Option String → List String → Bool
is_member none refs = false
is_member (some ref) refs = contains ref refs

-- The references that are there.
unfoldable pub present_refs : List (Option String) → List String
present_refs [] = []
present_refs (none ∷ refs) = present_refs refs
present_refs (some ref ∷ refs) = ref ∷ present_refs refs

abbrev pub aligned_pairs : AlignedRegion → List AlignedPair
aligned_pairs region = filter (λ (p : AlignedPair). is_aligned p.kind) region.pairs

-- The targets of the aligned pairs of a region.
unfoldable pub matched_targets : AlignedRegion → List String
matched_targets region =
    present_refs (map (λ (p : AlignedPair). p.target_node_ref) (aligned_pairs region))

-- `[ref for ... if ref]` on one side of all pairs, where the empty text counts as none
unfoldable pub side_children : (AlignedPair → Option String) → AlignedRegion → List String
side_children side region = filter non_empty (present_refs (map side region.pairs))

module _ ⦃R : Runtime⦄ where
  unfoldable pub descend : CanonicalTree → ℕ → List String → List String → Result (List String)
  descend tree fuel result [] = ok result
  descend tree zero result (current ∷ stack) = raise fuel_spent
  descend tree (suc fuel) result (current ∷ stack) = do
    node ← subscript tree.nodes current
    descend tree fuel (add_member result current) (extend stack node.child_refs)

  -- `_descendants`: in a well-formed tree the loop takes each node once.
  unfoldable pub descendants : CanonicalTree → String → Result (List String)
  descendants tree node_ref = do
    node ← subscript tree.nodes node_ref
    descend tree (length tree.nodes) [] (extend [] node.child_refs)

  -- The affected references at which an UPDATE stands.
  unfoldable pub find_independent_defects : List String → List StructuralOperation → List String
  find_independent_defects affected [] = []
  find_independent_defects affected (op ∷ ops) =
      let rest = find_independent_defects affected ops in
      if has_type op_update op
      then add_members rest (filter (λ ref. contains ref affected) op.source_node_refs)
      else rest

  -- Whether the operation lies in the region, for `_downstream_siblings`.
  unfoldable pub concerns : StructuralOperation → AlignedRegion → Bool
  concerns op region =
      if has_type op_insert op
      then is_member (first_of op.target_node_refs) (side_children (λ p. p.target_node_ref) region)
      else if has_type op_delete op
      then is_member (first_of op.source_node_refs) (side_children (λ p. p.source_node_ref) region)
      else has_type op_reorder op
        && (is_member region.source_parent_ref op.source_node_refs
            || any (λ (p : AlignedPair). is_member p.source_node_ref op.source_node_refs)
                (aligned_pairs region))

  unfoldable pub downstream_siblings : StructuralOperation → List AlignedRegion → List String
  downstream_siblings op [] = []
  downstream_siblings op (region ∷ regions) =
      let rest = downstream_siblings op regions in
      if leb 1 (length (aligned_pairs region)) && concerns op region
      then add_members rest (matched_targets region)
      else rest

  unfoldable pub make_effect :
      ℕ
      → StructuralOperation
      → SuppressionRule
      → List String
      → IndependentDefectCheck
      → Result SuppressedEffect
  make_effect counter op rule affected check = do
    confidence ← plain_confidence op.confidence.value
    validate_effect (record {
      effect_id = counter;
      root_operation_id = op.operation_id;
      suppression_rule_id = rule.rule_id;
      category = rule.effect_category;
      affected_node_refs = sort_texts affected;
      confidence = confidence;
      independent_defect_check = check;
    })

  -- `op.source_node_refs[0]`
  unfoldable pub moved_source : StructuralOperation → Result String
  moved_source op = elim op.source_node_refs [ [] ↦ raise index_error | ref ∷ refs ↦ ok ref ]

  -- The variables of the loops: the effects in order, and the set of the retained defects.
  pub record Suppressing : Type 0 where
    pub effects : List SuppressedEffect
    pub retained : List String

module _ ⦃R : Runtime⦄ (source : CanonicalTree) (operations : List StructuralOperation)
    (alignment : AlignmentResult) where
  -- The nodes that the root operation explains, the defects among them and the outcome recorded.
  unfoldable pub affected_by :
      StructuralOperation → Result (List String × List String × IndependentDefectCheck)
  affected_by op =
      if has_type op_move op
      then (do
        moved ← moved_source op
        affected ← descendants source moved
        ok (affected, find_independent_defects affected operations, passed))
      else ok (downstream_siblings op alignment.regions, [], not_applicable)

  -- The body of the inner loop. The counter is one more than the number of effects.
  unfoldable pub apply_rule :
      StructuralOperation → SuppressionRule → Suppressing → Result Suppressing
  apply_rule op rule state = if lt op.confidence.value rule.threshold then ok state else (do
    found ← affected_by op
    if is_empty found.0 then ok state else (do
      effect ← make_effect (suc (length state.effects)) op rule found.0 found.2
      ok (record {
        effects = state.effects ++ effect ∷ [];
        retained = add_members state.retained found.1;
      })))

  unfoldable pub apply_rules :
      StructuralOperation → List SuppressionRule → Suppressing → Result Suppressing
  apply_rules op [] state = ok state
  apply_rules op (rule ∷ rules) state = do
    next ← apply_rule op rule state
    apply_rules op rules next

  unfoldable pub suppress_all :
      SuppressionProfile → List StructuralOperation → Suppressing → Result Suppressing
  suppress_all profile [] state = ok state
  suppress_all profile (op ∷ ops) state = do
    next ← apply_rules op (rules_for profile op.type) state
    suppress_all profile ops next

  unfoldable pub suppress : SuppressionProfile → Result SuppressionResult
  suppress profile = do
    final ← suppress_all profile operations (record { effects = []; retained = [] })
    ok (record {
      suppressed_effects = final.effects;
      retained_defect_node_refs = sort_texts final.retained;
    })
