-- ===== src/Suppression/Defects.antt =====
-- No independent defect inside a suppressed move is lost.
use structural_reconciliatio.Base.{◌≡◌, false, true, String, List, contains}
use mathlib.Core.List.{Memᴰ}
use structural_reconciliatio.Runtime.{Runtime}
use structural_reconciliatio.Tree.{CanonicalTree}
use structural_reconciliatio.Contracts.Profiles.{SuppressionProfile, op_update, op_move}
use structural_reconciliatio.Contracts.Alignments.{AlignmentResult}
use structural_reconciliatio.Contracts.Operations.{
  StructuralOperation, SuppressedEffect, IndependentDefectCheck, passed, not_applicable, has_type,
}

module _ ⦃R : Runtime⦄ (source : CanonicalTree) (operations : List StructuralOperation)
    (alignment : AlignmentResult) (profile : SuppressionProfile) where
  -- Every UPDATE at one of the references is among the retained ones.
  abbrev Retained : List String → List String → Type 0
  Retained retained refs =
      (op : StructuralOperation)
      → Memᴰ op operations
      → has_type op_update op ≡ true
      → (ref : String) → contains ref op.source_node_refs ≡ true
      → contains ref refs ≡ true
      → contains ref retained ≡ true

  -- The effect of a move was checked for defects, which are retained; no other effect was.
  data Checked (retained : List String) (effect : SuppressedEffect) : Type 0 where
    of_move :
        (root : StructuralOperation)
        → Memᴰ root operations
        → effect.root_operation_id ≡ root.operation_id
        → has_type op_move root ≡ true
        → effect.independent_defect_check ≡ passed
        → Retained retained effect.affected_node_refs
        → Checked retained effect
    of_other :
        (root : StructuralOperation)
        → Memᴰ root operations
        → effect.root_operation_id ≡ root.operation_id
        → has_type op_move root ≡ false
        → effect.independent_defect_check ≡ not_applicable
        → Checked retained effect

  abbrev Found : Type 0
  Found = List String × List String × IndependentDefectCheck
