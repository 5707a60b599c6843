-- ===== src/Tree/Validation.antt =====
-- core/validation/tree_validator.py
pub mod Walks
pub mod Exactness
use structural_reconciliatio.Base.{
  ℕ, zero, suc, String, true, false, Option, none, some, List, [], ◌∷◌, ◌++◌, ◌==◌, ◌&&◌,
  if◌then◌else◌, not, is_some, contains, Dict, lookup, option_eq, sorted_items, length, collect,
  is_empty,
}
use structural_reconciliatio.Runtime.{Runtime}
use structural_reconciliatio.Errors.{
  Result, ok, raise, TreeViolation, invalid_tree, dangling_child_ref, parent_child_disagreement,
  dangling_parent_ref, missing_from_parent_children, multiple_roots, containment_cycle, TreeCode,
}
use structural_reconciliatio.Tree.{CanonicalNode, CanonicalTree}

-- How the walk along the parent links ends; `out_of_fuel` never, by `walk-ne-out_of_fuel`.
pub data Walk : Type 0 where
  ended cycle out_of_fuel : Walk

abbrev violation : TreeCode → String → TreeViolation
violation code node_ref = record { code = code; node_ref = node_ref }

module _ ⦃R : Runtime⦄ (nodes : Dict CanonicalNode) where
  -- What the loop over `node.child_refs` appends for one child.
  unfoldable pub child_violations : String → String → List TreeViolation
  unfolding option_eq
  child_violations node_ref child_ref = elim (lookup nodes child_ref) [
    | none ↦ violation dangling_child_ref node_ref ∷ []
    | some child ↦
        if option_eq child.parent_ref (some node_ref)
        then []
        else (violation parent_child_disagreement child_ref ∷ [])
  ]

  unfoldable pub parent_violations : String → Option String → List TreeViolation
  parent_violations node_ref none = []
  parent_violations node_ref (some parent_ref) = elim (lookup nodes parent_ref) [
    | none ↦ violation dangling_parent_ref node_ref ∷ []
    | some parent ↦
        if contains node_ref parent.child_refs
        then []
        else (violation missing_from_parent_children node_ref ∷ [])
  ]

  unfoldable pub link_violations : String × CanonicalNode → List TreeViolation
  unfolding child_violations parent_violations collect
  link_violations (node_ref, node) =
      collect (child_violations node_ref) node.child_refs
      ++ parent_violations node_ref node.parent_ref

  -- `while current is not None`, with the set `seen` of the nodes passed.
  unfoldable pub walk : ℕ → List String → Option String → Walk
  walk fuel seen none = ended
  walk zero seen (some current) = out_of_fuel
  walk (suc fuel) seen (some current) = elim (contains current seen) [
    | true ↦ cycle
    | false ↦ elim (lookup nodes current) [
      | none ↦ ended
      | some node ↦ walk fuel (current ∷ seen) node.parent_ref
    ]
  ]

  abbrev walk_fuel : ℕ
  walk_fuel = suc (length nodes)

  unfoldable pub cycle_violations : String × CanonicalNode → List TreeViolation
  unfolding walk
  cycle_violations (node_ref, node) = elim (walk walk_fuel [] (some node_ref)) [
    | cycle ↦ violation containment_cycle node_ref ∷ []
    | _ ↦ []
  ]

  unfoldable pub detect_cycles : List TreeViolation
  unfolding cycle_violations sorted_items collect
  detect_cycles = collect cycle_violations (sorted_items nodes)

  -- A parentless node that is not the declared root.
  unfoldable pub root_violations : String → String × CanonicalNode → List TreeViolation
  root_violations root (ref, node) =
      if not (is_some node.parent_ref) && not (ref == root)
      then (violation multiple_roots ref ∷ [])
      else []

module _ ⦃R : Runtime⦄ (tree : CanonicalTree) where
  unfoldable pub violations : List TreeViolation
  unfolding link_violations root_violations detect_cycles
  violations =
      collect (link_violations tree.nodes) (sorted_items tree.nodes)
      ++ (collect (root_violations tree.nodes tree.root_node_ref) (sorted_items tree.nodes)
          ++ detect_cycles tree.nodes)

  -- `validate_tree`
  unfoldable pub validate_tree : Result (Unit {0})
  unfolding violations
  validate_tree = if is_empty violations then ok tt else raise (invalid_tree violations)
