-- ===== src/Limits.antt =====
-- core/metrics/calculator.py: the depth of a tree and the limits checked before matching.
pub mod Traversal
pub mod Deepest
use structural_reconciliatio.Base.{
  ℕ, zero, suc, ◌+◌, max, String, Option, none, some, List, [], ◌∷◌, ltb, length, if◌then◌else◌,
}
use structural_reconciliatio.Runtime.{Runtime}
use structural_reconciliatio.Errors.{
  Result, ok, raise, resource_limit_exceeded, LimitKind, total_nodes, depth, fuel_spent, ◌>>=◌,
  ◌>>◌,
}
use structural_reconciliatio.Tree.{CanonicalTree, subscript}

-- `core/contracts/commands.py`; the two further limits of the source are read nowhere.
pub record ResourceLimits : Type 0 where
  pub max_node_count : Option ℕ
  pub max_tree_depth : Option ℕ

-- `for child in child_refs: stack.append((child, d))`, the top of the stack in front
unfoldable pub push : List (String × ℕ) → ℕ → List String → List (String × ℕ)
push stack d [] = stack
push stack d (child ∷ children) = push ((child, d) ∷ stack) d children

module _ ⦃R : Runtime⦄ where
  -- The loop of `tree_depth`.
  unfoldable pub depth_loop : CanonicalTree → ℕ → ℕ → List (String × ℕ) → Result ℕ
  depth_loop tree fuel deepest [] = ok deepest
  depth_loop tree zero deepest (top ∷ stack) = raise fuel_spent
  depth_loop tree (suc fuel) deepest ((node_ref, d) ∷ stack) = do
    node ← subscript tree.nodes node_ref
    depth_loop tree fuel (max deepest d) (push stack (suc d) node.child_refs)

  -- In a well-formed tree the loop takes each node once.
  unfoldable pub tree_depth : CanonicalTree → Result ℕ
  tree_depth tree = depth_loop tree (length tree.nodes) 0 ((tree.root_node_ref, 1) ∷ [])

  -- `if limit is not None and value > limit: raise`
  unfoldable pub check_limit : LimitKind → Option ℕ → ℕ → Result (Unit {0})
  check_limit kind none value = ok tt
  check_limit kind (some limit) value =
      if ltb limit value then raise (resource_limit_exceeded kind value limit) else ok tt

  unfoldable pub check_depth : Option ℕ → CanonicalTree → CanonicalTree → Result (Unit {0})
  check_depth none source target = ok tt
  check_depth (some limit) source target = do
    s ← tree_depth source
    t ← tree_depth target
    check_limit depth (some limit) (max s t)

  unfoldable pub check_pre_limits :
      CanonicalTree → CanonicalTree → ResourceLimits → Result (Unit {0})
  check_pre_limits source target limits = do
    check_limit total_nodes limits.max_node_count (length source.nodes + length target.nodes)
    check_depth limits.max_tree_depth source target
