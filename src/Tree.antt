-- ===== src/Tree.antt =====
-- core/contracts/tree.py: nodes, trees and the checks that their construction makes.
pub mod Values
pub mod WellFormed
pub mod Validation
use structural_reconciliatio.Base.{
  ◌≡◌, arith, ℕ, String, Bool, true, false, Option, none, some, List, [], ◌∷◌, ◌==◌, if◌then◌else◌,
  not, is_some, contains, nodup, is_empty, Dict, lookup, option_eq,
}
use structural_reconciliatio.Runtime.{Runtime}
use structural_reconciliatio.Errors.{
  Result, ok, raise, Invariant, value_error, key_error, too_short, duplicate_children, own_parent,
  own_child, empty_tree, root_missing, root_has_parent, key_mismatch, ◌>>=◌, ◌>>◌,
}
use Values.{Value, Fields, value_eq}

pub record SourceLocation : Type 0 where
  pub document_uri : Option String
  pub line : Option ℕ
  pub column : Option ℕ
  pub xpath : Option String

-- `raise ValueError(...)` where a check fails.
unfoldable pub require : Bool → Invariant → Result (Unit {0})
require true rule = ok tt
require false rule = raise (value_error rule)

-- `Field(min_length=1)`
abbrev pub non_empty : String → Bool
non_empty s = not (s == "")

-- `d[k]`
unfoldable pub subscript {ℓ} : {V : Type ℓ} → Dict V → String → Result V
subscript d k = elim (lookup d k) [ none ↦ raise (key_error k) | some v ↦ ok v ]

pub subscript-eq {ℓ} :
    {V : Type ℓ} (d : Dict V) (k : String) (v : V) → subscript d k ≡ ok v → lookup d k ≡ some v
unfolding subscript
subscript-eq d k v h = ground arith

module _ ⦃R : Runtime⦄ where
  pub record CanonicalNode : Type 0 where
    pub node_ref : String
    pub node_type : String
    pub parent_ref : Option String
    pub child_refs : List String
    pub identity_properties : Fields
    pub content_properties : Fields
    pub structural_properties : Fields
    pub extension_properties : Fields
    pub source_location : Option SourceLocation

  pub record CanonicalTree : Type 0 where
    pub contract_version : String
    pub tree_id : String
    pub root_node_ref : String
    pub nodes : Dict CanonicalNode
    pub metadata : Fields

  -- The validators of `CanonicalNode`, in their order; a node that passes is kept as it is.
  unfoldable pub validate_node : CanonicalNode → Result CanonicalNode
  unfolding require option_eq
  validate_node node = do
    require (non_empty node.node_ref) too_short
    require (non_empty node.node_type) too_short
    require (nodup node.child_refs) duplicate_children
    require (not (option_eq node.parent_ref (some node.node_ref))) own_parent
    require (not (contains node.node_ref node.child_refs)) own_child
    ok node

  -- `key != node.node_ref` for some entry
  unfoldable pub keys_agree : Dict CanonicalNode → Bool
  keys_agree [] = true
  keys_agree ((key, node) ∷ nodes) =
      let rest = keys_agree nodes in if key == node.node_ref then rest else false

  -- The validators of `CanonicalTree`.
  unfoldable pub validate_shape : CanonicalTree → Result CanonicalTree
  unfolding require subscript keys_agree is_some
  validate_shape tree = do
    require (non_empty tree.contract_version) too_short
    require (non_empty tree.tree_id) too_short
    require (non_empty tree.root_node_ref) too_short
    require (not (is_empty tree.nodes)) empty_tree
    require (is_some (lookup tree.nodes tree.root_node_ref)) root_missing
    root ← subscript tree.nodes tree.root_node_ref
    require (not (is_some root.parent_ref)) root_has_parent
    require (keys_agree tree.nodes) key_mismatch
    ok tree

  unfoldable pub child_nodes_of : Dict CanonicalNode → List String → Result (List CanonicalNode)
  unfolding subscript
  child_nodes_of nodes [] = ok []
  child_nodes_of nodes (ref ∷ refs) = do
    node ← subscript nodes ref
    rest ← child_nodes_of nodes refs
    ok (node ∷ rest)

  -- `tree.child_nodes(node_ref)`
  unfoldable pub child_nodes : CanonicalTree → String → Result (List CanonicalNode)
  unfolding child_nodes_of
  child_nodes tree node_ref = do
    node ← subscript tree.nodes node_ref
    child_nodes_of tree.nodes node.child_refs
