-- ===== src/Tree/Validation/Exactness.antt =====
-- `validate_tree` accepts exactly the well-formed trees.
use structural_reconciliatio.Base.{
  ℕ, suc, String, ◌≡◌, ◌↔◌, refl, true, Option, none, some, List, [], ◌∷◌, ◌++◌, is_some, is_empty,
  contains, Dict, lookup, length, option_eq, eq→path, eq_refl, Bool-cases, Option-cases, inl, inr,
  arith, collect, collect_nil, nil_collect, append_nil_left, append_nil_right, sorted_items,
  sorted_items_All, All-sorted_items, contains_of_All, All-of_contains,
}
use structural_reconciliatio.Runtime.{Runtime}
use structural_reconciliatio.Errors.{ok}
use structural_reconciliatio.Tree.{CanonicalNode, CanonicalTree}
use structural_reconciliatio.Tree.WellFormed.{Depth, WellFormed}
use structural_reconciliatio.Tree.Validation.{
  walk, ended, child_violations, parent_violations, link_violations, cycle_violations,
  detect_cycles, root_violations, violations, validate_tree,
}
use structural_reconciliatio.Tree.Validation.Walks.{
  walk-ne-out_of_fuel, Depth-of_ended, Depth-ne-cycle,
}

option_eq→path : (o : Option String) (s : String) → option_eq o (some s) ≡ true → o ≡ some s
unfolding option_eq
option_eq→path none s h = cc
option_eq→path (some t) s h = cc (eq→path t s h)

option_eq_refl : (s : String) → option_eq (some s) (some s) ≡ true
unfolding option_eq
option_eq_refl s = eq_refl s

module _ ⦃R : Runtime⦄ (nodes : Dict CanonicalNode) where
  child_of_nil :
      (r c : String)
      → child_violations nodes r c ≡ []
      → (m : CanonicalNode) × (lookup nodes c ≡ some m) × (m.parent_ref ≡ some r)
  unfolding child_violations
  child_of_nil r c h = elim (Option-cases (lookup nodes c)) [
    | inl gone ↦ absurd (ground arith)
    | inr (m, found) ↦ elim (Bool-cases (option_eq m.parent_ref (some r))) [
      | inl back ↦ (m, found, option_eq→path m.parent_ref r back)
      | inr other ↦ absurd (ground arith)
    ]
  ]

  nil_of_child :
      (r c : String) (m : CanonicalNode)
      → lookup nodes c ≡ some m
      → m.parent_ref ≡ some r
      → child_violations nodes r c ≡ []
  unfolding child_violations
  nil_of_child r c m found back = rw (found, child_violations) (rw back (rw (option_eq_refl r)))

  parent_of_nil :
      (r p : String)
      → parent_violations nodes r (some p) ≡ []
      → (m : CanonicalNode) × (lookup nodes p ≡ some m) × (contains r m.child_refs ≡ true)
  unfolding parent_violations
  parent_of_nil r p h = elim (Option-cases (lookup nodes p)) [
    | inl gone ↦ absurd (ground arith)
    | inr (m, found) ↦ elim (Bool-cases (contains r m.child_refs)) [
      | inl listed ↦ (m, found, listed)
      | inr other ↦ absurd (ground arith)
    ]
  ]

  nil_of_parent :
      (r p : String) (m : CanonicalNode)
      → lookup nodes p ≡ some m
      → contains r m.child_refs ≡ true
      → parent_violations nodes r (some p) ≡ []
  unfolding parent_violations
  nil_of_parent r p m found listed = rw (found, parent_violations) (rw listed)

  ended_of_nil :
      (r : String) (n : CanonicalNode)
      → cycle_violations nodes (r, n) ≡ []
      → walk nodes (suc (length nodes)) [] (some r) ≡ ended
  unfolding cycle_violations
  ended_of_nil r n h = ground (arith, walk-ne-out_of_fuel nodes r)

  nil_of_Depth :
      (r : String) (n : CanonicalNode) (d : ℕ)
      → Depth nodes r d
      → cycle_violations nodes (r, n) ≡ []
  unfolding cycle_violations
  nil_of_Depth r n d above =
      ground (arith, Depth-ne-cycle nodes (suc (length nodes)) [] r d above tt)

  nil_of_root :
      (root r : String) (n : CanonicalNode)
      → (n.parent_ref ≡ none → r ≡ root)
      → root_violations nodes root (r, n) ≡ []
  unfolding root_violations is_some
  nil_of_root root r n h = ground (arith, h, eq_refl r)

  root_of_nil :
      (root r : String) (n : CanonicalNode)
      → root_violations nodes root (r, n) ≡ []
      → n.parent_ref ≡ none
      → r ≡ root
  unfolding root_violations is_some
  root_of_nil root r n h e = ground (arith, eq→path r root)

is_empty→nil {ℓ} : {A : Type ℓ} (xs : List A) → is_empty xs ≡ true → xs ≡ []
unfolding is_empty
is_empty→nil [] h = refl
is_empty→nil (x ∷ xs) h = cc

module _ ⦃R : Runtime⦄ (tree : CanonicalTree) where
  abbrev nodes : Dict CanonicalNode
  nodes = tree.nodes

  module _ (clean : violations tree ≡ []) where
    abbrev links_clean : collect (link_violations nodes) (sorted_items nodes) ≡ []
    unfolding violations
    links_clean = append_nil_left _ _ clean

    abbrev later_clean :
        collect (root_violations nodes tree.root_node_ref) (sorted_items nodes)
          ++ detect_cycles nodes
        ≡ []
    unfolding violations
    later_clean = append_nil_right _ _ clean

    at_link :
        (r : String) (n : CanonicalNode)
        → lookup nodes r ≡ some n
        → link_violations nodes (r, n) ≡ []
    unfolding violations
    at_link r n e =
        sorted_items_All (λ k v. link_violations nodes (k, v) ≡ []) nodes r n
          (collect_nil (link_violations nodes) (sorted_items nodes) links_clean) e

    at_child :
        (r c : String) (n : CanonicalNode)
        → lookup nodes r ≡ some n
        → contains c n.child_refs ≡ true
        → child_violations nodes r c ≡ []
    unfolding link_violations
    at_child r c n e m =
        contains_of_All (λ x. child_violations nodes r x ≡ []) n.child_refs c
          (collect_nil (child_violations nodes r) n.child_refs
            (append_nil_left _ _ (at_link r n e)))
          m

    at_parent :
        (r : String) (n : CanonicalNode)
        → lookup nodes r ≡ some n
        → parent_violations nodes r n.parent_ref ≡ []
    unfolding link_violations
    at_parent r n e = append_nil_right _ _ (at_link r n e)

    at_root :
        (r : String) (n : CanonicalNode)
        → lookup nodes r ≡ some n
        → root_violations nodes tree.root_node_ref (r, n) ≡ []
    at_root r n e =
        sorted_items_All (λ k v. root_violations nodes tree.root_node_ref (k, v) ≡ []) nodes r n
          (collect_nil (root_violations nodes tree.root_node_ref) (sorted_items nodes)
            (append_nil_left _ _ later_clean))
          e

    at_cycle :
        (r : String) (n : CanonicalNode)
        → lookup nodes r ≡ some n
        → cycle_violations nodes (r, n) ≡ []
    unfolding detect_cycles
    at_cycle r n e =
        sorted_items_All (λ k v. cycle_violations nodes (k, v) ≡ []) nodes r n
          (collect_nil (cycle_violations nodes) (sorted_items nodes)
            (append_nil_right _ _ later_clean))
          e

    parents_resolve :
        (r p : String) (n : CanonicalNode)
        → lookup nodes r ≡ some n
        → n.parent_ref ≡ some p
        → (m : CanonicalNode) × (lookup nodes p ≡ some m) × (contains r m.child_refs ≡ true)
    parents_resolve r p n e up = parent_of_nil nodes r p (rw up at (at_parent r n e))

    WellFormed-of_nil : WellFormed tree
    WellFormed-of_nil = record {
      children = λ r c n e m. child_of_nil nodes r c (at_child r c n e m);
      parents = parents_resolve;
      one_root = λ r n e top. root_of_nil nodes tree.root_node_ref r n (at_root r n e) top;
      grounded = λ r n e.
          Depth-of_ended nodes
            (λ a p m f up. let (v, found, _) = parents_resolve a p m f up in (v, found))
            (suc (length nodes)) [] r n e (ended_of_nil nodes r n (at_cycle r n e));
    }

  module _ (good : WellFormed tree) where
    link_nil :
        (r : String) (n : CanonicalNode)
        → lookup nodes r ≡ some n
        → link_violations nodes (r, n) ≡ []
    unfolding link_violations
    link_nil r n e = rw (children_nil) (parent_nil n.parent_ref refl)
      where
        child_nil : (c : String) → contains c n.child_refs ≡ true → child_violations nodes r c ≡ []
        child_nil c m =
            let (v, found, back) = good.children r c n e m in nil_of_child nodes r c v found back

        children_nil : collect (child_violations nodes r) n.child_refs ≡ []
        children_nil = nil_collect _ n.child_refs (All-of_contains _ n.child_refs child_nil)

        parent_nil :
            (o : Option String) → n.parent_ref ≡ o → parent_violations nodes r n.parent_ref ≡ []
        parent_nil none up = rw (up, parent_violations) refl
        parent_nil (some p) up =
            let (v, found, listed) = good.parents r p n e up in
            rw up (nil_of_parent nodes r p v found listed)

    nil_of_WellFormed : violations tree ≡ []
    unfolding violations detect_cycles
    nil_of_WellFormed =
        rw
          (nil_collect (link_violations nodes) _
            (All-sorted_items (λ k v. link_violations nodes (k, v) ≡ []) nodes link_nil))
          (rw
            (nil_collect (root_violations nodes tree.root_node_ref) _ (
              All-sorted_items (λ k v. root_violations nodes tree.root_node_ref (k, v) ≡ []) nodes
                (λ r n e. nil_of_root nodes tree.root_node_ref r n (good.one_root r n e))))
            (nil_collect (cycle_violations nodes) _ (
              All-sorted_items (λ k v. cycle_violations nodes (k, v) ≡ []) nodes
                (λ r n e. let (d, above) = good.grounded r n e in nil_of_Depth nodes r n d above))))

  -- A tree passes validation exactly if it is well formed: references resolve in both directions,
  -- the declared root alone is parentless, and no containment cycle exists.
  pub validate_tree-ok_iff : (validate_tree tree ≡ ok tt) ↔ WellFormed tree
  unfolding validate_tree is_empty
  validate_tree-ok_iff = (
    λ h. WellFormed-of_nil (is_empty→nil (violations tree) (ground arith)),
    λ good. rw (nil_of_WellFormed good),
  )
