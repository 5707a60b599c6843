-- ===== src/Normalization/Structure.antt =====
-- Normalization leaves the structure of a tree alone.
use structural_reconciliatio.Base.{
  ◌≡◌, refl, sym, ap, ◌∙◌, true, String, Option, none, some, List, [], ◌∷◌, ◌==◌, contains, lookup,
  keys, Dict, at_keys, sort_texts, sorted_items, contains-keys, contains-sort_texts, Bool-cases,
  Option-cases, inl, inr, arith, eq→path, eq_sym, if◌then◌else◌, is_some, ℕ,
}
use mathlib.Core.Path.{subst}
use structural_reconciliatio.Runtime.{Runtime}
use structural_reconciliatio.Tree.{CanonicalTree, CanonicalNode}
use structural_reconciliatio.Tree.WellFormed.{WellFormed, Depth, top, below}
use structural_reconciliatio.Contracts.Profiles.{NormalizationProfile}
use structural_reconciliatio.Normalization.{normalize, normalize_node, normalize_nodes}

module _ ⦃R : Runtime⦄ (profile : NormalizationProfile) where
  abbrev normalized : Option CanonicalNode → Option CanonicalNode
  normalized none = none
  normalized (some node) = some (normalize_node profile node)

  lookup-normalize_nodes :
      (d : Dict CanonicalNode) (ks : List String) (r : String)
      → lookup (normalize_nodes profile (at_keys d ks)) r
        ≡ (if contains r ks then normalized (lookup d r) else none)
  unfolding normalize_nodes at_keys contains lookup
  lookup-normalize_nodes d [] r = refl
  lookup-normalize_nodes d (k ∷ ks) r = elim (Bool-cases (r == k)) [
    | inl same ↦
        let e : r ≡ k = eq→path r k same in
        elim (Option-cases (lookup d k)) [
          | inl gone ↦
              let gone' : lookup d r ≡ none = ap (lookup d) e ∙ gone in
              rw (gone, at_keys) (ground (arith, lookup-normalize_nodes d ks r))
          | inr (n, here) ↦
              let here' : lookup d r ≡ some n = ap (lookup d) e ∙ here in
              rw (here, at_keys) (ground (arith, eq_sym r k))
        ]
    | inr other ↦ elim (Option-cases (lookup d k)) [
      | inl gone ↦ rw (gone, at_keys) (ground (arith, lookup-normalize_nodes d ks r))
      | inr (n, here) ↦
          rw (here, at_keys) (ground (arith, eq_sym r k, lookup-normalize_nodes d ks r))
    ]
  ]

  -- A node of the normalized tree is the normalized node of the tree, under the same reference.
  pub lookup-normalize :
      (tree : CanonicalTree) (r : String)
      → lookup (normalize profile tree).nodes r ≡ normalized (lookup tree.nodes r)
  unfolding normalize sorted_items is_some
  lookup-normalize tree r =
      lookup-normalize_nodes tree.nodes (sort_texts (keys tree.nodes)) r
      ∙ elim (Option-cases (lookup tree.nodes r)) [
        | inl gone ↦ ground arith
        | inr (n, here) ↦
            let listed : contains r (sort_texts (keys tree.nodes)) ≡ true =
              contains-sort_texts r (keys tree.nodes)
              ∙ contains-keys tree.nodes r
              ∙ ap is_some here in
            rw listed refl
      ]

  -- Where the tree has a node, the normalized tree has the normalized node.
  forward :
      (tree : CanonicalTree) (r : String) (n : CanonicalNode)
      → lookup tree.nodes r ≡ some n
      → lookup (normalize profile tree).nodes r ≡ some (normalize_node profile n)
  forward tree r n here = lookup-normalize tree r ∙ ap normalized here

  backward :
      (tree : CanonicalTree) (r : String) (m : CanonicalNode)
      → lookup (normalize profile tree).nodes r ≡ some m
      → (n : CanonicalNode) × (lookup tree.nodes r ≡ some n) × (normalize_node profile n ≡ m)
  backward tree r m there = elim (Option-cases (lookup tree.nodes r)) [
    | inl gone ↦
        let clash : ◌≡◌ {A = Option CanonicalNode} none (some m) =
          sym (lookup-normalize tree r ∙ ap normalized gone) ∙ there in
        cc
    | inr (n, here) ↦
        let same : ◌≡◌ {A = Option CanonicalNode} (some (normalize_node profile n)) (some m) =
          sym (forward tree r n here) ∙ there in
        (n, here, cc)
  ]

  Depth-normalize :
      (tree : CanonicalTree) (r : String) (d : ℕ)
      → Depth tree.nodes r d
      → Depth (normalize profile tree).nodes r d
  unfolding normalize_node
  Depth-normalize tree r _ (top _ n here root) =
      top r (normalize_node profile n) (forward tree r n here) root
  Depth-normalize tree r _ (below _ p n d here up above) =
      below r p (normalize_node profile n) d (forward tree r n here) up
        (Depth-normalize tree p d above)

  root-normalize :
      (tree : CanonicalTree) → (normalize profile tree).root_node_ref ≡ tree.root_node_ref
  unfolding normalize
  root-normalize tree = refl

  -- A well-formed tree is well formed after normalization, whatever the profile.
  pub normalize-WellFormed :
      (tree : CanonicalTree) → WellFormed tree → WellFormed (normalize profile tree)
  unfolding normalize_node
  normalize-WellFormed tree formed = record {
    children = λ r c m there listed.
        let (n, here, same) = backward tree r m there in
        let (child, found, up) =
          formed.children r c n here
            (subst (λ (z : CanonicalNode). contains c z.child_refs ≡ true) (sym same) listed) in
        (normalize_node profile child, forward tree c child found, up);
    parents = λ r p m there up.
        let (n, here, same) = backward tree r m there in
        let (parent, found, listed) =
          formed.parents r p n here
            (subst (λ (z : CanonicalNode). z.parent_ref ≡ some p) (sym same) up) in
        (normalize_node profile parent, forward tree p parent found, listed);
    one_root = λ r m there root.
        let (n, here, same) = backward tree r m there in
        formed.one_root r n here
          (subst (λ (z : CanonicalNode). z.parent_ref ≡ none) (sym same) root)
        ∙ sym (root-normalize tree);
    grounded = λ r m there.
        let (n, here, same) = backward tree r m there in
        let (d, above) = formed.grounded r n here in (d, Depth-normalize tree r d above);
  }
