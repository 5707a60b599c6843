-- ===== src/Tree/WellFormed.antt =====
-- What a canonical tree has to satisfy, stated without the validator's loops (core/contracts and
-- the docstring of `validate_tree_result`).
use structural_reconciliatio.Base.{
  ℕ, suc, String, ◌≡◌, true, some, none, Dict, lookup, contains, ap, sym, refl, ◌∙◌, Option,
}
use mathlib.Core.Path.{subst}
use structural_reconciliatio.Runtime.{Runtime}
use structural_reconciliatio.Tree.{CanonicalNode, CanonicalTree}

module _ ⦃R : Runtime⦄ (nodes : Dict CanonicalNode) where
  -- From `r` the parent links lead to a parentless node in `d` steps.
  pub data Depth : String → ℕ → Type 0 where
    top :
        (r : String) (n : CanonicalNode) → lookup nodes r ≡ some n → n.parent_ref ≡ none → Depth r 0
    below :
        (r p : String) (n : CanonicalNode) (d : ℕ)
        → lookup nodes r ≡ some n
        → n.parent_ref ≡ some p
        → Depth p d
        → Depth r (suc d)

  pub Depth-unique : (r : String) (d e : ℕ) → Depth r d → Depth r e → d ≡ e
  Depth-unique r d e (top _ n f p) (top _ m g q) = refl
  Depth-unique r d e (top _ n f p) (below _ p' m k g q t) =
      let same : n ≡ m = cc (f, g) in
      let clash : ◌≡◌ {A = Option String} none (some p') =
        sym p ∙ ap (λ (w : CanonicalNode). w.parent_ref) same ∙ q in
      cc
  Depth-unique r d e (below _ p' n k f p s) (top _ m g q) =
      let same : n ≡ m = cc (f, g) in
      let clash : ◌≡◌ {A = Option String} (some p') none =
        sym p ∙ ap (λ (w : CanonicalNode). w.parent_ref) same ∙ q in
      cc
  Depth-unique r d e (below _ p n k f x s) (below _ q m l g y t) =
      let same : n ≡ m = cc (f, g) in
      let parent : ◌≡◌ {A = Option String} (some p) (some q) =
        sym x ∙ ap (λ (w : CanonicalNode). w.parent_ref) same ∙ y in
      let equal : q ≡ p = cc in ap suc (Depth-unique p k l s (subst (λ z. Depth z l) equal t))

module _ ⦃R : Runtime⦄ where
  pub record WellFormed (tree : CanonicalTree) : Type 0 where
    -- a child reference resolves, and the child points back
    pub children :
        (r c : String) (n : CanonicalNode)
        → lookup tree.nodes r ≡ some n
        → contains c n.child_refs ≡ true
        → (m : CanonicalNode) × (lookup tree.nodes c ≡ some m) × (m.parent_ref ≡ some r)
    -- a parent reference resolves, and the parent lists the node
    pub parents :
        (r p : String) (n : CanonicalNode)
        → lookup tree.nodes r ≡ some n
        → n.parent_ref ≡ some p
        → (m : CanonicalNode) × (lookup tree.nodes p ≡ some m) × (contains r m.child_refs ≡ true)
    -- only the declared root is parentless
    pub one_root :
        (r : String) (n : CanonicalNode)
        → lookup tree.nodes r ≡ some n
        → n.parent_ref ≡ none
        → r ≡ tree.root_node_ref
    -- no containment cycle: every node has a depth
    pub grounded :
        (r : String) (n : CanonicalNode)
        → lookup tree.nodes r ≡ some n
        → (d : ℕ) × Depth tree.nodes r d
