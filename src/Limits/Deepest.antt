-- ===== src/Limits/Deepest.antt =====
-- What the loop of `tree_depth` returns is the depth of the deepest node.
use structural_reconciliatio.Base.{
  ℕ, zero, suc, ◌≤◌, max, ◌≡◌, refl, sym, ap, ◌∙◌, true, String, some, List, [], ◌∷◌, ◌==◌, ◌||◌,
  contains, lookup, length, leb, All, Bool-cases, ◌⊎◌, inl, inr, arith, eq→path, eq_refl,
}
use mathlib.Core.Path.{subst}
use structural_reconciliatio.Runtime.{Runtime}
use structural_reconciliatio.Errors.{ok, returned_bind, ok_injective}
use structural_reconciliatio.Tree.{CanonicalTree, CanonicalNode, subscript, subscript-eq}
use structural_reconciliatio.Tree.WellFormed.{WellFormed, Depth, top, below, Depth-unique}
use structural_reconciliatio.Limits.{push, depth_loop, tree_depth}
use structural_reconciliatio.Limits.Traversal.{refs, ParentOf, root_above}

contains-push :
    (x : String) (stack : List (String × ℕ)) (d : ℕ) (cs : List String)
    → contains x (refs (push stack d cs)) ≡ (contains x (refs stack) || contains x cs)
unfolding push contains
contains-push x stack d [] = ground arith
contains-push x stack d (c ∷ cs) = contains-push x ((c, d) ∷ stack) d cs ∙ ground arith

All-push {κ} :
    (P : String × ℕ → Type κ) (stack : List (String × ℕ)) (d : ℕ) (cs : List String)
    → All P stack
    → ((c : String) → contains c cs ≡ true → P (c, d))
    → All P (push stack d cs)
unfolding push contains
All-push P stack d [] h k = h
All-push P stack d (c ∷ cs) h k =
    All-push P ((c, d) ∷ stack) d cs (k c (ground (arith, eq_refl c)), h)
      (λ x m. k x (ground (arith, m)))

module _ ⦃R : Runtime⦄ (tree : CanonicalTree) (formed : WellFormed tree) where
  abbrev DepthIn : String → ℕ → Type 0
  DepthIn = Depth tree.nodes

  -- An entry of the stack holds one more than the depth of its node.
  abbrev Level : String × ℕ → Type 0
  Level e = (k : ℕ) × DepthIn e.0 k × (e.1 ≡ suc k)

  abbrev pub Attained : ℕ → Type 0
  Attained deepest = (r : String) × (k : ℕ) × DepthIn r k × (suc k ≡ deepest)

  record Progress (visited : List String) (deepest : ℕ) (stack : List (String × ℕ)) : Type 0 where
    levels : All Level stack
    reached : (x : String) (k : ℕ) → contains x visited ≡ true → DepthIn x k → suc k ≤ deepest
    closed :
        (x c : String)
        → contains x visited ≡ true
        → ParentOf tree formed c x
        → (contains c visited || contains c (refs stack)) ≡ true
    rooted :
        (contains tree.root_node_ref visited || contains tree.root_node_ref (refs stack)) ≡ true
    attained : (deepest ≡ 0) ⊎ Attained deepest

  listed :
      (r c : String) (n : CanonicalNode)
      → lookup tree.nodes r ≡ some n
      → ParentOf tree formed c r
      → contains c n.child_refs ≡ true
  listed r c n here (m, found, up) =
      let (p, there, lists) = formed.parents c r m found up in
      let same : p ≡ n = cc (there, here) in
      subst (λ (z : CanonicalNode). contains c z.child_refs ≡ true) same lists

  pass-Progress :
      (visited : List String) (deepest : ℕ) (stack : List (String × ℕ)) (r : String) (d : ℕ)
      (n : CanonicalNode)
      → lookup tree.nodes r ≡ some n
      → Progress visited deepest ((r, d) ∷ stack)
      → Progress (r ∷ visited) (max deepest d) (push stack (suc d) n.child_refs)
  unfolding contains
  pass-Progress visited deepest stack r d n here f =
      let (k, at_k, level) = f.levels.0 in
      record {
        levels = All-push Level stack (suc d) n.child_refs f.levels.1 (λ c m.
            let (child, found, up) = formed.children r c n here m in
            (suc k, below c r child k found up at_k, ap suc level));
        reached = λ x j m at_j. elim (Bool-cases (x == r)) [
          | inl same ↦
              let equal : j ≡ k =
                Depth-unique tree.nodes r j k (subst (λ z. DepthIn z j) (eq→path x r same) at_j)
                  at_k in
              omega arith
          | inr other ↦
              let old : suc j ≤ deepest = f.reached x j (ground (arith, m, other)) at_j in
              omega arith
        ];
        closed = λ x c m up. elim (Bool-cases (x == r)) [
          | inl same ↦
              let child : contains c n.child_refs ≡ true =
                listed r c n here (subst (λ z. ParentOf tree formed c z) (eq→path x r same) up) in
              let pushed = contains-push c stack (suc d) n.child_refs in
              ground (arith, child, pushed)
          | inr other ↦
              let old = f.closed x c (ground (arith, m, other)) up in
              let pushed = contains-push c stack (suc d) n.child_refs in ground (arith, old, pushed)
        ];
        rooted =
            let old = f.rooted in
            let pushed = contains-push tree.root_node_ref stack (suc d) n.child_refs in
            ground (arith, old, pushed);
        attained = elim (Bool-cases (leb deepest d)) [
          | inl e ↦
              let larger : max deepest d ≡ d = ground arith in
              inr (subst Attained (sym larger) (r, k, at_k, sym level))
          | inr e ↦
              let larger : max deepest d ≡ deepest = ground arith in
              subst (λ z. (z ≡ 0) ⊎ Attained z) (sym larger) f.attained
        ];
      }

  depth_loop-Progress :
      (fuel deepest : ℕ) (visited : List String) (stack : List (String × ℕ)) (final : ℕ)
      → Progress visited deepest stack
      → depth_loop tree fuel deepest stack ≡ ok final
      → (passed : List String) × Progress passed final []
  unfolding depth_loop
  depth_loop-Progress fuel deepest visited [] final f h =
      (visited, subst (λ z. Progress visited z []) (ok_injective deepest final h) f)
  depth_loop-Progress zero deepest visited ((r, d) ∷ stack) final f h = cc
  depth_loop-Progress (suc fuel) deepest visited ((r, d) ∷ stack) final f h =
      let (n, p, h₁) = returned_bind (subscript tree.nodes r) _ h in
      depth_loop-Progress fuel (max deepest d) (r ∷ visited) (push stack (suc d) n.child_refs) final
        (pass-Progress visited deepest stack r d n (subscript-eq tree.nodes r n p) f) h₁

  all_reached :
      (passed : List String) (final : ℕ) (r : String) (k : ℕ)
      → Progress passed final []
      → DepthIn r k
      → contains r passed ≡ true
  unfolding contains
  all_reached passed final r _ f (top _ n here root) =
      let rooted = f.rooted in
      subst (λ z. contains z passed ≡ true) (sym (formed.one_root r n here root))
        (ground (arith, rooted))
  all_reached passed final r _ f (below _ p n d here up above) =
      let parent = all_reached passed final p d f above in
      let child = f.closed p r parent (n, here, up) in ground (arith, child)

  -- Where it returns, the depth of a well-formed tree counts the root as 1: no node lies deeper, and
  -- some node lies as deep.
  pub tree_depth-Attained :
      (final : ℕ) (r : String) (k : ℕ)
      → tree_depth tree ≡ ok final
      → DepthIn r k
      → (suc k ≤ final) × Attained final
  unfolding tree_depth contains
  tree_depth-Attained final r k h at_k =
      let root = root_above tree formed r k at_k in
      let (passed, f) =
        depth_loop-Progress (length tree.nodes) 0 [] ((tree.root_node_ref, 1) ∷ []) final
          (record {
            levels = ((0, root, refl), tt);
            reached = λ x j m at_j. cc;
            closed = λ x c m up. cc;
            rooted = ground (arith, eq_refl tree.root_node_ref);
            attained = inl refl;
          })
          h in
      let bound : suc k ≤ final = f.reached r k (all_reached passed final r k f at_k) at_k in
      (bound, elim f.attained [ inl none_yet ↦ absurd (omega arith) | inr found ↦ found ])
