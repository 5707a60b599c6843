-- ===== src/Limits/Traversal.antt =====
-- The loop of `tree_depth` ends on every well-formed tree within its fuel.
use structural_reconciliatio.Base.{
  ℕ, zero, suc, ◌+◌, ◌≤◌, max, ◌≡◌, refl, sym, ap, ◌∙◌, true, false, String, Option, some, List, [],
  ◌∷◌, ◌==◌, contains, nodup, nodup-cons, lookup, keys, Dict, length, length-le_of_nodup,
  contains-keys, All, All-map, All-of_contains, contains_of_All, Bool-cases, Option-cases, ◌⊎◌, inl,
  inr, arith, eq→path, eq_refl, is_some,
}
use mathlib.Core.Path.{subst}
use structural_reconciliatio.Runtime.{Runtime}
use structural_reconciliatio.Errors.{Returns, Returns-bind}
use structural_reconciliatio.Tree.{CanonicalTree, CanonicalNode, subscript, subscript-eq}
use structural_reconciliatio.Tree.WellFormed.{WellFormed, Depth, top, below, Depth-unique}
use structural_reconciliatio.Tree.Validation.Walks.{length-keys}
use structural_reconciliatio.Limits.{push, depth_loop, tree_depth}

is_some-some : {A : Type 0} (a : A) → is_some (some a) ≡ true
unfolding is_some
is_some-some a = refl

later : (x c : String) (cs : List String) → contains x cs ≡ true → contains x (c ∷ cs) ≡ true
unfolding contains
later x c cs m = ground (arith, m)

lookup-All {κ} :
    {V : Type 0} (P : V → Type κ) (d : Dict V) (k : String) (v : V)
    → All (λ (e : String × V). P e.1) d
    → lookup d k ≡ some v
    → P v
unfolding lookup
lookup-All P [] k v h e = cc
lookup-All {V = V} P ((j, w) ∷ d) k v h e = elim (Bool-cases (j == k)) [
  | inl same ↦
      let found : ◌≡◌ {A = Option V} (some w) (some v) = rw same at e in
      let equal : w ≡ v = cc in subst P equal h.0
  | inr other ↦ lookup-All P d k v h.1 (rw other at e)
]

abbrev pub refs : List (String × ℕ) → List String
refs [] = []
refs ((r, d) ∷ stack) = r ∷ refs stack

module _ ⦃R : Runtime⦄ (tree : CanonicalTree) (formed : WellFormed tree) where
  abbrev pub ParentOf : String → String → Type 0
  ParentOf c p = (n : CanonicalNode) × (lookup tree.nodes c ≡ some n) × (n.parent_ref ≡ some p)

  ParentOf-unique : (c p q : String) → ParentOf c p → ParentOf c q → p ≡ q
  ParentOf-unique c p q (n, f, u) (m, g, v) =
      let same : n ≡ m = cc (f, g) in
      let both : ◌≡◌ {A = Option String} (some p) (some q) =
        sym u ∙ ap (λ (w : CanonicalNode). w.parent_ref) same ∙ v in
      cc

  -- The top of the chain of parents above a node is the declared root.
  pub root_above :
      (r : String) (d : ℕ) → Depth tree.nodes r d → Depth tree.nodes tree.root_node_ref 0
  root_above r _ (top _ n here root) =
      subst (λ z. Depth tree.nodes z 0) (formed.one_root r n here root) (top r n here root)
  root_above r _ (below _ p n d here up above) = root_above p d above

  root_parentless : (p : String) → ParentOf tree.root_node_ref p → ⊥
  root_parentless p (n, here, up) =
      let (m, there, _) = formed.parents tree.root_node_ref p n here up in
      let (d, above) = formed.grounded p m there in
      let clash : suc d ≡ 0 =
        Depth-unique tree.nodes tree.root_node_ref (suc d) 0
          (below tree.root_node_ref p n d here up above) (root_above p d above) in
      absurd (omega arith)

  -- A node is the root or the child of a node passed.
  abbrev Parented : List String → String → Type 0
  Parented visited x =
      (x ≡ tree.root_node_ref) ⊎ ((p : String) × ParentOf x p × (contains p visited ≡ true))

  abbrev IsKey : String → Type 0
  IsKey x = contains x (keys tree.nodes) ≡ true

  record Frontier (visited stack : List String) : Type 0 where
    distinct_visited : nodup visited ≡ true
    distinct_stack : nodup stack ≡ true
    apart : All (λ x. contains x visited ≡ false) stack
    keys_visited : All IsKey visited
    keys_stack : All IsKey stack
    parented_visited : All (Parented visited) visited
    parented_stack : All (Parented visited) stack

  -- The node on top has a child that was met already only where it was passed itself.
  child_new :
      (visited met : List String) (r c : String)
      → contains r visited ≡ false
      → All (Parented visited) met
      → ParentOf c r
      → contains c met ≡ false
  child_new visited met r c new parented up = elim (Bool-cases (contains c met)) [
    | inr free ↦ free
    | inl found ↦ elim (contains_of_All (Parented visited) met c parented found) [
      | inl root ↦ absurd (root_parentless r (subst (λ z. ParentOf z r) root up))
      | inr (p, above, passed) ↦
          let same : p ≡ r = ParentOf-unique c p r above up in
          let clash : contains r visited ≡ true =
            subst (λ z. contains z visited ≡ true) same passed in
          cc
    ]
  ]

  Parented-pass :
      (visited : List String) (r x : String) → Parented visited x → Parented (r ∷ visited) x
  unfolding contains
  Parented-pass visited r x (inl root) = inl root
  Parented-pass visited r x (inr (p, up, passed)) = inr (p, up, ground (arith, passed))

  module _ (visited : List String) (r : String) (passed : contains r visited ≡ true) where
    push-Frontier :
        (cs : List String) (stack : List (String × ℕ)) (d : ℕ)
        → Frontier visited (refs stack)
        → nodup cs ≡ true
        → ((c : String) → contains c cs ≡ true → contains c visited ≡ false)
        → ((c : String) → contains c cs ≡ true → contains c (refs stack) ≡ false)
        → ((c : String) → contains c cs ≡ true → ParentOf c r)
        → Frontier visited (refs (push stack d cs))
    unfolding push nodup contains
    push-Frontier [] stack d f distinct new free up = f
    push-Frontier (c ∷ cs) stack d f distinct new free up =
        let here : contains c (c ∷ cs) ≡ true = ground (arith, eq_refl c) in
        let once : contains c cs ≡ false = ground (arith, distinct) in
        let others : nodup cs ≡ true = ground (arith, distinct) in
        let (n, found, above) = up c here in
        let next : Frontier visited (c ∷ refs stack) = record {
          distinct_visited = f.distinct_visited;
          distinct_stack = nodup-cons c (refs stack) (free c here) f.distinct_stack;
          apart = (new c here, f.apart);
          keys_visited = f.keys_visited;
          keys_stack =
              (contains-keys tree.nodes c ∙ ap is_some found ∙ is_some-some n, f.keys_stack);
          parented_visited = f.parented_visited;
          parented_stack = (inr (r, (n, found, above), passed), f.parented_stack);
        } in
        push-Frontier cs ((c, d) ∷ stack) d next others (λ x m. new x (later x c cs m))
          (λ x m. elim (Bool-cases (x == c)) [
            | inl same ↦
                let clash : contains c cs ≡ true =
                  subst (λ z. contains z cs ≡ true) (eq→path x c same) m in
                cc
            | inr other ↦ ground (arith, other, free x (later x c cs m))
          ])
          (λ x m. up x (later x c cs m))

  pop-Frontier :
      (visited rest : List String) (r : String)
      → Frontier visited (r ∷ rest)
      → Frontier (r ∷ visited) rest
  unfolding nodup contains
  pop-Frontier visited rest r f =
      let once : contains r rest ≡ false = ground (arith, f.distinct_stack) in
      record {
        distinct_visited = nodup-cons r visited f.apart.0 f.distinct_visited;
        distinct_stack = ground (arith, f.distinct_stack);
        apart =
            All-of_contains (λ x. contains x (r ∷ visited) ≡ false) rest
              (λ x m. elim (Bool-cases (x == r)) [
                | inl same ↦
                    let clash : contains r rest ≡ true =
                      subst (λ z. contains z rest ≡ true) (eq→path x r same) m in
                    cc
                | inr other ↦ ground (
                  arith,
                  other,
                  contains_of_All (λ y. contains y visited ≡ false) rest x f.apart.1 m,
                )
              ]);
        keys_visited = (f.keys_stack.0, f.keys_visited);
        keys_stack = f.keys_stack.1;
        parented_visited = (
          Parented-pass visited r r f.parented_stack.0,
          All-map visited (Parented-pass visited r) f.parented_visited,
        );
        parented_stack = All-map rest (Parented-pass visited r) f.parented_stack.1;
      }

  module _
      (distinct_children : All
        (λ (e : String × CanonicalNode). nodup e.1.child_refs ≡ true)
        tree.nodes) where
    pass-Frontier :
        (visited : List String) (stack : List (String × ℕ)) (r : String) (d : ℕ) (n : CanonicalNode)
        → lookup tree.nodes r ≡ some n
        → Frontier visited (r ∷ refs stack)
        → Frontier (r ∷ visited) (refs (push stack d n.child_refs))
    unfolding contains
    pass-Frontier visited stack r d n here f =
        let popped = pop-Frontier visited (refs stack) r f in
        let child : (c : String) → contains c n.child_refs ≡ true → ParentOf c r =
          λ c m. let (k, found, up) = formed.children r c n here m in (k, found, up) in
        push-Frontier (r ∷ visited) r (ground (arith, eq_refl r)) n.child_refs stack d popped
          (lookup-All (λ (m : CanonicalNode). nodup m.child_refs ≡ true) tree.nodes r n
            distinct_children here)
          (λ c m.
            child_new visited (r ∷ visited) r c f.apart.0 (f.parented_stack.0, f.parented_visited)
              (child c m))
          (λ c m. child_new visited (refs stack) r c f.apart.0 f.parented_stack.1 (child c m)) child

    depth_loop-Returns :
        (fuel deepest : ℕ) (visited : List String) (stack : List (String × ℕ))
        → Frontier visited (refs stack)
        → length tree.nodes ≤ fuel + length visited
        → Returns (depth_loop tree fuel deepest stack)
    unfolding depth_loop subscript is_some
    depth_loop-Returns fuel deepest visited [] f enough = (deepest, refl)
    depth_loop-Returns zero deepest visited ((r, d) ∷ stack) f enough =
        let popped = pop-Frontier visited (refs stack) r f in
        absurd (
          omega (
            arith,
            length-le_of_nodup (r ∷ visited) (keys tree.nodes) popped.distinct_visited
                popped.keys_visited,
            length-keys tree.nodes,
          ))
    depth_loop-Returns (suc fuel) deepest visited ((r, d) ∷ stack) f enough =
        elim (Option-cases (lookup tree.nodes r)) [
          | inl gone ↦
              let clash : false ≡ true =
                sym (contains-keys tree.nodes r ∙ ap is_some gone) ∙ f.keys_stack.0 in
              cc
          | inr (n, here) ↦
              Returns-bind (subscript tree.nodes r) _ (n, rw (here, subscript) refl)
                (λ m p.
                  let same : lookup tree.nodes r ≡ some m = subscript-eq tree.nodes r m p in
                  depth_loop-Returns fuel (max deepest d) (r ∷ visited)
                    (push stack (suc d) m.child_refs)
                    (pass-Frontier visited stack r (suc d) m same f) (omega arith))
        ]

    -- The depth of a well-formed tree whose root is a node and whose nodes list no child twice is
    -- computed within the fuel: one step for each node is enough.
    pub tree_depth-Returns :
        contains tree.root_node_ref (keys tree.nodes) ≡ true → Returns (tree_depth tree)
    unfolding tree_depth nodup contains
    tree_depth-Returns known =
        depth_loop-Returns (length tree.nodes) 0 [] ((tree.root_node_ref, 1) ∷ [])
          (record {
            distinct_visited = refl;
            distinct_stack = refl;
            apart = (refl, tt);
            keys_visited = tt;
            keys_stack = (known, tt);
            parented_visited = tt;
            parented_stack = (inl refl, tt);
          })
          (omega arith)
