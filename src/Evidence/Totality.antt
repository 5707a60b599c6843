-- ===== src/Evidence/Totality.antt =====
-- Extraction returns on every pair of well-formed trees, with an entry for each node.
use structural_reconciliatio.Base.{
  ◌≡◌, refl, sym, ap, ◌∙◌, String, Option, some, List, [], ◌∷◌, lookup, Dict, sorted_items,
  All-of_contains, All-sorted_items, Bool-cases, inl, inr, ◌==◌, eq→path,
}
use structural_reconciliatio.Runtime.{Runtime}
use structural_reconciliatio.Errors.{
  ok, returned_bind, ◌>>=◌, traverse, Returns, Returns-bind, traverse-Returns, ok_injective,
}
use structural_reconciliatio.Tree.{CanonicalTree, CanonicalNode, subscript}
use structural_reconciliatio.Tree.WellFormed.{WellFormed}
use mathlib.Core.Path.{subst}
use structural_reconciliatio.Evidence.{
  KeyedByRef, NodeEvidence, EvidenceIndex, child_signature, node_evidence, by_ref, extract_tree,
  extract, join,
}

module _ ⦃R : Runtime⦄ (tree : CanonicalTree) (formed : WellFormed tree) where
  child_signature-Returns :
      (r : String) (n : CanonicalNode)
      → lookup tree.nodes r ≡ some n
      → Returns (child_signature tree n)
  unfolding child_signature subscript
  child_signature-Returns r n here =
      Returns-bind
        (traverse (λ c. do child ← subscript tree.nodes c; ok child.node_type) n.child_refs) _
        (traverse-Returns _ n.child_refs (
          All-of_contains (λ c. Returns (do child ← subscript tree.nodes c; ok child.node_type))
            n.child_refs
            (λ c m.
              let (child, found, _) = formed.children r c n here m in
              (child.node_type, rw (found, subscript) refl))))
        (λ types p. (join "," types, refl))

  node_evidence-Returns :
      (r : String) (n : CanonicalNode)
      → lookup tree.nodes r ≡ some n
      → Returns (node_evidence tree (r, n))
  unfolding node_evidence
  node_evidence-Returns r n here =
      Returns-bind (child_signature tree n) _ (child_signature-Returns r n here)
        (λ children p. (_, refl))

  pub extract_tree-Returns : Returns (extract_tree tree)
  unfolding extract_tree
  extract_tree-Returns =
      Returns-bind (traverse (node_evidence tree) (sorted_items tree.nodes)) _
        (traverse-Returns (node_evidence tree) (sorted_items tree.nodes) (
          All-sorted_items (λ r n. Returns (node_evidence tree (r, n))) tree.nodes
            node_evidence-Returns))
        (λ evs p. (_, refl))

by_ref-KeyedByRef : (evs : List NodeEvidence) → KeyedByRef (by_ref evs)
unfolding by_ref lookup
by_ref-KeyedByRef [] r ev h = cc
by_ref-KeyedByRef (e ∷ evs) r ev h = elim (Bool-cases (e.node_ref == r)) [
  | inl same ↦
      let found : ◌≡◌ {A = Option NodeEvidence} (some e) (some ev) = rw same at h in
      let equal : e ≡ ev = cc in
      ap (λ (z : NodeEvidence). z.node_ref) (sym equal) ∙ eq→path e.node_ref r same
  | inr other ↦ by_ref-KeyedByRef evs r ev (rw other at h)
]

module _ ⦃R : Runtime⦄ where
  extract_tree-KeyedByRef :
      (tree : CanonicalTree) (found : Dict NodeEvidence × List String)
      → extract_tree tree ≡ ok found
      → KeyedByRef found.0
  unfolding extract_tree
  extract_tree-KeyedByRef tree found h =
      let (evs, _, h₁) =
        returned_bind (traverse (node_evidence tree) (sorted_items tree.nodes)) _ h in
      subst (λ (d : Dict NodeEvidence × List String). KeyedByRef d.0) (ok_injective _ found h₁)
        (by_ref-KeyedByRef evs)

  pub extract-KeyedByRef :
      (source target : CanonicalTree) (index : EvidenceIndex)
      → extract source target ≡ ok index
      → KeyedByRef index.source × KeyedByRef index.target
  unfolding extract
  extract-KeyedByRef source target index h =
      let (s, p, h₁) = returned_bind (extract_tree source) _ h in
      let (t, q, h₂) = returned_bind (extract_tree target) _ h₁ in
      subst (λ (i : EvidenceIndex). KeyedByRef i.source × KeyedByRef i.target)
        (ok_injective _ index h₂)
        (extract_tree-KeyedByRef source s p, extract_tree-KeyedByRef target t q)

  -- On two well-formed trees extraction raises nothing, and each evidence stands under the reference
  -- of its own node.
  pub extract-Returns :
      (source target : CanonicalTree)
      → WellFormed source
      → WellFormed target
      → (index : EvidenceIndex) × (extract source target ≡ ok index)
        × KeyedByRef index.source
        × KeyedByRef index.target
  unfolding extract
  extract-Returns source target u v =
      let (index, p) = Returns-bind (extract_tree source) _ (extract_tree-Returns source u) (λ s p.
        Returns-bind (extract_tree target) _ (extract_tree-Returns target v) (λ t q. (_, refl))) in
      let (s, t) = extract-KeyedByRef source target index p in (index, p, s, t)
