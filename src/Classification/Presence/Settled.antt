-- ===== src/Classification/Presence/Settled.antt =====
-- The barrier between correspondence and presence: what insert_delete.py reports as inserted or
-- deleted is neither open nor moved.
use structural_reconciliatio.Base.{
  ◌≡◌, refl, sym, ap, ◌∙◌, Bool, true, false, String, Option, none, some, List, [], ◌∷◌, ◌++◌, ◌||◌,
  not, contains, collect, map, All, Bool-cases, inl, inr, arith,
}
use mathlib.Core.Path.{subst}
use structural_reconciliatio.Runtime.{Runtime, float_one}
use structural_reconciliatio.Errors.{Result, ok, traverse, returned_bind, ok_injective}
use structural_reconciliatio.Tree.{require}
use structural_reconciliatio.Contracts.Profiles.{is_enabled, op_insert, op_delete}
use structural_reconciliatio.Contracts.Scores.{plain_confidence}
use structural_reconciliatio.Contracts.Matches.{MatchCandidate}
use structural_reconciliatio.Contracts.Alignments.{
  AlignedPair, AlignedRegion, AlignmentEdgeKind, aligned, source_only, target_only,
  unresolved_source, unresolved_target, is_unresolved, is_unresolved_kind, is_aligned,
}
use structural_reconciliatio.Contracts.Operations.{StructuralOperation, validate_operation}
use structural_reconciliatio.Matching.Ambiguity.{Edge}
use structural_reconciliatio.Classification.Context.{
  ClassificationContext, move_pairs, presence_suppressed_region, presence_suppressed_pair, barred,
  ref_in, ambiguous_refs, emits_all,
}
use structural_reconciliatio.Classification.Presence.{
  is_source_side, delete_operation, insert_operation, source_absence, target_absence,
  presence_of_pair, presence_of_region, classify_presence,
}

All-append {κ} :
    {A : Type 0} (P : A → Type κ) (xs ys : List A) → All P xs → All P ys → All P (xs ++ ys)
All-append P [] ys h k = k
All-append P (x ∷ xs) ys h k = (h.0, All-append P xs ys h.1 k)

-- What each call of a comprehension ensures holds of all that is collected.
All-traverse {κ} :
    {A B : Type 0} (P : B → Type κ) (f : A → Result (List B)) (xs : List A) (out : List (List B))
    → ((x : A) (ys : List B) → f x ≡ ok ys → All P ys)
    → traverse f xs ≡ ok out
    → All P (collect (λ o. o) out)
unfolding traverse collect
All-traverse P f [] out each h = subst (λ o. All P (collect (λ o. o) o)) (ok_injective [] out h) tt
All-traverse P f (x ∷ xs) out each h =
    let (y, p, h₁) = returned_bind (f x) _ h in
    let (ys, q, h₂) = returned_bind (traverse f xs) _ h₁ in
    subst (λ o. All P (collect (λ o. o) o)) (ok_injective (y ∷ ys) out h₂)
      (All-append P y (collect (λ o. o) ys) (each x y p) (All-traverse P f xs ys each q))

module _ ⦃R : Runtime⦄ where
  validate_operation-eq :
      (op made : StructuralOperation) → validate_operation op ≡ ok made → op ≡ made
  unfolding validate_operation
  validate_operation-eq op made h =
      let (_, _, h₁) = returned_bind (require _ _) _ h in
      let (_, _, h₂) = returned_bind (require _ _) _ h₁ in
      let (_, _, h₃) = returned_bind (require _ _) _ h₂ in
      let (_, _, h₄) = returned_bind (require _ _) _ h₃ in ok_injective op made h₄

  delete_operation-refs :
      (sc : String) (unresolved : Bool) (op : StructuralOperation)
      → delete_operation sc unresolved ≡ ok op
      → (op.source_node_refs ≡ sc ∷ []) × (op.target_node_refs ≡ [])
  unfolding delete_operation
  delete_operation-refs sc unresolved op h =
      let (_, _, h₁) = returned_bind (plain_confidence float_one) _ h in
      let e = validate_operation-eq _ op h₁ in
      (
        ap (λ (o : StructuralOperation). o.source_node_refs) (sym e),
        ap (λ (o : StructuralOperation). o.target_node_refs) (sym e),
      )

  insert_operation-refs :
      (tc : String) (unresolved : Bool) (op : StructuralOperation)
      → insert_operation tc unresolved ≡ ok op
      → (op.source_node_refs ≡ []) × (op.target_node_refs ≡ tc ∷ [])
  unfolding insert_operation
  insert_operation-refs tc unresolved op h =
      let (_, _, h₁) = returned_bind (plain_confidence float_one) _ h in
      let e = validate_operation-eq _ op h₁ in
      (
        ap (λ (o : StructuralOperation). o.source_node_refs) (sym e),
        ap (λ (o : StructuralOperation). o.target_node_refs) (sym e),
      )

module _ ⦃R : Runtime⦄ (ctx : ClassificationContext) where
  abbrev open_sources : List String
  open_sources = ambiguous_refs ctx (λ (c : MatchCandidate). c.source_node_ref)

  abbrev open_targets : List String
  open_targets = ambiguous_refs ctx (λ (c : MatchCandidate). c.target_node_ref)

  -- No reference of the operation belongs to an open correspondence or to a move.
  abbrev pub Clear : List String → List String → StructuralOperation → Type 0
  Clear moved_sources moved_targets op =
      All (λ r. (contains r open_sources ≡ false) × (contains r moved_sources ≡ false))
        op.source_node_refs
      × All (λ r. (contains r open_targets ≡ false) × (contains r moved_targets ≡ false))
          op.target_node_refs

  barred-source :
      (kind : AlignmentEdgeKind) (pair : AlignedPair)
      → is_source_side kind ≡ true
      → is_unresolved_kind kind ≡ false
      → barred ctx kind pair ≡ ref_in ctx pair.source_node_ref open_sources
  unfolding is_source_side is_unresolved_kind barred
  barred-source aligned pair u v = cc
  barred-source source_only pair u v = refl
  barred-source target_only pair u v = cc
  barred-source unresolved_source pair u v = cc
  barred-source unresolved_target pair u v = cc

  barred-target :
      (kind : AlignmentEdgeKind) (pair : AlignedPair)
      → is_source_side kind ≡ false
      → is_aligned kind ≡ false
      → is_unresolved_kind kind ≡ false
      → barred ctx kind pair ≡ ref_in ctx pair.target_node_ref open_targets
  unfolding is_source_side is_unresolved_kind barred is_aligned
  barred-target aligned pair u a v = cc
  barred-target source_only pair u a v = cc
  barred-target target_only pair u a v = refl
  barred-target unresolved_source pair u a v = cc
  barred-target unresolved_target pair u a v = cc

  module _ (moved_sources moved_targets : List String) where
    source_absence-Clear :
        (o : Option String) (unresolved : Bool) (ops : List StructuralOperation)
        → ref_in ctx o open_sources ≡ false
        → source_absence ctx moved_sources moved_targets o unresolved ≡ ok ops
        → All (Clear moved_sources moved_targets) ops
    unfolding source_absence ref_in
    source_absence-Clear none unresolved ops free h = cc
    source_absence-Clear (some sc) unresolved ops free h =
        elim (Bool-cases (contains sc moved_sources || not (is_enabled ctx.profile op_delete))) [
          | inl e ↦
              subst (All (Clear moved_sources moved_targets)) (ok_injective [] ops (rw e at h)) tt
          | inr e ↦
              let (op, p, h₁) = returned_bind (delete_operation sc unresolved) _ (rw e at h) in
              let (s, t) = delete_operation-refs sc unresolved op p in
              let still : contains sc moved_sources ≡ false = ground (arith, e) in
              subst (All (Clear moved_sources moved_targets)) (ok_injective (op ∷ []) ops h₁)
                ((rw s ((free, still), tt), rw t tt), tt)
        ]

    target_absence-Clear :
        (o : Option String) (unresolved : Bool) (ops : List StructuralOperation)
        → ref_in ctx o open_targets ≡ false
        → target_absence ctx moved_sources moved_targets o unresolved ≡ ok ops
        → All (Clear moved_sources moved_targets) ops
    unfolding target_absence ref_in
    target_absence-Clear none unresolved ops free h = cc
    target_absence-Clear (some tc) unresolved ops free h =
        elim (Bool-cases (contains tc moved_targets || not (is_enabled ctx.profile op_insert))) [
          | inl e ↦
              subst (All (Clear moved_sources moved_targets)) (ok_injective [] ops (rw e at h)) tt
          | inr e ↦
              let (op, p, h₁) = returned_bind (insert_operation tc unresolved) _ (rw e at h) in
              let (s, t) = insert_operation-refs tc unresolved op p in
              let still : contains tc moved_targets ≡ false = ground (arith, e) in
              subst (All (Clear moved_sources moved_targets)) (ok_injective (op ∷ []) ops h₁)
                ((rw s tt, rw t ((free, still), tt)), tt)
        ]

    module _ (withholds : emits_all ctx ctx.profile.unresolved_presence_policy ≡ false) where
      presence_of_pair-Clear :
          (pair : AlignedPair) (ops : List StructuralOperation)
          → presence_of_pair ctx moved_sources moved_targets pair ≡ ok ops
          → All (Clear moved_sources moved_targets) ops
      unfolding presence_of_pair presence_suppressed_pair
      presence_of_pair-Clear pair ops h =
          elim (Bool-cases (is_aligned pair.kind || presence_suppressed_pair ctx pair)) [
            | inl e ↦
                subst (All (Clear moved_sources moved_targets)) (ok_injective [] ops (rw e at h)) tt
            | inr e ↦
                let one_sided : is_aligned pair.kind ≡ false = ground (arith, e) in
                let settled : is_unresolved_kind pair.kind ≡ false = ground (arith, e, withholds) in
                let clear : barred ctx pair.kind pair ≡ false = ground (arith, e, withholds) in
                let h₁ = rw e at h in
                elim (Bool-cases (is_source_side pair.kind)) [
                  | inl s ↦
                      source_absence-Clear pair.source_node_ref (is_unresolved pair) ops
                        (sym (barred-source pair.kind pair s settled) ∙ clear) (rw s at h₁)
                  | inr t ↦
                      target_absence-Clear pair.target_node_ref (is_unresolved pair) ops
                        (sym (barred-target pair.kind pair t one_sided settled) ∙ clear)
                        (rw t at h₁)
                ]
          ]

      presence_of_region-Clear :
          (region : AlignedRegion) (ops : List StructuralOperation)
          → presence_of_region ctx moved_sources moved_targets region ≡ ok ops
          → All (Clear moved_sources moved_targets) ops
      unfolding presence_of_region
      presence_of_region-Clear region ops h =
          elim (Bool-cases (presence_suppressed_region ctx region)) [
            | inl e ↦
                subst (All (Clear moved_sources moved_targets)) (ok_injective [] ops (rw e at h)) tt
            | inr e ↦
                let (out, p, h₁) =
                  returned_bind
                    (traverse (presence_of_pair ctx moved_sources moved_targets) region.pairs) _
                    (rw e at h) in
                subst (All (Clear moved_sources moved_targets)) (ok_injective _ ops h₁) (
                  All-traverse (Clear moved_sources moved_targets)
                    (presence_of_pair ctx moved_sources moved_targets) region.pairs out
                    presence_of_pair-Clear p)
          ]

  -- Unless the policy is to emit all, no insertion and no deletion that the classifier returns names
  -- a node whose correspondence is open or one that a move pairs.
  pub classify_presence-Clear :
      (moves : List Edge) (ops : List StructuralOperation)
      → emits_all ctx ctx.profile.unresolved_presence_policy ≡ false
      → move_pairs ctx ≡ ok moves
      → classify_presence ctx ≡ ok ops
      → All (Clear (map (λ (e : Edge). e.0) moves) (map (λ (e : Edge). e.1) moves)) ops
  unfolding classify_presence
  classify_presence-Clear moves ops withholds m h =
      let (found, p, h₁) = returned_bind (move_pairs ctx) _ h in
      let same : found ≡ moves = ok_injective found moves (sym p ∙ m) in
      let (out, q, h₂) =
        returned_bind
          (traverse
            (presence_of_region ctx (map (λ (e : Edge). e.0) found) (map (λ (e : Edge). e.1) found))
            ctx.alignment.regions)
          _ h₁ in
      subst
        (λ (es : List Edge).
          All (Clear (map (λ (e : Edge). e.0) es) (map (λ (e : Edge). e.1) es)) ops)
        same
        (subst (All (Clear (map (λ (e : Edge). e.0) found) (map (λ (e : Edge). e.1) found)))
          (ok_injective _ ops h₂)
          (All-traverse (Clear (map (λ (e : Edge). e.0) found) (map (λ (e : Edge). e.1) found)) _
            ctx.alignment.regions out
            (presence_of_region-Clear (map (λ (e : Edge). e.0) found)
              (map (λ (e : Edge). e.1) found) withholds)
            q))
