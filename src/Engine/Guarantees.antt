-- ===== src/Engine/Guarantees.antt =====
-- What every result of the engine satisfies.
use structural_reconciliatio.Base.{
  ◌≡◌, refl, sym, ◌∙◌, Bool, true, false, String, some, List, [], All, sort, ◌++◌, inl, inr, ◌↔◌,
}
use mathlib.Core.Path.{subst}
use structural_reconciliatio.Runtime.{Runtime}
use structural_reconciliatio.Errors.{ok, returned_bind}
use structural_reconciliatio.Contracts.Matches.{
  MatchGraph, MatchCandidate, confirmed_target_for, confirmed_source_for, make_graph, one_to_one,
}
use structural_reconciliatio.Contracts.Matches.Inverse.{confirmed_target_for-inverse}
use structural_reconciliatio.Matching.Matcher.{match_nodes, phase_1, candidate_le}
use structural_reconciliatio.Matching.Similarity.{similarity_matches}
use structural_reconciliatio.Engine.{ReconcileTreesCommand, ReconciliationResult, reconcile}
use structural_reconciliatio.Engine.Outcome.{Admitted, reconcile-cases}
use structural_reconciliatio.Engine.Stages.{normal_source, normal_target}
use structural_reconciliatio.Evidence.{EvidenceIndex, extract, KeyedByRef}
use structural_reconciliatio.Evidence.Totality.{extract-Returns}
use structural_reconciliatio.Normalization.Structure.{normalize-WellFormed}
use structural_reconciliatio.Suppression.Justified.{Justified, suppress-Justified}

module _ ⦃R : Runtime⦄ where
  make_graph-nil : make_graph [] ≡ ok (record { candidates = [] })
  unfolding make_graph one_to_one
  make_graph-nil = refl

module _ ⦃R : Runtime⦄ (command : ReconcileTreesCommand) where
  match_nodes-make_graph :
      (index : EvidenceIndex) (graph : MatchGraph)
      → match_nodes index command.matching_profile ≡ ok graph
      → (candidates : List MatchCandidate) × (make_graph candidates ≡ ok graph)
  unfolding match_nodes
  match_nodes-make_graph index graph h =
      let (first, _, h₁) = returned_bind (phase_1 index command.matching_profile) _ h in
      let (second, _, h₂) =
        returned_bind (similarity_matches index command.matching_profile _ _) _ h₁ in
      (sort candidate_le (first ++ second), h₂)

  -- In the match graph of every result the confirmed matches are one to one: `t` is the target of
  -- `s` exactly where `s` is the source of `t`.
  pub reconcile-one_to_one :
      (result : ReconciliationResult)
      → reconcile command ≡ ok result
      → (s t : String)
      → (confirmed_target_for result.match_graph s ≡ some t)
        ↔ (confirmed_source_for result.match_graph t ≡ some s)
  reconcile-one_to_one result h s t = elim (reconcile-cases command result h) [
    | inl stages ↦
        subst
          (λ (g : MatchGraph).
            (confirmed_target_for g s ≡ some t) ↔ (confirmed_source_for g t ≡ some s))
          (sym stages.graph_is)
          (let (candidates, accepted) =
              match_nodes-make_graph stages.index stages.graph stages.matched in
            confirmed_target_for-inverse candidates stages.graph accepted s t)
    | inr stopped ↦
        confirmed_target_for-inverse [] result.match_graph
          (subst (λ cs. make_graph [] ≡ ok (record { candidates = cs })) (sym stopped.no_candidates)
            make_graph-nil)
          s t
  ]

  -- Each suppressed effect of a complete result is due to one of the result's own operations and to
  -- a rule of the command's profile whose threshold that operation reaches.
  pub reconcile-Justified :
      (result : ReconciliationResult)
      → reconcile command ≡ ok result
      → result.complete ≡ true
      → All
          (Justified result.operations command.suppression_profile)
          result.suppression_result.suppressed_effects
  reconcile-Justified result h e = elim (reconcile-cases command result h) [
    | inl stages ↦
        suppress-Justified (normal_source command) result.operations stages.alignment
          command.suppression_profile result.suppression_result stages.suppressed
    | inr stopped ↦ let clash : ◌≡◌ {A = Bool} false true = sym stopped.marked ∙ e in cc
  ]

  -- Where both trees are well formed and the profiles coherent, extraction from the normalized trees
  -- raises nothing, and each evidence stands under the reference of its own node.
  pub reconcile-extract :
      Admitted command
      → (index : EvidenceIndex) × (extract (normal_source command) (normal_target command)
          ≡ ok index)
        × KeyedByRef index.source
        × KeyedByRef index.target
  reconcile-extract (s, t, _, _) =
      extract-Returns (normal_source command) (normal_target command)
        (normalize-WellFormed command.normalization_profile command.source_tree s)
        (normalize-WellFormed command.normalization_profile command.target_tree t)
