-- ===== src/Localization/Interpreter.antt =====
-- application/services/localization_validation.py: `_interpret`, its loops in their order.
use structural_reconciliatio.Base.{
  String, Bool, Option, none, some, List, [], ◌∷◌, ◌++◌, lookup, ◌&&◌, not, map, filter, collect,
  sort_texts, is_some, if◌then◌else◌,
}
use structural_reconciliatio.Runtime.{Runtime}
use structural_reconciliatio.Errors.{Result, ok, ◌>>=◌}
use structural_reconciliatio.Tree.{CanonicalTree}
use structural_reconciliatio.Contracts.Profiles.{op_delete, op_insert, op_reorder}
use structural_reconciliatio.Contracts.Matches.{
  MatchCandidate, confirmed_candidates, ambiguous_candidates,
}
use structural_reconciliatio.Contracts.Alignments.{unresolved_source_refs, unresolved_target_refs}
use structural_reconciliatio.Contracts.Operations.{StructuralOperation, has_type, of_type}
use structural_reconciliatio.Engine.{EngineDiagnostic, ReconciliationResult}
use structural_reconciliatio.Suppression.{is_member}
use structural_reconciliatio.Localization.Contracts.{
  missing_in_locale, extra_in_locale, LocalizationIssue, has_status,
}
use structural_reconciliatio.Localization.Policy.{LocaleVariationPolicy, exemption_for}
use structural_reconciliatio.Localization.Interpretation.{
  is_duplicate_id, move_index, ambiguous_sources, ambiguous_targets, Draft, number,
}
use structural_reconciliatio.Localization.Drafts.{
  confirmed_threshold, correspondence_issue, ambiguity_issue, order_issue, node_type_of,
  presence_issue, conflict_issue,
}

module _ ⦃R : Runtime⦄ where
  -- What `_interpret` is called with.
  pub record Interpretation : Type 0 where
    pub result : ReconciliationResult
    pub source_tree : CanonicalTree
    pub locale_tree : CanonicalTree
    pub locale : String
    pub policy : Option LocaleVariationPolicy

  -- A confirmed pair gives an issue, but for a source node that is not there or is the root.
  unfoldable pub correspondence_draft : Interpretation → MatchCandidate → List Draft
  correspondence_draft i c = elim (lookup i.source_tree.nodes c.source_node_ref) [
    | none ↦ []
    | some source_node ↦
        if is_some source_node.parent_ref
        then correspondence_issue c source_node (lookup i.locale_tree.nodes c.target_node_ref)
            (lookup (move_index i.result) c.source_node_ref) (confirmed_threshold i.policy)
          ∷ []
        else []
  ]

  unfoldable pub deletion_draft : Interpretation → StructuralOperation → String → Draft
  deletion_draft i op ref =
      let node = lookup i.source_tree.nodes ref in
      presence_issue op (some ref) none node none
        (exemption_for i.policy i.locale op.type (node_type_of node)) missing_in_locale

  unfoldable pub insertion_draft : Interpretation → StructuralOperation → String → Draft
  insertion_draft i op ref =
      let node = lookup i.locale_tree.nodes ref in
      presence_issue op none (some ref) none node
        (exemption_for i.policy i.locale op.type (node_type_of node)) extra_in_locale

  unfoldable pub presence_draft : Interpretation → StructuralOperation → List Draft
  presence_draft i op =
      if has_type op_delete op
      then elim op.source_node_refs [ [] ↦ [] | ref ∷ refs ↦ deletion_draft i op ref ∷ [] ]
      else if has_type op_insert op
      then elim op.target_node_refs [ [] ↦ [] | ref ∷ refs ↦ insertion_draft i op ref ∷ [] ]
      else []

  -- The five loops, in the order in which they take their identifiers.
  unfoldable pub correspondence_drafts : Interpretation → List Draft
  correspondence_drafts i =
      collect (correspondence_draft i) (confirmed_candidates i.result.match_graph)

  unfoldable pub ambiguity_drafts : Interpretation → List Draft
  ambiguity_drafts i =
      map (ambiguity_issue i.result i.source_tree)
        (sort_texts (ambiguous_sources (ambiguous_candidates i.result.match_graph)))

  unfoldable pub order_drafts : Interpretation → List Draft
  order_drafts i = map order_issue (of_type op_reorder i.result.operations)

  unfoldable pub presence_drafts : Interpretation → List Draft
  presence_drafts i = collect (presence_draft i) i.result.operations

  unfoldable pub conflict_drafts : Interpretation → List Draft
  conflict_drafts i =
      map (λ (d : EngineDiagnostic). conflict_issue) (filter is_duplicate_id i.result.diagnostics)

  unfoldable pub drafts : Interpretation → List Draft
  drafts i =
      correspondence_drafts i
      ++ (ambiguity_drafts i ++ (order_drafts i ++ (presence_drafts i ++ conflict_drafts i)))

  -- `ambiguous_sources` and `ambiguous_targets` of `_without_contradictory_presence`
  unfoldable pub contested_sources : ReconciliationResult → List String
  contested_sources result =
      ambiguous_sources (ambiguous_candidates result.match_graph)
      ++ collect unresolved_source_refs result.alignment_result.regions

  unfoldable pub contested_targets : ReconciliationResult → List String
  contested_targets result =
      ambiguous_targets (ambiguous_candidates result.match_graph)
      ++ collect unresolved_target_refs result.alignment_result.regions

  -- A presence status at a node whose correspondence is open.
  unfoldable pub is_contradictory : ReconciliationResult → LocalizationIssue → Bool
  is_contradictory result issue =
      if has_status missing_in_locale issue
      then is_member issue.source_node_ref (contested_sources result)
      else has_status extra_in_locale issue
        && is_member issue.locale_node_ref (contested_targets result)

  -- `_without_contradictory_presence`
  unfoldable pub consistent_issues :
      ReconciliationResult → List LocalizationIssue → List LocalizationIssue
  consistent_issues result issues = filter (λ issue. not (is_contradictory result issue)) issues

  -- `_interpret`
  unfoldable pub interpret : Interpretation → Result (List LocalizationIssue)
  interpret i = do issues ← number 0 (drafts i); ok (consistent_issues i.result issues)
