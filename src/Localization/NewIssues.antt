-- ===== src/Localization/NewIssues.antt =====
-- Every issue that the interpreter writes has the identifier it was given, and no repair.
use structural_reconciliatio.Base.{
  ◌≡◌, refl, String, Option, List, [], ◌∷◌, filter, All, All-each, All-join, All-collect,
  Bool-cases, Option-cases, inl, inr, lookup, sort_texts, is_some,
}
use structural_reconciliatio.Runtime.{Runtime, Float}
use structural_reconciliatio.Errors.{ok, returned_bind, ok_injective}
use mathlib.Core.Path.{subst}
use structural_reconciliatio.Tree.{CanonicalNode, CanonicalTree}
use structural_reconciliatio.Contracts.Profiles.{op_delete, op_insert, op_reorder}
use structural_reconciliatio.Contracts.Matches.{
  MatchCandidate, confirmed_candidates, ambiguous_candidates,
}
use structural_reconciliatio.Contracts.Operations.{StructuralOperation, has_type, of_type}
use structural_reconciliatio.Engine.{EngineDiagnostic, ReconciliationResult}
use structural_reconciliatio.Localization.Contracts.{
  LocalizationStatus, missing_in_locale, extra_in_locale, LocalizationIssue,
}
use structural_reconciliatio.Localization.Interpretation.{
  severity_of, group_of, group_confidence, ambiguous_sources, is_duplicate_id, number,
}
use structural_reconciliatio.Localization.Drafts.{
  confirmed_threshold, correspondence_issue, ambiguity_issue, order_issue, presence_issue,
  conflict_issue,
}
use structural_reconciliatio.Localization.Interpreter.{
  Interpretation, correspondence_drafts, ambiguity_drafts, order_drafts, presence_drafts,
  conflict_drafts, correspondence_draft, deletion_draft, insertion_draft, presence_draft, drafts,
  consistent_issues, interpret,
}
use structural_reconciliatio.Localization.Numbering.{
  made_issue, Fresh, MakesFresh, Ascending, Ascending-number, Ascending-filter,
}

module _ ⦃R : Runtime⦄ where
  correspondence_issue-Fresh :
      (c : MatchCandidate) (node : CanonicalNode) (other : Option CanonicalNode)
      (move : Option StructuralOperation) (threshold : Float)
      → MakesFresh (correspondence_issue c node other move threshold)
  unfolding correspondence_issue
  correspondence_issue-Fresh c node other move threshold id issue h =
      let (_, _, written) = returned_bind (severity_of _) _ h in
      made_issue (Fresh id) _ issue (record { numbered = refl; unlinked = refl; unrepaired = refl })
        written

  ambiguity_issue-Fresh :
      (result : ReconciliationResult) (tree : CanonicalTree) (ref : String)
      → MakesFresh (ambiguity_issue result tree ref)
  unfolding ambiguity_issue
  ambiguity_issue-Fresh result tree ref id issue h =
      let (_, _, written) = returned_bind (group_confidence (group_of result ref)) _ h in
      made_issue (Fresh id) _ issue (record { numbered = refl; unlinked = refl; unrepaired = refl })
        written

  order_issue-Fresh : (op : StructuralOperation) → MakesFresh (order_issue op)
  unfolding order_issue
  order_issue-Fresh op id issue h =
      made_issue (Fresh id) _ issue (record { numbered = refl; unlinked = refl; unrepaired = refl })
        h

  presence_issue-Fresh :
      (op : StructuralOperation) (s t : Option String) (m n : Option CanonicalNode)
      (exemption : Option String) (default : LocalizationStatus)
      → MakesFresh (presence_issue op s t m n exemption default)
  unfolding presence_issue
  presence_issue-Fresh op s t m n exemption default id issue h =
      let (_, _, written) = returned_bind (severity_of _) _ h in
      made_issue (Fresh id) _ issue (record { numbered = refl; unlinked = refl; unrepaired = refl })
        written

  conflict_issue-Fresh : MakesFresh conflict_issue
  unfolding conflict_issue
  conflict_issue-Fresh id issue h =
      made_issue (Fresh id) _ issue (record { numbered = refl; unlinked = refl; unrepaired = refl })
        h

  correspondence_draft-Fresh :
      (i : Interpretation) (c : MatchCandidate) → All MakesFresh (correspondence_draft i c)
  unfolding correspondence_draft
  correspondence_draft-Fresh i c =
      elim (Option-cases (lookup i.source_tree.nodes c.source_node_ref)) [
        | inl gone ↦ rw (gone, correspondence_draft) tt
        | inr (node, found) ↦ elim (Bool-cases (is_some node.parent_ref)) [
          | inl below ↦
              rw (found, correspondence_draft)
                (rw below
                  (correspondence_issue-Fresh c node _ _ (confirmed_threshold i.policy), tt))
          | inr root ↦ rw (found, correspondence_draft) (rw root tt)
        ]
      ]

  presence_draft-Fresh :
      (i : Interpretation) (op : StructuralOperation) → All MakesFresh (presence_draft i op)
  unfolding presence_draft deletion_draft insertion_draft
  presence_draft-Fresh i op = elim (Bool-cases (has_type op_delete op)) [
    | inl deletes ↦
        rw (deletes, presence_draft)
          (elim op.source_node_refs
            as (λ refs.
              All MakesFresh (elim refs [ [] ↦ [] | ref ∷ rest ↦ deletion_draft i op ref ∷ [] ])) [
                | [] ↦ tt
                | ref ∷ refs ↦ (presence_issue-Fresh op _ _ _ _ _ missing_in_locale, tt)
              ])
    | inr keeps ↦ elim (Bool-cases (has_type op_insert op)) [
      | inl inserts ↦
          rw (keeps, presence_draft)
            (rw inserts
              (elim op.target_node_refs
                as (λ refs.
                  All MakesFresh
                    (elim refs [ [] ↦ [] | ref ∷ rest ↦ insertion_draft i op ref ∷ [] ])) [
                      | [] ↦ tt
                      | ref ∷ refs ↦ (presence_issue-Fresh op _ _ _ _ _ extra_in_locale, tt)
                    ]))
      | inr other ↦ rw (keeps, presence_draft) (rw other tt)
    ]
  ]

  drafts-Fresh : (i : Interpretation) → All MakesFresh (drafts i)
  unfolding drafts correspondence_drafts ambiguity_drafts order_drafts presence_drafts
      conflict_drafts
  drafts-Fresh i =
      let correspondences : All MakesFresh (correspondence_drafts i) =
        All-collect MakesFresh (correspondence_draft i) (confirmed_candidates i.result.match_graph)
          (correspondence_draft-Fresh i) in
      let ambiguities : All MakesFresh (ambiguity_drafts i) =
        All-each MakesFresh (ambiguity_issue i.result i.source_tree)
          (sort_texts (ambiguous_sources (ambiguous_candidates i.result.match_graph)))
          (ambiguity_issue-Fresh i.result i.source_tree) in
      let orders : All MakesFresh (order_drafts i) =
        All-each MakesFresh order_issue (of_type op_reorder i.result.operations)
          order_issue-Fresh in
      let presences : All MakesFresh (presence_drafts i) =
        All-collect MakesFresh (presence_draft i) i.result.operations (presence_draft-Fresh i) in
      let conflicts : All MakesFresh (conflict_drafts i) =
        All-each MakesFresh (λ (d : EngineDiagnostic). conflict_issue)
          (filter is_duplicate_id i.result.diagnostics) (λ d. conflict_issue-Fresh) in
      let join = All-join MakesFresh in
      join (correspondence_drafts i) _ correspondences (
        join (ambiguity_drafts i) _ ambiguities (
          join (order_drafts i) _ orders
            (join (presence_drafts i) (conflict_drafts i) presences conflicts)))

  -- The identifiers of the interpreted issues grow, and none has a repair yet.
  pub Ascending-interpret :
      (i : Interpretation) (issues : List LocalizationIssue)
      → interpret i ≡ ok issues
      → Ascending 0 issues
  unfolding interpret consistent_issues
  Ascending-interpret i issues h =
      let (numbered, made, h₁) = returned_bind (number 0 (drafts i)) _ h in
      subst (Ascending 0) (ok_injective _ issues h₁) (
        Ascending-filter _ 0 numbered
          (Ascending-number 0 (drafts i) numbered (drafts-Fresh i) made))
