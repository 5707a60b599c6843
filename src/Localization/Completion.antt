-- ===== src/Localization/Completion.antt =====
-- `validate` returns a localization result for every core result within bounds.

use mathlib.Core.Path.{subst}
use structural_reconciliatio.Base.{
  All-of_contains, ℕ, suc, ◌≡◌, refl, sym, ap, ◌∙◌, String, Bool, true, false, Option, none, some,
  List, [], ◌∷◌, not, filter, All, All-each, All-join, All-collect_on, All-each_on, Bool-cases,
  Option-cases, inl, inr, arith, lookup, put, lookup-put, sort_texts, is_some, Dict, ◌==◌, is_empty,
  contains, contains-sort_texts,
}
use structural_reconciliatio.Runtime.{Runtime, Float, float_one}
use structural_reconciliatio.Errors.{
  ok, Returns, Returns-bind, ok_injective, range, executable_repair, auto_fix,
  preconditions_required, changes_required,
}
use structural_reconciliatio.Contracts.Profiles.{op_delete, op_insert, op_move, op_reorder}
use structural_reconciliatio.Contracts.Matches.{
  MatchCandidate, confirmed_candidates, ambiguous_candidates, is_confirmed,
}
use structural_reconciliatio.Contracts.Operations.{StructuralOperation, has_type, of_type}
use structural_reconciliatio.Engine.{EngineDiagnostic, ReconciliationResult}
use structural_reconciliatio.Localization.Contracts.{
  AuthoritativeSide, LocalizationStatus, confirmed_match, probable_match, ambiguous_match,
  missing_in_locale, extra_in_locale, wrong_parent, wrong_order, moved, source_updated,
  locale_diverged, identifier_conflict, exempt_locale_variation, LocalizationIssue, RepairOperation,
  move_node, reorder_nodes, add_node, remove_node, repair_translation, validate_recommendation,
  optional_in_unit,
}
use structural_reconciliatio.Localization.Recommendations.{
  status_operation, preconditions_of, changes_of, or_one, repair_confidence_of, proposed_operation,
  make_recommendation, recommend,
}
use structural_reconciliatio.Localization.Interpretation.{
  index_moves, index_all_moves, move_index, is_duplicate_id, ambiguous_sources,
}
use structural_reconciliatio.Localization.Drafts.{
  confirmed_threshold, ambiguity_issue, order_issue, conflict_issue,
}
use structural_reconciliatio.Localization.Interpreter.{
  Interpretation, correspondence_drafts, ambiguity_drafts, order_drafts, presence_drafts,
  conflict_drafts, correspondence_draft, deletion_draft, insertion_draft, presence_draft, drafts,
  is_contradictory, consistent_issues, interpret,
}
use structural_reconciliatio.Localization.Service.{operations_by_id, validate_localization}
use structural_reconciliatio.Localization.Links.{proposed_operation-some}
use structural_reconciliatio.Localization.Totality.{
  Bounded, BoundedCandidate, BoundedOperation, BoundedIssue, Drawn, WithinBounds, number-Draws,
  correspondence_issue-Drawn, ambiguity_issue-Drawn, order_issue-Drawn, presence_issue-Drawn,
  conflict_issue-Drawn, require-passed, Bounded-min_float, All-filtered,
}

module _ ⦃R : Runtime⦄ where
  abbrev BoundedValues : Dict StructuralOperation → Type 0
  BoundedValues d =
      (k : String) (op : StructuralOperation) → lookup d k ≡ some op → BoundedOperation op

  BoundedValues-put :
      (d : Dict StructuralOperation) (k : String) (op : StructuralOperation)
      → BoundedValues d
      → BoundedOperation op
      → BoundedValues (put d k op)
  BoundedValues-put d k op h b j found e = elim (Bool-cases (k == j)) [
    | inl same ↦
        let here : some found ≡ some op = sym e ∙ lookup-put d k j op ∙ rw same in
        subst
          (λ (o : Option StructuralOperation). elim o [
            | none ↦ Unit {0}
            | some p ↦ BoundedOperation p
          ])
          (sym here) b
    | inr other ↦ h j found (ground (arith, lookup-put d k j op, e, other))
  ]

  BoundedValues-index_moves :
      (d : Dict StructuralOperation) (op : StructuralOperation) (refs : List String)
      → BoundedValues d
      → BoundedOperation op
      → BoundedValues (index_moves d op refs)
  unfolding index_moves
  BoundedValues-index_moves d op [] h b = h
  BoundedValues-index_moves d op (ref ∷ refs) h b =
      BoundedValues-index_moves (put d ref op) op refs (BoundedValues-put d ref op h b) b

  BoundedValues-index_all_moves :
      (d : Dict StructuralOperation) (ops : List StructuralOperation)
      → BoundedValues d
      → All BoundedOperation ops
      → BoundedValues (index_all_moves d ops)
  unfolding index_all_moves
  BoundedValues-index_all_moves d [] h b = h
  BoundedValues-index_all_moves d (op ∷ ops) h b =
      BoundedValues-index_all_moves (index_moves d op op.source_node_refs) ops
        (BoundedValues-index_moves d op op.source_node_refs h b.0) b.1

  BoundedValues-move_index :
      (result : ReconciliationResult) → WithinBounds result → BoundedValues (move_index result)
  unfolding move_index of_type lookup
  BoundedValues-move_index result h =
      BoundedValues-index_all_moves [] (of_type op_move result.operations) (λ k op e. cc)
        (All-filtered BoundedOperation (has_type op_move) result.operations h.operations)

  module _ (i : Interpretation) (h : WithinBounds i.result) where
    correspondence_draft-Drawn :
        (c : MatchCandidate) → BoundedCandidate c → All Drawn (correspondence_draft i c)
    unfolding correspondence_draft
    correspondence_draft-Drawn c b =
        elim (Option-cases (lookup i.source_tree.nodes c.source_node_ref)) [
          | inl gone ↦ rw (gone, correspondence_draft) tt
          | inr (node, found) ↦ elim (Bool-cases (is_some node.parent_ref)) [
            | inl below ↦
                rw (found, correspondence_draft)
                  (rw below (
                    correspondence_issue-Drawn c node _
                        (lookup (move_index i.result) c.source_node_ref)
                        (confirmed_threshold i.policy) b
                        (λ op e. BoundedValues-move_index i.result h c.source_node_ref op e),
                    tt,
                  ))
            | inr root ↦ rw (found, correspondence_draft) (rw root tt)
          ]
        ]

    presence_draft-Drawn :
        (op : StructuralOperation) → BoundedOperation op → All Drawn (presence_draft i op)
    unfolding presence_draft deletion_draft insertion_draft
    presence_draft-Drawn op b = elim (Bool-cases (has_type op_delete op)) [
      | inl deletes ↦
          rw (deletes, presence_draft)
            (elim op.source_node_refs
              as (λ refs.
                All Drawn (elim refs [ [] ↦ [] | ref ∷ rest ↦ deletion_draft i op ref ∷ [] ])) [
                  | [] ↦ tt
                  | ref ∷ refs ↦
                      (presence_issue-Drawn op _ _ _ _ _ missing_in_locale refl refl b, tt)
                ])
      | inr keeps ↦ elim (Bool-cases (has_type op_insert op)) [
        | inl inserts ↦
            rw (keeps, presence_draft)
              (rw inserts
                (elim op.target_node_refs
                  as (λ refs.
                    All Drawn
                      (elim refs [ [] ↦ [] | ref ∷ rest ↦ insertion_draft i op ref ∷ [] ])) [
                        | [] ↦ tt
                        | ref ∷ refs ↦
                            (presence_issue-Drawn op _ _ _ _ _ extra_in_locale refl refl b, tt)
                      ]))
        | inr other ↦ rw (keeps, presence_draft) (rw other tt)
      ]
    ]

    drafts-Drawn : All Drawn (drafts i)
    unfolding drafts correspondence_drafts ambiguity_drafts order_drafts presence_drafts
        conflict_drafts confirmed_candidates of_type
    drafts-Drawn =
        let contested = ambiguous_sources (ambiguous_candidates i.result.match_graph) in
        let correspondences : All Drawn (correspondence_drafts i) =
          All-collect_on Drawn BoundedCandidate (correspondence_draft i)
            (confirmed_candidates i.result.match_graph) correspondence_draft-Drawn
            (All-filtered BoundedCandidate is_confirmed i.result.match_graph.candidates
              h.candidates) in
        let ambiguities : All Drawn (ambiguity_drafts i) =
          All-each_on Drawn (λ ref. contains ref contested ≡ true)
            (ambiguity_issue i.result i.source_tree) (sort_texts contested)
            (λ ref m. ambiguity_issue-Drawn i.result i.source_tree ref h m)
            (All-of_contains (λ ref. contains ref contested ≡ true) (sort_texts contested)
              (λ ref m. sym (contains-sort_texts ref contested) ∙ m)) in
        let orders : All Drawn (order_drafts i) =
          All-each_on Drawn BoundedOperation order_issue (of_type op_reorder i.result.operations)
            order_issue-Drawn
            (All-filtered BoundedOperation (has_type op_reorder) i.result.operations
              h.operations) in
        let presences : All Drawn (presence_drafts i) =
          All-collect_on Drawn BoundedOperation (presence_draft i) i.result.operations
            presence_draft-Drawn h.operations in
        let conflicts : All Drawn (conflict_drafts i) =
          All-each Drawn (λ (d : EngineDiagnostic). conflict_issue)
            (filter is_duplicate_id i.result.diagnostics) (λ d. conflict_issue-Drawn) in
        let join = All-join Drawn in
        join (correspondence_drafts i) _ correspondences (
          join (ambiguity_drafts i) _ ambiguities (
            join (order_drafts i) _ orders
              (join (presence_drafts i) (conflict_drafts i) presences conflicts)))

    pub interpret-BoundedIssue :
        (issues : List LocalizationIssue) × (interpret i ≡ ok issues) × All BoundedIssue issues
    unfolding interpret consistent_issues
    interpret-BoundedIssue =
        let (numbered, made, bounds) = number-Draws 0 (drafts i) drafts-Drawn in
        (
          consistent_issues i.result numbered,
          rw (made, interpret),
          All-filtered BoundedIssue (λ issue. not (is_contradictory i.result issue)) numbered
              bounds,
        )

abbrev lists_none : Option RepairOperation → Bool
lists_none none = false
lists_none (some operation) = is_empty (preconditions_of operation)

lists_none-status_operation :
    (status : LocalizationStatus) → lists_none (status_operation status) ≡ false
unfolding status_operation preconditions_of is_empty
lists_none-status_operation confirmed_match = refl
lists_none-status_operation probable_match = refl
lists_none-status_operation ambiguous_match = refl
lists_none-status_operation missing_in_locale = refl
lists_none-status_operation extra_in_locale = refl
lists_none-status_operation wrong_parent = refl
lists_none-status_operation wrong_order = refl
lists_none-status_operation moved = refl
lists_none-status_operation source_updated = refl
lists_none-status_operation locale_diverged = refl
lists_none-status_operation identifier_conflict = refl
lists_none-status_operation exempt_locale_variation = refl

is_empty-changes_of : (operation : RepairOperation) → is_empty (changes_of operation) ≡ false
unfolding changes_of is_empty
is_empty-changes_of move_node = refl
is_empty-changes_of reorder_nodes = refl
is_empty-changes_of add_node = refl
is_empty-changes_of remove_node = refl
is_empty-changes_of repair_translation = refl

module _ ⦃R : Runtime⦄ where
  -- What `float` documents of products and rounding between 0 and 1.
  pub record UnitArithmetic : Type 0 where
    pub one : Bounded float_one
    pub scaled : (x : Float) → Bounded x → Bounded (R.round6 (R.mul x (R.decimal 9 1)))

  module _ (laws : UnitArithmetic) where
    pub Bounded-or_one : (o : Option Float) → optional_in_unit o ≡ true → Bounded (or_one o)
    unfolding or_one optional_in_unit
    Bounded-or_one none h = laws.one
    Bounded-or_one (some x) h = h

    make_recommendation-Returns :
        (side : AuthoritativeSide) (operations : Dict StructuralOperation) (counter : ℕ)
        (operation : RepairOperation) (issue : LocalizationIssue)
        → BoundedIssue issue
        → is_empty (preconditions_of operation) ≡ false
        → Returns (make_recommendation side operations counter operation issue)
    unfolding make_recommendation validate_recommendation repair_confidence_of
    make_recommendation-Returns side operations counter operation issue h listed = (
      _,
      require-passed _ range _ (
            laws.scaled _ (
              Bounded-min_float (or_one issue.match_confidence) (or_one issue.operation_confidence)
                (Bounded-or_one issue.match_confidence h.0)
                (Bounded-or_one issue.operation_confidence h.1)))
          ∙ require-passed _ executable_repair _ refl
          ∙ require-passed _ auto_fix _ refl
          ∙ require-passed _ preconditions_required _ (rw listed)
          ∙ require-passed _ changes_required _ (rw (is_empty-changes_of operation)),
    )

    proposed_operation-listed :
        (issue : LocalizationIssue) (operation : RepairOperation)
        → proposed_operation issue ≡ some operation
        → is_empty (preconditions_of operation) ≡ false
    proposed_operation-listed issue operation h =
        ap lists_none (sym (proposed_operation-some issue operation h).0)
        ∙ lists_none-status_operation issue.localization_status

    recommend-Returns :
        (side : AuthoritativeSide) (operations : Dict StructuralOperation) (counter : ℕ)
        (issues : List LocalizationIssue)
        → All BoundedIssue issues
        → Returns (recommend side operations counter issues)
    unfolding recommend
    recommend-Returns side operations counter [] h = ([], refl)
    recommend-Returns side operations counter (issue ∷ issues) h =
        elim (Option-cases (proposed_operation issue)) [
          | inl nothing ↦
              let (repairs, made) = recommend-Returns side operations counter issues h.1 in
              (repairs, rw (nothing, recommend) made)
          | inr (operation, proposed) ↦
              let (repair, made) =
                make_recommendation-Returns side operations (suc counter) operation issue h.0
                  (proposed_operation-listed issue operation proposed) in
              let (repairs, others) = recommend-Returns side operations (suc counter) issues h.1 in
              (repair ∷ repairs, rw (proposed, recommend) (rw made (rw others)))
        ]

    -- Where the confidences of the core result lie between 0 and 1, and so does 0.9 times such a
    -- number, rounded, the interpretation returns a localization result: no status is missing from
    -- the table of severities, no group of candidates is empty, and no validator of an issue or of a
    -- recommendation raises.
    pub validate_localization-Returns :
        (i : Interpretation) (side : AuthoritativeSide)
        → WithinBounds i.result
        → Returns (validate_localization i side)
    unfolding validate_localization
    validate_localization-Returns i side h =
        let (issues, interpreted, bounds) = interpret-BoundedIssue i h in
        Returns-bind (interpret i) _ (issues, interpreted)
          (λ found e.
            Returns-bind (recommend side _ 0 found) _
              (recommend-Returns side (operations_by_id [] i.result.operations) 0 found
                (subst (All BoundedIssue) (ok_injective issues found (sym interpreted ∙ e)) bounds))
              (λ repairs planned. (_, refl)))
