-- ===== src/Localization/Totality.antt =====
-- The interpretation raises nothing on a core result whose confidences are within bounds.
use structural_reconciliatio.Base.{
  ℕ, suc, ◌≡◌, refl, ◌∙◌, String, Bool, true, false, Option, none, some, List, [], ◌∷◌, not, ◌&&◌,
  filter, All, Bool-cases, inl, inr, arith, is_some, All-Memᴰ, All-of_Memᴰ, is_empty, contains,
  ◌==◌, sym, eq→path, eq_refl, if◌then◌else◌,
}
use structural_reconciliatio.Runtime.{Runtime, Float, min_float, max_float, lt, ◌<=◌}
use structural_reconciliatio.Errors.{
  ok, Result, Returns, Invariant, range, auto_fix, repair_not_recommended, exempt_without_rule,
  ◌>>=◌,
}
use structural_reconciliatio.Tree.{CanonicalNode, CanonicalTree, require}
use structural_reconciliatio.Contracts.Profiles.{in_unit, truthy}
use structural_reconciliatio.Contracts.Matches.{MatchCandidate, ambiguous_candidates, is_ambiguous}
use structural_reconciliatio.Contracts.Operations.{StructuralOperation}
use structural_reconciliatio.Engine.{ReconciliationResult}
use structural_reconciliatio.Suppression.Rounds.{Memᴰ-filter}
use structural_reconciliatio.Localization.Contracts.{
  LocalizationStatus, confirmed_match, probable_match, ambiguous_match, missing_in_locale,
  extra_in_locale, wrong_parent, wrong_order, moved, source_updated, locale_diverged,
  identifier_conflict, exempt_locale_variation, TranslationState, LocalizationIssue, validate_issue,
  optional_in_unit, has_status, same_status,
}
use structural_reconciliatio.Localization.Interpretation.{
  severity_of, is_stale, Draft, number, group_of, group_confidence, max_confidence,
  ambiguous_sources,
}
use structural_reconciliatio.Localization.Open.{contains-add_member}
use structural_reconciliatio.Localization.Drafts.{
  correspondence_issue, ambiguity_issue, order_issue, presence_issue, conflict_issue,
  correspondence_status, translation_state_of,
}

module _ ⦃R : Runtime⦄ where
  abbrev pub Bounded : Float → Type 0
  Bounded x = in_unit x ≡ true

  pub require-passed {κ} :
      {Out : Type κ} (test : Bool) (rule : Invariant) (next : Unit {0} → Result Out)
      → test ≡ true
      → require test rule >>= next ≡ next tt
  unfolding require
  require-passed test rule next h = rw (h, require)

  abbrev pub BoundedIssue : LocalizationIssue → Type 0
  BoundedIssue issue =
      (optional_in_unit issue.match_confidence ≡ true)
      × (optional_in_unit issue.operation_confidence ≡ true)

  -- A call that returns an issue within bounds.
  abbrev pub Draws : Result LocalizationIssue → Type 0
  Draws call = (issue : LocalizationIssue) × (call ≡ ok issue) × BoundedIssue issue

  pub validate_issue-Draws :
      (issue : LocalizationIssue)
      → optional_in_unit issue.match_confidence ≡ true
      → optional_in_unit issue.operation_confidence ≡ true
      → issue.repair_confidence ≡ none
      → issue.auto_fix_eligible ≡ false
      → not (has_status exempt_locale_variation issue && not (truthy issue.policy_exemption)) ≡ true
      → Draws (validate_issue issue)
  unfolding validate_issue optional_in_unit is_some
  validate_issue-Draws issue m o r a e =
      let absent : optional_in_unit issue.repair_confidence ≡ true = rw (r, optional_in_unit) in
      let unlinked : not (not (is_some issue.recommendation_id) && is_some issue.repair_confidence)
          ≡ true =
        rw (r, is_some) (ground arith) in
      let manual : not issue.auto_fix_eligible ≡ true = rw a in
      (
        issue,
        require-passed _ range _ m
            ∙ require-passed _ range _ o
            ∙ require-passed _ range _ absent
            ∙ require-passed _ auto_fix _ manual
            ∙ require-passed _ repair_not_recommended _ unlinked
            ∙ require-passed _ exempt_without_rule _ e,
        (m, o),
      )

  -- A draft that becomes an issue whatever number it takes.
  abbrev pub Drawn : Draft → Type 0
  Drawn draft = (id : ℕ) → Draws (draft id)

  pub number-Draws :
      (n : ℕ) (drafts : List Draft)
      → All Drawn drafts
      → (issues : List LocalizationIssue) × (number n drafts ≡ ok issues) × All BoundedIssue issues
  unfolding number
  number-Draws n [] h = ([], refl, tt)
  number-Draws n (draft ∷ drafts) h =
      let (issue, made, bounds) = h.0 (suc n) in
      let (rest, others, all) = number-Draws (suc n) drafts h.1 in
      (issue ∷ rest, rw (made, number) (rw others), (bounds, all))

  Bounded-max_float : (a b : Float) → Bounded a → Bounded b → Bounded (max_float a b)
  Bounded-max_float a b h k = elim (Bool-cases (lt a b)) [ inl e ↦ rw e k | inr e ↦ rw e h ]

  pub Bounded-min_float : (a b : Float) → Bounded a → Bounded b → Bounded (min_float a b)
  Bounded-min_float a b h k = elim (Bool-cases (lt b a)) [ inl e ↦ rw e k | inr e ↦ rw e h ]

  abbrev pub BoundedCandidate : MatchCandidate → Type 0
  BoundedCandidate c = Bounded c.confidence.value

  abbrev pub BoundedOperation : StructuralOperation → Type 0
  BoundedOperation op = Bounded op.confidence.value

  Bounded-max_confidence :
      (best : Float) (cs : List MatchCandidate)
      → Bounded best
      → All BoundedCandidate cs
      → Bounded (max_confidence best cs)
  unfolding max_confidence
  Bounded-max_confidence best [] h k = h
  Bounded-max_confidence best (c ∷ cs) h k =
      Bounded-max_confidence (max_float best c.confidence.value) cs
        (Bounded-max_float best c.confidence.value h k.0) k.1

  group_confidence-Bounded :
      (cs : List MatchCandidate)
      → is_empty cs ≡ false
      → All BoundedCandidate cs
      → (x : Float) × (group_confidence cs ≡ ok x) × Bounded x
  unfolding group_confidence is_empty
  group_confidence-Bounded [] some_there h = cc
  group_confidence-Bounded (c ∷ cs) some_there h =
      (_, refl, Bounded-max_confidence c.confidence.value cs h.0 h.1)

  -- A source of the ambiguous candidates has a group.
  is_empty-group :
      (ref : String) (cs : List MatchCandidate)
      → contains ref (ambiguous_sources cs) ≡ true
      → is_empty (filter (λ (c : MatchCandidate). c.source_node_ref == ref) cs) ≡ false
  unfolding ambiguous_sources filter contains is_empty
  is_empty-group ref [] m = cc
  is_empty-group ref (c ∷ cs) m = elim (Bool-cases (c.source_node_ref == ref)) [
    | inl same ↦ rw same refl
    | inr other ↦ rw other (
        is_empty-group ref cs (
          ground (
            arith,
            sym (contains-add_member (ambiguous_sources cs) c.source_node_ref ref) ∙ m,
            other,
            eq→path ref c.source_node_ref,
            eq_refl ref,
          )))
  ]

  -- The table of severities has every status but `MOVED`.
  severity_of-Returns :
      (status : LocalizationStatus)
      → same_status status moved ≡ false
      → Returns (severity_of status)
  unfolding severity_of
  severity_of-Returns confirmed_match h = (_, refl)
  severity_of-Returns probable_match h = (_, refl)
  severity_of-Returns ambiguous_match h = (_, refl)
  severity_of-Returns missing_in_locale h = (_, refl)
  severity_of-Returns extra_in_locale h = (_, refl)
  severity_of-Returns wrong_parent h = (_, refl)
  severity_of-Returns wrong_order h = (_, refl)
  severity_of-Returns moved h = cc
  severity_of-Returns source_updated h = (_, refl)
  severity_of-Returns locale_diverged h = (_, refl)
  severity_of-Returns identifier_conflict h = (_, refl)
  severity_of-Returns exempt_locale_variation h = (_, refl)

  Draws-bind :
      {Mid : Type 0} (call : Result Mid) (next : Mid → Result LocalizationIssue) (mid : Mid)
      → call ≡ ok mid
      → Draws (next mid)
      → Draws (call >>= next)
  Draws-bind call next mid made (issue, drawn, bounds) = (issue, rw made drawn, bounds)

  pub All-filtered :
      {A : Type 0} (P : A → Type 0) (p : A → Bool) (xs : List A) → All P xs → All P (filter p xs)
  All-filtered P p xs h =
      All-of_Memᴰ P (filter p xs) (λ x m. All-Memᴰ P xs x h (Memᴰ-filter p x xs m).0)

  -- The confidences that a core result records.
  pub record WithinBounds (result : ReconciliationResult) : Type 0 where
    pub candidates : All BoundedCandidate result.match_graph.candidates
    pub operations : All BoundedOperation result.operations

  correspondence_status-same_status :
      (move : Option StructuralOperation) (lineage : TranslationState) (x y : Float)
      → (same_status (correspondence_status move lineage x y) exempt_locale_variation ≡ false)
        × (same_status (correspondence_status move lineage x y) moved ≡ false)
  unfolding correspondence_status
  correspondence_status-same_status (some op) lineage x y = (refl, refl)
  correspondence_status-same_status none lineage x y = elim (Bool-cases (is_stale lineage)) [
    | inl e ↦ rw e (refl, refl)
    | inr e ↦ elim (Bool-cases (y <= x)) [
      | inl k ↦ rw e (rw k (refl, refl))
      | inr k ↦ rw e (rw k (refl, refl))
    ]
  ]

  pub correspondence_issue-Drawn :
      (c : MatchCandidate) (node : CanonicalNode) (other : Option CanonicalNode)
      (move : Option StructuralOperation) (threshold : Float)
      → BoundedCandidate c
      → ((op : StructuralOperation) → move ≡ some op → BoundedOperation op)
      → Drawn (correspondence_issue c node other move threshold)
  unfolding correspondence_issue correspondence_status optional_in_unit
  correspondence_issue-Drawn c node other none threshold h k id =
      let plain =
        correspondence_status-same_status none (translation_state_of node other) c.confidence.value
          threshold in
      let (severity, known) = severity_of-Returns _ plain.1 in
      Draws-bind _ _ severity known
        (validate_issue-Draws _ h refl refl refl (ground (arith, plain.0)))
  correspondence_issue-Drawn c node other (some op) threshold h k id =
      let (severity, known) = severity_of-Returns wrong_parent refl in
      Draws-bind (severity_of wrong_parent) _ severity known
        (validate_issue-Draws _ h (k op refl) refl refl refl)

  pub ambiguity_issue-Drawn :
      (result : ReconciliationResult) (tree : CanonicalTree) (ref : String)
      → WithinBounds result
      → contains ref (ambiguous_sources (ambiguous_candidates result.match_graph)) ≡ true
      → Drawn (ambiguity_issue result tree ref)
  unfolding ambiguity_issue optional_in_unit group_of ambiguous_candidates
  ambiguity_issue-Drawn result tree ref h contested id =
      let (confidence, known, bounds) =
        group_confidence-Bounded (group_of result ref)
          (is_empty-group ref (ambiguous_candidates result.match_graph) contested)
          (All-filtered BoundedCandidate _ (ambiguous_candidates result.match_graph) (
            All-filtered BoundedCandidate is_ambiguous result.match_graph.candidates
              h.candidates)) in
      Draws-bind (group_confidence (group_of result ref)) _ confidence known
        (validate_issue-Draws _ bounds refl refl refl refl)

  pub order_issue-Drawn : (op : StructuralOperation) → BoundedOperation op → Drawn (order_issue op)
  unfolding order_issue optional_in_unit
  order_issue-Drawn op h id = validate_issue-Draws _ refl h refl refl refl

  pub presence_issue-Drawn :
      (op : StructuralOperation) (s t : Option String) (m n : Option CanonicalNode)
      (exemption : Option String) (default : LocalizationStatus)
      → same_status default exempt_locale_variation ≡ false
      → same_status default moved ≡ false
      → BoundedOperation op
      → Drawn (presence_issue op s t m n exemption default)
  unfolding presence_issue optional_in_unit
  presence_issue-Drawn op s t m n exemption default other still h id =
      let (severity, known) =
        severity_of-Returns (if truthy exemption then exempt_locale_variation else default)
          (elim (Bool-cases (truthy exemption)) [ inl e ↦ rw e | inr e ↦ rw e still ]) in
      Draws-bind _ _ severity known (
        validate_issue-Draws _ refl h refl refl
          (elim (Bool-cases (truthy exemption)) [ inl e ↦ rw e | inr e ↦ rw e (rw other) ]))

  pub conflict_issue-Drawn : Drawn conflict_issue
  unfolding conflict_issue optional_in_unit
  conflict_issue-Drawn id = validate_issue-Draws _ refl refl refl refl refl
