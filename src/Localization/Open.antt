-- ===== src/Localization/Open.antt =====
-- No issue reports a node as missing or as extra whose correspondence is open.
use mathlib.Core.List.{Memᴰ}
use mathlib.Core.List.Memᴰ.{head, tail}
use mathlib.Core.Path.{subst}
use structural_reconciliatio.Base.{
  ℕ, ◌≡◌, ap, ◌∙◌, String, Bool, true, false, Option, none, some, List, [], ◌∷◌, not, collect, All,
  All-map, All-filter, All-image, Bool-cases, inl, inr, arith, contains, contains-append, eq_refl,
  path→eq, eq→path, ◌==◌, ◌||◌, if◌then◌else◌,
}
use structural_reconciliatio.Runtime.{Runtime}
use structural_reconciliatio.Errors.{ok, returned_bind, ok_injective}
use structural_reconciliatio.Contracts.Matches.{MatchCandidate, ambiguous_candidates}
use structural_reconciliatio.Contracts.Alignments.{
  AlignmentEdgeKind, unresolved_source, unresolved_target, AlignedPair, AlignedRegion, refs_of_kind,
  is_unresolved_source, is_unresolved_target, unresolved_source_refs, unresolved_target_refs,
}
use structural_reconciliatio.Engine.{ReconciliationResult}
use structural_reconciliatio.Suppression.{is_member, add_member}
use structural_reconciliatio.Localization.Contracts.{
  AuthoritativeSide, missing_in_locale, extra_in_locale, LocalizationIssue,
  LocalizationValidationResult,
}
use structural_reconciliatio.Localization.Recommendations.{recommend, attachment}
use structural_reconciliatio.Localization.Interpretation.{
  ambiguous_sources, ambiguous_targets, number,
}
use structural_reconciliatio.Localization.Interpreter.{
  Interpretation, drafts, contested_sources, contested_targets, is_contradictory, consistent_issues,
  interpret,
}
use structural_reconciliatio.Localization.Service.{link_issue, attach, validate_localization}

module _ ⦃R : Runtime⦄ where
  -- A source node has more than one viable counterpart, or stands at an unresolved position.
  pub data OpenSource (result : ReconciliationResult) (ref : String) : Type 0 where
    contended :
        (c : MatchCandidate)
        → Memᴰ c (ambiguous_candidates result.match_graph)
        → c.source_node_ref ≡ ref
        → OpenSource result ref
    unplaced :
        (region : AlignedRegion) (pair : AlignedPair)
        → Memᴰ region result.alignment_result.regions
        → Memᴰ pair region.pairs
        → pair.kind ≡ unresolved_source
        → pair.source_node_ref ≡ some ref
        → OpenSource result ref

  pub data OpenTarget (result : ReconciliationResult) (ref : String) : Type 0 where
    contended :
        (c : MatchCandidate)
        → Memᴰ c (ambiguous_candidates result.match_graph)
        → c.target_node_ref ≡ ref
        → OpenTarget result ref
    unplaced :
        (region : AlignedRegion) (pair : AlignedPair)
        → Memᴰ region result.alignment_result.regions
        → Memᴰ pair region.pairs
        → pair.kind ≡ unresolved_target
        → pair.target_node_ref ≡ some ref
        → OpenTarget result ref

  pub contains-add_member :
      (xs : List String) (x y : String) → contains y (add_member xs x) ≡ (y == x || contains y xs)
  unfolding add_member contains
  contains-add_member xs x y = elim (Bool-cases (contains x xs)) [
    | inl found ↦ elim (Bool-cases (y == x)) [
      | inl same ↦
          rw found (ap (λ z. contains z xs) (eq→path y x same) ∙ found ∙ ground (arith, same))
      | inr other ↦ ground arith
    ]
    | inr gone ↦ rw gone
  ]

  contains-ambiguous_sources :
      (cs : List MatchCandidate) (c : MatchCandidate)
      → Memᴰ c cs
      → contains c.source_node_ref (ambiguous_sources cs) ≡ true
  unfolding ambiguous_sources
  contains-ambiguous_sources [] c m = elim m [ ]
  contains-ambiguous_sources (d ∷ cs) c m =
      contains-add_member (ambiguous_sources cs) d.source_node_ref c.source_node_ref ∙ elim m [
        | head same ↦ ground (arith, path→eq (ap (λ (x : MatchCandidate). x.source_node_ref) same))
        | tail later ↦ ground (arith, contains-ambiguous_sources cs c later)
      ]

  contains-ambiguous_targets :
      (cs : List MatchCandidate) (c : MatchCandidate)
      → Memᴰ c cs
      → contains c.target_node_ref (ambiguous_targets cs) ≡ true
  unfolding ambiguous_targets
  contains-ambiguous_targets [] c m = elim m [ ]
  contains-ambiguous_targets (d ∷ cs) c m =
      contains-add_member (ambiguous_targets cs) d.target_node_ref c.target_node_ref ∙ elim m [
        | head same ↦ ground (arith, path→eq (ap (λ (x : MatchCandidate). x.target_node_ref) same))
        | tail later ↦ ground (arith, contains-ambiguous_targets cs c later)
      ]

contains-refs_of_kind :
    (kind : AlignmentEdgeKind → Bool) (side : AlignedPair → Option String)
    (pairs : List AlignedPair) (pair : AlignedPair) (ref : String)
    → Memᴰ pair pairs
    → kind pair.kind ≡ true
    → side pair ≡ some ref
    → contains ref (refs_of_kind kind side pairs) ≡ true
unfolding refs_of_kind contains
contains-refs_of_kind kind side [] pair ref m k s = elim m [ ]
contains-refs_of_kind kind side (p ∷ pairs) pair ref m k s = elim m [
  | head same ↦
      ground (arith, ap (λ (x : AlignedPair). kind x.kind) same, ap side same, eq_refl ref)
  | tail later ↦
      let rest = contains-refs_of_kind kind side pairs pair ref later k s in
      elim (side p)
        as (λ o.
          contains ref (
            if kind p.kind
            then elim o [
              | none ↦ refs_of_kind kind side pairs
              | some r ↦ r ∷ refs_of_kind kind side pairs
            ]
            else refs_of_kind kind side pairs)
          ≡ true) [ none ↦ ground (arith, rest) | some r ↦ ground (arith, rest) ]
]

contains-collect :
    {A : Type 0} (f : A → List String) (xs : List A) (x : A) (ref : String)
    → Memᴰ x xs
    → contains ref (f x) ≡ true
    → contains ref (collect f xs) ≡ true
unfolding collect
contains-collect f [] x ref m h = elim m [ ]
contains-collect f (y ∷ ys) x ref m h = contains-append ref (f y) (collect f ys) ∙ elim m [
  | head same ↦ ground (arith, ap (λ z. contains ref (f z)) same)
  | tail later ↦ ground (arith, contains-collect f ys x ref later h)
]

module _ ⦃R : Runtime⦄ (result : ReconciliationResult) where
  contains-contested_sources :
      (ref : String) → OpenSource result ref → contains ref (contested_sources result) ≡ true
  unfolding contested_sources is_unresolved_source unresolved_source_refs
  contains-contested_sources ref (OpenSource.contended c m e) =
      contains-append ref (ambiguous_sources (ambiguous_candidates result.match_graph))
        (collect unresolved_source_refs result.alignment_result.regions)
      ∙ ground (
        arith,
        contains-ambiguous_sources (ambiguous_candidates result.match_graph) c m,
        ap
            (λ (r : String).
              contains r (ambiguous_sources (ambiguous_candidates result.match_graph)))
            e,
      )
  contains-contested_sources ref (OpenSource.unplaced region pair m n k s) =
      contains-append ref (ambiguous_sources (ambiguous_candidates result.match_graph))
        (collect unresolved_source_refs result.alignment_result.regions)
      ∙ ground (
        arith,
        contains-collect unresolved_source_refs result.alignment_result.regions region ref m (
            contains-refs_of_kind is_unresolved_source (λ (p : AlignedPair). p.source_node_ref)
              region.pairs pair ref n (ap is_unresolved_source k) s),
      )

  contains-contested_targets :
      (ref : String) → OpenTarget result ref → contains ref (contested_targets result) ≡ true
  unfolding contested_targets is_unresolved_target unresolved_target_refs
  contains-contested_targets ref (OpenTarget.contended c m e) =
      contains-append ref (ambiguous_targets (ambiguous_candidates result.match_graph))
        (collect unresolved_target_refs result.alignment_result.regions)
      ∙ ground (
        arith,
        contains-ambiguous_targets (ambiguous_candidates result.match_graph) c m,
        ap
            (λ (r : String).
              contains r (ambiguous_targets (ambiguous_candidates result.match_graph)))
            e,
      )
  contains-contested_targets ref (OpenTarget.unplaced region pair m n k s) =
      contains-append ref (ambiguous_targets (ambiguous_candidates result.match_graph))
        (collect unresolved_target_refs result.alignment_result.regions)
      ∙ ground (
        arith,
        contains-collect unresolved_target_refs result.alignment_result.regions region ref m (
            contains-refs_of_kind is_unresolved_target (λ (p : AlignedPair). p.target_node_ref)
              region.pairs pair ref n (ap is_unresolved_target k) s),
      )

  -- What the issue says of presence is not open.
  pub record Settled (issue : LocalizationIssue) : Type 0 where
    pub not_missing :
        (ref : String)
        → issue.localization_status ≡ missing_in_locale
        → issue.source_node_ref ≡ some ref
        → ¬ OpenSource result ref
    pub not_extra :
        (ref : String)
        → issue.localization_status ≡ extra_in_locale
        → issue.locale_node_ref ≡ some ref
        → ¬ OpenTarget result ref

  kept_missing :
      (issue : LocalizationIssue) (ref : String)
      → issue.localization_status ≡ missing_in_locale
      → issue.source_node_ref ≡ some ref
      → contains ref (contested_sources result) ≡ true
      → not (is_contradictory result issue) ≡ false
  unfolding is_contradictory is_member
  kept_missing issue ref status side found = rw (status, is_contradictory) (rw side (rw found))

  kept_extra :
      (issue : LocalizationIssue) (ref : String)
      → issue.localization_status ≡ extra_in_locale
      → issue.locale_node_ref ≡ some ref
      → contains ref (contested_targets result) ≡ true
      → not (is_contradictory result issue) ≡ false
  unfolding is_contradictory is_member
  kept_extra issue ref status side found = rw (status, is_contradictory) (rw side (rw found))

  Settled-of_kept :
      (issue : LocalizationIssue) → not (is_contradictory result issue) ≡ true → Settled issue
  Settled-of_kept issue kept = record {
    not_missing = λ ref status side opened.
        let clash = kept_missing issue ref status side (contains-contested_sources ref opened) in
        cc;
    not_extra = λ ref status side opened.
        let clash = kept_extra issue ref status side (contains-contested_targets ref opened) in cc;
  }

  Settled-link_issue :
      (issue : LocalizationIssue) (link : Option (ℕ × R.Float))
      → Settled issue
      → Settled (link_issue issue link)
  unfolding link_issue
  Settled-link_issue issue none h = h
  Settled-link_issue issue (some (id, confidence)) h = record {
    not_missing = h.not_missing;
    not_extra = h.not_extra;
  }

module _ ⦃R : Runtime⦄ where
  pub Settled-interpret :
      (i : Interpretation) (issues : List LocalizationIssue)
      → interpret i ≡ ok issues
      → All (Settled i.result) issues
  unfolding interpret consistent_issues
  Settled-interpret i issues h =
      let (numbered, _, h₁) = returned_bind (number 0 (drafts i)) _ h in
      subst (All (Settled i.result)) (ok_injective _ issues h₁) (
        All-map (consistent_issues i.result numbered) (Settled-of_kept i.result)
          (All-filter (λ issue. not (is_contradictory i.result issue)) numbered))

  -- An issue of the localization result that says that a node is missing in the locale, or extra
  -- there, is about a node whose correspondence is not open: no ambiguous candidate of the core result
  -- names it, and it stands at no unresolved position of a region.
  pub validate_localization-Settled :
      (i : Interpretation) (side : AuthoritativeSide) (out : LocalizationValidationResult)
      → validate_localization i side ≡ ok out
      → All (Settled i.result) out.issues
  unfolding validate_localization attach
  validate_localization-Settled i side out h =
      let (issues, interpreted, h₁) = returned_bind (interpret i) _ h in
      let (repairs, _, h₂) = returned_bind (recommend side _ 0 issues) _ h₁ in
      subst (λ (o : LocalizationValidationResult). All (Settled i.result) o.issues)
        (ok_injective _ out h₂)
        (All-image (Settled i.result) (attach repairs) issues (
          All-map issues
            (λ issue. Settled-link_issue i.result issue (attachment issue.issue_id repairs))
            (Settled-interpret i issues interpreted)))
