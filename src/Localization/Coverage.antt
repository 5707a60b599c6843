-- ===== src/Localization/Coverage.antt =====
-- Every deletion and insertion of the core result is reported, but for those at an open node.
use mathlib.Core.List.{Memᴰ}
use mathlib.Core.List.Memᴰ.{head}
use mathlib.Core.Path.{subst}
use structural_reconciliatio.Base.{
  ℕ, ◌≡◌, ◌⊎◌, refl, ap, String, true, false, Option, none, some, List, [], ◌∷◌, not, contains,
  Bool-cases, inl, inr, Memᴰ-left, Memᴰ-right, Memᴰ-kept, Memᴰ-image, Memᴰ-collect, is_some,
  if◌then◌else◌,
}
use structural_reconciliatio.Runtime.{Runtime, Float}
use structural_reconciliatio.Errors.{ok, returned_bind, ok_injective}
use structural_reconciliatio.Tree.{CanonicalNode, non_empty}
use structural_reconciliatio.Contracts.Profiles.{
  OperationType, op_delete, op_insert, truthy, same_operation,
}
use structural_reconciliatio.Contracts.Operations.{StructuralOperation, has_type}
use structural_reconciliatio.Engine.{ReconciliationResult}
use structural_reconciliatio.Suppression.{is_member}
use structural_reconciliatio.Localization.Contracts.{
  AuthoritativeSide, LocalizationStatus, missing_in_locale, extra_in_locale,
  exempt_locale_variation, LocalizationIssue, LocalizationValidationResult,
}
use structural_reconciliatio.Localization.Recommendations.{recommend, attachment}
use structural_reconciliatio.Localization.Interpretation.{severity_of, Draft, number}
use structural_reconciliatio.Localization.Drafts.{presence_issue}
use structural_reconciliatio.Localization.Interpreter.{
  Interpretation, correspondence_drafts, ambiguity_drafts, order_drafts, presence_drafts,
  conflict_drafts, deletion_draft, insertion_draft, presence_draft, drafts, contested_sources,
  contested_targets, is_contradictory, consistent_issues, interpret,
}
use structural_reconciliatio.Localization.Service.{
  operations_by_id, link_issue, attach, validate_localization,
}
use structural_reconciliatio.Localization.Numbering.{number-Memᴰ, made_issue}

module _ ⦃R : Runtime⦄ where
  -- The issue is about the operation, at the given references, with the status or exempt from it.
  pub record Reports (op : StructuralOperation) (source locale : Option String)
      (status : LocalizationStatus) (issue : LocalizationIssue) : Type 0 where
    pub source_node : issue.source_node_ref ≡ source
    pub locale_node : issue.locale_node_ref ≡ locale
    pub derived_from : issue.core_operation_ids ≡ op.operation_id ∷ []
    pub says :
        (issue.localization_status ≡ status)
        ⊎ ((issue.localization_status ≡ exempt_locale_variation)
            × (is_some issue.policy_exemption ≡ true))

  presence_issue-Reports :
      (op : StructuralOperation) (s t : Option String) (m n : Option CanonicalNode)
      (exemption : Option String) (status : LocalizationStatus) (id : ℕ) (issue : LocalizationIssue)
      → presence_issue op s t m n exemption status id ≡ ok issue
      → Reports op s t status issue
  unfolding presence_issue truthy is_some
  presence_issue-Reports op s t m n exemption status id issue h =
      let (_, _, written) = returned_bind (severity_of _) _ h in
      made_issue (Reports op s t status) _ issue
        (record {
          source_node = refl;
          locale_node = refl;
          derived_from = refl;
          says =
              elim exemption
                as (λ e.
                  ((if truthy e then exempt_locale_variation else status) ≡ status)
                  ⊎ (((if truthy e then exempt_locale_variation else status)
                        ≡ exempt_locale_variation)
                      × (is_some e ≡ true))) [
                        | none ↦ inl refl
                        | some rule ↦ elim (Bool-cases (non_empty rule)) [
                          | inl e ↦ inr (rw e refl, refl)
                          | inr e ↦ inl (rw e refl)
                        ]
                      ];
        })
        written

  Reports-link_issue :
      (op : StructuralOperation) (s t : Option String) (status : LocalizationStatus)
      (issue : LocalizationIssue) (link : Option (ℕ × Float))
      → Reports op s t status issue
      → Reports op s t status (link_issue issue link)
  unfolding link_issue
  Reports-link_issue op s t status issue none h = h
  Reports-link_issue op s t status issue (some (id, confidence)) h = record {
    source_node = h.source_node;
    locale_node = h.locale_node;
    derived_from = h.derived_from;
    says = h.says;
  }

  deletion_kept :
      (result : ReconciliationResult) (op : StructuralOperation) (ref : String)
      (issue : LocalizationIssue)
      → contains ref (contested_sources result) ≡ false
      → Reports op (some ref) none missing_in_locale issue
      → not (is_contradictory result issue) ≡ true
  unfolding is_contradictory is_member
  deletion_kept result op ref issue closed h = elim h.says [
    | inl e ↦ rw (e, is_contradictory) (rw (h.source_node, is_member) (rw closed))
    | inr e ↦ rw (e.0, is_contradictory)
  ]

  insertion_kept :
      (result : ReconciliationResult) (op : StructuralOperation) (ref : String)
      (issue : LocalizationIssue)
      → contains ref (contested_targets result) ≡ false
      → Reports op none (some ref) extra_in_locale issue
      → not (is_contradictory result issue) ≡ true
  unfolding is_contradictory is_member
  insertion_kept result op ref issue closed h = elim h.says [
    | inl e ↦ rw (e, is_contradictory) (rw (h.locale_node, is_member) (rw closed))
    | inr e ↦ rw (e.0, is_contradictory)
  ]

module _ ⦃R : Runtime⦄ (i : Interpretation) where
  presence_draft-Memᴰ :
      (op : StructuralOperation) (draft : Draft)
      → Memᴰ op i.result.operations
      → Memᴰ draft (presence_draft i op)
      → Memᴰ draft (drafts i)
  unfolding drafts presence_drafts
  presence_draft-Memᴰ op draft m n = Memᴰ-right (correspondence_drafts i) _ draft (
      Memᴰ-right (ambiguity_drafts i) _ draft (
        Memᴰ-right (order_drafts i) _ draft (
          Memᴰ-left (presence_drafts i) (conflict_drafts i) draft
            (Memᴰ-collect (presence_draft i) i.result.operations op draft m n))))

  deletion_draft-Memᴰ :
      (op : StructuralOperation) (ref : String) (refs : List String)
      → op.type ≡ op_delete
      → op.source_node_refs ≡ ref ∷ refs
      → Memᴰ (deletion_draft i op ref) (presence_draft i op)
  unfolding presence_draft deletion_draft presence_issue
  deletion_draft-Memᴰ op ref refs type sources =
      let deletes : has_type op_delete op ≡ true =
        ap (λ (t : OperationType). same_operation t op_delete) type in
      rw (deletes, presence_draft) (rw sources (head refl))

  insertion_draft-Memᴰ :
      (op : StructuralOperation) (ref : String) (refs : List String)
      → op.type ≡ op_insert
      → op.target_node_refs ≡ ref ∷ refs
      → Memᴰ (insertion_draft i op ref) (presence_draft i op)
  unfolding presence_draft insertion_draft presence_issue
  insertion_draft-Memᴰ op ref refs type targets =
      let keeps : has_type op_delete op ≡ false =
        ap (λ (t : OperationType). same_operation t op_delete) type in
      let inserts : has_type op_insert op ≡ true =
        ap (λ (t : OperationType). same_operation t op_insert) type in
      rw (keeps, presence_draft) (rw inserts (rw targets (head refl)))

  -- A draft whose issue the barrier lets pass is an issue of the result, with its link attached.
  draft-reported :
      (side : AuthoritativeSide) (out : LocalizationValidationResult) (draft : Draft)
      (P : LocalizationIssue → Type 0)
      → validate_localization i side ≡ ok out
      → Memᴰ draft (drafts i)
      → ((id : ℕ) (issue : LocalizationIssue) → draft id ≡ ok issue → P issue)
      → ((issue : LocalizationIssue) → P issue → not (is_contradictory i.result issue) ≡ true)
      → ((issue : LocalizationIssue) (link : Option (ℕ × Float))
          → P issue
          → P (link_issue issue link))
      → (issue : LocalizationIssue) × Memᴰ issue out.issues × P issue
  unfolding validate_localization interpret consistent_issues attach
  draft-reported side out draft P h m written kept linked =
      let (issues, interpreted, h₁) = returned_bind (interpret i) _ h in
      let (numbered, made, h₂) = returned_bind (number 0 (drafts i)) _ interpreted in
      let (repairs, _, h₃) =
        returned_bind (recommend side (operations_by_id [] i.result.operations) 0 issues) _ h₁ in
      let (id, issue, drawn, there) = number-Memᴰ 0 (drafts i) numbered draft made m in
      let p = written id issue drawn in
      let passed : Memᴰ issue issues =
        subst (Memᴰ issue) (ok_injective _ issues h₂) (
          Memᴰ-kept (λ x. not (is_contradictory i.result x)) issue numbered (kept issue p) there) in
      (
        attach repairs issue,
        subst (λ (o : LocalizationValidationResult). Memᴰ (attach repairs issue) o.issues)
            (ok_injective _ out h₃) (Memᴰ-image (attach repairs) issues issue passed),
        linked issue (attachment issue.issue_id repairs) p,
      )

  -- A deletion of the core result is reported: unless the correspondence of its first source node is
  -- open, the localization result has an issue about that node and that operation, which says that
  -- the node is missing in the locale, or that a policy rule exempts it.
  pub validate_localization-deletion :
      (side : AuthoritativeSide) (out : LocalizationValidationResult) (op : StructuralOperation)
      (ref : String) (refs : List String)
      → validate_localization i side ≡ ok out
      → Memᴰ op i.result.operations
      → op.type ≡ op_delete
      → op.source_node_refs ≡ ref ∷ refs
      → contains ref (contested_sources i.result) ≡ false
      → (issue : LocalizationIssue) × Memᴰ issue out.issues
        × Reports op (some ref) none missing_in_locale issue
  unfolding deletion_draft
  validate_localization-deletion side out op ref refs h m type sources closed =
      draft-reported side out (deletion_draft i op ref)
        (Reports op (some ref) none missing_in_locale) h
        (presence_draft-Memᴰ op (deletion_draft i op ref) m
          (deletion_draft-Memᴰ op ref refs type sources))
        (presence_issue-Reports op _ _ _ _ _ missing_in_locale)
        (λ issue p. deletion_kept i.result op ref issue closed p)
        (Reports-link_issue op (some ref) none missing_in_locale)

  -- An insertion of the core result is reported: unless the correspondence of its first locale node
  -- is open, the localization result has an issue about that node and that operation, which says
  -- that the node is extra in the locale, or that a policy rule exempts it.
  pub validate_localization-insertion :
      (side : AuthoritativeSide) (out : LocalizationValidationResult) (op : StructuralOperation)
      (ref : String) (refs : List String)
      → validate_localization i side ≡ ok out
      → Memᴰ op i.result.operations
      → op.type ≡ op_insert
      → op.target_node_refs ≡ ref ∷ refs
      → contains ref (contested_targets i.result) ≡ false
      → (issue : LocalizationIssue) × Memᴰ issue out.issues
        × Reports op none (some ref) extra_in_locale issue
  unfolding insertion_draft
  validate_localization-insertion side out op ref refs h m type targets closed =
      draft-reported side out (insertion_draft i op ref)
        (Reports op none (some ref) extra_in_locale) h
        (presence_draft-Memᴰ op (insertion_draft i op ref) m
          (insertion_draft-Memᴰ op ref refs type targets))
        (presence_issue-Reports op _ _ _ _ _ extra_in_locale)
        (λ issue p. insertion_kept i.result op ref issue closed p)
        (Reports-link_issue op none (some ref) extra_in_locale)
