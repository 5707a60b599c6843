-- ===== src/Localization/Links.antt =====
-- Issues and recommendations name each other.
use mathlib.Core.List.{Memᴰ}
use mathlib.Core.List.Memᴰ.{head, tail}
use mathlib.Core.Path.{subst}
use structural_reconciliatio.Base.{
  ℕ, suc, ◌<◌, ◌≡◌, ◌⊎◌, refl, true, false, none, some, List, [], ◌∷◌, map, All, All-map,
  Bool-cases, Option-cases, inl, inr, arith, Dict, same_count, is_some,
}
use structural_reconciliatio.Runtime.{Runtime}
use structural_reconciliatio.Errors.{ok, returned_bind, ok_injective}
use structural_reconciliatio.Tree.{require}
use structural_reconciliatio.Contracts.Operations.{StructuralOperation}
use structural_reconciliatio.Localization.Contracts.{
  AuthoritativeSide, LocalizationStatus, confirmed_match, probable_match, ambiguous_match,
  missing_in_locale, extra_in_locale, wrong_parent, wrong_order, moved, source_updated,
  locale_diverged, identifier_conflict, exempt_locale_variation, same_status, LocalizationIssue,
  has_status, RepairOperation, RepairRecommendation, validate_recommendation,
  LocalizationValidationResult,
}
use structural_reconciliatio.Localization.Recommendations.{
  status_operation, repair_confidence_of, proposed_operation, make_recommendation, recommend,
  attachment,
}
use structural_reconciliatio.Localization.Interpreter.{Interpretation, interpret}
use structural_reconciliatio.Localization.Service.{
  operations_by_id, link_issue, attach, validate_localization,
}
use structural_reconciliatio.Localization.Numbering.{Fresh, Ascending}
use structural_reconciliatio.Localization.NewIssues.{Ascending-interpret}

repaired-ne-ambiguous :
    (status : LocalizationStatus) (operation : RepairOperation)
    → status_operation status ≡ some operation
    → same_status status ambiguous_match ≡ false
unfolding status_operation
repaired-ne-ambiguous wrong_parent operation h = refl
repaired-ne-ambiguous wrong_order operation h = refl
repaired-ne-ambiguous missing_in_locale operation h = refl
repaired-ne-ambiguous extra_in_locale operation h = refl
repaired-ne-ambiguous confirmed_match operation h = cc
repaired-ne-ambiguous probable_match operation h = cc
repaired-ne-ambiguous ambiguous_match operation h = cc
repaired-ne-ambiguous moved operation h = cc
repaired-ne-ambiguous source_updated operation h = cc
repaired-ne-ambiguous locale_diverged operation h = cc
repaired-ne-ambiguous identifier_conflict operation h = cc
repaired-ne-ambiguous exempt_locale_variation operation h = cc

module _ ⦃R : Runtime⦄ where
  validate_recommendation-eq :
      (repair made : RepairRecommendation)
      → validate_recommendation repair ≡ ok made
      → repair ≡ made
  unfolding validate_recommendation
  validate_recommendation-eq repair made h =
      let (_, _, h₁) = returned_bind (require _ _) _ h in
      let (_, _, h₂) = returned_bind (require _ _) _ h₁ in
      let (_, _, h₃) = returned_bind (require _ _) _ h₂ in
      let (_, _, h₄) = returned_bind (require _ _) _ h₃ in
      let (_, _, h₅) = returned_bind (require _ _) _ h₄ in ok_injective repair made h₅

  -- A recommendation for an issue, which proposes the operation, cannot be applied by itself and has
  -- the confidence that the issue calls for.
  pub record Addresses (operation : RepairOperation) (issue : LocalizationIssue)
      (repair : RepairRecommendation) : Type 0 where
    pub of_issue : repair.issue_id ≡ issue.issue_id
    pub proposes : repair.operation ≡ operation
    pub inert : repair.executable ≡ false
    pub manual : repair.auto_fix_eligible ≡ false
    pub derived : repair.repair_confidence ≡ repair_confidence_of issue

  make_recommendation-Addresses :
      (side : AuthoritativeSide) (operations : Dict StructuralOperation) (counter : ℕ)
      (operation : RepairOperation) (issue : LocalizationIssue) (repair : RepairRecommendation)
      → make_recommendation side operations counter operation issue ≡ ok repair
      → Addresses operation issue repair
  unfolding make_recommendation
  make_recommendation-Addresses side operations counter operation issue repair h =
      subst (Addresses operation issue) (validate_recommendation-eq _ repair h)
        (record { of_issue = refl; proposes = refl; inert = refl; manual = refl; derived = refl })

  -- What the loop returned for an issue, among its recommendations.
  abbrev Answered : List RepairRecommendation → LocalizationIssue → Type 0
  Answered repairs issue =
      ((proposed_operation issue ≡ none) × (attachment issue.issue_id repairs ≡ none))
      ⊎ ((operation : RepairOperation) × (repair : RepairRecommendation) × (proposed_operation issue
            ≡ some operation)
          × Memᴰ repair repairs
          × Addresses operation issue repair
          × (attachment issue.issue_id repairs
              ≡ some (repair.recommendation_id, repair.repair_confidence)))

  abbrev Later : ℕ → List RepairRecommendation → Type 0
  Later n repairs = All (λ (r : RepairRecommendation). n < r.issue_id) repairs

  attachment-Later :
      (n k : ℕ) (repairs : List RepairRecommendation)
      → k < suc n
      → Later n repairs
      → attachment k repairs ≡ none
  unfolding attachment
  attachment-Later n k [] le h = refl
  attachment-Later n k (repair ∷ repairs) le h =
      let rest = attachment-Later n k repairs le h.1 in
      rw (rest, attachment) (ground (arith, h.0, le))

  Later-weaken :
      (m n : ℕ) (repairs : List RepairRecommendation)
      → n < suc m
      → Later m repairs
      → Later n repairs
  Later-weaken m n repairs le h =
      All-map {P = λ (r : RepairRecommendation). m < r.issue_id} repairs
        (λ r later. omega (arith, later, le)) h

  Answered-later :
      (repair : RepairRecommendation) (repairs : List RepairRecommendation)
      (issue : LocalizationIssue)
      → repair.issue_id < issue.issue_id
      → Answered repairs issue
      → Answered (repair ∷ repairs) issue
  unfolding attachment
  Answered-later repair repairs issue lt (inl (none_proposed, unlinked)) =
      inl (none_proposed, rw (unlinked, attachment) (ground (arith, lt)))
  Answered-later repair repairs issue lt (inr (operation, found, proposed, m, addresses, linked)) =
      inr (operation, found, proposed, tail m, addresses, rw (linked, attachment))

  Answered-All :
      (repair : RepairRecommendation) (repairs : List RepairRecommendation) (n : ℕ)
      (issues : List LocalizationIssue)
      → repair.issue_id < suc n
      → Ascending n issues
      → All (Answered repairs) issues
      → All (Answered (repair ∷ repairs)) issues
  Answered-All repair repairs n [] le h a = tt
  Answered-All repair repairs n (issue ∷ issues) le h a = (
    Answered-later repair repairs issue (omega (arith, le, h.0)) a.0,
    Answered-All repair repairs issue.issue_id issues (omega (arith, le, h.0)) h.2 a.1,
  )

  same_count_refl : (n : ℕ) → same_count n n ≡ true
  same_count_refl n = ground arith

  attachment-first :
      (repair : RepairRecommendation) (repairs : List RepairRecommendation) (id : ℕ)
      → repair.issue_id ≡ id
      → attachment id repairs ≡ none
      → attachment id (repair ∷ repairs) ≡ some (repair.recommendation_id, repair.repair_confidence)
  unfolding attachment
  attachment-first repair repairs id same gone =
      rw (gone, attachment) (rw same (rw (same_count_refl id)))

  recommend-Answered :
      (side : AuthoritativeSide) (operations : Dict StructuralOperation) (counter n : ℕ)
      (issues : List LocalizationIssue) (repairs : List RepairRecommendation)
      → Ascending n issues
      → recommend side operations counter issues ≡ ok repairs
      → Later n repairs × All (Answered repairs) issues
  unfolding recommend
  recommend-Answered side operations counter n [] repairs h e =
      subst (λ rs. Later n rs × Unit) (ok_injective [] repairs e) (tt, tt)
  recommend-Answered side operations counter n (issue ∷ issues) repairs h e =
      elim (Option-cases (proposed_operation issue)) [
        | inl nothing ↦
            let (later, answered) =
              recommend-Answered side operations counter issue.issue_id issues repairs h.2
                (rw (nothing, recommend) at e) in
            (
              Later-weaken issue.issue_id n repairs (omega (arith, h.0)) later,
              (
                inl (
                  nothing,
                  attachment-Later issue.issue_id issue.issue_id repairs (omega arith) later,
                ),
                answered,
              ),
            )
        | inr (operation, proposed) ↦
            let e₀ = rw (proposed, recommend) at e in
            let (repair, made, e₁) =
              returned_bind (make_recommendation side operations (suc counter) operation issue) _
                e₀ in
            let (rest, others, e₂) =
              returned_bind (recommend side operations (suc counter) issues) _ e₁ in
            let (later, answered) =
              recommend-Answered side operations (suc counter) issue.issue_id issues rest h.2
                others in
            let addresses =
              make_recommendation-Addresses side operations (suc counter) operation issue repair
                made in
            subst (λ rs. Later n rs × All (Answered rs) (issue ∷ issues))
              (ok_injective (repair ∷ rest) repairs e₂)
              (
                (
                  omega (arith, addresses.of_issue, h.0),
                  Later-weaken issue.issue_id n rest (omega (arith, h.0)) later,
                ),
                (
                  inr (
                    operation,
                    repair,
                    proposed,
                    head refl,
                    addresses,
                    attachment-first repair rest issue.issue_id addresses.of_issue
                        (attachment-Later issue.issue_id issue.issue_id rest (omega arith) later),
                  ),
                  Answered-All repair rest issue.issue_id issues (omega (arith, addresses.of_issue))
                      h.2 answered,
                ),
              )
      ]

  pub proposed_operation-some :
      (issue : LocalizationIssue) (operation : RepairOperation)
      → proposed_operation issue ≡ some operation
      → (status_operation issue.localization_status ≡ some operation)
        × (issue.policy_exemption ≡ none)
  unfolding proposed_operation is_some
  proposed_operation-some issue operation h = ground (arith, h)

  proposed_operation-none :
      (issue : LocalizationIssue)
      → proposed_operation issue ≡ none
      → (status_operation issue.localization_status ≡ none)
        ⊎ (is_some issue.policy_exemption ≡ true)
  unfolding proposed_operation is_some
  proposed_operation-none issue h =
      elim (Option-cases (status_operation issue.localization_status)) [
        | inl nothing ↦ inl nothing
        | inr (operation, proposed) ↦ elim (Bool-cases (is_some issue.policy_exemption)) [
          | inl exempt ↦ inr exempt
          | inr free ↦
              let clear : has_status ambiguous_match issue ≡ false =
                repaired-ne-ambiguous issue.localization_status operation proposed in
              let made : proposed_operation issue ≡ some operation =
                rw (proposed, proposed_operation) (rw clear (rw free)) in
              absurd (cc (made, h))
        ]
      ]

  -- How an issue of the result and the recommendations stand: it has no link, and then its status
  -- has no repair or a policy exempts it; or it is linked to the one that answers it.
  pub data Linked (repairs : List RepairRecommendation) (issue : LocalizationIssue) : Type 0 where
    unlinked :
        issue.recommendation_id ≡ none
        → issue.repair_confidence ≡ none
        → (status_operation issue.localization_status ≡ none)
          ⊎ (is_some issue.policy_exemption ≡ true)
        → Linked repairs issue
    linked :
        (operation : RepairOperation) (repair : RepairRecommendation)
        → status_operation issue.localization_status ≡ some operation
        → issue.policy_exemption ≡ none
        → Memᴰ repair repairs
        → Addresses operation issue repair
        → issue.recommendation_id ≡ some repair.recommendation_id
        → issue.repair_confidence ≡ some repair.repair_confidence
        → Linked repairs issue

  Linked-attach :
      (repairs : List RepairRecommendation) (issue : LocalizationIssue)
      → Fresh issue.issue_id issue
      → Answered repairs issue
      → Linked repairs (attach repairs issue)
  unfolding attach link_issue repair_confidence_of
  Linked-attach repairs issue fresh (inl (nothing, gone)) =
      rw (gone, attach)
        (Linked.unlinked fresh.unlinked fresh.unrepaired (proposed_operation-none issue nothing))
  Linked-attach repairs issue fresh (inr (operation, repair, proposed, m, addresses, found)) =
      let (status, free) = proposed_operation-some issue operation proposed in
      rw (found, attach)
        (Linked.linked operation repair status free m
          (record {
            of_issue = addresses.of_issue;
            proposes = addresses.proposes;
            inert = addresses.inert;
            manual = addresses.manual;
            derived = addresses.derived;
          })
          refl refl)

  Linked-All :
      (repairs : List RepairRecommendation) (n : ℕ) (issues : List LocalizationIssue)
      → Ascending n issues
      → All (Answered repairs) issues
      → All (Linked repairs) (map (attach repairs) issues)
  Linked-All repairs n [] h a = tt
  Linked-All repairs n (issue ∷ issues) h a =
      (Linked-attach repairs issue h.1 a.0, Linked-All repairs issue.issue_id issues h.2 a.1)

  -- Every issue of the localization result either has neither recommendation nor repair confidence,
  -- and then its status calls for no repair or a policy exempts it; or it carries the identifier
  -- and the confidence of a recommendation of the result, which is made for this issue, proposes the
  -- operation of its status with the confidence that the planner derives from the issue, and is
  -- neither executable nor eligible for an automatic fix.
  pub validate_localization-Linked :
      (i : Interpretation) (side : AuthoritativeSide) (out : LocalizationValidationResult)
      → validate_localization i side ≡ ok out
      → All (Linked out.recommendations) out.issues
  unfolding validate_localization
  validate_localization-Linked i side out h =
      let (issues, interpreted, h₁) = returned_bind (interpret i) _ h in
      let operations = operations_by_id [] i.result.operations in
      let (repairs, planned, h₂) = returned_bind (recommend side operations 0 issues) _ h₁ in
      let ascending = Ascending-interpret i issues interpreted in
      let (_, answered) = recommend-Answered side operations 0 0 issues repairs ascending planned in
      subst (λ (o : LocalizationValidationResult). All (Linked o.recommendations) o.issues)
        (ok_injective _ out h₂) (Linked-All repairs 0 issues ascending answered)
