-- ===== src/ProfileValidation/Exactness.antt =====
-- The cross-profile validator accepts exactly the coherent profiles.
use structural_reconciliatio.Base.{
  ℕ, suc, ◌≡◌, refl, true, List, [], ◌∷◌, ◌++◌, any, is_empty, All, append_nil_left,
  append_nil_right, Bool-cases, inl, inr, ◌↔◌,
}
use structural_reconciliatio.Runtime.{Runtime}
use structural_reconciliatio.Errors.{ok}
use structural_reconciliatio.Contracts.Profiles.{
  MatchingProfile, OperationProfile, SuppressionProfile, SuppressionRule, FeatureWeight,
  EvidenceType, is_enabled, same_evidence,
}
use structural_reconciliatio.ProfileValidation.{
  rule_violations, weight_violations, profile_violations, validate_profiles,
}

module _ ⦃R : Runtime⦄ where
  -- Each rule reacts to an enabled operation, each weight is of a feature in the priority order.
  abbrev pub RulesEnabled : OperationProfile → List SuppressionRule → Type 0
  RulesEnabled operation rules =
      All (λ (r : SuppressionRule). is_enabled operation r.root_operation ≡ true) rules

  abbrev pub WeightsInPriority : List EvidenceType → List FeatureWeight → Type 0
  WeightsInPriority priority weights =
      All (λ (w : FeatureWeight). any (same_evidence w.feature) priority ≡ true) weights

  rule_violations-nil :
      (o : OperationProfile) (rules : List SuppressionRule)
      → (rule_violations o rules ≡ []) ↔ RulesEnabled o rules
  unfolding rule_violations
  rule_violations-nil o [] = (λ h. tt, λ h. refl)
  rule_violations-nil o (r ∷ rules) = elim (Bool-cases (is_enabled o r.root_operation)) [
    | inl e ↦
        rw e
          (λ h. (refl, (rule_violations-nil o rules).0 h), λ h. (rule_violations-nil o rules).1 h.1)
    | inr e ↦ rw e (λ h. cc, λ h. let clash = h.0 in cc)
  ]

  weight_violations-nil :
      (priority : List EvidenceType) (position : ℕ) (ws : List FeatureWeight)
      → (weight_violations priority position ws ≡ []) ↔ WeightsInPriority priority ws
  unfolding weight_violations
  weight_violations-nil priority position [] = (λ h. tt, λ h. refl)
  weight_violations-nil priority position (w ∷ ws) =
      elim (Bool-cases (any (same_evidence w.feature) priority)) [
        | inl e ↦ rw e (
          λ h. (refl, (weight_violations-nil priority (suc position) ws).0 h),
          λ h. (weight_violations-nil priority (suc position) ws).1 h.1,
        )
        | inr e ↦ rw e (λ h. cc, λ h. let clash = h.0 in cc)
      ]

  is_empty-nil : {A : Type 0} (xs : List A) → is_empty xs ≡ true → xs ≡ []
  unfolding is_empty
  is_empty-nil [] h = refl
  is_empty-nil (x ∷ xs) h = cc

  pub validate_profiles-ok_iff :
      (matching : MatchingProfile) (operation : OperationProfile) (suppression : SuppressionProfile)
      → (validate_profiles matching operation suppression ≡ ok tt) ↔ (
          RulesEnabled operation suppression.rules
          × WeightsInPriority matching.evidence_priority matching.feature_weights)
  unfolding validate_profiles profile_violations is_empty
  validate_profiles-ok_iff matching operation suppression =
      let rules = rule_violations operation suppression.rules in
      let weights = weight_violations matching.evidence_priority 0 matching.feature_weights in
      (
        λ h. elim (Bool-cases (is_empty (rules ++ weights))) [
          | inl e ↦
              let none = is_empty-nil (rules ++ weights) e in
              (
                (rule_violations-nil operation suppression.rules).0
                    (append_nil_left rules weights none),
                (weight_violations-nil matching.evidence_priority 0 matching.feature_weights).0
                    (append_nil_right rules weights none),
              )
          | inr e ↦ let clash = rw e at h in cc
        ],
        λ h.
            let r : rules ≡ [] = (rule_violations-nil operation suppression.rules).1 h.0 in
            let w : weights ≡ [] =
              (weight_violations-nil matching.evidence_priority 0 matching.feature_weights).1 h.1 in
            rw r (rw w refl),
      )
