-- ===== src/ProfileValidation.antt =====
-- core/validation/profile_validator.py
pub mod Exactness
use structural_reconciliatio.Base.{
  ℕ, suc, Bool, String, List, [], ◌∷◌, ◌++◌, any, is_empty, if◌then◌else◌,
}
use structural_reconciliatio.Runtime.{Runtime}
use structural_reconciliatio.Errors.{
  Result, ok, raise, invalid_profile, ProfileViolation, suppression_rule_disabled_operation,
  weight_without_priority,
}
use structural_reconciliatio.Contracts.Profiles.{
  MatchingProfile, OperationProfile, SuppressionProfile, SuppressionRule, FeatureWeight,
  EvidenceType, is_enabled, same_evidence,
}

module _ ⦃R : Runtime⦄ where
  unfoldable pub rule_violations : OperationProfile → List SuppressionRule → List ProfileViolation
  rule_violations operation [] = []
  rule_violations operation (rule ∷ rules) =
      let rest = rule_violations operation rules in
      if is_enabled operation rule.root_operation
      then rest
      else suppression_rule_disabled_operation rule.rule_id ∷ rest

  unfoldable pub weight_violations :
      List EvidenceType → ℕ → List FeatureWeight → List ProfileViolation
  weight_violations priority position [] = []
  weight_violations priority position (w ∷ ws) =
      let rest = weight_violations priority (suc position) ws in
      if any (same_evidence w.feature) priority
      then rest
      else weight_without_priority position ∷ rest

  unfoldable pub profile_violations :
      MatchingProfile → OperationProfile → SuppressionProfile → List ProfileViolation
  profile_violations matching operation suppression =
      rule_violations operation suppression.rules
      ++ weight_violations matching.evidence_priority 0 matching.feature_weights

  -- `validate_profiles(...).raise_if_invalid()`
  unfoldable pub validate_profiles :
      MatchingProfile → OperationProfile → SuppressionProfile → Result (Unit {0})
  validate_profiles matching operation suppression =
      let violations = profile_violations matching operation suppression in
      if is_empty violations then ok tt else raise (invalid_profile violations)
