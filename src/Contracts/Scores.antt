-- ===== src/Contracts/Scores.antt =====
-- core/contracts/evidence.py: evidence, confidence and feature scores.
use structural_reconciliatio.Base.{String, Bool, Option, none, List}
use structural_reconciliatio.Runtime.{Runtime, Float}
use structural_reconciliatio.Errors.{Result, ok, range, ◌>>◌}
use structural_reconciliatio.Tree.{require}
use structural_reconciliatio.Contracts.Profiles.{EvidenceType, in_unit}

module _ ⦃R : Runtime⦄ where
  -- The weight is that of a `FeatureWeight`, which has passed `ge=0.0`.
  pub record Evidence : Type 0 where
    pub code : EvidenceType
    pub weight : Float
    pub value : Option String

  pub record Confidence : Type 0 where
    pub value : Float
    pub calibrated : Bool
    pub model : Option String

  unfoldable pub validate_confidence : Confidence → Result Confidence
  validate_confidence confidence = do require (in_unit confidence.value) range; ok confidence

  -- `Confidence(value=value)`
  unfoldable pub plain_confidence : Float → Result Confidence
  plain_confidence value =
      validate_confidence (record { value = value; calibrated = Bool.false; model = none })

  pub record FeatureScore : Type 0 where
    pub value : Float
    pub contributions : List Evidence

  unfoldable pub validate_score : FeatureScore → Result FeatureScore
  validate_score score = do require (in_unit score.value) range; ok score
