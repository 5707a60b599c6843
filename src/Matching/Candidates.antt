-- ===== src/Matching/Candidates.antt =====
-- core/matching/constraints.py, confidence.py and the helpers of matcher.py that build a candidate.
use Prim.Native.String.{◌++◌ as ◌&◌}
use structural_reconciliatio.Base.{String, List, [], ◌∷◌, ◌==◌, if◌then◌else◌}
use structural_reconciliatio.Runtime.{Runtime}
use structural_reconciliatio.Errors.{Result}
use structural_reconciliatio.Contracts.Profiles.{MatchingProfile, CalibrationInfo}
use structural_reconciliatio.Contracts.Scores.{Confidence, FeatureScore, validate_confidence}
use structural_reconciliatio.Contracts.Matches.{
  MatchState, ConstraintViolation, MatchCandidate, validate_candidate,
}
use structural_reconciliatio.Evidence.{NodeEvidence}

unfoldable pub match_id : String → String → String
match_id source_ref target_ref = "m:" & (source_ref & ("->" & target_ref))

module _ ⦃R : Runtime⦄ where
  -- The hard and the soft violations of a pair: at most one of both, on differing node types.
  unfoldable pub evaluate_constraints :
      NodeEvidence
      → NodeEvidence
      → MatchingProfile
      → List ConstraintViolation × List ConstraintViolation
  evaluate_constraints source target profile =
      let violation : ConstraintViolation = record {
        constraint = "NODE_TYPE_COMPATIBILITY";
        hard = profile.hard_constraint_node_type;
      } in
      if source.node_type == target.node_type
      then ([], [])
      else if profile.hard_constraint_node_type
      then (violation ∷ [], [])
      else ([], violation ∷ [])

  unfoldable pub derive_confidence : FeatureScore → CalibrationInfo → Result Confidence
  derive_confidence score calibration = validate_confidence (record {
    value = score.value;
    calibrated = calibration.calibrated;
    model = calibration.model;
  })

  unfoldable pub make_candidate :
      NodeEvidence
      → NodeEvidence
      → MatchState
      → FeatureScore
      → Confidence
      → MatchingProfile
      → (hard soft : List ConstraintViolation) (alternatives : List String) → Result MatchCandidate
  make_candidate source target state score confidence profile hard soft alternatives =
      validate_candidate (record {
        match_id = match_id source.node_ref target.node_ref;
        source_node_ref = source.node_ref;
        target_node_ref = target.node_ref;
        state = state;
        score = score;
        confidence = confidence;
        evidence = score.contributions;
        violated_soft_constraints = soft;
        hard_constraints = hard;
        alternative_match_ids = alternatives;
        profile_version = profile.version;
      })
