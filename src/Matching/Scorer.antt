-- ===== src/Matching/Scorer.antt =====
-- core/matching/scorer.py
use structural_reconciliatio.Base.{
  String, Bool, true, Option, none, List, [], ◌∷◌, ◌++◌, ◌&&◌, ◌||◌, not, if◌then◌else◌, is_some,
  option_eq, ◌==◌,
}
use structural_reconciliatio.Runtime.{Runtime, Float, ◌<=◌, lt, float_zero}
use structural_reconciliatio.Errors.{Result}
use structural_reconciliatio.Contracts.Profiles.{
  EvidenceType, FeatureWeight, MatchingProfile, same_evidence, persistent_id, semantic_signature,
  normalized_label, weighted_similarity,
}
use structural_reconciliatio.Contracts.Scores.{Evidence, FeatureScore, validate_score}
use structural_reconciliatio.Evidence.{NodeEvidence}

module _ ⦃R : Runtime⦄ where
  unfoldable pub first_weight : List FeatureWeight → EvidenceType → Float
  first_weight [] feature = float_zero
  first_weight (fw ∷ fws) feature =
      if same_evidence fw.feature feature then fw.weight else first_weight fws feature

  unfoldable pub weight_for : MatchingProfile → EvidenceType → Float
  weight_for profile feature = first_weight profile.feature_weights feature

  -- The variables that the closure `consider` assigns.
  pub record Scoring : Type 0 where
    pub contributions : List Evidence
    pub weighted_sum : Float
    pub total_weight : Float

  abbrev pub unscored : Scoring
  unscored = record { contributions = []; weighted_sum = float_zero; total_weight = float_zero }

  unfoldable pub consider :
      MatchingProfile
      → EvidenceType
      → (applicable matched : Bool) → Option String
      → Scoring
      → Scoring
  consider profile feature applicable matched value s =
      let weight = weight_for profile feature in
      let counted = record s { total_weight = R.add s.total_weight weight } in
      if (weight <= float_zero) || not applicable
      then s
      else if matched
      then record {
        contributions =
            s.contributions ++ (record { code = feature; weight = weight; value = value } ∷ []);
        weighted_sum = R.add s.weighted_sum weight;
        total_weight = R.add s.total_weight weight;
      }
      else counted

  -- `a is not None and a == b`
  unfoldable pub same_signal : Option String → Option String → Bool
  same_signal a b = is_some a && option_eq a b

  unfoldable pub score_features : NodeEvidence → NodeEvidence → MatchingProfile → Scoring
  score_features source target profile =
      consider profile weighted_similarity true (source.child_signature == target.child_signature)
        none
        (consider profile normalized_label (is_some source.label || is_some target.label)
          (same_signal source.label target.label) source.label
          (consider profile semantic_signature true (source.signature == target.signature) none (
            consider profile persistent_id
              (is_some source.persistent_id || is_some target.persistent_id)
              (same_signal source.persistent_id target.persistent_id) source.persistent_id
              unscored)))

  unfoldable pub quotient : Scoring → Float
  quotient s =
      if lt float_zero s.total_weight then R.div s.weighted_sum s.total_weight else float_zero

  unfoldable pub score_pair : NodeEvidence → NodeEvidence → MatchingProfile → Result FeatureScore
  score_pair source target profile =
      let s = score_features source target profile in
      validate_score (record { value = R.round6 (quotient s); contributions = s.contributions })
