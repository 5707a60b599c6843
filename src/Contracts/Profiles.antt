-- ===== src/Contracts/Profiles.antt =====
-- core/contracts/profiles.py
use structural_reconciliatio.Base.{
  String, Bool, true, false, Option, none, some, List, [], ◌∷◌, ◌==◌, ◌&&◌, not, any, is_empty,
  contains, nodup, map, filter, Dict, lookup,
}
use structural_reconciliatio.Runtime.{Runtime, Float, ◌<=◌, float_zero, float_one}
use structural_reconciliatio.Errors.{
  Result, ok, range, too_short, conflicting_rules, calibration_model_missing, empty_priority,
  duplicate_priority, thresholds_crossed, no_tie_break, extended_operation, duplicate_rule_ids,
  ◌>>=◌, ◌>>◌,
}
use structural_reconciliatio.Tree.{require, non_empty}

pub data EvidenceType : Type 0 where
  persistent_id semantic_signature normalized_label node_type child_signature : EvidenceType
  ancestor_context weighted_similarity : EvidenceType

-- `.value`
abbrev pub evidence_value : EvidenceType → String
evidence_value persistent_id = "PERSISTENT_ID"
evidence_value semantic_signature = "SEMANTIC_SIGNATURE"
evidence_value normalized_label = "NORMALIZED_LABEL"
evidence_value node_type = "NODE_TYPE"
evidence_value child_signature = "CHILD_SIGNATURE"
evidence_value ancestor_context = "ANCESTOR_CONTEXT"
evidence_value weighted_similarity = "WEIGHTED_SIMILARITY"

-- Members of an enumeration are compared; their values are all different.
abbrev pub same_evidence : EvidenceType → EvidenceType → Bool
same_evidence a b = evidence_value a == evidence_value b

pub data OperationType : Type 0 where
  op_match op_insert op_delete op_update op_move op_reorder : OperationType
  op_wrap op_unwrap op_split op_merge : OperationType

-- `.value`
abbrev pub operation_value : OperationType → String
operation_value op_match = "MATCH"
operation_value op_insert = "INSERT"
operation_value op_delete = "DELETE"
operation_value op_update = "UPDATE"
operation_value op_move = "MOVE"
operation_value op_reorder = "REORDER"
operation_value op_wrap = "WRAP"
operation_value op_unwrap = "UNWRAP"
operation_value op_split = "SPLIT"
operation_value op_merge = "MERGE"

abbrev pub same_operation : OperationType → OperationType → Bool
same_operation a b = operation_value a == operation_value b

abbrev pub initial_operations : List OperationType
initial_operations = op_match ∷ op_insert ∷ op_delete ∷ op_update ∷ op_move ∷ op_reorder ∷ []

pub record CalibrationInfo : Type 0 where
  pub calibrated : Bool
  pub model : Option String

-- A truth value of an optional text: `None` and the empty text are false.
unfoldable pub truthy : Option String → Bool
truthy none = false
truthy (some s) = non_empty s

unfoldable pub validate_calibration : CalibrationInfo → Result CalibrationInfo
validate_calibration info = do
  require (not (info.calibrated && not (truthy info.model))) calibration_model_missing
  ok info

pub record NormalizationProfile : Type 0 where
  pub version : String
  pub collapse_whitespace : Bool
  pub ignore_attribute_order : Bool
  pub nonsemantic_metadata_keys : List String
  pub preserve_property_keys : List String

-- A key may not be both excluded and preserved.
unfoldable pub validate_normalization : NormalizationProfile → Result NormalizationProfile
validate_normalization profile = do
  require (non_empty profile.version) too_short
  require
      (not (any (λ k. contains k profile.preserve_property_keys) profile.nonsemantic_metadata_keys))
      conflicting_rules
  ok profile

pub data OrderSemantics : Type 0 where
  ordered unordered : OrderSemantics

pub data AlignmentStrategy : Type 0 where
  lcs weighted_dp : AlignmentStrategy

pub record AlignmentProfile : Type 0 where
  pub version : String
  pub strategy : AlignmentStrategy
  pub default_order_semantics : OrderSemantics
  pub order_semantics_by_type : Dict OrderSemantics
  pub use_anchor_partitioning : Bool

unfoldable pub order_semantics_for : AlignmentProfile → String → OrderSemantics
order_semantics_for profile type = elim (lookup profile.order_semantics_by_type type) [
  | none ↦ profile.default_order_semantics
  | some semantics ↦ semantics
]

pub data UnresolvedPresencePolicy : Type 0 where
  suppress_ambiguous_nodes suppress_unresolved_regions emit_all : UnresolvedPresencePolicy

module _ ⦃R : Runtime⦄ where
  -- `Field(ge=0.0, le=1.0)`
  unfoldable pub in_unit : Float → Bool
  in_unit x = (float_zero <= x) && (x <= float_one)

  pub record FeatureWeight : Type 0 where
    pub feature : EvidenceType
    pub weight : Float

  pub record MatchingProfile : Type 0 where
    pub version : String
    pub evidence_priority : List EvidenceType
    pub feature_weights : List FeatureWeight
    pub authoritative_id_features : List EvidenceType
    pub hard_constraint_node_type : Bool
    pub match_threshold : Float
    pub probable_threshold : Float
    pub ambiguity_margin : Float
    pub tie_break_keys : List String
    pub calibration : CalibrationInfo

  unfoldable pub weights_nonnegative : List FeatureWeight → Bool
  weights_nonnegative [] = true
  weights_nonnegative (w ∷ ws) = (float_zero <= w.weight) && weights_nonnegative ws

  unfoldable pub validate_matching : MatchingProfile → Result MatchingProfile
  validate_matching profile = do
    require (non_empty profile.version) too_short
    require (weights_nonnegative profile.feature_weights) range
    require (in_unit profile.match_threshold) range
    require (in_unit profile.probable_threshold) range
    require (in_unit profile.ambiguity_margin) range
    validate_calibration profile.calibration
    require (not (is_empty profile.evidence_priority)) empty_priority
    require (nodup (map evidence_value profile.evidence_priority)) duplicate_priority
    require (profile.probable_threshold <= profile.match_threshold) thresholds_crossed
    require (not (is_empty profile.tie_break_keys)) no_tie_break
    ok profile

  pub record OperationProfile : Type 0 where
    pub version : String
    pub enabled_operations : List OperationType
    pub move_confidence_threshold : Float
    pub unresolved_presence_policy : UnresolvedPresencePolicy

  -- `operation in profile.enabled_operations`
  unfoldable pub is_enabled : OperationProfile → OperationType → Bool
  is_enabled profile operation = any (same_operation operation) profile.enabled_operations

  unfoldable pub validate_operation_profile : OperationProfile → Result OperationProfile
  validate_operation_profile profile = do
    require (non_empty profile.version) too_short
    require (in_unit profile.move_confidence_threshold) range
    require (not (is_enabled profile op_wrap)) extended_operation
    require (not (is_enabled profile op_unwrap)) extended_operation
    require (not (is_enabled profile op_split)) extended_operation
    require (not (is_enabled profile op_merge)) extended_operation
    ok profile

  pub record SuppressionRule : Type 0 where
    pub rule_id : String
    pub root_operation : OperationType
    pub effect_category : String
    pub threshold : Float

  pub record SuppressionProfile : Type 0 where
    pub version : String
    pub rules : List SuppressionRule
    pub independent_defect_check : Bool

  unfoldable pub validate_suppression_rule : SuppressionRule → Result SuppressionRule
  validate_suppression_rule rule = do
    require (non_empty rule.rule_id) too_short
    require (non_empty rule.effect_category) too_short
    require (in_unit rule.threshold) range
    ok rule

  unfoldable pub validate_suppression_rules : List SuppressionRule → Result (List SuppressionRule)
  validate_suppression_rules [] = ok []
  validate_suppression_rules (rule ∷ rules) = do
    checked ← validate_suppression_rule rule
    others ← validate_suppression_rules rules
    ok (checked ∷ others)

  -- The rules are checked when they are constructed.
  unfoldable pub validate_suppression_profile : SuppressionProfile → Result SuppressionProfile
  validate_suppression_profile profile = do
    require (non_empty profile.version) too_short
    validate_suppression_rules profile.rules
    require (nodup (map (λ (r : SuppressionRule). r.rule_id) profile.rules)) duplicate_rule_ids
    ok profile

  unfoldable pub rules_for : SuppressionProfile → OperationType → List SuppressionRule
  rules_for profile operation =
      filter (λ r. same_operation r.root_operation operation) profile.rules
