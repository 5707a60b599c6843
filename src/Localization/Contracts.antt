-- ===== src/Localization/Contracts.antt =====
-- application/contracts: localization.py, recommendations.py and common.py.
use structural_reconciliatio.Base.{
  ℕ, String, Bool, true, Option, none, some, List, Dict, ◌==◌, ◌&&◌, not, is_some, is_empty,
}
use structural_reconciliatio.Runtime.{Runtime, Float}
use structural_reconciliatio.Errors.{
  Result, ok, range, repair_not_recommended, exempt_without_rule, auto_fix, executable_repair,
  preconditions_required, changes_required, ◌>>◌,
}
use structural_reconciliatio.Tree.{require}
use structural_reconciliatio.Contracts.Profiles.{in_unit, truthy}
use structural_reconciliatio.Engine.{ReconciliationResult}

pub data AuthoritativeSide : Type 0 where
  source_side locale_side : AuthoritativeSide

-- `LocalizationStatus`
pub data LocalizationStatus : Type 0 where
  confirmed_match probable_match ambiguous_match missing_in_locale extra_in_locale wrong_parent :
      LocalizationStatus
  wrong_order moved source_updated locale_diverged identifier_conflict exempt_locale_variation :
      LocalizationStatus

-- `.value`
abbrev pub status_value : LocalizationStatus → String
status_value confirmed_match = "CONFIRMED_MATCH"
status_value probable_match = "PROBABLE_MATCH"
status_value ambiguous_match = "AMBIGUOUS_MATCH"
status_value missing_in_locale = "MISSING_IN_LOCALE"
status_value extra_in_locale = "EXTRA_IN_LOCALE"
status_value wrong_parent = "WRONG_PARENT"
status_value wrong_order = "WRONG_ORDER"
status_value moved = "MOVED"
status_value source_updated = "SOURCE_UPDATED"
status_value locale_diverged = "LOCALE_DIVERGED"
status_value identifier_conflict = "IDENTIFIER_CONFLICT"
status_value exempt_locale_variation = "EXEMPT_LOCALE_VARIATION"

abbrev pub same_status : LocalizationStatus → LocalizationStatus → Bool
same_status a b = status_value a == status_value b

pub data TranslationState : Type 0 where
  current stale unknown : TranslationState

pub data RecommendedAction : Type 0 where
  no_action review relink_or_move reorder add_or_translate review_or_remove review_translation :
      RecommendedAction

-- `.value`
abbrev pub action_value : RecommendedAction → String
action_value no_action = "NONE"
action_value review = "REVIEW"
action_value relink_or_move = "RELINK_OR_MOVE"
action_value reorder = "REORDER"
action_value add_or_translate = "ADD_OR_TRANSLATE"
action_value review_or_remove = "REVIEW_OR_REMOVE"
action_value review_translation = "REVIEW_TRANSLATION"

pub data Severity : Type 0 where
  info warning error : Severity

pub data RepairOperation : Type 0 where
  move_node reorder_nodes add_node remove_node repair_translation : RepairOperation

pub data RepairChange : Type 0 where
  containment order identity content : RepairChange

-- The counts of `NodeCounts`.
pub record NodeCounts : Type 0 where
  pub confirmed : ℕ
  pub probable : ℕ
  pub ambiguous : ℕ
  pub missing : ℕ
  pub extra : ℕ
  pub structurally_divergent : ℕ
  pub exempt : ℕ

pub record LocalizationSummary : Type 0 where
  pub status_counts : Dict ℕ
  pub operation_counts : Dict ℕ
  pub action_counts : Dict ℕ
  pub node_counts : NodeCounts
  pub direct_issue_count : ℕ
  pub suppressed_effect_count : ℕ
  pub unresolved_region_count : ℕ

module _ ⦃R : Runtime⦄ where
  -- The identifier `issue-3` is the number 3, and `repair-2` the number 2.
  pub record LocalizationIssue : Type 0 where
    pub issue_id : ℕ
    pub localization_status : LocalizationStatus
    pub severity : Severity
    pub source_node_ref : Option String
    pub locale_node_ref : Option String
    pub source_node_id : Option String
    pub locale_node_id : Option String
    pub source_label : Option String
    pub locale_label : Option String
    pub core_match_ids : List String
    pub core_operation_ids : List String
    pub match_confidence : Option Float
    pub operation_confidence : Option Float
    pub repair_confidence : Option Float
    pub translation_state : TranslationState
    pub recommended_action : RecommendedAction
    pub auto_fix_eligible : Bool
    pub policy_exemption : Option String
    pub recommendation_id : Option ℕ
    pub message : Option String

  -- `Field(default=None, ge=0.0, le=1.0)`
  unfoldable pub optional_in_unit : Option Float → Bool
  optional_in_unit none = true
  optional_in_unit (some x) = in_unit x

  abbrev pub has_status : LocalizationStatus → LocalizationIssue → Bool
  has_status status issue = same_status issue.localization_status status

  unfoldable pub validate_issue : LocalizationIssue → Result LocalizationIssue
  validate_issue issue = do
    require (optional_in_unit issue.match_confidence) range
    require (optional_in_unit issue.operation_confidence) range
    require (optional_in_unit issue.repair_confidence) range
    require (not issue.auto_fix_eligible) auto_fix
    require (not (not (is_some issue.recommendation_id) && is_some issue.repair_confidence))
        repair_not_recommended
    require (not (has_status exempt_locale_variation issue && not (truthy issue.policy_exemption)))
        exempt_without_rule
    ok issue

  pub record RepairRecommendation : Type 0 where
    pub recommendation_id : ℕ
    pub operation : RepairOperation
    pub authoritative_side : AuthoritativeSide
    pub target_side : AuthoritativeSide
    pub issue_id : ℕ
    pub source_operation_ids : List String
    pub target_node_ref : Option String
    pub destination_parent_ref : Option String
    pub after_sibling_ref : Option String
    pub before_sibling_ref : Option String
    pub repair_confidence : Float
    pub executable : Bool
    pub auto_fix_eligible : Bool
    pub changes : List RepairChange
    pub preconditions : List String
    pub postconditions : List String

  unfoldable pub validate_recommendation : RepairRecommendation → Result RepairRecommendation
  validate_recommendation repair = do
    require (in_unit repair.repair_confidence) range
    require (not repair.executable) executable_repair
    require (not repair.auto_fix_eligible) auto_fix
    require (not (is_empty repair.preconditions)) preconditions_required
    require (not (is_empty repair.changes)) changes_required
    ok repair

  pub record LocalizationValidationResult : Type 0 where
    pub job_id : String
    pub locale : String
    pub authoritative_side : AuthoritativeSide
    pub reconciliation : ReconciliationResult
    pub issues : List LocalizationIssue
    pub recommendations : List RepairRecommendation
    pub summary : LocalizationSummary
