-- ===== src/Localization/Policy.antt =====
-- application/contracts/policy.py, and the services locale_policy.py and translation_state.py.
use structural_reconciliatio.Base.{
  String, Bool, true, false, Option, none, some, List, [], ◌∷◌, map, nodup, is_empty, contains,
  if◌then◌else◌, ◌==◌, ◌||◌,
}
use structural_reconciliatio.Runtime.{Runtime, Float}
use structural_reconciliatio.Errors.{Result, ok, range, too_short, duplicate_rule_ids, ◌>>◌}
use structural_reconciliatio.Tree.{CanonicalNode, require, non_empty}
use structural_reconciliatio.Tree.Values.{Value, null, text, Fields, get_field}
use structural_reconciliatio.Contracts.Profiles.{OperationType, same_operation, in_unit}
use structural_reconciliatio.Evidence.{repr}
use structural_reconciliatio.Localization.Contracts.{TranslationState, current, stale, unknown}

pub record LocaleVariationRule : Type 0 where
  pub rule_id : String
  pub permitted_operation : OperationType
  pub node_types : List String
  pub justification : String

-- `rule.applies_to(operation, node_type)`
unfoldable pub applies_to : LocaleVariationRule → OperationType → String → Bool
applies_to rule operation node_type =
    if same_operation operation rule.permitted_operation
    then is_empty rule.node_types || contains node_type rule.node_types
    else false

-- The first rule that applies.
unfoldable pub permitting_rule : List LocaleVariationRule → OperationType → String → Option String
permitting_rule [] operation node_type = none
permitting_rule (rule ∷ rules) operation node_type =
    if applies_to rule operation node_type
    then some rule.rule_id
    else permitting_rule rules operation node_type

module _ ⦃R : Runtime⦄ where
  pub record LocaleVariationPolicy : Type 0 where
    pub policy_id : String
    pub version : String
    pub locale : String
    pub confirmed_match_threshold : Float
    pub rules : List LocaleVariationRule

  unfoldable pub rules_complete : List LocaleVariationRule → Bool
  rules_complete [] = true
  rules_complete (rule ∷ rules) =
      if non_empty rule.rule_id
      then (if non_empty rule.justification then rules_complete rules else false)
      else false

  -- The validators of the policy and of its rules.
  unfoldable pub validate_policy : LocaleVariationPolicy → Result LocaleVariationPolicy
  validate_policy policy = do
    require (rules_complete policy.rules) too_short
    require (non_empty policy.policy_id) too_short
    require (non_empty policy.version) too_short
    require (non_empty policy.locale) too_short
    require (in_unit policy.confirmed_match_threshold) range
    require (nodup (map (λ (r : LocaleVariationRule). r.rule_id) policy.rules)) duplicate_rule_ids
    ok policy

  unfoldable pub exemption_for :
      Option LocaleVariationPolicy → String → OperationType → String → Option String
  exemption_for none locale operation node_type = none
  exemption_for (some policy) locale operation node_type =
      if policy.locale == locale then permitting_rule policy.rules operation node_type else none

  -- `fs.get(k)`, which is `None` also where `None` is stored
  unfoldable pub get_value : Fields → String → Option Value
  get_value fs key = elim (get_field fs key) [
    | none ↦ none
    | some value ↦ elim value [ null ↦ none | other ↦ some other ]
  ]

  -- `str(v)`
  unfoldable pub str_of : Value → String
  str_of (text s) = s
  str_of value = repr value

  unfoldable pub first_value : List Fields → String → Option Value
  first_value [] key = none
  first_value (fs ∷ buckets) key = elim (get_value fs key) [
    | none ↦ first_value buckets key
    | some value ↦ some value
  ]

  -- `_read(node, key)`
  unfoldable pub read_revision : CanonicalNode → String → Option String
  read_revision node key =
      elim (first_value
        (node.identity_properties ∷ node.content_properties ∷ node.structural_properties ∷ [])
        key) [ none ↦ none | some value ↦ some (str_of value) ]

  unfoldable pub compare_revisions : Option String → Option String → TranslationState
  compare_revisions (some revision) (some synced) = if revision == synced then current else stale
  compare_revisions _ _ = unknown

  -- `state_for(source_node, locale_node)` with the default keys
  unfoldable pub state_for : CanonicalNode → CanonicalNode → TranslationState
  state_for source_node locale_node =
      compare_revisions (read_revision source_node "revision")
        (read_revision locale_node "source-revision")
