-- ===== src/Localization/Interpretation.antt =====
-- application/services/localization_validation.py: from a core result to localization issues.

use structural_reconciliatio.Base.{
  ℕ, suc, String, Bool, true, false, Option, none, some, List, [], ◌∷◌, Dict, put, ◌==◌, not,
  filter, if◌then◌else◌,
}
use structural_reconciliatio.Runtime.{Runtime, Float, max_float, int_eq}
use structural_reconciliatio.Runtime.Int.{pos}
use structural_reconciliatio.Errors.{Result, ok, raise, key_error, value_error, no_maximum, ◌>>=◌}
use structural_reconciliatio.Tree.{CanonicalNode, non_empty}
use structural_reconciliatio.Tree.Values.{
  Value, null, text, int, float, bool, list, dict, nil, cons, end, field, get_field,
}
use structural_reconciliatio.Contracts.Profiles.{op_move}
use structural_reconciliatio.Contracts.Matches.{MatchCandidate, ambiguous_candidates}
use structural_reconciliatio.Contracts.Operations.{StructuralOperation, of_type}
use structural_reconciliatio.Engine.{
  EngineDiagnostic, duplicate_source_id, duplicate_target_id, ReconciliationResult,
}
use structural_reconciliatio.Suppression.{add_member}
use structural_reconciliatio.Localization.Contracts.{
  LocalizationStatus, confirmed_match, probable_match, ambiguous_match, missing_in_locale,
  extra_in_locale, wrong_parent, wrong_order, moved, source_updated, exempt_locale_variation,
  TranslationState, stale, RecommendedAction, no_action, review, relink_or_move, reorder,
  add_or_translate, review_or_remove, review_translation, Severity, info, warning, error,
  LocalizationIssue,
}
use structural_reconciliatio.Localization.Policy.{get_value, str_of}

-- `_SEVERITY[status]`: the table has no entry for `MOVED`.
unfoldable pub severity_of : LocalizationStatus → Result Severity
severity_of confirmed_match = ok info
severity_of probable_match = ok info
severity_of exempt_locale_variation = ok info
severity_of ambiguous_match = ok warning
severity_of wrong_order = ok warning
severity_of source_updated = ok warning
severity_of extra_in_locale = ok warning
severity_of moved = raise (key_error "MOVED")
severity_of _ = ok error

-- `_ACTION.get(status, RecommendedAction.NONE)`
unfoldable pub action_of : LocalizationStatus → RecommendedAction
action_of wrong_parent = relink_or_move
action_of wrong_order = reorder
action_of missing_in_locale = add_or_translate
action_of extra_in_locale = review_or_remove
action_of ambiguous_match = review
action_of source_updated = review_translation
action_of _ = no_action

-- `_message(status, ...)`
unfoldable pub message_of : LocalizationStatus → Option String
message_of wrong_parent = some "corresponding node appears under an incompatible parent"
message_of wrong_order = some "matched siblings appear in a different order"
message_of source_updated = some "source changed after the locale was last synchronized"
message_of _ = none

unfoldable pub is_stale : TranslationState → Bool
is_stale stale = true
is_stale _ = false

unfoldable pub is_duplicate_id : EngineDiagnostic → Bool
is_duplicate_id (duplicate_source_id id) = true
is_duplicate_id (duplicate_target_id id) = true
is_duplicate_id _ = false

module _ ⦃R : Runtime⦄ where
  -- The truth value of a property value.
  unfoldable pub is_truthy : Value → Bool
  is_truthy null = false
  is_truthy (text s) = non_empty s
  is_truthy (int n) = not (int_eq n (pos 0))
  is_truthy (float x) = not (R.eq_int x (pos 0))
  is_truthy (bool b) = b
  is_truthy (list vs) = elim vs [ nil ↦ false | cons v vs ↦ true ]
  is_truthy (dict fs) = elim fs [ end ↦ false | field k v fs ↦ true ]

  -- `a or b`
  unfoldable pub or_else : Option Value → Option Value → Option Value
  or_else none b = b
  or_else (some a) b = if is_truthy a then some a else b

  -- `isinstance(value, str) and value`
  unfoldable pub shown_text : Option Value → Option String
  shown_text none = none
  shown_text (some value) = elim value [ text s ↦ if non_empty s then some s else none | _ ↦ none ]

  unfoldable pub first_label : CanonicalNode → List String → Option String
  first_label node [] = none
  first_label node (key ∷ keys) =
      elim (shown_text (
        or_else (get_field node.content_properties key) (get_field node.identity_properties key))) [
          | none ↦ first_label node keys
          | some label ↦ some label
        ]

  -- `_label(node)`
  unfoldable pub label_of : Option CanonicalNode → Option String
  label_of none = none
  label_of (some node) = first_label node ("navtitle" ∷ "label" ∷ "title" ∷ [])

  -- `_node_id(node)`
  unfoldable pub node_id_of : Option CanonicalNode → Option String
  node_id_of none = none
  node_id_of (some node) = elim (get_value node.identity_properties "id") [
    | none ↦ none
    | some value ↦ some (str_of value)
  ]

  -- `_move_index(result)`: the last MOVE of a source node stays.
  unfoldable pub index_moves :
      Dict StructuralOperation → StructuralOperation → List String → Dict StructuralOperation
  index_moves moves op [] = moves
  index_moves moves op (ref ∷ refs) = index_moves (put moves ref op) op refs

  unfoldable pub index_all_moves :
      Dict StructuralOperation → List StructuralOperation → Dict StructuralOperation
  index_all_moves moves [] = moves
  index_all_moves moves (op ∷ ops) = index_all_moves (index_moves moves op op.source_node_refs) ops

  unfoldable pub move_index : ReconciliationResult → Dict StructuralOperation
  move_index result = index_all_moves [] (of_type op_move result.operations)

  -- The larger of a confidence and those of the candidates.
  unfoldable pub max_confidence : Float → List MatchCandidate → Float
  max_confidence best [] = best
  max_confidence best (c ∷ cs) = max_confidence (max_float best c.confidence.value) cs

  unfoldable pub group_of : ReconciliationResult → String → List MatchCandidate
  group_of result source_ref =
      filter (λ (c : MatchCandidate). c.source_node_ref == source_ref)
        (ambiguous_candidates result.match_graph)

  -- `max(c.confidence.value for c in group)`: of nothing there is no maximum.
  unfoldable pub group_confidence : List MatchCandidate → Result Float
  group_confidence [] = raise (value_error no_maximum)
  group_confidence (c ∷ cs) = ok (max_confidence c.confidence.value cs)

  -- `{c.source_node_ref for c in ambiguous}`
  unfoldable pub ambiguous_sources : List MatchCandidate → List String
  ambiguous_sources [] = []
  ambiguous_sources (c ∷ cs) = add_member (ambiguous_sources cs) c.source_node_ref

  unfoldable pub ambiguous_targets : List MatchCandidate → List String
  ambiguous_targets [] = []
  ambiguous_targets (c ∷ cs) = add_member (ambiguous_targets cs) c.target_node_ref

  -- An issue that is still to take the next identifier.
  abbrev pub Draft : Type 0
  Draft = ℕ → Result LocalizationIssue

  -- The issues of the drafts, numbered on from a value of `counter`.
  unfoldable pub number : ℕ → List Draft → Result (List LocalizationIssue)
  number counter [] = ok []
  number counter (draft ∷ drafts) = do
    issue ← draft (suc counter)
    issues ← number (suc counter) drafts
    ok (issue ∷ issues)
