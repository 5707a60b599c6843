-- ===== src/Tests/LocalizationSamples.antt =====
-- A core result with a confirmed, an ambiguous, a deleted and an inserted node, for the localization.
use structural_reconciliatio.Base.{String, true, false, none, some, List, [], ◌∷◌}
use structural_reconciliatio.Contracts.Profiles.{OperationType, op_delete, op_insert}
use structural_reconciliatio.Contracts.Matches.{MatchState, MatchCandidate, confirmed, ambiguous}
use structural_reconciliatio.Contracts.Operations.{StructuralOperation}
use structural_reconciliatio.Contracts.Scores.{Confidence}
use structural_reconciliatio.Engine.{ReconciliationResult, duplicate_source_id}
use structural_reconciliatio.Localization.Contracts.{
  LocalizationIssue, missing_in_locale, error, unknown, add_or_translate,
}
use structural_reconciliatio.Reviews.{ReviewerDecisionCommand, override}
use structural_reconciliatio.Localization.Policy.{LocaleVariationPolicy}
use structural_reconciliatio.Localization.Interpreter.{Interpretation}
use structural_reconciliatio.Tests.Samples.{millionths, source_tree, target_tree}

abbrev pub sure : Confidence ⦃R = millionths⦄
sure = record { value = 900000; calibrated = false; model = none }

abbrev pub sample_candidate :
    String → String → String → MatchState → MatchCandidate ⦃R = millionths⦄
sample_candidate id source target state = record {
  match_id = id;
  source_node_ref = source;
  target_node_ref = target;
  state = state;
  score = record { value = 900000; contributions = [] };
  confidence = sure;
  evidence = [];
  violated_soft_constraints = [];
  hard_constraints = [];
  alternative_match_ids = [];
  profile_version = "1";
}

abbrev pub sample_operation :
    String → OperationType → List String → List String → StructuralOperation ⦃R = millionths⦄
sample_operation id type sources targets = record {
  operation_id = id;
  type = type;
  source_node_refs = sources;
  target_node_refs = targets;
  from_parent_ref = some "s0";
  to_parent_ref = none;
  confidence = sure;
  match_ids = [];
  evidence_codes = [];
  preconditions = [];
}

abbrev pub deletion : StructuralOperation ⦃R = millionths⦄
deletion = sample_operation "delete-s2" op_delete ("s2" ∷ []) []

abbrev pub insertion : StructuralOperation ⦃R = millionths⦄
insertion = sample_operation "insert-t2" op_insert [] ("t2" ∷ [])

-- A deletion at a node whose correspondence is open.
abbrev pub open_deletion : StructuralOperation ⦃R = millionths⦄
open_deletion = sample_operation "delete-s3" op_delete ("s3" ∷ []) []

abbrev pub core_result : ReconciliationResult ⦃R = millionths⦄
core_result = record {
  job_id = "job";
  complete = true;
  match_graph = record {
    candidates =
        sample_candidate "m1" "s1" "t1" confirmed ∷ sample_candidate "m2" "s3" "t3" ambiguous ∷ [];
  };
  alignment_result = record { regions = []; unresolved_region_ids = [] };
  operations = deletion ∷ insertion ∷ open_deletion ∷ [];
  causality = record {
    selected = record {
      explanation_id = "explanation";
      root_operation_ids = [];
      links = [];
      objective_score = 0;
      confidence = sure;
    };
    alternatives = [];
  };
  suppression_result = record { suppressed_effects = []; retained_defect_node_refs = [] };
  diagnostics = duplicate_source_id "dup" ∷ [];
  metrics = record { source_node_count = 4; target_node_count = 4; stage_metrics = [] };
}

-- Insertions are permitted in the locale.
abbrev pub insertion_policy : LocaleVariationPolicy ⦃R = millionths⦄
insertion_policy = record {
  policy_id = "policy";
  version = "1";
  locale = "de";
  confirmed_match_threshold = 950000;
  rules =
      (record {
        rule_id = "extra-chapters";
        permitted_operation = op_insert;
        node_types = "chapter" ∷ [];
        justification = "local law";
      })
      ∷ [];
}

abbrev pub interpretation : Interpretation ⦃R = millionths⦄
interpretation = record {
  result = core_result;
  source_tree = source_tree;
  locale_tree = target_tree;
  locale = "de";
  policy = some insertion_policy;
}

abbrev pub override_command : ReviewerDecisionCommand
override_command = record {
  job_id = "job";
  issue_id = 1;
  decision = override;
  reviewer_id = some "reviewer";
  reason = none;
  comment = none;
  overridden_status = some "MOVED";
}

abbrev pub plain_issue : LocalizationIssue ⦃R = millionths⦄
plain_issue = record {
  issue_id = 3;
  localization_status = missing_in_locale;
  severity = error;
  source_node_ref = some "s2";
  locale_node_ref = none;
  source_node_id = none;
  locale_node_id = none;
  source_label = some "Second";
  locale_label = none;
  core_match_ids = [];
  core_operation_ids = "delete-s2" ∷ [];
  match_confidence = none;
  operation_confidence = some 900000;
  repair_confidence = none;
  translation_state = unknown;
  recommended_action = add_or_translate;
  auto_fix_eligible = false;
  policy_exemption = none;
  recommendation_id = none;
  message = none;
}
