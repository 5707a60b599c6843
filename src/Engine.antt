-- ===== src/Engine.antt =====
-- core/engine.py: the stages in their order, and the incomplete result. The stages' own classes
-- are those of the core; times are not modelled.
pub mod Stages
pub mod Outcome
pub mod Guarantees
use structural_reconciliatio.Base.{
  ℕ, ◌+◌, String, Bool, true, false, Option, none, some, List, [], ◌∷◌, ◌++◌, not, map, length,
  sort_texts, if◌then◌else◌,
}
use structural_reconciliatio.Runtime.{Runtime, float_zero}
use structural_reconciliatio.Errors.{
  Result, ok, raise, Error, resource_limit_exceeded, LimitKind, ◌>>=◌, ◌>>◌,
}
use structural_reconciliatio.Tree.{CanonicalTree}
use structural_reconciliatio.Tree.Validation.{validate_tree}
use structural_reconciliatio.Contracts.Profiles.{
  NormalizationProfile, MatchingProfile, AlignmentProfile, AlignmentStrategy, lcs, weighted_dp,
  OperationProfile, SuppressionProfile,
}
use structural_reconciliatio.Contracts.Scores.{plain_confidence}
use structural_reconciliatio.Contracts.Matches.{MatchGraph, confirmed_candidates}
use structural_reconciliatio.Contracts.Alignments.{
  AlignedRegion, AlignmentResult, unresolved_regions, unresolved_source_refs,
  unresolved_target_refs,
}
use structural_reconciliatio.Contracts.Operations.{
  StructuralOperation, CausalOperationGraph, CandidateExplanation, SuppressionResult,
}
use structural_reconciliatio.Evidence.{EvidenceIndex, extract}
use structural_reconciliatio.Matching.Matcher.{match_nodes}
use structural_reconciliatio.Alignment.Aligner.{align}
use structural_reconciliatio.Classification.Classifier.{classify}
use structural_reconciliatio.Causality.{analyze}
use structural_reconciliatio.ProfileValidation.{validate_profiles}
use structural_reconciliatio.Limits.{ResourceLimits, check_pre_limits}
use structural_reconciliatio.Normalization.{normalize}
use structural_reconciliatio.Suppression.{suppress}

-- `EngineDiagnostic`: its code with the metadata; severity and stage go with the code.
pub data EngineDiagnostic : Type 0 where
  limit_exceeded : (kind : LimitKind) (value limit : ℕ) → EngineDiagnostic
  duplicate_source_id duplicate_target_id : (persistent_id : String) → EngineDiagnostic
  alignment_strategy_not_implemented : EngineDiagnostic
  unresolved_alignment_region : (region_id : String) (sources targets : ℕ) → EngineDiagnostic

pub data PipelineStage : Type 0 where
  normalization evidence matching alignment classification root_cause suppression : PipelineStage

-- `StageMetric` without its duration
pub record StageMetric : Type 0 where
  pub stage : PipelineStage
  pub candidate_count : ℕ
  pub result_count : ℕ

pub record ReconciliationMetrics : Type 0 where
  pub source_node_count : ℕ
  pub target_node_count : ℕ
  pub stage_metrics : List StageMetric

unfoldable pub is_lcs : AlignmentStrategy → Bool
is_lcs lcs = true
is_lcs weighted_dp = false

unfoldable pub duplicate_id_diagnostics : EvidenceIndex → List EngineDiagnostic
duplicate_id_diagnostics index =
    map duplicate_source_id (sort_texts index.duplicate_source_ids)
    ++ map duplicate_target_id (sort_texts index.duplicate_target_ids)

unfoldable pub region_diagnostic : AlignedRegion → EngineDiagnostic
region_diagnostic region =
    unresolved_alignment_region region.region_id (length (unresolved_source_refs region))
      (length (unresolved_target_refs region))

unfoldable pub alignment_diagnostics : AlignmentProfile → AlignmentResult → List EngineDiagnostic
alignment_diagnostics profile result =
    (if is_lcs profile.strategy then [] else alignment_strategy_not_implemented ∷ [])
    ++ map region_diagnostic (unresolved_regions result)

module _ ⦃R : Runtime⦄ where
  pub record ReconcileTreesCommand : Type 0 where
    pub source_tree : CanonicalTree
    pub target_tree : CanonicalTree
    pub normalization_profile : NormalizationProfile
    pub matching_profile : MatchingProfile
    pub alignment_profile : AlignmentProfile
    pub operation_profile : OperationProfile
    pub suppression_profile : SuppressionProfile
    pub job_id : String
    pub resource_limits : ResourceLimits
    pub incomplete_on_limit : Bool

  -- The profile versions are those of the command.
  pub record ReconciliationResult : Type 0 where
    pub job_id : String
    pub complete : Bool
    pub match_graph : MatchGraph
    pub alignment_result : AlignmentResult
    pub operations : List StructuralOperation
    pub causality : CausalOperationGraph
    pub suppression_result : SuppressionResult
    pub diagnostics : List EngineDiagnostic
    pub metrics : ReconciliationMetrics

  abbrev stage_metric : PipelineStage → ℕ → ℕ → StageMetric
  stage_metric stage candidates results = record {
    stage = stage;
    candidate_count = candidates;
    result_count = results;
  }

  unfoldable pub metrics_of : ReconcileTreesCommand → List StageMetric → ReconciliationMetrics
  metrics_of command stages = record {
    source_node_count = length command.source_tree.nodes;
    target_node_count = length command.target_tree.nodes;
    stage_metrics = stages;
  }

  unfoldable pub incomplete_result :
      ReconcileTreesCommand → List EngineDiagnostic → Result ReconciliationResult
  incomplete_result command diagnostics = do
    confidence ← plain_confidence float_zero
    ok (record {
      job_id = command.job_id;
      complete = false;
      match_graph = record { candidates = [] };
      alignment_result = record { regions = []; unresolved_region_ids = [] };
      operations = [];
      causality = record {
        selected = record {
          explanation_id = "explanation-incomplete";
          root_operation_ids = [];
          links = [];
          objective_score = float_zero;
          confidence = confidence;
        };
        alternatives = [];
      };
      suppression_result = record { suppressed_effects = []; retained_defect_node_refs = [] };
      diagnostics = diagnostics;
      metrics = metrics_of command [];
    })

  -- The stages, from normalization on.
  unfoldable pub run_pipeline : ReconcileTreesCommand → Result ReconciliationResult
  run_pipeline command = do
    let source = normalize command.normalization_profile command.source_tree
    let target = normalize command.normalization_profile command.target_tree
    index ← extract source target
    graph ← match_nodes index command.matching_profile
    result ← align source target graph command.alignment_profile
    operations ← classify source target graph result command.operation_profile
    causality ← analyze operations graph
    suppressed ← suppress source operations result command.suppression_profile
    ok (record {
      job_id = command.job_id;
      complete = true;
      match_graph = graph;
      alignment_result = result;
      operations = operations;
      causality = causality;
      suppression_result = suppressed;
      diagnostics =
          duplicate_id_diagnostics index ++ alignment_diagnostics command.alignment_profile result;
      metrics = metrics_of command (
          stage_metric normalization 0 2
          ∷ stage_metric evidence 0 (length index.source + length index.target)
          ∷ stage_metric matching (length graph.candidates) (length (confirmed_candidates graph))
          ∷ stage_metric alignment 0 (length result.regions)
          ∷ stage_metric classification 0 (length operations)
          ∷ stage_metric root_cause 0 (length causality.selected.root_operation_ids)
          ∷ stage_metric suppression 0 (length suppressed.suppressed_effects)
          ∷ []);
    })

  -- `except ResourceLimitExceededError`, where the command asks for an incomplete result
  unfoldable pub on_limit : ReconcileTreesCommand → Error → Result ReconciliationResult
  on_limit command (resource_limit_exceeded kind value limit) =
      if command.incomplete_on_limit
      then incomplete_result command (limit_exceeded kind value limit ∷ [])
      else raise (resource_limit_exceeded kind value limit)
  on_limit command error = raise error

  unfoldable pub after_limits :
      ReconcileTreesCommand → Result (Unit {0}) → Result ReconciliationResult
  after_limits command (ok _) = run_pipeline command
  after_limits command (raise error) = on_limit command error

  unfoldable pub reconcile : ReconcileTreesCommand → Result ReconciliationResult
  reconcile command = do
    validate_tree command.source_tree
    validate_tree command.target_tree
    validate_profiles command.matching_profile command.operation_profile command.suppression_profile
    after_limits command
        (check_pre_limits command.source_tree command.target_tree command.resource_limits)
