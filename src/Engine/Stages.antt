-- ===== src/Engine/Stages.antt =====
-- A run of the stages that returned, stage by stage.
use mathlib.Core.Path.{subst}
use structural_reconciliatio.Base.{◌≡◌, refl}
use structural_reconciliatio.Runtime.{Runtime}
use structural_reconciliatio.Errors.{ok, returned_bind, ok_injective}
use structural_reconciliatio.Base.{true, ◌++◌}
use structural_reconciliatio.Tree.{CanonicalTree}
use structural_reconciliatio.Contracts.Matches.{MatchGraph}
use structural_reconciliatio.Contracts.Alignments.{AlignmentResult}
use structural_reconciliatio.Evidence.{EvidenceIndex, extract}
use structural_reconciliatio.Matching.Matcher.{match_nodes}
use structural_reconciliatio.Alignment.Aligner.{align}
use structural_reconciliatio.Classification.Classifier.{classify}
use structural_reconciliatio.Causality.{analyze}
use structural_reconciliatio.Normalization.{normalize}
use structural_reconciliatio.Suppression.{suppress}
use structural_reconciliatio.Engine.{
  duplicate_id_diagnostics, alignment_diagnostics, ReconcileTreesCommand, ReconciliationResult,
  run_pipeline,
}

module _ ⦃R : Runtime⦄ (command : ReconcileTreesCommand) where
  abbrev pub normal_source : CanonicalTree
  normal_source = normalize command.normalization_profile command.source_tree

  abbrev pub normal_target : CanonicalTree
  normal_target = normalize command.normalization_profile command.target_tree

  pub record Stages (result : ReconciliationResult) : Type 0 where
    pub index : EvidenceIndex
    pub graph : MatchGraph
    pub alignment : AlignmentResult
    pub extracted : extract normal_source normal_target ≡ ok index
    pub matched : match_nodes index command.matching_profile ≡ ok graph
    pub graph_is : result.match_graph ≡ graph
    pub aligned : align normal_source normal_target graph command.alignment_profile ≡ ok alignment
    pub alignment_is : result.alignment_result ≡ alignment
    pub classified :
        classify normal_source normal_target graph alignment command.operation_profile
        ≡ ok result.operations
    pub analyzed : analyze result.operations graph ≡ ok result.causality
    pub suppressed :
        suppress normal_source result.operations alignment command.suppression_profile
        ≡ ok result.suppression_result
    pub diagnosed :
        result.diagnostics
        ≡ duplicate_id_diagnostics index
          ++ alignment_diagnostics command.alignment_profile alignment
    pub identified : result.job_id ≡ command.job_id
    pub complete : result.complete ≡ true

  pub run_pipeline-Stages :
      (result : ReconciliationResult) → run_pipeline command ≡ ok result → Stages result
  unfolding run_pipeline
  run_pipeline-Stages result h =
      let (index, p, h₁) = returned_bind (extract normal_source normal_target) _ h in
      let (graph, q, h₂) = returned_bind (match_nodes index command.matching_profile) _ h₁ in
      let (alignment, r, h₃) =
        returned_bind (align normal_source normal_target graph command.alignment_profile) _ h₂ in
      let (operations, s, h₄) =
        returned_bind
          (classify normal_source normal_target graph alignment command.operation_profile) _ h₃ in
      let (causality, t, h₅) = returned_bind (analyze operations graph) _ h₄ in
      let (suppressed, u, h₆) =
        returned_bind (suppress normal_source operations alignment command.suppression_profile) _
          h₅ in
      let whole = ok_injective _ result h₆ in
      subst Stages whole (record {
        index = index;
        graph = graph;
        alignment = alignment;
        extracted = p;
        matched = q;
        graph_is = refl;
        aligned = r;
        alignment_is = refl;
        classified = s;
        analyzed = t;
        suppressed = u;
        diagnosed = refl;
        identified = refl;
        complete = refl;
      })
