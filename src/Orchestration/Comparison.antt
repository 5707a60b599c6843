-- ===== src/Orchestration/Comparison.antt =====
-- application/orchestration: comparison_job.py and ccms_comparison.py.
use Prim.Native.String.{◌++◌ as ◌&◌}
use structural_reconciliatio.Base.{
  ℕ, String, false, Option, none, some, List, [], ◌∷◌, is_empty, if◌then◌else◌,
}
use structural_reconciliatio.Runtime.{Runtime}
use structural_reconciliatio.Errors.{
  Result, ok, raise, Error, invalid_tree, invalid_profile, resource_limit_exceeded, ◌>>=◌,
}
use structural_reconciliatio.Tree.{CanonicalTree, non_empty}
use structural_reconciliatio.Engine.{ReconcileTreesCommand, ReconciliationResult, reconcile}
use structural_reconciliatio.Localization.Contracts.{LocalizationValidationResult}
use structural_reconciliatio.Localization.Service.{validate_localization}
use structural_reconciliatio.Reporting.{ReportTable}
use structural_reconciliatio.Reporting.Table.{build_report_table}
use structural_reconciliatio.Orchestration.{
  ComparisonState, rejected, completed, failed, ReportFormat, html, csv, json, ArtifactSummary,
  JobRecord, Answer, given, refused, escapes, ComparisonRequest, DocumentProfile, resolve,
  Environment,
}

-- `exc.code` where `except ReconciliationError` catches; every other exception is passed on.
unfoldable pub reconciliation_code : Error → Option String
reconciliation_code (invalid_tree violations) = some "INVALID_TREE"
reconciliation_code (invalid_profile violations) = some "INVALID_PROFILE"
reconciliation_code (resource_limit_exceeded kind value limit) = some "RESOURCE_LIMIT_EXCEEDED"
reconciliation_code _ = none

-- `request.job_id or f"job-{uuid}"`
unfoldable pub resolved_id : Option String → String → String
resolved_id none fresh = "job-" & fresh
resolved_id (some job_id) fresh = if non_empty job_id then job_id else "job-" & fresh

module _ ⦃R : Runtime⦄ where
  pub record JobOutcome : Type 0 where
    pub job : JobRecord
    pub result : Option LocalizationValidationResult

  -- `_rejected` and `_failed`
  unfoldable pub stopped_outcome :
      ComparisonState → String → ComparisonRequest → String → JobOutcome
  stopped_outcome state job_id request code = record {
    job = record {
      job_id = job_id;
      state = state;
      locale = some request.locale;
      status_counts = [];
      direct_issue_count = 0;
      artifacts = [];
      error_code = some code;
      correlation_id = some ("corr-" & job_id);
    };
    result = none;
  }

  -- `_render_one`: name, media type and content
  unfoldable pub render_one :
      Environment
      → ReportFormat
      → LocalizationValidationResult
      → ReportTable
      → CanonicalTree
      → CanonicalTree
      → Result (String × String × String)
  render_one env csv result table source locale = do
    content ← env.render_csv table
    ok ("report.csv", "text/csv", content)
  render_one env json result table source locale = do
    content ← env.render_json result table
    ok ("result.json", "application/json", content)
  render_one env html result table source locale = do
    content ← env.render_html result source locale
    ok ("report.html", "text/html", content)

  unfoldable pub summary_of :
      ReportFormat → (name media_type : String) → Option String → ℕ → ArtifactSummary
  summary_of format name media_type location size = record {
    format = format;
    name = name;
    media_type = media_type;
    location = location;
    size_bytes = size;
  }

  -- The summary of one artifact; one that the store refuses has size 0 and no location.
  unfoldable pub store_artifact :
      Environment → String → ReportFormat → String × String × String → Result ArtifactSummary
  store_artifact env job_id format (name, media_type, content) = elim env.write [
    | none ↦ do size ← env.encoded_length content; ok (summary_of format name media_type none size)
    | some write ↦ elim (write job_id name content media_type) [
      | given ref ↦ ok (summary_of format name media_type (some ref.location) ref.size_bytes)
      | refused code ↦ ok (summary_of format name media_type none 0)
      | escapes reason ↦ raise reason
    ]
  ]

  unfoldable pub render_all :
      Environment
      → List ReportFormat
      → LocalizationValidationResult
      → ReportTable
      → CanonicalTree
      → CanonicalTree
      → Result (List ArtifactSummary)
  render_all env [] result table source locale = ok []
  render_all env (format ∷ formats) result table source locale = do
    report ← render_one env format result table source locale
    summary ← store_artifact env result.job_id format report
    summaries ← render_all env formats result table source locale
    ok (summary ∷ summaries)

  -- `_render_artifacts`
  unfoldable pub render_artifacts :
      Environment
      → ComparisonRequest
      → LocalizationValidationResult
      → CanonicalTree
      → CanonicalTree
      → Result (List ArtifactSummary)
  render_artifacts env request result source locale =
      if is_empty request.report_formats
      then ok []
      else render_all env request.report_formats result
          (build_report_table (record {
            result = result;
            source_tree = some source;
            locale_tree = some locale;
            options = request.report_options;
            decisions = [];
          }))
          source locale

  unfoldable pub completed_outcome :
      String → ComparisonRequest → LocalizationValidationResult → List ArtifactSummary → JobOutcome
  completed_outcome job_id request result artifacts = record {
    job = record {
      job_id = job_id;
      state = completed;
      locale = some request.locale;
      status_counts = result.summary.status_counts;
      direct_issue_count = result.summary.direct_issue_count;
      artifacts = artifacts;
      error_code = none;
      correlation_id = some ("corr-" & job_id);
    };
    result = some result;
  }

  unfoldable pub save_result : Environment → LocalizationValidationResult → Answer (Unit {0})
  save_result env result = elim env.save [ none ↦ given tt | some save ↦ save result ]

  -- `except RepositoryError`, and the reports of a result that was saved
  unfoldable pub after_save :
      Environment
      → ComparisonRequest
      → String
      → CanonicalTree
      → CanonicalTree
      → LocalizationValidationResult
      → Answer (Unit {0})
      → Result JobOutcome
  after_save env request job_id source locale result (refused code) =
      ok (stopped_outcome failed job_id request code)
  after_save env request job_id source locale result (escapes reason) = raise reason
  after_save env request job_id source locale result (given _) = do
    artifacts ← render_artifacts env request result source locale
    ok (completed_outcome job_id request result artifacts)

  -- From the interpretation on.
  unfoldable pub interpret_and_report :
      Environment
      → ComparisonRequest
      → String
      → CanonicalTree
      → CanonicalTree
      → ReconciliationResult
      → Result JobOutcome
  interpret_and_report env request job_id source locale reconciliation = do
    result ←
        validate_localization
          (record {
            result = reconciliation;
            source_tree = source;
            locale_tree = locale;
            locale = request.locale;
            policy = request.policy;
          })
          request.authoritative_side
    after_save env request job_id source locale result (save_result env result)

  unfoldable pub command_of :
      DocumentProfile → String → CanonicalTree → CanonicalTree → ReconcileTreesCommand
  command_of profile job_id source locale = record {
    source_tree = source;
    target_tree = locale;
    normalization_profile = profile.normalization;
    matching_profile = profile.matching;
    alignment_profile = profile.alignment;
    operation_profile = profile.operation;
    suppression_profile = profile.suppression;
    job_id = job_id;
    resource_limits = record { max_node_count = none; max_tree_depth = none };
    incomplete_on_limit = false;
  }

  -- `except ReconciliationError`
  unfoldable pub on_engine_error : String → ComparisonRequest → Error → Result JobOutcome
  on_engine_error job_id request reason = elim (reconciliation_code reason) [
    | none ↦ raise reason
    | some code ↦ ok (stopped_outcome failed job_id request code)
  ]

  unfoldable pub reconcile_and_report :
      Environment
      → ComparisonRequest
      → String
      → DocumentProfile
      → CanonicalTree
      → CanonicalTree
      → Result JobOutcome
  reconcile_and_report env request job_id profile source locale =
      elim (reconcile (command_of profile job_id source locale)) [
        | raise reason ↦ on_engine_error job_id request reason
        | ok reconciliation ↦ interpret_and_report env request job_id source locale reconciliation
      ]

  -- The adaptation of both documents: the second is read only where the first was.
  unfoldable pub adapt_both :
      DocumentProfile → ComparisonRequest → String → Answer (CanonicalTree × CanonicalTree)
  adapt_both profile request job_id =
      elim (profile.adapt_document request.source_content (job_id & "-source") "source") [
        | refused code ↦ refused code
        | escapes reason ↦ escapes reason
        | given source ↦
            elim (profile.adapt_document request.locale_content (job_id & "-locale") "locale") [
              | refused code ↦ refused code
              | escapes reason ↦ escapes reason
              | given locale ↦ given (source, locale)
            ]
      ]

  unfoldable pub run_with_profile :
      Environment → ComparisonRequest → String → DocumentProfile → Result JobOutcome
  run_with_profile env request job_id profile = elim (adapt_both profile request job_id) [
    | refused code ↦ ok (stopped_outcome rejected job_id request code)
    | escapes reason ↦ raise reason
    | given (source, locale) ↦ reconcile_and_report env request job_id profile source locale
  ]

  -- `_run(request)`; `except KeyError` around the resolution of the profile.
  unfoldable pub run_comparison : Environment → ComparisonRequest → Result JobOutcome
  run_comparison env request =
      let job_id = resolved_id request.job_id env.fresh_id in
      elim (resolve env.registry request.document_profile_id) [
        | raise reason ↦ ok (stopped_outcome rejected job_id request "UNSUPPORTED_CONTRACT")
        | ok profile ↦ run_with_profile env request job_id profile
      ]
