-- ===== src/Orchestration/Ccms.antt =====
-- application/orchestration/ccms_comparison.py: a comparison of two objects of a content system.
pub mod Fetching
use structural_reconciliatio.Base.{String, true, false, Option, none, some, []}
use structural_reconciliatio.Runtime.{Runtime}
use structural_reconciliatio.Errors.{Result, ok, raise, ◌>>=◌}
use structural_reconciliatio.Localization.Contracts.{AuthoritativeSide}
use structural_reconciliatio.Orchestration.{
  rejected, Answer, given, refused, escapes, ComparisonRequest, Environment, validate_request,
}
use structural_reconciliatio.Orchestration.Comparison.{
  resolved_id, JobOutcome, stopped_outcome, run_comparison,
}

module _ ⦃R : Runtime⦄ where
  -- The request that the service builds, with the defaults for what it does not set.
  unfoldable pub ccms_request :
      (source locale_content locale profile_id : String)
      → AuthoritativeSide
      → String
      → ComparisonRequest
  ccms_request source locale_content locale profile_id side job_id = record {
    source_content = source;
    locale_content = locale_content;
    locale = locale;
    document_profile_id = profile_id;
    authoritative_side = side;
    report_formats = [];
    report_options = record { include_suppressed = true; redact_content = false };
    policy = none;
    job_id = some job_id;
  }

  -- `run_from_refs(...)`, where `read` is the port: the second object is read after the first.
  unfoldable pub run_from_refs :
      {Ref : Type 0}
      → Environment
      → (Ref → Answer String)
      → (source_ref locale_ref : Ref) → (locale profile_id : String) → AuthoritativeSide
      → Option String
      → (fresh : String) → Result JobOutcome
  run_from_refs env read source_ref locale_ref locale profile_id side job_id fresh =
      let id = resolved_id job_id fresh in
      let stopped = λ (code : String).
        stopped_outcome rejected id (ccms_request "" "" locale profile_id side id) code in
      elim (read source_ref) [
        | refused code ↦ ok (stopped code)
        | escapes reason ↦ raise reason
        | given source ↦ elim (read locale_ref) [
          | refused code ↦ ok (stopped code)
          | escapes reason ↦ raise reason
          | given target ↦ do
            request ← validate_request (ccms_request source target locale profile_id side id)
            run_comparison env request
        ]
      ]
