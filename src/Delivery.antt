-- ===== src/Delivery.antt =====
-- delivery/cli/exit_codes.py: the exit code of a comparison.
pub mod Verdicts
use structural_reconciliatio.Base.{
  ℕ, Bool, true, false, Option, none, some, List, [], ◌∷◌, ◌&&◌, leb, any, if◌then◌else◌,
}
use structural_reconciliatio.Runtime.{Runtime, ℤ}
use structural_reconciliatio.Localization.Contracts.{
  Severity, info, warning, error, LocalizationIssue, LocalizationValidationResult,
}
use structural_reconciliatio.Orchestration.{ComparisonState, completed, JobRecord}

pub record ExitCodePolicy : Type 0 where
  pub success : ℤ
  pub technical_error : ℤ
  pub content_findings : ℤ
  pub findings_severity : Severity
  pub treat_findings_as_failure : Bool

-- `_SEVERITY_ORDER`
unfoldable pub severity_rank : Severity → ℕ
severity_rank info = 0
severity_rank warning = 1
severity_rank error = 2

unfoldable pub is_completed : ComparisonState → Bool
is_completed completed = true
is_completed _ = false

module _ ⦃R : Runtime⦄ where
  unfoldable pub is_blocking : ExitCodePolicy → LocalizationIssue → Bool
  is_blocking policy issue =
      leb (severity_rank policy.findings_severity) (severity_rank issue.severity)

  unfoldable pub has_blocking_findings : LocalizationValidationResult → ExitCodePolicy → Bool
  has_blocking_findings result policy = any (is_blocking policy) result.issues

  unfoldable pub resolve_exit_code :
      JobRecord → Option LocalizationValidationResult → ExitCodePolicy → ℤ
  resolve_exit_code job none policy = policy.technical_error
  resolve_exit_code job (some result) policy =
      if is_completed job.state
      then (if policy.treat_findings_as_failure && has_blocking_findings result policy
          then policy.content_findings
          else policy.success)
      else policy.technical_error
