-- ===== src/Delivery/Verdicts.antt =====
-- What the exit code says of a comparison that ran.
use mathlib.Core.List.{Memᴰ}
use mathlib.Core.List.Memᴰ.{head, tail}
use structural_reconciliatio.Base.{
  ◌≡◌, ◌⊎◌, ◌<◌, ◌≤◌, refl, ap, ◌∙◌, true, false, ◌&&◌, some, List, [], ◌∷◌, All, any, leb, leb→le,
  String, Bool-cases, inl, inr, arith, if◌then◌else◌,
}
use structural_reconciliatio.Runtime.{Runtime, ℤ}
use structural_reconciliatio.Errors.{ok}
use structural_reconciliatio.Localization.Contracts.{
  LocalizationIssue, LocalizationValidationResult,
}
use structural_reconciliatio.Orchestration.{ComparisonRequest, Environment, completed}
use structural_reconciliatio.Orchestration.Comparison.{JobOutcome, run_comparison}
use structural_reconciliatio.Orchestration.Escapes.{Settled, run_comparison-Settled}
use structural_reconciliatio.Delivery.{
  ExitCodePolicy, severity_rank, is_completed, is_blocking, has_blocking_findings,
  resolve_exit_code,
}

module _ ⦃R : Runtime⦄ (policy : ExitCodePolicy) where
  -- The issue is at least as severe as the policy asks, or less severe.
  abbrev Severe : LocalizationIssue → Type 0
  Severe issue = severity_rank policy.findings_severity ≤ severity_rank issue.severity

  abbrev Mild : LocalizationIssue → Type 0
  Mild issue = severity_rank issue.severity < severity_rank policy.findings_severity

  -- The meaning of an exit code.
  pub data Verdict (outcome : JobOutcome) (code : ℤ) : Type 0 where
    technical :
        (error_code : String)
        → outcome.job.error_code ≡ some error_code
        → code ≡ policy.technical_error
        → Verdict outcome code
    findings :
        (result : LocalizationValidationResult) (issue : LocalizationIssue)
        → outcome.result ≡ some result
        → policy.treat_findings_as_failure ≡ true
        → Memᴰ issue result.issues
        → Severe issue
        → code ≡ policy.content_findings
        → Verdict outcome code
    clean :
        (result : LocalizationValidationResult)
        → outcome.result ≡ some result
        → (policy.treat_findings_as_failure ≡ false) ⊎ All Mild result.issues
        → code ≡ policy.success
        → Verdict outcome code

  blocks_cases :
      (issues : List LocalizationIssue)
      → ((issue : LocalizationIssue) × Memᴰ issue issues
          × Severe issue
          × (any (is_blocking policy) issues ≡ true))
        ⊎ (All Mild issues × (any (is_blocking policy) issues ≡ false))
  unfolding any is_blocking
  blocks_cases [] = inr (tt, refl)
  blocks_cases (issue ∷ issues) =
      let here = leb (severity_rank policy.findings_severity) (severity_rank issue.severity) in
      elim (Bool-cases here) [
        | inl severe ↦ inl (issue, head refl, leb→le _ _ severe, ground (arith, severe))
        | inr mild ↦ elim (blocks_cases issues) [
          | inl (other, m, severe, found) ↦ inl (other, tail m, severe, ground (arith, mild, found))
          | inr (rest, clear) ↦ inr ((ground (arith, mild), rest), ground (arith, mild, clear))
        ]
      ]

  exit_code_of :
      (outcome : JobOutcome) (result : LocalizationValidationResult)
      → outcome.job.state ≡ completed
      → outcome.result ≡ some result
      → resolve_exit_code outcome.job outcome.result policy ≡ (
          if policy.treat_findings_as_failure && any (is_blocking policy) result.issues
          then policy.content_findings
          else policy.success)
  unfolding resolve_exit_code is_completed has_blocking_findings
  exit_code_of outcome result done found =
      ap (λ o. resolve_exit_code outcome.job o policy) found
      ∙ ap
          (λ s.
            if is_completed s
            then (if policy.treat_findings_as_failure && any (is_blocking policy) result.issues
                then policy.content_findings
                else policy.success)
            else policy.technical_error)
          done

  Verdict-completed :
      (outcome : JobOutcome) (result : LocalizationValidationResult)
      → outcome.job.state ≡ completed
      → outcome.result ≡ some result
      → Verdict outcome (resolve_exit_code outcome.job outcome.result policy)
  Verdict-completed outcome result done found =
      let code = exit_code_of outcome result done found in
      elim (Bool-cases policy.treat_findings_as_failure) [
        | inr lenient ↦ Verdict.clean result found (inl lenient) (code ∙ ground (arith, lenient))
        | inl strict ↦ elim (blocks_cases result.issues) [
          | inl (issue, m, severe, blocks) ↦
              Verdict.findings result issue found strict m severe
                (code ∙ ground (arith, strict, blocks))
          | inr (mild, clear) ↦
              Verdict.clean result found (inr mild) (code ∙ ground (arith, strict, clear))
        ]
      ]

  -- Where a comparison returns, its exit code is the policy's code for technical errors and the
  -- record has an error code; or it is the policy's code for findings, the policy asks for it, and the
  -- result has an issue that is severe enough; or it is the policy's code for success, and the policy
  -- does not ask for findings or every issue is less severe.
  pub resolve_exit_code-Verdict :
      (env : Environment) (request : ComparisonRequest) (outcome : JobOutcome)
      → run_comparison env request ≡ ok outcome
      → Verdict outcome (resolve_exit_code outcome.job outcome.result policy)
  unfolding resolve_exit_code
  resolve_exit_code-Verdict env request outcome h =
      elim (run_comparison-Settled env request outcome h).2 [
        | Settled.with_result result done _ found _ ↦ Verdict-completed outcome result done found
        | Settled.with_code code _ failed lost ↦
            Verdict.technical code failed (ap (λ o. resolve_exit_code outcome.job o policy) lost)
      ]
