-- ===== src/Orchestration/Escapes.antt =====
-- Terminal records, and the exceptions that a comparison does not catch.
use structural_reconciliatio.Base.{
  ◌≡◌, ◌⊎◌, refl, sym, ap, ◌∙◌, String, true, none, some, [], lookup, length, Option-cases, inl,
  inr, Bool-cases, is_empty, false,
}
use mathlib.Core.Path.{subst}
use structural_reconciliatio.Runtime.{Runtime}
use structural_reconciliatio.Errors.{
  ok, raise, Error, returned_bind, ok_injective, Result-cases, raise_injective, raised_bind,
}
use structural_reconciliatio.Tree.{CanonicalTree}
use structural_reconciliatio.Engine.{ReconciliationResult, reconcile}
use structural_reconciliatio.Localization.Contracts.{LocalizationValidationResult}
use structural_reconciliatio.Localization.Interpreter.{Interpretation, interpret}
use structural_reconciliatio.Localization.Recommendations.{recommend}
use structural_reconciliatio.Localization.Service.{
  operations_by_id, summarize, validate_localization,
}
use structural_reconciliatio.Orchestration.{
  rejected, completed, failed, is_terminal, Answer, given, escapes, ComparisonRequest,
  DocumentProfile, resolve, Environment,
}
use structural_reconciliatio.Orchestration.Comparison.{
  reconciliation_code, JobOutcome, stopped_outcome, completed_outcome, interpret_and_report,
  save_result, render_artifacts, after_save, command_of, on_engine_error, reconcile_and_report,
  run_with_profile, run_comparison,
}
use structural_reconciliatio.Orchestration.Outcomes.{
  Answer-cases, own_id, interpreted, read_source, read_locale, Adapted, Reading, Reading-cases,
  Explained, run_comparison-Explained,
}

module _ ⦃R : Runtime⦄ (env : Environment) (request : ComparisonRequest) where
  -- A record that the caller can tell from the other kinds: of a completed comparison with its
  -- result, or of a technical failure with its code.
  pub data Settled (outcome : JobOutcome) : Type 0 where
    with_result :
        (result : LocalizationValidationResult)
        → outcome.job.state ≡ completed
        → outcome.job.error_code ≡ none
        → outcome.result ≡ some result
        → outcome.job.direct_issue_count ≡ length result.issues
        → Settled outcome
    with_code :
        (code : String)
        → (outcome.job.state ≡ rejected) ⊎ (outcome.job.state ≡ failed)
        → outcome.job.error_code ≡ some code
        → outcome.result ≡ none
        → Settled outcome

  abbrev Closed : JobOutcome → Type 0
  Closed outcome =
      (outcome.job.job_id ≡ own_id env request)
      × (is_terminal outcome.job.state ≡ true)
      × Settled outcome

  Closed-rejected :
      (code : String) → Closed (stopped_outcome rejected (own_id env request) request code)
  unfolding stopped_outcome is_terminal
  Closed-rejected code = (refl, refl, Settled.with_code code (inl refl) refl refl)

  Closed-failed :
      (code : String) → Closed (stopped_outcome failed (own_id env request) request code)
  unfolding stopped_outcome is_terminal
  Closed-failed code = (refl, refl, Settled.with_code code (inr refl) refl refl)

  counted_issues :
      (i : Interpretation) (result : LocalizationValidationResult)
      → validate_localization i request.authoritative_side ≡ ok result
      → result.summary.direct_issue_count ≡ length result.issues
  unfolding validate_localization summarize
  counted_issues i result h =
      let (issues, _, h₁) = returned_bind (interpret i) _ h in
      let (repairs, _, h₂) =
        returned_bind
          (recommend request.authoritative_side (operations_by_id [] i.result.operations) 0 issues)
          _ h₁ in
      subst (λ (r : LocalizationValidationResult). r.summary.direct_issue_count ≡ length r.issues)
        (ok_injective _ result h₂) refl

  -- A comparison that returns has a terminal record under its job id: completed with a result, no
  -- error code, and the number of the issues of the result; or rejected or failed with an error code
  -- and no result.
  pub run_comparison-Settled :
      (outcome : JobOutcome)
      → run_comparison env request ≡ ok outcome
      → (outcome.job.job_id ≡ own_id env request)
        × (is_terminal outcome.job.state ≡ true)
        × Settled outcome
  unfolding completed_outcome is_terminal
  run_comparison-Settled outcome h = elim (run_comparison-Explained env request outcome h) [
    | Explained.unknown_profile _ e ↦ subst Closed (sym e) (Closed-rejected "UNSUPPORTED_CONTRACT")
    | Explained.unreadable _ code _ _ e ↦ subst Closed (sym e) (Closed-rejected code)
    | Explained.not_reconciled _ _ _ _ code _ _ _ e ↦ subst Closed (sym e) (Closed-failed code)
    | Explained.not_saved _ _ _ _ _ code _ _ _ _ e ↦ subst Closed (sym e) (Closed-failed code)
    | Explained.finished _ source locale reconciliation result _ _ _ validated _ _ e ↦
        subst Closed (sym e) (
          refl,
          refl,
          Settled.with_result result refl refl refl (counted_issues _ result validated),
        )
  ]

  -- The localization result of the job, with the trees that its report is about.
  pub record Produced (source locale : CanonicalTree) (result : LocalizationValidationResult)
      : Type 0 where
    pub profile : DocumentProfile
    pub reconciliation : ReconciliationResult
    pub adapted : Adapted env request profile source locale
    pub reconciled :
        reconcile (command_of profile (own_id env request) source locale) ≡ ok reconciliation
    pub validated : interpreted env request source locale reconciliation ≡ ok result

  -- Where an exception comes from.
  pub data Escaped (reason : Error) : Type 0 where
    of_engine :
        (profile : DocumentProfile) (source locale : CanonicalTree)
        → Adapted env request profile source locale
        → reconcile (command_of profile (own_id env request) source locale) ≡ raise reason
        → reconciliation_code reason ≡ none
        → Escaped reason
    of_interpretation :
        (profile : DocumentProfile) (source locale : CanonicalTree)
        (reconciliation : ReconciliationResult)
        → Adapted env request profile source locale
        → reconcile (command_of profile (own_id env request) source locale) ≡ ok reconciliation
        → interpreted env request source locale reconciliation ≡ raise reason
        → Escaped reason
    of_adapter :
        (profile : DocumentProfile)
        → lookup env.registry request.document_profile_id ≡ some profile
        → (read_source env request profile ≡ escapes reason)
          ⊎ ((source : CanonicalTree) × (read_source env request profile ≡ given source)
              × (read_locale env request profile ≡ escapes reason))
        → Escaped reason
    of_repository :
        (save : LocalizationValidationResult → Answer (Unit {0})) (source locale : CanonicalTree)
        (result : LocalizationValidationResult)
        → Produced source locale result
        → env.save ≡ some save
        → save result ≡ escapes reason
        → Escaped reason
    of_report :
        (source locale : CanonicalTree) (result : LocalizationValidationResult)
        → Produced source locale result
        → is_empty request.report_formats ≡ false
        → save_result env result ≡ given tt
        → render_artifacts env request result source locale ≡ raise reason
        → Escaped reason

  Escaped-saving :
      (source locale : CanonicalTree) (result : LocalizationValidationResult) (reason : Error)
      → Produced source locale result
      → save_result env result ≡ escapes reason
      → Escaped reason
  unfolding save_result
  Escaped-saving source locale result reason made h = elim (Option-cases env.save) [
    | inl absent ↦ let clash = rw (absent, save_result) at h in absurd (cc)
    | inr (save, there) ↦
        Escaped.of_repository save source locale result made there (rw (there, save_result) at h)
  ]

  Escaped-rendering :
      (source locale : CanonicalTree) (result : LocalizationValidationResult) (reason : Error)
      → Produced source locale result
      → save_result env result ≡ given tt
      → render_artifacts env request result source locale ≡ raise reason
      → Escaped reason
  unfolding render_artifacts
  Escaped-rendering source locale result reason made saved h =
      elim (Bool-cases (is_empty request.report_formats)) [
        | inl asked_for_none ↦ let clash = rw (asked_for_none, render_artifacts) at h in absurd (cc)
        | inr some_asked ↦ Escaped.of_report source locale result made some_asked saved h
      ]

  Escaped-reported :
      (source locale : CanonicalTree) (result : LocalizationValidationResult) (reason : Error)
      → Produced source locale result
      → after_save env request (own_id env request) source locale result (save_result env result)
        ≡ raise reason
      → Escaped reason
  unfolding after_save
  Escaped-reported source locale result reason made h =
      elim (Answer-cases (save_result env result)) [
        | inr (inl (code, lost)) ↦ let clash = rw (lost, after_save) at h in absurd (cc)
        | inr (inr (other, raised)) ↦
            let same = raise_injective other reason (rw (raised, after_save) at h) in
            Escaped-saving source locale result reason made (raised ∙ ap escapes same)
        | inl (u, saved) ↦
            elim (raised_bind (render_artifacts env request result source locale) _ reason
              (rw (saved, after_save) at h)) [
                | inl raised ↦ Escaped-rendering source locale result reason made saved raised
                | inr (artifacts, rendered, clash) ↦ absurd (cc)
              ]
      ]

  Escaped-reconciled :
      (profile : DocumentProfile) (source locale : CanonicalTree) (reason : Error)
      → Adapted env request profile source locale
      → reconcile_and_report env request (own_id env request) profile source locale ≡ raise reason
      → Escaped reason
  unfolding reconcile_and_report on_engine_error interpret_and_report
  Escaped-reconciled profile source locale reason adapted h =
      elim (Result-cases (reconcile (command_of profile (own_id env request) source locale))) [
        | inl (reconciliation, reconciled) ↦
            elim (raised_bind (interpreted env request source locale reconciliation) _ reason
              (rw (reconciled, reconcile_and_report) at h)) [
                | inl raised ↦
                    Escaped.of_interpretation profile source locale reconciliation adapted
                      reconciled raised
                | inr (result, validated, h₁) ↦
                    Escaped-reported source locale result reason
                      (record {
                        profile = profile;
                        reconciliation = reconciliation;
                        adapted = adapted;
                        reconciled = reconciled;
                        validated = validated;
                      })
                      h₁
              ]
        | inr (other, raised) ↦ elim (Option-cases (reconciliation_code other)) [
          | inr (code, known) ↦
              let clash = rw (known, on_engine_error) at (rw (raised, reconcile_and_report) at h) in
              absurd (cc)
          | inl unknown ↦
              let same : other ≡ reason =
                raise_injective other reason
                  (rw (unknown, on_engine_error) at (rw (raised, reconcile_and_report) at h)) in
              Escaped.of_engine profile source locale adapted (raised ∙ ap raise same)
                (ap reconciliation_code (sym same) ∙ unknown)
        ]
      ]

  Escaped-adapted :
      (profile : DocumentProfile) (reason : Error)
      → lookup env.registry request.document_profile_id ≡ some profile
      → run_with_profile env request (own_id env request) profile ≡ raise reason
      → Escaped reason
  unfolding run_with_profile
  Escaped-adapted profile reason registered h = elim (Reading-cases env request profile) [
    | Reading.unreadable code lost adapted ↦
        let clash = rw (adapted, run_with_profile) at h in absurd (cc)
    | Reading.broken other raised adapted ↦
        let same = raise_injective other reason (rw (adapted, run_with_profile) at h) in
        Escaped.of_adapter profile registered (
          subst
            (λ e.
              (read_source env request profile ≡ escapes e)
              ⊎ ((source : CanonicalTree) × (read_source env request profile ≡ given source)
                  × (read_locale env request profile ≡ escapes e)))
            same raised)
    | Reading.both source locale first second adapted ↦
        Escaped-reconciled profile source locale reason
          (record { registered = registered; source_is = first; locale_is = second })
          (rw (adapted, run_with_profile) at h)
  ]

  -- An exception that leaves a comparison was raised by the engine and is none of its own errors; by
  -- the interpretation of a result of the engine; by the adapter or the repository, and is not the
  -- error of that port; or while the reports were rendered and stored, where some were asked for. A
  -- profile that is not registered, the port errors of adapter and repository, and the engine's own
  -- errors raise nothing.
  pub run_comparison-Escaped :
      (reason : Error) → run_comparison env request ≡ raise reason → Escaped reason
  unfolding run_comparison resolve
  run_comparison-Escaped reason h =
      elim (Option-cases (lookup env.registry request.document_profile_id)) [
        | inl unknown ↦ let clash = rw (unknown, run_comparison) at h in absurd (cc)
        | inr (profile, registered) ↦
            Escaped-adapted profile reason registered (rw (registered, run_comparison) at h)
      ]
