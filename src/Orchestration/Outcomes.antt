-- ===== src/Orchestration/Outcomes.antt =====
-- How a comparison ends, and why.
use Prim.Native.String.{◌++◌ as ◌&◌}
use structural_reconciliatio.Base.{
  List, ◌≡◌, ◌⊎◌, refl, sym, String, none, some, lookup, Option-cases, inl, inr,
}
use structural_reconciliatio.Runtime.{Runtime}
use structural_reconciliatio.Errors.{
  Result, ok, raise, Error, returned_bind, ok_injective, Result-cases,
}
use structural_reconciliatio.Tree.{CanonicalTree}
use structural_reconciliatio.Engine.{ReconciliationResult, reconcile}
use structural_reconciliatio.Localization.Contracts.{LocalizationValidationResult}
use structural_reconciliatio.Localization.Service.{validate_localization}
use structural_reconciliatio.Orchestration.{
  rejected, failed, Answer, given, refused, escapes, ArtifactSummary, ComparisonRequest,
  DocumentProfile, resolve, Environment,
}
use structural_reconciliatio.Orchestration.Comparison.{
  reconciliation_code, resolved_id, JobOutcome, stopped_outcome, completed_outcome, save_result,
  render_artifacts, after_save, interpret_and_report, command_of, on_engine_error,
  reconcile_and_report, adapt_both, run_with_profile, run_comparison,
}

pub Answer-cases :
    {A : Type 0} (r : Answer A)
    → ((a : A) × (r ≡ given a))
      ⊎ (((c : String) × (r ≡ refused c)) ⊎ ((e : Error) × (r ≡ escapes e)))
Answer-cases (given a) = inl (a, refl)
Answer-cases (refused c) = inr (inl (c, refl))
Answer-cases (escapes e) = inr (inr (e, refl))

module _ ⦃R : Runtime⦄ (env : Environment) (request : ComparisonRequest) where
  abbrev pub own_id : String
  own_id = resolved_id request.job_id env.fresh_id

  -- What the interpretation of a core result is given.
  abbrev pub interpreted :
      CanonicalTree → CanonicalTree → ReconciliationResult → Result LocalizationValidationResult
  interpreted source locale reconciliation =
      validate_localization
        (record {
          result = reconciliation;
          source_tree = source;
          locale_tree = locale;
          locale = request.locale;
          policy = request.policy;
        })
        request.authoritative_side

  -- How the adapter of a profile reads the two documents of the request.
  abbrev pub read_source : DocumentProfile → Answer CanonicalTree
  read_source profile = profile.adapt_document request.source_content (own_id & "-source") "source"

  abbrev pub read_locale : DocumentProfile → Answer CanonicalTree
  read_locale profile = profile.adapt_document request.locale_content (own_id & "-locale") "locale"

  -- The documents of the request, read by the registered profile.
  pub record Adapted (profile : DocumentProfile) (source locale : CanonicalTree) : Type 0 where
    pub registered : lookup env.registry request.document_profile_id ≡ some profile
    pub source_is : read_source profile ≡ given source
    pub locale_is : read_locale profile ≡ given locale

  -- What reading both documents comes to: the locale document is read after the source document.
  pub data Reading (profile : DocumentProfile) : Type 0 where
    both :
        (source locale : CanonicalTree)
        → read_source profile ≡ given source
        → read_locale profile ≡ given locale
        → adapt_both profile request own_id ≡ given (source, locale)
        → Reading profile
    unreadable :
        (code : String)
        → (read_source profile ≡ refused code)
          ⊎ ((source : CanonicalTree) × (read_source profile ≡ given source)
              × (read_locale profile ≡ refused code))
        → adapt_both profile request own_id ≡ refused code
        → Reading profile
    broken :
        (reason : Error)
        → (read_source profile ≡ escapes reason)
          ⊎ ((source : CanonicalTree) × (read_source profile ≡ given source)
              × (read_locale profile ≡ escapes reason))
        → adapt_both profile request own_id ≡ escapes reason
        → Reading profile

  pub Reading-cases : (profile : DocumentProfile) → Reading profile
  unfolding adapt_both
  Reading-cases profile = elim (Answer-cases (read_source profile)) [
    | inr (inl (code, lost)) ↦ Reading.unreadable code (inl lost) (rw (lost, adapt_both) refl)
    | inr (inr (reason, raised)) ↦ Reading.broken reason (inl raised) (rw (raised, adapt_both) refl)
    | inl (source, first) ↦ elim (Answer-cases (read_locale profile)) [
      | inr (inl (code, lost)) ↦
          Reading.unreadable code (inr (source, first, lost))
            (rw (first, adapt_both) (rw lost refl))
      | inr (inr (reason, raised)) ↦
          Reading.broken reason (inr (source, first, raised))
            (rw (first, adapt_both) (rw raised refl))
      | inl (locale, second) ↦
          Reading.both source locale first second (rw (first, adapt_both) (rw second refl))
    ]
  ]

  -- The stages that a job went through, and the outcome that they call for.
  pub data Explained (outcome : JobOutcome) : Type 0 where
    unknown_profile :
        lookup env.registry request.document_profile_id ≡ none
        → outcome ≡ stopped_outcome rejected own_id request "UNSUPPORTED_CONTRACT"
        → Explained outcome
    unreadable :
        (profile : DocumentProfile) (code : String)
        → lookup env.registry request.document_profile_id ≡ some profile
        → (read_source profile ≡ refused code)
          ⊎ ((source : CanonicalTree) × (read_source profile ≡ given source)
              × (read_locale profile ≡ refused code))
        → outcome ≡ stopped_outcome rejected own_id request code
        → Explained outcome
    not_reconciled :
        (profile : DocumentProfile) (source locale : CanonicalTree) (reason : Error) (code : String)
        → Adapted profile source locale
        → reconcile (command_of profile own_id source locale) ≡ raise reason
        → reconciliation_code reason ≡ some code
        → outcome ≡ stopped_outcome failed own_id request code
        → Explained outcome
    not_saved :
        (profile : DocumentProfile) (source locale : CanonicalTree)
        (reconciliation : ReconciliationResult) (result : LocalizationValidationResult)
        (code : String)
        → Adapted profile source locale
        → reconcile (command_of profile own_id source locale) ≡ ok reconciliation
        → interpreted source locale reconciliation ≡ ok result
        → save_result env result ≡ refused code
        → outcome ≡ stopped_outcome failed own_id request code
        → Explained outcome
    finished :
        (profile : DocumentProfile) (source locale : CanonicalTree)
        (reconciliation : ReconciliationResult) (result : LocalizationValidationResult)
        (artifacts : List ArtifactSummary)
        → Adapted profile source locale
        → reconcile (command_of profile own_id source locale) ≡ ok reconciliation
        → interpreted source locale reconciliation ≡ ok result
        → save_result env result ≡ given tt
        → render_artifacts env request result source locale ≡ ok artifacts
        → outcome ≡ completed_outcome own_id request result artifacts
        → Explained outcome

  Explained-interpreted :
      (profile : DocumentProfile) (source locale : CanonicalTree)
      (reconciliation : ReconciliationResult) (outcome : JobOutcome)
      → Adapted profile source locale
      → reconcile (command_of profile own_id source locale) ≡ ok reconciliation
      → interpret_and_report env request own_id source locale reconciliation ≡ ok outcome
      → Explained outcome
  unfolding interpret_and_report after_save
  Explained-interpreted profile source locale reconciliation outcome adapted reconciled h =
      let (result, validated, h₁) = returned_bind (interpreted source locale reconciliation) _ h in
      elim (Answer-cases (save_result env result)) [
        | inl (u, saved) ↦
            let (artifacts, rendered, h₂) =
              returned_bind (render_artifacts env request result source locale) _
                (rw (saved, after_save) at h₁) in
            Explained.finished profile source locale reconciliation result artifacts adapted
              reconciled validated saved rendered (sym (ok_injective _ outcome h₂))
        | inr (inl (code, lost)) ↦
            Explained.not_saved profile source locale reconciliation result code adapted reconciled
              validated lost (sym (ok_injective _ outcome (rw (lost, after_save) at h₁)))
        | inr (inr (reason, raised)) ↦ let clash = rw (raised, after_save) at h₁ in absurd (cc)
      ]

  Explained-reconciled :
      (profile : DocumentProfile) (source locale : CanonicalTree) (outcome : JobOutcome)
      → Adapted profile source locale
      → reconcile_and_report env request own_id profile source locale ≡ ok outcome
      → Explained outcome
  unfolding reconcile_and_report on_engine_error
  Explained-reconciled profile source locale outcome adapted h =
      elim (Result-cases (reconcile (command_of profile own_id source locale))) [
        | inl (reconciliation, reconciled) ↦
            Explained-interpreted profile source locale reconciliation outcome adapted reconciled
              (rw (reconciled, reconcile_and_report) at h)
        | inr (reason, raised) ↦ elim (Option-cases (reconciliation_code reason)) [
          | inl other ↦
              let clash = rw (other, on_engine_error) at (rw (raised, reconcile_and_report) at h) in
              absurd (cc)
          | inr (code, known) ↦
              Explained.not_reconciled profile source locale reason code adapted raised known (
                sym (
                  ok_injective _ outcome
                    (rw (known, on_engine_error) at (rw (raised, reconcile_and_report) at h))))
        ]
      ]

  Explained-adapted :
      (profile : DocumentProfile) (outcome : JobOutcome)
      → lookup env.registry request.document_profile_id ≡ some profile
      → run_with_profile env request own_id profile ≡ ok outcome
      → Explained outcome
  unfolding run_with_profile
  Explained-adapted profile outcome registered h = elim (Reading-cases profile) [
    | Reading.unreadable code lost adapted ↦
        Explained.unreadable profile code registered lost
          (sym (ok_injective _ outcome (rw (adapted, run_with_profile) at h)))
    | Reading.broken reason raised adapted ↦
        let clash = rw (adapted, run_with_profile) at h in absurd (cc)
    | Reading.both source locale first second adapted ↦
        Explained-reconciled profile source locale outcome
          (record { registered = registered; source_is = first; locale_is = second })
          (rw (adapted, run_with_profile) at h)
  ]

  -- A comparison that returns ended in one of five ways, by the first stage that did not succeed: the
  -- profile is not registered or a document cannot be read, and the job is rejected; the engine
  -- raises one of its errors or the result cannot be saved, and the job has failed; or the result is
  -- that of the engine and of its interpretation, was saved and rendered, and the job is completed
  -- with it.
  pub run_comparison-Explained :
      (outcome : JobOutcome) → run_comparison env request ≡ ok outcome → Explained outcome
  unfolding run_comparison resolve
  run_comparison-Explained outcome h =
      elim (Option-cases (lookup env.registry request.document_profile_id)) [
        | inl unknown ↦
            Explained.unknown_profile unknown
              (sym (ok_injective _ outcome (rw (unknown, run_comparison) at h)))
        | inr (profile, registered) ↦
            Explained-adapted profile outcome registered (rw (registered, run_comparison) at h)
      ]
