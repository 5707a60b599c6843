-- ===== src/Orchestration/Composed.antt =====
-- A completed comparison, from the contents of the request to the issues of its result.
use mathlib.Core.Path.{subst}
use structural_reconciliatio.Base.{◌≡◌, refl, sym, ap, ◌∙◌, none, some, [], All, lookup}
use structural_reconciliatio.Runtime.{Runtime}
use structural_reconciliatio.Errors.{ok, returned_bind, ok_injective}
use structural_reconciliatio.Tree.{CanonicalTree}
use structural_reconciliatio.Tree.WellFormed.{WellFormed}
use structural_reconciliatio.Engine.{ReconcileTreesCommand, ReconciliationResult, reconcile}
use structural_reconciliatio.Engine.Outcome.{reconcile-Admitted}
use structural_reconciliatio.Localization.Contracts.{
  AuthoritativeSide, LocalizationValidationResult,
}
use structural_reconciliatio.Localization.Interpreter.{Interpretation, interpret}
use structural_reconciliatio.Localization.Recommendations.{recommend}
use structural_reconciliatio.Localization.Service.{operations_by_id, validate_localization}
use structural_reconciliatio.Localization.Open.{
  Settled as SettledIssue, validate_localization-Settled,
}
use structural_reconciliatio.Orchestration.{given, ComparisonRequest, DocumentProfile, Environment}
use structural_reconciliatio.Orchestration.Comparison.{
  JobOutcome, stopped_outcome, completed_outcome, command_of, run_comparison,
}
use structural_reconciliatio.Orchestration.Outcomes.{
  own_id, interpreted, read_source, read_locale, Adapted, Explained, run_comparison-Explained,
}

module _ ⦃R : Runtime⦄ where
  -- What a localization result takes over from what it interprets.
  record TakesOver (i : Interpretation) (side : AuthoritativeSide)
      (out : LocalizationValidationResult) : Type 0 where
    pub core : out.reconciliation ≡ i.result
    pub job : out.job_id ≡ i.result.job_id
    pub locale : out.locale ≡ i.locale
    pub side_is : out.authoritative_side ≡ side

  TakesOver-validated :
      (i : Interpretation) (side : AuthoritativeSide) (out : LocalizationValidationResult)
      → validate_localization i side ≡ ok out
      → TakesOver i side out
  unfolding validate_localization
  TakesOver-validated i side out h =
      let (issues, _, h₁) = returned_bind (interpret i) _ h in
      let (repairs, _, h₂) =
        returned_bind (recommend side (operations_by_id [] i.result.operations) 0 issues) _ h₁ in
      subst (TakesOver i side) (ok_injective _ out h₂)
        (record { core = refl; job = refl; locale = refl; side_is = refl })

module _ ⦃R : Runtime⦄ (env : Environment) (request : ComparisonRequest) where
  -- A localization result that rests on the documents of the request.
  pub record Composed (result : LocalizationValidationResult) : Type 0 where
    pub profile : DocumentProfile
    pub source : CanonicalTree
    pub locale : CanonicalTree
    pub command : ReconcileTreesCommand
    pub registered : lookup env.registry request.document_profile_id ≡ some profile
    pub source_read : read_source env request profile ≡ given source
    pub locale_read : read_locale env request profile ≡ given locale
    pub of_source : command.source_tree ≡ source
    pub of_locale : command.target_tree ≡ locale
    pub matched_by : command.matching_profile ≡ profile.matching
    pub classified_by : command.operation_profile ≡ profile.operation
    pub suppressed_by : command.suppression_profile ≡ profile.suppression
    pub reconciled : reconcile command ≡ ok result.reconciliation
    pub source_well_formed : WellFormed source
    pub locale_well_formed : WellFormed locale
    pub for_locale : result.locale ≡ request.locale
    pub for_side : result.authoritative_side ≡ request.authoritative_side
    pub settled : All (SettledIssue result.reconciliation) result.issues

  Composed-finished :
      (profile : DocumentProfile) (source locale : CanonicalTree) (core : ReconciliationResult)
      (result : LocalizationValidationResult)
      → Adapted env request profile source locale
      → reconcile (command_of profile (own_id env request) source locale) ≡ ok core
      → interpreted env request source locale core ≡ ok result
      → Composed result
  unfolding command_of
  Composed-finished profile source locale core result adapted reconciled validated =
      let taken = TakesOver-validated _ request.authoritative_side result validated in
      let (well_formed, also, _, _) =
        reconcile-Admitted (command_of profile (own_id env request) source locale) core
          reconciled in
      record {
        profile = profile;
        source = source;
        locale = locale;
        command = command_of profile (own_id env request) source locale;
        registered = adapted.registered;
        source_read = adapted.source_is;
        locale_read = adapted.locale_is;
        of_source = refl;
        of_locale = refl;
        matched_by = refl;
        classified_by = refl;
        suppressed_by = refl;
        reconciled = reconciled ∙ ap ok (sym taken.core);
        source_well_formed = well_formed;
        locale_well_formed = also;
        for_locale = taken.locale;
        for_side = taken.side_is;
        settled =
            subst (λ c. All (SettledIssue c) result.issues) (sym taken.core)
              (validate_localization-Settled _ request.authoritative_side result validated);
      }

  -- The result of a comparison, where it has one, rests on the documents of the request: the
  -- registered profile's adapter read a source tree from the source content and a locale tree from
  -- the locale content, both are well formed, the core result is that of the engine on these trees
  -- with the profile's matching, operation and suppression profiles, the result is for the locale and
  -- the side of the request, and no issue of it reports presence at a node whose correspondence is
  -- open in that core result.
  pub run_comparison-Composed :
      (outcome : JobOutcome) (result : LocalizationValidationResult)
      → run_comparison env request ≡ ok outcome
      → outcome.result ≡ some result
      → Composed result
  unfolding stopped_outcome completed_outcome
  run_comparison-Composed outcome result h found =
      elim (run_comparison-Explained env request outcome h) [
        | Explained.unknown_profile _ e ↦ lost _ e refl
        | Explained.unreadable _ code _ _ e ↦ lost _ e refl
        | Explained.not_reconciled _ _ _ _ code _ _ _ e ↦ lost _ e refl
        | Explained.not_saved _ _ _ _ _ code _ _ _ _ e ↦ lost _ e refl
        | Explained.finished profile source locale core made _ adapted reconciled validated _ _ e ↦
            let same : some made ≡ some result =
              ap (λ (o : JobOutcome). o.result) (sym e) ∙ found in
            subst Composed (some_same made result same)
              (Composed-finished profile source locale core made adapted reconciled validated)
      ]
    where
      lost : (stopped : JobOutcome) → outcome ≡ stopped → stopped.result ≡ none → Composed result
      lost stopped e nothing =
          let clash : none ≡ some result =
            sym nothing ∙ ap (λ (o : JobOutcome). o.result) (sym e) ∙ found in
          absurd (cc)

      some_same : (a b : LocalizationValidationResult) → some a ≡ some b → a ≡ b
      some_same a b same = cc
