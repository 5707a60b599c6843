-- ===== src/Engine/Outcome.antt =====
-- What a run of the engine returns and when.
use structural_reconciliatio.Base.{
  ℕ, ◌≡◌, refl, sym, ap, ◌∙◌, true, false, List, [], ◌∷◌, Bool-cases, ◌⊎◌, inl, inr, if◌then◌else◌,
}
use structural_reconciliatio.Runtime.{Runtime, float_zero}
use structural_reconciliatio.Errors.{
  Result, ok, raise, Error, LimitKind, resource_limit_exceeded, invalid_tree, invalid_profile,
  key_error, index_error, assertion_error, value_error, fuel_spent, foreign_error,
  decision_for_other_job, decision_for_unknown_issue, returned_bind, ok_injective,
}
use structural_reconciliatio.Tree.WellFormed.{WellFormed}
use structural_reconciliatio.Tree.Validation.{validate_tree}
use structural_reconciliatio.Tree.Validation.Exactness.{validate_tree-ok_iff}
use structural_reconciliatio.Contracts.Scores.{plain_confidence}
use structural_reconciliatio.ProfileValidation.{validate_profiles}
use structural_reconciliatio.ProfileValidation.Exactness.{
  RulesEnabled, WeightsInPriority, validate_profiles-ok_iff,
}
use structural_reconciliatio.Limits.{check_pre_limits}
use structural_reconciliatio.Engine.Stages.{Stages, run_pipeline-Stages}
use structural_reconciliatio.Engine.{
  ReconcileTreesCommand, ReconciliationResult, EngineDiagnostic, limit_exceeded, incomplete_result,
  on_limit, after_limits, reconcile,
}

module _ ⦃R : Runtime⦄ (command : ReconcileTreesCommand) where
  -- What the boundary checks before any stage runs.
  abbrev pub Admitted : Type 0
  Admitted =
      WellFormed command.source_tree
      × WellFormed command.target_tree
      × RulesEnabled command.operation_profile command.suppression_profile.rules
      × WeightsInPriority command.matching_profile.evidence_priority
          command.matching_profile.feature_weights

  reconcile-admitted :
      Admitted
      → reconcile command
        ≡ after_limits command
            (check_pre_limits command.source_tree command.target_tree command.resource_limits)
  unfolding reconcile
  reconcile-admitted (s, t, rules, weights) = rw ((validate_tree-ok_iff command.source_tree).1 s) (
      rw ((validate_tree-ok_iff command.target_tree).1 t) (
        rw
          ((validate_profiles-ok_iff command.matching_profile command.operation_profile
              command.suppression_profile).1
            (rules, weights))
          refl))

  -- Whatever the limits, a result means that both trees are well formed and the profiles coherent.
  pub reconcile-Admitted :
      (result : ReconciliationResult) → reconcile command ≡ ok result → Admitted
  unfolding reconcile
  reconcile-Admitted result h =
      let (_, s, h₁) = returned_bind (validate_tree command.source_tree) _ h in
      let (_, t, h₂) = returned_bind (validate_tree command.target_tree) _ h₁ in
      let (_, p, h₃) =
        returned_bind
          (validate_profiles command.matching_profile command.operation_profile
            command.suppression_profile)
          _ h₂ in
      let (rules, weights) =
        (validate_profiles-ok_iff command.matching_profile command.operation_profile
            command.suppression_profile).0
          p in
      (
        (validate_tree-ok_iff command.source_tree).0 s,
        (validate_tree-ok_iff command.target_tree).0 t,
        rules,
        weights,
      )

  abbrev incomplete : LimitKind → ℕ → ℕ → Result ReconciliationResult
  incomplete kind value limit = incomplete_result command (limit_exceeded kind value limit ∷ [])

  on_limit-cases :
      (error : Error) (result : ReconciliationResult)
      → on_limit command error ≡ ok result
      → (kind : LimitKind) × (value : ℕ) × (limit : ℕ) × (error
          ≡ resource_limit_exceeded kind value limit)
        × (command.incomplete_on_limit ≡ true)
        × (incomplete kind value limit ≡ ok result)
  unfolding on_limit
  on_limit-cases (resource_limit_exceeded kind value limit) result h =
      elim (Bool-cases command.incomplete_on_limit) [
        | inl e ↦ (
          kind,
          value,
          limit,
          refl,
          e,
          sym (
                ap
                  (λ b.
                    if b
                    then incomplete kind value limit
                    else raise (resource_limit_exceeded kind value limit))
                  e)
              ∙ h,
        )
        | inr e ↦
            let clash : raise (resource_limit_exceeded kind value limit) ≡ ok result =
              sym (
                ap
                  (λ b.
                    if b
                    then incomplete kind value limit
                    else raise (resource_limit_exceeded kind value limit))
                  e)
              ∙ h in
            cc
      ]
  on_limit-cases (invalid_tree v) result h = cc
  on_limit-cases (invalid_profile v) result h = cc
  on_limit-cases (key_error k) result h = cc
  on_limit-cases index_error result h = cc
  on_limit-cases assertion_error result h = cc
  on_limit-cases (value_error i) result h = cc
  on_limit-cases fuel_spent result h = cc
  on_limit-cases (foreign_error name) result h = cc
  on_limit-cases decision_for_other_job result h = cc
  on_limit-cases decision_for_unknown_issue result h = cc

  incomplete_result-fields :
      (diagnostics : List EngineDiagnostic) (result : ReconciliationResult)
      → incomplete_result command diagnostics ≡ ok result
      → (result.complete ≡ false)
        × (result.operations ≡ [])
        × (result.match_graph.candidates ≡ [])
        × (result.diagnostics ≡ diagnostics)
  unfolding incomplete_result
  incomplete_result-fields diagnostics result h =
      let (confidence, _, h₁) = returned_bind (plain_confidence float_zero) _ h in
      let whole = ok_injective _ result h₁ in
      (
        ap (λ (r : ReconciliationResult). r.complete) (sym whole),
        ap (λ (r : ReconciliationResult). r.operations) (sym whole),
        ap (λ (r : ReconciliationResult). r.match_graph.candidates) (sym whole),
        ap (λ (r : ReconciliationResult). r.diagnostics) (sym whole),
      )

  -- How a run stopped at a limit looks: marked incomplete, asked for by the command, empty but for
  -- the one diagnostic.
  pub record Stopped (result : ReconciliationResult) : Type 0 where
    pub kind : LimitKind
    pub value : ℕ
    pub limit : ℕ
    pub exceeded :
        check_pre_limits command.source_tree command.target_tree command.resource_limits
        ≡ raise (resource_limit_exceeded kind value limit)
    pub asked_for : command.incomplete_on_limit ≡ true
    pub marked : result.complete ≡ false
    pub no_operations : result.operations ≡ []
    pub no_candidates : result.match_graph.candidates ≡ []
    pub reported : result.diagnostics ≡ limit_exceeded kind value limit ∷ []

  after_limits-cases :
      (limits : Result (Unit {0})) (result : ReconciliationResult)
      → check_pre_limits command.source_tree command.target_tree command.resource_limits ≡ limits
      → after_limits command limits ≡ ok result
      → Stages command result ⊎ Stopped result
  unfolding after_limits
  after_limits-cases (ok _) result same h = inl (run_pipeline-Stages command result h)
  after_limits-cases (raise error) result same h =
      let (kind, value, limit, e, asked, made) = on_limit-cases error result h in
      let (marked, operations, candidates, reported) =
        incomplete_result-fields (limit_exceeded kind value limit ∷ []) result made in
      inr (record {
        kind = kind;
        value = value;
        limit = limit;
        exceeded = same ∙ ap (λ (x : Error). raise x) e;
        asked_for = asked;
        marked = marked;
        no_operations = operations;
        no_candidates = candidates;
        reported = reported;
      })

  -- A result is either that of all stages - its match graph, alignment, operations, causality and
  -- suppression are what the stages returned on the normalized trees, each from those before, its
  -- diagnostics are those of the evidence and of the alignment, and its job is the command's - and is
  -- marked complete, or that of a run stopped at an exceeded limit where the command asks for an
  -- incomplete result: then it is marked incomplete, has no candidate and no operation, and reports
  -- the limit.
  pub reconcile-cases :
      (result : ReconciliationResult)
      → reconcile command ≡ ok result
      → Stages command result ⊎ Stopped result
  reconcile-cases result h =
      after_limits-cases _ result refl (sym (reconcile-admitted (reconcile-Admitted result h)) ∙ h)
