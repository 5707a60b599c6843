-- ===== src/Orchestration/Refinement.antt =====
-- What a caller of the threaded executor sees of one job: a life cycle of two moves.
use structural_reconciliatio.Base.{
  ◌≡◌, ◌⊎◌, refl, sym, ap, ◌∙◌, String, true, Option, none, some, List, ◌∷◌, ◌++◌, ◌==◌, Dict,
  lookup, put, lookup-put, contains, is_some, All, Bool-cases, Option-cases, inl, inr, arith,
  eq→path, eq_refl,
}
use mathlib.Core.Path.{subst}
use structural_reconciliatio.Runtime.{Runtime}
use structural_reconciliatio.Errors.{ok}
use structural_reconciliatio.Orchestration.{
  ComparisonState, running, is_terminal, JobRecord, ComparisonRequest, Environment,
}
use structural_reconciliatio.Orchestration.Comparison.{resolved_id, JobOutcome, run_comparison}
use structural_reconciliatio.Orchestration.Escapes.{run_comparison-Settled}
use structural_reconciliatio.Orchestration.Executor.{
  ExecutorState, running_record, submit, finish, crash, get_record, Transition, Reachable,
}
use structural_reconciliatio.Orchestration.Lifecycle.{
  job_ids, contains-job_ids, unfinished, RunsAs, All-around, Tracked, Reachable-Tracked,
}

module _ ⦃R : Runtime⦄ where
  abbrev state_of : Option JobRecord → Option ComparisonState
  state_of none = none
  state_of (some job) = some job.state

  -- The state that `get` shows of a job, if there is a record.
  abbrev pub shown_state : ExecutorState → String → Option ComparisonState
  shown_state state id = state_of (get_record state id)

-- The life cycle: a job begins to run, whatever was known of it, or a known job ends.
pub data Move : Option ComparisonState → Option ComparisonState → Type 0 where
  begins : (before : Option ComparisonState) → Move before (some running)
  ends :
      (before after : ComparisonState) → is_terminal after ≡ true → Move (some before) (some after)

module _ ⦃R : Runtime⦄ (env : Environment) where
  abbrev Moves : Option JobRecord → Option JobRecord → Type 0
  Moves before after = (state_of after ≡ state_of before) ⊎ Move (state_of before) (state_of after)

  -- Storing a record moves its own job only.
  Moves-put :
      (d : Dict JobRecord) (k : String) (v : JobRecord) (id : String)
      → Move (state_of (lookup d k)) (some v.state)
      → Moves (lookup d id) (lookup (put d k v) id)
  Moves-put d k v id move = elim (Bool-cases (k == id)) [
    | inl same ↦
        let here : some v ≡ lookup (put d k v) id = sym (lookup-put d k id v ∙ rw same) in
        subst (Moves (lookup d id)) here
          (inr (subst (λ j. Move (state_of (lookup d j)) (some v.state)) (eq→path k id same) move))
    | inr other ↦ inl (ap state_of (lookup-put d k id v ∙ rw other))
  ]

  Move-finish :
      (state : ExecutorState) (before after : List (String × ComparisonRequest)) (id : String)
      (request : ComparisonRequest) (outcome : JobOutcome)
      → Tracked env state
      → state.pending ≡ before ++ (id, request) ∷ after
      → run_comparison env request ≡ ok outcome
      → Move (state_of (lookup state.records outcome.job.job_id)) (some outcome.job.state)
  unfolding is_some
  Move-finish state before after id request outcome h shape ran =
      let (own, terminal, _) = run_comparison-Settled env request outcome ran in
      let (runs_as, _) =
        All-around (RunsAs env) (id, request) before after
          (subst (All (RunsAs env)) shape h.filed) in
      let open_job : unfinished env state id ≡ true = ground (
        arith,
        ap (λ (jobs : List (String × ComparisonRequest)). contains id (job_ids jobs)) shape
            ∙ contains-job_ids id id request before after,
        eq_refl id,
      ) in
      let known : is_some (lookup state.records outcome.job.job_id) ≡ true =
        ap (λ k. is_some (lookup state.records k)) (own ∙ runs_as) ∙ h.recorded id open_job in
      elim (Option-cases (lookup state.records outcome.job.job_id)) [
        | inl gone ↦ absurd (cc (known, ap is_some gone))
        | inr (job, found) ↦
            subst (λ o. Move (state_of o) (some outcome.job.state)) (sym found)
              (Move.ends job.state outcome.job.state terminal)
      ]

  -- A step of the executor is, for each job, no change of the state that is shown, or a move of the
  -- life cycle: some job begins to run, or one that has a record ends in a terminal state.
  pub Transition-Move :
      (state after : ExecutorState) (id : String)
      → Reachable env state
      → Transition env state after
      → (shown_state after id ≡ shown_state state id)
        ⊎ Move (shown_state state id) (shown_state after id)
  unfolding get_record submit finish crash running_record
  Transition-Move state _ id reached (Transition.submits _ fresh request) =
      Moves-put state.records (resolved_id request.job_id fresh)
        (running_record (resolved_id request.job_id fresh) request) id
        (Move.begins (state_of (lookup state.records (resolved_id request.job_id fresh))))
  Transition-Move state _ id reached
        (Transition.finishes _ before after own request outcome shape ran) =
      Moves-put state.records outcome.job.job_id outcome.job id (
        Move-finish state before after own request outcome (Reachable-Tracked env state reached)
          shape ran)
  Transition-Move state _ id reached
        (Transition.crashes _ before after own request reason shape ran) =
      inl refl
