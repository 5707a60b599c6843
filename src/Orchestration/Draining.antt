-- ===== src/Orchestration/Draining.antt =====
-- The jobs of the threaded executor come to an end.
use structural_reconciliatio.Base.{
  ◌≡◌, refl, ap, ◌∙◌, String, true, false, ◌||◌, some, List, [], ◌∷◌, lookup, contains, is_some,
  All, inl, inr,
}
use structural_reconciliatio.Runtime.{Runtime}
use structural_reconciliatio.Errors.{ok, Returns}
use structural_reconciliatio.Orchestration.{is_terminal, JobRecord, ComparisonRequest, Environment}
use structural_reconciliatio.Orchestration.Comparison.{JobOutcome, run_comparison}
use structural_reconciliatio.Orchestration.Executor.{ExecutorState, finish, Reachable}
use structural_reconciliatio.Orchestration.Lifecycle.{
  job_ids, unfinished, put-some, Tracked, Tracked-finish, Reachable-Tracked,
}

module _ ⦃R : Runtime⦄ (env : Environment) where
  -- Steps that only end jobs.
  pub data Drains : ExecutorState → ExecutorState → Type 0 where
    rests : (state : ExecutorState) → Drains state state
    ends :
        (state after : ExecutorState) (id : String) (request : ComparisonRequest)
        (others : List (String × ComparisonRequest)) (outcome : JobOutcome)
        → state.pending ≡ (id, request) ∷ others
        → run_comparison env request ≡ ok outcome
        → Drains (finish others outcome state) after
        → Drains state after

  -- Nothing is pending, every record is terminal, and no record of the earlier state is gone.
  pub record Ended (state after : ExecutorState) : Type 0 where
    pub none_pending : after.pending ≡ []
    pub all_terminal :
        (id : String) (job : JobRecord)
        → lookup after.records id ≡ some job
        → is_terminal job.state ≡ true
    pub none_lost :
        (id : String)
        → is_some (lookup state.records id) ≡ true
        → is_some (lookup after.records id) ≡ true

  abbrev WillReturn : String × ComparisonRequest → Type 0
  WillReturn job = Returns (run_comparison env job.1)

  Ended-rests :
      (state : ExecutorState)
      → state.pending ≡ []
      → state.crashed ≡ []
      → Tracked env state
      → Ended state state
  unfolding job_ids contains
  Ended-rests state pending crashed h = record {
    none_pending = pending;
    all_terminal = λ id job found. elim (h.accounted id job found) [
      | inl ended ↦ ended
      | inr (runs, open_job) ↦
          let empty : unfinished env state id ≡ false =
            ap
              (λ (jobs : List (String × ComparisonRequest)).
                contains id (job_ids jobs) || contains id state.crashed)
              pending
            ∙ ap (λ (cs : List String). contains id cs) crashed in
          absurd (cc (open_job, empty))
    ];
    none_lost = λ id h. h;
  }

  drain_jobs :
      (jobs : List (String × ComparisonRequest)) (state : ExecutorState)
      → state.pending ≡ jobs
      → state.crashed ≡ []
      → Tracked env state
      → All WillReturn jobs
      → (after : ExecutorState) × Drains state after × Ended state after
  unfolding finish
  drain_jobs [] state shape crashed h returns =
      (state, Drains.rests state, Ended-rests state shape crashed h)
  drain_jobs ((id, request) ∷ others) state shape crashed h returns =
      let (outcome, ran) = returns.0 in
      let next = finish others outcome state in
      let tracked = Tracked-finish env state [] others id request outcome shape ran h in
      let (after, drains, ended) = drain_jobs others next refl crashed tracked returns.1 in
      (
        after,
        Drains.ends state after id request others outcome shape ran drains,
        record {
          none_pending = ended.none_pending;
          all_terminal = ended.all_terminal;
          none_lost = λ k found.
              ended.none_lost k (put-some env state.records outcome.job.job_id outcome.job k found);
        },
      )

  -- From every state that the executor reaches, where no job has crashed and the comparisons of all
  -- pending jobs return, the pool can end all pending jobs one after the other; then nothing is
  -- pending, every record is terminal, and no record is lost.
  pub drain :
      (state : ExecutorState)
      → Reachable env state
      → state.crashed ≡ []
      → All (λ (job : String × ComparisonRequest). Returns (run_comparison env job.1)) state.pending
      → (after : ExecutorState) × Drains state after × Ended state after
  drain state reached crashed returns =
      drain_jobs state.pending state refl crashed (Reachable-Tracked env state reached) returns
