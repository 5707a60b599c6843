-- ===== src/Orchestration/Lifecycle.antt =====
-- What the records of the threaded executor say of its jobs, whatever the order of the steps.
use Prim.Native.String.{◌++◌ as ◌&◌, count}
use text.Mathlib.TextLemmas.{length-append}
use structural_reconciliatio.Base.{
  ◌≡◌, ◌⊎◌, refl, sym, ap, ◌∙◌, String, Bool, true, false, ◌||◌, Option, none, some, List, [], ◌∷◌,
  ◌++◌, ◌==◌, Dict, lookup, put, lookup-put, contains, is_some, All, All-join, Bool-cases, inl, inr,
  arith, eq→path, eq_refl, eq_sym,
}
use mathlib.Core.Path.{subst}
use structural_reconciliatio.Runtime.{Runtime}
use structural_reconciliatio.Errors.{ok}
use structural_reconciliatio.Tree.{non_empty}
use structural_reconciliatio.Orchestration.{
  running, is_terminal, JobRecord, ComparisonRequest, Environment,
}
use structural_reconciliatio.Orchestration.Comparison.{resolved_id, JobOutcome, run_comparison}
use structural_reconciliatio.Orchestration.Escapes.{run_comparison-Settled}
use structural_reconciliatio.Orchestration.Executor.{
  with_id, ExecutorState, idle, running_record, submit, finish, crash, Transition, Reachable,
}

non_empty_fresh : (fresh : String) → non_empty ("job-" & fresh) ≡ true
non_empty_fresh fresh = elim (Bool-cases (("job-" & fresh) == "")) [
  | inr other ↦ rw other
  | inl same ↦
      let none_long : count ("job-" & fresh) ≡ count "" = ap count (eq→path _ _ same) in
      absurd (omega (arith, none_long, length-append "job-" fresh))
]

-- The identifier under which a job was submitted is the one under which it runs.
resolved_twice :
    (id : Option String) (fresh other : String)
    → resolved_id (some (resolved_id id fresh)) other ≡ resolved_id id fresh
unfolding resolved_id
resolved_twice none fresh other = rw (non_empty_fresh fresh)
resolved_twice (some id) fresh other = elim (Bool-cases (non_empty id)) [
  | inl e ↦ rw e (rw e)
  | inr e ↦ rw e (rw (non_empty_fresh fresh))
]

module _ ⦃R : Runtime⦄ where
  unfoldable pub job_ids : List (String × ComparisonRequest) → List String
  job_ids [] = []
  job_ids ((id, request) ∷ jobs) = id ∷ job_ids jobs

  pub contains-job_ids :
      (k id : String) (request : ComparisonRequest)
      (before after : List (String × ComparisonRequest))
      → contains k (job_ids (before ++ (id, request) ∷ after))
        ≡ (k == id || contains k (job_ids (before ++ after)))
  unfolding job_ids contains
  contains-job_ids k id request [] after = refl
  contains-job_ids k id request ((j, r) ∷ before) after =
      ground (arith, contains-job_ids k id request before after)

  append_none : {A : Type 0} (xs : List A) → xs ++ [] ≡ xs
  append_none [] = refl
  append_none (x ∷ xs) = ap (λ ys. x ∷ ys) (append_none xs)

  pub All-around :
      (P : String × ComparisonRequest → Type 0) (x : String × ComparisonRequest)
      (before after : List (String × ComparisonRequest))
      → All P (before ++ x ∷ after)
      → P x × All P (before ++ after)
  All-around P x [] after h = h
  All-around P x (y ∷ before) after h =
      let (p, rest) = All-around P x before after h.1 in (p, (h.0, rest))

module _ ⦃R : Runtime⦄ (env : Environment) where
  -- The job runs under the identifier that its future is filed under.
  abbrev pub RunsAs : String × ComparisonRequest → Type 0
  RunsAs job = resolved_id job.1.job_id env.fresh_id ≡ job.0

  -- A job id whose future has not ended, or ended with an exception.
  abbrev pub unfinished : ExecutorState → String → Bool
  unfinished state id = contains id (job_ids state.pending) || contains id state.crashed

  -- The invariant of the executor: a record is terminal, or says RUNNING of a job that has a future
  -- that has not ended, or that ended with an exception; and every such future has a record.
  pub record Tracked (state : ExecutorState) : Type 0 where
    pub accounted :
        (id : String) (job : JobRecord)
        → lookup state.records id ≡ some job
        → (is_terminal job.state ≡ true) ⊎ ((job.state ≡ running) × (unfinished state id ≡ true))
    pub recorded :
        (id : String) → unfinished state id ≡ true → is_some (lookup state.records id) ≡ true
    pub filed : All RunsAs state.pending

  Tracked-idle : Tracked idle
  unfolding idle lookup job_ids contains is_some
  Tracked-idle = record {
    accounted = λ id job found. absurd (cc);
    recorded = λ id open_job. cc;
    filed = tt;
  }

  pub put-some :
      (d : Dict JobRecord) (k : String) (v : JobRecord) (j : String)
      → is_some (lookup d j) ≡ true
      → is_some (lookup (put d k v) j) ≡ true
  unfolding is_some
  put-some d k v j h =
      rw (lookup-put d k j v, is_some)
        (elim (Bool-cases (k == j)) [ inl e ↦ rw e refl | inr e ↦ rw e h ])

  unfinished-submit :
      (fresh : String) (request : ComparisonRequest) (state : ExecutorState) (k : String)
      → unfinished (submit fresh request state) k
        ≡ (k == resolved_id request.job_id fresh || unfinished state k)
  unfolding submit
  unfinished-submit fresh request state k =
      let id = resolved_id request.job_id fresh in
      ground (
        arith,
        contains-job_ids k id (with_id request id) state.pending [],
        ap (λ (jobs : List (String × ComparisonRequest)). contains k (job_ids jobs))
            (append_none state.pending),
      )

  -- The record under an identifier, after one was stored.
  stored :
      (d : Dict JobRecord) (k j : String) (v w : JobRecord)
      → lookup (put d k v) j ≡ some w
      → ((k ≡ j) × (v ≡ w)) ⊎ (((k == j) ≡ false) × (lookup d j ≡ some w))
  stored d k j v w h = elim (Bool-cases (k == j)) [
    | inl same ↦
        let here : some v ≡ some w = rw same at (sym (lookup-put d k j v) ∙ h) in
        inl (eq→path k j same, cc (here))
    | inr other ↦ inr (other, rw other at (sym (lookup-put d k j v) ∙ h))
  ]

  Tracked-submit :
      (fresh : String) (request : ComparisonRequest) (state : ExecutorState)
      → Tracked state
      → Tracked (submit fresh request state)
  unfolding submit running_record with_id is_some
  Tracked-submit fresh request state h =
      let own = resolved_id request.job_id fresh in
      record {
        accounted = λ id job found. elim (stored state.records own id _ job found) [
          | inl (same, e) ↦ inr (
            ap (λ (r : JobRecord). r.state) (sym e),
            unfinished-submit fresh request state id ∙ ground (arith, same, eq_refl id),
          )
          | inr (other, old) ↦ elim (h.accounted id job old) [
            | inl ended ↦ inl ended
            | inr (runs, open_job) ↦
                inr (runs, unfinished-submit fresh request state id ∙ ground (arith, open_job))
          ]
        ];
        recorded = λ id open_job. elim (Bool-cases (own == id)) [
          | inl same ↦ rw (lookup-put state.records own id _, is_some) (rw same)
          | inr other ↦ put-some state.records own _ id (
              h.recorded id (
                ground (
                  arith,
                  unfinished-submit fresh request state id,
                  open_job,
                  eq_sym own id,
                  other,
                )))
        ];
        filed =
            All-join RunsAs state.pending _ h.filed
              (resolved_twice request.job_id fresh env.fresh_id, tt);
      }

  pub Tracked-finish :
      (state : ExecutorState) (before after : List (String × ComparisonRequest)) (id : String)
      (request : ComparisonRequest) (outcome : JobOutcome)
      → state.pending ≡ before ++ (id, request) ∷ after
      → run_comparison env request ≡ ok outcome
      → Tracked state
      → Tracked (finish (before ++ after) outcome state)
  unfolding finish
  Tracked-finish state before after id request outcome shape ran h =
      let (own, terminal, _) = run_comparison-Settled env request outcome ran in
      let (runs_as, rest) =
        All-around RunsAs (id, request) before after (subst (All RunsAs) shape h.filed) in
      let named : outcome.job.job_id ≡ id = own ∙ runs_as in
      let pending = λ (k : String).
        ap (λ (jobs : List (String × ComparisonRequest)). contains k (job_ids jobs)) shape
        ∙ contains-job_ids k id request before after in
      record {
        accounted = λ k job found. elim (stored state.records outcome.job.job_id k _ job found) [
          | inl (same, e) ↦ inl (ap (λ (r : JobRecord). is_terminal r.state) (sym e) ∙ terminal)
          | inr (other, old) ↦ elim (h.accounted k job old) [
            | inl ended ↦ inl ended
            | inr (runs, open_job) ↦
                let apart : (k == id) ≡ false =
                  eq_sym k id ∙ ap (λ (t : String). t == k) (sym named) ∙ other in
                inr (runs, ground (arith, pending k, open_job, apart))
          ]
        ];
        recorded = λ k open_job.
            put-some state.records outcome.job.job_id outcome.job k
              (h.recorded k (ground (arith, pending k, open_job)));
        filed = rest;
      }

  Tracked-crash :
      (state : ExecutorState) (before after : List (String × ComparisonRequest)) (id : String)
      (request : ComparisonRequest)
      → state.pending ≡ before ++ (id, request) ∷ after
      → Tracked state
      → Tracked (crash (before ++ after) id state)
  unfolding crash contains
  Tracked-crash state before after id request shape h =
      let pending = λ (k : String).
        ap (λ (jobs : List (String × ComparisonRequest)). contains k (job_ids jobs)) shape
        ∙ contains-job_ids k id request before after in
      record {
        accounted = λ k job found. elim (h.accounted k job found) [
          | inl ended ↦ inl ended
          | inr (runs, open_job) ↦ inr (runs, ground (arith, pending k, open_job))
        ];
        recorded = λ k open_job. h.recorded k (ground (arith, pending k, open_job));
        filed = (All-around RunsAs (id, request) before after (subst (All RunsAs) shape h.filed)).1;
      }

  Tracked-Transition :
      (state after : ExecutorState) → Transition env state after → Tracked state → Tracked after
  Tracked-Transition state _ (Transition.submits _ fresh request) h =
      Tracked-submit fresh request state h
  Tracked-Transition state _ (Transition.finishes _ before after id request outcome shape ran) h =
      Tracked-finish state before after id request outcome shape ran h
  Tracked-Transition state _ (Transition.crashes _ before after id request reason shape ran) h =
      Tracked-crash state before after id request shape h

  -- In every state that the executor reaches, a record is terminal, or says RUNNING of a job whose
  -- future has not ended or ended with an exception; and each such future has a record.
  pub Reachable-Tracked : (state : ExecutorState) → Reachable env state → Tracked state
  Reachable-Tracked _ Reachable.start = Tracked-idle
  Reachable-Tracked _ (Reachable.next before after earlier step) =
      Tracked-Transition before after step (Reachable-Tracked before earlier)
