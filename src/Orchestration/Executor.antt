-- ===== src/Orchestration/Executor.antt =====
-- infrastructure/jobs: the synchronous executor, and the threaded one of in_memory.py as a step
-- relation. Each step is a critical section of its lock; the steps of different jobs interleave.
use structural_reconciliatio.Base.{
  ◌≡◌, String, Option, none, some, List, [], ◌∷◌, ◌++◌, Dict, lookup, put,
}
use structural_reconciliatio.Runtime.{Runtime}
use structural_reconciliatio.Errors.{Result, ok, raise, Error, ◌>>=◌}
use structural_reconciliatio.Orchestration.{JobRecord, running, ComparisonRequest, Environment}
use structural_reconciliatio.Orchestration.Comparison.{resolved_id, JobOutcome, run_comparison}

module _ ⦃R : Runtime⦄ where
  -- `SynchronousJobExecutor.submit(request)` on its records
  unfoldable pub submit_synchronously :
      Environment → Dict JobRecord → ComparisonRequest → Result (JobRecord × Dict JobRecord)
  submit_synchronously env records request = do
    outcome ← run_comparison env request
    ok (outcome.job, put records outcome.job.job_id outcome.job)

  -- `request.model_copy(update={"job_id": job_id})`
  unfoldable pub with_id : ComparisonRequest → String → ComparisonRequest
  with_id request id = record {
    source_content = request.source_content;
    locale_content = request.locale_content;
    locale = request.locale;
    document_profile_id = request.document_profile_id;
    authoritative_side = request.authoritative_side;
    report_formats = request.report_formats;
    report_options = request.report_options;
    policy = request.policy;
    job_id = some id;
  }

  -- The records, the futures that have not ended, each with its job id, and the job ids of the
  -- futures that ended with an exception.
  pub record ExecutorState : Type 0 where
    pub records : Dict JobRecord
    pub pending : List (String × ComparisonRequest)
    pub crashed : List String

  unfoldable pub idle : ExecutorState
  idle = record { records = []; pending = []; crashed = [] }

  unfoldable pub running_record : String → ComparisonRequest → JobRecord
  running_record id request = record {
    job_id = id;
    state = running;
    locale = some request.locale;
    status_counts = [];
    direct_issue_count = 0;
    artifacts = [];
    error_code = none;
    correlation_id = none;
  }

  -- `ThreadedJobExecutor.submit(request)`, with the identifier that `uuid4` gave
  unfoldable pub submit : String → ComparisonRequest → ExecutorState → ExecutorState
  submit fresh request state =
      let id = resolved_id request.job_id fresh in
      record {
        records = put state.records id (running_record id request);
        pending = state.pending ++ (id, with_id request id) ∷ [];
        crashed = state.crashed;
      }

  -- The end of `_execute`, where the other futures are still pending.
  unfoldable pub finish :
      List (String × ComparisonRequest) → JobOutcome → ExecutorState → ExecutorState
  finish others outcome state = record {
    records = put state.records outcome.job.job_id outcome.job;
    pending = others;
    crashed = state.crashed;
  }

  -- `_execute` raised: the future holds the exception, and the record stays as it is.
  unfoldable pub crash : List (String × ComparisonRequest) → String → ExecutorState → ExecutorState
  crash others id state = record {
    records = state.records;
    pending = others;
    crashed = id ∷ state.crashed;
  }

  -- `executor.get(job_id)`
  unfoldable pub get_record : ExecutorState → String → Option JobRecord
  get_record state id = lookup state.records id

  module _ (env : Environment) where
    pub data Transition : ExecutorState → ExecutorState → Type 0 where
      submits :
          (state : ExecutorState) (fresh : String) (request : ComparisonRequest)
          → Transition state (submit fresh request state)
      finishes :
          (state : ExecutorState) (before after : List (String × ComparisonRequest)) (id : String)
          (request : ComparisonRequest) (outcome : JobOutcome)
          → state.pending ≡ before ++ (id, request) ∷ after
          → run_comparison env request ≡ ok outcome
          → Transition state (finish (before ++ after) outcome state)
      crashes :
          (state : ExecutorState) (before after : List (String × ComparisonRequest)) (id : String)
          (request : ComparisonRequest) (reason : Error)
          → state.pending ≡ before ++ (id, request) ∷ after
          → run_comparison env request ≡ raise reason
          → Transition state (crash (before ++ after) id state)

    -- The states that submissions and the pool can bring about.
    pub data Reachable : ExecutorState → Type 0 where
      start : Reachable idle
      next :
          (before after : ExecutorState)
          → Reachable before
          → Transition before after
          → Reachable after
