-- ===== src/Dispatch/Steps.antt =====
-- graph/dispatch.py as sessions that interleave: each step is one commit of one of its functions, a
-- worker's claim and the writing of its end being two, with any steps of other sessions between them.
-- The two commits of the dispatcher, and those of the reconciler, are one step each.
use open_graph_memory.Prelude.{ℕ, String, Option}
use open_graph_memory.Jobs.{State, Document}
use open_graph_memory.Dispatch.{enqueue_graph_extraction, dispatch_pending_graph_jobs}
use open_graph_memory.Dispatch.Leases.{
  reconcile_graph_jobs, renew_graph_job_lease, requeue_graph_job,
}
use open_graph_memory.Dispatch.Execute.{claim, fail_job, complete_job}

pub data Step : State → State → Type 0 where
  enqueues :
      (now : ℕ) (k : String) (s : State) (d : Document)
      → Step s (enqueue_graph_extraction now k s d)
  dispatches :
      (enqueue : String → Option String) (now limit : ℕ) (s : State)
      → Step s (dispatch_pending_graph_jobs enqueue now limit s).1
  reconciles :
      (now timeout limit : ℕ) (s : State) → Step s (reconcile_graph_jobs now timeout limit s).1
  renews :
      (now timeout : ℕ) (s : State) (k : String) → Step s (renew_graph_job_lease now timeout s k)
  requeues :
      (now : ℕ) (reason : String) (s : State) (k : String)
      → Step s (requeue_graph_job now reason s k)
  claims : (now timeout : ℕ) (s : State) (k : String) → Step s (claim now timeout s k).1
  ends_failed :
      (now : ℕ) (message : String) (s : State) (k : String) → Step s (fail_job now message s k).1
  ends_done : (s : State) (k : String) → Step s (complete_job s k)

pub data Steps : State → State → Type 0 where
  stop : (s : State) → Steps s s
  step : (s t u : State) → Step s t → Steps t u → Steps s u
