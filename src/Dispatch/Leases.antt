-- ===== src/Dispatch/Leases.antt =====
-- graph/dispatch.py: the leases of running jobs, and how lost work comes back into the queue.
use open_graph_memory.Prelude.{
  ℕ, ◌+◌, ◌*◌, String, Bool, false, ◌&&◌, Option, none, some, List, [], ◌∷◌, ltb, length, take,
  where_rows, if◌then◌else◌,
}
use open_graph_memory.Jobs.{
  State, queued, GraphExtractionJob, GraphExtractionOutbox, get_graph_job, put_graph_job,
  set_graph_outbox,
}
use open_graph_memory.Dispatch.{lease_seconds, is_queued, is_running, is_succeeded, with_outbox}

-- `lease_expires_at < now`, which no row without a lease passes
abbrev pub is_past : ℕ → Option ℕ → Bool
is_past now none = false
is_past now (some t) = ltb t now

abbrev pub is_expired : ℕ → GraphExtractionJob → Bool
is_expired now j = is_running j.status && is_past now j.lease_expires_at

abbrev pub recovered : ℕ → GraphExtractionJob → GraphExtractionJob
recovered now j = record j { status = queued; lease_expires_at = none; next_attempt_at = now }

unfoldable pub recover_all : ℕ → List GraphExtractionJob → State → State
recover_all now [] s = s
recover_all now (j ∷ js) s = recover_all now js (
    set_graph_outbox j.id (λ o. record o { published_at = none })
      (put_graph_job (recovered now j) s))

abbrev pub expired_jobs : ℕ → ℕ → State → List GraphExtractionJob
expired_jobs now limit s = take limit (where_rows (is_expired now) s.graph_jobs)

-- the first half of the reconciliation, up to its commit
abbrev pub recover_expired : ℕ → ℕ → State → State
recover_expired now limit s = recover_all now (expired_jobs now limit s) s

abbrev is_queued_job : Option GraphExtractionJob → Bool
is_queued_job none = false
is_queued_job (some j) = is_queued j.status

-- Published longer ago than two leases, of a job that is queued still: its task was lost.
abbrev pub is_stale : ℕ → ℕ → State → GraphExtractionOutbox → Bool
is_stale now timeout s o =
    elim o.published_at [ none ↦ false | some t ↦ ltb (t + lease_seconds timeout * 2) now ]
    && is_queued_job (get_graph_job s o.job_id)

unfoldable pub unpublish_all : List GraphExtractionOutbox → State → State
unpublish_all [] s = s
unpublish_all (o ∷ os) s = unpublish_all os (
    set_graph_outbox o.job_id
      (λ x. record x { published_at = none; last_error = some "dispatch stale; requeued" }) s)

-- Returns how many jobs and messages came back.
unfoldable pub reconcile_graph_jobs : ℕ → ℕ → ℕ → State → ℕ × State
reconcile_graph_jobs now timeout limit s =
    let s' = recover_expired now limit s in
    let stale = take limit (where_rows (is_stale now timeout s') s'.graph_outbox) in
    (length (expired_jobs now limit s) + length stale, unpublish_all stale s')

unfoldable pub renew_graph_job_lease : ℕ → ℕ → State → String → State
renew_graph_job_lease now timeout s k = elim (get_graph_job s k) [
  | none ↦ s
  | some j ↦
      if is_running j.status
      then put_graph_job (record j { lease_expires_at = some (now + lease_seconds timeout) }) s
      else s
]

unfoldable pub requeue_graph_job : ℕ → String → State → String → State
requeue_graph_job now reason s k = elim (get_graph_job s k) [
  | none ↦ s
  | some j ↦
      if is_succeeded j.status
      then s
      else with_outbox now k (some reason)
          (λ o. record o { published_at = none; last_error = some reason })
          (put_graph_job
            (record j {
              status = queued;
              lease_expires_at = none;
              next_attempt_at = now;
              error_message = some reason;
            })
            s)
]
