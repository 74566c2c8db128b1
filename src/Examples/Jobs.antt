-- ===== src/Examples/Jobs.antt =====
-- Runs of the graph jobs.
use open_graph_memory.Prelude.{
  ℕ, ◌≤◌, ◌≡◌, refl, Option, none, some, [], ◌∷◌, arith, length, where_rows, All,
}
use open_graph_memory.Prelude.Results.{ok}
use open_graph_memory.Jobs.{
  State, Document, DocumentStatus, JobStatus, running, queued, GraphExtractionJob,
  GraphExtractionOutbox, get_graph_job, put_document, put_graph_job,
}
use open_graph_memory.Dispatch.{enqueue_graph_extraction, pending_rows, lease_seconds, reset_job}
use open_graph_memory.Dispatch.Leases.{is_expired, reconcile_graph_jobs}
use open_graph_memory.Dispatch.Execute.{claim, answered, claimed}
use open_graph_memory.Dispatch.Steps.{step, stop, claims}
use open_graph_memory.Dispatch.Sound.{AreSound}
use open_graph_memory.Dispatch.Attempts.{Steps-AreSound}
use open_graph_memory.Dispatch.Reconciled.{NotExpired, reconcile_graph_jobs-NotExpired}
use open_graph_memory.Dispatch.Exclusion.{claim-claim}
use open_graph_memory.Dispatch.Exhausted.{OfOther, enqueue_graph_extraction_exhausted}

abbrev a_document : Document
a_document = record {
  id = "doc";
  project_id = "p";
  dataset_id = "ds";
  content_hash = "h";
  status = DocumentStatus.indexed;
  error_message = none;
  graph_stage = some "queued";
}

abbrev a_job : JobStatus → Option ℕ → GraphExtractionJob
a_job status lease = record {
  id = "j";
  project_id = "p";
  dataset_id = "ds";
  document_id = "doc";
  status = status;
  attempt = 1;
  max_attempts = 5;
  next_attempt_at = 10;
  lease_expires_at = lease;
  error_message = none;
}

abbrev a_row : ℕ → GraphExtractionOutbox
a_row attempts = record {
  job_id = "j";
  attempts = attempts;
  last_error = none;
  published_at = some 10;
  created_at = 5;
}

abbrev a_state : GraphExtractionJob → ℕ → State
a_state j attempts = record {
  documents = a_document ∷ [];
  chunks = [];
  indexing_jobs = [];
  indexing_outbox = [];
  stage_events = [];
  graph_jobs = j ∷ [];
  graph_outbox = a_row attempts ∷ [];
}

abbrev waiting : State
waiting = a_state (a_job queued none) 1

abbrev claimed_state : State
claimed_state =
    put_document (record a_document { graph_stage = some "extracting" })
      (put_graph_job (claimed 20 0 (a_job queued none)) waiting)

waiting-AreSound : AreSound waiting
waiting-AreSound = (
  record {
    within = omega arith;
    leased = λ q. absurd (ground arith);
    released = λ q. absurd (ground arith);
  },
  tt,
)

Steps-AreSound_example : AreSound claimed_state
unfolding claim
Steps-AreSound_example =
    Steps-AreSound waiting claimed_state
      (step waiting claimed_state claimed_state (claims 20 0 waiting "j") (stop claimed_state))
      waiting-AreSound

-- a lease that ended at 20
abbrev lost : State
lost = a_state (a_job running (some 20)) 1

reconcile_graph_jobs-NotExpired_example :
    All (NotExpired 500) (reconcile_graph_jobs 500 0 100 lost).1.graph_jobs
    × (length (where_rows (is_expired 500) lost.graph_jobs)
        ≤ (reconcile_graph_jobs 500 0 100 lost).0)
reconcile_graph_jobs-NotExpired_example =
    reconcile_graph_jobs-NotExpired 500 0 100 lost (omega arith)

abbrev later_state : State
later_state = record claimed_state { documents = [] }

claim-claim_example : claim 30 0 later_state "j" ≡ (answered (ok "doc"), later_state)
unfolding claim lease_seconds
claim-claim_example = claim-claim 20 0 30 0 waiting later_state "j" refl refl (omega arith)

-- twenty messages were published for the job
abbrev worn : State
worn = a_state (a_job queued none) 20

enqueue_graph_extraction_exhausted_example :
    (get_graph_job (enqueue_graph_extraction 50 "j" worn a_document) "j"
      ≡ some (reset_job 50 (a_job queued none)))
    × All (OfOther "j") (pending_rows 60 100 (enqueue_graph_extraction 50 "j" worn a_document))
enqueue_graph_extraction_exhausted_example =
    enqueue_graph_extraction_exhausted 50 "j" worn a_document refl refl 60 100
      ((λ q. omega arith), tt)
