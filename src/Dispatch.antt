-- ===== src/Dispatch.antt =====
-- graph/dispatch.py: durable graph extraction jobs, their outbox and their leases. What the queue and
-- the extractor answer are arguments, and so is the job's identifier, a digest of the document's.
pub mod Leases
pub mod Execute
pub mod Steps
pub mod Sound
pub mod Attempts
pub mod Reconciled
pub mod Exclusion
pub mod Exhausted
use open_graph_memory.Prelude.{
  ℕ, zero, suc, ◌+◌, ◌-◌, ◌*◌, ◌^◌, min, max, String, Bool, true, false, not, ◌&&◌, ◌||◌, Option,
  none, some, List, [], ◌∷◌, ◌++◌, map, ◌==◌, ltb, leb, eqb, length, take, find_row, where_rows,
  update_rows, if◌then◌else◌,
}
use open_graph_memory.Prelude.Results.{Error, value_error, Result, ok, err}
use open_graph_memory.Jobs.{
  State, Document, DocumentStatus, JobStatus, queued, running, succeeded, failed,
  GraphExtractionJob, GraphExtractionOutbox, get_document, get_graph_job, get_graph_outbox,
  put_document, put_graph_job, set_graph_outbox, is_graph_job, is_graph_outbox,
}

abbrev pub max_graph_outbox_attempts : ℕ
max_graph_outbox_attempts = 20

-- `max(LEASE_SECONDS, int(graph_extractor_timeout_seconds) + 60)`
unfoldable pub lease_seconds : ℕ → ℕ
lease_seconds timeout = max 300 (timeout + 60)

abbrev pub is_queued : JobStatus → Bool
is_queued queued = true
is_queued _ = false

abbrev pub is_running : JobStatus → Bool
is_running running = true
is_running _ = false

abbrev pub is_succeeded : JobStatus → Bool
is_succeeded succeeded = true
is_succeeded _ = false

abbrev new_outbox : ℕ → String → Option String → GraphExtractionOutbox
new_outbox now job_id last_error = record {
  job_id = job_id;
  attempts = 0;
  last_error = last_error;
  published_at = none;
  created_at = now;
}

abbrev pub with_outbox :
    ℕ → String → Option String → (GraphExtractionOutbox → GraphExtractionOutbox) → State → State
with_outbox now k e f s = elim (get_graph_outbox s k) [
  | none ↦ record s { graph_outbox = s.graph_outbox ++ new_outbox now k e ∷ [] }
  | some o ↦ set_graph_outbox k f s
]

abbrev new_job : ℕ → String → Document → GraphExtractionJob
new_job now k document = record {
  id = k;
  project_id = document.project_id;
  dataset_id = document.dataset_id;
  document_id = document.id;
  status = queued;
  attempt = 0;
  max_attempts = 5;
  next_attempt_at = now;
  lease_expires_at = none;
  error_message = none;
}

-- The lease of a job that is there already stays as it is.
abbrev pub reset_job : ℕ → GraphExtractionJob → GraphExtractionJob
reset_job now j = record j {
  status = queued;
  attempt = 0;
  error_message = none;
  next_attempt_at = now;
}

-- `job_id` is `stable_id("graph-job", document.id, extractor_version)`. Nothing is committed here.
unfoldable pub enqueue_graph_extraction : ℕ → String → State → Document → State
enqueue_graph_extraction now job_id s document =
    let s' : State = elim (get_graph_job s job_id) [
      | none ↦ record s {
        graph_jobs = s.graph_jobs ++ new_job now job_id document ∷ [];
        graph_outbox = s.graph_outbox ++ new_outbox now job_id none ∷ [];
      }
      | some j ↦
          with_outbox now job_id none (λ o. record o { published_at = none; last_error = none })
            (put_graph_job (reset_job now j) s)
    ] in
    put_document (record document { graph_stage = some "queued" }) s'

-- The rows that the dispatcher selects: not published, not exhausted, of a queued job that is due.
abbrev pub is_due : ℕ → Option GraphExtractionJob → Bool
is_due now none = false
is_due now (some j) = is_queued j.status && leb j.next_attempt_at now

abbrev pub is_unpublished : GraphExtractionOutbox → Bool
is_unpublished o = elim o.published_at [ none ↦ true | some t ↦ false ]

abbrev pub is_pending : ℕ → State → GraphExtractionOutbox → Bool
is_pending now s o =
    is_unpublished o
    && ltb o.attempts max_graph_outbox_attempts
    && is_due now (get_graph_job s o.job_id)

-- `.order_by(created_at)`
pub insert_outbox : GraphExtractionOutbox → List GraphExtractionOutbox → List GraphExtractionOutbox
insert_outbox o [] = o ∷ []
insert_outbox o (x ∷ xs) =
    let rest = insert_outbox o xs in if leb o.created_at x.created_at then o ∷ x ∷ xs else x ∷ rest

pub oldest_first : List GraphExtractionOutbox → List GraphExtractionOutbox
unfolding insert_outbox
oldest_first [] = []
oldest_first (o ∷ os) = insert_outbox o (oldest_first os)

unfoldable pub pending_rows : ℕ → ℕ → State → List GraphExtractionOutbox
pending_rows now limit s = take limit (oldest_first (where_rows (is_pending now s) s.graph_outbox))

abbrev pub publish : ℕ → GraphExtractionOutbox → GraphExtractionOutbox
publish now o = record o { attempts = o.attempts + 1; published_at = some now; last_error = none }

unfoldable pub publish_all : ℕ → List GraphExtractionOutbox → State → State
publish_all now [] s = s
publish_all now (o ∷ os) s = publish_all now os (set_graph_outbox o.job_id (publish now) s)

abbrev pub published_now : ℕ → GraphExtractionOutbox → Bool
published_now now o = elim o.published_at [ none ↦ false | some t ↦ eqb t now ]

abbrev pub fail_document : String → Option Document → State → State
fail_document message none s = s
fail_document message (some d) s =
    put_document
      (record d {
        status = DocumentStatus.failed;
        graph_stage = some "failed";
        error_message = some message;
      })
      s

abbrev pub fail_exhausted : String → Option GraphExtractionJob → State → State
fail_exhausted message none s = s
fail_exhausted message (some j) s =
    fail_document message (get_document s j.document_id)
      (put_graph_job (record j { status = failed; error_message = some message }) s)

-- What follows where the queue refused the job with a message.
pub undo_publish : ℕ → String → String → Option GraphExtractionOutbox → State → State
undo_publish now job_id message none s = s
undo_publish now job_id message (some o) s =
    let s' =
      set_graph_outbox job_id (λ x. record x { published_at = none; last_error = some message })
        s in
    if published_now now o
    then (if leb max_graph_outbox_attempts o.attempts
        then fail_exhausted message (get_graph_job s job_id) s'
        else s')
    else s

-- `enqueue` is the queue's answer for a job: the message of the exception, or none.
unfoldable pub send_all :
    (String → Option String) → ℕ → List GraphExtractionOutbox → ℕ → State → ℕ × State
unfolding undo_publish
send_all enqueue now [] sent s = (sent, s)
send_all enqueue now (o ∷ os) sent s =
    let failure = enqueue o.job_id in
    send_all enqueue now os (elim failure [ none ↦ sent + 1 | some m ↦ sent ])
      (elim failure [
        | none ↦ s
        | some m ↦ undo_publish now o.job_id m (get_graph_outbox s o.job_id) s
      ])

-- Two commits, with the messages sent between them. Returns how many were sent.
unfoldable pub dispatch_pending_graph_jobs : (String → Option String) → ℕ → ℕ → State → ℕ × State
unfolding pending_rows publish_all send_all
dispatch_pending_graph_jobs enqueue now limit s =
    let rows = pending_rows now limit s in send_all enqueue now rows 0 (publish_all now rows s)
