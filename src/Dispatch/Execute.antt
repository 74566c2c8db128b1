-- ===== src/Dispatch/Execute.antt =====
-- graph/dispatch.py `execute_graph_job`: a worker claims a job, extracts, and writes how it ended.
-- The extraction of graph/pipeline.py is an argument: the state that it leaves, with all that other
-- sessions wrote meanwhile, and the message of its failure if it failed.
use open_graph_memory.Prelude.{
  ℕ, ◌+◌, ◌^◌, min, String, Bool, true, false, not, ◌&&◌, ◌||◌, Option, none, some, ◌==◌, leb, ltb,
  if◌then◌else◌,
}
use open_graph_memory.Prelude.Results.{
  value_error, graph_extraction_failed, raised, Result, ok, err,
}
use open_graph_memory.Jobs.{
  State, Document, DocumentStatus, indexed, persisting, queued, running, succeeded, failed,
  GraphExtractionJob, get_document, get_graph_job, put_document, put_graph_job, set_graph_outbox,
}
use open_graph_memory.Dispatch.{lease_seconds, is_running, is_succeeded}

-- What the first session decides: an answer, or the document to extract.
pub data Claim : Type 0 where
  answered : Result String → Claim
  started : String → Claim

abbrev pub is_live : ℕ → Option ℕ → Bool
is_live now none = false
is_live now (some t) = ltb now t

abbrev pub is_persisted : DocumentStatus → Bool
is_persisted indexed = true
is_persisted persisting = true
is_persisted _ = false

abbrev pub claimed : ℕ → ℕ → GraphExtractionJob → GraphExtractionJob
claimed now timeout j = record j {
  status = running;
  attempt = j.attempt + 1;
  lease_expires_at = some (now + lease_seconds timeout);
  error_message = none;
}

abbrev pub claim_document : ℕ → ℕ → State → GraphExtractionJob → Option Document → Claim × State
claim_document now timeout s j none =
    (answered (err (value_error "graph job document scope mismatch")), s)
claim_document now timeout s j (some d) =
    if not (d.project_id == j.project_id) || not (d.dataset_id == j.dataset_id)
    then (answered (err (value_error "graph job document scope mismatch")), s)
    else (if is_persisted d.status
        then (
          started j.document_id,
          put_document (record d { graph_stage = some "extracting" })
              (put_graph_job (claimed now timeout j) s),
        )
        else (answered (err (value_error "graph extraction requires a persisted document")), s))

-- Done already, or under the lease of another worker.
abbrev pub is_taken : ℕ → GraphExtractionJob → Bool
is_taken now j = is_succeeded j.status || is_running j.status && is_live now j.lease_expires_at

abbrev pub claim_job : ℕ → ℕ → State → GraphExtractionJob → Claim × State
claim_job now timeout s j =
    if is_taken now j
    then (answered (ok j.document_id), s)
    else (if leb j.max_attempts j.attempt
        then (
          answered (ok j.document_id),
          put_graph_job (record j { status = failed; lease_expires_at = none }) s,
        )
        else claim_document now timeout s j (get_document s j.document_id))

unfoldable pub claim : ℕ → ℕ → State → String → Claim × State
claim now timeout s k = elim (get_graph_job s k) [
  | none ↦ (answered (ok k), s)
  | some j ↦ claim_job now timeout s j
]

abbrev pub set_document : (Document → Document) → Option Document → State → State
set_document f none s = s
set_document f (some d) s = put_document (f d) s

abbrev retry_delay : ℕ → ℕ
retry_delay attempt = min 60 (2 ^ attempt)

-- The extraction raised.
unfoldable pub fail_job : ℕ → String → State → String → Result String × State
fail_job now message s k = elim (get_graph_job s k) [
  | none ↦ (err (raised message), s)
  | some j ↦ (
    err (graph_extraction_failed k message),
    if leb j.max_attempts j.attempt
        then set_document
            (λ d. record d {
              status = DocumentStatus.failed;
              graph_stage = some "failed";
              error_message = some message;
            })
            (get_document s j.document_id)
            (put_graph_job
              (record j { status = failed; lease_expires_at = none; error_message = some message })
              s)
        else set_graph_outbox k (λ o. record o { published_at = none })
            (put_graph_job
              (record j {
                status = queued;
                lease_expires_at = none;
                error_message = some message;
                next_attempt_at = now + retry_delay j.attempt;
              })
              s),
  )
]

-- The extraction returned.
unfoldable pub complete_job : State → String → State
complete_job s k = elim (get_graph_job s k) [
  | none ↦ s
  | some j ↦
      set_document
        (λ d. record d { status = indexed; graph_stage = some "complete"; error_message = none })
        (get_document s j.document_id)
        (put_graph_job
          (record j { status = succeeded; lease_expires_at = none; error_message = none }) s)
]

abbrev finish : ℕ → State × Option String → String → Result String × State
finish now (s, none) k = (ok k, complete_job s k)
finish now (s, some message) k = fail_job now message s k

abbrev run_claim :
    (String → State → State × Option String) → ℕ → Claim × State → String → Result String × State
run_claim extract now (answered r, s) k = (r, s)
run_claim extract now (started document_id, s) k = finish now (extract document_id s) k

-- `now` when it starts, `later` when the extraction has ended.
unfoldable pub execute_graph_job :
    (String → State → State × Option String) → ℕ → ℕ → ℕ → State → String → Result String × State
execute_graph_job extract now later timeout s k = run_claim extract later (claim now timeout s k) k
