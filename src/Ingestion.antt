-- ===== src/Ingestion.antt =====
-- apps/api/app/ingestion.py: indexing jobs. The identifiers that digests give are arguments, and so
-- are the answers of the storage, the parsers, the cleanup of the graph and the embedding.
pub mod Stages
pub mod Settled
pub mod Kept
use Prim.Native.Char.{code}
use Prim.Native.String
use open_graph_memory.Prelude.{
  ℕ, zero, suc, ◌+◌, String, Bool, true, false, not, ◌&&◌, Option, none, some, List, [], ◌∷◌, ◌++◌,
  map, is_text, ◌==◌, find_row, where_rows, update_rows, if◌then◌else◌,
}
use open_graph_memory.Prelude.Results.{Error, value_error, raised, Result, ok, err}
use open_graph_memory.Json.{Fields}
use open_graph_memory.Jobs.{
  State, Document, DocumentStatus, JobStatus, IndexingStage, IndexingJob, IndexingOutbox,
  IndexingStageEvent, ChunkRow, is_indexing_job, is_indexing_outbox, get_document, put_document,
}
use open_graph_memory.Chunking.{TextChunk, Chunker, ParsedSegment, split_document}
use open_graph_memory.Dispatch.{enqueue_graph_extraction}

-- What a call outside answers, or the name of its exception's type and `str` of the exception.
pub data Call {ℓ} (A : Type ℓ) : Type ℓ where
  answer : A → Call A
  failure : String → String → Call A

module _ (is_space : ℕ → Bool) where
  -- `" ".join(message.split())`: `started` where a word stands before, `pending` where spaces
  -- follow it.
  squeeze : Bool → Bool → String → String
  squeeze started pending String.[] = String.[]
  squeeze started pending (String.◌∷◌ c s) = elim (is_space (code c)) [
    | true ↦ squeeze started started s
    | false ↦
        let rest = String.◌∷◌ c (squeeze true false s) in
        if pending then String.◌++◌ " " rest else rest
  ]

-- `s[:n]`
abbrev take_text : ℕ → String → String
take_text zero s = String.[]
take_text (suc n) String.[] = String.[]
take_text (suc n) (String.◌∷◌ c s) = String.◌∷◌ c (take_text n s)

-- `hide` is the substitution by a regular expression, `name` the type of the exception.
unfoldable pub sanitized_error : (ℕ → Bool) → (String → String) → String → String → String
unfolding squeeze
sanitized_error is_space hide name message =
    let cleaned = take_text 1000 (squeeze is_space false false (hide message)) in
    if is_text cleaned then cleaned else name

abbrev pub get_indexing_job : State → String → Option IndexingJob
get_indexing_job s k = find_row (is_indexing_job k) s.indexing_jobs

abbrev pub put_indexing_job : IndexingJob → State → State
put_indexing_job j s = record s {
  indexing_jobs = update_rows (is_indexing_job j.id) (λ _. j) s.indexing_jobs;
}

abbrev get_indexing_outbox : State → String → Option IndexingOutbox
get_indexing_outbox s k = find_row (is_indexing_outbox k) s.indexing_outbox

abbrev new_indexing_job : String → Document → IndexingJob
new_indexing_job k d = record {
  id = k;
  project_id = d.project_id;
  dataset_id = d.dataset_id;
  document_id = d.id;
  status = JobStatus.queued;
  stage = IndexingStage.queued;
  attempt = 0;
  error_code = none;
  error_message = none;
}

-- The job of the document's content: a new one, or the one that is there, queued again if it failed.
abbrev pub claim_row : String → Document → Option IndexingJob → IndexingJob
claim_row k d none = new_indexing_job k d
claim_row k d (some j) = elim j.status [
  | JobStatus.failed ↦ record j { status = JobStatus.queued; stage = IndexingStage.queued }
  | _ ↦ j
]

abbrev with_job : IndexingJob → Option IndexingJob → State → State
with_job j none s = record s { indexing_jobs = s.indexing_jobs ++ j ∷ [] }
with_job j (some old) s = put_indexing_job j s

abbrev with_indexing_outbox : String → Option IndexingOutbox → State → State
with_indexing_outbox k none s = record s {
  indexing_outbox =
      s.indexing_outbox
      ++ record { job_id = k; attempts = 0; last_error = none; dispatched_at = none } ∷ [];
}
with_indexing_outbox k (some o) s = record s {
  indexing_outbox =
      update_rows (is_indexing_outbox k) (λ x. record x { dispatched_at = none; last_error = none })
        s.indexing_outbox;
}

abbrev set_status : DocumentStatus → Document → Document
set_status status d = record d { status = status; error_message = none }

-- `k` is the digest of the document, its content and the version of the pipeline.
pub enqueue_document : String → State → Document → IndexingJob × State
enqueue_document k s d =
    let old = get_indexing_job s k in
    let j = claim_row k d old in
    let s' = with_job j old s in
    elim j.status [
      | JobStatus.succeeded ↦ (j, put_document (set_status DocumentStatus.indexed d) s')
      | _ ↦ (
        j,
        put_document (set_status DocumentStatus.queued d)
            (with_indexing_outbox k (get_indexing_outbox s k) s'),
      )
    ]

-- `_stage`, with its commit
abbrev pub enter_stage : (ℕ → IndexingStage → String) → IndexingStage → IndexingJob → State → State
enter_stage event_id stage j s =
    let s' = put_indexing_job (record j { stage = stage }) s in
    record s' {
      stage_events =
          s.stage_events
          ++ record {
            id = event_id j.attempt stage;
            job_id = j.id;
            attempt = j.attempt;
            stage = stage;
          }
            ∷ [];
    }

abbrev pub chunk_row : (ℕ → String) → Document → TextChunk → ChunkRow
chunk_row chunk_id d c = record {
  id = chunk_id c.index;
  project_id = d.project_id;
  dataset_id = d.dataset_id;
  document_id = d.id;
  chunk_index = c.index;
  text = c.text;
  token_count = c.token_count;
}

abbrev pub is_of_document : Document → ChunkRow → Bool
is_of_document d r =
    r.project_id == d.project_id && r.dataset_id == d.dataset_id && r.document_id == d.id

-- What a run takes from outside: identifiers, the time, and the calls it makes.
pub record Outside : Type 1 where
  pub Content : Type 0
  pub event_id : ℕ → IndexingStage → String
  pub chunk_id : ℕ → String
  pub graph_job_id : String
  pub now : ℕ
  pub is_space : ℕ → Bool
  pub hide_secrets : String → String
  pub digest : String → ℕ → List ℕ → String
  pub chunker : Chunker
  pub download : Document → Call Content
  pub parse : Document → Content → Call (List ℕ × List ParsedSegment)
  pub cleanup_document_graph : Document → Call (Unit {0})
  pub embed_texts : List TextChunk → Call (Unit {0})

-- How the body of the `try` ends: all committed, or an exception after the commits of some stages.
pub data Work : Type 0 where
  finished : State → Work
  broken : State → String → String → Work

-- A call that breaks the work off, or its answer.
abbrev pub attempting : {A : Type 0} → State → Call A → (A → Work) → Work
attempting s (answer a) next = next a
attempting s (failure code message) next = broken s code message

-- The chunker raises nothing but a ValueError.
abbrev pub chunk_call : Result (List TextChunk) → Call (List TextChunk)
chunk_call (ok chunks) = answer chunks
chunk_call (err (value_error message)) = failure "ValueError" message
chunk_call (err e) = failure "" ""

-- Embeddings of no texts are not asked for.
abbrev pub embedding_call : (List TextChunk → Call (Unit {0})) → List TextChunk → Call (Unit {0})
embedding_call embed [] = answer tt
embedding_call embed (c ∷ cs) = embed (c ∷ cs)

-- The last commit: the new chunks in the place of the old ones, the job done and the graph queued.
pub persist : Outside → IndexingJob → Document → List TextChunk → State → State
persist o j d chunks s =
    let s1 =
      enter_stage o.event_id IndexingStage.complete (record j { status = JobStatus.succeeded })
        (record s {
          chunks =
              where_rows (λ r. not (is_of_document d r)) s.chunks
              ++ map (chunk_row o.chunk_id d) chunks;
        }) in
    enqueue_graph_extraction o.now o.graph_job_id s1 (record d { error_message = none })

pub work : Outside → IndexingJob → Document → State → Work
unfolding persist
work o j d s =
    let s1 = enter_stage o.event_id IndexingStage.reading j s in
    attempting s1 (o.download d) (λ content.
      let d2 = record d { status = DocumentStatus.parsing } in
      let s2 = enter_stage o.event_id IndexingStage.parsing j (put_document d2 s1) in
      attempting s2 (o.parse d2 content) (λ parsed.
        let d3 = record d2 { status = DocumentStatus.chunking } in
        let s3 = enter_stage o.event_id IndexingStage.chunking j (put_document d3 s2) in
        attempting s3
          (chunk_call (split_document o.is_space o.chunker o.digest d.id parsed.0 parsed.1))
          (λ chunks.
            let d4 = record d3 { status = DocumentStatus.persisting } in
            let s4 = enter_stage o.event_id IndexingStage.persisting j (put_document d4 s3) in
            attempting s4 (o.cleanup_document_graph d4) (λ _.
              attempting s4 (embedding_call o.embed_texts chunks)
                (λ _. finished (persist o j d4 chunks s4))))))

abbrev pub failed_job : String → String → IndexingJob → IndexingJob
failed_job code message j = record j {
  status = JobStatus.failed;
  error_code = some code;
  error_message = some message;
}

abbrev pub fail_document_of : String → Option Document → State → State
fail_document_of message none s = s
fail_document_of message (some d) s =
    put_document (record d { status = DocumentStatus.failed; error_message = some message }) s

-- After the rollback: the job and its document fail, with the sanitized message.
abbrev pub fail_ingestion : String → String → Option IndexingJob → State → State
fail_ingestion code message none s = s
fail_ingestion code message (some j) s =
    fail_document_of message (get_document s j.document_id)
      (put_indexing_job (failed_job code message j) s)

abbrev pub error_of : Outside → String → String → String
error_of o name message = sanitized_error o.is_space o.hide_secrets name message

-- What is raised again is the exception itself.
abbrev pub end_work : Outside → String → Document → Work → Result String × State
end_work o k d (finished s) = (ok d.id, s)
end_work o k d (broken s code message) =
    (err (raised message), fail_ingestion code (error_of o code message) (get_indexing_job s k) s)

abbrev pub started_row : IndexingJob → IndexingJob
started_row j = record j {
  status = JobStatus.running;
  attempt = j.attempt + 1;
  error_code = none;
  error_message = none;
}

abbrev pub start_job :
    Outside → String → State → IndexingJob → Option Document → Result String × State
start_job o k s j none = (err (value_error "document not found"), s)
start_job o k s j (some d) =
    end_work o k d (work o (started_row j) d (put_indexing_job (started_row j) s))

pub run_ingestion : Outside → State → String → Result String × State
unfolding work
run_ingestion o s k = elim (get_indexing_job s k) [
  | none ↦ (err (value_error "indexing job not found"), s)
  | some j ↦ elim j.status [
    | JobStatus.succeeded ↦ (ok j.document_id, s)
    | JobStatus.running ↦ (ok j.document_id, s)
    | _ ↦ start_job o k s j (get_document s j.document_id)
  ]
]
