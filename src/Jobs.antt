-- ===== src/Jobs.antt =====
-- The tables of the background work: documents, chunks, the indexing jobs of models.py and the graph
-- extraction jobs of graph/models.py, each job with its outbox row. Times are seconds.
pub mod Lookup
use open_graph_memory.Prelude.{
  ℕ, String, Bool, true, false, Option, none, some, List, ◌==◌, find_row, update_rows,
}
use open_graph_memory.Json.{Fields}

pub data DocumentStatus : Type 0 where
  pending_upload uploaded storage_failed queued parsing chunking persisting indexed failed :
      DocumentStatus
  cancelled stale deleting delete_failed : DocumentStatus

pub record Document : Type 0 where
  pub id : String
  pub project_id : String
  pub dataset_id : String
  pub content_hash : String
  pub status : DocumentStatus
  pub error_message : Option String
  pub graph_stage : Option String

pub record ChunkRow : Type 0 where
  pub id : String
  pub project_id : String
  pub dataset_id : String
  pub document_id : String
  pub chunk_index : ℕ
  pub text : List ℕ
  pub token_count : ℕ

pub data JobStatus : Type 0 where
  queued running succeeded failed : JobStatus

pub data IndexingStage : Type 0 where
  queued reading parsing chunking persisting complete : IndexingStage

pub record IndexingJob : Type 0 where
  pub id : String
  pub project_id : String
  pub dataset_id : String
  pub document_id : String
  pub status : JobStatus
  pub stage : IndexingStage
  pub attempt : ℕ
  pub error_code : Option String
  pub error_message : Option String

pub record IndexingOutbox : Type 0 where
  pub job_id : String
  pub attempts : ℕ
  pub last_error : Option String
  pub dispatched_at : Option ℕ

pub record IndexingStageEvent : Type 0 where
  pub id : String
  pub job_id : String
  pub attempt : ℕ
  pub stage : IndexingStage

-- `GraphJobStatus` has the four states of `JobStatus`.
pub record GraphExtractionJob : Type 0 where
  pub id : String
  pub project_id : String
  pub dataset_id : String
  pub document_id : String
  pub status : JobStatus
  pub attempt : ℕ
  pub max_attempts : ℕ
  pub next_attempt_at : ℕ
  pub lease_expires_at : Option ℕ
  pub error_message : Option String

pub record GraphExtractionOutbox : Type 0 where
  pub job_id : String
  pub attempts : ℕ
  pub last_error : Option String
  pub published_at : Option ℕ
  pub created_at : ℕ

pub record State : Type 0 where
  pub documents : List Document
  pub chunks : List ChunkRow
  pub indexing_jobs : List IndexingJob
  pub indexing_outbox : List IndexingOutbox
  pub stage_events : List IndexingStageEvent
  pub graph_jobs : List GraphExtractionJob
  pub graph_outbox : List GraphExtractionOutbox

abbrev pub is_document : String → Document → Bool
is_document k d = d.id == k

abbrev pub is_indexing_job : String → IndexingJob → Bool
is_indexing_job k j = j.id == k

abbrev pub is_indexing_outbox : String → IndexingOutbox → Bool
is_indexing_outbox k o = o.job_id == k

abbrev pub is_graph_job : String → GraphExtractionJob → Bool
is_graph_job k j = j.id == k

abbrev pub is_graph_outbox : String → GraphExtractionOutbox → Bool
is_graph_outbox k o = o.job_id == k

abbrev pub get_document : State → String → Option Document
get_document s k = find_row (is_document k) s.documents

abbrev pub get_graph_job : State → String → Option GraphExtractionJob
get_graph_job s k = find_row (is_graph_job k) s.graph_jobs

abbrev pub get_graph_outbox : State → String → Option GraphExtractionOutbox
get_graph_outbox s k = find_row (is_graph_outbox k) s.graph_outbox

abbrev pub put_document : Document → State → State
put_document d s = record s { documents = update_rows (is_document d.id) (λ _. d) s.documents }

abbrev pub put_graph_job : GraphExtractionJob → State → State
put_graph_job j s = record s { graph_jobs = update_rows (is_graph_job j.id) (λ _. j) s.graph_jobs }

-- a change of the outbox row of a job, if there is one
abbrev pub set_graph_outbox :
    String → (GraphExtractionOutbox → GraphExtractionOutbox) → State → State
set_graph_outbox k f s = record s {
  graph_outbox = update_rows (is_graph_outbox k) f s.graph_outbox;
}
