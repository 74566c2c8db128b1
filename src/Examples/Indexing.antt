-- ===== src/Examples/Indexing.antt =====
-- Runs of an indexing job.
use open_graph_memory.Prelude.{◌≡◌, ℕ, refl, none, List, [], ◌∷◌, eqb}
use open_graph_memory.Jobs.{
  State, Document, DocumentStatus, JobStatus, IndexingStage, IndexingJob, ChunkRow,
}
use open_graph_memory.Ingestion.{sanitized_error, Outside, answer, run_ingestion}
use open_graph_memory.Ingestion.Kept.{KeepsChunks, run_ingestion-KeepsChunks}

abbrev a_document : Document
a_document = record {
  id = "doc";
  project_id = "p";
  dataset_id = "ds";
  content_hash = "h";
  status = DocumentStatus.queued;
  error_message = none;
  graph_stage = none;
}

abbrev an_indexing_job : IndexingJob
an_indexing_job = record {
  id = "ij";
  project_id = "p";
  dataset_id = "ds";
  document_id = "doc";
  status = JobStatus.queued;
  stage = IndexingStage.queued;
  attempt = 0;
  error_code = none;
  error_message = none;
}

abbrev old_chunk : ChunkRow
old_chunk = record {
  id = "c";
  project_id = "p";
  dataset_id = "ds";
  document_id = "doc";
  chunk_index = 0;
  text = 97 ∷ [];
  token_count = 1;
}

abbrev a_state : State
a_state = record {
  documents = a_document ∷ [];
  chunks = old_chunk ∷ [];
  indexing_jobs = an_indexing_job ∷ [];
  indexing_outbox = [];
  stage_events = [];
  graph_jobs = [];
  graph_outbox = [];
}

-- a storage that has "ab" under every name
abbrev an_outside : Outside
an_outside = record {
  Content = List ℕ;
  event_id = λ n stage. "event";
  chunk_id = λ n. "chunk";
  graph_job_id = "graph";
  now = 7;
  is_space = λ x. eqb x 32;
  hide_secrets = λ s. s;
  digest = λ k n value. "digest";
  chunker = record { size = 4; overlap = 1; maximum = 10 };
  download = λ d. answer (97 ∷ 98 ∷ []);
  parse = λ d content. answer (content, []);
  cleanup_document_graph = λ d. answer tt;
  embed_texts = λ chunks. answer tt;
}

run_ingestion-KeepsChunks_example :
    KeepsChunks a_document (old_chunk ∷ []) (run_ingestion an_outside a_state "ij")
run_ingestion-KeepsChunks_example = run_ingestion-KeepsChunks an_outside a_state "ij" refl refl

-- The spaces of a message are joined, and an empty one becomes the name of the type.
sanitized_message :
    sanitized_error (λ x. eqb x 32) (λ s. s) "OSError" "  no  such file " ≡ "no such file"
unfolding sanitized_error
sanitized_message = refl

sanitized_nothing : sanitized_error (λ x. eqb x 32) (λ s. s) "OSError" "  " ≡ "OSError"
unfolding sanitized_error
sanitized_nothing = refl
