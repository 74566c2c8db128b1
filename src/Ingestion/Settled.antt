-- ===== src/Ingestion/Settled.antt =====
-- apps/api/app/ingestion.py `run_ingestion`: how the job of a run ends.
use open_graph_memory.Prelude.{String, ◌≡◌, ◌⊎◌, some}
use open_graph_memory.Prelude.Results.{Result, ok, err, raised}
use open_graph_memory.Jobs.{State, JobStatus, IndexingJob}
use open_graph_memory.Ingestion.{get_indexing_job, Outside, error_of}

module _ (k : String) where
  -- the job's row is there
  abbrev Present : State → Type 0
  Present s = (j : IndexingJob) × (get_indexing_job s k ≡ some j)

  abbrev Succeeded : State → Type 0
  Succeeded s =
      (j : IndexingJob) × (get_indexing_job s k ≡ some j) × (j.status ≡ JobStatus.succeeded)

  abbrev IsDone : Result String → IndexingJob → Type 0
  IsDone r j = (j.status ≡ JobStatus.succeeded) × ((name : String) × (r ≡ ok name))

  -- The run raised an exception, of which the job keeps the type's name and the sanitized message.
  abbrev HasFailed : Outside → Result String → IndexingJob → Type 0
  HasFailed o r j =
      (j.status ≡ JobStatus.failed)
      × ((name : String) × (message : String) × (r ≡ err (raised message))
          × (j.error_code ≡ some name)
          × (j.error_message ≡ some (error_of o name message)))

  -- The run returned and its job is done, or it raised and its job has failed.
  abbrev pub HasSettled : Outside → Result String × State → Type 0
  HasSettled o (r, s) =
      (j : IndexingJob) × (get_indexing_job s k ≡ some j) × (IsDone r j ⊎ HasFailed o r j)
