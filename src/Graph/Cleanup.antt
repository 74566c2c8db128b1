-- ===== src/Graph/Cleanup.antt =====
-- graph/cleanup.py: the rows that record what a deletion still has to clean up. `digest` is the hash
-- of `stable_id`, `now` the time of the request.
use open_graph_memory.Prelude.{
  ℕ, String, Bool, true, false, Option, none, some, List, [], ◌∷◌, ◌++◌, ◌==◌, find_row,
  update_rows, join,
}

pub data GraphCleanupTarget : Type 0 where
  document dataset : GraphCleanupTarget

pub record GraphCleanupOutbox : Type 0 where
  pub id : String
  pub project_id : String
  pub dataset_id : String
  pub document_id : Option String
  pub target : GraphCleanupTarget
  pub ready : Bool
  pub attempts : ℕ
  pub last_error : Option String
  pub published_at : Option ℕ
  pub lease_expires_at : Option ℕ
  pub execution_lease_expires_at : Option ℕ
  pub next_attempt_at : Option ℕ
  pub dead_lettered_at : Option ℕ
  pub completed_at : Option ℕ

module _ (digest : List String → String) where
  -- `stable_id(prefix, *parts)`
  abbrev stable_id : String → List String → String
  stable_id prefix parts = join (prefix ∷ "_" ∷ digest parts ∷ [])

  abbrev new_cleanup :
      String → String → String → Option String → GraphCleanupTarget → GraphCleanupOutbox
  new_cleanup k project_id dataset_id document_id target = record {
    id = k;
    project_id = project_id;
    dataset_id = dataset_id;
    document_id = document_id;
    target = target;
    ready = false;
    attempts = 0;
    last_error = none;
    published_at = none;
    lease_expires_at = none;
    execution_lease_expires_at = none;
    next_attempt_at = none;
    dead_lettered_at = none;
    completed_at = none;
  }

  -- the row that is there, or the new one and the table with it
  abbrev get_or_add :
      GraphCleanupOutbox → List GraphCleanupOutbox → GraphCleanupOutbox × List GraphCleanupOutbox
  get_or_add new rows = elim (find_row (λ (c : GraphCleanupOutbox). c.id == new.id) rows) [
    | some old ↦ (old, rows)
    | none ↦ (new, rows ++ new ∷ [])
  ]

  unfoldable pub create_document_cleanup :
      String
      → String
      → String
      → List GraphCleanupOutbox
      → GraphCleanupOutbox × List GraphCleanupOutbox
  create_document_cleanup project_id dataset_id k rows =
      get_or_add
        (new_cleanup (stable_id "graph-cleanup-document" (project_id ∷ dataset_id ∷ k ∷ []))
          project_id dataset_id (some k) document)
        rows

  unfoldable pub create_dataset_cleanup :
      String → String → List GraphCleanupOutbox → GraphCleanupOutbox × List GraphCleanupOutbox
  create_dataset_cleanup project_id dataset_id rows =
      get_or_add
        (new_cleanup (stable_id "graph-cleanup-dataset" (project_id ∷ dataset_id ∷ [])) project_id
          dataset_id none dataset)
        rows

unfoldable pub mark_cleanup_ready :
    ℕ → GraphCleanupOutbox → List GraphCleanupOutbox → List GraphCleanupOutbox
mark_cleanup_ready now cleanup rows =
    update_rows (λ (c : GraphCleanupOutbox). c.id == cleanup.id)
      (λ c. record c {
        ready = true;
        completed_at = some now;
        published_at = none;
        lease_expires_at = none;
        execution_lease_expires_at = none;
        next_attempt_at = none;
        dead_lettered_at = none;
        last_error = none;
      })
      rows
