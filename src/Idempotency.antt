-- ===== src/Idempotency.antt =====
-- idempotency.py: a key remembers the resource that a request made, for a day.
use open_graph_memory.Prelude.{
  ℕ, ◌*◌, ◌+◌, String, Bool, not, ◌&&◌, Option, none, some, [], ◌∷◌, ◌++◌, ◌==◌, leb, length,
  find_row, where_rows, if◌then◌else◌,
}
use open_graph_memory.Rows.{IdempotencyKey}
use open_graph_memory.Store.{Store}

abbrev pub ttl_seconds : ℕ
ttl_seconds = 24 * 3600

abbrev pub is_key : String → String → String → IdempotencyKey → Bool
is_key key project operation r = r.key == key && r.project_id == project && r.operation == operation

-- the row that the primary key (key, project_id) names
abbrev pub same_row : IdempotencyKey → IdempotencyKey → Bool
same_row a b = a.key == b.key && a.project_id == b.project_id

-- `created_at >= now - 24 h`, written without a subtraction
abbrev pub is_fresh : ℕ → IdempotencyKey → Bool
is_fresh now r = leb now (r.created_at + ttl_seconds)

module _ {F : Type 0} where
  abbrev pub delete_key : IdempotencyKey → Store F → Store F
  delete_key r db = record db {
    idempotency_keys = where_rows (λ x. not (same_row x r)) db.idempotency_keys;
  }

  -- The remembered resource, and the store, from which an expired key has gone.
  unfoldable pub check_idempotency :
      ℕ → Store F → String → String → String → Option String × Store F
  check_idempotency now db key project operation =
      elim (find_row (is_key key project operation) db.idempotency_keys) [
        | none ↦ (none, db)
        | some r ↦ if is_fresh now r then (r.resource_id, db) else (none, delete_key r db)
      ]

  -- `compute_result_hash` is a parameter of the row: a digest of the result's JSON.
  unfoldable pub store_idempotency :
      ℕ → Store F → String → String → String → String → String → Store F
  store_idempotency now db key project operation resource_id result_hash = record db {
    idempotency_keys =
        db.idempotency_keys
        ++ record {
          key = key;
          project_id = project;
          operation = operation;
          resource_id = some resource_id;
          result_hash = result_hash;
          created_at = now;
        }
          ∷ [];
  }

  -- Returns the number of rows deleted.
  pub cleanup_expired_keys : ℕ → Store F → ℕ × Store F
  cleanup_expired_keys now db = (
    length (where_rows (λ r. not (is_fresh now r)) db.idempotency_keys),
    record db { idempotency_keys = where_rows (is_fresh now) db.idempotency_keys },
  )
