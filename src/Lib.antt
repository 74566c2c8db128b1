-- ===== src/Lib.antt =====
-- Verification of the API server of open-graph-memory: the agent memory with its confidence
-- lifecycle, the compliance features around it, the durable background jobs, the rows of the
-- knowledge graph, and the registry of plug-ins. All paths are from the repository's root.
--
-- The parts and their files
-- - Prelude: what all modules share: numbers, lists, texts, and in Prelude/Results.antt the result
--   of a handler, which is a value or the exception that it raises.
-- - Json, Floats: JSON values as a data type; Python's floats as a record of operations with the
--   laws of IEEE 754 that the proofs use, and hundredths as an instance that runs.
-- - Rows, Store: the tables of apps/api/app/models.py as records, and the database of a request as
--   lists of rows. `db.get` is a lookup, the flush of a changed object rewrites its row, and
--   deleting an episode does what the foreign keys of the other tables do.
-- - Memory/Confidence.antt: apps/api/app/memory/confidence.py, with apply_confidence_feedback,
--   merge_memories, supersede_memory and get_version_history under their own names.
--   Memory/Types.antt: memory/types.py. Memory/Service.antt: the pure part of memory/service.py.
--   Memory/Episodes.antt, Memory/Episodes/Attempts.antt, Memory/Patterns.antt and
--   Memory/Lifecycle.antt: the handlers of memory/api.py, one function per route, under the route
--   function's name; get_episode of the API is get_episode_view here.
-- - Idempotency, Redaction, LegalHold, Retention: idempotency.py, redaction.py, legal_hold.py and
--   retention.py of apps/api/app. Memory/Episodes.antt calls the first two, and the hard deletion
--   of Memory/Lifecycle.antt calls the check of holds.
-- - Jobs: the tables of the background work. Dispatch: apps/api/app/graph/dispatch.py, with the
--   leases in Dispatch/Leases.antt, the worker in Dispatch/Execute.antt, and all of them as steps
--   of one relation in Dispatch/Steps.antt.
-- - Ingestion: apps/api/app/ingestion.py, enqueue_document and run_ingestion, whose calls outside
--   are the fields of the record Outside; it calls Chunking, and enqueues in Dispatch.
-- - Chunking: apps/api/app/chunking.py, RecursiveTextChunker as functions of a Chunker's settings;
--   a text is its code points.
-- - Plugins: packages/contracts/src/open_graph_contracts: metadata.py (Plugins/Metadata.antt),
--   config.py (Plugins/Settings.antt), registry.py with errors.py (Plugins/Registry.antt); and the
--   registrations of apps/api/app/plugin_registry.py (Plugins/Builtin.antt). A registry is its
--   list of entries with their cached instances, and each call returns the next one. A factory is
--   called at a moment, and makes another object at another one.
-- - Extraction: packages/core/src/open_graph_core/extraction.py: find_evidence with its
--   normalisation (Extraction/Evidence.antt), the reading of a model's answer
--   (Extraction/Payload.antt) and resolve_candidate.
-- - Graph: apps/api/app/graph: the tables (Graph/Rows.antt), helpers.py and the scoped lookups of
--   service.py (Graph/Support.antt), gc.py (Graph/Gc.antt), cleanup.py (Graph/Cleanup.antt),
--   bounded_walk and path_ids of service.py (Graph/Walk.antt), its pages of the explorer
--   (Graph/Explorer.antt), and validate_output of consolidation.py (Graph/Consolidation.antt),
--   which looks for its quotes by Extraction's find_evidence. A query is a selection of the list
--   of rows; the order of the database is a comparison that the functions take.
-- - Portability: apps/api/app/export_import.py, export_project in Portability/Export.antt and
--   import_project in Portability/Import.antt, over the JSON of Json and the tables of Store.
-- - Retrieval: apps/api/app/retrieval.py, reciprocal_rank_fusion; its dictionaries are read under
--   one key at a time, `/` raises where it divides by zero or by an integer too large for a float,
--   and Python's `round` is an argument.
-- - Examples: each property applied to concrete rows.
--
-- State and errors. A handler takes the store and returns it with its answer; one that raises has
-- committed nothing, so its error carries no store. Only execute_graph_job and run_ingestion
-- commit before they raise, and return a state with their error. Identifiers, the time, digests,
-- the answers of the queue and the extraction of a document are arguments.
--
-- Loops. The walks along supersession chains and the loops of the reconciler recurse on lists or
-- on fuel. The chunker's loop starts each round later in the text, so the text's length is enough.
-- A walk visits a new row in each round, so one round more than the table has rows is enough. The
-- walk of the graph recurses on its depth, and the path back has one round more than there are
-- parents. The normalisation of evidence recurses on the text, with the inner loops of the source
-- as modes.
--
-- Not modelled. Row locks and advisory locks: a handler runs alone between its commits, and
-- sessions interleave only at commits, in Dispatch/Steps.antt. Column widths and check constraints
-- of PostgreSQL, except the primary key of the idempotency keys. Regular expressions, which
-- redact_string, the secret search, sanitized_error and normalize_pattern_key use, are arguments,
-- and so are `isinstance`, Unicode's NFKC and the texts of floats and times. The columns of JSON
-- that the rows type more narrowly, such as lists of texts, refuse other values. The calls of a
-- model are outside, as are search, the rest of retrieval.py, the graph store with its pipeline
-- and analytics, the other views of graph/service.py, the extraction from code, parsers,
-- authentication and the clients.
pub mod Prelude
pub mod Json
pub mod Floats
pub mod Rows
pub mod Store
pub mod Memory
pub mod Idempotency
pub mod Redaction
pub mod LegalHold
pub mod Retention
pub mod Jobs
pub mod Ingestion
pub mod Chunking
pub mod Dispatch
pub mod Plugins
pub mod Extraction
pub mod Graph
pub mod Retrieval
pub mod Portability
pub mod Examples
