-- ===== src/Graph.antt =====
-- apps/api/app/graph: the graph of a dataset, with the evidence that supports its entities and
-- relations. A query sees the rows of a table in the order of the list; foreign keys are those of
-- graph/models.py.
pub mod Rows
pub mod Support
pub mod Gc
pub mod Cleanup
pub mod Walk
pub mod Consolidation
pub mod Explorer
