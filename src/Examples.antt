-- ===== src/Examples.antt =====
-- Concrete runs: the properties of the development applied where their hypotheses hold.
pub mod Data
pub mod Plugins
pub mod Collation
pub mod Rankings
pub mod Graphs
pub mod Transfers
pub mod Memory
pub mod Content
pub mod Compliance
pub mod Requests
pub mod Indexing
pub mod Jobs
pub mod Chunks
