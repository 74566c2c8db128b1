-- ===== src/Memory.antt =====
-- Agent memory: apps/api/app/memory.
pub mod Confidence
pub mod Types
pub mod Service
pub mod Episodes
pub mod Patterns
pub mod Lifecycle
