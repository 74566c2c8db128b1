-- ===== src/Extraction.antt =====
-- packages/core extraction.py: the evidence of a mention in a text, and the reading of what a model
-- answers.
pub mod Evidence
pub mod Payload
