-- ===== src/Graph/Rows.antt =====
-- graph/models.py: the rows of the knowledge graph, with the columns that are read or written. A
-- point in time is a number of seconds.
use open_graph_memory.Prelude.{ℕ, String, Bool, Option, List, ◌&&◌, ◌==◌}

pub data ReviewState : Type 0 where
  unreviewed approved rejected needs_review : ReviewState

pub record CanonicalEntity (F : Type 0) : Type 0 where
  pub id : String
  pub project_id : String
  pub dataset_id : String
  pub canonical_name : String
  pub normalized_name : String
  pub entity_type : String
  pub confidence : F
  pub review_state : ReviewState
  pub valid_from : ℕ
  pub valid_until : Option ℕ
  pub superseded_by : Option String

pub record EntityAlias (F : Type 0) : Type 0 where
  pub id : String
  pub project_id : String
  pub dataset_id : String
  pub entity_id : String
  pub alias : String
  pub normalized_alias : String
  pub entity_type : String
  pub confidence : F

pub record EntityAliasEvidence : Type 0 where
  pub alias_id : String
  pub evidence_id : String

pub record RelationAssertion (F : Type 0) : Type 0 where
  pub id : String
  pub project_id : String
  pub dataset_id : String
  pub source_entity_id : String
  pub target_entity_id : String
  pub relation_type : String
  pub confidence : F
  pub extractor_version : String
  pub review_state : ReviewState
  pub valid_from : ℕ
  pub valid_until : Option ℕ
  pub superseded_by : Option String

-- exactly one of `entity_id` and `relation_id` is given
pub record GraphEvidence (F : Type 0) : Type 0 where
  pub id : String
  pub project_id : String
  pub dataset_id : String
  pub document_id : String
  pub chunk_id : String
  pub run_id : String
  pub entity_id : Option String
  pub relation_id : Option String
  pub quote : String
  pub start_offset : Option ℕ
  pub end_offset : Option ℕ
  pub confidence : F

pub record EntityMergeHistory : Type 0 where
  pub id : String
  pub project_id : String
  pub dataset_id : String
  pub source_entity_id : String
  pub target_entity_id : String
  pub reason : String
  pub review_state : ReviewState
  pub reviewer : Option String

-- the tables of the graph
pub record Graph (F : Type 0) : Type 0 where
  pub entities : List (CanonicalEntity F)
  pub aliases : List (EntityAlias F)
  pub alias_evidence : List EntityAliasEvidence
  pub relations : List (RelationAssertion F)
  pub evidence : List (GraphEvidence F)
  pub merges : List EntityMergeHistory

-- the rows of a dataset of a project
abbrev pub is_scope : String → String → String → String → Bool
is_scope project dataset p d = p == project && d == dataset
