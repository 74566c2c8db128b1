-- ===== src/Rows.antt =====
-- The rows of the agent memory and compliance tables (apps/api/app/models.py), with the columns
-- that the handlers read or write. A point in time is a number of seconds, an identifier a text.
-- `F` is the type of floats.
use open_graph_memory.Prelude.{ℕ, String, Bool, Option, List}
use open_graph_memory.Prelude.Int.{ℤ}
use open_graph_memory.Json.{Json, Fields}

pub data EpisodeStatus : Type 0 where
  open_status active degraded superseded rejected archived : EpisodeStatus

pub record Episode (F : Type 0) : Type 0 where
  pub id : String
  pub project_id : String
  pub domain : String
  pub type : String
  pub title : String
  pub goal : String
  pub problem_signature : String
  pub scope : Fields
  pub tags : List String
  pub metadata : Fields
  pub content : Option Fields
  pub confidence : F
  pub version : ℕ
  pub root_id : Option String
  pub status : EpisodeStatus
  pub feedback_score : ℤ
  pub superseded_by_id : Option String
  pub created_at : ℕ
  pub updated_at : ℕ

pub data AttemptResult : Type 0 where
  success failed partial : AttemptResult

pub record Attempt : Type 0 where
  pub id : String
  pub episode_id : String
  pub sequence : ℕ
  pub hypothesis : String
  pub actions : List Json
  pub result : AttemptResult
  pub notes : Option String
  pub metadata : Fields

pub data OutcomeStatus : Type 0 where
  success failed partial cancelled : OutcomeStatus

pub record Outcome : Type 0 where
  pub id : String
  pub episode_id : String
  pub status : OutcomeStatus
  pub summary : String
  pub lesson : Option String
  pub metrics : Fields
  pub pattern_key : String
  pub metadata : Fields

pub record Pattern (F : Type 0) : Type 0 where
  pub id : String
  pub project_id : String
  pub pattern_key : String
  pub verified_outcomes : ℕ
  pub weighted_successes : F
  pub weighted_total : F
  pub confidence : F
  pub promoted : Bool
  pub superseded_by_key : Option String

pub data VerifierKind : Type 0 where
  ci runtime test build self_report custom : VerifierKind

pub record Verifier : Type 0 where
  pub id : String
  pub outcome_id : String
  pub kind : VerifierKind
  pub name : String
  pub status : String
  pub command : Option String
  pub artifact_uri : Option String
  pub metrics : Fields

pub record Evidence : Type 0 where
  pub id : String
  pub episode_id : String
  pub reference : String
  pub metadata : Fields

pub record PatternMember : Type 0 where
  pub pattern_id : String
  pub outcome_id : String

pub record Version (F : Type 0) : Type 0 where
  pub id : String
  pub episode_id : String
  pub version : ℕ
  pub content : Fields
  pub confidence : F

pub data ResourceType : Type 0 where
  episode memory entity project : ResourceType

pub record LegalHold : Type 0 where
  pub id : String
  pub project_id : String
  pub resource_type : ResourceType
  pub resource_id : String
  pub reason : String
  pub created_by : String
  pub created_at : ℕ

pub data RetentionAction : Type 0 where
  archive delete : RetentionAction

pub data PolicyStatus : Type 0 where
  active paused completed : PolicyStatus

pub record RetentionPolicy : Type 0 where
  pub id : String
  pub project_id : String
  pub resource_type : ResourceType
  pub older_than_days : ℕ
  pub action : RetentionAction
  pub status : PolicyStatus
  pub created_by : String
  pub created_at : ℕ

pub record IdempotencyKey : Type 0 where
  pub key : String
  pub project_id : String
  pub operation : String
  pub resource_id : Option String
  pub result_hash : String
  pub created_at : ℕ
