-- ===== src/Memory/Episodes.antt =====
-- memory/api.py, the handlers of episodes and attempts. Each takes the time of the request, the
-- identifiers that `memory_id()` returns in it (`ids 0` first), the store and the project of the
-- caller; an HTTPException commits nothing. `redact` is `redact_string` of redaction.py.
pub mod Attempts
pub mod Repetition
use open_graph_memory.Prelude.{
  ℕ, zero, suc, ◌+◌, ◌<◌, max, String, Bool, true, false, not, ◌&&◌, ◌||◌, Option, none, some, List,
  [], ◌∷◌, ◌++◌, map, ◌==◌, is_text, is_given, contains, ltb, leb, length, take, find_row,
  where_rows, any_row, if◌then◌else◌,
}
use open_graph_memory.Prelude.Int.{ℤ, pos, negsuc, ◌+ℤ◌}
use open_graph_memory.Prelude.Results.{
  Error, http_exception, integrity_error, Result, ok, err, ◌>>=◌, ◌>>◌, guard,
}
use open_graph_memory.Json.{Json, Fields, is_filled}
use open_graph_memory.Floats.{Floats, max_float}
use open_graph_memory.Rows.{
  Episode, EpisodeStatus, open_status, active, degraded, superseded, rejected, archived, Attempt,
  AttemptResult, Outcome, OutcomeStatus, Pattern, Verifier, Evidence, PatternMember, Version,
}
use open_graph_memory.Store.{
  Store, get_episode, put_episode, get_pattern, put_pattern, delete_episode, has_pattern_key,
}
use open_graph_memory.Redaction.{sanitize_input}
use open_graph_memory.Idempotency.{check_idempotency, store_idempotency}
use open_graph_memory.Memory.Types.{validate_typed_content}
use open_graph_memory.Memory.Confidence.{
  FeedbackKind, confirm, reject, correct, supersede, merge, stale, verified,
  apply_confidence_feedback, merge_memories, supersede_memory, get_version_history,
}
use open_graph_memory.Memory.Service.{
  VerifierInput, verifier_weight, bayesian_confidence, is_promoted, EpisodeView, episode_view,
  AttemptView, attempt_view, PatternView, pattern_view, owned_episode,
}

abbrev pub status_eq : EpisodeStatus → EpisodeStatus → Bool
status_eq open_status open_status = true
status_eq active active = true
status_eq degraded degraded = true
status_eq superseded superseded = true
status_eq rejected rejected = true
status_eq archived archived = true
status_eq _ _ = false

pub record EvidenceInput : Type 0 where
  pub reference : String
  pub metadata : Fields

pub record EpisodeInput (F : Type 0) : Type 0 where
  pub domain : String
  pub type : String
  pub title : String
  pub goal : String
  pub problem_signature : String
  pub scope : Fields
  pub tags : List String
  pub metadata : Fields
  pub content : Option Fields
  pub confidence : F
  pub evidence : List EvidenceInput
  pub idempotency_key : Option String

pub record AttemptInput : Type 0 where
  pub hypothesis : String
  pub actions : List Json
  pub result : AttemptResult
  pub notes : Option String
  pub metadata : Fields

-- `if body.content: validate_typed_content(...); body.content = sanitize_input(...)`
abbrev pub checked_content : (String → String) → String → Option Fields → Result (Option Fields)
checked_content redact t none = ok none
checked_content redact t (some content) =
    if is_filled (some content)
    then validate_typed_content t content >> ok (some (sanitize_input redact content))
    else ok (some content)

-- The rows that the request adds for its evidence; `n` is the next call of `memory_id()`.
unfoldable pub evidence_rows :
    (String → String) → (ℕ → String) → ℕ → String → List EvidenceInput → List Evidence
evidence_rows redact ids n episode_id [] = []
evidence_rows redact ids n episode_id (v ∷ vs) =
    record {
      id = ids n;
      episode_id = episode_id;
      reference = v.reference;
      metadata = sanitize_input redact v.metadata;
    }
    ∷ evidence_rows redact ids (suc n) episode_id vs

-- the text of a key that is given and not empty
abbrev pub given_text : Option String → Option String
given_text none = none
given_text (some s) = if is_text s then some s else none

module _ {F : Type 0} where
  -- an episode that an earlier request with the key made and that is still there
  abbrev pub remembered : Store F → Option String → Option (Episode F)
  remembered db none = none
  remembered db (some k) = if is_text k then get_episode db.episodes k else none

  -- A second row under the primary key (key, project_id) fails the commit.
  abbrev pub remember : ℕ → String → Store F → String → Option String → String → Result (Store F)
  remember now result_hash db project none k = ok db
  remember now result_hash db project (some key) k = do
    guard (not (any_row (λ r. r.key == key && r.project_id == project) db.idempotency_keys))
        integrity_error
    ok (store_idempotency now db key project "episode.create" k result_hash)

  unfoldable pub new_episode :
      String → ℕ → String → EpisodeInput F → Option Fields → Fields → Episode F
  new_episode k now project body content metadata = record {
    id = k;
    project_id = project;
    domain = body.domain;
    type = body.type;
    title = body.title;
    goal = body.goal;
    problem_signature = body.problem_signature;
    scope = body.scope;
    tags = body.tags;
    metadata = metadata;
    content = content;
    confidence = body.confidence;
    version = 1;
    root_id = none;
    status = open_status;
    feedback_score = pos 0;
    superseded_by_id = none;
    created_at = now;
    updated_at = now;
  }

  -- `result_hash` is the digest of the response that the key remembers.
  unfoldable pub insert_new :
      (String → String)
      → (ℕ → String)
      → String
      → ℕ
      → Store F
      → String
      → EpisodeInput F
      → Result (EpisodeView F × Store F)
  unfolding evidence_rows new_episode
  insert_new redact ids result_hash now db project body = do
    content ← checked_content redact body.type body.content
    let item = new_episode (ids 0) now project body content (sanitize_input redact body.metadata)
    let db' = record db {
      episodes = db.episodes ++ item ∷ [];
      evidence = db.evidence ++ evidence_rows redact ids 1 item.id body.evidence;
    }
    db'' ← remember now result_hash db' project (given_text body.idempotency_key) item.id
    ok (episode_view item [], db'')

  -- The id and the store that the key leads to.
  abbrev pub checked_key : ℕ → Store F → String → Option String → Option String × Store F
  checked_key now db project none = (none, db)
  checked_key now db project (some key) = check_idempotency now db key project "episode.create"

  -- A repeated request returns the episode and commits nothing: an expired key stays.
  unfoldable pub create_episode :
      (String → String)
      → (ℕ → String)
      → String
      → ℕ
      → Store F
      → String
      → EpisodeInput F
      → Result (EpisodeView F × Store F)
  create_episode redact ids result_hash now db project body =
      let (known, db') = checked_key now db project (given_text body.idempotency_key) in
      elim (remembered db' known) [
        | some e ↦ ok (episode_view e [], db)
        | none ↦ insert_new redact ids result_hash now db' project body
      ]

  -- `.order_by(created_at.desc())`
  insert_episode : Episode F → List (Episode F) → List (Episode F)
  insert_episode e [] = e ∷ []
  insert_episode e (x ∷ xs) =
      let rest = insert_episode e xs in
      if leb x.created_at e.created_at then e ∷ x ∷ xs else x ∷ rest

  newest_first : List (Episode F) → List (Episode F)
  unfolding insert_episode
  newest_first [] = []
  newest_first (e ∷ es) = insert_episode e (newest_first es)

  abbrev is_wanted : Option EpisodeStatus → Episode F → Bool
  is_wanted none e = true
  is_wanted (some s) e = status_eq e.status s

  pub list_episodes : Store F → String → Option EpisodeStatus → ℕ → List (EpisodeView F)
  unfolding newest_first
  list_episodes db project status limit =
      map (λ e. episode_view e [])
        (take limit (
          newest_first
            (where_rows (λ e. e.project_id == project && is_wanted status e) db.episodes)))
