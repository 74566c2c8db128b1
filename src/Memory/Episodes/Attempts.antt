-- ===== src/Memory/Episodes/Attempts.antt =====
-- memory/api.py, the handlers of one episode's attempts.
pub mod Numbering
use open_graph_memory.Prelude.{
  ℕ, ◌+◌, max, String, Bool, true, false, List, [], ◌∷◌, ◌++◌, ◌==◌, leb, where_rows, if◌then◌else◌,
}
use open_graph_memory.Prelude.Results.{http_exception, Result, ok, ◌>>=◌, ◌>>◌, guard}
use open_graph_memory.Rows.{
  Episode, EpisodeStatus, open_status, active, degraded, Attempt, AttemptResult,
}
use open_graph_memory.Store.{Store, put_episode}
use open_graph_memory.Memory.Service.{
  EpisodeView, episode_view, AttemptView, attempt_view, owned_episode,
}
use open_graph_memory.Memory.Episodes.{AttemptInput, status_eq}

-- `.order_by(AgentMemoryAttempt.sequence)`
insert_attempt : Attempt → List Attempt → List Attempt
insert_attempt a [] = a ∷ []
insert_attempt a (x ∷ xs) =
    let rest = insert_attempt a xs in if leb a.sequence x.sequence then a ∷ x ∷ xs else x ∷ rest

sort_attempts : List Attempt → List Attempt
unfolding insert_attempt
sort_attempts [] = []
sort_attempts (a ∷ rows) = insert_attempt a (sort_attempts rows)

pub attempts_of : List Attempt → String → List Attempt
unfolding sort_attempts
attempts_of rows k = sort_attempts (where_rows (λ a. a.episode_id == k) rows)

-- `item.status in {"open", "active", "degraded"}`
abbrev pub takes_attempts : EpisodeStatus → Bool
takes_attempts open_status = true
takes_attempts active = true
takes_attempts degraded = true
takes_attempts _ = false

unfoldable pub status_after : AttemptResult → EpisodeStatus
status_after AttemptResult.success = active
status_after AttemptResult.failed = degraded
status_after AttemptResult.partial = active

-- `onupdate` of updated_at, which runs only where the flush has a changed column to write
abbrev touched : {F : Type 0} → ℕ → Episode F → EpisodeStatus → ℕ
touched now item status = if status_eq item.status status then item.updated_at else now

-- `coalesce(max(sequence), 0)` over the attempts of an episode
unfoldable pub last_sequence : String → List Attempt → ℕ
last_sequence k [] = 0
last_sequence k (a ∷ rows) =
    let rest = last_sequence k rows in if a.episode_id == k then max a.sequence rest else rest

module _ {F : Type 0} where
  pub get_episode_view : Store F → String → String → Result (EpisodeView F)
  unfolding owned_episode
  get_episode_view db project episode_id = do
    item ← owned_episode db project episode_id
    ok (episode_view item (attempts_of db.attempts item.id))

  unfoldable pub append_attempt :
      String → ℕ → Store F → String → String → AttemptInput → Result (AttemptView × Store F)
  unfolding owned_episode status_after last_sequence
  append_attempt new_id now db project episode_id body = do
    item ← owned_episode db project episode_id
    guard (takes_attempts item.status)
        (http_exception 409 "attempts require an open, active, or degraded episode")
    let sequence = last_sequence item.id db.attempts + 1
    let status = status_after body.result
    let item' = record item { status = status; updated_at = touched now item status }
    let attempt : Attempt = record {
      id = new_id;
      episode_id = item.id;
      sequence = sequence;
      hypothesis = body.hypothesis;
      actions = body.actions;
      result = body.result;
      notes = body.notes;
      metadata = body.metadata;
    }
    let db' = put_episode item' db
    ok (attempt_view attempt, record db' { attempts = db.attempts ++ attempt ∷ [] })
