-- ===== src/Examples/Requests.antt =====
-- Runs of the creation of episodes and of their attempts.
use open_graph_memory.Prelude.{ℕ, String, ◌≡◌, refl, none, some, [], ◌∷◌, ◌++◌, All}
use open_graph_memory.Prelude.Results.{ok}
use open_graph_memory.Json.{end}
use open_graph_memory.Rows.{Episode, Attempt, AttemptResult}
use open_graph_memory.Store.{Store}
use open_graph_memory.Redaction.{sanitize_input}
use open_graph_memory.Idempotency.{check_idempotency, store_idempotency}
use open_graph_memory.Memory.Service.{episode_view, owned_episode}
use open_graph_memory.Memory.Episodes.{
  EpisodeInput, AttemptInput, create_episode, insert_new, new_episode, evidence_rows,
}
use open_graph_memory.Memory.Episodes.Repetition.{create_episode-create_episode}
use open_graph_memory.Memory.Episodes.Attempts.{append_attempt, last_sequence, status_after}
use open_graph_memory.Memory.Episodes.Attempts.Numbering.{
  AreNumbered, Under, append_attempt-AreNumbered,
}
use open_graph_memory.Examples.Data.{a_store, two_alone}

abbrev a_request : String → EpisodeInput ℕ
a_request title = record {
  domain = "d";
  type = "fact";
  title = title;
  goal = "g";
  problem_signature = "s";
  scope = end;
  tags = [];
  metadata = end;
  content = none;
  confidence = 50;
  evidence = [];
  idempotency_key = some "key";
}

abbrev redact : String → String
redact s = s

abbrev ids : ℕ → String
ids n = "new"

-- the episode that the first request makes
abbrev created_row : Episode ℕ
created_row = new_episode "new" 20 "p" (a_request "one") none (sanitize_input redact end)

abbrev created_store : Store ℕ
created_store = record (a_store (two_alone ++ created_row ∷ []) []) {
  idempotency_keys =
      record {
        key = "key";
        project_id = "p";
        operation = "episode.create";
        resource_id = some "new";
        result_hash = "h1";
        created_at = 20;
      }
      ∷ [];
}

create_episode-create_episode_example :
    create_episode redact ids "h2" 30 created_store "p" (a_request "two")
    ≡ ok (episode_view created_row [], created_store)
unfolding create_episode insert_new check_idempotency store_idempotency evidence_rows
create_episode-create_episode_example =
    create_episode-create_episode redact ids "h1" 20 (a_store two_alone []) "p" (a_request "one")
      "key" refl refl ids "h2" 30 (a_request "two") refl refl refl refl refl

abbrev an_attempt : String → ℕ → Attempt
an_attempt k sequence = record {
  id = "att";
  episode_id = k;
  sequence = sequence;
  hypothesis = "h";
  actions = [];
  result = AttemptResult.failed;
  notes = none;
  metadata = end;
}

abbrev another_try : AttemptInput
another_try = record {
  hypothesis = "h";
  actions = [];
  result = AttemptResult.failed;
  notes = none;
  metadata = end;
}

abbrev tried_store : Store ℕ
tried_store = record (a_store two_alone []) {
  attempts = an_attempt "a" 1 ∷ an_attempt "b" 4 ∷ an_attempt "a" 2 ∷ [];
}

append_attempt-AreNumbered_example :
    All (Under "a" 3) tried_store.attempts
    × (AreNumbered tried_store.attempts
        → AreNumbered
            (an_attempt "a" 1 ∷ an_attempt "b" 4 ∷ an_attempt "a" 2 ∷ an_attempt "a" 3 ∷ []))
unfolding append_attempt last_sequence status_after owned_episode
append_attempt-AreNumbered_example =
    append_attempt-AreNumbered "att" 20 tried_store "p" "a" another_try refl
