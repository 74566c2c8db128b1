-- ===== src/Examples/Data.antt =====
-- Rows and stores of the tests, with hundredths for floats.
use open_graph_memory.Prelude.{
  ℕ, String, false, Option, none, some, List, [], ◌∷◌, inl, inr, Bool-cases, ◌==◌,
}
use open_graph_memory.Prelude.Int.{pos}
use open_graph_memory.Json.{end, field, text}
use open_graph_memory.Rows.{Episode, active, Pattern, LegalHold, episode}
use open_graph_memory.Store.{Store}
use open_graph_memory.Memory.Confidence.Acyclic.{stop, step, IsAcyclic}

abbrev pub an_episode : String → Option String → Episode ℕ
an_episode k link = record {
  id = k;
  project_id = "p";
  domain = "d";
  type = "fact";
  title = "t";
  goal = "g";
  problem_signature = "s";
  scope = end;
  tags = [];
  metadata = end;
  content = some (field "value" (text "v") end);
  confidence = 60;
  version = 1;
  root_id = none;
  status = active;
  feedback_score = pos 0;
  superseded_by_id = link;
  created_at = 10;
  updated_at = 10;
}

abbrev pub a_store : List (Episode ℕ) → List LegalHold → Store ℕ
a_store es hs = record {
  episodes = es;
  attempts = [];
  outcomes = [];
  patterns = [];
  members = [];
  verifiers = [];
  evidence = [];
  versions = [];
  holds = hs;
  policies = [];
  idempotency_keys = [];
}

-- `a` and `b` stand alone.
abbrev pub two_alone : List (Episode ℕ)
two_alone = an_episode "a" none ∷ an_episode "b" none ∷ []

-- `a` is superseded by `b`.
abbrev pub two_linked : List (Episode ℕ)
two_linked = an_episode "a" (some "b") ∷ an_episode "b" none ∷ []

pub two_alone-IsAcyclic : IsAcyclic two_alone
two_alone-IsAcyclic k = elim (Bool-cases ("a" == k)) [
  | inl t ↦ rw t (step (an_episode "a" none) stop)
  | inr f ↦ elim (Bool-cases ("b" == k)) [
    | inl t ↦ rw (f, t) (step (an_episode "b" none) stop)
    | inr g ↦ rw (f, g) stop
  ]
]

abbrev pub a_pattern : Pattern ℕ
a_pattern = record {
  id = "pat";
  project_id = "p";
  pattern_key = "key";
  verified_outcomes = 5;
  weighted_successes = 500;
  weighted_total = 500;
  confidence = 85;
  promoted = false;
  superseded_by_key = some "other";
}

abbrev pub a_hold : String → LegalHold
a_hold k = record {
  id = "h";
  project_id = "p";
  resource_type = episode;
  resource_id = k;
  reason = "audit";
  created_by = "api_key";
  created_at = 5;
}
