-- ===== src/Memory/Service.antt =====
-- memory/service.py: the scores of verifiers and patterns, the views, and the ownership lookup.
pub mod Probability
use open_graph_memory.Prelude.{
  ℕ, zero, suc, ◌+◌, ◌-◌, ◌≤◌, String, Bool, true, false, not, ◌&&◌, ◌||◌, Option, none, some, List,
  [], ◌∷◌, ◌++◌, map, ◌==◌, ◌≡◌, refl, arith, eq_iff, inl, inr, Option-cases, codes, codes_eq, leb,
  find_row, where_rows, if◌then◌else◌,
}
use open_graph_memory.Prelude.Int.{ℤ}
use open_graph_memory.Prelude.Results.{http_exception, Result, ok, err}
use open_graph_memory.Json.{Fields, Json}
use open_graph_memory.Floats.{Floats, min_float, max_float}
use open_graph_memory.Rows.{
  Episode, EpisodeStatus, Attempt, AttemptResult, Pattern, VerifierKind, ci, runtime, test, build,
  self_report, custom,
}
use open_graph_memory.Store.{Store, get_episode}

pub record VerifierInput : Type 0 where
  pub kind : VerifierKind
  pub name : String
  pub status : String
  pub command : Option String
  pub artifact_uri : Option String
  pub metrics : Fields

-- `status.lower() in {...}`. Lowering the ASCII letters decides it: no other character has one of
-- these letters alone for its lower case.
lower_code : ℕ → ℕ
lower_code c = if leb 65 c && leb c 90 then c + 32 else c

lower_is : String → String → Bool
unfolding lower_code
lower_is s t = codes_eq (map lower_code (codes s)) (codes t)

pub is_passing : VerifierInput → Bool
unfolding lower_is
is_passing v =
    lower_is v.status "passed" || lower_is v.status "success" || lower_is v.status "verified"

module _ {F : Type 0} (fl : Floats F) where
  kind_weight : VerifierKind → F
  kind_weight ci = fl.cents 100
  kind_weight runtime = fl.cents 100
  kind_weight test = fl.cents 60
  kind_weight build = fl.cents 60
  kind_weight self_report = fl.cents 20
  kind_weight custom = fl.cents 20

  -- `max(xs)` of a list that starts with the value at hand
  max_from : F → List F → F
  max_from m [] = m
  max_from m (x ∷ xs) = max_from (max_float fl m x) xs

  -- `max(xs, default=0.0)`
  max_or_zero : List F → F
  unfolding max_from
  max_or_zero [] = fl.cents 0
  max_or_zero (x ∷ xs) = max_from x xs

  pub verifier_weight : List VerifierInput → F
  unfolding is_passing kind_weight max_or_zero
  verifier_weight verifiers =
      max_or_zero
        (map (λ (v : VerifierInput). kind_weight v.kind) (where_rows is_passing verifiers))

  unfoldable pub bayesian_confidence : F → F → F
  bayesian_confidence successes total =
      let bounded_total = max_float fl (fl.cents 0) total in
      let bounded_successes = min_float fl bounded_total (max_float fl (fl.cents 0) successes) in
      fl.div (fl.add bounded_successes (fl.cents 100)) (fl.add bounded_total (fl.cents 200))

  unfoldable pub is_promoted : ℕ → F → Bool
  is_promoted verified_outcomes confidence =
      leb 3 verified_outcomes && fl.le (fl.cents 70) confidence

pub record AttemptView : Type 0 where
  pub id : String
  pub sequence : ℕ
  pub hypothesis : String
  pub actions : List Json
  pub result : AttemptResult
  pub notes : Option String
  pub metadata : Fields

abbrev pub attempt_view : Attempt → AttemptView
attempt_view a = record {
  id = a.id;
  sequence = a.sequence;
  hypothesis = a.hypothesis;
  actions = a.actions;
  result = a.result;
  notes = a.notes;
  metadata = a.metadata;
}

pub record EpisodeView (F : Type 0) : Type 0 where
  pub id : String
  pub project_id : String
  pub domain : String
  pub type : String
  pub title : String
  pub goal : String
  pub problem_signature : String
  pub scope : Fields
  pub tags : List String
  pub metadata : Fields
  pub content : Option Fields
  pub confidence : F
  pub version : ℕ
  pub root_id : Option String
  pub status : EpisodeStatus
  pub feedback_score : ℤ
  pub superseded_by_id : Option String
  pub attempts : List AttemptView

pub record PatternView (F : Type 0) : Type 0 where
  pub pattern_key : String
  pub verified_outcomes : ℕ
  pub weighted_successes : F
  pub weighted_total : F
  pub confidence : F
  pub promoted : Bool

module _ {F : Type 0} where
  unfoldable pub episode_view : Episode F → List Attempt → EpisodeView F
  episode_view item attempts = record {
    id = item.id;
    project_id = item.project_id;
    domain = item.domain;
    type = item.type;
    title = item.title;
    goal = item.goal;
    problem_signature = item.problem_signature;
    scope = item.scope;
    tags = item.tags;
    metadata = item.metadata;
    content = item.content;
    confidence = item.confidence;
    version = item.version;
    root_id = item.root_id;
    status = item.status;
    feedback_score = item.feedback_score;
    superseded_by_id = item.superseded_by_id;
    attempts = map attempt_view attempts;
  }

  unfoldable pub pattern_view : Pattern F → PatternView F
  pattern_view item = record {
    pattern_key = item.pattern_key;
    verified_outcomes = item.verified_outcomes;
    weighted_successes = item.weighted_successes;
    weighted_total = item.weighted_total;
    confidence = item.confidence;
    promoted = item.promoted;
  }

  -- `WHERE id = k AND project_id = project`. The id is the primary key, so one row has it at most;
  -- other projects' episodes are not seen.
  unfoldable pub owned_episode : Store F → String → String → Result (Episode F)
  owned_episode db project k = elim (get_episode db.episodes k) [
    | none ↦ err (http_exception 404 "agent memory episode not found")
    | some e ↦
        if e.project_id == project
        then ok e
        else err (http_exception 404 "agent memory episode not found")
  ]

  -- What an owned episode is: the row of the id, and the caller's.
  pub owned_episode-found :
      (db : Store F) (project k : String) (e : Episode F)
      → owned_episode db project k ≡ ok e
      → (get_episode db.episodes k ≡ some e) × (e.project_id ≡ project)
  unfolding owned_episode
  owned_episode-found db project k e h = elim (Option-cases (get_episode db.episodes k)) [
    | inl gone ↦ absurd (ground arith)
    | inr (x, found) ↦ (ground arith, ground (arith, eq_iff x.project_id project))
  ]
