-- ===== src/Memory/Patterns.antt =====
-- memory/api.py, the handlers of outcomes and of the patterns that they feed.
pub mod Promotion
use open_graph_memory.Prelude.{
  ℕ, zero, suc, ◌+◌, ◌*◌, String, Bool, true, false, not, ◌&&◌, Option, none, some, List, [], ◌∷◌,
  ◌++◌, map, ◌==◌, codes, is_text, is_given, contains, ltb, leb, eqb, length, take, any_row,
  if◌then◌else◌,
}
use open_graph_memory.Prelude.Int.{ℤ, pos, negsuc}
use open_graph_memory.Prelude.Results.{
  http_exception, out_of_fuel, Result, ok, err, ◌>>=◌, ◌>>◌, guard,
}
use open_graph_memory.Json.{Fields}
use open_graph_memory.Floats.{Floats, max_float}
use open_graph_memory.Rows.{
  Episode, EpisodeStatus, superseded, rejected, Outcome, OutcomeStatus, Pattern, Verifier,
  PatternMember,
}
use open_graph_memory.Store.{Store, get_pattern, put_pattern, has_pattern_key}
use open_graph_memory.Memory.Service.{
  VerifierInput, verifier_weight, bayesian_confidence, is_promoted, PatternView, pattern_view,
  owned_episode,
}

pub record OutcomeInput : Type 0 where
  pub status : OutcomeStatus
  pub summary : String
  pub lesson : Option String
  pub verifiers : List VerifierInput
  pub metrics : Fields
  pub metadata : Fields
  pub pattern_key : Option String

pub record OutcomeView (F : Type 0) : Type 0 where
  pub id : String
  pub status : OutcomeStatus
  pub pattern : PatternView F

-- `status in {"superseded", "rejected"}`
abbrev pub is_closed : EpisodeStatus → Bool
is_closed superseded = true
is_closed rejected = true
is_closed _ = false

verifier_rows : (ℕ → String) → ℕ → String → List VerifierInput → List Verifier
verifier_rows ids n outcome_id [] = []
verifier_rows ids n outcome_id (v ∷ vs) =
    record {
      id = ids n;
      outcome_id = outcome_id;
      kind = v.kind;
      name = v.name;
      status = v.status;
      command = v.command;
      artifact_uri = v.artifact_uri;
      metrics = v.metrics;
    }
    ∷ verifier_rows ids (suc n) outcome_id vs

-- `body.pattern_key or normalize_pattern_key(...)`
abbrev pub key_or : Option String → String → String
key_or none d = d
key_or (some k) d = if is_text k then k else d

module _ {F : Type 0} (fl : Floats F) where
  new_pattern : String → String → String → Pattern F
  new_pattern k project key = record {
    id = k;
    project_id = project;
    pattern_key = key;
    verified_outcomes = 0;
    weighted_successes = fl.cents 0;
    weighted_total = fl.cents 0;
    confidence = fl.cents 50;
    promoted = false;
    superseded_by_key = none;
  }

  success_share : OutcomeStatus → F
  success_share OutcomeStatus.success = fl.cents 100
  success_share OutcomeStatus.partial = fl.cents 50
  success_share _ = fl.cents 0

  -- the confidence and the promotion that follow from the counts
  abbrev pub rescored : Pattern F → Pattern F
  rescored p =
      let confidence = bayesian_confidence fl p.weighted_successes p.weighted_total in
      record p { confidence = confidence; promoted = is_promoted fl p.verified_outcomes confidence }

  pub scored : Pattern F → F → OutcomeStatus → Pattern F
  unfolding success_share
  scored p quality status = rescored (record p {
    weighted_total = fl.add p.weighted_total quality;
    weighted_successes = fl.add p.weighted_successes (fl.mul quality (success_share status));
    verified_outcomes =
        if fl.lt (fl.cents 0) quality then p.verified_outcomes + 1 else p.verified_outcomes;
  })

  -- the pattern of the key, and the store that holds it
  abbrev found_pattern :
      String → Store F → String → String → Option (Pattern F) → Pattern F × Store F
  found_pattern k db project key (some p) = (p, db)
  found_pattern k db project key none =
      let p = new_pattern k project key in (p, record db { patterns = db.patterns ++ p ∷ [] })

  abbrev is_new : Option (Pattern F) → ℕ
  is_new none = 1
  is_new (some p) = 0

  -- `normalize` is `normalize_pattern_key`. A new pattern takes the first identifier.
  pub record_outcome :
      (String → String)
      → (ℕ → String)
      → Store F
      → String
      → String
      → OutcomeInput
      → Result (OutcomeView F × Store F)
  record_outcome normalize ids db project episode_id body = do
    episode ← owned_episode db project episode_id
    guard (not (is_closed episode.status))
        (http_exception 409 "cannot finalize a superseded or rejected episode")
    guard (not (any_row (λ (o : Outcome). o.episode_id == episode.id) db.outcomes))
        (http_exception 409 "episode already has a finalized outcome")
    let key = key_or body.pattern_key (normalize episode.problem_signature)
    let existing = get_pattern db.patterns project key
    let held = found_pattern (ids 0) db project key existing
    let pattern = scored held.0 (verifier_weight fl body.verifiers) body.status
    let n = is_new existing
    let outcome : Outcome = record {
      id = ids n;
      episode_id = episode.id;
      status = body.status;
      summary = body.summary;
      lesson = body.lesson;
      metrics = body.metrics;
      pattern_key = key;
      metadata = body.metadata;
    }
    let member : PatternMember = record { pattern_id = pattern.id; outcome_id = outcome.id }
    let db' = put_pattern pattern held.1
    ok (
      record { id = outcome.id; status = body.status; pattern = pattern_view pattern },
      record db' {
        outcomes = db.outcomes ++ outcome ∷ [];
        members = db.members ++ member ∷ [];
        verifiers = db.verifiers ++ verifier_rows ids (suc n) outcome.id body.verifiers;
      },
    )

  -- `score * 0.1` for a score of -1, 0 or 1, added to the successes
  abbrev nudged : F → ℤ → F
  nudged successes (pos n) = fl.add successes (fl.mul (fl.cents (n * 100)) (fl.cents 10))
  nudged successes (negsuc n) = fl.sub successes (fl.mul (fl.cents ((n + 1) * 100)) (fl.cents 10))

  abbrev pub feedback_row : Pattern F → ℤ → Pattern F
  feedback_row p score = rescored (record p {
    weighted_successes = max_float fl (fl.cents 0) (nudged p.weighted_successes score);
  })

  unfoldable pub feedback_pattern : Store F → String → String → ℤ → Result (PatternView F × Store F)
  feedback_pattern db project pattern_key score =
      elim (get_pattern db.patterns project pattern_key) [
        | none ↦ err (http_exception 404 "agent memory pattern not found")
        | some p ↦ let p' = feedback_row p score in ok (pattern_view p', put_pattern p' db)
      ]

module _ {F : Type 0} where
  -- The `while True` loop over the keys; each round visits another pattern of the project.
  pub walk_patterns : ℕ → List (Pattern F) → String → List String → Pattern F → Result (Unit {0})
  walk_patterns zero ps project visited cursor = err out_of_fuel
  walk_patterns (suc fuel) ps project visited cursor =
      if contains visited cursor.pattern_key
      then err (http_exception 409 "pattern supersession would create a cycle")
      else elim cursor.superseded_by_key [
        | none ↦ ok tt
        | some k ↦ elim (is_text k) [
          | false ↦ ok tt
          | true ↦ elim (get_pattern ps project k) [
            | none ↦ err (http_exception 409 "pattern supersession chain is invalid")
            | some next ↦ walk_patterns fuel ps project (cursor.pattern_key ∷ visited) next
          ]
        ]
      ]

  abbrev supersede_pattern_with :
      Store F → String → Pattern F → Pattern F → Result (PatternView F × Store F)
  supersede_pattern_with db project pattern replacement = do
    guard (not (is_given pattern.superseded_by_key) && not (is_given replacement.superseded_by_key))
        (http_exception 409 "superseded patterns cannot be superseded or re-promoted")
    walk_patterns (suc (length db.patterns)) db.patterns project (pattern.pattern_key ∷ [])
        replacement
    let pattern' = record pattern {
      promoted = false;
      superseded_by_key = some replacement.pattern_key;
    }
    ok (pattern_view replacement, put_pattern pattern' db)

  pub supersede_pattern : Store F → String → String → String → Result (PatternView F × Store F)
  supersede_pattern db project pattern_key superseding_key = do
    guard (not (pattern_key == superseding_key))
        (http_exception 422 "a pattern cannot supersede itself")
    elim (get_pattern db.patterns project pattern_key) [
      | none ↦ err (http_exception 404 "agent memory pattern not found")
      | some pattern ↦ elim (get_pattern db.patterns project superseding_key) [
        | none ↦ err (http_exception 404 "agent memory pattern not found")
        | some replacement ↦ supersede_pattern_with db project pattern replacement
      ]
    ]
