-- ===== src/Store.antt =====
-- The database of a request: its tables as lists of rows, the lookups by primary key, and the
-- writes that a commit makes. A query sees the rows in the order of their insertion. Row locks and
-- advisory locks are not modelled: a handler runs alone.
pub mod Lookup
use open_graph_memory.Prelude.{
  String, Bool, true, false, not, ◌&&◌, Option, none, List, [], ◌∷◌, map, ◌==◌, opt_eq, find_row,
  where_rows, update_rows, if◌then◌else◌,
}
use open_graph_memory.Rows.{
  Episode, Attempt, Outcome, Pattern, Verifier, Evidence, PatternMember, Version, LegalHold,
  RetentionPolicy, IdempotencyKey,
}

pub record Store (F : Type 0) : Type 0 where
  pub episodes : List (Episode F)
  pub attempts : List Attempt
  pub outcomes : List Outcome
  pub patterns : List (Pattern F)
  pub members : List PatternMember
  pub verifiers : List Verifier
  pub evidence : List Evidence
  pub versions : List (Version F)
  pub holds : List LegalHold
  pub policies : List RetentionPolicy
  pub idempotency_keys : List IdempotencyKey

-- `ON DELETE CASCADE` of the rows of an outcome, by the episode that owns it
abbrev pub of_outcomes : List Outcome → String → Bool
of_outcomes [] k = false
of_outcomes (o ∷ os) k = if o.id == k then true else of_outcomes os k

module _ {F : Type 0} where
  abbrev pub has_id : String → Episode F → Bool
  has_id k e = e.id == k

  -- `db.get(AgentMemoryEpisode, k)`
  abbrev pub get_episode : List (Episode F) → String → Option (Episode F)
  get_episode es k = find_row (has_id k) es

  -- the flush of a changed row
  abbrev pub put_episode : Episode F → Store F → Store F
  put_episode e db = record db { episodes = update_rows (has_id e.id) (λ _. e) db.episodes }

  abbrev pub has_pattern_key : String → String → Pattern F → Bool
  has_pattern_key project key p = p.project_id == project && p.pattern_key == key

  -- the pattern of a project under its key, which is unique there
  abbrev pub get_pattern : List (Pattern F) → String → String → Option (Pattern F)
  get_pattern ps project key = find_row (has_pattern_key project key) ps

  abbrev pub put_pattern : Pattern F → Store F → Store F
  put_pattern p db = record db {
    patterns = update_rows (has_pattern_key p.project_id p.pattern_key) (λ _. p) db.patterns;
  }

  -- `ON DELETE SET NULL` of `root_id` and `superseded_by_id`
  abbrev pub forget_episode : String → Episode F → Episode F
  forget_episode k e = record e {
    root_id = if opt_eq e.root_id k then none else e.root_id;
    superseded_by_id = if opt_eq e.superseded_by_id k then none else e.superseded_by_id;
  }

  -- `db.delete(episode)`, with what the foreign keys of the other tables then do
  unfoldable pub delete_episode : String → Store F → Store F
  delete_episode k db =
      let gone = where_rows (λ (o : Outcome). o.episode_id == k) db.outcomes in
      record db {
        episodes = map (forget_episode k) (where_rows (λ e. not (has_id k e)) db.episodes);
        attempts = where_rows (λ a. not (a.episode_id == k)) db.attempts;
        outcomes = where_rows (λ o. not (o.episode_id == k)) db.outcomes;
        members = where_rows (λ m. not (of_outcomes gone m.outcome_id)) db.members;
        verifiers = where_rows (λ v. not (of_outcomes gone v.outcome_id)) db.verifiers;
        evidence = where_rows (λ v. not (v.episode_id == k)) db.evidence;
        versions = where_rows (λ v. not (v.episode_id == k)) db.versions;
      }
