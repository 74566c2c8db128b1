-- ===== src/Memory/Confidence.antt =====
-- memory/confidence.py: feedback on an episode, merging and superseding. Each function takes the
-- episode that the request holds and the store; an exception leaves both as they were.

pub mod Acyclic
pub mod Termination
pub mod Scores
pub mod Versions
pub mod MergeCycle
use open_graph_memory.Prelude.{
  ℕ, zero, suc, ◌+◌, String, not, Option, none, some, List, [], ◌∷◌, ◌++◌, ◌==◌, decimal, join,
  contains, is_text, leb, length, where_rows, if◌then◌else◌,
}
use open_graph_memory.Prelude.Int.{pos, negsuc, ◌+ℤ◌}
use open_graph_memory.Prelude.Results.{http_exception, out_of_fuel, Result, ok, err, ◌>>◌, guard}
use open_graph_memory.Json.{Fields, end, is_filled}
use open_graph_memory.Floats.{Floats, min_float, max_float}
use open_graph_memory.Rows.{Episode, Version, EpisodeStatus, degraded, superseded, rejected}
use open_graph_memory.Store.{Store, get_episode, put_episode}

pub data FeedbackKind : Type 0 where
  confirm reject correct supersede merge stale verified : FeedbackKind

-- `content or {}`
abbrev pub or_empty : Option Fields → Fields
or_empty none = end
or_empty (some fs) = fs

-- `f"ver_{episode.id}_v{episode.version}"`
pub version_id : String → ℕ → String
unfolding decimal
version_id k n = join ("ver_" ∷ k ∷ "_v" ∷ decimal n ∷ [])

module _ {F : Type 0} (fl : Floats F) where
  pub calculate_confidence : F → FeedbackKind → F
  calculate_confidence current confirm = min_float fl (fl.cents 100) (fl.add current (fl.cents 10))
  calculate_confidence current reject = fl.cents 0
  calculate_confidence current stale = max_float fl (fl.cents 0) (fl.sub current (fl.cents 20))
  calculate_confidence current verified = fl.cents 100
  calculate_confidence current _ = current

unfoldable pub get_status_for_feedback : FeedbackKind → Option EpisodeStatus
get_status_for_feedback reject = some rejected
get_status_for_feedback stale = some degraded
get_status_for_feedback _ = none

module _ {F : Type 0} where
  -- the row that keeps what the episode held before its change
  abbrev pub snapshot : Episode F → Version F
  snapshot e = record {
    id = version_id e.id e.version;
    episode_id = e.id;
    version = e.version;
    content = or_empty e.content;
    confidence = e.confidence;
  }

  abbrev pub add_version : Version F → Store F → Store F
  add_version v db = record db { versions = db.versions ++ v ∷ [] }

  -- `value if value is not None else default`
  abbrev pub given_or : Option F → F → F
  given_or none d = d
  given_or (some x) d = x

module _ {F : Type 0} (fl : Floats F) where
  -- `now` is the time of the request. Returns the changed episode and the store.
  unfoldable pub apply_confidence_feedback :
      ℕ
      → Store F
      → Episode F
      → FeedbackKind
      → Option Fields
      → Option F
      → Result (Episode F × Store F)
  unfolding calculate_confidence
  apply_confidence_feedback now db e confirm content confidence =
      let e' = record e {
        confidence = calculate_confidence fl e.confidence confirm;
        feedback_score = e.feedback_score +ℤ pos 1;
        updated_at = now;
      } in
      ok (e', put_episode e' db)
  apply_confidence_feedback now db e reject content confidence =
      let e' = record e {
        confidence = fl.cents 0;
        status = rejected;
        feedback_score = e.feedback_score +ℤ negsuc 0;
        updated_at = now;
      } in
      ok (e', put_episode e' db)
  apply_confidence_feedback now db e stale content confidence =
      let e' = record e {
        confidence = calculate_confidence fl e.confidence stale;
        status = degraded;
        updated_at = now;
      } in
      ok (e', put_episode e' db)
  apply_confidence_feedback now db e verified content confidence =
      let e' = record e {
        confidence = fl.cents 100;
        feedback_score = e.feedback_score +ℤ pos 2;
        updated_at = now;
      } in
      if is_filled content
      then ok (e', put_episode e' db)
      else err (http_exception 400 "verified feedback requires verification evidence")
  apply_confidence_feedback now db e correct content confidence =
      let e' = record e {
        content = content;
        confidence = given_or confidence e.confidence;
        version = e.version + 1;
        updated_at = now;
      } in
      if is_filled content
      then ok (e', put_episode e' (add_version (snapshot e) db))
      else err (http_exception 400 "correct feedback requires new content")
  apply_confidence_feedback now db e merge content confidence =
      err (http_exception 400 "merge requires target_id parameter")
  apply_confidence_feedback now db e supersede content confidence =
      err (http_exception 400 "supersede requires target_id parameter")

  abbrev merged : ℕ → Episode F → Episode F → Option Fields → Option F → Episode F
  merged now source target content confidence = record source {
    content = if is_filled content then content else target.content;
    confidence = given_or confidence (max_float fl source.confidence target.confidence);
    version = source.version + 1;
    updated_at = now;
  }

  abbrev merge_into :
      ℕ → Store F → Episode F → Episode F → Option Fields → Option F → Result (Episode F × Store F)
  merge_into now db source target content confidence = do
    guard (target.project_id == source.project_id)
        (http_exception 400 "target must be in same project")
    guard (target.type == source.type) (http_exception 400 "merge inputs must have the same type")
    guard (not (target.id == source.id)) (http_exception 400 "cannot merge with itself")
    let source' = merged now source target content confidence
    let target' = record target {
      status = superseded;
      superseded_by_id = some source.id;
      updated_at = now;
    }
    ok (source', put_episode target' (put_episode source' (add_version (snapshot source) db)))

  unfoldable pub merge_memories :
      ℕ → Store F → Episode F → String → Option Fields → Option F → Result (Episode F × Store F)
  merge_memories now db source target_id content confidence =
      elim (get_episode db.episodes target_id) [
        | none ↦ err (http_exception 404 "target episode not found")
        | some target ↦ merge_into now db source target content confidence
      ]

module _ {F : Type 0} where
  -- `db.get(AgentMemoryEpisode, cursor.superseded_by_id)`, and None where the id is missing
  abbrev pub successor : List (Episode F) → Episode F → Option (Episode F)
  successor es e = elim e.superseded_by_id [
    | none ↦ none
    | some k ↦ if is_text k then get_episode es k else none
  ]

  -- The `while cursor` loop. It ends without a successor, by its test or by its `break`.
  unfoldable pub walk_supersession :
      ℕ → List (Episode F) → List String → Option (Episode F) → Result (Unit {0})
  walk_supersession fuel es visited none = ok tt
  walk_supersession zero es visited (some cursor) = err out_of_fuel
  walk_supersession (suc fuel) es visited (some cursor) =
      let rest = walk_supersession fuel es (cursor.id ∷ visited) (successor es cursor) in
      if contains visited cursor.id
      then err (http_exception 400 "memory supersession would create a cycle")
      else rest

  -- `current.status, current.superseded_by_id, current.updated_at = ...`
  abbrev pub superseded_row : ℕ → Episode F → String → Episode F
  superseded_row now current k = record current {
    status = superseded;
    superseded_by_id = some k;
    updated_at = now;
  }

  -- Each round visits another episode, so their number and one round more are fuel enough.
  abbrev supersede_with :
      ℕ → Store F → Episode F → Episode F → String → Result (Episode F × Store F)
  supersede_with now db current superseding k = do
    guard (superseding.project_id == current.project_id)
        (http_exception 400 "superseding episode must be in same project")
    guard (not (superseding.id == current.id)) (http_exception 400 "cannot supersede itself")
    walk_supersession (suc (length db.episodes)) db.episodes (current.id ∷ []) (some superseding)
    let current' = superseded_row now current k
    ok (current', put_episode current' db)

  unfoldable pub supersede_memory : ℕ → Store F → Episode F → String → Result (Episode F × Store F)
  supersede_memory now db current superseding_id = elim (get_episode db.episodes superseding_id) [
    | none ↦ err (http_exception 404 "superseding episode not found")
    | some superseding ↦ supersede_with now db current superseding superseding_id
  ]

  -- `.order_by(AgentMemoryVersion.version)`
  insert_version : Version F → List (Version F) → List (Version F)
  insert_version v [] = v ∷ []
  insert_version v (w ∷ ws) =
      let rest = insert_version v ws in if leb v.version w.version then v ∷ w ∷ ws else w ∷ rest

  pub sort_versions : List (Version F) → List (Version F)
  unfolding insert_version
  sort_versions [] = []
  sort_versions (v ∷ vs) = insert_version v (sort_versions vs)

  pub get_version_history : Store F → String → List (Version F)
  unfolding sort_versions
  get_version_history db k = sort_versions (where_rows (λ v. v.episode_id == k) db.versions)
