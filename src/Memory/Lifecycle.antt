-- ===== src/Memory/Lifecycle.antt =====
-- memory/api.py, the handlers that change or end an episode: feedback, superseding, deletion, the
-- confidence feedback and the version history.
pub mod Supersession
pub mod Deletion
use open_graph_memory.Prelude.{
  ℕ, zero, suc, String, Bool, true, false, not, ◌&&◌, ◌||◌, Option, none, some, List, [], ◌∷◌, ◌==◌,
  is_text, is_given, contains, length, if◌then◌else◌,
}
use open_graph_memory.Prelude.Int.{ℤ, ◌+ℤ◌}
use open_graph_memory.Prelude.Results.{
  http_exception, out_of_fuel, Result, ok, err, ◌>>=◌, ◌>>◌, guard,
}
use open_graph_memory.Json.{Fields}
use open_graph_memory.Floats.{Floats}
use open_graph_memory.Rows.{Episode, EpisodeStatus, superseded, rejected, archived, Version}
use open_graph_memory.Store.{Store, put_episode, delete_episode}
use open_graph_memory.LegalHold.{check_legal_hold}
use open_graph_memory.Memory.Confidence.{
  FeedbackKind, merge, supersede, superseded_row, apply_confidence_feedback, merge_memories,
  supersede_memory, get_version_history,
}
use open_graph_memory.Memory.Service.{EpisodeView, episode_view, owned_episode}
use open_graph_memory.Memory.Episodes.Attempts.{attempts_of}

abbrev pub is_superseded : EpisodeStatus → Bool
is_superseded superseded = true
is_superseded _ = false

module _ {F : Type 0} where
  pub feedback : ℕ → Store F → String → String → ℤ → Result (EpisodeView F × Store F)
  feedback now db project episode_id score = do
    item ← owned_episode db project episode_id
    let item' = record item { feedback_score = item.feedback_score +ℤ score; updated_at = now }
    ok (episode_view item' [], put_episode item' db)

  -- The `while True` loop; each round visits another episode of the project.
  unfoldable pub walk_owned : ℕ → Store F → String → List String → Episode F → Result (Unit {0})
  walk_owned zero db project visited cursor = err out_of_fuel
  walk_owned (suc fuel) db project visited cursor =
      if contains visited cursor.id
      then err (http_exception 409 "episode supersession would create a cycle")
      else elim cursor.superseded_by_id [
        | none ↦ ok tt
        | some k ↦ elim (is_text k) [
          | false ↦ ok tt
          | true ↦ owned_episode db project k >>= walk_owned fuel db project (cursor.id ∷ visited)
        ]
      ]

  unfoldable pub supersede_episode :
      ℕ → Store F → String → String → String → Result (EpisodeView F × Store F)
  supersede_episode now db project episode_id superseding_id = do
    item ← owned_episode db project episode_id
    replacement ← owned_episode db project superseding_id
    guard (not (item.id == superseding_id))
        (http_exception 422 "an episode cannot supersede itself")
    guard (not (is_superseded item.status || is_superseded replacement.status))
        (http_exception 409 "superseded episodes cannot be superseded or reactivated")
    walk_owned (suc (length db.episodes)) db project (item.id ∷ []) replacement
    let item' = superseded_row now item superseding_id
    ok (episode_view item' [], put_episode item' db)

-- `mode in ("archive", "invalidate", "hard")`
pub data DeleteMode : Type 0 where
  archive invalidate hard : DeleteMode

abbrev pub parse_mode : String → Option DeleteMode
parse_mode s =
    if s == "archive"
    then some archive
    else if s == "invalidate"
    then some invalidate
    else if s == "hard"
    then some hard
    else none

-- any exception of the check becomes this one
abbrev pub held_or : Result (Unit {0}) → Result (Unit {0})
held_or (ok u) = ok u
held_or (err e) = err (http_exception 423 "episode is under legal hold")

module _ {F : Type 0} where
  unfoldable pub remove_episode : ℕ → Store F → String → Episode F → DeleteMode → Result (Store F)
  remove_episode now db project e archive =
      ok (put_episode (record e { status = archived; updated_at = now }) db)
  remove_episode now db project e invalidate =
      ok (put_episode (record e { status = rejected; updated_at = now }) db)
  remove_episode now db project e hard = do
    held_or (check_legal_hold db project (e.id ∷ []) [])
    ok (delete_episode e.id db)

  unfoldable pub hard_delete_episode : ℕ → Store F → String → String → String → Result (Store F)
  unfolding owned_episode remove_episode
  hard_delete_episode now db project episode_id mode = elim (parse_mode mode) [
    | none ↦ err (http_exception 400 "mode must be archive, invalidate, or hard")
    | some m ↦ do e ← owned_episode db project episode_id; remove_episode now db project e m
  ]

-- `if not body.target_id`
abbrev pub with_target : {A : Type 0} → Option String → String → (String → Result A) → Result A
with_target none detail f = err (http_exception 400 detail)
with_target (some k) detail f = if is_text k then f k else err (http_exception 400 detail)

module _ {F : Type 0} (fl : Floats F) where
  pub record ConfidenceFeedbackInput : Type 0 where
    pub kind : FeedbackKind
    pub content : Option Fields
    pub confidence : Option F
    pub target_id : Option String

  -- Only `correct` and `merge` read the given confidence.
  pub dispatch_feedback :
      ℕ
      → Store F
      → Episode F
      → FeedbackKind
      → Option Fields
      → Option F
      → Option String
      → Result (Episode F × Store F)
  dispatch_feedback now db e merge content confidence target_id =
      with_target target_id "merge requires target_id"
        (λ k. merge_memories fl now db e k content confidence)
  dispatch_feedback now db e supersede content confidence target_id =
      with_target target_id "supersede requires target_id" (supersede_memory now db e)
  dispatch_feedback now db e FeedbackKind.correct content confidence target_id =
      apply_confidence_feedback fl now db e FeedbackKind.correct content confidence
  dispatch_feedback now db e kind content confidence target_id =
      apply_confidence_feedback fl now db e kind content none

  pub apply_confidence :
      ℕ → Store F → String → String → ConfidenceFeedbackInput → Result (EpisodeView F × Store F)
  apply_confidence now db project episode_id body = do
    e ← owned_episode db project episode_id
    r ← dispatch_feedback now db e body.kind body.content body.confidence body.target_id
    ok (episode_view r.0 (attempts_of r.1.attempts r.0.id), r.1)

module _ {F : Type 0} where
  pub get_version_history_endpoint : Store F → String → String → Result (List (Version F))
  get_version_history_endpoint db project episode_id = do
    e ← owned_episode db project episode_id
    ok (get_version_history db episode_id)
