-- ===== src/Examples/Memory.antt =====
-- Runs of the confidence lifecycle and of the handlers of episodes and patterns.
use open_graph_memory.Prelude.{List, ℕ, ◌≡◌, ◌≢◌, refl, is_given, none, some, [], ◌∷◌, true}
use open_graph_memory.Prelude.Results.{err, out_of_fuel}
use open_graph_memory.Floats.{IsUnit, hundredths, hundredths_laws}
use open_graph_memory.Json.{Fields, field, text, end}
use open_graph_memory.Store.{Store, get_pattern}
use open_graph_memory.Rows.{Episode, Pattern}
use open_graph_memory.Prelude.Int.{pos}
use open_graph_memory.Memory.Confidence.{
  confirm, correct, snapshot, supersede_memory, walk_supersession, superseded_row,
  apply_confidence_feedback, merge_memories,
}
use open_graph_memory.Memory.Confidence.Acyclic.{IsAcyclic, supersede_memory-IsAcyclic}
use open_graph_memory.Memory.Confidence.Termination.{supersede_memory_total}
use open_graph_memory.Memory.Confidence.Scores.{apply_confidence_feedback-IsUnit}
use open_graph_memory.Memory.Confidence.MergeCycle.{merge_memories-IsAcyclic, merge_memories_cycle}
use open_graph_memory.Memory.Confidence.Versions.{
  IsVersioned, apply_confidence_feedback-IsVersioned, merge_memories-IsVersioned,
}
use open_graph_memory.Memory.Service.{bayesian_confidence, is_promoted, owned_episode, pattern_view}
use open_graph_memory.Memory.Service.Probability.{bayesian_confidence-IsUnit}
use open_graph_memory.Memory.Patterns.{feedback_pattern, feedback_row}
use open_graph_memory.Memory.Patterns.Promotion.{feedback_pattern_repromotes}
use open_graph_memory.Memory.Lifecycle.{supersede_episode, walk_owned}
use open_graph_memory.Memory.Lifecycle.Supersession.{supersede_episode-IsAcyclic}
use open_graph_memory.Examples.Data.{
  an_episode, a_store, two_alone, two_linked, two_alone-IsAcyclic, a_pattern,
}

supersede_memory-IsAcyclic_example :
    IsAcyclic (superseded_row 9 (an_episode "a" none) "b" ∷ an_episode "b" none ∷ [])
unfolding supersede_memory walk_supersession
supersede_memory-IsAcyclic_example =
    supersede_memory-IsAcyclic 9 (a_store two_alone []) (an_episode "a" none) "b" refl
      two_alone-IsAcyclic

supersede_memory_total_example :
    supersede_memory 9 (a_store two_linked []) (an_episode "b" none) "a" ≢ err out_of_fuel
supersede_memory_total_example =
    supersede_memory_total 9 (a_store two_linked []) (an_episode "b" none) "a"

supersede_episode-IsAcyclic_example :
    IsAcyclic (superseded_row 9 (an_episode "a" none) "b" ∷ an_episode "b" none ∷ [])
unfolding supersede_episode walk_owned owned_episode
supersede_episode-IsAcyclic_example =
    supersede_episode-IsAcyclic 9 (a_store two_alone []) "p" "a" "b" refl two_alone-IsAcyclic

abbrev new_content : Fields
new_content = field "value" (text "w") end

-- `a` after a correction, and the store with its first version kept
abbrev corrected_row : Episode ℕ
corrected_row = record (an_episode "a" none) {
  content = some new_content;
  confidence = 70;
  version = 2;
  updated_at = 9;
}

abbrev corrected_store : Store ℕ
corrected_store = record (a_store (corrected_row ∷ an_episode "b" none ∷ []) []) {
  versions = snapshot (an_episode "a" none) ∷ [];
}

two_alone-IsVersioned : IsVersioned two_alone []
two_alone-IsVersioned = record { behind = tt; differ = tt }

apply_confidence_feedback-IsVersioned_example :
    IsVersioned corrected_store.episodes corrected_store.versions
unfolding apply_confidence_feedback
apply_confidence_feedback-IsVersioned_example =
    apply_confidence_feedback-IsVersioned hundredths 9 (a_store two_alone []) (an_episode "a" none)
      refl two_alone-IsVersioned correct (some new_content) (some 70) refl

-- `a` after `b` was merged into it
abbrev merged_row : Episode ℕ
merged_row = record (an_episode "a" none) {
  content = some new_content;
  version = 2;
  updated_at = 9;
}

abbrev merged_store : Store ℕ
merged_store = record (a_store (merged_row ∷ superseded_row 9 (an_episode "b" none) "a" ∷ []) []) {
  versions = snapshot (an_episode "a" none) ∷ [];
}

merge_memories-IsVersioned_example : IsVersioned merged_store.episodes merged_store.versions
unfolding merge_memories
merge_memories-IsVersioned_example =
    merge_memories-IsVersioned hundredths 9 (a_store two_alone []) (an_episode "a" none) refl
      two_alone-IsVersioned "b" (some new_content) none refl

merge_memories-IsAcyclic_example : IsAcyclic merged_store.episodes
unfolding merge_memories
merge_memories-IsAcyclic_example =
    merge_memories-IsAcyclic hundredths 9 (a_store two_alone []) (an_episode "a" none) "b"
      (some new_content) none refl refl two_alone-IsAcyclic

-- `a` is superseded by `b`, and the merge of `b` into `a` makes `b` superseded by `a`.
merge_memories_cycle_example : ¬ IsAcyclic (
    record merged_row { superseded_by_id = some "b" }
    ∷ superseded_row 9 (an_episode "b" none) "a"
    ∷ [])
unfolding merge_memories
merge_memories_cycle_example =
    merge_memories_cycle hundredths 9 (a_store two_linked []) (an_episode "a" (some "b")) "b"
      (some new_content) none refl refl refl refl refl

sixty : IsUnit hundredths 60
sixty = record { from_zero = refl; to_one = refl }

apply_confidence_feedback-IsUnit_example : IsUnit hundredths corrected_row.confidence
unfolding apply_confidence_feedback
apply_confidence_feedback-IsUnit_example =
    apply_confidence_feedback-IsUnit hundredths hundredths_laws 9 (a_store two_alone [])
      (an_episode "a" none) (some new_content) none confirm sixty tt refl

bayesian_confidence-IsUnit_example : IsUnit hundredths (bayesian_confidence hundredths 500 600)
bayesian_confidence-IsUnit_example =
    bayesian_confidence-IsUnit hundredths hundredths_laws 500 600 1000 refl refl

feedback_pattern_repromotes_example :
    (q : Pattern ℕ) × (get_pattern (feedback_row hundredths a_pattern (pos 1) ∷ []) "p" "key"
      ≡ some q)
    × (is_given q.superseded_by_key ≡ true)
    × (q.promoted ≡ true)
unfolding feedback_pattern pattern_view is_promoted bayesian_confidence
feedback_pattern_repromotes_example =
    feedback_pattern_repromotes hundredths (record (a_store [] []) { patterns = a_pattern ∷ [] })
      "p" "key" (pos 1) a_pattern refl refl refl refl

-- two patterns that stand alone
abbrev two_patterns : List (Pattern ℕ)
two_patterns =
    record a_pattern { pattern_key = "old"; superseded_by_key = none }
    ∷ record a_pattern { pattern_key = "new"; superseded_by_key = none }
    ∷ []
