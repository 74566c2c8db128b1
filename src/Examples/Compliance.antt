-- ===== src/Examples/Compliance.antt =====
-- Runs of the deletion, the holds and the retention.
use open_graph_memory.Prelude.{ℕ, ◌≡◌, ◌≢◌, refl, false, some, [], ◌∷◌, any_row, find_row}
use open_graph_memory.Prelude.Results.{ok}
use open_graph_memory.Rows.{episode, archive}
use open_graph_memory.Store.{Store, delete_episode}
use open_graph_memory.Memory.Service.{owned_episode}
use open_graph_memory.Memory.Lifecycle.{hard_delete_episode, remove_episode}
use open_graph_memory.Memory.Lifecycle.Deletion.{IsDeleted, hard_delete_episode-IsDeleted}
use open_graph_memory.LegalHold.{
  LegalHoldInput, create_legal_hold, check_legal_hold, is_project_hold, is_some,
}
use open_graph_memory.LegalHold.Holds.{is_hold_on, check_legal_hold-create}
use open_graph_memory.Retention.{RetentionInput, apply_retention, held_ids}
use open_graph_memory.Retention.Respect.{IsKept, apply_retention-IsKept}
use open_graph_memory.Examples.Data.{an_episode, a_store, two_linked, a_hold}

-- `a` is held, `b` is deleted.
abbrev held_store : Store ℕ
held_store = a_store two_linked (a_hold "a" ∷ [])

hard_delete_episode-IsDeleted_example :
    (any_row (is_hold_on "p" "b") held_store.holds ≡ false)
    × (is_some (find_row (is_project_hold "p") held_store.holds) ≡ false)
    × IsDeleted "b" held_store (delete_episode "b" held_store)
unfolding hard_delete_episode remove_episode owned_episode check_legal_hold
hard_delete_episode-IsDeleted_example = hard_delete_episode-IsDeleted 9 held_store "p" "b" refl

abbrev an_input : LegalHoldInput
an_input = record { resource_type = episode; resource_id = "a"; reason = "audit" }

abbrev with_hold : Store ℕ
with_hold = record (a_store two_linked []) { holds = record (a_hold "a") { created_at = 9 } ∷ [] }

check_legal_hold-create_example : check_legal_hold with_hold "p" ("a" ∷ []) [] ≢ ok tt
unfolding create_legal_hold
check_legal_hold-create_example =
    check_legal_hold-create "h" 9 (a_store two_linked []) "p" an_input refl

abbrev old_episodes : RetentionInput
old_episodes = record { resource_type = episode; older_than_days = 1; action = archive }

apply_retention-IsKept_example :
    IsKept
      (an_episode "a" (some "b"))
      (apply_retention "pol" 100000 held_store "p" old_episodes).1.episodes
      "a"
unfolding held_ids
apply_retention-IsKept_example =
    apply_retention-IsKept "pol" 100000 held_store "p" old_episodes "a" (an_episode "a" (some "b"))
      refl refl
