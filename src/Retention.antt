-- ===== src/Retention.antt =====
-- retention.py: episodes past an age are archived or deleted, held ones left alone. `now` is the
-- time of the request in seconds, `new_id` its `policy_id()`.
pub mod Respect
use open_graph_memory.Prelude.{
  ℕ, ◌+◌, ◌*◌, ◌<◌, String, Bool, true, false, not, ◌&&◌, ◌||◌, Option, none, some, List, [], ◌∷◌,
  ◌++◌, map, ◌==◌, contains, ltb, leb, length, take, find_row, where_rows, if◌then◌else◌,
}
use open_graph_memory.Prelude.Sorting.{order_by}
use open_graph_memory.Rows.{
  Episode, EpisodeStatus, open_status, active, superseded, rejected, archived, LegalHold, episode,
  memory, ResourceType, RetentionPolicy, RetentionAction, archive, delete, PolicyStatus,
}
use open_graph_memory.Rows
use open_graph_memory.Store.{Store, put_episode, delete_episode}
use open_graph_memory.LegalHold.{type_eq, is_project_hold, is_some}

pub record RetentionInput : Type 0 where
  pub resource_type : ResourceType
  pub older_than_days : ℕ
  pub action : RetentionAction

-- `status IN ('active', 'open')`, or `status IN ('archived', 'superseded', 'rejected')`
abbrev pub has_status : RetentionAction → EpisodeStatus → Bool
has_status archive active = true
has_status archive open_status = true
has_status archive _ = false
has_status delete archived = true
has_status delete superseded = true
has_status delete rejected = true
has_status delete _ = false

-- `created_at < now - days`, written without a subtraction
abbrev pub is_older : ℕ → ℕ → ℕ → Bool
is_older now days created = ltb (created + days * 86400) now

module _ {F : Type 0} where
  abbrev pub is_eligible : ℕ → String → RetentionInput → Episode F → Bool
  is_eligible now owner body e =
      e.project_id == owner
      && is_older now body.older_than_days e.created_at
      && has_status body.action e.status

  -- The eligible episodes, a hundred at most, and their number on the page.
  pub preview_retention : ℕ → Store F → String → RetentionInput → ℕ × List (Episode F)
  preview_retention now db owner body =
      let items = take 100 (where_rows (is_eligible now owner body) db.episodes) in
      (length items, items)

abbrev status_eq : PolicyStatus → PolicyStatus → Bool
status_eq PolicyStatus.active PolicyStatus.active = true
status_eq PolicyStatus.paused PolicyStatus.paused = true
status_eq PolicyStatus.completed PolicyStatus.completed = true
status_eq _ _ = false

abbrev is_wanted_status : Option PolicyStatus → RetentionPolicy → Bool
is_wanted_status none p = true
is_wanted_status (some wanted) p = status_eq wanted p.status

abbrev is_episode_hold : String → LegalHold → Bool
is_episode_hold owner h =
    h.project_id == owner && (type_eq h.resource_type episode || type_eq h.resource_type memory)

pub hold_ids : List LegalHold → List String
hold_ids [] = []
hold_ids (h ∷ hs) = h.resource_id ∷ hold_ids hs

unfoldable pub held_ids : String → List LegalHold → List String
unfolding hold_ids
held_ids owner hs = hold_ids (where_rows (is_episode_hold owner) hs)

abbrev policy_row : String → ℕ → String → RetentionInput → RetentionPolicy
policy_row new_id now owner body = record {
  id = new_id;
  project_id = owner;
  resource_type = body.resource_type;
  older_than_days = body.older_than_days;
  action = body.action;
  status = PolicyStatus.completed;
  created_by = "api_key";
  created_at = now;
}

module _ {F : Type 0} where
  -- what happens to one episode that is not held
  pub retire : RetentionAction → ℕ → Episode F → Store F → Store F
  retire archive now e db = put_episode (record e { status = archived; updated_at = now }) db
  retire delete now e db = delete_episode e.id db

  -- The loop over the eligible episodes, with the count of the affected ones.
  pub retire_all : RetentionAction → ℕ → List String → List (Episode F) → ℕ → Store F → ℕ × Store F
  retire_all action now held [] affected db = (affected, db)
  retire_all action now held (e ∷ es) affected db =
      let is_held = contains held e.id in
      retire_all action now held es (if is_held then affected else affected + 1)
        (if is_held then db else retire action now e db)

  abbrev add_policy : RetentionPolicy → Store F → Store F
  add_policy p db = record db { policies = db.policies ++ p ∷ [] }

  -- The policy row is added as active and is completed before the only commit.
  pub apply_retention : String → ℕ → Store F → String → RetentionInput → ℕ × Store F
  apply_retention new_id now db owner body =
      let db' = add_policy (policy_row new_id now owner body) db in
      if is_some (find_row (is_project_hold owner) db.holds)
      then (0, db')
      else retire_all body.action now (held_ids owner db.holds)
          (where_rows (is_eligible now owner body) db.episodes) 0 db'

  -- The policies of the project, the latest first; a view has all columns of the row.
  pub list_retention_policies : Store F → String → Option PolicyStatus → List RetentionPolicy
  list_retention_policies db owner status =
      order_by (λ (a b : RetentionPolicy). leb b.created_at a.created_at)
        (where_rows (λ (p : RetentionPolicy). p.project_id == owner && is_wanted_status status p)
          db.policies)
