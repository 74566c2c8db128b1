-- ===== src/LegalHold.antt =====
-- legal_hold.py: holds on resources, and the check that a deletion makes. `new_id` is `hold_id()`
-- of the request, `now` its time.
pub mod Holds
use open_graph_memory.Prelude.{
  join, ℕ, ◌≤◌, String, Bool, true, false, not, ◌&&◌, ◌||◌, Option, none, some, List, [], ◌∷◌, ◌++◌,
  ◌==◌, contains, leb, length, take, drop, find_row, where_rows, if◌then◌else◌,
}
use open_graph_memory.Prelude.Results.{http_exception, Result, ok, err, ◌>>=◌, ◌>>◌, guard}
use open_graph_memory.Prelude.Sorting.{order_by}
use open_graph_memory.Rows.{Episode, LegalHold, ResourceType, episode, memory, entity, project}
use open_graph_memory.Store.{Store, has_id}

pub record LegalHoldInput : Type 0 where
  pub resource_type : ResourceType
  pub resource_id : String
  pub reason : String

abbrev pub type_eq : ResourceType → ResourceType → Bool
type_eq episode episode = true
type_eq memory memory = true
type_eq entity entity = true
type_eq project project = true
type_eq _ _ = false

abbrev pub is_hold : String → ResourceType → String → LegalHold → Bool
is_hold owner t k h = h.project_id == owner && type_eq h.resource_type t && h.resource_id == k

abbrev pub is_project_hold : String → LegalHold → Bool
is_project_hold owner h = h.project_id == owner && type_eq h.resource_type project

abbrev pub is_some : {A : Type 0} → Option A → Bool
is_some none = false
is_some (some a) = true

abbrev pub is_listed : {A : Type 0} → List A → Bool
is_listed [] = false
is_listed (x ∷ xs) = true

abbrev pub hold_row : String → String → LegalHold → Bool
hold_row k owner h = h.id == k && h.project_id == owner

-- `resource_types` is None or empty where every type counts
abbrev of_types : List ResourceType → ResourceType → Bool
of_types [] t = false
of_types (s ∷ ss) t = type_eq s t || of_types ss t

abbrev is_wanted_type : List ResourceType → ResourceType → Bool
is_wanted_type [] t = true
is_wanted_type (s ∷ ss) t = of_types (s ∷ ss) t

abbrev is_of_type : Option ResourceType → LegalHold → Bool
is_of_type none h = true
is_of_type (some t) h = type_eq h.resource_type t

abbrev type_text : ResourceType → String
type_text episode = "episode"
type_text memory = "memory"
type_text entity = "entity"
type_text project = "project"

-- the parts of `", ".join(f"{h.resource_type}:{h.resource_id}" for h in holds)`
abbrev resource_list : List LegalHold → List String
resource_list [] = []
resource_list (h ∷ []) = type_text h.resource_type ∷ ":" ∷ h.resource_id ∷ []
resource_list (h ∷ x ∷ hs) =
    type_text h.resource_type ∷ ":" ∷ h.resource_id ∷ ", " ∷ resource_list (x ∷ hs)

abbrev is_looked_for : String → List String → List ResourceType → LegalHold → Bool
is_looked_for owner resource_ids resource_types h =
    h.project_id == owner
    && contains resource_ids h.resource_id
    && is_wanted_type resource_types h.resource_type

module _ {F : Type 0} where
  abbrev owns_episode : Store F → String → String → Bool
  owns_episode db owner k =
      is_some (find_row (λ (e : Episode F). has_id k e && e.project_id == owner) db.episodes)

  abbrev is_missing_episode : Store F → String → LegalHoldInput → Bool
  is_missing_episode db owner body =
      type_eq body.resource_type episode && not (owns_episode db owner body.resource_id)

  -- The view of a hold is the hold.
  unfoldable pub create_legal_hold :
      String → ℕ → Store F → String → LegalHoldInput → Result (LegalHold × Store F)
  create_legal_hold new_id now db owner body = do
    guard (not (is_some (find_row (is_hold owner body.resource_type body.resource_id) db.holds)))
        (http_exception 409 "legal hold already exists for this resource")
    guard (not (is_missing_episode db owner body)) (http_exception 404 "episode not found")
    let item : LegalHold = record {
      id = new_id;
      project_id = owner;
      resource_type = body.resource_type;
      resource_id = body.resource_id;
      reason = body.reason;
      created_by = "api_key";
      created_at = now;
    }
    ok (item, record db { holds = db.holds ++ item ∷ [] })

  pub get_legal_hold : Store F → String → String → Result LegalHold
  get_legal_hold db owner k = elim (find_row (hold_row k owner) db.holds) [
    | none ↦ err (http_exception 404 "legal hold not found")
    | some h ↦ ok h
  ]

  pub delete_legal_hold : Store F → String → String → Result (Store F)
  delete_legal_hold db owner k = elim (find_row (hold_row k owner) db.holds) [
    | none ↦ err (http_exception 404 "legal hold not found")
    | some h ↦
        ok (record db { holds = where_rows (λ (x : LegalHold). not (x.id == h.id)) db.holds })
  ]

  -- No identifiers to look for find no hold.
  unfoldable pub check_legal_hold :
      Store F → String → List String → List ResourceType → Result (Unit {0})
  check_legal_hold db owner resource_ids resource_types = do
    guard (not (is_some (find_row (is_project_hold owner) db.holds)))
        (http_exception 423 (join ("project is under legal hold: project:" ∷ owner ∷ [])))
    let holds = where_rows (is_looked_for owner resource_ids resource_types) db.holds
    guard (not (is_listed holds))
        (http_exception 423 (join ("resources are under legal hold: " ∷ resource_list holds)))

  -- The page, and the number of all rows that the query has.
  pub list_legal_holds : Store F → String → Option ResourceType → ℕ → ℕ → List LegalHold × ℕ
  list_legal_holds db owner resource_type limit offset =
      let rows =
        where_rows (λ (h : LegalHold). h.project_id == owner && is_of_type resource_type h)
          db.holds in
      let latest_first = λ (a b : LegalHold). leb b.created_at a.created_at in
      (take limit (drop offset (order_by latest_first rows)), length rows)
