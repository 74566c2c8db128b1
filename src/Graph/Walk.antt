-- ===== src/Graph/Walk.antt =====
-- graph/service.py: the bounded walk from an entity along its relations, and the path that it found.
-- `before` is the order of the database on identifiers. A dictionary whose keys are the identifiers
-- of its rows is the list of the rows; the newest parent stands first.
pub mod Paths
pub mod Tree
pub mod Found
pub mod Bounds
use open_graph_memory.Prelude.{
  ℕ, zero, suc, ◌-◌, String, Bool, true, false, not, ◌&&◌, ◌||◌, Option, none, some, List, [], ◌∷◌,
  ◌++◌, ◌==◌, opt_eq, contains, find_row, any_row, where_rows, take, length, leb, if◌then◌else◌,
}
use open_graph_memory.Prelude.Sorting.{order_by}
use open_graph_memory.Prelude.Results.{raised, out_of_fuel, Result, ok, err, ◌>>=◌}
use open_graph_memory.Graph.Rows.{CanonicalEntity, RelationAssertion, Graph, is_scope}
use open_graph_memory.Graph.Support.{
  supported_relation, supported_entity, is_current_relation, is_current_entity,
}

-- what the loops carry
pub record Walk (F : Type 0) : Type 0 where
  pub entities : List (CanonicalEntity F)
  pub relations : List (RelationAssertion F)
  pub parents : List (String × (String × String))
  pub next_frontier : List String

-- `continue`, or the walk to which the relation is added
pub data Visit (F : Type 0) : Type 0 where
  skip : Visit F
  reach : Walk F → Visit F

abbrev pub parent_of : List (String × (String × String)) → String → Option (String × String)
parent_of [] k = none
parent_of ((j, p) ∷ ps) k = if j == k then some p else parent_of ps k

-- `new_id == target_id`, where the target may be None
unfoldable pub is_target : Option String → String → Bool
is_target target k = opt_eq target k

abbrev pub is_nil : List String → Bool
is_nil [] = true
is_nil (k ∷ ks) = false

module _ {F : Type 0} where
  abbrev pub entity_at : String → List (CanonicalEntity F) → Option (CanonicalEntity F)
  entity_at k es = find_row (λ e. e.id == k) es

  abbrev pub has_entity : List (CanonicalEntity F) → String → Bool
  has_entity es k = any_row (λ e. e.id == k) es

  abbrev pub add_entity :
      CanonicalEntity F → String → String → RelationAssertion F → Walk F → Walk F
  add_entity e new_id previous_id r w = record w {
    entities = w.entities ++ e ∷ [];
    parents = (new_id, (previous_id, r.id)) ∷ w.parents;
    next_frontier = new_id ∷ w.next_frontier;
  }

  abbrev pub add_relation : RelationAssertion F → Walk F → Walk F
  add_relation r w = record w { relations = w.relations ++ r ∷ [] }

  abbrev pub reach_entity :
      ℕ
      → List (CanonicalEntity F)
      → String
      → String
      → RelationAssertion F
      → Walk F
      → Result (Visit F)
  reach_entity node_limit candidates new_id previous_id r w =
      if has_entity w.entities new_id
      then ok (reach w)
      else if leb node_limit (length w.entities)
      then ok skip
      else elim (entity_at new_id candidates) [
        | none ↦ err (raised "KeyError")
        | some e ↦ ok (reach (add_entity e new_id previous_id r w))
      ]

  abbrev pub is_reachable : List (CanonicalEntity F) → Walk F → String → Bool
  is_reachable candidates w k = has_entity w.entities k || has_entity candidates k

  abbrev pub new_end : List String → RelationAssertion F → String
  new_end frontier r =
      if contains frontier r.source_entity_id then r.target_entity_id else r.source_entity_id

  abbrev pub previous_end : List String → RelationAssertion F → String
  previous_end frontier r =
      if contains frontier r.source_entity_id then r.source_entity_id else r.target_entity_id

  -- One relation of a level
  unfoldable pub visit_relation :
      ℕ → List (CanonicalEntity F) → List String → RelationAssertion F → Walk F → Result (Visit F)
  visit_relation node_limit candidates frontier r w =
      if is_reachable candidates w r.source_entity_id
        && is_reachable candidates w r.target_entity_id
      then reach_entity node_limit candidates (new_end frontier r) (previous_end frontier r) r w
      else ok skip

  -- The relations of a level; true where the target is reached, which ends the walk.
  unfoldable pub visit_relations :
      ℕ
      → Option String
      → List (CanonicalEntity F)
      → List String
      → List (RelationAssertion F)
      → Walk F
      → Result (Bool × Walk F)
  visit_relations node_limit target candidates frontier [] w = ok (false, w)
  visit_relations node_limit target candidates frontier (r ∷ rows) w =
      visit_relation node_limit candidates frontier r w >>= λ v. elim v [
        | skip ↦ visit_relations node_limit target candidates frontier rows w
        | reach reached ↦ elim (is_target target (new_end frontier r)) [
          | true ↦ ok (true, add_relation r reached)
          | false ↦
              visit_relations node_limit target candidates frontier rows (add_relation r reached)
        ]
      ]

  abbrev pub touches : List String → RelationAssertion F → Bool
  touches frontier r = contains frontier r.source_entity_id || contains frontier r.target_entity_id

  abbrev has_relation : List (RelationAssertion F) → String → Bool
  has_relation rs k = any_row (λ r. r.id == k) rs

module _ {F : Type 0} (before : String → String → Bool) (g : Graph F)
    (project dataset : String) where
  abbrev is_next : List String → Walk F → RelationAssertion F → Bool
  is_next frontier w r =
      is_scope project dataset r.project_id r.dataset_id
      && supported_relation g r
      && is_current_relation r
      && not (has_relation w.relations r.id)

  abbrev pub level_rows : ℕ → List String → Walk F → List (RelationAssertion F)
  level_rows relation_limit frontier w = take (relation_limit - length w.relations) (
      order_by (λ a b. before a.id b.id)
        (where_rows (touches frontier) (where_rows (is_next frontier w) g.relations)))

  abbrev ends_of_rows : List (RelationAssertion F) → List String
  ends_of_rows [] = []
  ends_of_rows (r ∷ rs) = r.source_entity_id ∷ r.target_entity_id ∷ ends_of_rows rs

  abbrev pub level_candidates : List (RelationAssertion F) → Walk F → List (CanonicalEntity F)
  level_candidates rows w =
      let candidate_ids = where_rows (λ k. not (has_entity w.entities k)) (ends_of_rows rows) in
      where_rows
        (λ (e : CanonicalEntity F).
          contains candidate_ids e.id
          && is_scope project dataset e.project_id e.dataset_id
          && supported_entity g e
          && is_current_entity e)
        g.entities

  unfoldable pub walk_levels : ℕ → ℕ → Option String → ℕ → List String → Walk F → Result (Walk F)
  walk_levels node_limit relation_limit target zero frontier w = ok w
  walk_levels node_limit relation_limit target (suc depth) frontier w =
      elim (is_nil frontier
        || leb node_limit (length w.entities)
        || leb relation_limit (length w.relations)) [
          | true ↦ ok w
          | false ↦
              let rows = level_rows relation_limit frontier w in
              visit_relations node_limit target (level_candidates rows w) frontier rows
                (record w { next_frontier = [] })
              >>= λ level. elim level.0 [
                | true ↦ ok level.1
                | false ↦
                    walk_levels node_limit relation_limit target depth level.1.next_frontier level.1
              ]
        ]

  unfoldable pub bounded_walk : CanonicalEntity F → ℕ → ℕ → ℕ → Option String → Result (Walk F)
  unfolding walk_levels
  bounded_walk root depth node_limit relation_limit target =
      walk_levels node_limit relation_limit target depth (root.id ∷ [])
        (record { entities = root ∷ []; relations = []; parents = []; next_frontier = [] })

-- Back from an entity to the source; `es` and `rs` are the lists in the order after the reversal.
unfoldable pub path_back :
    String
    → List (String × (String × String))
    → ℕ
    → String
    → List String
    → List String
    → Result (List String × List String)
path_back source parents zero current es rs = err out_of_fuel
path_back source parents (suc fuel) current es rs = elim (current == source) [
  | true ↦ ok (es, rs)
  | false ↦ elim (parent_of parents current) [
    | none ↦ err (raised "KeyError")
    | some p ↦ path_back source parents fuel p.0 (p.0 ∷ es) (p.1 ∷ rs)
  ]
]

-- The loop makes at most as many rounds as there are parents, and one that ends it.
unfoldable pub path_ids :
    String → String → List (String × (String × String)) → Result (List String × List String)
unfolding path_back
path_ids source target parents =
    if source == target then ok (source ∷ [], []) else elim (parent_of parents target) [
      | none ↦ ok ([], [])
      | some p ↦ path_back source parents (suc (length parents)) target (target ∷ []) []
    ]
