-- ===== src/Graph/Explorer.antt =====
-- graph/service.py: the pages of the explorer, by the key of the last row of the page before. `less` is
-- the order of the database on identifiers; a query's `WHERE` selects from the ordered rows.
pub mod Sorted
pub mod Pages
use open_graph_memory.Prelude.{
  ℕ, suc, String, Bool, true, false, not, ◌&&◌, ◌||◌, Option, none, some, List, [], ◌∷◌, map, ltb,
  eqb, ◌==◌, find_row, length, take, where_rows, if◌then◌else◌,
}
use open_graph_memory.Prelude.Sorting.{order_by}
use open_graph_memory.Graph.Rows.{CanonicalEntity, RelationAssertion, Graph, is_scope}
use open_graph_memory.Graph.Support.{supported_relation, supported_entity}

module _ {A : Type 0} (less : String → String → Bool) (key : A → String) where
  abbrev pub in_order : A → A → Bool
  in_order a b = not (less (key b) (key a))

  -- `id > cursor`, where there is a cursor
  abbrev pub is_past_cursor : Option String → A → Bool
  is_past_cursor none x = true
  is_past_cursor (some c) x = less c (key x)

  abbrev pub last_key : A → List A → String
  last_key x [] = key x
  last_key x (y ∷ ys) = last_key y ys

  -- `page[-1].id if has_more and page else None`
  abbrev pub next_cursor : Bool → List A → Option String
  next_cursor has_more [] = none
  next_cursor has_more (x ∷ xs) = if has_more then some (last_key x xs) else none

  -- The page after a cursor, of one row more than it shows, and the next cursor.
  unfoldable pub keyset_page : ℕ → Option String → List A → List A × Option String
  keyset_page limit cursor table =
      let rows = take (suc limit) (where_rows (is_past_cursor cursor) (order_by in_order table)) in
      (take limit rows, next_cursor (ltb limit (length rows)) (take limit rows))

pub record ExplorerRelation (F : Type 0) : Type 0 where
  pub id : String
  pub source : String
  pub target : String
  pub type : String
  pub weight : F
  pub confidence : F

-- what the explorer reads of the tables of the analytics
pub record GraphAnalyticsRun : Type 0 where
  pub id : String
  pub project_id : String
  pub dataset_id : String
  pub created_at : ℕ

pub record GraphAnalyticsMembership : Type 0 where
  pub run_id : String
  pub entity_id : String
  pub level : ℕ
  pub community_id : String

pub record GraphAnalyticsEntityMetric (F : Type 0) : Type 0 where
  pub run_id : String
  pub entity_id : String
  pub degree : ℕ
  pub weighted_degree : F
  pub importance : F

pub record Analytics (F : Type 0) : Type 0 where
  pub runs : List GraphAnalyticsRun
  pub memberships : List GraphAnalyticsMembership
  pub metrics : List (GraphAnalyticsEntityMetric F)

pub record ExplorerNode (F : Type 0) : Type 0 where
  pub id : String
  pub canonical_name : String
  pub entity_type : String
  pub community_id : Option String
  pub degree : ℕ
  pub weighted_degree : F
  pub importance : F

abbrev community_of : Option GraphAnalyticsMembership → Option String
community_of none = none
community_of (some m) = some m.community_id

module _ {F : Type 0} where
  abbrev pub explorer_relation : RelationAssertion F → ExplorerRelation F
  explorer_relation r = record {
    id = r.id;
    source = r.source_entity_id;
    target = r.target_entity_id;
    type = r.relation_type;
    weight = r.confidence;
    confidence = r.confidence;
  }

  -- What the outer joins find: their conditions fix the primary keys of the joined rows.
  abbrev membership_of :
      Analytics F → GraphAnalyticsRun → ℕ → String → Option GraphAnalyticsMembership
  membership_of an run community_level key =
      find_row
        (λ (m : GraphAnalyticsMembership).
          (m.entity_id == key) && (m.run_id == run.id) && eqb m.level community_level)
        an.memberships

  abbrev metric_of :
      Analytics F → GraphAnalyticsRun → String → Option (GraphAnalyticsEntityMetric F)
  metric_of an run key =
      find_row (λ (m : GraphAnalyticsEntityMetric F). (m.entity_id == key) && (m.run_id == run.id))
        an.metrics

  abbrev bare_node : F → CanonicalEntity F → ExplorerNode F
  bare_node zero_score e = record {
    id = e.id;
    canonical_name = e.canonical_name;
    entity_type = e.entity_type;
    community_id = none;
    degree = 0;
    weighted_degree = zero_score;
    importance = zero_score;
  }

  abbrev with_metric : Option (GraphAnalyticsEntityMetric F) → ExplorerNode F → ExplorerNode F
  with_metric none node = node
  with_metric (some m) node = record node {
    degree = m.degree;
    weighted_degree = m.weighted_degree;
    importance = m.importance;
  }

module _ {F : Type 0} (less : String → String → Bool) (g : Graph F) (project dataset : String) where
  -- the supported relations of the dataset
  abbrev pub explorer_relations : List (RelationAssertion F)
  explorer_relations =
      where_rows
        (λ (r : RelationAssertion F).
          is_scope project dataset r.project_id r.dataset_id && supported_relation g r)
        g.relations

  unfoldable pub list_explorer_relations :
      ℕ → Option String → List (ExplorerRelation F) × Option String
  unfolding keyset_page
  list_explorer_relations limit cursor =
      let page =
        keyset_page less (λ (r : RelationAssertion F). r.id) limit cursor explorer_relations in
      (map explorer_relation page.0, page.1)

  -- the later run first, and of two at one time the one of the greater identifier
  abbrev is_later_run : GraphAnalyticsRun → GraphAnalyticsRun → Bool
  is_later_run a b =
      ltb b.created_at a.created_at || eqb a.created_at b.created_at && not (less a.id b.id)

  abbrev latest_run : List GraphAnalyticsRun → Option GraphAnalyticsRun
  latest_run runs =
      elim (order_by is_later_run (
        where_rows (λ (r : GraphAnalyticsRun). is_scope project dataset r.project_id r.dataset_id)
          runs)) [ [] ↦ none | run ∷ _ ↦ some run ]

  abbrev pub explorer_node : F → Analytics F → ℕ → CanonicalEntity F → ExplorerNode F
  explorer_node zero_score an community_level e = elim (latest_run an.runs) [
    | none ↦ bare_node zero_score e
    | some run ↦
        let community = community_of (membership_of an run community_level e.id) in
        with_metric (metric_of an run e.id)
          (record (bare_node zero_score e) { community_id = community })
  ]

  abbrev pub explorer_entities : List (CanonicalEntity F)
  explorer_entities =
      where_rows
        (λ (e : CanonicalEntity F).
          is_scope project dataset e.project_id e.dataset_id && supported_entity g e)
        g.entities

  unfoldable pub build_explorer_node_page :
      F → Analytics F → ℕ → ℕ → Option String → List (ExplorerNode F) × Option String
  unfolding keyset_page
  build_explorer_node_page zero_score an community_level limit cursor =
      let page =
        keyset_page less (λ (e : CanonicalEntity F). e.id) limit cursor explorer_entities in
      (map (explorer_node zero_score an community_level) page.0, page.1)
