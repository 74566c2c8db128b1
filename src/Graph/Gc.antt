-- ===== src/Graph/Gc.antt =====
-- graph/gc.py: the cleanup of the graph after a document's evidence is removed. A set is a list. What
-- is deleted has no evidence left, so the deletion of an entity or of a relation cascades to none.
pub mod Exact
pub mod Total
use open_graph_memory.Prelude.{
  String, Bool, true, false, not, ◌&&◌, ◌||◌, Option, none, some, List, [], ◌∷◌, ◌++◌, map, ◌==◌,
  contains, any_row, where_rows, if◌then◌else◌,
}
use open_graph_memory.Prelude.Results.{integrity_error, Result, ok, ◌>>=◌, ◌>>◌, guard}
use open_graph_memory.Graph.Rows.{
  CanonicalEntity, EntityAlias, EntityAliasEvidence, RelationAssertion, GraphEvidence,
  EntityMergeHistory, Graph, is_scope,
}

-- the values that are given
abbrev pub given : List (Option String) → List String
given [] = []
given (none ∷ rest) = given rest
given (some k ∷ rest) = k ∷ given rest

abbrev pub is_nonempty : List String → Bool
is_nonempty [] = false
is_nonempty (k ∷ ks) = true

abbrev pub is_merge_of : String → String → List String → EntityMergeHistory → Bool
is_merge_of project dataset ks m =
    is_scope project dataset m.project_id m.dataset_id
    && (contains ks m.source_entity_id || contains ks m.target_entity_id)

abbrev pub is_removable_merge : List String → EntityMergeHistory → Bool
is_removable_merge ks m = contains ks m.source_entity_id && contains ks m.target_entity_id

abbrev pub ends_of : List EntityMergeHistory → List String
ends_of [] = []
ends_of (m ∷ ms) = m.source_entity_id ∷ m.target_entity_id ∷ ends_of ms

module _ {F : Type 0} where
  abbrev pub entities_of : List (GraphEvidence F) → List String
  entities_of vs = given (map (λ v. v.entity_id) vs)

  abbrev pub relations_of : List (GraphEvidence F) → List String
  relations_of vs = given (map (λ v. v.relation_id) vs)

  abbrev evidence_ids : List (GraphEvidence F) → List String
  evidence_ids vs = map (λ v. v.id) vs

  abbrev pub source_ids : List (RelationAssertion F) → List String
  source_ids rs = map (λ r. r.source_entity_id) rs

  abbrev pub target_ids : List (RelationAssertion F) → List String
  target_ids rs = map (λ r. r.target_entity_id) rs

  -- `ON DELETE RESTRICT`: a relation or a merge refers to one of the entities
  abbrev pub is_restricted : List String → Graph F → Bool
  is_restricted ks g =
      any_row
        (λ (r : RelationAssertion F).
          contains ks r.source_entity_id || contains ks r.target_entity_id)
        g.relations
      || any_row
          (λ (m : EntityMergeHistory).
            contains ks m.source_entity_id || contains ks m.target_entity_id)
          g.merges

module _ {F : Type 0} (project dataset : String) where
  abbrev pub is_evidence_of : String → GraphEvidence F → Bool
  is_evidence_of document v =
      is_scope project dataset v.project_id v.dataset_id && v.document_id == document

  -- 1. The evidence goes, and with it the rows that tie aliases to it.
  abbrev pub without_evidence : String → Graph F → Graph F
  without_evidence document g = record g {
    evidence = where_rows (λ v. not (is_evidence_of document v)) g.evidence;
    alias_evidence =
        where_rows
          (λ (x : EntityAliasEvidence). not (
            contains (evidence_ids (where_rows (is_evidence_of document) g.evidence))
              x.evidence_id))
          g.alias_evidence;
  }

  abbrev is_alias_of : List String → EntityAlias F → Bool
  is_alias_of ks a = is_scope project dataset a.project_id a.dataset_id && contains ks a.entity_id

  -- 2. The aliases of the affected entities that have no evidence
  abbrev pub without_aliases : List String → Graph F → Graph F
  without_aliases affected g =
      let alias_ids =
        map (λ (a : EntityAlias F). a.id) (where_rows (is_alias_of affected) g.aliases) in
      let supported_ids =
        where_rows (contains alias_ids)
          (map (λ (x : EntityAliasEvidence). x.alias_id) g.alias_evidence) in
      record g {
        aliases =
            where_rows (λ a. not (is_alias_of affected a && not (contains supported_ids a.id)))
              g.aliases;
      }

  abbrev pub is_relation_of : List String → RelationAssertion F → Bool
  is_relation_of ks r = is_scope project dataset r.project_id r.dataset_id && contains ks r.id

  -- 3. The affected relations that have no evidence
  abbrev pub without_relations : List String → Graph F → Graph F
  without_relations affected g =
      let rel_ids =
        map (λ (r : RelationAssertion F). r.id)
          (where_rows (is_relation_of affected) g.relations) in
      let supported_ids = where_rows (contains rel_ids) (relations_of g.evidence) in
      record g {
        relations =
            where_rows (λ r. not (is_relation_of affected r && not (contains supported_ids r.id)))
              g.relations;
      }

  -- the affected entities, and the ends of the affected relations that are there
  abbrev pub candidate_ids : List String → List String → Graph F → List String
  candidate_ids affected affected_relations g =
      let there = where_rows (is_relation_of affected_relations) g.relations in
      affected ++ source_ids there ++ target_ids there

  abbrev pub is_candidate : List String → CanonicalEntity F → Bool
  is_candidate ks e = is_scope project dataset e.project_id e.dataset_id && contains ks e.id

  -- the candidates with neither evidence nor relations
  abbrev pub unsupported_ids : List String → Graph F → List String
  unsupported_ids candidates g =
      let ids =
        map (λ (e : CanonicalEntity F). e.id) (where_rows (is_candidate candidates) g.entities) in
      let supported = where_rows (contains ids) (entities_of g.evidence) in
      let related =
        where_rows (contains ids) (source_ids g.relations)
        ++ where_rows (contains ids) (target_ids g.relations) in
      where_rows (λ k. not (contains supported k) && not (contains related k)) ids

  -- the entities that a merge links to a survivor
  abbrev pub protected_ids : List String → Graph F → List String
  protected_ids unsupported g = ends_of (
      where_rows (λ m. not (is_removable_merge unsupported m))
        (where_rows (is_merge_of project dataset unsupported) g.merges))

  abbrev pub removable_ids : List String → Graph F → List String
  removable_ids unsupported g =
      where_rows (λ k. not (contains (protected_ids unsupported g) k)) unsupported

  abbrev pub without_merges : List String → Graph F → Graph F
  without_merges unsupported g = record g {
    merges =
        where_rows
          (λ m. not (is_merge_of project dataset unsupported m && is_removable_merge unsupported m))
          g.merges;
  }

  -- `ON DELETE CASCADE` from an entity to its aliases, and from those to their evidence
  abbrev pub without_entities : List String → Graph F → Graph F
  without_entities ks g = record g {
    entities = where_rows (λ e. not (is_candidate ks e)) g.entities;
    aliases = where_rows (λ (a : EntityAlias F). not (contains ks a.entity_id)) g.aliases;
    alias_evidence =
        where_rows
          (λ (x : EntityAliasEvidence). not (
            contains
              (map (λ (a : EntityAlias F). a.id)
                (where_rows (λ (a : EntityAlias F). contains ks a.entity_id) g.aliases))
              x.alias_id))
          g.alias_evidence;
  }

  unfoldable pub remove_unsupported : List String → Graph F → Result (Graph F)
  remove_unsupported unsupported g =
      if is_nonempty (removable_ids unsupported g)
      then guard (not (is_restricted (removable_ids unsupported g) (without_merges unsupported g)))
          integrity_error
        >> ok (without_entities (removable_ids unsupported g) (without_merges unsupported g))
      else ok g

  -- 4. The entities that have lost everything
  unfoldable pub collect : List String → Graph F → Result (Graph F)
  unfolding remove_unsupported
  collect candidates g =
      if is_nonempty candidates
      then if is_nonempty (unsupported_ids candidates g)
        then remove_unsupported (unsupported_ids candidates g) g
        else ok g
      else ok g

  abbrev pub affected_entities : String → Graph F → List String
  affected_entities document g = entities_of (where_rows (is_evidence_of document) g.evidence)

  abbrev pub affected_relations : String → Graph F → List String
  affected_relations document g = relations_of (where_rows (is_evidence_of document) g.evidence)

  -- The graph when the relations are looked at, and when the entities are.
  abbrev pub before_relations : String → Graph F → Graph F
  before_relations document g =
      let ks = affected_entities document g in
      if is_nonempty ks
      then without_aliases ks (without_evidence document g)
      else without_evidence document g

  abbrev pub before_entities : String → Graph F → Graph F
  before_entities document g =
      let rs = affected_relations document g in
      if is_nonempty rs
      then without_relations rs (before_relations document g)
      else before_relations document g

  unfoldable pub cleanup_document_graph : String → Graph F → Result (Graph F)
  unfolding collect
  cleanup_document_graph document g =
      let g3 = before_entities document g in
      collect (candidate_ids (affected_entities document g) (affected_relations document g) g3) g3
