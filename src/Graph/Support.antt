-- ===== src/Graph/Support.antt =====
-- graph/helpers.py, and `temporal_filter` and the scoped lookups of graph/service.py: which entities
-- and relations a query of the graph may show.
use open_graph_memory.Prelude.{
  ℕ, String, Bool, true, false, not, ◌&&◌, ◌||◌, Option, none, some, ◌==◌, opt_eq, ltb, leb,
  any_row, find_row, codes, starts_codes, join, if◌then◌else◌, List.◌∷◌, List.[],
}
use open_graph_memory.Prelude.Results.{http_exception, Result, ok, err}
use open_graph_memory.Graph.Rows.{
  ReviewState, approved, rejected, CanonicalEntity, RelationAssertion, GraphEvidence, Graph,
  is_scope,
}

abbrev is_rejected : ReviewState → Bool
is_rejected rejected = true
is_rejected _ = false

abbrev is_approved : ReviewState → Bool
is_approved approved = true
is_approved _ = false

abbrev is_missing : {A : Type 0} → Option A → Bool
is_missing none = true
is_missing (some a) = false

-- `valid_until IS NULL OR valid_until > as_of`
abbrev is_after : Option ℕ → ℕ → Bool
is_after none as_of = true
is_after (some t) as_of = ltb as_of t

-- `temporal_filter` on the columns of a row of either table
abbrev pub temporal_filter : Option ℕ → Bool → ℕ → Option ℕ → Option String → Bool
temporal_filter as_of true valid_from valid_until superseded_by = true
temporal_filter (some t) false valid_from valid_until superseded_by =
    leb valid_from t && is_after valid_until t
temporal_filter none false valid_from valid_until superseded_by =
    is_missing valid_until && is_missing superseded_by

module _ {F : Type 0} where
  unfoldable pub supported_relation : Graph F → RelationAssertion F → Bool
  supported_relation g r =
      not (is_rejected r.review_state)
      && (is_approved r.review_state
          || any_row (λ (v : GraphEvidence F). opt_eq v.relation_id r.id) g.evidence)

  -- the ends of a relation that evidence cites and no review rejected
  abbrev is_cited_end : Graph F → String → RelationAssertion F → Bool
  is_cited_end g k r =
      any_row (λ (v : GraphEvidence F). opt_eq v.relation_id r.id) g.evidence
      && not (is_rejected r.review_state)
      && (r.source_entity_id == k || r.target_entity_id == k)

  unfoldable pub supported_entity : Graph F → CanonicalEntity F → Bool
  supported_entity g e =
      not (is_rejected e.review_state)
      && (is_approved e.review_state
          || any_row (λ (v : GraphEvidence F). opt_eq v.entity_id e.id) g.evidence
          || any_row (is_cited_end g e.id) g.relations)

  abbrev pub is_current_entity : CanonicalEntity F → Bool
  is_current_entity e = temporal_filter none false e.valid_from e.valid_until e.superseded_by

  abbrev pub is_current_relation : RelationAssertion F → Bool
  is_current_relation r = temporal_filter none false r.valid_from r.valid_until r.superseded_by

  abbrev or_not_found : Option (CanonicalEntity F) → Result (CanonicalEntity F)
  or_not_found none = err (http_exception 404 "entity not found")
  or_not_found (some e) = ok e

  pub scoped_entity : Graph F → String → String → Result (CanonicalEntity F)
  unfolding supported_entity
  scoped_entity g project k =
      or_not_found
        (find_row (λ e. e.id == k && e.project_id == project && supported_entity g e) g.entities)

  unfoldable pub scoped_dataset_entity :
      Graph F → String → String → String → Result (CanonicalEntity F)
  unfolding supported_entity
  scoped_dataset_entity g project dataset k = or_not_found (
      find_row
        (λ e.
          e.id == k && is_scope project dataset e.project_id e.dataset_id && supported_entity g e)
        g.entities)

-- the identifier with its prefix
pub normalize_dataset_id : String → String
normalize_dataset_id k = if starts_codes (codes "ds_") (codes k) then k else join ("ds_" ∷ k ∷ [])
