-- ===== src/Graph/Gc/Total.antt =====
-- graph/gc.py: the foreign keys that restrict the deletion of an entity.
use open_graph_memory.Prelude.{
  String, ◌≡◌, refl, inl, inr, Bool, true, false, not, ◌&&◌, ◌||◌, List, [], ◌∷◌, map, arith,
  contains, where_rows, any_row, All, All-map, Bool-cases, if◌then◌else◌, ==_refl,
}
use open_graph_memory.Prelude.Members.{
  contains-where_rows, contains_of_where_rows, contains-where_rows_mono, any_row-false,
  any_row-where_rows, All-own, All-both,
}
use open_graph_memory.Prelude.Results.{ok}
use open_graph_memory.Graph.Rows.{
  CanonicalEntity, RelationAssertion, EntityMergeHistory, Graph, is_scope,
}
use open_graph_memory.Graph.Gc.{
  is_nonempty, source_ids, target_ids, candidate_ids, is_candidate, is_merge_of, is_removable_merge,
  ends_of, unsupported_ids, removable_ids, without_merges, without_entities, is_restricted,
  remove_unsupported, collect, affected_entities, affected_relations, before_entities,
  cleanup_document_graph, protected_ids,
}
use open_graph_memory.Graph.Gc.Exact.{
  before_relations_ind, before_entities_ind, unsupported_ids-IsUnsupported,
}

-- The ends of a merge that two tests select are among the ends of the selected ones.
abbrev HasEnds :
    (EntityMergeHistory → Bool)
    → (EntityMergeHistory → Bool)
    → List String
    → EntityMergeHistory
    → Type 0
HasEnds p q ks m =
    q m ≡ true
    → p m ≡ true
    → (contains ks m.source_entity_id && contains ks m.target_entity_id) ≡ true

add_ends :
    (p q : EntityMergeHistory → Bool) (x : EntityMergeHistory) (ms found : List EntityMergeHistory)
    (c : Bool)
    → p x ≡ c
    → All (HasEnds p q (ends_of found)) ms
    → All (HasEnds p q (ends_of (if c then x ∷ found else found))) (x ∷ ms)
add_ends p q x ms found false d rest = ((λ i j. cc), rest)
add_ends p q x ms found true d rest = (
  (λ i j. rw (==_refl x.source_entity_id, ==_refl x.target_entity_id) (ground arith)),
  All-map (λ m own i j. ground (arith, own i j)) ms rest,
)

All-ends :
    (p q : EntityMergeHistory → Bool) (ms : List EntityMergeHistory)
    → All (HasEnds p q (ends_of (where_rows p (where_rows q ms)))) ms
All-ends p q [] = tt
All-ends p q (x ∷ ms) = go (q x) refl (All-ends p q ms)
  where
    go :
        (b : Bool)
        → q x ≡ b
        → All (HasEnds p q (ends_of (where_rows p (where_rows q ms)))) ms
        → All
            (HasEnds p q
              (ends_of (where_rows p (if b then x ∷ where_rows q ms else where_rows q ms))))
            (x ∷ ms)
    go false e rest = ((λ i j. cc), rest)
    go true e rest = add_ends p q x ms (where_rows p (where_rows q ms)) (p x) refl rest

module _ {F : Type 0} (project dataset document : String) where
  abbrev ids_in_scope : Graph F → List String
  ids_in_scope g =
      map (λ (e : CanonicalEntity F). e.id)
        (where_rows (λ (e : CanonicalEntity F). is_scope project dataset e.project_id e.dataset_id)
          g.entities)

  -- A merge that names an entity of the dataset belongs to the dataset.
  abbrev pub MergesAreScoped : Graph F → Type 0
  MergesAreScoped g =
      All
        (λ (m : EntityMergeHistory).
          (contains (ids_in_scope g) m.source_entity_id
              || contains (ids_in_scope g) m.target_entity_id)
            ≡ true
          → is_scope project dataset m.project_id m.dataset_id ≡ true)
        g.merges

  no_relation :
      (ks : List String) (rs : List (RelationAssertion F))
      → ((k : String)
          → contains ks k ≡ true
          → (contains (source_ids rs) k || contains (target_ids rs) k) ≡ false)
      → any_row
          (λ (r : RelationAssertion F).
            contains ks r.source_entity_id || contains ks r.target_entity_id)
          rs
        ≡ false
  no_relation ks rs free = any_row-false _ rs (
      All-map
        (λ r own. ground (arith, own.0, own.1, free r.source_entity_id, free r.target_entity_id)) rs
        (All-both _ _ rs (All-own (λ (r : RelationAssertion F). r.source_entity_id) rs)
          (All-own (λ (r : RelationAssertion F). r.target_entity_id) rs)))

  no_merge :
      (unsupported : List String) (h : Graph F)
      → ((k : String) → contains unsupported k ≡ true → contains (ids_in_scope h) k ≡ true)
      → MergesAreScoped h
      → any_row
          (λ (m : EntityMergeHistory).
            contains (removable_ids project dataset unsupported h) m.source_entity_id
            || contains (removable_ids project dataset unsupported h) m.target_entity_id)
          (without_merges project dataset unsupported h).merges
        ≡ false
  no_merge unsupported h found scoped = any_row-where_rows _ _ h.merges (
      All-map
        (λ m own kept. ground (
          arith,
          kept,
          own.0,
          own.1,
          found m.source_entity_id,
          found m.target_entity_id,
          contains-where_rows (λ k. not (contains (protected_ids project dataset unsupported h) k))
              unsupported m.source_entity_id,
          contains-where_rows (λ k. not (contains (protected_ids project dataset unsupported h) k))
              unsupported m.target_entity_id,
        ))
        h.merges
        (All-both _ _ h.merges scoped (
          All-ends (λ m. not (is_removable_merge unsupported m))
            (is_merge_of project dataset unsupported) h.merges)))

  unsupported-found :
      (affected cited : List String) (h : Graph F) (k : String)
      → contains
          (unsupported_ids project dataset (candidate_ids project dataset affected cited h) h)
          k
        ≡ true
      → contains (ids_in_scope h) k ≡ true
  unsupported-found affected cited h k own =
      let candidates = candidate_ids project dataset affected cited h in
      let ids =
        map (λ (e : CanonicalEntity F). e.id)
          (where_rows (is_candidate project dataset candidates) h.entities) in
      let member : contains ids k ≡ true = contains_of_where_rows _ ids k own in
      contains-where_rows_mono (λ (e : CanonicalEntity F). e.id)
        (is_candidate project dataset candidates)
        (λ (e : CanonicalEntity F). is_scope project dataset e.project_id e.dataset_id) h.entities k
        (λ e t. ground arith) member

  not_restricted :
      (affected cited : List String) (h : Graph F)
      → MergesAreScoped h
      → let unsupported =
          unsupported_ids project dataset (candidate_ids project dataset affected cited h) h in
        is_restricted
          (removable_ids project dataset unsupported h)
          (without_merges project dataset unsupported h)
        ≡ false
  not_restricted affected cited h scoped =
      let unsupported =
        unsupported_ids project dataset (candidate_ids project dataset affected cited h) h in
      let relations =
        no_relation (removable_ids project dataset unsupported h) h.relations (λ k own.
          let gone : contains unsupported k ≡ true = ground (
            arith,
            own,
            contains-where_rows
                (λ j. not (contains (protected_ids project dataset unsupported h) j)) unsupported k,
          ) in
          let (a, b, c, d) =
            unsupported_ids-IsUnsupported project dataset document affected cited h k gone in
          rw (c, d) refl) in
      let merges = no_merge unsupported h (unsupported-found affected cited h) scoped in
      rw (relations, merges) refl

  collect_total :
      (affected cited : List String) (h : Graph F)
      → MergesAreScoped h
      → (after : Graph F) × (collect project dataset
            (candidate_ids project dataset affected cited h)
            h
          ≡ ok after)
  unfolding collect remove_unsupported
  collect_total affected cited h scoped =
      let candidates = candidate_ids project dataset affected cited h in
      let unsupported = unsupported_ids project dataset candidates h in
      elim (Bool-cases (is_nonempty candidates)) [
        | inr n ↦ (h, rw n refl)
        | inl c ↦ elim (Bool-cases (is_nonempty unsupported)) [
          | inr n ↦ (h, rw (c, n) refl)
          | inl u ↦ elim (Bool-cases (is_nonempty (removable_ids project dataset unsupported h))) [
            | inr n ↦ (h, rw (c, u, remove_unsupported, n) refl)
            | inl r ↦ (
              without_entities project dataset (removable_ids project dataset unsupported h)
                  (without_merges project dataset unsupported h),
              rw (c, u, remove_unsupported, r, not_restricted affected cited h scoped) refl,
            )
          ]
        ]
      ]

  -- If each merge that names an entity of the dataset belongs to the dataset, no foreign key refuses
  -- the cleanup: every entity that it deletes has no relation left, and its merges are deleted first.
  pub cleanup_document_graph_total :
      (g : Graph F)
      → MergesAreScoped g
      → (after : Graph F) × (cleanup_document_graph project dataset document g ≡ ok after)
  unfolding cleanup_document_graph
  cleanup_document_graph_total g scoped =
      collect_total (affected_entities project dataset document g)
        (affected_relations project dataset document g) (before_entities project dataset document g)
        (before_entities_ind project dataset document MergesAreScoped g
          (before_relations_ind project dataset document MergesAreScoped g scoped (λ ks h own. own))
          (λ ks h own. own))
