-- ===== src/Graph/Gc/Exact.antt =====
-- graph/gc.py: what the cleanup of a document removes from the graph.
use open_graph_memory.Prelude.{
  String, ◌≡◌, refl, sym, ap, ◌∙◌, subst, ◌⊎◌, inl, inr, Bool, true, false, not, ◌&&◌, List, [],
  ◌∷◌, ◌++◌, map, arith, contains, where_rows, All-map, Bool-cases, if◌then◌else◌,
}
use open_graph_memory.Prelude.Members.{
  contains-append, contains-where_rows, where_rows-all, where_rows_cong, All-selected, selected_key,
  contains-map-where_rows,
}
use open_graph_memory.Prelude.Results.{integrity_error, ok, guard, >>=-eq-ok, ok_inj}
use open_graph_memory.Graph.Rows.{CanonicalEntity, RelationAssertion, GraphEvidence, Graph}
use open_graph_memory.Graph.Gc.{
  is_nonempty, is_evidence_of, entities_of, relations_of, without_evidence, without_aliases,
  is_relation_of, without_relations, source_ids, target_ids, candidate_ids, is_candidate,
  unsupported_ids, removable_ids, without_merges, without_entities, is_restricted,
  remove_unsupported, collect, affected_entities, affected_relations, before_relations,
  before_entities, cleanup_document_graph, protected_ids,
}

empty-contains : (ks : List String) (k : String) → is_nonempty ks ≡ false → contains ks k ≡ false
empty-contains [] k h = refl
empty-contains (x ∷ ks) k h = cc

module _ {F : Type 0} (project dataset document : String) where
  -- What the graph has of evidence after the cleanup of the document
  abbrev evidence_left : Graph F → List (GraphEvidence F)
  evidence_left g = where_rows (λ v. not (is_evidence_of project dataset document v)) g.evidence

  -- The relation is affected, and no evidence of it is left.
  abbrev is_lost_relation : Graph F → RelationAssertion F → Bool
  is_lost_relation g r =
      is_relation_of project dataset (affected_relations project dataset document g) r
      && not (contains (relations_of (evidence_left g)) r.id)

  -- An entity under the identifier lost direct evidence, and has neither evidence nor relations.
  abbrev IsUnsupported : Graph F → Graph F → String → Type 0
  IsUnsupported g after k =
      (contains (affected_entities project dataset document g) k ≡ true)
      × (contains (entities_of after.evidence) k ≡ false)
      × (contains (source_ids after.relations) k ≡ false)
      × (contains (target_ids after.relations) k ≡ false)

  -- The aliases are all that the second step changes.
  pub before_relations_ind :
      (P : Graph F → Type 0) (g : Graph F)
      → P (without_evidence project dataset document g)
      → ((ks : List String) (h : Graph F) → P h → P (without_aliases project dataset ks h))
      → P (before_relations project dataset document g)
  before_relations_ind P g start alias =
      go (is_nonempty (affected_entities project dataset document g))
    where
      go :
          (b : Bool)
          → P (
              if b
              then without_aliases project dataset
                  (affected_entities project dataset document g)
                  (without_evidence project dataset document g)
              else without_evidence project dataset document g)
      go true = alias _ _ start
      go false = start

  pub before_entities_ind :
      (P : Graph F → Type 0) (g : Graph F)
      → P (before_relations project dataset document g)
      → ((ks : List String) (h : Graph F) → P h → P (without_relations project dataset ks h))
      → P (before_entities project dataset document g)
  before_entities_ind P g start relation =
      go (is_nonempty (affected_relations project dataset document g)) _ start
    where
      go :
          (b : Bool) (h : Graph F)
          → P h
          → P (
              if b
              then without_relations project dataset
                  (affected_relations project dataset document g)
                  h
              else h)
      go true h p = relation _ h p
      go false h p = p

  before-evidence :
      (g : Graph F) → (before_relations project dataset document g).evidence ≡ evidence_left g
  before-evidence g = before_relations_ind (λ h. h.evidence ≡ evidence_left g) g refl (λ ks h e. e)

  before_entities-evidence :
      (g : Graph F) → (before_entities project dataset document g).evidence ≡ evidence_left g
  before_entities-evidence g =
      before_entities_ind (λ h. h.evidence ≡ evidence_left g) g (before-evidence g) (λ ks h e. e)

  before_entities-entities :
      (g : Graph F) → (before_entities project dataset document g).entities ≡ g.entities
  before_entities-entities g =
      before_entities_ind (λ h. h.entities ≡ g.entities) g
        (before_relations_ind (λ h. h.entities ≡ g.entities) g refl (λ ks h e. e)) (λ ks h e. e)

  before-relations :
      (g : Graph F) → (before_relations project dataset document g).relations ≡ g.relations
  before-relations g = before_relations_ind (λ h. h.relations ≡ g.relations) g refl (λ ks h e. e)

  -- The sets of the queries are those of the whole tables, on the rows that are asked for.
  without_relations-lost :
      (ks : List String) (g : Graph F)
      → (without_relations project dataset ks g).relations
        ≡ where_rows
            (λ r. not (
              is_relation_of project dataset ks r && not (contains (relations_of g.evidence) r.id)))
            g.relations
  without_relations-lost ks g = where_rows_cong _ _ g.relations (
      All-map
        (λ r own. ground (
          arith,
          own,
          contains-where_rows
              (contains (
                map (λ (r : RelationAssertion F). r.id)
                  (where_rows (is_relation_of project dataset ks) g.relations)))
              (relations_of g.evidence) r.id,
        ))
        g.relations (All-selected (λ r. r.id) (is_relation_of project dataset ks) g.relations))

  before_entities-relations :
      (g : Graph F)
      → (before_entities project dataset document g).relations
        ≡ where_rows (λ r. not (is_lost_relation g r)) g.relations
  before_entities-relations g =
      let affected = affected_relations project dataset document g in
      let there = before_relations project dataset document g in
      elim (Bool-cases (is_nonempty affected)) [
        | inl u ↦ rw u (
            without_relations-lost affected there ∙ λ i.
            where_rows
              (λ r. not (
                is_relation_of project dataset affected r
                && not (contains (relations_of (before-evidence g i)) r.id)))
              (before-relations g i))
        | inr u ↦ rw u (
            before-relations g
            ∙ sym (
                where_rows-all (λ r. not (is_lost_relation g r)) g.relations
                  (λ r. ground (arith, empty-contains affected r.id u))))
      ]

  -- How the last step ends.
  collect-cases :
      (candidates : List String) (g after : Graph F)
      → collect project dataset candidates g ≡ ok after
      → (after ≡ g)
        ⊎ (after
            ≡ without_entities project dataset
                (removable_ids project dataset (unsupported_ids project dataset candidates g) g)
                (without_merges project dataset (unsupported_ids project dataset candidates g) g))
  unfolding collect remove_unsupported
  collect-cases candidates g after h = elim (Bool-cases (is_nonempty candidates)) [
    | inr n ↦ inl (sym (ok_inj (rw n at h)))
    | inl c ↦
        let unsupported = unsupported_ids project dataset candidates g in
        elim (Bool-cases (is_nonempty unsupported)) [
          | inr n ↦ inl (sym (ok_inj (rw (c, n) at h)))
          | inl u ↦ elim (Bool-cases (is_nonempty (removable_ids project dataset unsupported g))) [
            | inr n ↦ inl (sym (ok_inj (rw (c, u, remove_unsupported, n) at h)))
            | inl r ↦
                let (x, checked, e) =
                  >>=-eq-ok
                    (guard
                      (not (
                        is_restricted (removable_ids project dataset unsupported g)
                          (without_merges project dataset unsupported g)))
                      integrity_error)
                    _ (rw (c, u, remove_unsupported, r) at h) in
                inr (sym (ok_inj e))
          ]
        ]
  ]

  -- An identifier that a graph's unsupported ones contain, by the sets of the queries
  pub unsupported_ids-IsUnsupported :
      (affected cited : List String) (h : Graph F) (k : String)
      → contains
          (unsupported_ids project dataset (candidate_ids project dataset affected cited h) h)
          k
        ≡ true
      → (contains affected k ≡ true)
        × (contains (entities_of h.evidence) k ≡ false)
        × (contains (source_ids h.relations) k ≡ false)
        × (contains (target_ids h.relations) k ≡ false)
  unsupported_ids-IsUnsupported affected cited h k own =
      let candidates = candidate_ids project dataset affected cited h in
      let there = where_rows (is_relation_of project dataset cited) h.relations in
      let ids =
        map (λ (e : CanonicalEntity F). e.id)
          (where_rows (is_candidate project dataset candidates) h.entities) in
      let supported = where_rows (contains ids) (entities_of h.evidence) in
      let sources = where_rows (contains ids) (source_ids h.relations) in
      let targets = where_rows (contains ids) (target_ids h.relations) in
      let both : (contains ids k
            && (not (contains supported k) && not (contains (sources ++ targets) k)))
          ≡ true =
        sym (contains-where_rows _ ids k) ∙ own in
      let member : contains ((affected ++ source_ids there) ++ target_ids there) k ≡ true =
        selected_key (λ (e : CanonicalEntity F). e.id) (is_candidate project dataset candidates)
          (contains candidates) h.entities k (λ e t. ground arith) (ground (arith, both)) in
      let from_source : contains (source_ids there) k ≡ true
          → contains (source_ids h.relations) k ≡ true =
        contains-map-where_rows (λ (r : RelationAssertion F). r.source_entity_id)
          (is_relation_of project dataset cited) h.relations k in
      let from_target : contains (target_ids there) k ≡ true
          → contains (target_ids h.relations) k ≡ true =
        contains-map-where_rows (λ (r : RelationAssertion F). r.target_entity_id)
          (is_relation_of project dataset cited) h.relations k in
      ground (
        arith,
        both,
        member,
        from_source,
        from_target,
        contains-append sources targets k,
        contains-where_rows (contains ids) (entities_of h.evidence) k,
        contains-where_rows (contains ids) (source_ids h.relations) k,
        contains-where_rows (contains ids) (target_ids h.relations) k,
        contains-append (affected ++ source_ids there) (target_ids there) k,
        contains-append affected (source_ids there) k,
      )

  -- What the cleanup has done to a graph
  pub record IsCleaned (g after : Graph F) (gone : List String) : Type 0 where
    pub entities_left :
        after.entities ≡ where_rows (λ e. not (is_candidate project dataset gone e)) g.entities
    pub gone_unsupported : (k : String) → contains gone k ≡ true → IsUnsupported g after k
    pub evidence_left_only : after.evidence ≡ evidence_left g
    pub relations_left : after.relations ≡ where_rows (λ r. not (is_lost_relation g r)) g.relations

  none-gone : (g : Graph F) → IsCleaned g (before_entities project dataset document g) []
  none-gone g = record {
    entities_left =
        before_entities-entities g
        ∙ sym (
            where_rows-all (λ e. not (is_candidate project dataset [] e)) g.entities
              (λ e. ground arith));
    gone_unsupported = λ k own. cc;
    evidence_left_only = before_entities-evidence g;
    relations_left = before_entities-relations g;
  }

  -- A cleanup of a document that succeeds removes the evidence that the document gave in its dataset
  -- and no other, the relations of the dataset that this evidence cited and of which none is left,
  -- and the entities of the dataset under some identifiers, each of which the document's evidence
  -- named directly and which neither evidence nor a relation that is left names.
  pub cleanup_document_graph-IsCleaned :
      (g after : Graph F)
      → cleanup_document_graph project dataset document g ≡ ok after
      → (gone : List String) × IsCleaned g after gone
  unfolding cleanup_document_graph
  cleanup_document_graph-IsCleaned g after done =
      let affected = affected_entities project dataset document g in
      let cited = affected_relations project dataset document g in
      let h = before_entities project dataset document g in
      let unsupported =
        unsupported_ids project dataset (candidate_ids project dataset affected cited h) h in
      elim (collect-cases (candidate_ids project dataset affected cited h) h after done) [
        | inl e ↦ ([], subst (λ z. IsCleaned g z []) (sym e) (none-gone g))
        | inr e ↦ (
          removable_ids project dataset unsupported h,
          subst (λ z. IsCleaned g z (removable_ids project dataset unsupported h)) (sym e)
              (record {
                entities_left =
                    ap
                      (where_rows (λ x. not (
                        is_candidate project dataset (removable_ids project dataset unsupported h)
                          x)))
                      (before_entities-entities g);
                gone_unsupported = λ k own. unsupported_ids-IsUnsupported affected cited h k (
                    ground (
                      arith,
                      own,
                      contains-where_rows
                          (λ j. not (contains (protected_ids project dataset unsupported h) j))
                          unsupported k,
                    ));
                evidence_left_only = before_entities-evidence g;
                relations_left = before_entities-relations g;
              }),
        )
      ]
