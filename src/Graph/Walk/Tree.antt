-- ===== src/Graph/Walk/Tree.antt =====
-- graph/service.py `bounded_walk`: the parents that it records.
use open_graph_memory.Prelude.{
  ℕ, String, ◌≡◌, refl, ap, ◌∙◌, ◌⊎◌, inl, inr, Bool, true, false, ◌&&◌, ◌||◌, Option, none, some,
  List, [], ◌∷◌, ◌++◌, ◌==◌, eq_iff, ==_refl, find_row-true, contains, length, leb, arith, All,
  All-map, Bool-cases, Option-cases, if◌then◌else◌,
}
use open_graph_memory.Prelude.Members.{any_row-append, find_row-any_row, contains-All}
use open_graph_memory.Prelude.Results.{Result, ok}
use open_graph_memory.Graph.Rows.{CanonicalEntity, RelationAssertion}
use open_graph_memory.Graph.Walk.{
  Walk, Visit, skip, reach, parent_of, has_entity, add_entity, add_relation, reach_entity,
  is_reachable, new_end, previous_end, visit_relation, visit_relations, touches, is_target,
}
use open_graph_memory.Graph.Walk.Paths.{joins, IsKnown, IsTree}

or_true : (b : Bool) → (b || true) ≡ true
or_true b = ground arith

module _ {F : Type 0} (source : String) where
  -- What holds of the walk between two relations
  pub record IsWalk (w : Walk F) : Type 0 where
    pub tree : IsTree source w.relations w.parents
    pub listed :
        (k : String) (p : String × String)
        → parent_of w.parents k ≡ some p
        → has_entity w.entities k ≡ true
    pub frontier_known : All (IsKnown source w.relations w.parents) w.next_frontier
    pub met : (k : String) → has_entity w.entities k ≡ true → IsKnown source w.relations w.parents k

  -- IsKnown of a growing list of parents
  IsKnown-cons :
      (rs ss : List (RelationAssertion F)) (j : String) (q : String × String)
      (ps : List (String × (String × String))) (k : String)
      → IsKnown source rs ps k
      → IsKnown source ss ((j, q) ∷ ps) k
  IsKnown-cons rs ss j q ps k (inl e) = inl e
  IsKnown-cons rs ss j q ps k (inr (p, h)) = elim (Bool-cases (j == k)) [
    | inl t ↦ inr (q, rw t refl)
    | inr f ↦ inr (p, rw f h)
  ]

  joins-append :
      (rs : List (RelationAssertion F)) (x : RelationAssertion F) (r a b : String)
      → joins rs r a b ≡ true
      → joins (rs ++ x ∷ []) r a b ≡ true
  joins-append rs x r a b h = any_row-append _ rs (x ∷ []) ∙ rw h refl

  IsTree-append :
      (rs : List (RelationAssertion F)) (x : RelationAssertion F)
      (ps : List (String × (String × String)))
      → IsTree source rs ps
      → IsTree source (rs ++ x ∷ []) ps
  IsTree-append rs x [] h = tt
  IsTree-append rs x ((k, p) ∷ ps) (fresh, known, joined, rest) =
      (fresh, known, joins-append rs x p.1 p.0 k joined, IsTree-append rs x ps rest)

  add_relation-IsWalk :
      (r : RelationAssertion F) (w : Walk F) → IsWalk w → IsWalk (add_relation r w)
  add_relation-IsWalk r w h = record {
    tree = IsTree-append w.relations r w.parents h.tree;
    listed = h.listed;
    frontier_known = h.frontier_known;
    met = h.met;
  }

  -- The entity is new, and the relation joins it to one that is known.
  add_entity-IsWalk :
      (e : CanonicalEntity F) (new_id previous_id : String) (r : RelationAssertion F) (w : Walk F)
      → has_entity w.entities new_id ≡ false
      → e.id ≡ new_id
      → IsKnown source w.relations w.parents previous_id
      → joins (r ∷ []) r.id previous_id new_id ≡ true
      → IsWalk w
      → IsWalk (add_relation r (add_entity e new_id previous_id r w))
  add_entity-IsWalk e new_id previous_id r w absent same known joined h = record {
    tree = (
      fresh (Option-cases (parent_of w.parents new_id)),
      known,
      (any_row-append _ w.relations (r ∷ []) ∙ rw joined (or_true _)),
      IsTree-append w.relations r w.parents h.tree,
    );
    listed = λ k p q. any_row-append _ w.entities (e ∷ []) ∙ elim (Bool-cases (new_id == k)) [
      | inl t ↦ rw (same, t) (or_true _)
      | inr f ↦ rw (h.listed k p (rw f at q)) refl
    ];
    frontier_known = (
      inr ((previous_id, r.id), rw (==_refl new_id) refl),
      All-map
          (λ k own.
            IsKnown-cons w.relations (w.relations ++ r ∷ []) new_id (previous_id, r.id) w.parents k
              own)
          w.next_frontier h.frontier_known,
    );
    met = λ k there. elim (Bool-cases (new_id == k)) [
      | inl t ↦ inr ((previous_id, r.id), rw t refl)
      | inr f ↦
          IsKnown-cons w.relations (w.relations ++ r ∷ []) new_id (previous_id, r.id) w.parents k
            (h.met k (before k f there))
    ];
  }
    where
      before :
          (k : String)
          → (new_id == k) ≡ false
          → has_entity (w.entities ++ e ∷ []) k ≡ true
          → has_entity w.entities k ≡ true
      before k f there =
          let parts = any_row-append (λ (x : CanonicalEntity F). x.id == k) w.entities (e ∷ []) in
          let other : (e.id == k) ≡ false = rw same f in ground (arith, parts, there, other)

      fresh :
          (parent_of w.parents new_id ≡ none)
            ⊎ ((p : String × String) × (parent_of w.parents new_id ≡ some p))
          → parent_of w.parents new_id ≡ none
      fresh (inl n) = n
      fresh (inr (p, q)) = let there = h.listed new_id p q in cc

  -- The other end of a relation that touches the frontier is known, and the relation joins the two.
  previous_end-IsKnown :
      (frontier : List String) (r : RelationAssertion F) (rs : List (RelationAssertion F))
      (ps : List (String × (String × String)))
      → touches frontier r ≡ true
      → All (IsKnown source rs ps) frontier
      → IsKnown source rs ps (previous_end frontier r)
  previous_end-IsKnown frontier r rs ps touching known =
      elim (Bool-cases (contains frontier r.source_entity_id)) [
        | inl t ↦ rw t (contains-All (IsKnown source rs ps) frontier r.source_entity_id known t)
        | inr f ↦ rw f (
            contains-All (IsKnown source rs ps) frontier r.target_entity_id known
              (ground (arith, touching, f)))
      ]

  ends-join :
      (frontier : List String) (r : RelationAssertion F)
      → joins (r ∷ []) r.id (previous_end frontier r) (new_end frontier r) ≡ true
  ends-join frontier r = elim (Bool-cases (contains frontier r.source_entity_id)) [
    | inl t ↦
        rw (t, ==_refl r.id, ==_refl r.source_entity_id, ==_refl r.target_entity_id) (ground arith)
    | inr f ↦
        rw (f, ==_refl r.id, ==_refl r.source_entity_id, ==_refl r.target_entity_id) (ground arith)
  ]

  -- What a visit does: nothing, or a walk to which the relation can be added, with the frontier
  -- known to it.
  abbrev IsVisit : List String → RelationAssertion F → Walk F → Visit F → Type 0
  IsVisit frontier r w skip = Unit {0}
  IsVisit frontier r w (reach reached) =
      IsWalk (add_relation r reached)
      × All (IsKnown source (reached.relations ++ r ∷ []) reached.parents) frontier

  abbrev Visits : List String → RelationAssertion F → Walk F → Result (Visit F) → Type 0
  Visits frontier r w made = (v : Visit F) × (made ≡ ok v) × IsVisit frontier r w v

  reach_entity-Visits :
      (node_limit : ℕ) (candidates : List (CanonicalEntity F)) (frontier : List String)
      (r : RelationAssertion F) (w : Walk F)
      → (is_reachable candidates w (new_end frontier r)) ≡ true
      → touches frontier r ≡ true
      → All (IsKnown source w.relations w.parents) frontier
      → IsWalk w
      → Visits frontier r w
          (reach_entity node_limit candidates (new_end frontier r) (previous_end frontier r) r w)
  reach_entity-Visits node_limit candidates frontier r w reachable touching known h =
      elim (Bool-cases (has_entity w.entities (new_end frontier r))) [
        | inl t ↦ (reach w, rw t refl, (add_relation-IsWalk r w h, known))
        | inr absent ↦ elim (Bool-cases (leb node_limit (length w.entities))) [
          | inl full ↦ (skip, rw (absent, full) refl, tt)
          | inr room ↦
              let (e, found) =
                find_row-any_row (λ (x : CanonicalEntity F). x.id == new_end frontier r) candidates
                  (ground (arith, reachable, absent)) in
              (
                reach (add_entity e (new_end frontier r) (previous_end frontier r) r w),
                rw (absent, room, found) refl,
                (
                  add_entity-IsWalk e (new_end frontier r) (previous_end frontier r) r w absent
                      ((eq_iff e.id (new_end frontier r)).0 (find_row-true _ candidates found))
                      (previous_end-IsKnown frontier r w.relations w.parents touching known)
                      (ends-join frontier r) h,
                  All-map
                      (λ k own.
                        IsKnown-cons w.relations (w.relations ++ r ∷ []) (new_end frontier r)
                          (previous_end frontier r, r.id) w.parents k own)
                      frontier known,
                ),
              )
        ]
      ]

  visit_relation-Visits :
      (node_limit : ℕ) (candidates : List (CanonicalEntity F)) (frontier : List String)
      (r : RelationAssertion F) (w : Walk F)
      → touches frontier r ≡ true
      → All (IsKnown source w.relations w.parents) frontier
      → IsWalk w
      → Visits frontier r w (visit_relation node_limit candidates frontier r w)
  unfolding visit_relation
  visit_relation-Visits node_limit candidates frontier r w touching known h =
      elim (Bool-cases (
        is_reachable candidates w r.source_entity_id
        && is_reachable candidates w r.target_entity_id)) [
          | inl t ↦
              rw (visit_relation, t)
                (reach_entity-Visits node_limit candidates frontier r w
                  (new_end-reachable (contains frontier r.source_entity_id) t) touching known h)
          | inr f ↦ (skip, rw (visit_relation, f) refl, tt)
        ]
    where
      new_end-reachable :
          (b : Bool)
          → (is_reachable candidates w r.source_entity_id
              && is_reachable candidates w r.target_entity_id)
            ≡ true
          → is_reachable candidates w (if b then r.target_entity_id else r.source_entity_id) ≡ true
      new_end-reachable true t = ground (arith, t)
      new_end-reachable false t = ground (arith, t)

  abbrev IsLevel : Result (Bool × Walk F) → Type 0
  IsLevel made = (level : Bool × Walk F) × (made ≡ ok level) × IsWalk level.1

  pub visit_relations-IsLevel :
      (node_limit : ℕ) (target : Option String) (candidates : List (CanonicalEntity F))
      (frontier : List String) (rows : List (RelationAssertion F)) (w : Walk F)
      → All (λ r. touches frontier r ≡ true) rows
      → All (IsKnown source w.relations w.parents) frontier
      → IsWalk w
      → IsLevel (visit_relations node_limit target candidates frontier rows w)
  unfolding visit_relations
  visit_relations-IsLevel node_limit target candidates frontier [] w touching known h =
      ((false, w), refl, h)
  visit_relations-IsLevel node_limit target candidates frontier (r ∷ rows) w touching known h =
      let (v, run, own) =
        visit_relation-Visits node_limit candidates frontier r w touching.0 known h in
      (elim v
          as (λ v.
            visit_relation node_limit candidates frontier r w ≡ ok v
            → IsVisit frontier r w v
            → IsLevel (visit_relations node_limit target candidates frontier (r ∷ rows) w)) [
              | skip ↦ λ run u.
                  let (level, rest, walked) =
                    visit_relations-IsLevel node_limit target candidates frontier rows w touching.1
                      known h in
                  (level, rw (visit_relations, run) rest, walked)
              | reach reached ↦ λ run seen.
                  let branch : Walk F → Bool → Result (Bool × Walk F) = λ z b.
                    elim b as (λ x. Result (Bool × Walk F)) [
                      | true ↦ ok (true, add_relation r z)
                      | false ↦
                          visit_relations node_limit target candidates frontier rows
                            (add_relation r z)
                    ] in
                  elim (Bool-cases (is_target target (new_end frontier r))) [
                    | inl t ↦ (
                      (true, add_relation r reached),
                      rw (visit_relations, run) (ap (branch reached) t),
                      seen.0,
                    )
                    | inr f ↦
                        let (level, rest, after) =
                          visit_relations-IsLevel node_limit target candidates frontier rows
                            (add_relation r reached) touching.1 seen.1 seen.0 in
                        (level, rw (visit_relations, run) (ap (branch reached) f ∙ rest), after)
                  ]
            ])
        run own
