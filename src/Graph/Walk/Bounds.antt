-- ===== src/Graph/Walk/Bounds.antt =====
-- graph/service.py `bounded_walk`: the numbers of entities and relations that it collects.
use open_graph_memory.Prelude.{
  ℕ, zero, suc, ◌+◌, ◌-◌, ◌≤◌, max, String, ◌≡◌, refl, ap, ◌∙◌, sym, subst, inl, inr, Bool, true,
  false, ◌||◌, ◌&&◌, Option, List, [], ◌∷◌, length, length-append, length-take, leb, arith,
  Bool-cases, Option-cases, where_rows,
}
use open_graph_memory.Prelude.Sorting.{order_by}
use open_graph_memory.Prelude.Results.{Result, ok, >>=-eq-ok, ok_inj}
use open_graph_memory.Graph.Rows.{CanonicalEntity, RelationAssertion, Graph}
use open_graph_memory.Graph.Walk.{
  Walk, Visit, skip, reach, touches, visit_relation, visit_relations, level_rows, level_candidates,
  is_next, walk_levels, is_nil, bounded_walk, has_entity, entity_at, add_relation, reach_entity,
  is_reachable, new_end, previous_end, is_target,
}

module _ {F : Type 0} where
  -- The limit on entities holds, or the first entity is the only one.
  abbrev IsSmall : ℕ → Walk F → Type 0
  IsSmall node_limit w = length w.entities ≤ max 1 node_limit

  abbrev AddsNoRelation : ℕ → Walk F → Visit F → Type 0
  AddsNoRelation node_limit w skip = Unit {0}
  AddsNoRelation node_limit w (reach reached) =
      IsSmall node_limit reached × (reached.relations ≡ w.relations)

  reach_entity-IsSmall :
      (node_limit : ℕ) (candidates : List (CanonicalEntity F)) (new_id previous_id : String)
      (r : RelationAssertion F) (w : Walk F) (v : Visit F)
      → IsSmall node_limit w
      → reach_entity node_limit candidates new_id previous_id r w ≡ ok v
      → AddsNoRelation node_limit w v
  reach_entity-IsSmall node_limit candidates new_id previous_id r w v small h =
      elim (Bool-cases (has_entity w.entities new_id)) [
        | inl t ↦ subst (AddsNoRelation node_limit w) (ok_inj (rw t at h)) (small, refl)
        | inr absent ↦ elim (Bool-cases (leb node_limit (length w.entities))) [
          | inl full ↦ subst (AddsNoRelation node_limit w) (ok_inj (rw (absent, full) at h)) tt
          | inr room ↦ elim (Option-cases (entity_at new_id candidates)) [
            | inl n ↦ let never = rw (absent, room, n) at h in cc
            | inr (e, found) ↦
                subst (AddsNoRelation node_limit w) (ok_inj (rw (absent, room, found) at h))
                  (ground (arith, room, small, length-append w.entities (e ∷ [])), refl)
          ]
        ]
      ]

  visit_relation-IsSmall :
      (node_limit : ℕ) (candidates : List (CanonicalEntity F)) (frontier : List String)
      (r : RelationAssertion F) (w : Walk F) (v : Visit F)
      → IsSmall node_limit w
      → visit_relation node_limit candidates frontier r w ≡ ok v
      → AddsNoRelation node_limit w v
  unfolding visit_relation
  visit_relation-IsSmall node_limit candidates frontier r w v small h =
      elim (Bool-cases (
        is_reachable candidates w r.source_entity_id
        && is_reachable candidates w r.target_entity_id)) [
          | inl t ↦
              reach_entity-IsSmall node_limit candidates (new_end frontier r)
                (previous_end frontier r) r w v small (rw (visit_relation, t) at h)
          | inr f ↦ subst (AddsNoRelation node_limit w) (ok_inj (rw (visit_relation, f) at h)) tt
        ]

  visit_relations-IsSmall :
      (node_limit : ℕ) (target : Option String) (candidates : List (CanonicalEntity F))
      (frontier : List String) (rows : List (RelationAssertion F)) (w : Walk F)
      (level : Bool × Walk F)
      → IsSmall node_limit w
      → visit_relations node_limit target candidates frontier rows w ≡ ok level
      → IsSmall node_limit level.1 × (length level.1.relations ≤ length w.relations + length rows)
  unfolding visit_relations
  visit_relations-IsSmall node_limit target candidates frontier [] w level small h =
      subst
        (λ (l : Bool × Walk F).
          IsSmall node_limit l.1 × (length l.1.relations ≤ length w.relations + 0))
        (ok_inj h) (small, omega arith)
  visit_relations-IsSmall node_limit target candidates frontier (r ∷ rows) w level small h =
      let (v, run, next) = >>=-eq-ok (visit_relation node_limit candidates frontier r w) _ h in
      let own = visit_relation-IsSmall node_limit candidates frontier r w v small run in
      after v own next (visit_relations-IsSmall node_limit target candidates frontier rows)
    where
      IsAdded : ℕ → Walk F → Bool × Walk F → Type 0
      IsAdded n z l = IsSmall node_limit l.1 × (length l.1.relations ≤ length z.relations + n)

      branch : Walk F → Bool → Result (Bool × Walk F)
      branch z b = elim b as (λ x. Result (Bool × Walk F)) [
        | true ↦ ok (true, add_relation r z)
        | false ↦ visit_relations node_limit target candidates frontier rows (add_relation r z)
      ]

      after :
          (v : Visit F)
          → AddsNoRelation node_limit w v
          → elim v as (λ x. Result (Bool × Walk F)) [
            | skip ↦ visit_relations node_limit target candidates frontier rows w
            | reach reached ↦ branch reached (is_target target (new_end frontier r))
          ]
            ≡ ok level
          → ((z : Walk F) (l : Bool × Walk F)
              → IsSmall node_limit z
              → visit_relations node_limit target candidates frontier rows z ≡ ok l
              → IsAdded (length rows) z l)
          → IsAdded (suc (length rows)) w level
      after skip own next ih = let (few, many) = ih w level small next in (few, omega (arith, many))
      after (reach reached) (few, same) next ih =
          let count : length (add_relation r reached).relations ≡ length w.relations + 1 =
            length-append reached.relations (r ∷ []) ∙ ap (λ z. length z + 1) same in
          elim (Bool-cases (is_target target (new_end frontier r))) [
            | inl t ↦
                subst (IsAdded (suc (length rows)) w) (ok_inj (sym (ap (branch reached) t) ∙ next))
                  (few, omega (arith, count))
            | inr f ↦
                let (fewer, many) =
                  ih (add_relation r reached) level few (sym (ap (branch reached) f) ∙ next) in
                (fewer, omega (arith, many, count))
          ]

module _ {F : Type 0} (before : String → String → Bool) (g : Graph F)
    (project dataset : String) where
  abbrev IsBounded : ℕ → ℕ → Walk F → Type 0
  IsBounded node_limit relation_limit w =
      (length w.entities ≤ max 1 node_limit) × (length w.relations ≤ relation_limit)

  length-level_rows :
      (relation_limit : ℕ) (frontier : List String) (w : Walk F)
      → length (level_rows before g project dataset relation_limit frontier w)
        ≤ relation_limit - length w.relations
  length-level_rows relation_limit frontier w = omega (
    arith,
    length-take (relation_limit - length w.relations) (
        order_by (λ (a b : RelationAssertion F). before a.id b.id)
          (where_rows (touches frontier)
            (where_rows (is_next before g project dataset frontier w) g.relations))),
  )

  walk_levels-IsBounded :
      (node_limit relation_limit : ℕ) (target : Option String) (depth : ℕ) (frontier : List String)
      (w last : Walk F)
      → IsBounded node_limit relation_limit w
      → walk_levels before g project dataset node_limit relation_limit target depth frontier w
        ≡ ok last
      → IsBounded node_limit relation_limit last
  unfolding walk_levels
  walk_levels-IsBounded node_limit relation_limit target zero frontier w last own h =
      subst (IsBounded node_limit relation_limit) (ok_inj h) own
  walk_levels-IsBounded node_limit relation_limit target (suc depth) frontier w last own h =
      elim (Bool-cases (
        is_nil frontier
        || leb node_limit (length w.entities)
        || leb relation_limit (length w.relations))) [
          | inl t ↦
              subst (IsBounded node_limit relation_limit) (ok_inj (rw (walk_levels, t) at h)) own
          | inr f ↦
              let rows = level_rows before g project dataset relation_limit frontier w in
              let (level, run, next) =
                >>=-eq-ok
                  (visit_relations node_limit target
                    (level_candidates before g project dataset rows w) frontier rows
                    (record w { next_frontier = [] }))
                  _ (rw (walk_levels, f) at h) in
              let (few, many) =
                visit_relations-IsSmall node_limit target
                  (level_candidates before g project dataset rows w) frontier rows
                  (record w { next_frontier = [] }) level own.0 run in
              after level.0 level.1
                (few, omega (arith, many, own.1, length-level_rows relation_limit frontier w)) next
                (walk_levels-IsBounded node_limit relation_limit target depth)
        ]
    where
      after :
          (found : Bool) (next : Walk F)
          → IsBounded node_limit relation_limit next
          → elim found as (λ x. Result (Walk F)) [
            | true ↦ ok next
            | false ↦
                walk_levels before g project dataset node_limit relation_limit target depth
                  next.next_frontier next
          ]
            ≡ ok last
          → ((frontier : List String) (z last : Walk F)
              → IsBounded node_limit relation_limit z
              → walk_levels before g project dataset node_limit relation_limit target depth frontier
                  z
                ≡ ok last
              → IsBounded node_limit relation_limit last)
          → IsBounded node_limit relation_limit last
      after true next small e ih = subst (IsBounded node_limit relation_limit) (ok_inj e) small
      after false next small e ih = ih next.next_frontier next last small e

  -- A walk that returns has at most as many relations as its limit, and at most as many entities,
  -- or only the one that it starts from.
  pub bounded_walk-IsBounded :
      (root : CanonicalEntity F) (depth node_limit relation_limit : ℕ) (target : Option String)
      (w : Walk F)
      → bounded_walk before g project dataset root depth node_limit relation_limit target ≡ ok w
      → IsBounded node_limit relation_limit w
  unfolding bounded_walk
  bounded_walk-IsBounded root depth node_limit relation_limit target w h =
      walk_levels-IsBounded node_limit relation_limit target depth (root.id ∷ [])
        (record { entities = root ∷ []; relations = []; parents = []; next_frontier = [] }) w
        (omega arith, omega arith) h
