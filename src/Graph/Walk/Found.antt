-- ===== src/Graph/Walk/Found.antt =====
-- graph/service.py: the levels of a walk, and the path that is looked for after it.
use open_graph_memory.Prelude.{
  ℕ, zero, suc, ◌-◌, String, ◌≡◌, refl, inl, inr, Bool, true, false, ◌||◌, Option, some, List, [],
  ◌∷◌, length, leb, All, Bool-cases, ==_refl, eq_iff, arith, where_rows, none, ◌⊎◌, ◌==◌,
}
use open_graph_memory.Prelude.Members.{All-selects, All-take}
use open_graph_memory.Prelude.Sorting.{order_by-All}
use open_graph_memory.Prelude.Results.{Result, ok}
use open_graph_memory.Graph.Rows.{CanonicalEntity, RelationAssertion, Graph}
use open_graph_memory.Graph.Walk.{
  Walk, touches, visit_relations, level_rows, level_candidates, is_next, walk_levels, is_nil,
  bounded_walk, path_ids, has_entity, parent_of,
}
use open_graph_memory.Graph.Walk.Paths.{IsKnown, IsAnswer, IsPath, last_of, path_ids-IsAnswer}
use open_graph_memory.Graph.Walk.Tree.{IsWalk, visit_relations-IsLevel}

-- What a search for a path gives: nothing, for a target that is not among the entities, or the
-- source and the target, joined step by step.
abbrev pub IsFound :
    {F : Type 0}
    → String
    → List (RelationAssertion F)
    → List (CanonicalEntity F)
    → String
    → List String
    → List String
    → Type 0
IsFound source relations entities target es rs =
    ((es ≡ []) × (rs ≡ []) × (has_entity entities target ≡ false))
    ⊎ ((rest : List String) × (es ≡ source ∷ rest)
        × IsPath relations source rest rs
        × (last_of source rest ≡ target))

module _ {F : Type 0} (before : String → String → Bool) (g : Graph F)
    (project dataset : String) where
  level_rows-touch :
      (relation_limit : ℕ) (frontier : List String) (w : Walk F)
      → All
          (λ r. touches frontier r ≡ true)
          (level_rows before g project dataset relation_limit frontier w)
  level_rows-touch relation_limit frontier w = All-take _ (relation_limit - length w.relations) _ (
      order_by-All (λ (a b : RelationAssertion F). before a.id b.id) _ _
        (All-selects (touches frontier)
          (where_rows (is_next before g project dataset frontier w) g.relations)))

  abbrev Walks : String → Result (Walk F) → Type 0
  Walks source made = (w : Walk F) × (made ≡ ok w) × IsWalk source w

  walk_levels-Walks :
      (source : String) (node_limit relation_limit : ℕ) (target : Option String) (depth : ℕ)
      (frontier : List String) (w : Walk F)
      → All (IsKnown source w.relations w.parents) frontier
      → IsWalk source w
      → Walks source
          (walk_levels before g project dataset node_limit relation_limit target depth frontier w)
  unfolding walk_levels
  walk_levels-Walks source node_limit relation_limit target zero frontier w known h = (w, refl, h)
  walk_levels-Walks source node_limit relation_limit target (suc depth) frontier w known h =
      elim (Bool-cases (
        is_nil frontier
        || leb node_limit (length w.entities)
        || leb relation_limit (length w.relations))) [
          | inl t ↦ (w, rw (walk_levels, t) refl, h)
          | inr f ↦
              let rows = level_rows before g project dataset relation_limit frontier w in
              let candidates = level_candidates before g project dataset rows w in
              let start : Walk F = record w { next_frontier = [] } in
              let (level, run, walked) =
                visit_relations-IsLevel source node_limit target candidates frontier rows start
                  (level_rows-touch relation_limit frontier w) known
                  (record { tree = h.tree; listed = h.listed; frontier_known = tt; met = h.met }) in
              after f level.0 level.1 run walked (
                walk_levels-Walks source node_limit relation_limit target depth
                  level.1.next_frontier level.1 walked.frontier_known walked)
        ]
    where
      after :
          (is_nil frontier
              || leb node_limit (length w.entities)
              || leb relation_limit (length w.relations))
            ≡ false
          → (found : Bool) (next : Walk F)
          → let rows = level_rows before g project dataset relation_limit frontier w in
            visit_relations node_limit target
                (level_candidates before g project dataset rows w)
                frontier
                rows
                (record w { next_frontier = [] })
              ≡ ok (found, next)
            → IsWalk source next
            → Walks source (
                walk_levels before g project dataset node_limit relation_limit target depth
                  next.next_frontier next)
            → Walks source (
                walk_levels before g project dataset node_limit relation_limit target
                  (suc depth)
                  frontier
                  w)
      after f true next run walked rest = (next, rw (walk_levels, f, run) refl, walked)
      after f false next run walked (last, ends, own) = (last, rw (walk_levels, f, run) ends, own)

  -- Whatever the graph, the limits and the target are, the walk from an entity returns, its parents
  -- form a tree under that entity whose links are relations of the walk, and each of its entities
  -- is in that tree.
  bounded_walk-IsWalk :
      (root : CanonicalEntity F) (depth node_limit relation_limit : ℕ) (target : Option String)
      → Walks root.id
          (bounded_walk before g project dataset root depth node_limit relation_limit target)
  unfolding bounded_walk
  bounded_walk-IsWalk root depth node_limit relation_limit target =
      walk_levels-Walks root.id node_limit relation_limit target depth (root.id ∷ [])
        (record { entities = root ∷ []; relations = []; parents = []; next_frontier = [] })
        (inl (==_refl root.id), tt)
        (record {
          tree = tt;
          listed = λ k p q. cc;
          frontier_known = tt;
          met = λ k there. inl (ground (arith, there, eq_iff root.id k, eq_iff k root.id));
        })

  -- The search for a path from an entity to a target always answers: the walk returns, and
  -- `path_ids` on its parents returns a path from the entity to the target, each step of which is a
  -- relation of the walk between the two entities in either direction, or nothing, and nothing only
  -- where the target is not among the entities of the walk.
  pub bounded_walk-path_ids :
      (root : CanonicalEntity F) (depth node_limit relation_limit : ℕ) (target : String)
      → (w : Walk F) × (es : List String) × (rs : List String) × (bounded_walk before g project
            dataset root depth node_limit relation_limit
            (some target)
          ≡ ok w)
        × (path_ids root.id target w.parents ≡ ok (es, rs))
        × IsFound root.id w.relations w.entities target es rs
  bounded_walk-path_ids root depth node_limit relation_limit target =
      let (w, run, own) = bounded_walk-IsWalk root depth node_limit relation_limit (some target) in
      let (es, rs, paths, answer) =
        path_ids-IsAnswer root.id w.relations target w.parents own.tree in
      (w, es, rs, run, paths, found w es rs own answer)
    where
      unmet :
          (w : Walk F)
          → parent_of w.parents target ≡ none
          → (root.id == target) ≡ false
          → IsKnown root.id w.relations w.parents target
          → false ≡ true
      unmet w gone away (inl e) =
          ground (arith, away, e, eq_iff root.id target, eq_iff target root.id)
      unmet w gone away (inr (p, q)) = cc

      found :
          (w : Walk F) (es rs : List String)
          → IsWalk root.id w
          → IsAnswer root.id w.relations w.parents target es rs
          → IsFound root.id w.relations w.entities target es rs
      found w es rs own (inr path) = inr path
      found w es rs own (inl (e, r, gone, away)) =
          elim (Bool-cases (has_entity w.entities target)) [
            | inr f ↦ inl (e, r, f)
            | inl t ↦ let never = unmet w gone away (own.met target t) in cc
          ]
