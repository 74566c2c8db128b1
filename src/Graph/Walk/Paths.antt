-- ===== src/Graph/Walk/Paths.antt =====
-- graph/service.py `path_ids`: the path that the parents of a walk give.
use open_graph_memory.Prelude.{
  ℕ, zero, suc, ◌<◌, String, ◌≡◌, refl, sym, ap, subst, ◌⊎◌, inl, inr, Bool, true, false, ◌&&◌,
  ◌||◌, none, some, List, [], ◌∷◌, ◌==◌, eq_iff, any_row, length, arith, Bool-cases, Option-cases,
}
use open_graph_memory.Prelude.Results.{ok}
use open_graph_memory.Graph.Rows.{RelationAssertion}
use open_graph_memory.Graph.Walk.{parent_of, path_back, path_ids}

abbrev pub last_of : String → List String → String
last_of k [] = k
last_of k (j ∷ ks) = last_of j ks

module _ {F : Type 0} (relations : List (RelationAssertion F)) where
  -- The relation under an identifier leads from one entity to the other, in either direction.
  abbrev pub joins : String → String → String → Bool
  joins r a b =
      any_row
        (λ (x : RelationAssertion F).
          x.id == r
          && (x.source_entity_id == a && x.target_entity_id == b
              || x.source_entity_id == b && x.target_entity_id == a))
        relations

  -- Each entity of a list is joined to the next one by the relation in its place.
  abbrev pub IsPath : String → List String → List String → Type 0
  IsPath a [] [] = Unit {0}
  IsPath a (b ∷ es) (r ∷ rs) = (joins r a b ≡ true) × IsPath b es rs
  IsPath a [] (r ∷ rs) = false ≡ true
  IsPath a (b ∷ es) [] = false ≡ true

module _ {F : Type 0} (source : String) (relations : List (RelationAssertion F)) where
  abbrev pub IsKnown : List (String × (String × String)) → String → Type 0
  IsKnown ps k = ((k == source) ≡ true) ⊎ ((p : String × String) × (parent_of ps k ≡ some p))

  -- Each entity but the source has one parent, which is the source or has an older entry, and is
  -- joined to it.
  abbrev pub IsTree : List (String × (String × String)) → Type 0
  IsTree [] = Unit {0}
  IsTree ((k, p) ∷ ps) =
      (parent_of ps k ≡ none) × IsKnown ps p.0 × (joins relations p.1 p.0 k ≡ true) × IsTree ps

  abbrev Extends : List (String × (String × String)) → List (String × (String × String)) → Type 0
  Extends full ps =
      (k : String) (p : String × String) → parent_of ps k ≡ some p → parent_of full k ≡ some p

  abbrev LeadsBack :
      List (String × (String × String)) → ℕ → String → List String → List String → Type 0
  LeadsBack full fuel current es rs =
      (es' : List String) × (rs' : List String) × (path_back source full fuel current (current ∷ es)
          rs
        ≡ ok (source ∷ es', rs'))
      × IsPath relations source es' rs'
      × (last_of source es' ≡ last_of current es)

  at_source :
      (full : List (String × (String × String))) (fuel : ℕ) (current : String) (es rs : List String)
      → (current == source) ≡ true
      → IsPath relations current es rs
      → LeadsBack full (suc fuel) current es rs
  unfolding path_back
  at_source full fuel current es rs e path =
      let same = (eq_iff current source).0 e in
      (
        es,
        rs,
        rw (path_back, e) (ap (λ z. ok (z ∷ es, rs)) same),
        subst (λ z. IsPath relations z es rs) same path,
        ap (λ z. last_of z es) (sym same),
      )

  older-Extends :
      (full ps : List (String × (String × String))) (k : String) (p : String × String)
      → parent_of ps k ≡ none
      → Extends full ((k, p) ∷ ps)
      → Extends full ps
  older-Extends full ps k p fresh ext j v h = elim (Bool-cases (k == j)) [
    | inl t ↦
        let gone : parent_of ps j ≡ none =
          subst (λ z. parent_of ps z ≡ none) ((eq_iff k j).0 t) fresh in
        cc
    | inr f ↦ ext j v (rw f h)
  ]

  -- One round, where the current entity has a parent
  round :
      (full : List (String × (String × String))) (fuel : ℕ) (current : String) (p : String × String)
      (es rs : List String)
      → (current == source) ≡ false
      → parent_of full current ≡ some p
      → LeadsBack full fuel p.0 (current ∷ es) (p.1 ∷ rs)
      → LeadsBack full (suc fuel) current es rs
  unfolding path_back
  round full fuel current p es rs away found (es', rs', run, path, last) =
      (es', rs', rw (path_back, away, found) run, path, last)

  leads_back :
      (full ps : List (String × (String × String)))
      → Extends full ps
      → IsTree ps
      → (current : String) → IsKnown ps current
      → (fuel : ℕ) → length ps < fuel
      → (es rs : List String) → IsPath relations current es rs
      → LeadsBack full fuel current es rs
  leads_back full ps ext tree current known zero small es rs path =
      let never : true ≡ false = ground (arith, small) in cc
  leads_back full [] ext tree current known (suc fuel) small es rs path = elim known [
    | inl e ↦ at_source full fuel current es rs e path
    | inr (v, q) ↦ cc
  ]
  leads_back full ((k, p) ∷ ps) ext tree current known (suc fuel) small es rs path =
      elim (Bool-cases (current == source)) [
        | inl e ↦ at_source full fuel current es rs e path
        | inr away ↦ elim known [
          | inl e ↦ cc
          | inr (v, q) ↦ elim (Bool-cases (k == current)) [
            | inl t ↦
                let same = (eq_iff k current).0 t in
                round full fuel current p es rs away (ext current p (rw t refl)) (
                  leads_back full ps (older-Extends full ps k p tree.0 ext) tree.3 p.0 tree.1 fuel
                    (omega (arith, small)) (current ∷ es) (p.1 ∷ rs)
                    (subst (λ z. joins relations p.1 p.0 z ≡ true) same tree.2, path))
            | inr f ↦
                leads_back full ps (older-Extends full ps k p tree.0 ext) tree.3 current
                  (inr (v, rw f at q)) (suc fuel) (omega (arith, small)) es rs path
          ]
        ]
      ]

  -- What the path to a target is: the source and the target, joined step by step, or nothing for a
  -- target without a parent that is not the source.
  abbrev pub IsAnswer :
      List (String × (String × String)) → String → List String → List String → Type 0
  IsAnswer parents target es rs =
      ((es ≡ []) × (rs ≡ []) × (parent_of parents target ≡ none) × ((source == target) ≡ false))
      ⊎ ((rest : List String) × (es ≡ source ∷ rest)
          × IsPath relations source rest rs
          × (last_of source rest ≡ target))

  -- Over parents that form a tree under the source, `path_ids` always returns: it raises no error and
  -- its loop ends. It gives a path from the source to the target whose steps are joined by the
  -- relations it lists, or no path, where the target has no parent.
  pub path_ids-IsAnswer :
      (target : String) (parents : List (String × (String × String)))
      → IsTree parents
      → (es : List String) × (rs : List String) × (path_ids source target parents ≡ ok (es, rs))
        × IsAnswer parents target es rs
  unfolding path_ids
  path_ids-IsAnswer target parents tree = elim (Bool-cases (source == target)) [
    | inl e ↦ (source ∷ [], [], rw e refl, inr ([], refl, tt, (eq_iff source target).0 e))
    | inr f ↦ elim (Option-cases (parent_of parents target)) [
      | inl n ↦ ([], [], rw (f, n) refl, inl (refl, refl, n, f))
      | inr (p, q) ↦
          let (es, rs, run, path, last) =
            leads_back parents parents (λ k v h. h) tree target (inr (p, q)) (suc (length parents))
              (omega arith) [] [] tt in
          (source ∷ es, rs, rw (f, q) run, inr (es, refl, path, last))
    ]
  ]
