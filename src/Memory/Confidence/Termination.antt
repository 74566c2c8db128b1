-- ===== src/Memory/Confidence/Termination.antt =====
-- memory/confidence.py `supersede_memory`: the rounds of the walk along a chain.
use open_graph_memory.Prelude.{
  ℕ, zero, suc, ◌≤◌, ◌<◌, String, ◌≡◌, ◌⊎◌, refl, ◌≢◌, false, Option, none, some, List, [], ◌∷◌,
  inl, inr, arith, eq_iff, contains, is_text, Bool-cases, Option-cases, length, if◌then◌else◌,
}
use open_graph_memory.Prelude.Results.{err, out_of_fuel}
use open_graph_memory.Rows.{Episode}
use open_graph_memory.Store.{Store, get_episode}
use open_graph_memory.Store.Lookup.{get_episode-id}
use open_graph_memory.Memory.Confidence.{successor, walk_supersession, supersede_memory}

module _ {F : Type 0} where
  -- the number of rows that the walk has not visited
  pub unvisited : List String → List (Episode F) → ℕ
  unvisited v [] = 0
  unvisited v (e ∷ es) = if contains v e.id then unvisited v es else suc (unvisited v es)

  pub unvisited-le-length : (v : List String) (es : List (Episode F)) → unvisited v es ≤ length es
  unfolding unvisited
  unvisited-le-length v [] = omega arith
  unvisited-le-length v (e ∷ es) = ground (arith, unvisited-le-length v es)

  unvisited-cons-le :
      (v : List String) (k : String) (es : List (Episode F)) → unvisited (k ∷ v) es ≤ unvisited v es
  unfolding unvisited
  unvisited-cons-le v k [] = omega arith
  unvisited-cons-le v k (e ∷ es) = ground (arith, unvisited-cons-le v k es)

  pub unvisited-visit :
      (v : List String) (es : List (Episode F)) (k : String)
      → get_episode es k ≢ none
      → contains v k ≡ false
      → unvisited (k ∷ v) es < unvisited v es
  unfolding unvisited
  unvisited-visit v [] k found fresh = absurd (found refl)
  unvisited-visit v (e ∷ es) k found fresh =
      ground (arith, unvisited-cons-le v k es, unvisited-visit v es k, eq_iff e.id k, eq_iff k e.id)

  successor-cases :
      (es : List (Episode F)) (x : Episode F)
      → (successor es x ≡ none) ⊎ ((k : String) × (get_episode es k ≡ successor es x))
  successor-cases es x = go x.superseded_by_id refl
    where
      go :
          (o : Option String)
          → x.superseded_by_id ≡ o
          → (successor es x ≡ none) ⊎ ((k : String) × (get_episode es k ≡ successor es x))
      go none q = inl (rw q)
      go (some k) q = elim (Bool-cases (is_text k)) [
        | inl t ↦ inr (k, rw (q, successor, t))
        | inr f ↦ inl (rw (q, successor, f))
      ]

  walk-ends :
      (es : List (Episode F)) (fuel : ℕ) (o : Option (Episode F)) (v : List String) (k : String)
      → get_episode es k ≡ o
      → unvisited v es < fuel
      → walk_supersession fuel es v o ≢ err out_of_fuel
  unfolding walk_supersession
  walk-ends es fuel none v k found room h = cc
  walk-ends es zero (some x) v k found room h = absurd (omega arith)
  walk-ends es (suc fuel) (some x) v k found room h = elim (Bool-cases (contains v x.id)) [
    | inl t ↦ let h' = rw t at h in cc
    | inr f ↦
        let here = rw (← get_episode-id es k x found) at found in
        let less = unvisited-visit v es x.id (λ q. cc (here, q)) f in
        let h' = rw f at h in
        elim (successor-cases es x) [
          | inl gone ↦ let h'' = rw gone at h' in cc
          | inr (j, next) ↦ walk-ends es fuel (successor es x) (x.id ∷ v) j next (omega arith) h'
        ]
  ]

-- Superseding an episode always comes to an answer: the walk never runs out of its rounds.
pub supersede_memory_total :
    {F : Type 0} (now : ℕ) (db : Store F) (current : Episode F) (k : String)
    → supersede_memory now db current k ≢ err out_of_fuel
unfolding supersede_memory
supersede_memory_total now db current k h = elim (Option-cases (get_episode db.episodes k)) [
  | inl gone ↦ ground arith
  | inr (s, found) ↦
      let es = db.episodes in
      let visited = current.id ∷ [] in
      let room : unvisited visited es < suc (length es) =
        omega (arith, unvisited-le-length visited es) in
      ground (arith, walk-ends es (suc (length es)) (some s) visited k found room)
]
