-- ===== src/Memory/Confidence/Acyclic.antt =====
-- memory/confidence.py `supersede_memory`: the chains of `superseded_by_id`.
use open_graph_memory.Prelude.{
  ℕ, zero, suc, String, ◌≡◌, refl, true, false, Option, none, some, List, [], ◌∷◌, inl, inr, arith,
  ◌==◌, eq_iff, ==_refl, contains, is_text, Bool-cases, Option-cases, length,
}
use open_graph_memory.Prelude.Results.{ok}
use open_graph_memory.Rows.{Episode}
use open_graph_memory.Store.{Store, get_episode, put_episode}
use open_graph_memory.Store.Lookup.{
  put_row, get_episode-id, get_episode-put_row, get_episode-put_row_ne, get_episode-put_row_missing,
}
use open_graph_memory.Memory.Confidence.{
  successor, walk_supersession, superseded_row, supersede_memory,
}

-- The chain of successors from an episode (or from None) is finite.
pub data Ends {F : Type 0} (es : List (Episode F)) : Option (Episode F) → Type 0 where
  stop : Ends es none
  step : (e : Episode F) → Ends es (successor es e) → Ends es (some e)

abbrev pub IsAcyclic : {F : Type 0} → List (Episode F) → Type 0
IsAcyclic es = (k : String) → Ends es (get_episode es k)

module _ {F : Type 0} (es : List (Episode F)) (e : Episode F) where
  pub Ends-cases :
      (es' : List (Episode F)) (o : Option String)
      → ((j : String) → o ≡ some j → is_text j ≡ true → Ends es' (get_episode es' j))
      → (x : Episode F) → x.superseded_by_id ≡ o
      → Ends es' (successor es' x)
  Ends-cases es' none h x q = rw q stop
  Ends-cases es' (some j) h x q = elim (Bool-cases (is_text j)) [
    | inl t ↦ rw (q, t) (h j refl t)
    | inr f ↦ rw (q, f) stop
  ]

  -- A written row whose own chain ends leaves every chain finite.
  pub Ends-put_row :
      Ends (put_row e es) (successor (put_row e es) e)
      → {o : Option (Episode F)} → Ends es o
      → (k : String) → get_episode es k ≡ o
      → Ends (put_row e es) (get_episode (put_row e es) k)
  Ends-put_row own stop k h = rw (get_episode-put_row_missing e es k h) stop
  Ends-put_row own (step x rest) k h =
      let chain =
        Ends-cases (put_row e es) x.superseded_by_id
          (λ j q t. Ends-put_row own rest j (rw (q, successor, t))) x refl in
      elim (Bool-cases (e.id == k)) [
        | inl t ↦ rw (get_episode-put_row e es k, t, h) (step e own)
        | inr f ↦ rw (get_episode-put_row_ne e es k f, h) (step x chain)
      ]

  -- A round that goes on found a row not yet visited.
  walk-round :
      (fuel : ℕ) (visited : List String) (x : Episode F)
      → walk_supersession (suc fuel) es visited (some x) ≡ ok tt
      → (contains visited x.id ≡ false)
        × (walk_supersession fuel es (x.id ∷ visited) (successor es x) ≡ ok tt)
  unfolding walk_supersession
  walk-round fuel visited x h = elim (Bool-cases (contains visited x.id)) [
    | inl t ↦ let h' = rw t at h in absurd (cc)
    | inr f ↦ (f, rw f at h)
  ]

  -- A finished walk, with `e` among the visited, never meets `e`.
  walk-Ends :
      (fuel : ℕ) (o : Option (Episode F)) (visited : List String) (k : String)
      → contains visited e.id ≡ true
      → get_episode es k ≡ o
      → walk_supersession fuel es visited o ≡ ok tt
      → Ends (put_row e es) (get_episode (put_row e es) k)
  unfolding walk_supersession
  walk-Ends fuel none visited k seen found h = rw (get_episode-put_row_missing e es k found) stop
  walk-Ends zero (some x) visited k seen found h = absurd (cc)
  walk-Ends (suc fuel) (some x) visited k seen found h =
      let (fresh, h') = walk-round fuel visited x h in
      let other : (e.id == k) ≡ false =
        ground (arith, get_episode-id es k x found, eq_iff e.id k) in
      let chain =
        Ends-cases (put_row e es) x.superseded_by_id
          (λ j q t.
            walk-Ends fuel (successor es x) (x.id ∷ visited) j (ground (arith, seen))
              (rw (q, successor, t)) h')
          x refl in
      rw (get_episode-put_row_ne e es k other, found) (step x chain)

module _ {F : Type 0} (now : ℕ) (db : Store F) (current : Episode F) (k : String) where
  -- What holds after `supersede_memory` returns.
  pub record Superseded (r : Episode F × Store F) : Type 0 where
    pub superseding : Episode F
    pub found : get_episode db.episodes k ≡ some superseding
    pub same_project : superseding.project_id ≡ current.project_id
    pub other : (superseding.id == current.id) ≡ false
    pub walked :
        walk_supersession
          (suc (length db.episodes))
          db.episodes
          (current.id ∷ [])
          (some superseding)
        ≡ ok tt
    pub result : r.0 ≡ superseded_row now current k
    pub stored : r.1 ≡ put_episode (superseded_row now current k) db

  supersede_memory-Superseded :
      {r : Episode F × Store F} → supersede_memory now db current k ≡ ok r → Superseded r
  unfolding supersede_memory
  supersede_memory-Superseded {r} h = elim (Option-cases (get_episode db.episodes k)) [
    | inl gone ↦ absurd (ground arith)
    | inr (s, found) ↦ record {
      superseding = s;
      found = found;
      same_project = ground (arith, eq_iff s.project_id current.project_id);
      other = ground arith;
      walked = ground arith;
      result = ground arith;
      stored = ground arith;
    }
  ]

-- If following `superseded_by_id` comes to an end from every episode, it still does after an
-- episode was superseded: `supersede_memory` lets no cycle arise.
pub supersede_memory-IsAcyclic :
    {F : Type 0} (now : ℕ) (db : Store F) (current : Episode F) (k : String)
    {r : Episode F × Store F}
    → supersede_memory now db current k ≡ ok r
    → IsAcyclic db.episodes
    → IsAcyclic r.1.episodes
supersede_memory-IsAcyclic now db current k {r} h acyclic =
    let s = supersede_memory-Superseded now db current k h in
    let e = superseded_row now current k in
    let es = db.episodes in
    let end_of_k : Ends (put_row e es) (get_episode (put_row e es) k) =
      walk-Ends es e (suc (length es)) (some s.superseding) (current.id ∷ []) k
        (ground (arith, ==_refl current.id)) s.found s.walked in
    let own : Ends (put_row e es) (successor (put_row e es) e) = elim (Bool-cases (is_text k)) [
      | inl t ↦ rw t end_of_k
      | inr f ↦ rw f stop
    ] in
    rw s.stored (λ j. Ends-put_row es e own (acyclic j) j refl)
