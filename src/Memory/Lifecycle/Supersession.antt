-- ===== src/Memory/Lifecycle/Supersession.antt =====
-- memory/api.py `supersede_episode`: the chains of `superseded_by_id`, and the walk along one.
use open_graph_memory.Prelude.{
  ℕ, zero, suc, ◌<◌, String, ◌≡◌, ◌≢◌, refl, true, false, Option, none, some, List, [], ◌∷◌, inl,
  inr, arith, ◌==◌, eq_iff, ==_refl, contains, is_text, Bool-cases, Option-cases, length,
}
use open_graph_memory.Prelude.Results.{ok, err, out_of_fuel, ◌>>=◌, >>=-eq-ok}
use open_graph_memory.Rows.{Episode}
use open_graph_memory.Store.{Store, get_episode, put_episode}
use open_graph_memory.Store.Lookup.{put_row, get_episode-id, get_episode-put_row_ne}
use open_graph_memory.Memory.Service.{EpisodeView, owned_episode, owned_episode-found}
use open_graph_memory.Memory.Confidence.{successor, superseded_row}
use open_graph_memory.Memory.Confidence.Acyclic.{
  Ends, stop, step, IsAcyclic, Ends-cases, Ends-put_row,
}
use open_graph_memory.Memory.Confidence.Termination.{unvisited, unvisited-visit}
use open_graph_memory.Memory.Lifecycle.{walk_owned, supersede_episode}

module _ {F : Type 0} (db : Store F) (project : String) where
  walk_owned-round :
      (fuel : ℕ) (visited : List String) (x : Episode F)
      → walk_owned (suc fuel) db project visited x ≡ ok tt
      → contains visited x.id ≡ false
  unfolding walk_owned
  walk_owned-round fuel visited x h = ground arith

  walk_owned-seen :
      (fuel : ℕ) (visited : List String) (x : Episode F)
      → contains visited x.id ≡ true
      → walk_owned (suc fuel) db project visited x ≢ err out_of_fuel
  unfolding walk_owned
  walk_owned-seen fuel visited x t = ground arith

  walk_owned-next :
      (fuel : ℕ) (visited : List String) (x : Episode F) (j : String)
      → x.superseded_by_id ≡ some j
      → is_text j ≡ true
      → walk_owned (suc fuel) db project visited x ≡ ok tt
      → (y : Episode F) × (get_episode db.episodes j ≡ some y)
        × (walk_owned fuel db project (x.id ∷ visited) y ≡ ok tt)
  unfolding walk_owned
  walk_owned-next fuel visited x j q t h =
      let fresh = walk_owned-round fuel visited x h in
      let h' : (owned_episode db project j >>= walk_owned fuel db project (x.id ∷ visited))
          ≡ ok tt =
        ground arith in
      let (y, owned, rest) = >>=-eq-ok (owned_episode db project j) _ h' in
      (y, (owned_episode-found db project j y owned).0, rest)

  walk_owned-Ends :
      (e : Episode F) (fuel : ℕ) (x : Episode F) (visited : List String) (k : String)
      → contains visited e.id ≡ true
      → get_episode db.episodes k ≡ some x
      → walk_owned fuel db project visited x ≡ ok tt
      → Ends (put_row e db.episodes) (get_episode (put_row e db.episodes) k)
  unfolding walk_owned
  walk_owned-Ends e zero x visited k seen found h = absurd (cc)
  walk_owned-Ends e (suc fuel) x visited k seen found h =
      let es = db.episodes in
      let fresh = walk_owned-round fuel visited x h in
      let other : (e.id == k) ≡ false =
        ground (arith, get_episode-id es k x found, eq_iff e.id k) in
      let chain =
        Ends-cases es e (put_row e es) x.superseded_by_id
          (λ j q t.
            let (y, found', rest) = walk_owned-next fuel visited x j q t h in
            walk_owned-Ends e fuel y (x.id ∷ visited) j (ground (arith, seen)) found' rest)
          x refl in
      rw (get_episode-put_row_ne e es k other, found) (step x chain)

  walk_owned-fuel :
      (fuel : ℕ) (visited : List String) (x : Episode F)
      → walk_owned (suc fuel) db project visited x ≡ err out_of_fuel
      → (j : String) × (y : Episode F) × (get_episode db.episodes j ≡ some y)
        × (walk_owned fuel db project (x.id ∷ visited) y ≡ err out_of_fuel)
  unfolding walk_owned owned_episode
  walk_owned-fuel fuel visited x h = go x.superseded_by_id refl
    where
      go :
          (o : Option String)
          → x.superseded_by_id ≡ o
          → (j : String) × (y : Episode F) × (get_episode db.episodes j ≡ some y)
            × (walk_owned fuel db project (x.id ∷ visited) y ≡ err out_of_fuel)
      go none q = absurd (ground arith)
      go (some j) q = elim (Bool-cases (is_text j)) [
        | inl t ↦ elim (Option-cases (get_episode db.episodes j)) [
          | inl gone ↦ absurd (ground arith)
          | inr (y, found) ↦ elim (Bool-cases (y.project_id == project)) [
            | inl p ↦ (j, y, found, ground arith)
            | inr n ↦ absurd (ground arith)
          ]
        ]
        | inr n ↦ absurd (ground arith)
      ]

  walk_owned-ends :
      (fuel : ℕ) (x : Episode F) (visited : List String) (k : String)
      → get_episode db.episodes k ≡ some x
      → unvisited visited db.episodes < fuel
      → walk_owned fuel db project visited x ≢ err out_of_fuel
  walk_owned-ends zero x visited k found room h = absurd (omega arith)
  walk_owned-ends (suc fuel) x visited k found room h = elim (Bool-cases (contains visited x.id)) [
    | inl t ↦ walk_owned-seen fuel visited x t h
    | inr f ↦
        let here = rw (← get_episode-id db.episodes k x found) at found in
        let less = unvisited-visit visited db.episodes x.id (λ q. cc (here, q)) f in
        let (j, y, found', h') = walk_owned-fuel fuel visited x h in
        walk_owned-ends fuel y (x.id ∷ visited) j found' (omega arith) h'
  ]

-- What holds after `supersede_episode` returns.
record Replaced {F : Type 0} (now : ℕ) (db : Store F) (project k j : String)
    (r : EpisodeView F × Store F) : Type 0 where
  item : Episode F
  replacement : Episode F
  found : get_episode db.episodes j ≡ some replacement
  walked : walk_owned (suc (length db.episodes)) db project (item.id ∷ []) replacement ≡ ok tt
  stored : r.1 ≡ put_episode (superseded_row now item j) db

module _ {F : Type 0} (now : ℕ) (db : Store F) (project k j : String) where
  supersede_episode-Replaced :
      {r : EpisodeView F × Store F}
      → supersede_episode now db project k j ≡ ok r
      → Replaced now db project k j r
  unfolding supersede_episode
  supersede_episode-Replaced {r} h =
      let (item, owned, h1) = >>=-eq-ok (owned_episode db project k) _ h in
      let (replacement, owned', h2) = >>=-eq-ok (owned_episode db project j) _ h1 in
      record {
        item = item;
        replacement = replacement;
        found = (owned_episode-found db project j replacement owned').0;
        walked = ground arith;
        stored = ground arith;
      }

  -- If the chains of superseded episodes are finite, they are finite after the handler has
  -- superseded one more.
  pub supersede_episode-IsAcyclic :
      {r : EpisodeView F × Store F}
      → supersede_episode now db project k j ≡ ok r
      → IsAcyclic db.episodes
      → IsAcyclic r.1.episodes
  supersede_episode-IsAcyclic {r} h acyclic =
      let s = supersede_episode-Replaced h in
      let e = superseded_row now s.item j in
      let es = db.episodes in
      let end_of_j : Ends (put_row e es) (get_episode (put_row e es) j) =
        walk_owned-Ends db project e (suc (length es)) s.replacement (s.item.id ∷ []) j
          (ground (arith, ==_refl s.item.id)) s.found s.walked in
      let own : Ends (put_row e es) (successor (put_row e es) e) = elim (Bool-cases (is_text j)) [
        | inl t ↦ rw t end_of_j
        | inr f ↦ rw f stop
      ] in
      rw s.stored (λ i. Ends-put_row es e own (acyclic i) i refl)
