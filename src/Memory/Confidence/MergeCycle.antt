-- ===== src/Memory/Confidence/MergeCycle.antt =====
-- memory/confidence.py `merge_memories`: the link from the target to the source, for which no chain is
-- looked at first.
use open_graph_memory.Prelude.{
  ℕ, ◌+◌, ◌++◌, [], ◌∷◌, String, ◌≡◌, ◌⊎◌, refl, true, false, Option, none, some, List, inl, inr,
  arith, ◌==◌, eq_iff, is_text, Bool-cases, Option-cases, ap, some_inj, ◌∙◌,
}
use open_graph_memory.Prelude.Results.{ok}
use open_graph_memory.Json.{Fields}
use open_graph_memory.Floats.{Floats}
use open_graph_memory.Rows.{Episode}
use open_graph_memory.Store.{Store, get_episode}
use open_graph_memory.Store.Lookup.{
  put_row, replaced, get_episode-id, get_episode-put_row, get_episode-put_row_ne,
}
use open_graph_memory.Memory.Confidence.{successor, snapshot, superseded_row, merge_memories}
use open_graph_memory.Memory.Confidence.Acyclic.{Ends, stop, step, IsAcyclic, Ends-put_row}

module _ {F : Type 0} (fl : Floats F) (now : ℕ) (db : Store F) (source : Episode F) (k : String)
    (content : Option Fields) (given : Option F) where
  -- What holds after `merge_memories` returns.
  pub record Merged (r : Episode F × Store F) : Type 0 where
    pub target : Episode F
    pub found : get_episode db.episodes k ≡ some target
    pub other : (target.id == source.id) ≡ false
    pub same_id : r.0.id ≡ source.id
    pub same_link : r.0.superseded_by_id ≡ source.superseded_by_id
    pub next_version : r.0.version ≡ source.version + 1
    pub added : r.1.versions ≡ db.versions ++ snapshot source ∷ []
    pub stored :
        r.1.episodes ≡ put_row (superseded_row now target source.id) (put_row r.0 db.episodes)

  pub merge_memories-Merged :
      {r : Episode F × Store F} → merge_memories fl now db source k content given ≡ ok r → Merged r
  unfolding merge_memories
  merge_memories-Merged {r} h = elim (Option-cases (get_episode db.episodes k)) [
    | inl gone ↦ absurd (ground arith)
    | inr (t, found) ↦ record {
      target = t;
      found = found;
      other = ground arith;
      same_id = ground arith;
      same_link = ground arith;
      next_version = ground arith;
      added = ground arith;
      stored = ground arith;
    }
  ]

module _ {F : Type 0} (es : List (Episode F)) where
  -- Two episodes that supersede one another are on no finite chain.
  two_cycle :
      (a b : Episode F)
      → successor es a ≡ some b
      → successor es b ≡ some a
      → {o : Option (Episode F)} → Ends es o
      → (o ≡ some a) ⊎ (o ≡ some b)
      → ⊥
  two_cycle a b p q stop (inl h) = cc
  two_cycle a b p q stop (inr h) = cc
  two_cycle a b p q (step x rest) (inl h) =
      two_cycle a b p q rest (inr (ap (successor es) (some_inj h) ∙ p))
  two_cycle a b p q (step x rest) (inr h) =
      two_cycle a b p q rest (inl (ap (successor es) (some_inj h) ∙ q))

module _ {F : Type 0} (es : List (Episode F)) (x : Episode F) where
  successor_free : x.superseded_by_id ≡ none → successor es x ≡ none
  successor_free q = rw (q, successor)

  successor_linked :
      (k : String)
      → x.superseded_by_id ≡ some k
      → is_text k ≡ true
      → successor es x ≡ get_episode es k
  successor_linked k q t = rw (q, successor, t)

module _ {F : Type 0} (fl : Floats F) (now : ℕ) (db : Store F) (source : Episode F) (k : String)
    (content : Option Fields) (given : Option F) where
  module _ {r : Episode F × Store F} (m : Merged fl now db source k content given r) where
    abbrev first : List (Episode F)
    first = put_row r.0 db.episodes

    abbrev target_row : Episode F
    target_row = superseded_row now m.target source.id

    abbrev second : List (Episode F)
    second = put_row target_row first

    -- After the merge the source's id still finds the source, in its new state.
    get-source : get_episode second source.id ≡ replaced r.0 (get_episode db.episodes source.id)
    get-source = rw (get_episode-put_row_ne target_row first source.id m.other) (
        ground (
          arith,
          get_episode-put_row r.0 db.episodes source.id,
          m.same_id,
          eq_iff r.0.id source.id,
        ))

    get-target : get_episode second k ≡ some target_row
    get-target = ground (
      arith,
      get_episode-put_row target_row first k,
      get_episode-put_row r.0 db.episodes k,
      get_episode-id db.episodes k m.target m.found,
      m.found,
      m.other,
      m.same_id,
      eq_iff m.target.id k,
      eq_iff r.0.id k,
      eq_iff m.target.id source.id,
    )

  -- If the chains of superseded episodes are finite and the source of a merge is not superseded,
  -- the chains are finite after the merge too.
  pub merge_memories-IsAcyclic :
      {r : Episode F × Store F}
      → merge_memories fl now db source k content given ≡ ok r
      → source.superseded_by_id ≡ none
      → IsAcyclic db.episodes
      → IsAcyclic r.1.episodes
  merge_memories-IsAcyclic {r} h free acyclic =
      let m = merge_memories-Merged fl now db source k content given h in
      let free' : r.0.superseded_by_id ≡ none = m.same_link ∙ free in
      let es1 = first m in
      let es2 = second m in
      let own1 : Ends es1 (successor es1 r.0) = rw (successor_free es1 r.0 free') stop in
      let end_of_source : Ends es2 (get_episode es2 source.id) =
        rw (get-source m) (elim (Option-cases (get_episode db.episodes source.id)) [
          | inl gone ↦ rw gone stop
          | inr (x, held) ↦ rw held (step r.0 (rw (successor_free es2 r.0 free') stop))
        ]) in
      let own2 : Ends es2 (successor es2 (target_row m)) = elim (Bool-cases (is_text source.id)) [
        | inl t ↦ rw t end_of_source
        | inr f ↦ rw f stop
      ] in
      let acyclic1 : IsAcyclic es1 = λ j. Ends-put_row db.episodes r.0 own1 (acyclic j) j refl in
      rw m.stored (λ j. Ends-put_row es1 (target_row m) own2 (acyclic1 j) j refl)

  -- Where the target of a merge is the episode that supersedes the source, the source is stored
  -- and both have ids that are not empty, a merge that returns leaves a store in which a
  -- supersession chain has no end.
  pub merge_memories_cycle :
      {r : Episode F × Store F}
      → merge_memories fl now db source k content given ≡ ok r
      → get_episode db.episodes source.id ≡ some source
      → is_text source.id ≡ true
      → is_text k ≡ true
      → source.superseded_by_id ≡ some k
      → ¬ IsAcyclic r.1.episodes
  merge_memories_cycle {r} h held named k_named linked acyclic =
      let m = merge_memories-Merged fl now db source k content given h in
      let es2 = second m in
      let found : get_episode es2 source.id ≡ some r.0 = rw (get-source m, held) in
      let forth : successor es2 r.0 ≡ some (target_row m) =
        successor_linked es2 r.0 k (m.same_link ∙ linked) k_named ∙ get-target m in
      let back : successor es2 (target_row m) ≡ some r.0 =
        successor_linked es2 (target_row m) source.id refl named ∙ found in
      let acyclic' : IsAcyclic es2 = rw m.stored at acyclic in
      two_cycle es2 r.0 (target_row m) forth back (acyclic' source.id) (inl found)
