-- ===== src/Memory/Confidence/Versions.antt =====
-- memory/confidence.py: the version history, with the unique constraint of `agent_memory_versions`.
use open_graph_memory.Prelude.{
  ℕ, ◌+◌, ◌≤◌, ◌<◌, String, ◌≡◌, ◌≢◌, refl, sym, ◌∙◌, false, Option, some, List, [], ◌∷◌, ◌++◌, inl,
  inr, arith, ◌==◌, eq_iff, All, All-append, All-map, All-update_rows, find_row-All, Bool-cases,
}
use open_graph_memory.Prelude.Results.{ok}
use open_graph_memory.Json.{Fields}
use open_graph_memory.Floats.{Floats}
use open_graph_memory.Rows.{Episode, Version}
use open_graph_memory.Store.{Store, get_episode, has_id}
use open_graph_memory.Store.Lookup.{put_row, get_episode-put_row_ne, get_episode-id}
use open_graph_memory.Memory.Confidence.{
  FeedbackKind, correct, snapshot, apply_confidence_feedback, merge_memories, superseded_row,
}
use open_graph_memory.Memory.Confidence.MergeCycle.{merge_memories-Merged}

module _ {F : Type 0} where
  -- the kept version is one that the episode has left behind
  abbrev Behind : Version F → Episode F → Type 0
  Behind v e = e.id ≡ v.episode_id → v.version < e.version

  abbrev Differs : Version F → Version F → Type 0
  Differs v w = w.episode_id ≡ v.episode_id → w.version ≢ v.version

  abbrev AllDiffer : List (Version F) → Type 0
  AllDiffer [] = Unit
  AllDiffer (v ∷ vs) = All (Differs v) vs × AllDiffer vs

  -- No version row is as new as its episode, and no two rows keep the same version of an episode.
  pub record IsVersioned (es : List (Episode F)) (vs : List (Version F)) : Type 0 where
    pub behind : All (λ v. All (Behind v) es) vs
    pub differ : AllDiffer vs

  AllDiffer-snoc :
      (vs : List (Version F)) (v : Version F)
      → AllDiffer vs
      → All (λ w. Differs w v) vs
      → AllDiffer (vs ++ v ∷ [])
  AllDiffer-snoc [] v d h = (tt, tt)
  AllDiffer-snoc (w ∷ vs) v d h =
      (All-append (Differs w) vs (v ∷ []) d.0 (h.0, tt), AllDiffer-snoc vs v d.1 h.1)

  All-put_row :
      (P : Episode F → Type 0) (e : Episode F)
      → P e
      → ((x : Episode F) → (x.id == e.id) ≡ false → P x)
      → (es : List (Episode F)) → All P (put_row e es)
  All-put_row P e pe others [] = tt
  All-put_row P e pe others (x ∷ es) = (
    elim (Bool-cases (x.id == e.id)) [ inl t ↦ rw t pe | inr f ↦ rw f (others x f) ],
    All-put_row P e pe others es,
  )

module _ {F : Type 0} (es : List (Episode F)) (vs : List (Version F)) (e e' : Episode F)
    (held : get_episode es e.id ≡ some e) (same : e'.id ≡ e.id) (h : IsVersioned es vs) where
  kept_older : All (λ v. Behind v e) vs
  kept_older = All-map (λ v a. find_row-All (Behind v) (has_id e.id) es a held) vs h.behind

  -- A written row that is no older than the one it replaces.
  pub IsVersioned-put_row : e.version ≤ e'.version → IsVersioned (put_row e' es) vs
  IsVersioned-put_row newer = record { behind = keep vs h.behind kept_older; differ = h.differ }
    where
      keep :
          (us : List (Version F))
          → All (λ v. All (Behind v) es) us
          → All (λ v. Behind v e) us
          → All (λ v. All (Behind v) (put_row e' es)) us
      keep [] a b = tt
      keep (u ∷ us) a b = (
        All-update_rows (Behind u) (has_id e'.id) (λ _. e')
            (λ x _ _ q. let lt = b.0 (sym same ∙ q) in omega arith) es a.0,
        keep us a.1 b.1,
      )

  -- The version that is left behind goes into the history.
  pub IsVersioned-snapshot :
      e'.version ≡ e.version + 1 → IsVersioned (put_row e' es) (vs ++ snapshot e ∷ [])
  IsVersioned-snapshot next =
      let kept = IsVersioned-put_row (omega arith) in
      record {
        behind =
            All-append (λ v. All (Behind v) (put_row e' es)) vs (snapshot e ∷ []) kept.behind
              (
                All-put_row (Behind (snapshot e)) e' (λ _. omega arith)
                    (λ x f q. absurd (ground (arith, eq_iff x.id e'.id))) es,
                tt,
              );
        differ =
            AllDiffer-snoc vs (snapshot e) h.differ
              (All-map (λ v b q s. let lt = b q in omega arith) vs kept_older);
      }

module _ {F : Type 0} (fl : Floats F) (now : ℕ) (db : Store F) (e : Episode F)
    (held : get_episode db.episodes e.id ≡ some e) (h : IsVersioned db.episodes db.versions) where
  -- Accepted feedback of any kind on a stored episode keeps the history, if it was such before: no
  -- two of its rows keep the same version of an episode, and each version kept is older than the
  -- episode's own.
  pub apply_confidence_feedback-IsVersioned :
      (kind : FeedbackKind) (content : Option Fields) (given : Option F) {r : Episode F × Store F}
      → apply_confidence_feedback fl now db e kind content given ≡ ok r
      → IsVersioned r.1.episodes r.1.versions
  unfolding apply_confidence_feedback
  apply_confidence_feedback-IsVersioned correct content given {r} q =
      let row : r.1.episodes ≡ put_row r.0 db.episodes = ground arith in
      let added : r.1.versions ≡ db.versions ++ snapshot e ∷ [] = ground arith in
      rw (row, added)
        (IsVersioned-snapshot db.episodes db.versions e r.0 held (ground arith) h (ground arith))
  apply_confidence_feedback-IsVersioned _ content given {r} q =
      let row : r.1.episodes ≡ put_row r.0 db.episodes = ground arith in
      let kept : r.1.versions ≡ db.versions = ground arith in
      rw (row, kept)
        (IsVersioned-put_row db.episodes db.versions e r.0 held (ground arith) h (ground arith))

  -- A merge of a stored episode that returns keeps the history, if it was such before: no two of
  -- its rows keep the same version of an episode, and each version kept is older than the
  -- episode's own.
  pub merge_memories-IsVersioned :
      (k : String) (content : Option Fields) (given : Option F) {r : Episode F × Store F}
      → merge_memories fl now db e k content given ≡ ok r
      → IsVersioned r.1.episodes r.1.versions
  merge_memories-IsVersioned k content given {r} q =
      let m = merge_memories-Merged fl now db e k content given q in
      let es1 = put_row r.0 db.episodes in
      let target' = superseded_row now m.target e.id in
      let one =
        IsVersioned-snapshot db.episodes db.versions e r.0 held m.same_id h m.next_version in
      let other : (r.0.id == m.target.id) ≡ false =
        ground (arith, m.same_id, m.other, eq_iff r.0.id m.target.id, eq_iff m.target.id e.id) in
      let id_found = get_episode-id db.episodes k m.target m.found in
      let held' : get_episode es1 m.target.id ≡ some m.target =
        get_episode-put_row_ne r.0 db.episodes m.target.id other ∙ (rw id_found m.found) in
      rw (m.stored, m.added)
        (IsVersioned-put_row es1 (db.versions ++ snapshot e ∷ []) m.target target' held' refl one
          (omega arith))
