-- ===== src/Store/Lookup.antt =====
-- What a lookup by primary key sees, and what it sees after a row was written.
use open_graph_memory.Prelude.{
  String, ◌≡◌, false, Option, none, some, List, [], ◌∷◌, inl, inr, arith, ◌==◌, eq_iff, map, not,
  where_rows, update_rows, Bool-cases, some_inj, subst, if◌then◌else◌,
}
use open_graph_memory.Rows.{Episode}
use open_graph_memory.Store.{Store, has_id, get_episode, forget_episode, delete_episode}

module _ {F : Type 0} where
  -- `put_episode` on the table
  abbrev pub put_row : Episode F → List (Episode F) → List (Episode F)
  put_row e es = update_rows (has_id e.id) (λ _. e) es

  abbrev pub replaced : Episode F → Option (Episode F) → Option (Episode F)
  replaced e none = none
  replaced e (some _) = some e

  pub get_episode-id :
      (es : List (Episode F)) (k : String) (e : Episode F) → get_episode es k ≡ some e → e.id ≡ k
  get_episode-id [] k e h = cc
  get_episode-id (x ∷ es) k e h = elim (Bool-cases (x.id == k)) [
    | inl t ↦ subst (λ (y : Episode F). y.id ≡ k) (some_inj (rw t at h)) ((eq_iff x.id k).0 t)
    | inr f ↦ get_episode-id es k e (rw f at h)
  ]

  pub get_episode-put_row :
      (e : Episode F) (es : List (Episode F)) (k : String)
      → get_episode (put_row e es) k
        ≡ (if e.id == k then replaced e (get_episode es k) else get_episode es k)
  get_episode-put_row e [] k = ground arith
  get_episode-put_row e (x ∷ es) k =
      ground (arith, get_episode-put_row e es k, eq_iff x.id e.id, eq_iff x.id k, eq_iff e.id k)

  pub get_episode-put_row_ne :
      (e : Episode F) (es : List (Episode F)) (k : String)
      → (e.id == k) ≡ false
      → get_episode (put_row e es) k ≡ get_episode es k
  get_episode-put_row_ne e es k h = rw (get_episode-put_row e es k, h)

  pub get_episode-put_row_missing :
      (e : Episode F) (es : List (Episode F)) (k : String)
      → get_episode es k ≡ none
      → get_episode (put_row e es) k ≡ none
  get_episode-put_row_missing e es k h = ground (arith, get_episode-put_row e es k)

  abbrev pub forgotten : String → Option (Episode F) → Option (Episode F)
  forgotten k none = none
  forgotten k (some e) = some (forget_episode k e)

  get-without :
      (k j : String) (es : List (Episode F))
      → get_episode (map (forget_episode k) (where_rows (λ e. not (has_id k e)) es)) j
        ≡ (if k == j then none else forgotten k (get_episode es j))
  get-without k j [] = ground arith
  get-without k j (x ∷ es) =
      ground (arith, get-without k j es, eq_iff x.id k, eq_iff x.id j, eq_iff k j)

  pub get_episode-delete_episode :
      (k j : String) (db : Store F)
      → get_episode (delete_episode k db).episodes j
        ≡ (if k == j then none else forgotten k (get_episode db.episodes j))
  unfolding delete_episode
  get_episode-delete_episode k j db = get-without k j db.episodes
