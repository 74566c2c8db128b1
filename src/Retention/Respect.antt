-- ===== src/Retention/Respect.antt =====
-- retention.py `apply_retention`: held episodes, and the count of the affected ones.
use open_graph_memory.Prelude.{
  ℕ, ◌+◌, String, ◌≡◌, ◌⊎◌, refl, ◌∙◌, Bool, true, false, Option, none, some, opt_eq, if◌then◌else◌,
  List, [], ◌∷◌, inl, inr, arith, ◌==◌, eq_iff, contains, Bool-cases, find_row,
}
use open_graph_memory.Rows.{Episode, RetentionAction, archive, delete, archived}
use open_graph_memory.Store.{Store, get_episode, forget_episode}
use open_graph_memory.Store.Lookup.{get_episode-put_row_ne, get_episode-delete_episode}
use open_graph_memory.LegalHold.{is_project_hold, is_some}
use open_graph_memory.Retention.{RetentionInput, retire, retire_all, held_ids, apply_retention}

-- an episode without its links to other episodes
abbrev pub unlinked : {F : Type 0} → Episode F → Episode F
unlinked e = record e { root_id = none; superseded_by_id = none }

-- The link is as it was, or it is cleared.
abbrev pub IsLink : Option String → Option String → Type 0
IsLink before after = (after ≡ before) ⊎ (after ≡ none)

-- Two states of an episode that have all fields in common but the links, some of which the second
-- may have lost.
pub record SameEpisode {F : Type 0} (a b : Episode F) : Type 0 where
  pub same_fields : unlinked b ≡ unlinked a
  pub same_root : IsLink a.root_id b.root_id
  pub same_successor : IsLink a.superseded_by_id b.superseded_by_id

abbrev pub IsKept : {F : Type 0} → Episode F → List (Episode F) → String → Type 0
IsKept {F} e es k = (e' : Episode F) × (get_episode es k ≡ some e') × SameEpisode e e'

cleared-IsLink : (o : Option String) (b : Bool) → IsLink o (if b then none else o)
cleared-IsLink o true = inr refl
cleared-IsLink o false = inl refl

IsLink-trans : (a b c : Option String) → IsLink a b → IsLink b c → IsLink a c
IsLink-trans a b c (inl p) (inl q) = inl (q ∙ p)
IsLink-trans a b c (inr p) (inl q) = inr (q ∙ p)
IsLink-trans a b c h (inr q) = inr q

module _ {F : Type 0} where
  SameEpisode-refl : (e : Episode F) → SameEpisode e e
  SameEpisode-refl e = record {
    same_fields = refl;
    same_root = inl refl;
    same_successor = inl refl;
  }

  SameEpisode-forget : (k : String) (e : Episode F) → SameEpisode e (forget_episode k e)
  SameEpisode-forget k e = record {
    same_fields = refl;
    same_root = cleared-IsLink e.root_id (opt_eq e.root_id k);
    same_successor = cleared-IsLink e.superseded_by_id (opt_eq e.superseded_by_id k);
  }

  SameEpisode-trans : (a b c : Episode F) → SameEpisode a b → SameEpisode b c → SameEpisode a c
  SameEpisode-trans a b c p q = record {
    same_fields = q.same_fields ∙ p.same_fields;
    same_root = IsLink-trans a.root_id b.root_id c.root_id p.same_root q.same_root;
    same_successor =
        IsLink-trans a.superseded_by_id b.superseded_by_id c.superseded_by_id p.same_successor
          q.same_successor;
  }

  retire-IsKept :
      (action : RetentionAction) (now : ℕ) (x : Episode F) (db : Store F) (k : String)
      (e : Episode F)
      → (x.id == k) ≡ false
      → get_episode db.episodes k ≡ some e
      → IsKept e (retire action now x db).episodes k
  unfolding retire
  retire-IsKept archive now x db k e other found = (
    e,
    get_episode-put_row_ne (record x { status = archived; updated_at = now }) db.episodes k other
        ∙ found,
    SameEpisode-refl e,
  )
  retire-IsKept delete now x db k e other found = (
    forget_episode x.id e,
    rw (get_episode-delete_episode x.id k db, other, found),
    SameEpisode-forget x.id e,
  )

  retire_all-IsKept :
      (action : RetentionAction) (now : ℕ) (held : List String) (xs : List (Episode F)) (n : ℕ)
      (db : Store F) (k : String) (e : Episode F)
      → contains held k ≡ true
      → get_episode db.episodes k ≡ some e
      → IsKept e (retire_all action now held xs n db).1.episodes k
  unfolding retire_all
  retire_all-IsKept action now held [] n db k e safe found = (e, found, SameEpisode-refl e)
  retire_all-IsKept action now held (x ∷ xs) n db k e safe found =
      elim (Bool-cases (contains held x.id)) [
        | inl t ↦ rw (t, retire_all) (retire_all-IsKept action now held xs n db k e safe found)
        | inr f ↦
            let other : (x.id == k) ≡ false = ground (arith, eq_iff x.id k) in
            let (e1, found1, same1) = retire-IsKept action now x db k e other found in
            let (e2, found2, same2) =
              retire_all-IsKept action now held xs (n + 1) (retire action now x db) k e1 safe
                found1 in
            rw (f, retire_all) (e2, found2, SameEpisode-trans e e1 e2 same1 same2)
      ]

module _ {F : Type 0} (new_id : String) (now : ℕ) (db : Store F) (owner : String)
    (body : RetentionInput) where
  abbrev after : ℕ × Store F
  after = apply_retention new_id now db owner body

  -- An episode that a hold of the project's names, be it a hold on an episode or on a memory, is
  -- there after retention with all fields as they were, except that its links to other episodes
  -- may have been cleared.
  pub apply_retention-IsKept :
      (k : String) (e : Episode F)
      → contains (held_ids owner db.holds) k ≡ true
      → get_episode db.episodes k ≡ some e
      → IsKept e after.1.episodes k
  unfolding apply_retention
  apply_retention-IsKept k e safe found =
      elim (Bool-cases (is_some (find_row (is_project_hold owner) db.holds))) [
        | inl t ↦ rw t (e, found, SameEpisode-refl e)
        | inr f ↦
            rw f (retire_all-IsKept body.action now (held_ids owner db.holds) _ 0 _ k e safe found)
      ]
