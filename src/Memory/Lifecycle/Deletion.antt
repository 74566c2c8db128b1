-- ===== src/Memory/Lifecycle/Deletion.antt =====
-- memory/api.py `hard_delete_episode`: what a hard deletion leaves.
use open_graph_memory.Prelude.{
  ℕ, String, ◌≡◌, refl, sym, subst, Bool, false, not, none, List, [], ◌∷◌, arith, ◌==◌, ==_refl,
  any_row, where_rows, find_row,
}
use open_graph_memory.Prelude.Results.{ok, >>=-eq-ok}
use open_graph_memory.Rows.{Episode, Attempt, Version, Evidence}
use open_graph_memory.Store.{Store, get_episode, delete_episode}
use open_graph_memory.Store.Lookup.{forgotten, get_episode-id, get_episode-delete_episode}
use open_graph_memory.LegalHold.{is_project_hold, is_some, check_legal_hold}
use open_graph_memory.LegalHold.Holds.{is_hold_on, check-clear}
use open_graph_memory.Memory.Service.{owned_episode, owned_episode-found}
use open_graph_memory.Memory.Lifecycle.{hard, remove_episode, hard_delete_episode}

module _ {F : Type 0} (db : Store F) (project k : String) where
  remove-clear :
      (now : ℕ) (e : Episode F) {db' : Store F}
      → remove_episode now db project e hard ≡ ok db'
      → (check_legal_hold db project (e.id ∷ []) [] ≡ ok tt) × (db' ≡ delete_episode e.id db)
  unfolding remove_episode
  remove-clear now e h = ground arith

-- What a deletion leaves: no row of the episode, and every other episode less its links to it.
pub record IsDeleted {F : Type 0} (k : String) (db db' : Store F) : Type 0 where
  pub gone : get_episode db'.episodes k ≡ none
  pub others :
      (j : String)
      → (k == j) ≡ false
      → get_episode db'.episodes j ≡ forgotten k (get_episode db.episodes j)
  pub attempts : any_row (λ (a : Attempt). a.episode_id == k) db'.attempts ≡ false
  pub evidence : any_row (λ (v : Evidence). v.episode_id == k) db'.evidence ≡ false
  pub versions : any_row (λ (v : Version F). v.episode_id == k) db'.versions ≡ false

any-where-not :
    {A : Type 0} (p : A → Bool) (xs : List A) → any_row p (where_rows (λ x. not (p x)) xs) ≡ false
any-where-not p [] = refl
any-where-not p (x ∷ xs) = ground (arith, any-where-not p xs)

delete_episode-IsDeleted :
    {F : Type 0} (k : String) (db : Store F) → IsDeleted k db (delete_episode k db)
unfolding delete_episode
delete_episode-IsDeleted k db = record {
  gone = rw (get_episode-delete_episode k k db, ==_refl k);
  others = λ j f. rw (get_episode-delete_episode k j db, f);
  attempts = any-where-not _ db.attempts;
  evidence = any-where-not _ db.evidence;
  versions = any-where-not _ db.versions;
}

module _ {F : Type 0} (now : ℕ) (db : Store F) (project k : String) where
  hard_delete-parts :
      {db' : Store F}
      → hard_delete_episode now db project k "hard" ≡ ok db'
      → (e : Episode F) × (owned_episode db project k ≡ ok e)
        × (remove_episode now db project e hard ≡ ok db')
  unfolding hard_delete_episode
  hard_delete-parts h = >>=-eq-ok (owned_episode db project k) _ h

  -- A hard deletion that succeeds found no hold of the project's on the episode or on the project,
  -- and leaves no episode under the id, none of its attempts, evidence or versions, and every other
  -- episode as it was, except that links to the deleted one are gone.
  pub hard_delete_episode-IsDeleted :
      {db' : Store F}
      → hard_delete_episode now db project k "hard" ≡ ok db'
      → (any_row (is_hold_on project k) db.holds ≡ false)
        × (is_some (find_row (is_project_hold project) db.holds) ≡ false)
        × IsDeleted k db db'
  hard_delete_episode-IsDeleted {db'} h =
      let (e, owned, removed) = hard_delete-parts h in
      let (found, own) = owned_episode-found db project k e owned in
      let same : e.id ≡ k = get_episode-id db.episodes k e found in
      let (clear, result) = remove-clear db project k now e removed in
      let (no_hold, no_project_hold) = check-clear db project e.id clear in
      (
        rw same at no_hold,
        no_project_hold,
        subst (λ d. IsDeleted k db d) (sym result)
            (subst (λ i. IsDeleted k db (delete_episode i db)) (sym same)
              (delete_episode-IsDeleted k db)),
      )
