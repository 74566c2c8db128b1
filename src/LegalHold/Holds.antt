-- ===== src/LegalHold/Holds.antt =====
-- legal_hold.py: the resource of a hold that was made.
use open_graph_memory.Prelude.{
  ℕ, String, ◌≡◌, ◌≢◌, refl, Bool, true, false, ◌&&◌, List, [], ◌∷◌, ◌++◌, arith, ◌==◌, eq_iff,
  ==_refl, contains, any_row, find_row, where_rows,
}
use open_graph_memory.Prelude.Results.{ok}
use open_graph_memory.Rows.{LegalHold}
use open_graph_memory.Store.{Store}
use open_graph_memory.LegalHold.{
  LegalHoldInput, create_legal_hold, check_legal_hold, is_some, is_listed, is_project_hold,
}

-- a hold of the project on the resource, of whatever type, or on the project itself
abbrev pub is_hold_on : String → String → LegalHold → Bool
is_hold_on owner k h = h.project_id == owner && h.resource_id == k

listed-any :
    (owner k : String) (hs : List LegalHold)
    → is_listed
        (where_rows (λ h. h.project_id == owner && contains (k ∷ []) h.resource_id && true) hs)
      ≡ any_row (is_hold_on owner k) hs
listed-any owner k [] = refl
listed-any owner k (h ∷ hs) =
    ground (arith, listed-any owner k hs, eq_iff k h.resource_id, eq_iff h.resource_id k)

module _ {F : Type 0} (db : Store F) (owner k : String) where
  pub check-clear :
      check_legal_hold db owner (k ∷ []) [] ≡ ok tt
      → (any_row (is_hold_on owner k) db.holds ≡ false)
        × (is_some (find_row (is_project_hold owner) db.holds) ≡ false)
  unfolding check_legal_hold
  check-clear h = ground (arith, listed-any owner k db.holds)

any-append :
    {A : Type 0} (p : A → Bool) (xs : List A) (x : A) → p x ≡ true → any_row p (xs ++ x ∷ []) ≡ true
any-append p [] x h = rw h
any-append p (y ∷ xs) x h = ground (arith, any-append p xs x h)

module _ {F : Type 0} (new_id : String) (now : ℕ) (db : Store F) (owner : String)
    (body : LegalHoldInput) {r : LegalHold × Store F}
    (made : create_legal_hold new_id now db owner body ≡ ok r) where
  stored-holds :
      (r.1.holds ≡ db.holds ++ r.0 ∷ [])
      × (r.0.project_id ≡ owner)
      × (r.0.resource_type ≡ body.resource_type)
      × (r.0.resource_id ≡ body.resource_id)
  unfolding create_legal_hold
  stored-holds = ground arith

  -- Once a hold is made, the check does not pass its resource.
  pub check_legal_hold-create : check_legal_hold r.1 owner (body.resource_id ∷ []) [] ≢ ok tt
  check_legal_hold-create h =
      let (holds, p, t, i) = stored-holds in
      let (no_hold, _) = check-clear r.1 owner body.resource_id h in
      let seen : is_hold_on owner body.resource_id r.0 ≡ true =
        rw (p, i, ==_refl owner) (==_refl body.resource_id) in
      let there = any-append (is_hold_on owner body.resource_id) db.holds r.0 seen in
      let none_there = rw holds at no_hold in cc
