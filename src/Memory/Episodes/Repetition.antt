-- ===== src/Memory/Episodes/Repetition.antt =====
-- memory/api.py `create_episode`: a request that is sent again under its key.
use open_graph_memory.Prelude.{
  ℕ, ◌+◌, String, ◌≡◌, refl, Bool, true, false, ◌&&◌, Option, none, some, List, [], ◌∷◌, ◌++◌,
  arith, ◌==◌, ◌∙◌, ap, ==_refl, is_text, any_row, find_row, leb,
}
use open_graph_memory.Prelude.Results.{Result, ok, >>=-eq-ok}
use open_graph_memory.Rows.{Episode, IdempotencyKey}
use open_graph_memory.Store.{Store, get_episode, has_id}
use open_graph_memory.Idempotency.{is_key, check_idempotency, store_idempotency, ttl_seconds}
use open_graph_memory.Redaction.{sanitize_input}
use open_graph_memory.Memory.Service.{EpisodeView, episode_view}
use open_graph_memory.Memory.Episodes.{
  EpisodeInput, given_text, checked_content, checked_key, remembered, remember, new_episode,
  insert_new, create_episode,
}

find_row-append :
    {A : Type 0} (p : A → Bool) (xs : List A) (y : A)
    → any_row p xs ≡ false
    → p y ≡ true
    → find_row p (xs ++ y ∷ []) ≡ some y
find_row-append p [] y h own = rw own refl
find_row-append p (x ∷ xs) y h own =
    let f : p x ≡ false = ground arith in rw f (find_row-append p xs y (ground arith) own)

-- Rows that a weaker test does not find.
any_row-weaker :
    {A : Type 0} (p q : A → Bool)
    → ((x : A) → p x ≡ true → q x ≡ true)
    → (xs : List A) → any_row q xs ≡ false
    → any_row p xs ≡ false
any_row-weaker p q imp [] h = refl
any_row-weaker p q imp (x ∷ xs) h = ground (arith, imp x, any_row-weaker p q imp xs)

any-none : {A : Type 0} (p : A → Bool) (xs : List A) → any_row p xs ≡ false → find_row p xs ≡ none
any-none p [] h = refl
any-none p (x ∷ xs) h = ground (arith, any-none p xs)

abbrev pub of_key : String → String → IdempotencyKey → Bool
of_key key project r = r.key == key && r.project_id == project

abbrev key_row : String → String → String → String → ℕ → IdempotencyKey
key_row key project k result_hash now = record {
  key = key;
  project_id = project;
  operation = "episode.create";
  resource_id = some k;
  result_hash = result_hash;
  created_at = now;
}

remember-some :
    {F : Type 0} (now : ℕ) (result_hash : String) (db : Store F) (project key k : String)
    {o : Option String} {db' : Store F}
    → o ≡ some key
    → remember now result_hash db project o k ≡ ok db'
    → db' ≡ store_idempotency now db key project "episode.create" k result_hash
remember-some now result_hash db project key k {o} {db'} e q = kept (rw e at q)
  where
    kept :
        remember now result_hash db project (some key) k ≡ ok db'
        → db' ≡ store_idempotency now db key project "episode.create" k result_hash
    kept r = ground arith

-- what the handler does after its look at the key
abbrev answer :
    {F : Type 0}
    → (String → String)
    → (ℕ → String)
    → String
    → ℕ
    → Store F
    → String
    → EpisodeInput F
    → Option String × Store F
    → Result (EpisodeView F × Store F)
answer redact ids result_hash now db project body p = elim (remembered p.1 p.0) [
  | some e ↦ ok (episode_view e [], db)
  | none ↦ insert_new redact ids result_hash now p.1 project body
]

answer-known :
    {F : Type 0} (redact : String → String) (ids : ℕ → String) (result_hash : String) (now : ℕ)
    (db db' : Store F) (project : String) (body : EpisodeInput F) (o : Option String)
    (e : Episode F)
    → remembered db' o ≡ some e
    → answer redact ids result_hash now db project body (o, db') ≡ ok (episode_view e [], db)
answer-known redact ids result_hash now db db' project body o e q = rw (answer, q) refl

module _ {F : Type 0} (redact : String → String) (ids : ℕ → String) (result_hash : String) (now : ℕ)
    (db : Store F) (project : String) (body : EpisodeInput F) (key : String)
    (keyed : given_text body.idempotency_key ≡ some key)
    (unused : any_row (of_key key project) db.idempotency_keys ≡ false) where
  -- what a request under a new key leaves
  record Created (r : EpisodeView F × Store F) : Type 0 where
    item : Episode F
    named : item.id ≡ ids 0
    viewed : r.0 ≡ episode_view item []
    stored : r.1.episodes ≡ db.episodes ++ item ∷ []
    kept :
        r.1.idempotency_keys
        ≡ db.idempotency_keys ++ key_row key project (ids 0) result_hash now ∷ []

  first_check : check_idempotency now db key project "episode.create" ≡ (none, db)
  unfolding check_idempotency
  first_check =
      let none_found = any-none (is_key key project "episode.create") db.idempotency_keys (
        any_row-weaker (is_key key project "episode.create") (of_key key project)
          (λ x q. ground arith) db.idempotency_keys unused) in
      rw (none_found, check_idempotency) refl

  checked : checked_key now db project (given_text body.idempotency_key) ≡ (none, db)
  checked = rw keyed first_check

  create-insert :
      create_episode redact ids result_hash now db project body
      ≡ insert_new redact ids result_hash now db project body
  unfolding create_episode
  create-insert = ap (answer redact ids result_hash now db project body) checked

  insert-Created :
      {r : EpisodeView F × Store F}
      → insert_new redact ids result_hash now db project body ≡ ok r
      → Created r
  unfolding insert_new new_episode store_idempotency
  insert-Created {r} h =
      let (content, checked, h1) = >>=-eq-ok (checked_content redact body.type body.content) _ h in
      let item =
        new_episode (ids 0) now project body content (sanitize_input redact body.metadata) in
      let (db'', remembers, h2) =
        >>=-eq-ok (remember now result_hash _ project (given_text body.idempotency_key) (ids 0)) _
          h1 in
      let e = remember-some now result_hash _ project key (ids 0) keyed remembers in
      record {
        item = item;
        named = refl;
        viewed = ground arith;
        stored = ground arith;
        kept = ground arith;
      }

  create_episode-Created :
      {r : EpisodeView F × Store F}
      → create_episode redact ids result_hash now db project body ≡ ok r
      → Created r
  create_episode-Created {r} h = insert-Created (rw (← create-insert) h)

  -- A request under a key that no row has makes an episode. Sent again within the time to live of
  -- its key, with whatever body, it returns the same episode and changes nothing, if the episode's
  -- identifier is new and not empty.
  pub create_episode-create_episode :
      (ids' : ℕ → String) (hash' : String) (later : ℕ) (body' : EpisodeInput F)
      {r : EpisodeView F × Store F}
      → create_episode redact ids result_hash now db project body ≡ ok r
      → given_text body'.idempotency_key ≡ some key
      → leb later (now + ttl_seconds) ≡ true
      → any_row (has_id (ids 0)) db.episodes ≡ false
      → is_text (ids 0) ≡ true
      → create_episode redact ids' hash' later r.1 project body' ≡ ok (r.0, r.1)
  unfolding create_episode check_idempotency
  create_episode-create_episode ids' hash' later body' {r} h keyed' fresh new named =
      let m = create_episode-Created h in
      let row = key_row key project (ids 0) result_hash now in
      let row_found : find_row (is_key key project "episode.create") r.1.idempotency_keys
          ≡ some row =
        rw m.kept (
          find_row-append (is_key key project "episode.create") db.idempotency_keys row
            (any_row-weaker (is_key key project "episode.create") (of_key key project)
              (λ x q. ground arith) db.idempotency_keys unused)
            (ground (arith, ==_refl key, ==_refl project))) in
      let item_found : get_episode r.1.episodes (ids 0) ≡ some m.item =
        rw m.stored (
          find_row-append (has_id (ids 0)) db.episodes m.item new (rw m.named (==_refl (ids 0)))) in
      let known : check_idempotency later r.1 key project "episode.create" ≡ (some (ids 0), r.1) =
        rw (row_found, check_idempotency, fresh) refl in
      let looked : checked_key later r.1 project (given_text body'.idempotency_key)
          ≡ (some (ids 0), r.1) =
        rw keyed' known in
      ap (answer redact ids' hash' later r.1 project body') looked
      ∙ answer-known redact ids' hash' later r.1 r.1 project body' (some (ids 0)) m.item
          (rw named item_found)
      ∙ rw m.viewed refl
