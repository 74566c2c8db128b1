-- ===== src/Memory/Episodes/Attempts/Numbering.antt =====
-- memory/api.py `append_attempt`: the sequence numbers of an episode's attempts.
use open_graph_memory.Prelude.{
  ℕ, ◌+◌, ◌≤◌, ◌<◌, max, String, ◌≡◌, ◌≢◌, refl, true, List, [], ◌∷◌, ◌++◌, inl, inr, arith, ◌==◌,
  eq_iff, All, All-append, All-map, Bool-cases,
}
use open_graph_memory.Prelude.Results.{ok, guard, >>=-eq-ok}
use open_graph_memory.Rows.{Attempt}
use open_graph_memory.Store.{Store}
use open_graph_memory.Store.Lookup.{get_episode-id}
use open_graph_memory.Memory.Service.{AttemptView, owned_episode, owned_episode-found}
use open_graph_memory.Memory.Episodes.{AttemptInput}
use open_graph_memory.Memory.Episodes.Attempts.{append_attempt, last_sequence, takes_attempts}

abbrev Differs : Attempt → Attempt → Type 0
Differs a b = b.episode_id ≡ a.episode_id → b.sequence ≢ a.sequence

-- No two attempts of an episode have the same number.
abbrev pub AreNumbered : List Attempt → Type 0
AreNumbered [] = Unit
AreNumbered (a ∷ rows) = All (Differs a) rows × AreNumbered rows

AreNumbered-snoc :
    (rows : List Attempt) (a : Attempt)
    → AreNumbered rows
    → All (λ b. Differs b a) rows
    → AreNumbered (rows ++ a ∷ [])
AreNumbered-snoc [] a d h = (tt, tt)
AreNumbered-snoc (b ∷ rows) a d h =
    (All-append (Differs b) rows (a ∷ []) d.0 (h.0, tt), AreNumbered-snoc rows a d.1 h.1)

abbrev UpTo : String → ℕ → Attempt → Type 0
UpTo k n a = (a.episode_id == k) ≡ true → a.sequence ≤ n

abbrev pub Under : String → ℕ → Attempt → Type 0
Under k n a = (a.episode_id == k) ≡ true → a.sequence < n

last_sequence-UpTo : (k : String) (rows : List Attempt) → All (UpTo k (last_sequence k rows)) rows
unfolding last_sequence
last_sequence-UpTo k [] = tt
last_sequence-UpTo k (a ∷ rows) =
    let rest = last_sequence-UpTo k rows in
    elim (Bool-cases (a.episode_id == k)) [
      | inl t ↦
          let e : last_sequence k (a ∷ rows) ≡ max a.sequence (last_sequence k rows) =
            rw (t, last_sequence) refl in
          (λ q. omega arith, All-map (λ b below q. let le = below q in omega arith) rows rest)
      | inr f ↦
          let e : last_sequence k (a ∷ rows) ≡ last_sequence k rows = rw (f, last_sequence) refl in
          (
            λ q. absurd (ground arith),
            All-map (λ b below q. let le = below q in omega arith) rows rest,
          )
    ]

module _ {F : Type 0} (new_id : String) (now : ℕ) (db : Store F) (project k : String)
    (body : AttemptInput) where
  record Appended (r : AttemptView × Store F) : Type 0 where
    attempt : Attempt
    of_episode : attempt.episode_id ≡ k
    numbered : attempt.sequence ≡ last_sequence k db.attempts + 1
    viewed : r.0.sequence ≡ attempt.sequence
    stored : r.1.attempts ≡ db.attempts ++ attempt ∷ []

  append_attempt-Appended :
      {r : AttemptView × Store F} → append_attempt new_id now db project k body ≡ ok r → Appended r
  unfolding append_attempt
  append_attempt-Appended {r} h =
      let (item, owned, h1) = >>=-eq-ok (owned_episode db project k) _ h in
      let (found, mine) = owned_episode-found db project k item owned in
      let (u, accepted, h2) = >>=-eq-ok (guard (takes_attempts item.status) _) _ h1 in
      let same : item.id ≡ k = get_episode-id db.episodes k item found in
      record {
        attempt = record {
          id = new_id;
          episode_id = item.id;
          sequence = last_sequence item.id db.attempts + 1;
          hypothesis = body.hypothesis;
          actions = body.actions;
          result = body.result;
          notes = body.notes;
          metadata = body.metadata;
        };
        of_episode = same;
        numbered = rw same refl;
        viewed = ground arith;
        stored = ground arith;
      }

  -- An attempt that was accepted has a number above those of all attempts that its episode had,
  -- and if no two attempts of an episode had the same number, none have afterwards.
  pub append_attempt-AreNumbered :
      {r : AttemptView × Store F}
      → append_attempt new_id now db project k body ≡ ok r
      → All (Under k r.0.sequence) db.attempts
        × (AreNumbered db.attempts → AreNumbered r.1.attempts)
  append_attempt-AreNumbered {r} h =
      let m = append_attempt-Appended h in
      let below = last_sequence-UpTo k db.attempts in
      (
        All-map (λ a up q. let le = up q in let e = m.viewed in let n = m.numbered in omega arith)
            db.attempts below,
        λ apart. rw m.stored (
            AreNumbered-snoc db.attempts m.attempt apart (
              All-map
                (λ a up same s.
                  let le = up (ground (arith, eq_iff a.episode_id k, m.of_episode)) in
                  let n = m.numbered in omega arith)
                db.attempts below)),
      )
