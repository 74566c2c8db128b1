-- ===== src/Plugins/Registry/Idempotent.antt =====
-- packages/contracts registry.py: what a creation without arguments returns the next time, whatever was
-- registered and created in between.
use open_graph_memory.Prelude.{
  ℕ, String, ◌≡◌, refl, sym, subst, ◌∙◌, inl, inr, true, Option, none, some, List, [], ◌∷◌,
  Bool-cases, Option-cases, some_inj,
}
use open_graph_memory.Prelude.Results.{Result, ok, err, >>=-eq-ok, ok_inj, Result-cases}
use open_graph_memory.Plugins.Metadata.{PluginMetadata}
use open_graph_memory.Plugins.Registry.{
  PluginKey, key_eq, Plugged, PluginEntry, Registry, find_entry, set_entry, make, construct,
  register, get_entry, create, check_metadata, key_of, is_same_registration,
}
use open_graph_memory.Plugins.Registry.Coherent.{key_eq_iff, find_entry-set_entry, set_entry_same}

pub data Call (Factory Protocol Argument : Type 0) : Type 0 where
  registering : PluginMetadata → Factory → Option Protocol → Call Factory Protocol Argument
  creating : ℕ → PluginKey → List (String × Argument) → Call Factory Protocol Argument

module _ {Factory Protocol Instance Argument : Type 0}
    (plugged : Plugged Factory Protocol Instance Argument) where
  abbrev Entries : Type 0
  Entries = Registry Factory Protocol Instance

  abbrev Entry : Type 0
  Entry = PluginEntry Factory Protocol Instance

  -- A call that raises leaves the registry.
  abbrev after_register : Entries → Result Entries → Entries
  after_register r (err e) = r
  after_register r (ok s) = s

  abbrev after_create : Entries → Result (Instance × Entries) → Entries
  after_create r (err e) = r
  after_create r (ok made) = made.1

  abbrev pub step : Call Factory Protocol Argument → Entries → Entries
  step (registering m f p) r = after_register r (register plugged r m f p)
  step (creating now k kwargs) r = after_create r (create plugged now r k kwargs)

  -- the registry after some calls
  abbrev pub after : List (Call Factory Protocol Argument) → Entries → Entries
  after [] r = r
  after (c ∷ cs) r = after cs (step c r)

  -- The registry has the instance in the cache of the entry.
  abbrev Caches : Entries → PluginKey → Instance → Type 0
  Caches r k i = (e : Entry) × (find_entry plugged r k ≡ some e) × (e.cached ≡ some i)

  -- What a construction without arguments returns, it leaves in the cache.
  construct-cached :
      (now : ℕ) (e : Entry) (made : Instance × Entry)
      → construct plugged now e [] ≡ ok made
      → made.1.cached ≡ some made.0
  unfolding construct
  construct-cached now e made q = elim (Option-cases e.cached) [
    | inl n ↦
        let (i, m, r) =
          >>=-eq-ok (make plugged now e.metadata e.factory e.protocol []) _ (rw n at q) in
        subst (λ (z : Instance × Entry). z.1.cached ≡ some z.0) (ok_inj r) refl
    | inr (i, c) ↦ subst (λ (z : Instance × Entry). z.1.cached ≡ some z.0) (ok_inj (rw c at q)) c
  ]

  -- A construction keeps the instance that is in the cache.
  construct-keeps :
      (now : ℕ) (e : Entry) (kwargs : List (String × Argument)) (made : Instance × Entry)
      (i : Instance)
      → e.cached ≡ some i
      → construct plugged now e kwargs ≡ ok made
      → made.1.cached ≡ some i
  unfolding construct
  construct-keeps now e [] made i c q =
      subst (λ (z : Instance × Entry). z.1.cached ≡ some i) (ok_inj (rw c at q)) c
  construct-keeps now e (x ∷ xs) made i c q =
      let (j, m, r) = >>=-eq-ok (make plugged now e.metadata e.factory e.protocol (x ∷ xs)) _ q in
      subst (λ (z : Instance × Entry). z.1.cached ≡ some i) (ok_inj r) c

  -- An entry that is written under a key is found under it, and the other entries are as before.
  set_entry-Caches :
      (j k : PluginKey) (d : Entry) (r : Entries) (i : Instance)
      → ((key_eq j k ≡ true) → d.cached ≡ some i)
      → Caches r k i
      → Caches (set_entry plugged j d r) k i
  set_entry-Caches j k d r i own (e, found, c) = elim (Bool-cases (key_eq j k)) [
    | inl t ↦ (d, rw (find_entry-set_entry plugged j k d r, t) refl, own t)
    | inr f ↦ (e, rw (find_entry-set_entry plugged j k d r, f) found, c)
  ]

  abbrev pub fresh : PluginMetadata → Factory → Option Protocol → Entry
  fresh m f p = record { metadata = m; factory = f; protocol = p; cached = none }

  registering-Caches :
      (m : PluginMetadata) (f : Factory) (p : Option Protocol) (r : Entries) (k : PluginKey)
      (i : Instance)
      → Caches r k i
      → Caches (step (registering m f p) r) k i
  unfolding register
  registering-Caches m f p r k i (e, found, c) = elim (Result-cases (check_metadata plugged m)) [
    | inl (x, bad) ↦ rw bad (e, found, c)
    | inr (u, good) ↦ elim (Option-cases (find_entry plugged r (key_of plugged m))) [
      | inl n ↦
          rw (good, n)
            (set_entry-Caches (key_of plugged m) k (fresh m f p) r i
              (λ t.
                let there =
                  subst (λ l. find_entry plugged r l ≡ none) ((key_eq_iff (key_of plugged m) k).0 t)
                    n in
                cc)
              (e, found, c))
      | inr (d, here) ↦
          elim (Bool-cases (is_same_registration plugged d.metadata d.factory d.protocol m f p)) [
            | inl t ↦ rw (good, here, t) (e, found, c)
            | inr g ↦ rw (good, here, g) (e, found, c)
          ]
    ]
  ]

  creating-Caches :
      (now : ℕ) (j : PluginKey) (kwargs : List (String × Argument)) (r : Entries) (k : PluginKey)
      (i : Instance)
      → Caches r k i
      → Caches (step (creating now j kwargs) r) k i
  unfolding create get_entry
  creating-Caches now j kwargs r k i (e, found, c) = elim (Option-cases (find_entry plugged r j)) [
    | inl n ↦ rw (create, get_entry, n) (e, found, c)
    | inr (d, here) ↦ elim (Result-cases (construct plugged now d kwargs)) [
      | inl (x, bad) ↦ rw (create, get_entry, here, bad) (e, found, c)
      | inr (made, good) ↦
          rw (create, get_entry, here, good)
            (set_entry-Caches j k made.1 r i
              (λ t.
                let there =
                  subst (λ l. find_entry plugged r l ≡ some d) ((key_eq_iff j k).0 t) here in
                let same : e ≡ d = some_inj (sym found ∙ there) in
                construct-keeps now d kwargs made i
                  (subst (λ (z : Entry). z.cached ≡ some i) same c) good)
              (e, found, c))
    ]
  ]

  after-Caches :
      (cs : List (Call Factory Protocol Argument)) (r : Entries) (k : PluginKey) (i : Instance)
      → Caches r k i
      → Caches (after cs r) k i
  after-Caches [] r k i h = h
  after-Caches (registering m f p ∷ cs) r k i h =
      after-Caches cs _ k i (registering-Caches m f p r k i h)
  after-Caches (creating now j kwargs ∷ cs) r k i h =
      after-Caches cs _ k i (creating-Caches now j kwargs r k i h)

  create-Caches :
      (now : ℕ) (r : Entries) (k : PluginKey) (made : Instance × Entries)
      → create plugged now r k [] ≡ ok made
      → Caches made.1 k made.0
  unfolding create get_entry
  create-Caches now r k made q = elim (Option-cases (find_entry plugged r k)) [
    | inl n ↦ let q2 = rw (create, get_entry, n) at q in cc
    | inr (e, found) ↦
        let (m, built, q2) =
          >>=-eq-ok (construct plugged now e []) _ (rw (create, get_entry, found) at q) in
        let own : key_eq k k ≡ true = (key_eq_iff k k).1 refl in
        subst (λ (z : Instance × Entries). Caches z.1 k z.0) (ok_inj q2)
          (
            m.1,
            rw (find_entry-set_entry plugged k k m.1 r, own) refl,
            construct-cached now e m built,
          )
  ]

  cached-create :
      (now : ℕ) (r : Entries) (k : PluginKey) (i : Instance)
      → Caches r k i
      → create plugged now r k [] ≡ ok (i, r)
  unfolding create get_entry construct
  cached-create now r k i (e, found, c) =
      rw (create, get_entry, found) (rw c (λ l. ok (i, set_entry_same plugged k r found l)))

  -- After a creation without arguments that returned an instance, the next one under the same key
  -- returns the same instance and changes nothing, whatever was registered and created in between,
  -- and whatever the factory would make by then.
  pub create-create :
      (now later : ℕ) (r : Entries) (k : PluginKey) (made : Instance × Entries)
      (cs : List (Call Factory Protocol Argument))
      → create plugged now r k [] ≡ ok made
      → create plugged later (after cs made.1) k [] ≡ ok (made.0, after cs made.1)
  create-create now later r k made cs q =
      cached-create later (after cs made.1) k made.0
        (after-Caches cs made.1 k made.0 (create-Caches now r k made q))
