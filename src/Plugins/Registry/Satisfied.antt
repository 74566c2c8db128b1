-- ===== src/Plugins/Registry/Satisfied.antt =====
-- packages/contracts registry.py: the protocol of an instance that the registry hands out.
use open_graph_memory.Prelude.{
  ℕ, String, [], ◌∷◌, ◌≡◌, ap, ◌∙◌, inl, inr, true, Bool-cases, some_inj, Option, none, some, List,
  Option-cases, subst,
}
use open_graph_memory.Prelude.Results.{ok, >>=-eq-ok, guard-eq-ok, ok_inj, Result-cases}
use open_graph_memory.Plugins.Metadata.{PluginMetadata}
use open_graph_memory.Plugins.Registry.{
  PluginKey, Plugged, PluginEntry, Registry, find_entry, make, construct, get_entry, create,
  check_protocol, run_factory, register, check_metadata, key_of, is_same_registration,
}
use open_graph_memory.Plugins.Registry.Coherent.{
  IsCoherent, AreCoherent, find_entry-IsCoherent, set_entry-AreCoherent,
}
use open_graph_memory.Plugins.Registry.Idempotent.{Call, registering, creating, step, after, fresh}

module _ {Factory Protocol Instance Argument : Type 0}
    (plugged : Plugged Factory Protocol Instance Argument) where
  -- `isinstance(made, protocol)` where the registration names a protocol
  abbrev pub Satisfies : Option Protocol → Instance → Type 0
  Satisfies none made = Unit {0}
  Satisfies (some p) made = plugged.satisfies p made ≡ true

  check_protocol-Satisfies :
      (m : PluginMetadata) (p : Option Protocol) (made : Instance) {u : Unit {0}}
      → check_protocol plugged m p made ≡ ok u
      → Satisfies p made
  check_protocol-Satisfies m none made q = tt
  check_protocol-Satisfies m (some p) made q = guard-eq-ok (plugged.satisfies p made) _ q

  make-Satisfies :
      (now : ℕ) (m : PluginMetadata) (f : Factory) (p : Option Protocol)
      (kwargs : List (String × Argument)) (made : Instance)
      → make plugged now m f p kwargs ≡ ok made
      → Satisfies p made
  unfolding make
  make-Satisfies now m f p kwargs made q =
      let (i, ran, q2) = >>=-eq-ok (run_factory plugged now m f kwargs) _ q in
      let (u, checked, q3) = >>=-eq-ok (check_protocol plugged m p i) _ q2 in
      subst (Satisfies p) (ok_inj q3) (check_protocol-Satisfies m p i checked)

  -- What a coherent entry constructs, its factory has made, now or before.
  construct-made :
      (now : ℕ) (e : PluginEntry Factory Protocol Instance) (kwargs : List (String × Argument))
      (made : Instance × PluginEntry Factory Protocol Instance)
      → IsCoherent plugged e
      → construct plugged now e kwargs ≡ ok made
      → (moment : ℕ) × (make plugged moment e.metadata e.factory e.protocol kwargs ≡ ok made.0)
  unfolding construct
  construct-made now e [] made h q = elim (Option-cases e.cached) [
    | inl n ↦
        let (i, m, r) =
          >>=-eq-ok (make plugged now e.metadata e.factory e.protocol []) _ (rw n at q) in
        (now, m ∙ ap (λ z. ok z.0) (ok_inj r))
    | inr (i, c) ↦ let (moment, m) = h i c in (moment, m ∙ ap (λ z. ok z.0) (ok_inj (rw c at q)))
  ]
  construct-made now e (x ∷ xs) made h q =
      let (i, m, r) = >>=-eq-ok (make plugged now e.metadata e.factory e.protocol (x ∷ xs)) _ q in
      (now, m ∙ ap (λ z. ok z.0) (ok_inj r))

  -- Of a registry whose entries cache only what their factories once made of no arguments, a creation
  -- that returns an instance found an entry under its key, and the instance satisfies the protocol
  -- that the entry was registered with, be it new or cached.
  pub create-Satisfies :
      (now : ℕ) (r : Registry Factory Protocol Instance) (k : PluginKey)
      (kwargs : List (String × Argument)) (made : Instance × Registry Factory Protocol Instance)
      → AreCoherent plugged r
      → create plugged now r k kwargs ≡ ok made
      → (e : PluginEntry Factory Protocol Instance) × (find_entry plugged r k ≡ some e)
        × Satisfies e.protocol made.0
  unfolding create get_entry
  create-Satisfies now r k kwargs made h q = elim (Option-cases (find_entry plugged r k)) [
    | inl n ↦ let q2 = rw (create, get_entry, n) at q in cc
    | inr (e, found) ↦
        let (m, built, q2) =
          >>=-eq-ok (construct plugged now e kwargs) _ (rw (create, get_entry, found) at q) in
        let own = find_entry-IsCoherent plugged r k h found in
        let (moment, made_it) = construct-made now e kwargs m own built in
        (
          e,
          found,
          subst (λ z. Satisfies e.protocol z.0) (ok_inj q2)
              (make-Satisfies moment e.metadata e.factory e.protocol kwargs m.0 made_it),
        )
  ]

module _ {Factory Protocol Instance Argument : Type 0}
    (plugged : Plugged Factory Protocol Instance Argument) where
  construct-IsCoherent :
      (now : ℕ) (e : PluginEntry Factory Protocol Instance) (kwargs : List (String × Argument))
      (made : Instance × PluginEntry Factory Protocol Instance)
      → IsCoherent plugged e
      → construct plugged now e kwargs ≡ ok made
      → IsCoherent plugged made.1
  unfolding construct
  construct-IsCoherent now e [] made h q = elim (Option-cases e.cached) [
    | inl n ↦
        let (i, m, r) =
          >>=-eq-ok (make plugged now e.metadata e.factory e.protocol []) _ (rw n at q) in
        subst (λ (z : Instance × PluginEntry Factory Protocol Instance). IsCoherent plugged z.1)
          (ok_inj r) (λ j c. (now, m ∙ ap ok (some_inj c)))
    | inr (i, c) ↦
        subst (λ (z : Instance × PluginEntry Factory Protocol Instance). IsCoherent plugged z.1)
          (ok_inj (rw c at q)) h
  ]
  construct-IsCoherent now e (x ∷ xs) made h q =
      let (i, m, r) = >>=-eq-ok (make plugged now e.metadata e.factory e.protocol (x ∷ xs)) _ q in
      subst (λ (z : Instance × PluginEntry Factory Protocol Instance). IsCoherent plugged z.1)
        (ok_inj r) h

  registering-AreCoherent :
      (m : PluginMetadata) (f : Factory) (p : Option Protocol)
      (r : Registry Factory Protocol Instance)
      → AreCoherent plugged r
      → AreCoherent plugged (step plugged (registering m f p) r)
  unfolding register
  registering-AreCoherent m f p r h = elim (Result-cases (check_metadata plugged m)) [
    | inl (x, bad) ↦ rw bad h
    | inr (u, good) ↦ elim (Option-cases (find_entry plugged r (key_of plugged m))) [
      | inl n ↦
          rw (good, n)
            (set_entry-AreCoherent plugged (key_of plugged m) (fresh plugged m f p) r (λ i c. cc) h)
      | inr (d, here) ↦
          elim (Bool-cases (is_same_registration plugged d.metadata d.factory d.protocol m f p)) [
            | inl t ↦ rw (good, here, t) h
            | inr g ↦ rw (good, here, g) h
          ]
    ]
  ]

  creating-AreCoherent :
      (now : ℕ) (k : PluginKey) (kwargs : List (String × Argument))
      (r : Registry Factory Protocol Instance)
      → AreCoherent plugged r
      → AreCoherent plugged (step plugged (creating now k kwargs) r)
  unfolding create get_entry
  creating-AreCoherent now k kwargs r h = elim (Option-cases (find_entry plugged r k)) [
    | inl n ↦ rw (create, get_entry, n) h
    | inr (e, found) ↦ elim (Result-cases (construct plugged now e kwargs)) [
      | inl (x, bad) ↦ rw (create, get_entry, found, bad) h
      | inr (made, good) ↦
          let own = find_entry-IsCoherent plugged r k h found in
          rw (create, get_entry, found, good)
            (set_entry-AreCoherent plugged k made.1 r
              (construct-IsCoherent now e kwargs made own good) h)
    ]
  ]

  -- What `create-Satisfies` asks of a registry holds after any calls on one that has it, such as
  -- the empty one.
  after-AreCoherent :
      (cs : List (Call Factory Protocol Argument)) (r : Registry Factory Protocol Instance)
      → AreCoherent plugged r
      → AreCoherent plugged (after plugged cs r)
  after-AreCoherent [] r h = h
  after-AreCoherent (registering m f p ∷ cs) r h =
      after-AreCoherent cs _ (registering-AreCoherent m f p r h)
  after-AreCoherent (creating now k kwargs ∷ cs) r h =
      after-AreCoherent cs _ (creating-AreCoherent now k kwargs r h)
