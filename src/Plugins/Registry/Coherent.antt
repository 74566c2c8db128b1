-- ===== src/Plugins/Registry/Coherent.antt =====
-- packages/contracts registry.py: what the registry finds, and the instances that its entries cache.
use open_graph_memory.Prelude.{
  ℕ, ◌≡◌, ◌↔◌, refl, sym, subst, inl, inr, true, some, [], ◌∷◌, arith, eq_iff, All, Bool-cases,
  some_inj, if◌then◌else◌,
}
use open_graph_memory.Prelude.Results.{ok}
use open_graph_memory.Plugins.Metadata.{Capability, capability_eq}
use open_graph_memory.Plugins.Registry.{
  PluginKey, key_eq, Plugged, PluginEntry, Registry, find_entry, set_entry, make,
}

capability_eq-eq : (c d : Capability) → capability_eq c d ≡ true → c ≡ d
capability_eq-eq c d h = ground arith

capability_eq_refl : (c : Capability) → capability_eq c c ≡ true
capability_eq_refl c = ground arith

pub key_eq_iff : (j k : PluginKey) → (key_eq j k ≡ true) ↔ (j ≡ k)
unfolding key_eq
key_eq_iff j k = ground (
  arith,
  capability_eq-eq j.capability k.capability,
  capability_eq_refl j.capability,
  eq_iff j.name k.name,
)

module _ {Factory Protocol Instance Argument : Type 0}
    (plugged : Plugged Factory Protocol Instance Argument) where
  pub find_entry-set_entry :
      (k j : PluginKey) (e : PluginEntry Factory Protocol Instance)
      (r : Registry Factory Protocol Instance)
      → find_entry plugged (set_entry plugged k e r) j
        ≡ (if key_eq k j then some e else find_entry plugged r j)
  find_entry-set_entry k j e [] = refl
  find_entry-set_entry k j e ((l, d) ∷ rest) =
      ground
        (arith, find_entry-set_entry k j e rest, key_eq_iff l k, key_eq_iff l j, key_eq_iff k j)

  -- What an entry caches is what its factory once made of no arguments.
  abbrev pub IsCoherent : PluginEntry Factory Protocol Instance → Type 0
  IsCoherent e =
      (made : Instance)
      → e.cached ≡ some made
      → (moment : ℕ) × (make plugged moment e.metadata e.factory e.protocol [] ≡ ok made)

  abbrev pub AreCoherent : Registry Factory Protocol Instance → Type 0
  AreCoherent r = All (λ p. IsCoherent p.1) r

  pub find_entry-IsCoherent :
      (r : Registry Factory Protocol Instance) (k : PluginKey)
      {e : PluginEntry Factory Protocol Instance}
      → AreCoherent r
      → find_entry plugged r k ≡ some e
      → IsCoherent e
  find_entry-IsCoherent [] k h q = cc
  find_entry-IsCoherent ((j, d) ∷ rest) k h q = elim (Bool-cases (key_eq j k)) [
    | inl t ↦ subst IsCoherent (some_inj (rw t at q)) h.0
    | inr f ↦ find_entry-IsCoherent rest k h.1 (rw f at q)
  ]

  pub set_entry-AreCoherent :
      (k : PluginKey) (e : PluginEntry Factory Protocol Instance)
      (r : Registry Factory Protocol Instance)
      → IsCoherent e
      → AreCoherent r
      → AreCoherent (set_entry plugged k e r)
  set_entry-AreCoherent k e [] new h = (new, tt)
  set_entry-AreCoherent k e ((j, d) ∷ rest) new h = elim (Bool-cases (key_eq j k)) [
    | inl t ↦ rw t (new, h.1)
    | inr f ↦ rw f (h.0, set_entry-AreCoherent k e rest new h.1)
  ]

  -- Writing back the entry that is there changes nothing.
  pub set_entry_same :
      (k : PluginKey) (r : Registry Factory Protocol Instance)
      {e : PluginEntry Factory Protocol Instance}
      → find_entry plugged r k ≡ some e
      → set_entry plugged k e r ≡ r
  set_entry_same k [] h = cc
  set_entry_same k ((j, d) ∷ rest) h = elim (Bool-cases (key_eq j k)) [
    | inl t ↦ let same = some_inj (rw t at h) in rw t (λ i. (j, sym same i) ∷ rest)
    | inr f ↦ let below = set_entry_same k rest (rw f at h) in rw f (λ i. (j, d) ∷ below i)
  ]
