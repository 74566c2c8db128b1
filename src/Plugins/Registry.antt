-- ===== src/Plugins/Registry.antt =====
-- packages/contracts registry.py: the registry of plug-ins. The factories, the protocols and the
-- instances are types of the model's client: `call` runs a factory with keyword arguments at a moment
-- of the program's run, since it makes another object each time; an instance is an object, not its
-- contents; `same` and
-- `same_protocol` are `is`, `satisfies` is `isinstance` and `protocol_name` is `__name__`. A factory
-- returns no None.
pub mod Coherent
pub mod Idempotent
pub mod Satisfied
use open_graph_memory.Prelude.{
  ℕ, String, Bool, true, false, not, ◌&&◌, ◌||◌, Option, none, some, List, [], ◌∷◌, ◌++◌, ◌==◌,
  codes, leb, ltb, eqb, any_row, find_row, if◌then◌else◌, join,
}
use open_graph_memory.Prelude.Results.{
  Error, plugin_validation_error, plugin_not_registered_error, incompatible_plugin_error,
  plugin_construction_error, Result, ok, err, ◌>>=◌, ◌>>◌, guard,
}
use open_graph_memory.Plugins.Metadata.{
  Capability, extraction, parser, chunker, object_store, graph_store, graph_retriever,
  capability_text, capability_eq, PluginVersion, version_text, is_compatible_with, supports,
  PluginMetadata, metadata_eq,
}

abbrev first_contract : PluginVersion
first_contract = record { major = 1; minor = 0; patch = 0 }

-- `_REQUIRED_VERSIONS.get(capability)`
abbrev pub required_version : Capability → Option PluginVersion
required_version extraction = some first_contract
required_version parser = some first_contract
required_version chunker = some first_contract
required_version object_store = some first_contract
required_version graph_store = some first_contract
required_version graph_retriever = some first_contract

-- the key of `_entries`
pub record PluginKey : Type 0 where
  pub capability : Capability
  pub name : String

unfoldable pub key_eq : PluginKey → PluginKey → Bool
key_eq j k = capability_eq j.capability k.capability && j.name == k.name

abbrev codes_le : List ℕ → List ℕ → Bool
codes_le [] ys = true
codes_le (x ∷ xs) [] = false
codes_le (x ∷ xs) (y ∷ ys) = ltb x y || eqb x y && codes_le xs ys

insert_name : String → List String → List String
insert_name s [] = s ∷ []
insert_name s (t ∷ ts) =
    let rest = insert_name s ts in if codes_le (codes s) (codes t) then s ∷ t ∷ ts else t ∷ rest

-- `sorted(names)`
sort_names : List String → List String
unfolding insert_name
sort_names [] = []
sort_names (s ∷ ss) = insert_name s (sort_names ss)

insert_capability : Capability → List Capability → List Capability
insert_capability c [] = c ∷ []
insert_capability c (d ∷ ds) =
    let rest = insert_capability c ds in
    if capability_eq c d
    then d ∷ ds
    else if codes_le (codes (capability_text c)) (codes (capability_text d))
    then c ∷ d ∷ ds
    else d ∷ rest

-- what the registry calls of its client's types
pub record Plugged (Factory Protocol Instance Argument : Type 0) : Type 0 where
  pub call : ℕ → Factory → List (String × Argument) → Result Instance
  pub same : Factory → Factory → Bool
  pub same_protocol : Protocol → Protocol → Bool
  pub satisfies : Protocol → Instance → Bool
  pub protocol_name : Protocol → String

-- `cached` is `_instance`
pub record PluginEntry (Factory Protocol Instance : Type 0) : Type 0 where
  pub metadata : PluginMetadata
  pub factory : Factory
  pub protocol : Option Protocol
  pub cached : Option Instance

-- `_entries`, in the order of the registrations
abbrev pub Registry : Type 0 → Type 0 → Type 0 → Type 0
Registry Factory Protocol Instance = List (PluginKey × PluginEntry Factory Protocol Instance)

module _ {Factory Protocol Instance Argument : Type 0}
    (plugged : Plugged Factory Protocol Instance Argument) where
  abbrev pub find_entry :
      Registry Factory Protocol Instance
      → PluginKey
      → Option (PluginEntry Factory Protocol Instance)
  find_entry [] k = none
  find_entry ((j, e) ∷ rest) k = if key_eq j k then some e else find_entry rest k

  -- `self._entries[key] = entry` and the change of an entry that is there
  abbrev pub set_entry :
      PluginKey
      → PluginEntry Factory Protocol Instance
      → Registry Factory Protocol Instance
      → Registry Factory Protocol Instance
  set_entry k e [] = (k, e) ∷ []
  set_entry k e ((j, d) ∷ rest) = if key_eq j k then (j, e) ∷ rest else (j, d) ∷ set_entry k e rest

  abbrev pub is_empty_list : {A : Type 0} → List A → Bool
  is_empty_list [] = true
  is_empty_list (x ∷ xs) = false

  -- `raise ... from exc`
  abbrev pub run_factory : ℕ → PluginMetadata → Factory → List (String × Argument) → Result Instance
  run_factory now metadata factory kwargs = elim (plugged.call now factory kwargs) [
    | err cause ↦ err (
        plugin_construction_error (join ("failed to construct plugin '" ∷ metadata.name ∷ "'" ∷ []))
          metadata.name cause)
    | ok made ↦ ok made
  ]

  -- `protocol is not None and not isinstance(instance, protocol)` raises
  abbrev pub check_protocol : PluginMetadata → Option Protocol → Instance → Result (Unit {0})
  check_protocol metadata none made = ok tt
  check_protocol metadata (some p) made = guard (plugged.satisfies p made) (
      plugin_validation_error
        (join ("plugin '" ∷ metadata.name ∷ "' does not satisfy " ∷ plugged.protocol_name p ∷ []))
        (some metadata.name))

  -- what `construct` does where it does not return the cached instance
  unfoldable pub make :
      ℕ → PluginMetadata → Factory → Option Protocol → List (String × Argument) → Result Instance
  make now metadata factory protocol kwargs = run_factory now metadata factory kwargs >>= λ made.
      check_protocol metadata protocol made >> ok made

  abbrev pub cache_made :
      PluginEntry Factory Protocol Instance
      → List (String × Argument)
      → Instance
      → PluginEntry Factory Protocol Instance
  cache_made e kwargs made = if is_empty_list kwargs then record e { cached = some made } else e

  abbrev pub cached_for :
      PluginEntry Factory Protocol Instance → List (String × Argument) → Option Instance
  cached_for e kwargs = if is_empty_list kwargs then e.cached else none

  -- The instance, and the entry with what it caches.
  unfoldable pub construct :
      ℕ
      → PluginEntry Factory Protocol Instance
      → List (String × Argument)
      → Result (Instance × PluginEntry Factory Protocol Instance)
  construct now e kwargs = elim (cached_for e kwargs) [
    | some made ↦ ok (made, e)
    | none ↦ make now e.metadata e.factory e.protocol kwargs >>= λ made.
        ok (made, cache_made e kwargs made)
  ]

  abbrev pub is_same_protocol : Option Protocol → Option Protocol → Bool
  is_same_protocol none none = true
  is_same_protocol (some p) (some q) = plugged.same_protocol p q
  is_same_protocol _ _ = false

  -- The checks of `register` before it looks for the key.
  unfoldable pub check_metadata : PluginMetadata → Result (Unit {0})
  check_metadata metadata = elim (required_version metadata.spec.capability) [
    | none ↦ err (
        plugin_validation_error
          (join ("unknown capability: " ∷ capability_text metadata.spec.capability ∷ []))
          (some metadata.name))
    | some required ↦ do
      guard (supports metadata.capabilities metadata.spec.capability) (
          plugin_validation_error
            (join (
              "plugin '"
              ∷ metadata.name
              ∷ "' does not declare "
              ∷ capability_text metadata.spec.capability
              ∷ []))
            (some metadata.name))
      guard (is_compatible_with metadata.spec.contract_version required) (
          incompatible_plugin_error
            (join (
              "plugin '"
              ∷ metadata.name
              ∷ "' contract "
              ∷ version_text metadata.spec.contract_version
              ∷ " is incompatible with required "
              ∷ version_text required
              ∷ " for "
              ∷ capability_text metadata.spec.capability
              ∷ []))
            metadata.name)
  ]

  abbrev pub key_of : PluginMetadata → PluginKey
  key_of metadata = record { capability = metadata.spec.capability; name = metadata.name }

  unfoldable pub is_same_registration :
      PluginMetadata → Factory → Option Protocol → PluginMetadata → Factory → Option Protocol → Bool
  is_same_registration m f p metadata factory protocol =
      metadata_eq m metadata && plugged.same f factory && is_same_protocol p protocol

  abbrev pub already_registered : PluginMetadata → Error
  already_registered metadata =
      plugin_validation_error
        (join (
          "plugin '"
          ∷ metadata.name
          ∷ "' already registered for "
          ∷ capability_text metadata.spec.capability
          ∷ []))
        (some metadata.name)

  unfoldable pub register :
      Registry Factory Protocol Instance
      → PluginMetadata
      → Factory
      → Option Protocol
      → Result (Registry Factory Protocol Instance)
  register entries metadata factory protocol =
      check_metadata metadata >> elim (find_entry entries (key_of metadata)) [
        | some existing ↦
            guard
              (is_same_registration existing.metadata existing.factory existing.protocol metadata
                factory protocol)
              (already_registered metadata)
            >> ok entries
        | none ↦ ok (
            set_entry (key_of metadata)
              (record {
                metadata = metadata;
                factory = factory;
                protocol = protocol;
                cached = none;
              })
              entries)
      ]

  abbrev pub not_registered : PluginKey → Error
  not_registered k =
      plugin_not_registered_error
        (join ("no plugin registered for " ∷ capability_text k.capability ∷ "/" ∷ k.name ∷ []))
        k.name

  unfoldable pub get_entry :
      Registry Factory Protocol Instance
      → PluginKey
      → Result (PluginEntry Factory Protocol Instance)
  get_entry entries k = elim (find_entry entries k) [
    | none ↦ err (not_registered k)
    | some e ↦ ok e
  ]

  -- The instance, and the registry with what the entry caches.
  unfoldable pub create :
      ℕ
      → Registry Factory Protocol Instance
      → PluginKey
      → List (String × Argument)
      → Result (Instance × Registry Factory Protocol Instance)
  unfolding get_entry construct
  create now entries k kwargs = do
    e ← get_entry entries k
    made ← construct now e kwargs
    ok (made.0, set_entry k made.1 entries)

  unfoldable pub is_registered : Registry Factory Protocol Instance → PluginKey → Bool
  is_registered entries k = elim (find_entry entries k) [ none ↦ false | some e ↦ true ]

  abbrev names_for : Registry Factory Protocol Instance → Capability → List String
  names_for [] c = []
  names_for ((k, e) ∷ rest) c =
      if capability_eq k.capability c then k.name ∷ names_for rest c else names_for rest c

  pub list_names : Registry Factory Protocol Instance → Capability → List String
  unfolding sort_names
  list_names entries c = sort_names (names_for entries c)

  -- `sorted` of a set of capabilities
  pub list_capabilities : Registry Factory Protocol Instance → List Capability
  unfolding insert_capability
  list_capabilities [] = []
  list_capabilities ((k, e) ∷ rest) = insert_capability k.capability (list_capabilities rest)

  abbrev pub clear : Registry Factory Protocol Instance → Registry Factory Protocol Instance
  clear entries = []

  pub validate_instance : Capability → Instance → Protocol → Result (Unit {0})
  validate_instance c made p = guard (plugged.satisfies p made) (
      plugin_validation_error
        (join (
          "instance does not satisfy protocol "
          ∷ plugged.protocol_name p
          ∷ " for "
          ∷ capability_text c
          ∷ []))
        none)

-- The registry of the module, made when it is first asked for.
abbrev pub get_registry :
    {Factory Protocol Instance : Type 0}
    → Option (Registry Factory Protocol Instance)
    → Registry Factory Protocol Instance × Option (Registry Factory Protocol Instance)
get_registry none = ([], some [])
get_registry (some entries) = (entries, some entries)
