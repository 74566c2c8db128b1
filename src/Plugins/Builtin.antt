-- ===== src/Plugins/Builtin.antt =====
-- apps/api/app/plugin_registry.py: the registration of the built-in plug-ins and their factories.
-- The constructors of the extractors and of the stores are arguments: they are those of
-- `open_graph_core.extraction` and of `app.storage`.
use open_graph_memory.Prelude.{ℕ, String, Bool, true, false, none, some, List, [], ◌∷◌, ◌==◌, join}
use open_graph_memory.Prelude.Int.{ℤ, pos}
use open_graph_memory.Prelude.Results.{type_error, Result, ok, err, ◌>>=◌}
use open_graph_memory.Plugins.Metadata.{
  Capability, extraction, object_store, PluginVersion, PluginMetadata,
}
use open_graph_memory.Plugins.Settings.{
  ConfigValue, string_value, int_value, float_value, PluginConfig, get_value, require,
  require_secret,
}
use open_graph_memory.Plugins.Registry.{Plugged, Registry, register, create}

abbrev contract : PluginVersion
contract = record { major = 1; minor = 0; patch = 0 }

abbrev pub builtin_metadata : String → Capability → PluginMetadata
builtin_metadata name capability = record {
  name = name;
  version = "0.1.0";
  spec = record { capability = capability; contract_version = contract };
  capabilities = record { capabilities = capability ∷ [] };
  description = "Built-in Open Graph Memory implementation";
}

pub data BuiltinFactory : Type 0 where
  deterministic_extractor nlp_extractor openai_extractor s3 local_storage : BuiltinFactory

abbrev pub factory_eq : BuiltinFactory → BuiltinFactory → Bool
factory_eq deterministic_extractor deterministic_extractor = true
factory_eq nlp_extractor nlp_extractor = true
factory_eq openai_extractor openai_extractor = true
factory_eq s3 s3 = true
factory_eq local_storage local_storage = true
factory_eq _ _ = false

pub data BuiltinProtocol : Type 0 where
  extractor_protocol object_store_protocol : BuiltinProtocol

abbrev pub protocol_eq : BuiltinProtocol → BuiltinProtocol → Bool
protocol_eq extractor_protocol extractor_protocol = true
protocol_eq object_store_protocol object_store_protocol = true
protocol_eq _ _ = false

-- a keyword argument: a configuration or an object of another type
pub data BuiltinArgument (F : Type 0) : Type 0 where
  configuration : PluginConfig F → BuiltinArgument F
  other_object : BuiltinArgument F

-- what the factories construct, with the arguments of the constructors
pub data BuiltinInstance (F : Type 0) : Type 0 where
  deterministic : BuiltinInstance F
  nlp : String → BuiltinInstance F
  openai : String → String → String → String → F → ℤ → BuiltinInstance F
  object_store_of : String → PluginConfig F → BuiltinInstance F

module _ {F : Type 0} (of_int : ℤ → F) (to_int : F → ℤ) where
  -- `_config(kwargs)`
  abbrev config_of : List (String × BuiltinArgument F) → Result (PluginConfig F)
  config_of ((k, configuration c) ∷ []) = elim (k == "config") [
    | true ↦ ok c
    | false ↦
        err (type_error "built-in plugin factories require only a PluginConfig named 'config'")
  ]
  config_of _ =
      err (type_error "built-in plugin factories require only a PluginConfig named 'config'")

  abbrev as_string : String → ConfigValue F → Result String
  as_string k (string_value s) = ok s
  as_string k _ = err (type_error (join ("config key '" ∷ k ∷ "' must be a string" ∷ [])))

  -- `_string(config, key)`
  abbrev string_at : PluginConfig F → String → Result String
  string_at c k = require c k >>= as_string k

  -- a Boolean is no number here
  abbrev as_number : String → ConfigValue F → Result F
  as_number k (int_value n) = ok (of_int n)
  as_number k (float_value x) = ok x
  as_number k _ = err (type_error (join ("config key '" ∷ k ∷ "' must be a number" ∷ [])))

  -- `_number(config, key, default)`
  abbrev number_at : PluginConfig F → String → F → Result F
  number_at c k default = elim (get_value c k) [ none ↦ ok default | some v ↦ as_number k v ]

  abbrev model_of : PluginConfig F → Result String
  model_of c = elim (get_value c "model") [
    | none ↦ ok "nlp-graph-v1"
    | some v ↦ as_string "model" v
  ]

  unfoldable pub call_builtin :
      BuiltinFactory → List (String × BuiltinArgument F) → Result (BuiltinInstance F)
  call_builtin deterministic_extractor kwargs = do c ← config_of kwargs; ok deterministic
  call_builtin nlp_extractor kwargs = do c ← config_of kwargs; model ← model_of c; ok (nlp model)
  call_builtin openai_extractor kwargs = do
    c ← config_of kwargs
    base_url ← string_at c "base_url"
    api_key ← require_secret c "api_key"
    model ← string_at c "model"
    prompt_version ← string_at c "prompt_version"
    timeout ← number_at c "timeout" (of_int (pos 30))
    max_batch_chars ← number_at c "max_batch_chars" (of_int (pos 100000))
    ok (openai base_url api_key.secret model prompt_version timeout (to_int max_batch_chars))
  call_builtin s3 kwargs = do c ← config_of kwargs; ok (object_store_of "s3" c)
  call_builtin local_storage kwargs = do c ← config_of kwargs; ok (object_store_of "local" c)

  abbrev is_extractor : BuiltinInstance F → Bool
  is_extractor deterministic = true
  is_extractor (nlp model) = true
  is_extractor (openai a b c d e f) = true
  is_extractor (object_store_of provider c) = false

  abbrev is_store : BuiltinInstance F → Bool
  is_store (object_store_of provider c) = true
  is_store _ = false

  abbrev satisfies_builtin : BuiltinProtocol → BuiltinInstance F → Bool
  satisfies_builtin extractor_protocol i = is_extractor i
  satisfies_builtin object_store_protocol i = is_store i

  abbrev protocol_text : BuiltinProtocol → String
  protocol_text extractor_protocol = "Extractor"
  protocol_text object_store_protocol = "ObjectStore"

  unfoldable pub builtin :
      Plugged BuiltinFactory BuiltinProtocol (BuiltinInstance F) (BuiltinArgument F)
  unfolding call_builtin
  builtin = record {
    call = λ now. call_builtin;
    same = factory_eq;
    same_protocol = protocol_eq;
    satisfies = satisfies_builtin;
    protocol_name = protocol_text;
  }

  abbrev BuiltinRegistry : Type 0
  BuiltinRegistry = Registry BuiltinFactory BuiltinProtocol (BuiltinInstance F)

  abbrev builtins : List (Capability × String × BuiltinFactory × BuiltinProtocol)
  builtins =
      (extraction, "deterministic", deterministic_extractor, extractor_protocol)
      ∷ (extraction, "nlp", nlp_extractor, extractor_protocol)
      ∷ (extraction, "openai", openai_extractor, extractor_protocol)
      ∷ (object_store, "s3", s3, object_store_protocol)
      ∷ (object_store, "local", local_storage, object_store_protocol)
      ∷ []

  register_each :
      List (Capability × String × BuiltinFactory × BuiltinProtocol)
      → BuiltinRegistry
      → Result BuiltinRegistry
  register_each [] target = ok target
  register_each ((capability, name, factory, protocol) ∷ rest) target = do
    next ← register builtin target (builtin_metadata name capability) factory (some protocol)
    register_each rest next

  unfoldable pub register_builtin_plugins : BuiltinRegistry → Result BuiltinRegistry
  unfolding register_each
  register_builtin_plugins target = register_each builtins target

  abbrev with_config : PluginConfig F → List (String × BuiltinArgument F)
  with_config c = ("config", configuration c) ∷ []

  pub create_extractor :
      ℕ → BuiltinRegistry → String → PluginConfig F → Result (BuiltinInstance F × BuiltinRegistry)
  unfolding register_builtin_plugins
  create_extractor now r name c = do
    target ← register_builtin_plugins r
    create builtin now target (record { capability = extraction; name = name }) (with_config c)

  pub create_object_store :
      ℕ → BuiltinRegistry → PluginConfig F → String → Result (BuiltinInstance F × BuiltinRegistry)
  unfolding register_builtin_plugins
  create_object_store now r c provider = do
    target ← register_builtin_plugins r
    create builtin now target (record { capability = object_store; name = provider })
        (with_config c)
