-- ===== src/Plugins/Settings.antt =====
-- packages/contracts config.py: the configuration that a plug-in is constructed with. The values of
-- other types, which the constructor refuses, are `unsupported`; a mapping is an association list.
use open_graph_memory.Prelude.{
  String, Bool, true, false, not, ◌&&◌, ◌||◌, Option, none, some, List, [], ◌∷◌, ◌++◌, ◌==◌,
  is_text, where_rows, if◌then◌else◌, join,
}
use open_graph_memory.Prelude.Int.{ℤ}
use open_graph_memory.Prelude.Results.{config_error, Result, ok, err, ◌>>◌, guard}

mutual
  pub data ConfigValue (F : Type 0) : Type 0 where
    none_value : ConfigValue F
    string_value : String → ConfigValue F
    int_value : ℤ → ConfigValue F
    float_value : F → ConfigValue F
    bool_value : Bool → ConfigValue F
    tuple_value : ConfigValues F → ConfigValue F
    unsupported : ConfigValue F

  pub data ConfigValues (F : Type 0) : Type 0 where
    no_values : ConfigValues F
    next_value : ConfigValue F → ConfigValues F → ConfigValues F

-- `SecretValue`: its text is read by `get` alone
pub record SecretValue : Type 0 where
  pub secret : String

-- `str(secret)`
abbrev pub secret_text : SecretValue → String
secret_text s = "***"

pub record PluginConfig (F : Type 0) : Type 0 where
  pub values : List (String × ConfigValue F)
  pub secrets : List (String × SecretValue)

abbrev pub lookup : {A : Type 0} → List (String × A) → String → Option A
lookup [] k = none
lookup ((j, a) ∷ rest) k = if j == k then some a else lookup rest k

abbrev has_entry : {A : Type 0} → List (String × A) → String → Bool
has_entry [] k = false
has_entry ((j, a) ∷ rest) k = j == k || has_entry rest k

abbrev have_keys : {A : Type 0} → List (String × A) → Bool
have_keys [] = true
have_keys ((j, a) ∷ rest) = is_text j && have_keys rest

abbrev share_key : {A B : Type 0} → List (String × A) → List (String × B) → Bool
share_key [] secrets = false
share_key ((j, a) ∷ rest) secrets = has_entry secrets j || share_key rest secrets

module _ {F : Type 0} where
  mutual
    is_config_value : ConfigValue F → Bool
    is_config_value none_value = true
    is_config_value (string_value s) = true
    is_config_value (int_value n) = true
    is_config_value (float_value x) = true
    is_config_value (bool_value b) = true
    is_config_value (tuple_value vs) = are_config_values vs
    is_config_value unsupported = false

    are_config_values : ConfigValues F → Bool
    are_config_values no_values = true
    are_config_values (next_value v vs) = is_config_value v && are_config_values vs

  check_values : List (String × ConfigValue F) → Result (Unit {0})
  check_values [] = ok tt
  check_values ((k, v) ∷ rest) = do
    guard (is_config_value v) (config_error (join ("unsupported config value for key: " ∷ k ∷ [])))
    check_values rest

  -- `PluginConfig(values, secrets)`
  pub new_config :
      List (String × ConfigValue F) → List (String × SecretValue) → Result (PluginConfig F)
  unfolding check_values
  new_config values secrets = do
    guard (have_keys values && have_keys secrets)
        (config_error "config keys must be non-empty strings")
    guard (not (share_key values secrets)) (config_error "config and secret keys must be distinct")
    check_values values
    ok (record { values = values; secrets = secrets })

  -- `config.get(key)`
  abbrev pub get_value : PluginConfig F → String → Option (ConfigValue F)
  get_value c k = lookup c.values k

  pub require : PluginConfig F → String → Result (ConfigValue F)
  require c k = elim (lookup c.values k) [
    | none ↦ err (config_error (join ("required config key missing: " ∷ k ∷ [])))
    | some v ↦ ok v
  ]

  pub require_secret : PluginConfig F → String → Result SecretValue
  require_secret c k = elim (lookup c.secrets k) [
    | none ↦ err (config_error (join ("required secret key missing: " ∷ k ∷ [])))
    | some v ↦ ok v
  ]

  -- `{**values, **overrides}`
  abbrev merged_values :
      List (String × ConfigValue F) → List (String × ConfigValue F) → List (String × ConfigValue F)
  merged_values values overrides =
      where_rows (λ e. not (has_entry overrides e.0)) values ++ overrides

  pub with_overrides : PluginConfig F → List (String × ConfigValue F) → Result (PluginConfig F)
  unfolding new_config
  with_overrides c overrides = new_config (merged_values c.values overrides) c.secrets
