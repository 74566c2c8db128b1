-- ===== src/Examples/Plugins.antt =====
-- Runs of the registry of plug-ins, with the built-in ones and hundredths for floats.
use open_graph_memory.Prelude.{ℕ, ◌≡◌, refl, true, none, some, List, [], ◌∷◌}
use open_graph_memory.Prelude.Int.{ℤ, pos}
use open_graph_memory.Plugins.Metadata.{extraction}
use open_graph_memory.Plugins.Settings.{PluginConfig}
use open_graph_memory.Plugins.Registry.{
  Plugged, PluginKey, PluginEntry, key_eq, Registry, find_entry, create, get_entry, construct, make,
}
use open_graph_memory.Prelude.Results.{ok}
use open_graph_memory.Plugins.Registry.Idempotent.{
  Call, registering, creating, after, create-create,
}
use open_graph_memory.Plugins.Registry.Satisfied.{Satisfies, create-Satisfies}
use open_graph_memory.Plugins.Builtin.{
  builtin_metadata, BuiltinFactory, nlp_extractor, BuiltinProtocol, extractor_protocol,
  configuration, BuiltinInstance, nlp, builtin, call_builtin,
}

abbrev rounded : ℕ → ℤ
rounded n = pos n

abbrev whole : ℤ → ℕ
whole (pos n) = n
whole _ = 0

abbrev empty_config : PluginConfig ℕ
empty_config = record { values = []; secrets = [] }

abbrev nlp_key : PluginKey
nlp_key = record { capability = extraction; name = "nlp" }

-- A client whose factory makes the number of the moment at which it is called.
abbrev ticking : Plugged (Unit {0}) (Unit {0}) ℕ (Unit {0})
ticking = record {
  call = λ now f kwargs. ok now;
  same = λ f g. true;
  same_protocol = λ p q. true;
  satisfies = λ p i. true;
  protocol_name = λ p. "Extractor";
}

abbrev ticking_entry : PluginEntry (Unit {0}) (Unit {0}) ℕ
ticking_entry = record {
  metadata = builtin_metadata "nlp" extraction;
  factory = tt;
  protocol = none;
  cached = none;
}

abbrev cached_entry : PluginEntry (Unit {0}) (Unit {0}) ℕ
cached_entry = record ticking_entry { cached = some 3 }

abbrev later_calls : List (Call (Unit {0}) (Unit {0}) (Unit {0}))
later_calls =
    creating 4 nlp_key (("model", tt) ∷ [])
    ∷ registering (builtin_metadata "other" extraction) tt none
    ∷ creating 5 nlp_key []
    ∷ []

create-create_example :
    create ticking 9 (after ticking later_calls ((nlp_key, cached_entry) ∷ [])) nlp_key []
    ≡ ok (3, after ticking later_calls ((nlp_key, cached_entry) ∷ []))
unfolding create get_entry construct make key_eq
create-create_example =
    create-create ticking 3 9 ((nlp_key, ticking_entry) ∷ []) nlp_key
      (3, (nlp_key, cached_entry) ∷ []) later_calls refl

abbrev nlp_entry : PluginEntry BuiltinFactory BuiltinProtocol (BuiltinInstance ℕ)
nlp_entry = record {
  metadata = builtin_metadata "nlp" extraction;
  factory = nlp_extractor;
  protocol = some extractor_protocol;
  cached = none;
}

abbrev nlp_registry : Registry BuiltinFactory BuiltinProtocol (BuiltinInstance ℕ)
nlp_registry = (nlp_key, nlp_entry) ∷ []

create-Satisfies_example :
    (e : PluginEntry BuiltinFactory BuiltinProtocol (BuiltinInstance ℕ)) × (find_entry
        (builtin whole rounded)
        nlp_registry
        nlp_key
      ≡ some e)
    × Satisfies (builtin whole rounded) e.protocol (nlp "nlp-graph-v1")
unfolding create get_entry construct make builtin call_builtin key_eq
create-Satisfies_example =
    create-Satisfies (builtin whole rounded) 7 nlp_registry nlp_key
      (("config", configuration empty_config) ∷ []) (nlp "nlp-graph-v1", nlp_registry)
      ((λ made c. cc), tt) refl
