-- ===== src/Plugins/Metadata.antt =====
-- packages/contracts metadata.py: versions, capabilities and the metadata of a plug-in. `is_space`
-- is `str.isspace` of a code point.
use open_graph_memory.Prelude.{
  ℕ, String, Bool, true, false, not, ◌&&◌, ◌||◌, List, [], ◌∷◌, ◌==◌, codes, all_rows, any_row, eqb,
  ltb, leb, join, decimal,
}
use open_graph_memory.Prelude.Int.{ℤ, pos}
use open_graph_memory.Prelude.Results.{value_error, Result, ok, err, ◌>>◌, guard}

pub data Capability : Type 0 where
  extraction parser chunker object_store graph_store graph_retriever : Capability

-- `capability.value`
abbrev pub capability_text : Capability → String
capability_text extraction = "extraction"
capability_text parser = "parser"
capability_text chunker = "chunker"
capability_text object_store = "object_store"
capability_text graph_store = "graph_store"
capability_text graph_retriever = "graph_retriever"

abbrev pub capability_eq : Capability → Capability → Bool
capability_eq extraction extraction = true
capability_eq parser parser = true
capability_eq chunker chunker = true
capability_eq object_store object_store = true
capability_eq graph_store graph_store = true
capability_eq graph_retriever graph_retriever = true
capability_eq _ _ = false

pub record PluginVersion : Type 0 where
  pub major : ℕ
  pub minor : ℕ
  pub patch : ℕ

-- `PluginVersion(major, minor, patch)`: a version that was made has no negative component
pub new_version : ℤ → ℤ → ℤ → Result PluginVersion
new_version (pos a) (pos b) (pos c) = ok (record { major = a; minor = b; patch = c })
new_version _ _ _ = err (value_error "version components must be non-negative")

-- `str(version)`
pub version_text : PluginVersion → String
unfolding decimal
version_text v = join (decimal v.major ∷ "." ∷ decimal v.minor ∷ "." ∷ decimal v.patch ∷ [])

abbrev pub version_eq : PluginVersion → PluginVersion → Bool
version_eq v w = eqb v.major w.major && eqb v.minor w.minor && eqb v.patch w.patch

abbrev pub is_compatible_with : PluginVersion → PluginVersion → Bool
is_compatible_with v required =
    eqb v.major required.major
    && (ltb required.minor v.minor || eqb v.minor required.minor && leb required.patch v.patch)

-- The members of a frozenset, in any order.
pub record PluginCapabilities : Type 0 where
  pub capabilities : List Capability

abbrev pub supports : PluginCapabilities → Capability → Bool
supports cs c = any_row (capability_eq c) cs.capabilities

abbrev capabilities_eq : PluginCapabilities → PluginCapabilities → Bool
capabilities_eq cs ds =
    all_rows (supports ds) cs.capabilities && all_rows (supports cs) ds.capabilities

pub record PluginSpec : Type 0 where
  pub capability : Capability
  pub contract_version : PluginVersion

-- `spec.key`
pub spec_key : PluginSpec → String
unfolding version_text
spec_key s = join (capability_text s.capability ∷ ":" ∷ version_text s.contract_version ∷ [])

pub record PluginMetadata : Type 0 where
  pub name : String
  pub version : String
  pub spec : PluginSpec
  pub capabilities : PluginCapabilities
  pub description : String

-- `not text or not text.strip()`
abbrev pub is_blank_text : (ℕ → Bool) → String → Bool
is_blank_text is_space text = all_rows is_space (codes text)

pub new_metadata :
    (ℕ → Bool) → String → String → PluginSpec → PluginCapabilities → String → Result PluginMetadata
new_metadata is_space name version spec capabilities description = do
  guard (not (is_blank_text is_space name)) (value_error "plugin name must not be empty")
  guard (not (is_blank_text is_space version)) (value_error "plugin version must not be empty")
  ok (record {
    name = name;
    version = version;
    spec = spec;
    capabilities = capabilities;
    description = description;
  })

-- the equality of the data class
abbrev pub metadata_eq : PluginMetadata → PluginMetadata → Bool
metadata_eq a b =
    a.name == b.name
    && a.version == b.version
    && capability_eq a.spec.capability b.spec.capability
    && version_eq a.spec.contract_version b.spec.contract_version
    && capabilities_eq a.capabilities b.capabilities
    && a.description == b.description
