-- ===== src/Extraction/Payload.antt =====
-- packages/core extraction.py: the entities and the relations in what a model answers, and the
-- resolution of an entity to a candidate. Texts of JSON are strings; `is_blank` is `not s.strip()`,
-- `clamp` is `max(0.0, min(1.0, float(n)))`, `default_confidence` is 0.8.
use open_graph_memory.Prelude.{
  String, Bool, ◌&&◌, Option, none, some, List, [], ◌∷◌, ◌++◌, ◌==◌, where_rows, if◌then◌else◌,
}
use open_graph_memory.Json.{
  Json, int, float, text, list, dict, Items, nil, cons, Fields, end, get, is_true,
}

pub record Entity (F : Type 0) : Type 0 where
  pub name : String
  pub type : String
  pub confidence : F
  pub aliases : List String

pub record Relation (F : Type 0) : Type 0 where
  pub source : String
  pub target : String
  pub type : String
  pub confidence : F
  pub source_type : Option String
  pub target_type : Option String
  pub quote : Option String

pub record Extraction (F : Type 0) : Type 0 where
  pub entities : List (Entity F)
  pub relations : List (Relation F)

-- `_object_map(value)`
abbrev object_map : Option Json → Fields
object_map (some (dict fs)) = fs
object_map _ = end

abbrev items_of : Items → List Json
items_of nil = []
items_of (cons v vs) = v ∷ items_of vs

-- `_object_list(value)`
abbrev object_list : Option Json → List Json
object_list (some (list vs)) = items_of vs
object_list _ = []

-- `a or b` on values that may be missing
abbrev or_value : Option Json → Option Json → Option Json
or_value none b = b
or_value (some a) b = if is_true a then some a else b

abbrev or_text : Option String → Option String → Option String
or_text none b = b
or_text (some s) b = some s

abbrev text_or : Option String → String → String
text_or none s = s
text_or (some t) s = t

abbrev strings_of : List Json → List String
strings_of [] = []
strings_of (text s ∷ vs) = s ∷ strings_of vs
strings_of (v ∷ vs) = strings_of vs

-- `id_to_name`, the newest entry first
abbrev pub entity_name_of : List (String × String) → String → String
entity_name_of [] k = k
entity_name_of ((j, name) ∷ rest) k = if j == k then name else entity_name_of rest k

module _ {F : Type 0} (is_blank : String → Bool) (clamp : Json → F) (default_confidence : F) where
  -- `_string(value)`
  abbrev text_value : Option Json → Option String
  text_value (some (text s)) = if is_blank s then none else some s
  text_value _ = none

  -- `_confidence(value)`: a Boolean is no number here
  abbrev confidence_of : Option Json → F
  confidence_of (some (int n)) = clamp (int n)
  confidence_of (some (float m e)) = clamp (float m e)
  confidence_of _ = default_confidence

  abbrev entity_name : Fields → Option String
  entity_name item =
      or_text (text_value (get item "name"))
        (or_text (text_value (get item "label")) (text_value (get item "id")))

  abbrev entity_of : Fields → String → Entity F
  entity_of item name = record {
    name = name;
    type = text_or (text_value (get item "type")) "Entity";
    confidence = confidence_of (get item "confidence");
    aliases = strings_of (object_list (get item "aliases"));
  }

  -- the entities in their order, those without a name left out
  abbrev pub read_entities : List Json → List (Entity F)
  read_entities [] = []
  read_entities (raw ∷ rest) = elim (entity_name (object_map (some raw))) [
    | none ↦ read_entities rest
    | some name ↦ entity_of (object_map (some raw)) name ∷ read_entities rest
  ]

  abbrev known_name : Fields → String → List (String × String) → List (String × String)
  known_name item name names = elim (text_value (get item "id")) [
    | none ↦ names
    | some k ↦ (k, name) ∷ names
  ]

  abbrev pub read_names : List Json → List (String × String) → List (String × String)
  read_names [] names = names
  read_names (raw ∷ rest) names = elim (entity_name (object_map (some raw))) [
    | none ↦ read_names rest names
    | some name ↦ read_names rest (known_name (object_map (some raw)) name names)
  ]

  abbrev relation_of : List (String × String) → Fields → String → String → String → Relation F
  relation_of names item source target type = record {
    source = entity_name_of names source;
    target = entity_name_of names target;
    type = type;
    confidence = confidence_of (get item "confidence");
    source_type = text_value (get item "source_type");
    target_type = text_value (get item "target_type");
    quote = text_value (get item "quote");
  }

  -- a relation has a source, a target and a type
  abbrev read_relation : List (String × String) → Fields → List (Relation F)
  read_relation names item =
      elim (or_text (text_value (get item "source")) (text_value (get item "from"))) [
        | none ↦ []
        | some source ↦
            elim (or_text (text_value (get item "target")) (text_value (get item "to"))) [
              | none ↦ []
              | some target ↦
                  elim (or_text (text_value (get item "type")) (text_value (get item "relation"))) [
                    | none ↦ []
                    | some type ↦ relation_of names item source target type ∷ []
                  ]
            ]
      ]

  abbrev pub read_relations : List (String × String) → List Json → List (Relation F)
  read_relations names [] = []
  read_relations names (raw ∷ rest) =
      read_relation names (object_map (some raw)) ++ read_relations names rest

  -- `_normalize_extraction_payload(payload)`, validated
  unfoldable pub normalize_extraction_payload : Json → Extraction F
  normalize_extraction_payload payload =
      let root = object_map (some payload) in
      let raw_entities = object_list (or_value (get root "entities") (get root "nodes")) in
      let raw_relations = object_list (or_value (get root "relations") (get root "edges")) in
      record {
        entities = read_entities raw_entities;
        relations = read_relations (read_names raw_entities []) raw_relations;
      }

pub record Candidate : Type 0 where
  pub id : String
  pub dataset_id : String
  pub normalized_name : String
  pub entity_type : String

abbrev only : List Candidate → Option Candidate
only (c ∷ []) = some c
only _ = none

-- `normalize_name` is an argument: it folds case and normalizes Unicode.
unfoldable pub resolve_candidate :
    {F : Type 0} → (String → String) → String → Entity F → List Candidate → Option Candidate
resolve_candidate normalize_name dataset_id entity candidates = only (
    where_rows
      (λ (c : Candidate).
        c.dataset_id == dataset_id
        && c.normalized_name == normalize_name entity.name
        && normalize_name c.entity_type == normalize_name entity.type)
      candidates)
