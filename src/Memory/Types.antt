-- ===== src/Memory/Types.antt =====
-- memory/types.py: the schemas of the memory types and the validation of typed content.
pub mod Accepted
pub mod VerifiedBugfix
use open_graph_memory.Prelude.{
  String, count, Bool, true, false, not, ◌&&◌, Option, none, some, List, [], ◌∷◌, ◌++◌, map, ◌==◌,
  contains, ltb, leb, if◌then◌else◌,
}
use open_graph_memory.Prelude.Results.{http_exception, Result, ok, err, ◌>>◌, guard}
use open_graph_memory.Json.{
  Json, null, boolean, text, list, Fields, end, field, get, has_key, is_empty, is_true_at,
  items_length,
}

abbrev Validator : Type 0
Validator = Json → Bool

pub record Schema : Type 0 where
  pub required : List String
  pub optional : List String
  pub validators : List (String × Validator)

-- `isinstance(v, bool)`
is_bool : Validator
is_bool (boolean b) = true
is_bool _ = false

-- `isinstance(v, str) and len(v) > 0`
pub is_nonempty_str : Validator
is_nonempty_str (text s) = ltb 0 (count s)
is_nonempty_str _ = false

-- `isinstance(v, str) and len(v) > 0 and len(v) <= 20000`
is_summary : Validator
is_summary (text s) = ltb 0 (count s) && leb (count s) 20000
is_summary _ = false

-- `isinstance(v, list) and 0 < len(v) <= 100`
is_steps : Validator
is_steps (list vs) = ltb 0 (items_length vs) && leb (items_length vs) 100
is_steps _ = false

-- `v is not None`
is_not_none : Validator
is_not_none null = false
is_not_none _ = true

abbrev schema : List String → List String → List (String × Validator) → Schema
schema required optional validators = record {
  required = required;
  optional = optional;
  validators = validators;
}

abbrev pub decision_schema : Schema
decision_schema =
    schema ("decision" ∷ "rationale" ∷ []) ("alternatives" ∷ "extensions" ∷ [])
      (("decision", is_nonempty_str) ∷ ("rationale", is_nonempty_str) ∷ [])

unfoldable pub type_schemas : List (String × Schema)
unfolding is_bool is_nonempty_str is_summary is_steps is_not_none
type_schemas =
    (
      "bugfix",
      schema ("summary" ∷ []) ("root_cause" ∷ "fix" ∷ "verified" ∷ "extensions" ∷ [])
          (("verified", is_bool) ∷ ("summary", is_summary) ∷ []),
    )
    ∷ ("decision", decision_schema)
    ∷ (
      "preference",
      schema ("subject" ∷ "preference" ∷ []) ("context" ∷ "extensions" ∷ [])
          (("subject", is_nonempty_str) ∷ ("preference", is_nonempty_str) ∷ []),
    )
    ∷ (
      "procedure",
      schema ("name" ∷ []) ("steps" ∷ "prerequisites" ∷ "extensions" ∷ [])
          (("name", is_nonempty_str) ∷ ("steps", is_steps) ∷ []),
    )
    ∷ (
      "research",
      schema ("question" ∷ "finding" ∷ []) ("sources" ∷ "extensions" ∷ [])
          (("question", is_nonempty_str) ∷ ("finding", is_nonempty_str) ∷ []),
    )
    ∷ (
      "trading",
      schema ("instrument" ∷ "thesis" ∷ []) ("risk" ∷ "timeframe" ∷ "extensions" ∷ [])
          (("instrument", is_nonempty_str) ∷ ("thesis", is_nonempty_str) ∷ []),
    )
    ∷ (
      "learning",
      schema ("topic" ∷ "lesson" ∷ []) ("application" ∷ "extensions" ∷ [])
          (("topic", is_nonempty_str) ∷ ("lesson", is_nonempty_str) ∷ []),
    )
    ∷ (
      "fact",
      schema ("value" ∷ []) ("subject" ∷ "unit" ∷ "extensions" ∷ []) (("value", is_not_none) ∷ []),
    )
    ∷ ("custom", schema [] [] [])
    ∷ []

unfoldable pub find_schema : String → List (String × Schema) → Option Schema
find_schema k [] = none
find_schema k ((j, s) ∷ ss) = if j == k then some s else find_schema k ss

unfoldable pub get_type_schema : String → Option Schema
unfolding find_schema type_schemas
get_type_schema memory_type = find_schema memory_type type_schemas

abbrev name_of : String × Schema → String
name_of (k, s) = k

pub list_memory_types : List String
unfolding type_schemas
list_memory_types = map name_of type_schemas

-- The details name the field and the type; here the field alone is kept.
require_fields : List String → Fields → Result (Unit {0})
require_fields [] content = ok tt
require_fields (f ∷ fs) content =
    let rest = require_fields fs content in
    if has_key content f then rest else err (http_exception 400 "missing required field")

only_fields : List String → Fields → Result (Unit {0})
only_fields allowed end = ok tt
only_fields allowed (field f v fs) =
    let rest = only_fields allowed fs in
    if contains allowed f then rest else err (http_exception 400 "unknown field")

-- `field in content and not validator(content[field])`
abbrev fails : (Json → Bool) → Option Json → Bool
fails validator none = false
fails validator (some v) = not (validator v)

run_validators : List (String × Validator) → Fields → Result (Unit {0})
run_validators [] content = ok tt
run_validators ((f, validator) ∷ vs) content =
    let rest = run_validators vs content in
    if fails validator (get content f)
    then err (http_exception 400 "invalid value for field")
    else rest

abbrev check_schema : String → Schema → Fields → Result (Unit {0})
check_schema memory_type s content = do
  require_fields s.required content
  only_fields (s.required ++ s.optional) content
  run_validators s.validators content
  guard
      (not (
        has_key content "verified"
        && memory_type == "bugfix"
        && is_true_at content "verified"
        && not (is_true_at content "verification_evidence")))
      (http_exception 400 "verified bugfix requires verification evidence")

pub validate_typed_content : String → Fields → Result (Unit {0})
validate_typed_content memory_type content = elim (get_type_schema memory_type) [
  | none ↦ err (http_exception 400 "invalid memory type")
  | some s ↦
      if memory_type == "custom"
      then guard (not (is_empty content)) (http_exception 400 "custom content cannot be empty")
      else check_schema memory_type s content
]
