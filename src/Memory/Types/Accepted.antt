-- ===== src/Memory/Types/Accepted.antt =====
-- memory/types.py: which typed content `validate_typed_content` accepts.
use open_graph_memory.Prelude.{
  String, ◌≡◌, ◌↔◌, refl, sym, ◌∙◌, Bool, true, false, some, List, [], ◌∷◌, ◌++◌, inl, inr, arith,
  ◌==◌, eq_iff, ==_refl, contains, All, Option-cases,
}
use open_graph_memory.Prelude.Results.{ok}
use open_graph_memory.Json.{Json, Fields, end, field, get, has_key, is_true_at}
use open_graph_memory.Memory.Types.{
  Schema, get_type_schema, require_fields, only_fields, run_validators, validate_typed_content,
  check_schema,
}

abbrev HasFields : List String → Fields → Type 0
HasFields fs content = (k : String) → contains fs k ≡ true → has_key content k ≡ true

abbrev HasOnly : List String → Fields → Type 0
HasOnly allowed content = (k : String) → has_key content k ≡ true → contains allowed k ≡ true

abbrev IsValidField : Fields → String × (Json → Bool) → Type 0
IsValidField content q = (v : Json) → get content q.0 ≡ some v → q.1 v ≡ true

require_fields_sound :
    (fs : List String) (c : Fields) → require_fields fs c ≡ ok tt → HasFields fs c
unfolding require_fields
require_fields_sound [] c h k m = cc
require_fields_sound (f ∷ fs) c h k m =
    ground (arith, λ (p : require_fields fs c ≡ ok tt). require_fields_sound fs c p k, eq_iff f k)

require_fields_complete :
    (fs : List String) (c : Fields) → HasFields fs c → require_fields fs c ≡ ok tt
unfolding require_fields
require_fields_complete [] c h = refl
require_fields_complete (f ∷ fs) c h =
    ground (arith, h f, ==_refl f, require_fields_complete fs c (λ k m. h k (ground arith)))

only_fields_sound : (a : List String) (c : Fields) → only_fields a c ≡ ok tt → HasOnly a c
unfolding only_fields
only_fields_sound a end h k m = cc
only_fields_sound a (field f v fs) h k m =
    ground (arith, λ (p : only_fields a fs ≡ ok tt). only_fields_sound a fs p k, eq_iff f k)

only_fields_complete : (a : List String) (c : Fields) → HasOnly a c → only_fields a c ≡ ok tt
unfolding only_fields
only_fields_complete a end h = refl
only_fields_complete a (field f v fs) h =
    ground (arith, h f, ==_refl f, only_fields_complete a fs (λ k m. h k (ground arith)))

run_validators_sound :
    (vs : List (String × (Json → Bool))) (c : Fields)
    → run_validators vs c ≡ ok tt
    → All (IsValidField c) vs
unfolding run_validators
run_validators_sound [] c h = tt
run_validators_sound ((f, p) ∷ vs) c h =
    (λ v found. ground arith, run_validators_sound vs c (ground arith))

run_validators_complete :
    (vs : List (String × (Json → Bool))) (c : Fields)
    → All (IsValidField c) vs
    → run_validators vs c ≡ ok tt
unfolding run_validators
run_validators_complete [] c h = refl
run_validators_complete ((f, p) ∷ vs) c h =
    let rest = run_validators_complete vs c h.1 in
    elim (Option-cases (get c f)) [
      | inl gone ↦ ground (arith, rest)
      | inr (v, found) ↦ ground (arith, rest, h.0 v found)
    ]

pub is_true_at-has_key : (c : Fields) (k : String) → is_true_at c k ≡ true → has_key c k ≡ true
is_true_at-has_key end k h = cc
is_true_at-has_key (field f v fs) k h = ground (arith, is_true_at-has_key fs k)

-- Content that has each required field, no field beyond the schema's, and a valid value in each
-- field with a validator; a bugfix that says it is verified also has evidence.
pub record Conforms (memory_type : String) (s : Schema) (content : Fields) : Type 0 where
  pub required : HasFields s.required content
  pub allowed : HasOnly (s.required ++ s.optional) content
  pub valid : All (IsValidField content) s.validators
  pub evidence :
      memory_type ≡ "bugfix"
      → is_true_at content "verified" ≡ true
      → is_true_at content "verification_evidence" ≡ true

module _ (memory_type : String) (s : Schema) (content : Fields)
    (known : get_type_schema memory_type ≡ some s) (typed : (memory_type == "custom") ≡ false) where
  validate-typed : validate_typed_content memory_type content ≡ check_schema memory_type s content
  unfolding validate_typed_content
  validate-typed = rw (validate_typed_content, known, typed)

  Conforms-sound : check_schema memory_type s content ≡ ok tt → Conforms memory_type s content
  Conforms-sound h = record {
    required = require_fields_sound s.required content (ground arith);
    allowed = only_fields_sound (s.required ++ s.optional) content (ground arith);
    valid = run_validators_sound s.validators content (ground arith);
    evidence =
        λ b v. ground (arith, eq_iff memory_type "bugfix", is_true_at-has_key content "verified");
  }

  Conforms-complete : Conforms memory_type s content → check_schema memory_type s content ≡ ok tt
  Conforms-complete c =
      rw
        (
          require_fields_complete s.required content c.required,
          only_fields_complete (s.required ++ s.optional) content c.allowed,
          run_validators_complete s.validators content c.valid,
        )
        (ground (arith, eq_iff memory_type "bugfix", c.evidence))

  -- Content of a type other than custom is accepted exactly when it conforms to the type's schema.
  pub validate_typed_content_iff :
      (validate_typed_content memory_type content ≡ ok tt) ↔ Conforms memory_type s content
  validate_typed_content_iff =
      (λ h. Conforms-sound (sym validate-typed ∙ h), λ c. validate-typed ∙ Conforms-complete c)
