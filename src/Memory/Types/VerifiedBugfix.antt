-- ===== src/Memory/Types/VerifiedBugfix.antt =====
-- memory/types.py: the rule for verified bugfixes and the schema of bugfixes.
use open_graph_memory.Prelude.{
  String, ◌≡◌, ◌≢◌, refl, true, false, some, List, [], ◌∷◌, ◌++◌, contains,
}
use open_graph_memory.Prelude.Results.{ok}
use open_graph_memory.Json.{Fields, is_true_at}
use open_graph_memory.Memory.Types.{Schema, get_type_schema, validate_typed_content}
use open_graph_memory.Memory.Types.Accepted.{is_true_at-has_key, validate_typed_content_iff}

bugfix_fields : List String
bugfix_fields = "summary" ∷ "root_cause" ∷ "fix" ∷ "verified" ∷ "extensions" ∷ []

bugfix_schema :
    (s : Schema) × (get_type_schema "bugfix" ≡ some s) × (s.required ++ s.optional ≡ bugfix_fields)
unfolding get_type_schema bugfix_fields
bugfix_schema = (_, refl, refl)

evidence_not_allowed : contains bugfix_fields "verification_evidence" ≡ false
unfolding bugfix_fields
evidence_not_allowed = refl

-- No bugfix whose content says that it is verified passes the validation, with evidence or without.
pub verified_bugfix_rejected :
    (content : Fields)
    → is_true_at content "verified" ≡ true
    → validate_typed_content "bugfix" content ≢ ok tt
verified_bugfix_rejected content verified h =
    let (s, known, fields) = bugfix_schema in
    let c = (validate_typed_content_iff "bugfix" s content known refl).0 h in
    let present = is_true_at-has_key content "verification_evidence" (c.evidence refl verified) in
    let allowed = c.allowed "verification_evidence" present in
    let allowed' = rw fields at allowed in cc evidence_not_allowed
