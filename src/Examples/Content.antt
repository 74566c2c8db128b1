-- ===== src/Examples/Content.antt =====
-- Runs of the validation of typed content, and of the sanitizing of what clients send.
use open_graph_memory.Prelude.{◌≡◌, ◌≢◌, ◌↔◌, refl, true, inl, inr, [], ◌∷◌, arith}
use open_graph_memory.Prelude.Results.{ok}
use open_graph_memory.Json.{Fields, boolean, text, list, dict, cons, nil, field, end}
use open_graph_memory.Memory.Types.{
  get_type_schema, find_schema, type_schemas, validate_typed_content, decision_schema,
}
use open_graph_memory.Memory.Types.Accepted.{Conforms, validate_typed_content_iff}
use open_graph_memory.Memory.Types.VerifiedBugfix.{verified_bugfix_rejected}
use open_graph_memory.Redaction.{
  redacted, sanitize_input, is_sensitive_key, sensitive_keys, normalize_key, occurs, lower,
  lower_letters, redact_value,
}
use open_graph_memory.Redaction.Sanitized.{
  NamesSecret, spelled, hyphen, small, capital, sanitize_input-redacted,
}

abbrev a_decision : Fields
a_decision = field "decision" (text "use it") (field "rationale" (text "it works") end)

validate_typed_content_iff_example :
    (validate_typed_content "decision" a_decision ≡ ok tt)
    ↔ Conforms "decision" decision_schema a_decision
unfolding get_type_schema find_schema type_schemas
validate_typed_content_iff_example =
    validate_typed_content_iff "decision" decision_schema a_decision refl refl

abbrev a_bugfix : Fields
a_bugfix =
    field "summary" (text "fixed")
      (field "verified" (boolean true) (field "verification_evidence" (text "ci run 7") end))

verified_bugfix_rejected_example : validate_typed_content "bugfix" a_bugfix ≢ ok tt
verified_bugfix_rejected_example = verified_bugfix_rejected a_bugfix refl

-- A key with another word before "apikey", and a separator in it
abbrev a_login : Fields
a_login =
    field "user" (text "u")
      (field "servers" (list (cons (dict (field "My_API-key" (text "x") end)) nil)) end)

abbrev an_api_key : NamesSecret "My_API-key"
an_api_key = record {
  word = "apikey";
  listed = refl;
  before = 77 ∷ 121 ∷ 95 ∷ [];
  spelling = 65 ∷ 80 ∷ 73 ∷ 45 ∷ 107 ∷ 101 ∷ 121 ∷ [];
  behind = [];
  parts = refl;
  spells = capital 65 (omega arith) (omega arith) (
      capital 80 (omega arith) (omega arith) (
        capital 73 (omega arith) (omega arith) (
          hyphen (
            small 107 (omega arith) (omega arith) (
              small 101 (omega arith) (omega arith)
                (small 121 (omega arith) (omega arith) spelled))))));
}

sanitize_input-redacted_example : text redacted ≡ text "[REDACTED]"
unfolding sanitize_input redact_value is_sensitive_key sensitive_keys normalize_key occurs lower
    lower_letters
sanitize_input-redacted_example =
    sanitize_input-redacted (λ s. s) a_login "My_API-key" (text redacted) an_api_key
      (inr (inr (inr (inl (inl (inl (refl, refl)))))))
