-- ===== src/Redaction.antt =====
-- redaction.py: secrets are taken out of what a client sends. The regular expressions are
-- parameters: `redact` is `redact_string`, and `search` tells whether one of the patterns is found.
pub mod Sanitized
use open_graph_memory.Prelude.{
  ℕ, ◌+◌, ◌≤◌, String, Bool, true, false, not, ◌&&◌, ◌||◌, List, [], ◌∷◌, ◌++◌, ◌==◌, codes,
  starts_codes, eqb, leb, where_rows, any_row, if◌then◌else◌,
}
use open_graph_memory.Json.{
  Json, null, boolean, int, float, text, list, dict, Items, nil, cons, Fields, end, field,
}

unfoldable pub sensitive_keys : List String
sensitive_keys =
    "authorization" ∷ "credential" ∷ "cookie" ∷ "password" ∷ "passwd" ∷ "secret" ∷ "privatekey"
    ∷ "sshkey" ∷ "accesskey" ∷ "accesstoken" ∷ "authtoken" ∷ "apikey" ∷ "token" ∷ []

-- `str.lower` of a character, where it gives letters of ASCII: of A to Z, of the dotted I and of the
-- sign for kelvin. What it makes of other characters has no letter of a sensitive key, as they have
-- none themselves.
unfoldable pub lower_letters : ℕ → List ℕ
lower_letters c =
    if leb 65 c && leb c 90
    then (c + 32) ∷ []
    else if eqb c 304
    then 105 ∷ 775 ∷ []
    else if eqb c 8490
    then 107 ∷ []
    else c ∷ []

unfoldable pub lower : List ℕ → List ℕ
unfolding lower_letters
lower [] = []
lower (c ∷ cs) = lower_letters c ++ lower cs

-- `.replace("_", "").replace("-", "").replace(" ", "")` keeps the others
abbrev pub is_kept : ℕ → Bool
is_kept c = not (eqb c b'_' || eqb c b'-' || eqb c b' ')

-- `key.lower().replace("_", "").replace("-", "").replace(" ", "")`
unfoldable pub normalize_key : String → List ℕ
unfolding lower
normalize_key key = where_rows is_kept (lower (codes key))

-- `needle in text`
unfoldable pub occurs : List ℕ → List ℕ → Bool
occurs needle [] = starts_codes needle []
occurs needle (c ∷ cs) = starts_codes needle (c ∷ cs) || occurs needle cs

unfoldable pub is_sensitive_key : String → Bool
unfolding sensitive_keys normalize_key occurs
is_sensitive_key key =
    let normalized = normalize_key key in
    any_row (λ sensitive. occurs (codes sensitive) normalized) sensitive_keys

abbrev pub redacted : String
redacted = "[REDACTED]"

module _ (redact : String → String) where
  unfoldable mutual
    pub redact_value : String → Json → Json
    redact_value parent_key null = null
    redact_value parent_key (boolean b) = boolean b
    redact_value parent_key (int n) = int n
    redact_value parent_key (float m e) = float m e
    redact_value parent_key (text s) = if parent_key == "pattern" then text s else text (redact s)
    redact_value parent_key (list vs) = list (redact_items parent_key vs)
    redact_value parent_key (dict fs) = dict (redact_fields fs)

    pub redact_items : String → Items → Items
    redact_items parent_key nil = nil
    redact_items parent_key (cons v vs) =
        cons (redact_value parent_key v) (redact_items parent_key vs)

    pub redact_fields : Fields → Fields
    redact_fields end = end
    redact_fields (field k v fs) =
        field k (if is_sensitive_key k then text redacted else redact_value k v) (redact_fields fs)

  -- `sanitize_input(data)`
  unfoldable pub sanitize_input : Fields → Fields
  sanitize_input content = redact_fields content

module _ (search : String → Bool) where
  mutual
    pub contains_secret : String → Json → Bool
    contains_secret parent_key null = false
    contains_secret parent_key (boolean b) = false
    contains_secret parent_key (int n) = false
    contains_secret parent_key (float m e) = false
    contains_secret parent_key (text s) = if parent_key == "pattern" then false else search s
    contains_secret parent_key (list vs) = items_contain_secret parent_key vs
    contains_secret parent_key (dict fs) = fields_contain_secret fs

    pub items_contain_secret : String → Items → Bool
    items_contain_secret parent_key nil = false
    items_contain_secret parent_key (cons v vs) =
        contains_secret parent_key v || items_contain_secret parent_key vs

    pub fields_contain_secret : Fields → Bool
    fields_contain_secret end = false
    fields_contain_secret (field k v fs) =
        is_sensitive_key k || contains_secret k v || fields_contain_secret fs
