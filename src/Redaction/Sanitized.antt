-- ===== src/Redaction/Sanitized.antt =====
-- redaction.py `sanitize_input`: what is left under the keys that read like a secret.
use open_graph_memory.Prelude.{
  ℕ, ◌+◌, ◌≤◌, String, ◌≡◌, ◌⊎◌, refl, sym, ap, ◌∙◌, subst, inl, inr, Bool, true, false, List, [],
  ◌∷◌, ◌++◌, ◌==◌, arith, eq_iff, codes, starts_codes, contains, any_row, where_rows, Bool-cases,
}
use mathlib.Core.List.{append_assoc}
use open_graph_memory.Json.{
  Json, null, boolean, int, float, text, list, dict, Items, nil, cons, Fields, end, field,
}
use open_graph_memory.Redaction.{
  sensitive_keys, lower_letters, lower, is_kept, occurs, is_sensitive_key, redacted, redact_value,
  redact_items, redact_fields, sanitize_input,
}

-- The words that no key may have in it
abbrev pub secret_words : List String
secret_words =
    "authorization" ∷ "credential" ∷ "cookie" ∷ "password" ∷ "passwd" ∷ "secret" ∷ "privatekey"
    ∷ "sshkey" ∷ "accesskey" ∷ "accesstoken" ∷ "authtoken" ∷ "apikey" ∷ "token" ∷ []

-- A text spells a word: its letters in small or in capital ones, and any number of underlines,
-- hyphens and spaces between them.
pub data Spells : List ℕ → List ℕ → Type 0 where
  spelled : Spells [] []
  underline : {w cs : List ℕ} → Spells w cs → Spells w (95 ∷ cs)
  hyphen : {w cs : List ℕ} → Spells w cs → Spells w (45 ∷ cs)
  space : {w cs : List ℕ} → Spells w cs → Spells w (32 ∷ cs)
  small : (c : ℕ) {w cs : List ℕ} → 97 ≤ c → c ≤ 122 → Spells w cs → Spells (c ∷ w) (c ∷ cs)
  capital : (c : ℕ) {w cs : List ℕ} → 65 ≤ c → c ≤ 90 → Spells w cs → Spells ((c + 32) ∷ w) (c ∷ cs)

-- Somewhere in the key one of the words is spelled.
pub record NamesSecret (key : String) : Type 0 where
  pub word : String
  pub listed : contains secret_words word ≡ true
  pub before : List ℕ
  pub spelling : List ℕ
  pub behind : List ℕ
  pub parts : codes key ≡ before ++ (spelling ++ behind)
  pub spells : Spells (codes word) spelling

lower-append : (xs ys : List ℕ) → lower (xs ++ ys) ≡ lower xs ++ lower ys
unfolding lower
lower-append [] ys = refl
lower-append (x ∷ xs) ys =
    ap (λ z. lower_letters x ++ z) (lower-append xs ys)
    ∙ sym (append_assoc (lower_letters x) (lower xs) (lower ys))

where-append :
    (xs ys : List ℕ)
    → where_rows is_kept (xs ++ ys) ≡ where_rows is_kept xs ++ where_rows is_kept ys
where-append [] ys = refl
where-append (x ∷ xs) ys = elim (Bool-cases (is_kept x)) [
  | inl t ↦ rw t (λ i. x ∷ where-append xs ys i)
  | inr f ↦ rw f (where-append xs ys)
]

abbrev normal : List ℕ → List ℕ
normal cs = where_rows is_kept (lower cs)

normal-append : (xs ys : List ℕ) → normal (xs ++ ys) ≡ normal xs ++ normal ys
normal-append xs ys =
    ap (where_rows is_kept) (lower-append xs ys) ∙ where-append (lower xs) (lower ys)

-- A letter becomes the small one, which is kept.
normal-letter :
    (c x : ℕ) (cs : List ℕ)
    → lower_letters c ≡ x ∷ []
    → is_kept x ≡ true
    → normal (c ∷ cs) ≡ x ∷ normal cs
unfolding lower
normal-letter c x cs h k = rw h (rw k refl)

normal-spelling : {w cs : List ℕ} → Spells w cs → normal cs ≡ w
unfolding lower lower_letters
normal-spelling spelled = refl
normal-spelling (underline s) = normal-spelling s
normal-spelling (hyphen s) = normal-spelling s
normal-spelling (space s) = normal-spelling s
normal-spelling (small c {w} {cs} low high s) =
    let same : lower_letters c ≡ c ∷ [] = ground (arith, low, high) in
    let kept : is_kept c ≡ true = ground (arith, low) in
    normal-letter c c cs same kept ∙ (λ i. c ∷ normal-spelling s i)
normal-spelling (capital c {w} {cs} low high s) =
    let same : lower_letters c ≡ (c + 32) ∷ [] = ground (arith, low, high) in
    let kept : is_kept (c + 32) ≡ true = ground (arith, low) in
    normal-letter c (c + 32) cs same kept ∙ (λ i. (c + 32) ∷ normal-spelling s i)

starts-append : (w post : List ℕ) → starts_codes w (w ++ post) ≡ true
starts-append [] post = refl
starts-append (x ∷ w) post = ground (arith, starts-append w post)

occurs-starts : (w cs : List ℕ) → starts_codes w cs ≡ true → occurs w cs ≡ true
unfolding occurs
occurs-starts w [] h = h
occurs-starts w (c ∷ cs) h = ground (arith, h)

occurs-append : (w pre post : List ℕ) → occurs w post ≡ true → occurs w (pre ++ post) ≡ true
unfolding occurs
occurs-append w [] post h = h
occurs-append w (c ∷ pre) post h = ground (arith, occurs-append w pre post h)

any-contains :
    (p : String → Bool) (xs : List String) (k : String)
    → contains xs k ≡ true
    → p k ≡ true
    → any_row p xs ≡ true
any-contains p [] k h q = cc
any-contains p (x ∷ xs) k h q = elim (Bool-cases (x == k)) [
  | inl t ↦
      let here : p x ≡ true = subst (λ z. p z ≡ true) (sym ((eq_iff x k).0 t)) q in rw here refl
  | inr f ↦ ground (arith, any-contains p xs k, h, q, f)
]

NamesSecret-sensitive : (key : String) → NamesSecret key → is_sensitive_key key ≡ true
unfolding is_sensitive_key
NamesSecret-sensitive key n =
    let here : normal (codes key) ≡ normal n.before ++ (codes n.word ++ normal n.behind) =
      ap normal n.parts
      ∙ normal-append n.before (n.spelling ++ n.behind)
      ∙ ap (λ z. normal n.before ++ z)
          (normal-append n.spelling n.behind
            ∙ ap (λ z. z ++ normal n.behind) (normal-spelling n.spells)) in
    let found : occurs (codes n.word) (normal (codes key)) ≡ true =
      subst (λ z. occurs (codes n.word) z ≡ true) (sym here)
        (occurs-append (codes n.word) (normal n.before) (codes n.word ++ normal n.behind) (
          occurs-starts (codes n.word) (codes n.word ++ normal n.behind)
            (starts-append (codes n.word) (normal n.behind)))) in
    any-contains (λ s. occurs (codes s) (normal (codes key))) sensitive_keys n.word n.listed found

-- The value stands under the key, at whatever depth.
module _ (k : String) (v : Json) where
  abbrev mutual
    pub StandsIn : Json → Type 0
    StandsIn (list vs) = StandsInItems vs
    StandsIn (dict fs) = StandsInFields fs
    StandsIn _ = false ≡ true

    pub StandsInItems : Items → Type 0
    StandsInItems nil = false ≡ true
    StandsInItems (cons w vs) = StandsIn w ⊎ StandsInItems vs

    pub StandsInFields : Fields → Type 0
    StandsInFields end = false ≡ true
    StandsInFields (field j w fs) = ((j ≡ k) × (w ≡ v)) ⊎ (StandsIn w ⊎ StandsInFields fs)

module _ (redact : String → String) (k : String) (v : Json)
    (secret : is_sensitive_key k ≡ true) where
  mutual
    unfolding redact_value redact_items redact_fields

    value-redacted :
        (key : String) (w : Json) → StandsIn k v (redact_value redact key w) → v ≡ text redacted
    value-redacted key null h = cc
    value-redacted key (boolean b) h = cc
    value-redacted key (int n) h = cc
    value-redacted key (float m e) h = cc
    value-redacted key (text s) h = elim (Bool-cases (key == "pattern")) [
      | inl t ↦ let never : false ≡ true = rw t at h in cc
      | inr f ↦ let never : false ≡ true = rw f at h in cc
    ]
    value-redacted key (list vs) h = items-redacted key vs h
    value-redacted key (dict fs) h = fields-redacted fs h

    items-redacted :
        (key : String) (vs : Items)
        → StandsInItems k v (redact_items redact key vs)
        → v ≡ text redacted
    items-redacted key nil h = cc
    items-redacted key (cons w vs) (inl h) = value-redacted key w h
    items-redacted key (cons w vs) (inr h) = items-redacted key vs h

    fields-redacted :
        (fs : Fields) → StandsInFields k v (redact_fields redact fs) → v ≡ text redacted
    fields-redacted end h = cc
    fields-redacted (field j w fs) (inr (inr h)) = fields-redacted fs h
    fields-redacted (field j w fs) (inr (inl h)) = elim (Bool-cases (is_sensitive_key j)) [
      | inl t ↦ let never : false ≡ true = rw t at h in cc
      | inr f ↦ value-redacted j w (rw f at h)
    ]
    fields-redacted (field j w fs) (inl (same, here)) =
        let own : is_sensitive_key j ≡ true =
          subst (λ z. is_sensitive_key z ≡ true) (sym same) secret in
        sym here ∙ rw own refl

-- In content that was sanitized, each value under a key that spells one of the secret words, such
-- as password, token or apikey, is the placeholder: in small or capital letters, with underlines,
-- hyphens and spaces between them, whatever stands around the word, and at whatever depth.
pub sanitize_input-redacted :
    (redact : String → String) (fs : Fields) (k : String) (v : Json)
    → NamesSecret k
    → StandsInFields k v (sanitize_input redact fs)
    → v ≡ text "[REDACTED]"
unfolding sanitize_input
sanitize_input-redacted redact fs k v n h =
    fields-redacted redact k v (NamesSecret-sensitive k n) fs h
