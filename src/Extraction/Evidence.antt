-- ===== src/Extraction/Evidence.antt =====
-- packages/core extraction.py `find_evidence`: a mention in a text, as its offset and the exact text
-- there. A text is its code points; `nfkc` is `unicodedata.normalize("NFKC", c)` and `is_space` is
-- `str.isspace` of one of them.
pub mod Exact
use open_graph_memory.Prelude.{
  ℕ, zero, suc, ◌+◌, ◌-◌, Bool, true, false, not, ◌&&◌, ◌||◌, Option, none, some, List, [], ◌∷◌,
  ◌++◌, map, starts_codes, all_rows, length, take, drop, eqb, if◌then◌else◌,
}
use open_graph_memory.Prelude.Results.{raised, Result, ok, err, ◌>>=◌}

-- a character of the normalized text, with the start and the end of what it stands for
pub record Place : Type 0 where
  pub item : ℕ
  pub start : ℕ
  pub end_ : ℕ

-- `text.find(mention)`; none is -1
unfoldable pub find : List ℕ → List ℕ → Option ℕ
find mention [] = if starts_codes mention [] then some 0 else none
find mention (c ∷ rest) =
    let later = find mention rest in
    if starts_codes mention (c ∷ rest)
    then some 0
    else elim later [ none ↦ none | some n ↦ some (suc n) ]

-- `c in "\r\n"`
abbrev is_line_end : ℕ → Bool
is_line_end c = eqb c 13 || eqb c 10

abbrev next_is : (ℕ → Bool) → List ℕ → Bool
next_is test [] = false
next_is test (c ∷ rest) = test c

abbrev pub is_listed_text : List ℕ → Bool
is_listed_text [] = false
is_listed_text (c ∷ rest) = true

-- the inner loop that the next character is in
pub data Mode : Type 0 where
  reading in_line_ends in_spaces : Mode

abbrev pub placed_items : ℕ → List ℕ → List Place
placed_items index [] = []
placed_items index (c ∷ cs) =
    record { item = c; start = index; end_ = index + 1 } ∷ placed_items index cs

abbrev pub place_at : ℕ → List Place → Result Place
place_at n [] = err (raised "IndexError")
place_at zero (p ∷ ps) = ok p
place_at (suc n) (p ∷ ps) = place_at n ps

abbrev pub items : List Place → List ℕ
items ps = map (λ (p : Place). p.item) ps

-- `text[i:j]`
abbrev pub between : List ℕ → ℕ → ℕ → List ℕ
between text i j = take (j - i) (drop i text)

-- The quote between the places of the mention's first and last characters
abbrev pub quote_at : List ℕ → List Place → ℕ → ℕ → Result (Option (ℕ × List ℕ))
quote_at text ps offset size = place_at offset ps >>= λ first.
    place_at (offset + size - 1) ps >>= λ last.
    ok (some (first.start, between text first.start last.end_))

module _ (nfkc : ℕ → List ℕ) (is_space : ℕ → Bool) where
  -- `converted.isspace()`
  abbrev is_space_text : List ℕ → Bool
  is_space_text cs = is_listed_text cs && all_rows is_space cs

  -- A run of spaces becomes one, which stands for the last of them.
  abbrev pub end_spaces : ℕ → List ℕ → (Mode → List Place) → List Place
  end_spaces index rest next =
      if next_is is_space rest then next in_spaces else placed_items index (32 ∷ []) ++ next reading

  abbrev pub read : ℕ → ℕ → List ℕ → (Mode → List Place) → List Place
  read index c rest next =
      if eqb c 173
      then next reading
      else if eqb c 45 && next_is is_line_end rest
      then next in_line_ends
      else if is_space_text (nfkc c)
      then end_spaces index rest next
      else placed_items index (nfkc c) ++ next reading

  abbrev pub in_mode : Mode → ℕ → ℕ → List ℕ → (Mode → List Place) → List Place
  in_mode reading index c rest next = read index c rest next
  in_mode in_line_ends index c rest next =
      if is_line_end c then next in_line_ends else read index c rest next
  in_mode in_spaces index c rest next = end_spaces index rest next

  -- `_normalize_evidence(value)` from an index on, its three lists as one
  unfoldable pub normalize_from : ℕ → List ℕ → Mode → List Place
  normalize_from index [] mode = []
  normalize_from index (c ∷ rest) mode = in_mode mode index c rest (normalize_from (index + 1) rest)

  abbrev pub normalize_evidence : List ℕ → List Place
  normalize_evidence value = normalize_from 0 value reading

  abbrev pub find_normalized : List ℕ → List ℕ → Result (Option (ℕ × List ℕ))
  find_normalized text mention =
      if is_listed_text (items (normalize_evidence mention))
      then elim (find (items (normalize_evidence mention)) (items (normalize_evidence text))) [
        | none ↦ ok none
        | some offset ↦
            quote_at text (normalize_evidence text) offset
              (length (items (normalize_evidence mention)))
      ]
      else ok none

  unfoldable pub find_evidence : List ℕ → List ℕ → Result (Option (ℕ × List ℕ))
  find_evidence text mention = elim (find mention text) [
    | some offset ↦ ok (some (offset, mention))
    | none ↦ find_normalized text mention
  ]
