-- ===== src/Graph/Consolidation/Valid.antt =====
-- graph/consolidation.py `validate_output`: what an accepted output says.
use open_graph_memory.Prelude.{
  String, ℕ, ◌≡◌, inl, inr, subst, sym, ◌∙◌, Bool, true, false, not, ◌&&◌, Option, none, some, List,
  [], ◌∷◌, any_row, arith, Option-cases,
}
use open_graph_memory.Prelude.Results.{ok, guard, >>=-eq-ok, guard-eq-ok, ok_inj}
use open_graph_memory.Extraction.Evidence.{find, find_evidence, is_listed_text}
use open_graph_memory.Extraction.Evidence.Exact.{
  IsAt, find-IsAt, IsEvidence, find_evidence-IsEvidence,
}
use open_graph_memory.Graph.Consolidation.{
  ConsolidationRelation, ConsolidationAlias, ConsolidationOutput, mentions, Reference, is_seen,
  is_found, check_quote, check_item, relation_reference, alias_reference, check_relations,
  check_aliases, is_self_relation, validate_output,
}

-- The name stands somewhere in the quote.
abbrev pub Mentions : List ℕ → List ℕ → Type 0
Mentions quote name = (n : ℕ) × IsAt name quote n

mentions-Mentions : (quote name : List ℕ) → mentions quote name ≡ true → Mentions quote name
mentions-Mentions quote name h = elim (Option-cases (find name quote)) [
  | inl n ↦ let never = rw (mentions, n) at h in cc
  | inr (n, found) ↦ (n, find-IsAt name quote n found)
]

module _ (nfkc : ℕ → List ℕ) (is_space : ℕ → Bool) (chunk_text : String → Option (List ℕ)) where
  -- The quote is not empty and was found in the chunk: there are characters of the chunk's text, at
  -- an offset within it, that it stands for.
  abbrev pub IsQuoted : List ℕ → List ℕ → Type 0
  IsQuoted chunk quote =
      (found : ℕ × List ℕ) × (find_evidence nfkc is_space chunk quote ≡ ok (some found))
      × IsEvidence chunk quote (some found)
      × (is_listed_text quote ≡ true)

  check_quote-IsQuoted :
      (chunk quote : List ℕ) {u : Unit {0}}
      → check_quote nfkc is_space chunk_text chunk quote ≡ ok u
      → IsQuoted chunk quote
  check_quote-IsQuoted chunk quote h =
      let (u, given, h2) = >>=-eq-ok (guard (is_listed_text quote) _) _ h in
      let (found, run, own) = find_evidence-IsEvidence nfkc is_space chunk quote in
      let (seen, run2, h3) = >>=-eq-ok (find_evidence nfkc is_space chunk quote) _ h2 in
      found_quote found run own (guard-eq-ok (is_listed_text quote) _ given) (
        subst (λ z. is_found z ≡ true) (ok_inj (sym run2 ∙ run)) (guard-eq-ok (is_found seen) _ h3))
    where
      found_quote :
          (found : Option (ℕ × List ℕ))
          → find_evidence nfkc is_space chunk quote ≡ ok found
          → IsEvidence chunk quote found
          → is_listed_text quote ≡ true
          → is_found found ≡ true
          → IsQuoted chunk quote
      found_quote none run own given seen = cc
      found_quote (some e) run own given seen = (e, run, own, given)

  -- The item refers to a chunk that is there, its quote is found there and mentions both names.
  abbrev pub IsSupported : String → List ℕ → List ℕ → List ℕ → Type 0
  IsSupported chunk_id quote first second =
      (chunk : List ℕ) × (chunk_text chunk_id ≡ some chunk)
      × IsQuoted chunk quote
      × Mentions quote first
      × Mentions quote second

  check_item-IsSupported :
      (seen : List Reference) (chunk_id : String) (quote first second : List ℕ) (message : String)
      {u : Unit {0}}
      → check_item nfkc is_space chunk_text seen chunk_id quote first second message ≡ ok u
      → IsSupported chunk_id quote first second
        × (is_seen seen (record { chunk_id = chunk_id; quote = quote }) ≡ false)
  unfolding check_item
  check_item-IsSupported seen chunk_id quote first second message h =
      elim (Option-cases (chunk_text chunk_id)) [
        | inl n ↦ let never = rw (check_item, n) at h in cc
        | inr (chunk, there) ↦
            let (u1, quoted, h2) =
              >>=-eq-ok (check_quote nfkc is_space chunk_text chunk quote) _
                (rw (check_item, there) at h) in
            let (u2, named, h3) =
              >>=-eq-ok (guard (mentions quote first && mentions quote second) _) _ h2 in
            let both = guard-eq-ok (mentions quote first && mentions quote second) _ named in
            let fresh =
              guard-eq-ok (not (is_seen seen (record { chunk_id = chunk_id; quote = quote }))) _
                h3 in
            (
              (
                chunk,
                there,
                check_quote-IsQuoted chunk quote quoted,
                mentions-Mentions quote first (ground (arith, both)),
                mentions-Mentions quote second (ground (arith, both)),
              ),
              ground (arith, fresh),
            )
      ]

  -- Each relation is supported by its quote, and none refers to the evidence of one before.
  abbrev pub AreRelations : List Reference → List ConsolidationRelation → Type 0
  AreRelations seen [] = Unit {0}
  AreRelations seen (r ∷ rs) =
      IsSupported r.evidence_chunk_id r.quote r.source r.target
      × (is_seen seen (relation_reference r) ≡ false)
      × AreRelations (relation_reference r ∷ seen) rs

  abbrev pub AreAliases : List Reference → List ConsolidationAlias → Type 0
  AreAliases seen [] = Unit {0}
  AreAliases seen (a ∷ rest) =
      IsSupported a.evidence_chunk_id a.quote a.alias a.canonical_name
      × (is_seen seen (alias_reference a) ≡ false)
      × AreAliases (alias_reference a ∷ seen) rest

  check_relations-AreRelations :
      (seen : List Reference) (rs : List ConsolidationRelation) {u : Unit {0}}
      → check_relations nfkc is_space chunk_text seen rs ≡ ok u
      → AreRelations seen rs
  unfolding check_relations
  check_relations-AreRelations seen [] h = tt
  check_relations-AreRelations seen (r ∷ rs) h =
      let (u, item, rest) =
        >>=-eq-ok
          (check_item nfkc is_space chunk_text seen r.evidence_chunk_id r.quote r.source r.target _)
          _ h in
      let (supported, fresh) =
        check_item-IsSupported seen r.evidence_chunk_id r.quote r.source r.target _ item in
      (supported, fresh, check_relations-AreRelations _ rs rest)

  check_aliases-AreAliases :
      (seen : List Reference) (rest : List ConsolidationAlias) {u : Unit {0}}
      → check_aliases nfkc is_space chunk_text seen rest ≡ ok u
      → AreAliases seen rest
  unfolding check_aliases
  check_aliases-AreAliases seen [] h = tt
  check_aliases-AreAliases seen (a ∷ rest) h =
      let (u, item, next) =
        >>=-eq-ok
          (check_item nfkc is_space chunk_text seen a.evidence_chunk_id a.quote a.alias
            a.canonical_name _)
          _ h in
      let (supported, fresh) =
        check_item-IsSupported seen a.evidence_chunk_id a.quote a.alias a.canonical_name _ item in
      (supported, fresh, check_aliases-AreAliases _ rest next)

  -- An output that is accepted has evidence for everything: each relation and each alias refers to a
  -- chunk that is there, its quote stands for characters of that chunk's text, and the two names that
  -- it is about stand in the quote. No two relations share a chunk and a quote, nor do two aliases,
  -- and no relation leads from an entity to itself.
  pub validate_output-IsSupported :
      (output : ConsolidationOutput) {u : Unit {0}}
      → validate_output nfkc is_space chunk_text output ≡ ok u
      → AreRelations [] output.relations
        × AreAliases [] output.aliases
        × (any_row is_self_relation output.relations ≡ false)
  unfolding validate_output
  validate_output-IsSupported output h =
      let (u1, relations, h2) =
        >>=-eq-ok (check_relations nfkc is_space chunk_text [] output.relations) _ h in
      let (u2, aliases, h3) =
        >>=-eq-ok (check_aliases nfkc is_space chunk_text [] output.aliases) _ h2 in
      let different = guard-eq-ok (not (any_row is_self_relation output.relations)) _ h3 in
      (
        check_relations-AreRelations [] output.relations relations,
        check_aliases-AreAliases [] output.aliases aliases,
        ground (arith, different),
      )
