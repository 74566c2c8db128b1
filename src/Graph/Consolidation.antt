-- ===== src/Graph/Consolidation.antt =====
-- graph/consolidation.py: what the second pass of a document's extraction may add to the graph. A
-- text is its code points, an identifier a string; `find` is `find_evidence` of the core package.
pub mod Valid
use open_graph_memory.Prelude.{
  String, ℕ, Bool, true, false, not, ◌&&◌, ◌||◌, Option, none, some, List, [], ◌∷◌, ◌==◌, any_row,
  codes_eq, if◌then◌else◌,
}
use open_graph_memory.Prelude.Results.{value_error, Result, ok, err, ◌>>=◌, ◌>>◌, guard}
use open_graph_memory.Extraction.Evidence.{find, find_evidence, is_listed_text}

pub record ConsolidationRelation : Type 0 where
  pub source : List ℕ
  pub source_type : List ℕ
  pub target : List ℕ
  pub target_type : List ℕ
  pub type : List ℕ
  pub evidence_chunk_id : String
  pub quote : List ℕ

pub record ConsolidationAlias : Type 0 where
  pub canonical_name : List ℕ
  pub entity_type : List ℕ
  pub alias : List ℕ
  pub evidence_chunk_id : String
  pub quote : List ℕ

pub record ConsolidationOutput : Type 0 where
  pub relations : List ConsolidationRelation
  pub aliases : List ConsolidationAlias

-- `name in quote`
abbrev pub mentions : List ℕ → List ℕ → Bool
mentions quote name = elim (find name quote) [ none ↦ false | some n ↦ true ]

-- the key of a reference to evidence, and whether an item before has it
pub record Reference : Type 0 where
  pub chunk_id : String
  pub quote : List ℕ

abbrev pub is_seen : List Reference → Reference → Bool
is_seen seen r =
    any_row (λ (x : Reference). x.chunk_id == r.chunk_id && codes_eq x.quote r.quote) seen

abbrev pub is_found : Option (ℕ × List ℕ) → Bool
is_found none = false
is_found (some e) = true

abbrev pub relation_reference : ConsolidationRelation → Reference
relation_reference r = record { chunk_id = r.evidence_chunk_id; quote = r.quote }

abbrev pub alias_reference : ConsolidationAlias → Reference
alias_reference a = record { chunk_id = a.evidence_chunk_id; quote = a.quote }

abbrev pub is_self_relation : ConsolidationRelation → Bool
is_self_relation r = codes_eq r.source r.target && codes_eq r.source_type r.target_type

module _ (nfkc : ℕ → List ℕ) (is_space : ℕ → Bool) (chunk_text : String → Option (List ℕ)) where
  -- `not quote or find_evidence(chunk.text, quote) is None` raises
  abbrev pub check_quote : List ℕ → List ℕ → Result (Unit {0})
  check_quote chunk quote = do
    guard (is_listed_text quote)
        (value_error "consolidation evidence quote is not an exact chunk substring")
    found ← find_evidence nfkc is_space chunk quote
    guard (is_found found)
        (value_error "consolidation evidence quote is not an exact chunk substring")

  -- The checks of one item, which names two things in its quote
  unfoldable pub check_item :
      List Reference → String → List ℕ → List ℕ → List ℕ → String → Result (Unit {0})
  check_item seen chunk_id quote first second message = elim (chunk_text chunk_id) [
    | none ↦ err (value_error "consolidation evidence references an unknown chunk")
    | some chunk ↦ do
      check_quote chunk quote
      guard (mentions quote first && mentions quote second) (value_error message)
      guard (not (is_seen seen (record { chunk_id = chunk_id; quote = quote })))
          (value_error "consolidation output has duplicate evidence references")
  ]

  unfoldable pub check_relations : List Reference → List ConsolidationRelation → Result (Unit {0})
  check_relations seen [] = ok tt
  check_relations seen (r ∷ rs) = do
    check_item seen r.evidence_chunk_id r.quote r.source r.target
        "relation evidence must directly mention both endpoints"
    check_relations (relation_reference r ∷ seen) rs

  unfoldable pub check_aliases : List Reference → List ConsolidationAlias → Result (Unit {0})
  check_aliases seen [] = ok tt
  check_aliases seen (a ∷ rest) = do
    check_item seen a.evidence_chunk_id a.quote a.alias a.canonical_name
        "alias evidence must directly mention alias and canonical name"
    check_aliases (alias_reference a ∷ seen) rest

  -- The keys of relations and of aliases differ in the name of their type.
  unfoldable pub validate_output : ConsolidationOutput → Result (Unit {0})
  validate_output output = do
    check_relations [] output.relations
    check_aliases [] output.aliases
    guard (not (any_row is_self_relation output.relations))
        (value_error "consolidation output has a self-relation")
