-- ===== src/Examples/Graphs.antt =====
-- Runs on a small graph and on a page of text, with hundredths for floats.
use open_graph_memory.Prelude.{
  ℕ, ◌≤◌, arith, max, String, Bool, ◌≡◌, refl, true, false, any_row, eqb, length, Option, none,
  some, List, [], ◌∷◌,
}
use open_graph_memory.Prelude.Sorting.{order_by, insert_by}
use open_graph_memory.Prelude.Results.{Result, ok, ◌>>=◌}
use open_graph_memory.Extraction.Evidence.{find_evidence, find, normalize_from}
use open_graph_memory.Extraction.Evidence.Exact.{IsEvidence, find_evidence-IsEvidence}
use open_graph_memory.Graph.Support.{supported_relation, supported_entity}
use open_graph_memory.Graph.Consolidation.{
  ConsolidationOutput, is_self_relation, validate_output, check_relations, check_aliases,
  check_item,
}
use open_graph_memory.Graph.Consolidation.Valid.{
  AreRelations, AreAliases, validate_output-IsSupported,
}
use open_graph_memory.Graph.Walk.{
  Walk, bounded_walk, walk_levels, visit_relations, visit_relation, path_ids, path_back, is_target,
}
use open_graph_memory.Graph.Walk.Found.{IsFound, bounded_walk-path_ids}
use open_graph_memory.Graph.Walk.Bounds.{bounded_walk-IsBounded}
use open_graph_memory.Graph.Rows.{
  unreviewed, CanonicalEntity, RelationAssertion, GraphEvidence, Graph,
}
use open_graph_memory.Graph.Explorer.{
  Analytics, ExplorerNode, build_explorer_node_page, list_explorer_relations, explorer_relation,
}
use open_graph_memory.Graph.Explorer.Pages.{read_all, explorer_pages_complete}
use open_graph_memory.Examples.Collation.{text_less, text_less-laws}
use open_graph_memory.Graph.Gc.{cleanup_document_graph, collect, remove_unsupported}
use open_graph_memory.Graph.Gc.Exact.{IsCleaned, cleanup_document_graph-IsCleaned}
use open_graph_memory.Graph.Gc.Total.{cleanup_document_graph_total}

abbrev pub an_entity : String → CanonicalEntity ℕ
an_entity k = record {
  id = k;
  project_id = "p";
  dataset_id = "ds_1";
  canonical_name = k;
  normalized_name = k;
  entity_type = "Person";
  confidence = 90;
  review_state = unreviewed;
  valid_from = 1;
  valid_until = none;
  superseded_by = none;
}

abbrev pub a_relation : String → String → String → RelationAssertion ℕ
a_relation k source target = record {
  id = k;
  project_id = "p";
  dataset_id = "ds_1";
  source_entity_id = source;
  target_entity_id = target;
  relation_type = "KNOWS";
  confidence = 80;
  extractor_version = "v1";
  review_state = unreviewed;
  valid_from = 1;
  valid_until = none;
  superseded_by = none;
}

abbrev pub an_evidence : String → String → Option String → Option String → GraphEvidence ℕ
an_evidence k document_id entity_id relation_id = record {
  id = k;
  project_id = "p";
  dataset_id = "ds_1";
  document_id = document_id;
  chunk_id = "c";
  run_id = "r";
  entity_id = entity_id;
  relation_id = relation_id;
  quote = "q";
  start_offset = none;
  end_offset = none;
  confidence = 90;
}

-- `a` and `b` are named by `d1`, `b` by `d2` too; `c` is only the end of a relation that `d1` cites.
abbrev a_graph : Graph ℕ
a_graph = record {
  entities = an_entity "a" ∷ an_entity "b" ∷ an_entity "c" ∷ [];
  aliases = [];
  alias_evidence = [];
  relations = a_relation "ab" "a" "b" ∷ a_relation "bc" "b" "c" ∷ [];
  evidence =
      an_evidence "1" "d1" (some "a") none
      ∷ an_evidence "2" "d1" (some "b") none
      ∷ an_evidence "3" "d2" (some "b") none
      ∷ an_evidence "4" "d1" none (some "ab")
      ∷ an_evidence "5" "d1" none (some "bc")
      ∷ [];
  merges = [];
}

-- `c` is left, though nothing supports it.
abbrev a_graph_cleaned : Graph ℕ
a_graph_cleaned = record {
  entities = an_entity "b" ∷ an_entity "c" ∷ [];
  aliases = [];
  alias_evidence = [];
  relations = [];
  evidence = an_evidence "3" "d2" (some "b") none ∷ [];
  merges = [];
}

cleanup_document_graph-IsCleaned_example :
    (gone : List String) × IsCleaned "p" "ds_1" "d1" a_graph a_graph_cleaned gone
unfolding cleanup_document_graph collect remove_unsupported
cleanup_document_graph-IsCleaned_example =
    cleanup_document_graph-IsCleaned "p" "ds_1" "d1" a_graph a_graph_cleaned refl

cleanup_document_graph_total_example :
    (after : Graph ℕ) × (cleanup_document_graph "p" "ds_1" "d1" a_graph ≡ ok after)
cleanup_document_graph_total_example = cleanup_document_graph_total "p" "ds_1" "d1" a_graph tt

abbrev by_text : String → String → Bool
by_text a b = true

-- From `a` over `b` to `c`.
abbrev a_walk : List String × List String
a_walk = ("a" ∷ "b" ∷ "c" ∷ [], "ab" ∷ "bc" ∷ [])

bounded_walk-path_ids_example :
    (w : Walk ℕ) × (es : List String) × (rs : List String) × (bounded_walk by_text a_graph "p"
        "ds_1"
        (an_entity "a")
        3
        200
        100
        (some "c")
      ≡ ok w)
    × (path_ids "a" "c" w.parents ≡ ok (es, rs))
    × IsFound "a" w.relations w.entities "c" es rs
bounded_walk-path_ids_example =
    bounded_walk-path_ids by_text a_graph "p" "ds_1" (an_entity "a") 3 200 100 "c"

found_walk : Result (Walk ℕ)
found_walk = bounded_walk by_text a_graph "p" "ds_1" (an_entity "a") 3 200 100 (some "c")

found_path : (found_walk >>= λ w. path_ids "a" "c" w.parents) ≡ ok a_walk
unfolding found_walk bounded_walk walk_levels visit_relations visit_relation path_ids path_back
    is_target order_by supported_relation supported_entity
found_path = refl

abbrev a_whole_walk : Walk ℕ
a_whole_walk = record {
  entities = an_entity "a" ∷ an_entity "b" ∷ [];
  relations = a_relation "ab" "a" "b" ∷ [];
  parents = ("b", ("a", "ab")) ∷ [];
  next_frontier = "b" ∷ [];
}

bounded_walk-IsBounded_example :
    (length a_whole_walk.entities ≤ max 1 200) × (length a_whole_walk.relations ≤ 1)
unfolding bounded_walk walk_levels visit_relations visit_relation is_target order_by
    supported_relation supported_entity
bounded_walk-IsBounded_example =
    bounded_walk-IsBounded by_text a_graph "p" "ds_1" (an_entity "a") 2 200 1 none a_whole_walk refl

-- "a-\nb  c" in a text, where the mention is "ab c"
abbrev is_blank_code : ℕ → Bool
is_blank_code c = eqb c 32

abbrev a_page : List ℕ
a_page = 120 ∷ 97 ∷ 45 ∷ 10 ∷ 98 ∷ 32 ∷ 32 ∷ 99 ∷ []

find_evidence-IsEvidence_example :
    (found : Option (ℕ × List ℕ)) × (find_evidence
        (λ c. c ∷ [])
        is_blank_code
        a_page
        (97 ∷ 98 ∷ 32 ∷ 99 ∷ [])
      ≡ ok found)
    × IsEvidence a_page (97 ∷ 98 ∷ 32 ∷ 99 ∷ []) found
find_evidence-IsEvidence_example =
    find_evidence-IsEvidence (λ c. c ∷ []) is_blank_code a_page (97 ∷ 98 ∷ 32 ∷ 99 ∷ [])

found_evidence :
    find_evidence (λ c. c ∷ []) is_blank_code a_page (97 ∷ 98 ∷ 32 ∷ 99 ∷ [])
    ≡ ok (some (1, 97 ∷ 45 ∷ 10 ∷ 98 ∷ 32 ∷ 32 ∷ 99 ∷ []))
unfolding find_evidence find normalize_from
found_evidence = refl

-- The page says "ab" and "c".
abbrev an_output : ConsolidationOutput
an_output = record {
  relations =
      record {
        source = 97 ∷ 98 ∷ [];
        source_type = 80 ∷ [];
        target = 99 ∷ [];
        target_type = 80 ∷ [];
        type = 75 ∷ [];
        evidence_chunk_id = "chunk";
        quote = 97 ∷ 98 ∷ 32 ∷ 99 ∷ [];
      }
      ∷ [];
  aliases = [];
}

abbrev page_of : String → Option (List ℕ)
page_of k = some a_page

validate_output-IsSupported_example :
    AreRelations (λ c. c ∷ []) is_blank_code page_of [] an_output.relations
    × AreAliases (λ c. c ∷ []) is_blank_code page_of [] an_output.aliases
    × (any_row is_self_relation an_output.relations ≡ false)
unfolding validate_output check_relations check_aliases check_item find_evidence find normalize_from
validate_output-IsSupported_example =
    validate_output-IsSupported (λ c. c ∷ []) is_blank_code page_of an_output refl

-- One run, which knows `a` only.
abbrev an_analytics : Analytics ℕ
an_analytics = record {
  runs = record { id = "run"; project_id = "p"; dataset_id = "ds_1"; created_at = 4 } ∷ [];
  memberships = record { run_id = "run"; entity_id = "a"; level = 0; community_id = "c0" } ∷ [];
  metrics =
      record { run_id = "run"; entity_id = "a"; degree = 1; weighted_degree = 80; importance = 50 }
      ∷ [];
}

abbrev scored_node : String → Option String → ℕ → ℕ → ℕ → ExplorerNode ℕ
scored_node k community degree weighted_degree importance = record {
  id = k;
  canonical_name = k;
  entity_type = "Person";
  community_id = community;
  degree = degree;
  weighted_degree = weighted_degree;
  importance = importance;
}

explorer_pages_complete_example :
    (read_all 4 (build_explorer_node_page text_less a_graph "p" "ds_1" 0 an_analytics 0 1) none
      ≡ scored_node "a" (some "c0") 1 80 50
        ∷ scored_node "b" none 0 0 0
        ∷ scored_node "c" none 0 0 0
        ∷ [])
    × (read_all 4 (list_explorer_relations text_less a_graph "p" "ds_1" 1) none
        ≡ explorer_relation (a_relation "ab" "a" "b")
          ∷ explorer_relation (a_relation "bc" "b" "c")
          ∷ [])
unfolding order_by insert_by supported_entity supported_relation
explorer_pages_complete_example =
    explorer_pages_complete text_less text_less-laws a_graph "p" "ds_1" 0 an_analytics 0 1 1 4
      (omega arith) (omega arith) (omega arith) (omega arith)
      ((refl, (refl, tt)), ((refl, tt), (tt, tt))) ((refl, tt), (tt, tt))
