-- ===== src/Retrieval.antt =====
-- apps/api/app/retrieval.py: reciprocal_rank_fusion, with the texts' order `less` and Python's `round`
-- to four places as arguments. The results asked for are a natural number.
pub mod Fused
use open_graph_memory.Prelude.{
  ℕ, zero, suc, ◌+◌, ◌*◌, ◌-◌, ◌^◌, leb, String, Bool, true, false, not, ◌&&◌, Option, none, some,
  List, [], ◌∷◌, ◌++◌, map, ◌==◌, contains, take, where_rows, if◌then◌else◌,
}
use open_graph_memory.Prelude.Sorting.{order_by}
use open_graph_memory.Prelude.Results.{
  Result, ok, err, Error, key_error, zero_division_error, overflow_error, ◌>>=◌,
}
use open_graph_memory.Prelude.Int.{ℤ, pos, negsuc, ◌+ℤ◌}
use open_graph_memory.Json.{Fields}
use open_graph_memory.Floats.{Floats, zero_float, one_float}

pub record RetrievedChunk (F : Type 0) : Type 0 where
  pub chunk_id : String
  pub document_id : String
  pub content : String
  pub score : F
  pub source : String
  pub vector_score : Option F
  pub graph_score : Option F
  pub entities : List String
  pub relations : List String
  pub metadata : Fields

-- `list(dict.fromkeys(xs))`, and the elements of a set
unfoldable pub distinct : List String → List String
distinct [] = []
distinct (x ∷ xs) = x ∷ where_rows (λ y. not (x == y)) (distinct xs)

abbrev source_of : Bool → Bool → String
source_of true true = "hybrid"
source_of true false = "vector"
source_of false _ = "graph"

module _ {F : Type 0} where
  -- `vec_ranks.get(cid)`: the rank of the last chunk under the id
  abbrev pub rank_of : String → ℕ → List (RetrievedChunk F) → Option ℕ
  rank_of k rank [] = none
  rank_of k rank (c ∷ cs) = elim (rank_of k (suc rank) cs) [
    | some later ↦ some later
    | none ↦ if c.chunk_id == k then some rank else none
  ]

  -- `chunk_store[k]` after the vector results
  abbrev pub stored_vector :
      String → Option (RetrievedChunk F) → List (RetrievedChunk F) → Option (RetrievedChunk F)
  stored_vector k found [] = found
  stored_vector k found (c ∷ cs) = stored_vector k (if c.chunk_id == k then some c else found) cs

  unfoldable pub merge_chunk : Option (RetrievedChunk F) → RetrievedChunk F → RetrievedChunk F
  unfolding distinct
  merge_chunk none c = c
  merge_chunk (some existing) c = record existing {
    graph_score = c.graph_score;
    entities = distinct (existing.entities ++ c.entities);
    relations = distinct (existing.relations ++ c.relations);
  }

  -- `chunk_store[k]` after the graph results too
  abbrev pub stored_graph :
      String → Option (RetrievedChunk F) → List (RetrievedChunk F) → Option (RetrievedChunk F)
  stored_graph k found [] = found
  stored_graph k found (c ∷ cs) =
      stored_graph k (if c.chunk_id == k then some (merge_chunk found c) else found) cs

  abbrev pub chunk_ids : List (RetrievedChunk F) → List String
  chunk_ids cs = map (λ (c : RetrievedChunk F). c.chunk_id) cs

  abbrev pub all_ids : List (RetrievedChunk F) → List (RetrievedChunk F) → List String
  all_ids vector_results graph_results =
      distinct (chunk_ids vector_results ++ chunk_ids graph_results)

  -- The loop over the sorted ids; a missing id raises.
  abbrev pub fuse :
      (String → Option (RetrievedChunk F))
      → (String → RetrievedChunk F → Result (RetrievedChunk F))
      → List String
      → Result (List (RetrievedChunk F))
  fuse store make [] = ok []
  fuse store make (cid ∷ cids) = elim (store cid) [
    | none ↦ err (key_error cid)
    | some base ↦ do made ← make cid base; rest ← fuse store make cids; ok (made ∷ rest)
  ]

-- the least integer that rounds to no float
unfoldable pub float_limit : ℕ
float_limit = 2 ^ 1024 - 2 ^ 970

abbrev pub is_large : ℤ → Bool
is_large (pos n) = leb float_limit n
is_large (negsuc n) = leb float_limit (suc n)

module _ {F : Type 0} (fl : Floats F) where
  -- `b == 0.0`
  abbrev pub is_zero : F → Bool
  is_zero b = fl.le b (zero_float fl) && fl.le (zero_float fl) b

  -- `a / b`
  abbrev pub divide : F → F → Result F
  divide a b = if is_zero b then err zero_division_error else ok (fl.div a b)

  abbrev pub of_int : ℤ → F
  of_int (pos n) = fl.cents (n * 100)
  of_int (negsuc n) = fl.sub (zero_float fl) (fl.cents (suc n * 100))

  -- `a / n` for an integer
  abbrev pub divide_int : F → ℤ → Result F
  divide_int a n = if is_large n then err overflow_error else divide a (of_int n)

  abbrev pub part_of : F → ℤ → Option ℕ → Result F
  part_of weight k none = ok (zero_float fl)
  part_of weight k (some rank) = divide_int weight (k +ℤ pos rank)

  abbrev pub rrf_score :
      List (RetrievedChunk F) → List (RetrievedChunk F) → ℤ → F → F → String → Result F
  rrf_score vector_results graph_results k vector_weight graph_weight cid = do
    v_comp ← part_of vector_weight k (rank_of cid 1 vector_results)
    g_comp ← part_of graph_weight k (rank_of cid 1 graph_results)
    ok (fl.add v_comp g_comp)

  -- the dictionary of the scores
  abbrev pub rrf_scores : (String → Result F) → List String → Result (List (String × F))
  rrf_scores score [] = ok []
  rrf_scores score (cid ∷ cids) = do
    own ← score cid
    rest ← rrf_scores score cids
    ok ((cid, own) ∷ rest)

  -- `rrf_scores[cid]`, of an id that is there
  abbrev pub score_in : List (String × F) → String → F
  score_in [] cid = zero_float fl
  score_in ((j, own) ∷ rest) cid = if j == cid then own else score_in rest cid

  abbrev pub max_possible : ℤ → F → F → Result F
  max_possible k vector_weight graph_weight =
      let sum = fl.add vector_weight graph_weight in
      if fl.lt (zero_float fl) sum then divide_int sum (k +ℤ pos 1) else ok (one_float fl)

  -- `(-score[b], b) < (-score[a], a)` is false
  abbrev pub in_rank_order : (String → String → Bool) → (String → F) → String → String → Bool
  in_rank_order less score a b = not (
      if fl.le (score a) (score b) && fl.le (score b) (score a)
      then less b a
      else fl.lt (score a) (score b))

  abbrev pub scored_chunk :
      (F → F)
      → List (RetrievedChunk F)
      → List (RetrievedChunk F)
      → F
      → String
      → RetrievedChunk F
      → RetrievedChunk F
  scored_chunk round_4 vector_results graph_results ratio cid base = record base {
    score = round_4 (if fl.lt ratio (one_float fl) then ratio else one_float fl);
    source =
        source_of (contains (chunk_ids vector_results) cid)
          (contains (chunk_ids graph_results) cid);
  }

  abbrev pub fused_chunk :
      (F → F)
      → List (RetrievedChunk F)
      → List (RetrievedChunk F)
      → List (String × F)
      → F
      → String
      → RetrievedChunk F
      → Result (RetrievedChunk F)
  fused_chunk round_4 vector_results graph_results scores best cid base = do
    ratio ← divide (score_in scores cid) best
    ok (scored_chunk round_4 vector_results graph_results ratio cid base)

module _ {F : Type 0} (fl : Floats F) (less : String → String → Bool) (round_4 : F → F) where
  unfoldable pub fuse_rankings :
      List (RetrievedChunk F)
      → List (RetrievedChunk F)
      → ℕ
      → ℤ
      → F
      → F
      → Result (List (RetrievedChunk F))
  fuse_rankings vector_results graph_results top_k k vector_weight graph_weight = do
    scores ←
        rrf_scores fl (rrf_score fl vector_results graph_results k vector_weight graph_weight)
          (all_ids vector_results graph_results)
    best ← max_possible fl k vector_weight graph_weight
    fuse (λ cid. stored_graph cid (stored_vector cid none vector_results) graph_results)
        (fused_chunk fl round_4 vector_results graph_results scores best)
        (take top_k (
          order_by (in_rank_order fl less (score_in fl scores))
            (all_ids vector_results graph_results)))

  unfoldable pub reciprocal_rank_fusion :
      List (RetrievedChunk F)
      → List (RetrievedChunk F)
      → ℕ
      → ℤ
      → F
      → F
      → Result (List (RetrievedChunk F))
  unfolding fuse_rankings
  reciprocal_rank_fusion [] [] top_k k vector_weight graph_weight = ok []
  reciprocal_rank_fusion vector_results graph_results top_k k vector_weight graph_weight =
      fuse_rankings vector_results graph_results top_k k vector_weight graph_weight
