-- ===== src/Examples/Rankings.antt =====
-- A fusion of two rankings, with hundredths for floats.
use open_graph_memory.Prelude.{ℕ, String, none, some, List, [], ◌∷◌, ◌≡◌, refl, arith}
use open_graph_memory.Prelude.Results.{zero_division_error, err, ok, ◌>>=◌}
use open_graph_memory.Prelude.Sorting.{order_by, insert_by}
use open_graph_memory.Json.{end}
use open_graph_memory.Prelude.Int.{pos, negsuc, ◌+ℤ◌}
use open_graph_memory.Floats.{hundredths, hundredths_laws}
use open_graph_memory.Retrieval.{
  float_limit, RetrievedChunk, chunk_ids, distinct, merge_chunk, fuse_rankings,
  reciprocal_rank_fusion,
}
use open_graph_memory.Retrieval.Fused.{IsFused, reciprocal_rank_fusion-IsFused}
use open_graph_memory.Examples.Collation.{text_less}

abbrev a_chunk : String → String → RetrievedChunk ℕ
a_chunk k entity = record {
  chunk_id = k;
  document_id = "d";
  content = "text";
  score = 50;
  source = "vector";
  vector_score = some 50;
  graph_score = none;
  entities = entity ∷ [];
  relations = [];
  metadata = end;
}

reciprocal_rank_fusion-IsFused_example :
    (fused : List (RetrievedChunk ℕ)) × (reciprocal_rank_fusion hundredths text_less
        (λ x. x)
        (a_chunk "a" "e" ∷ a_chunk "b" "e" ∷ [])
        (a_chunk "b" "f" ∷ a_chunk "c" "f" ∷ [])
        2
        (pos 60)
        50
        50
      ≡ ok fused)
    × IsFused
        (a_chunk "a" "e" ∷ a_chunk "b" "e" ∷ [])
        (a_chunk "b" "f" ∷ a_chunk "c" "f" ∷ [])
        2
        fused
unfolding ◌+ℤ◌ float_limit
reciprocal_rank_fusion-IsFused_example =
    reciprocal_rank_fusion-IsFused hundredths hundredths_laws text_less (λ x. x)
      (a_chunk "a" "e" ∷ a_chunk "b" "e" ∷ []) (a_chunk "b" "f" ∷ a_chunk "c" "f" ∷ []) 2 60 50 50
      (ground arith) (λ positive. refl)

-- Of three candidates the one in both rankings comes first.
fused_names :
    (reciprocal_rank_fusion hundredths text_less
        (λ x. x)
        (a_chunk "a" "e" ∷ a_chunk "b" "e" ∷ [])
        (a_chunk "b" "f" ∷ a_chunk "c" "f" ∷ [])
        2
        (pos 1)
        50
        50
      >>= λ fused. ok (chunk_ids fused))
    ≡ ok ("b" ∷ "a" ∷ [])
unfolding ◌+ℤ◌ float_limit reciprocal_rank_fusion fuse_rankings distinct merge_chunk order_by
    insert_by
fused_names = refl

-- With `k` = -1 the first rank divides by zero.
negative_k :
    reciprocal_rank_fusion hundredths text_less
      (λ x. x)
      (a_chunk "a" "e" ∷ [])
      []
      2
      (negsuc 0)
      50
      50
    ≡ err zero_division_error
unfolding ◌+ℤ◌ float_limit reciprocal_rank_fusion fuse_rankings distinct merge_chunk order_by
    insert_by
negative_k = refl
