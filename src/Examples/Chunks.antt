-- ===== src/Examples/Chunks.antt =====
-- Runs of the chunker.
use open_graph_memory.Prelude.{
  ℕ, ◌≤◌, String, ◌≡◌, ◌≢◌, refl, Bool, true, List, [], ◌∷◌, arith, eqb, length, any_row, All,
}
use open_graph_memory.Prelude.Results.{err, out_of_fuel}
use open_graph_memory.Json.{end}
use open_graph_memory.Chunking.{
  ParsedSegment, Chunker, Draft, segment_drafts, segment_loop, piece, next_end, boundary, rfind,
  rfind_from, placed_drafts, place, split_segments, chunk_all,
}
use open_graph_memory.Chunking.Offsets.{IsPiece, segment_drafts-IsPiece}
use open_graph_memory.Chunking.Coverage.{covers, segment_drafts-covers}
use open_graph_memory.Chunking.Bounds.{split_segments-le}
use open_graph_memory.Chunking.Termination.{split_segments_total}

abbrev is_blank : ℕ → Bool
is_blank x = eqb x 32

abbrev small : Chunker
small = record { size = 4; overlap = 1; maximum = 10 }

-- "ab cd ef"
abbrev a_segment : ParsedSegment
a_segment = record { text = 97 ∷ 98 ∷ 32 ∷ 99 ∷ 100 ∷ 32 ∷ 101 ∷ 102 ∷ []; metadata = end }

abbrev draft : List ℕ → ℕ → ℕ → Draft
draft value left right = record { value = value; left = left; right = right; metadata = end }

abbrev three : List Draft
three =
    draft (97 ∷ 98 ∷ 32 ∷ 99 ∷ []) 0 4
    ∷ draft (99 ∷ 100 ∷ 32 ∷ 101 ∷ []) 3 7
    ∷ draft (101 ∷ 102 ∷ []) 6 8
    ∷ []

segment_drafts-IsPiece_example : All (IsPiece is_blank small a_segment.text) three
unfolding segment_drafts segment_loop piece next_end boundary rfind rfind_from
segment_drafts-IsPiece_example =
    segment_drafts-IsPiece is_blank small 0 a_segment (omega arith) refl

segment_drafts-covers_example : any_row (covers 4) three ≡ true
unfolding segment_drafts segment_loop piece next_end boundary rfind rfind_from
segment_drafts-covers_example =
    segment_drafts-covers is_blank small a_segment 4 (omega arith) refl (omega arith) 0 refl

abbrev digest : String → ℕ → List ℕ → String
digest k index value = k

split_segments-le_example :
    length (chunk_all is_blank small digest "doc" 0 (place 1 3 three)) ≤ small.maximum
unfolding split_segments placed_drafts place segment_drafts segment_loop piece next_end boundary
    rfind rfind_from
split_segments-le_example = split_segments-le is_blank small digest "doc" (a_segment ∷ []) refl

split_segments_total_example :
    split_segments is_blank small digest "doc" (a_segment ∷ []) ≢ err out_of_fuel
split_segments_total_example = split_segments_total is_blank small digest "doc" (a_segment ∷ [])
