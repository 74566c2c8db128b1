-- ===== src/Chunking/Bounds.antt =====
-- chunking.py: the maximum number of chunks of a document.
use open_graph_memory.Prelude.{
  ℕ, zero, suc, ◌+◌, ◌≤◌, ◌≡◌, refl, String, Bool, List, [], ◌∷◌, ◌++◌, inl, inr, arith, length,
  length-append, Bool-cases,
}
use open_graph_memory.Prelude.Results.{ok, >>=-eq-ok}
use open_graph_memory.Json.{Fields}
use open_graph_memory.Chunking.{
  ParsedSegment, TextChunk, Chunker, Draft, piece, next_end, segment_loop, segment_drafts,
  is_short_page, Placed, placed_drafts, split_segments, chunk_all, place,
}
use open_graph_memory.Chunking.Offsets.{past, last, more, segment_loop-Round, segment_loop-zero}

length-place : (part count : ℕ) (ds : List Draft) → length (place part count ds) ≡ length ds
unfolding place
length-place part count [] = refl
length-place part count (d ∷ ds) = omega (arith, length-place (suc part) count ds)

module _ (is_space : ℕ → Bool) (c : Chunker) where
  piece-one :
      (text : List ℕ) (metadata : Fields) (start stop : ℕ)
      → length (piece is_space text metadata start stop) ≤ 1
  unfolding piece
  piece-one text metadata start stop = ground arith

  -- A round that adds a draft found room for it.
  segment_loop-room :
      (fuel : ℕ) (s : ParsedSegment) (n start : ℕ) {ds : List Draft}
      → segment_loop is_space c fuel s n start ≡ ok ds
      → n ≤ c.maximum
      → n + length ds ≤ c.maximum
  segment_loop-room zero s n start q h =
      let (a, e) = segment_loop-zero is_space c s n start q in rw e (omega arith)
  segment_loop-room (suc fuel) s n start q h =
      elim (segment_loop-Round is_space c fuel s n start q) [
        | past a e ↦ rw e (omega arith)
        | last a room b e ↦
            let one = piece-one s.text s.metadata start (next_end c s.text start) in
            rw e (omega arith)
        | more a room rest found e ↦
            let one = piece-one s.text s.metadata start (next_end c s.text start) in
            let r = segment_loop-room fuel s _ _ found (omega arith) in
            rw (e, length-append) (omega arith)
      ]

  segment_drafts-room :
      (n : ℕ) (s : ParsedSegment) {ds : List Draft}
      → segment_drafts is_space c n s ≡ ok ds
      → n ≤ c.maximum
      → n + length ds ≤ c.maximum
  unfolding segment_drafts
  segment_drafts-room n s {ds} q h =
      let one = piece-one s.text s.metadata 0 (length s.text) in
      elim (Bool-cases (is_short_page is_space c s)) [
        | inl t ↦
            let r : ds ≡ piece is_space s.text s.metadata 0 (length s.text) = ground arith in
            rw r (ground arith)
        | inr f ↦ segment_loop-room (length s.text) s n 0 (ground arith) h
      ]

  placed_drafts-room :
      (n : ℕ) (ss : List ParsedSegment) {ps : List Placed}
      → placed_drafts is_space c n ss ≡ ok ps
      → n ≤ c.maximum
      → n + length ps ≤ c.maximum
  unfolding placed_drafts
  placed_drafts-room n [] {ps} q h = let e : ps ≡ [] = ground arith in rw e (omega arith)
  placed_drafts-room n (s ∷ ss) {ps} q h =
      let (ds, first, tail) = >>=-eq-ok (segment_drafts is_space c n s) _ q in
      let (rest, second, joined) = >>=-eq-ok (placed_drafts is_space c (n + length ds) ss) _ tail in
      let room = placed_drafts-room (n + length ds) ss second (segment_drafts-room n s first h) in
      let e : ps ≡ place 1 (length ds) ds ++ rest = ground arith in
      rw (e, length-append, length-place) (omega arith)

  length-chunk_all :
      (digest : String → ℕ → List ℕ → String) (k : String) (index : ℕ) (ps : List Placed)
      → length (chunk_all is_space c digest k index ps) ≡ length ps
  unfolding chunk_all
  length-chunk_all digest k index [] = refl
  length-chunk_all digest k index (p ∷ ps) = omega (arith, length-chunk_all digest k (suc index) ps)

  -- A document that is split has no more chunks than the maximum.
  pub split_segments-le :
      (digest : String → ℕ → List ℕ → String) (k : String) (ss : List ParsedSegment)
      {cs : List TextChunk}
      → split_segments is_space c digest k ss ≡ ok cs
      → length cs ≤ c.maximum
  unfolding split_segments
  split_segments-le digest k ss {cs} q =
      let (ps, placed, made) = >>=-eq-ok (placed_drafts is_space c 0 ss) _ q in
      let room = placed_drafts-room 0 ss placed (omega arith) in
      let e : cs ≡ chunk_all is_space c digest k 0 ps = ground arith in
      rw (e, length-chunk_all) (omega arith)
