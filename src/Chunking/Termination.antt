-- ===== src/Chunking/Termination.antt =====
-- chunking.py: the rounds of the loop over a segment.
use open_graph_memory.Prelude.{
  ℕ, zero, suc, ◌+◌, ◌-◌, ◌≤◌, max, ◌≢◌, Bool, List, [], ◌∷◌, ◌++◌, inl, inr, arith, String, length,
  Bool-cases,
}
use open_graph_memory.Prelude.Results.{Result, ok, err, out_of_fuel, ◌>>=◌}
use open_graph_memory.Chunking.{
  ParsedSegment, Chunker, Draft, next_end, segment_loop, segment_drafts, is_short_page,
  placed_drafts, split_segments, chunk_all, place,
}
use open_graph_memory.Chunking.Offsets.{own}

after_err :
    {A B : Type 0} (m : Result A) (f : A → B)
    → m ≢ err out_of_fuel
    → (m >>= λ a. ok (f a)) ≢ err out_of_fuel
after_err (ok a) f h q = cc
after_err (err e) f h q = h (cc)

module _ (is_space : ℕ → Bool) (c : Chunker) where
  segment_loop-ends :
      (fuel : ℕ) (s : ParsedSegment) (n start : ℕ)
      → length s.text ≤ start + fuel
      → segment_loop is_space c fuel s n start ≢ err out_of_fuel
  unfolding segment_loop
  segment_loop-ends zero s n start h q = absurd (ground arith)
  segment_loop-ends (suc fuel) s n start h q =
      let rest =
        segment_loop-ends fuel s (n + length (own is_space c s start))
          (max (start + 1) (next_end c s.text start - c.overlap)) (omega arith) in
      after_err _ (λ ds. own is_space c s start ++ ds) rest (ground arith)

  segment_drafts-ends :
      (n : ℕ) (s : ParsedSegment) → segment_drafts is_space c n s ≢ err out_of_fuel
  unfolding segment_drafts
  segment_drafts-ends n s q = elim (Bool-cases (is_short_page is_space c s)) [
    | inl t ↦ absurd (ground arith)
    | inr f ↦ segment_loop-ends (length s.text) s n 0 (omega arith) (ground arith)
  ]

  placed_drafts-ends :
      (n : ℕ) (ss : List ParsedSegment) → placed_drafts is_space c n ss ≢ err out_of_fuel
  unfolding placed_drafts
  placed_drafts-ends n [] q = cc
  placed_drafts-ends n (s ∷ ss) q =
      go (segment_drafts is_space c n s) (segment_drafts-ends n s) (λ m. placed_drafts-ends m ss) q
    where
      go :
          (m : Result (List Draft))
          → m ≢ err out_of_fuel
          → ((j : ℕ) → placed_drafts is_space c j ss ≢ err out_of_fuel)
          → (m >>= λ ds. placed_drafts is_space c (n + length ds) ss >>= λ rest.
              ok (place 1 (length ds) ds ++ rest))
            ≢ err out_of_fuel
      go (err e) h k r = h (cc)
      go (ok ds) h k r =
          after_err (placed_drafts is_space c (n + length ds) ss)
            (λ rest. place 1 (length ds) ds ++ rest) (k (n + length ds)) r

  -- Splitting a document always comes to chunks or to an error of the program: the loop over a
  -- segment never runs out of rounds.
  pub split_segments_total :
      (digest : String → ℕ → List ℕ → String) (k : String) (ss : List ParsedSegment)
      → split_segments is_space c digest k ss ≢ err out_of_fuel
  unfolding split_segments
  split_segments_total digest k ss =
      after_err (placed_drafts is_space c 0 ss) (chunk_all is_space c digest k 0)
        (placed_drafts-ends 0 ss)
