-- ===== src/Chunking/Coverage.antt =====
-- chunking.py: the characters that the drafts of a segment cover.
use open_graph_memory.Prelude.{
  ℕ, zero, suc, ◌+◌, ◌-◌, ◌≤◌, ◌<◌, ◌≡◌, Bool, true, false, ◌&&◌, List, [], ◌∷◌, ◌++◌, inl, inr,
  arith, length, any_row, ltb, leb, Bool-cases,
}
use open_graph_memory.Prelude.Results.{ok}
use open_graph_memory.Json.{Fields}
use open_graph_memory.Chunking.{
  ParsedSegment, Chunker, Draft, space_at, trim_left, trim_right, piece, next_end, segment_loop,
  segment_drafts, is_short_page,
}
use open_graph_memory.Chunking.Offsets.{
  trim_left-bounds, next_end-bounds, own, past, last, more, segment_loop-Round, segment_loop-zero,
}

abbrev pub covers : ℕ → Draft → Bool
covers i d = leb d.left i && ltb i d.right

any-append-left :
    (p : Draft → Bool) (xs ys : List Draft) → any_row p xs ≡ true → any_row p (xs ++ ys) ≡ true
any-append-left p [] ys h = absurd (ground arith)
any-append-left p (x ∷ xs) ys h = ground (arith, any-append-left p xs ys)

any-append-right :
    (p : Draft → Bool) (xs ys : List Draft) → any_row p ys ≡ true → any_row p (xs ++ ys) ≡ true
any-append-right p [] ys h = h
any-append-right p (x ∷ xs) ys h = let r = any-append-right p xs ys h in ground arith

module _ (is_space : ℕ → Bool) (text : List ℕ) (i : ℕ)
    (solid : space_at is_space text i ≡ false) where
  trim_left-le : (n left : ℕ) → left ≤ i → i < left + n → trim_left is_space text n left ≤ i
  trim_left-le zero left a b = a
  trim_left-le (suc n) left a b = elim (Bool-cases (space_at is_space text left)) [
    | inr f ↦ rw f a
    | inl t ↦ rw t (
        trim_left-le n (left + 1)
          (elim (Bool-cases (leb (left + 1) i)) [
            | inl y ↦ ground arith
            | inr g ↦ let same : left ≡ i = ground arith in absurd (ground arith)
          ])
          (omega arith))
  ]

  trim_right-lt :
      (n right : ℕ) → n ≤ right → right ≤ i + n → i < right → i < trim_right is_space text n right
  trim_right-lt zero right le a b = b
  trim_right-lt (suc n) right le a b = elim (Bool-cases (space_at is_space text (right - 1))) [
    | inr f ↦ rw f b
    | inl t ↦ rw t (
        trim_right-lt n (right - 1) (omega arith) (omega arith)
          (elim (Bool-cases (leb right (i + 1))) [
            | inr g ↦ ground arith
            | inl y ↦ let same : right - 1 ≡ i = ground arith in absurd (ground arith)
          ]))
  ]

  piece-covers :
      (metadata : Fields) (start stop : ℕ)
      → start ≤ i
      → i < stop
      → any_row (covers i) (piece is_space text metadata start stop) ≡ true
  unfolding piece
  piece-covers metadata start stop a b =
      let left = trim_left is_space text (stop - start) start in
      let (p, q) = trim_left-bounds is_space text (stop - start) start in
      let l : left ≤ i = trim_left-le (stop - start) start a (omega arith) in
      let r : i < trim_right is_space text (stop - left) stop =
        trim_right-lt (stop - left) stop (omega arith) (omega arith) b in
      ground arith

module _ (is_space : ℕ → Bool) (c : Chunker) (s : ParsedSegment) (i : ℕ) (size : 0 < c.size)
    (solid : space_at is_space s.text i ≡ false) (in_text : i < length s.text) where
  own-covers :
      (start : ℕ)
      → start ≤ i
      → i < next_end c s.text start
      → any_row (covers i) (own is_space c s start) ≡ true
  own-covers start a b =
      piece-covers is_space s.text i solid s.metadata start (next_end c s.text start) a b

  segment_loop-covers :
      (fuel n start : ℕ) {ds : List Draft}
      → start ≤ i
      → segment_loop is_space c fuel s n start ≡ ok ds
      → any_row (covers i) ds ≡ true
  segment_loop-covers zero n start a q =
      let (h, e) = segment_loop-zero is_space c s n start q in absurd (omega arith)
  segment_loop-covers (suc fuel) n start a q =
      elim (segment_loop-Round is_space c fuel s n start q) [
        | past h e ↦ absurd (omega arith)
        | last h room whole e ↦ rw e (own-covers start a (omega arith))
        | more h room rest found e ↦
            let (x, y, z) = next_end-bounds c s.text start size h in
            elim (Bool-cases (ltb i (next_end c s.text start))) [
              | inl t ↦ rw e (
                  any-append-left (covers i) (own is_space c s start) rest
                    (own-covers start a (ground arith)))
              | inr f ↦
                  let past_piece : next_end c s.text start ≤ i = ground arith in
                  rw e (
                    any-append-right (covers i) (own is_space c s start) rest
                      (segment_loop-covers fuel _ _ (omega arith) found))
            ]
      ]

  -- If the size of a chunk is positive, every character of a segment that is no space lies in one
  -- of the drafts that the segment is split into: no text is lost.
  pub segment_drafts-covers :
      (n : ℕ) {ds : List Draft}
      → segment_drafts is_space c n s ≡ ok ds
      → any_row (covers i) ds ≡ true
  unfolding segment_drafts
  segment_drafts-covers n {ds} q = elim (Bool-cases (is_short_page is_space c s)) [
    | inl t ↦
        let r : ds ≡ piece is_space s.text s.metadata 0 (length s.text) = ground arith in
        rw r
          (piece-covers is_space s.text i solid s.metadata 0 (length s.text) (omega arith) in_text)
    | inr f ↦ segment_loop-covers (length s.text) n 0 (omega arith) (ground arith)
  ]
