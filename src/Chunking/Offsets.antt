-- ===== src/Chunking/Offsets.antt =====
-- chunking.py: the offsets, the ends and the lengths of the drafts.
use open_graph_memory.Prelude.{
  ℕ, zero, suc, ◌+◌, ◌-◌, ◌/◌, ◌≤◌, ◌<◌, min, max, ◌≡◌, refl, Bool, false, ◌&&◌, List, [], ◌∷◌,
  ◌++◌, inl, inr, arith, length, ltb, leb, eqb, Bool-cases, All, All-append,
}
use open_graph_memory.Prelude.Results.{Result, ok, ◌>>=◌, >>=-eq-ok}
use open_graph_memory.Json.{Fields}
use open_graph_memory.Chunking.{
  ParsedSegment, Chunker, Draft, slice, space_at, trim_left, trim_right, piece, rfind_from, rfind,
  boundary, next_end, segment_loop, segment_drafts, is_short_page,
}

module _ (is_space : ℕ → Bool) (text : List ℕ) where
  pub trim_left-bounds :
      (n left : ℕ)
      → (left ≤ trim_left is_space text n left) × (trim_left is_space text n left ≤ left + n)
  trim_left-bounds zero left = (omega arith, omega arith)
  trim_left-bounds (suc n) left =
      let (a, b) = trim_left-bounds n (left + 1) in
      elim (Bool-cases (space_at is_space text left)) [
        | inl t ↦ rw t (omega arith, omega arith)
        | inr f ↦ rw f (omega arith, omega arith)
      ]

  trim_left-tight :
      (n left : ℕ)
      → trim_left is_space text n left < left + n
      → space_at is_space text (trim_left is_space text n left) ≡ false
  trim_left-tight zero left h = absurd (omega arith)
  trim_left-tight (suc n) left h = elim (Bool-cases (space_at is_space text left)) [
    | inl t ↦ rw t (
        trim_left-tight n (left + 1)
          (let k : trim_left is_space text n (left + 1) < left + suc n = rw t at h in omega arith))
    | inr f ↦ rw (f, f) refl
  ]

  pub trim_right-bounds :
      (n right : ℕ)
      → n ≤ right
      → (right ≤ trim_right is_space text n right + n) × (trim_right is_space text n right ≤ right)
  trim_right-bounds zero right h = (omega arith, omega arith)
  trim_right-bounds (suc n) right h =
      let (a, b) = trim_right-bounds n (right - 1) (omega arith) in
      elim (Bool-cases (space_at is_space text (right - 1))) [
        | inl t ↦ rw t (omega arith, omega arith)
        | inr f ↦ rw f (omega arith, omega arith)
      ]

  trim_right-tight :
      (n right : ℕ)
      → n ≤ right
      → right < trim_right is_space text n right + n
      → space_at is_space text (trim_right is_space text n right - 1) ≡ false
  trim_right-tight zero right le h = absurd (omega arith)
  trim_right-tight (suc n) right le h = elim (Bool-cases (space_at is_space text (right - 1))) [
    | inl t ↦ rw t (
        trim_right-tight n (right - 1) (omega arith) (
          let k : right < trim_right is_space text n (right - 1) + suc n = rw t at h in
          omega arith))
    | inr f ↦ rw (f, f) refl
  ]

rfind_from-le : (sep text : List ℕ) (start n : ℕ) → rfind_from sep text start n ≤ start + n
unfolding rfind_from
rfind_from-le sep text start zero = omega arith
rfind_from-le sep text start (suc n) = ground (arith, rfind_from-le sep text start n)

rfind-le : (x : ℕ) (sep text : List ℕ) (start stop : ℕ) → rfind (x ∷ sep) text start stop ≤ stop
unfolding rfind rfind_from
rfind-le x sep text start stop = places (stop + 1 - (start + suc (length sep))) refl
  where
    places :
        (n : ℕ)
        → n ≡ stop + 1 - (start + suc (length sep))
        → rfind_from (x ∷ sep) text start n ≤ stop
    places zero e = omega arith
    places (suc n) e = let le = rfind_from-le (x ∷ sep) text start (suc n) in omega arith

boundary-le : (text : List ℕ) (start stop : ℕ) → boundary text start stop ≤ stop
unfolding boundary
boundary-le text start stop = omega (
  arith,
  rfind-le 10 (10 ∷ []) text start stop,
  rfind-le 10 [] text start stop,
  rfind-le 46 (32 ∷ []) text start stop,
  rfind-le 32 [] text start stop,
)

-- The end of a piece lies after its start, by a chunk's size at most, and in the text.
pub next_end-bounds :
    (c : Chunker) (text : List ℕ) (start : ℕ)
    → 0 < c.size
    → start < length text
    → (start < next_end c text start)
      × (next_end c text start ≤ start + c.size)
      × (next_end c text start ≤ length text)
unfolding next_end
next_end-bounds c text start p h =
    let le = boundary-le text start (min (start + c.size) (length text)) in
    elim (Bool-cases (
      ltb (min (start + c.size) (length text)) (length text)
      && ltb (start + c.size / 2 + 1) (boundary text start (min (start + c.size) (length text))))) [
        | inl t ↦ rw t (ground arith, omega arith, omega arith)
        | inr f ↦ rw f (omega arith, omega arith, omega arith)
      ]

module _ (is_space : ℕ → Bool) (c : Chunker) where
  -- What the offsets of a draft say.
  pub record IsPiece (text : List ℕ) (d : Draft) : Type 0 where
    pub ordered : d.left < d.right
    pub inside : d.right ≤ length text
    pub sized : d.right ≤ d.left + c.size
    pub exact : d.value ≡ slice text d.left d.right
    pub stripped_left : space_at is_space text d.left ≡ false
    pub stripped_right : space_at is_space text (d.right - 1) ≡ false

  piece-IsPiece :
      (text : List ℕ) (metadata : Fields) (start stop : ℕ)
      → start ≤ stop
      → stop ≤ start + c.size
      → stop ≤ length text
      → All (IsPiece text) (piece is_space text metadata start stop)
  unfolding piece
  piece-IsPiece text metadata start stop le small in_text =
      let left = trim_left is_space text (stop - start) start in
      let (a, b) = trim_left-bounds is_space text (stop - start) start in
      let right = trim_right is_space text (stop - left) stop in
      let (p, q) = trim_right-bounds is_space text (stop - left) stop (omega arith) in
      elim (Bool-cases (ltb left right)) [
        | inr f ↦ rw f tt
        | inl t ↦
            let lt : left < right = ground arith in
            rw t (
              record {
                ordered = lt;
                inside = omega arith;
                sized = omega arith;
                exact = refl;
                stripped_left = trim_left-tight is_space text (stop - start) start (omega arith);
                stripped_right =
                    trim_right-tight is_space text (stop - left) stop (omega arith) (omega arith);
              },
              tt,
            )
      ]

  -- the piece of a round, and the run that follows it
  abbrev pub own : ParsedSegment → ℕ → List Draft
  own s start = piece is_space s.text s.metadata start (next_end c s.text start)

  abbrev following : ℕ → ParsedSegment → ℕ → ℕ → Result (List Draft)
  following fuel s n start =
      segment_loop is_space c fuel s (n + length (own s start))
        (max (start + 1) (next_end c s.text start - c.overlap))

  -- How a round of the loop comes to its drafts.
  pub data Round (s : ParsedSegment) (fuel n start : ℕ) (ds : List Draft) : Type 0 where
    past : length s.text ≤ start → ds ≡ [] → Round s fuel n start ds
    last :
        start < length s.text
        → n < c.maximum
        → next_end c s.text start ≡ length s.text
        → ds ≡ own s start
        → Round s fuel n start ds
    more :
        start < length s.text
        → n < c.maximum
        → (rest : List Draft) → following fuel s n start ≡ ok rest
        → ds ≡ own s start ++ rest
        → Round s fuel n start ds

  pub segment_loop-Round :
      (fuel : ℕ) (s : ParsedSegment) (n start : ℕ) {ds : List Draft}
      → segment_loop is_space c (suc fuel) s n start ≡ ok ds
      → Round s fuel n start ds
  unfolding segment_loop
  segment_loop-Round fuel s n start {ds} q = elim (Bool-cases (ltb start (length s.text))) [
    | inr f ↦ past (ground arith) (ground arith)
    | inl t ↦ elim (Bool-cases (leb c.maximum n)) [
      | inl x ↦ absurd (ground arith)
      | inr x ↦ elim (Bool-cases (eqb (next_end c s.text start) (length s.text))) [
        | inl y ↦ last (ground arith) (ground arith) (ground arith) (ground arith)
        | inr y ↦
            let r : (following fuel s n start >>= λ ds. ok (own s start ++ ds)) ≡ ok ds =
              ground arith in
            let (rest, found, joined) =
              >>=-eq-ok (following fuel s n start) (λ ds. ok (own s start ++ ds)) r in
            more (ground arith) (ground arith) rest found (ground arith)
      ]
    ]
  ]

  pub segment_loop-zero :
      (s : ParsedSegment) (n start : ℕ) {ds : List Draft}
      → segment_loop is_space c zero s n start ≡ ok ds
      → (length s.text ≤ start) × (ds ≡ [])
  unfolding segment_loop
  segment_loop-zero s n start {ds} q = (ground arith, ground arith)

  own-IsPiece :
      (s : ParsedSegment) (start : ℕ)
      → 0 < c.size
      → start < length s.text
      → All (IsPiece s.text) (own s start)
  own-IsPiece s start p h =
      let (a, b, d) = next_end-bounds c s.text start p h in
      piece-IsPiece s.text s.metadata start (next_end c s.text start) (omega arith) b d

  segment_loop-IsPiece :
      (fuel : ℕ) (s : ParsedSegment) (n start : ℕ) {ds : List Draft}
      → 0 < c.size
      → segment_loop is_space c fuel s n start ≡ ok ds
      → All (IsPiece s.text) ds
  segment_loop-IsPiece zero s n start p q = let (a, b) = segment_loop-zero s n start q in rw b tt
  segment_loop-IsPiece (suc fuel) s n start p q = elim (segment_loop-Round fuel s n start q) [
    | past a b ↦ rw b tt
    | last a room b d ↦ rw d (own-IsPiece s start p a)
    | more a room rest found d ↦ rw d (
        All-append (IsPiece s.text) (own s start) rest (own-IsPiece s start p a)
          (segment_loop-IsPiece fuel s _ _ p found))
  ]

  -- If the size of a chunk is positive, each draft of a segment is the text between its offsets.
  -- It is not empty, no longer than a chunk, and neither starts nor ends with a space.
  pub segment_drafts-IsPiece :
      (n : ℕ) (s : ParsedSegment) {ds : List Draft}
      → 0 < c.size
      → segment_drafts is_space c n s ≡ ok ds
      → All (IsPiece s.text) ds
  unfolding segment_drafts
  segment_drafts-IsPiece n s {ds} p q = elim (Bool-cases (is_short_page is_space c s)) [
    | inl t ↦
        let r : ds ≡ piece is_space s.text s.metadata 0 (length s.text) = ground arith in
        rw r (
          piece-IsPiece s.text s.metadata 0 (length s.text) (omega arith) (ground arith)
            (omega arith))
    | inr f ↦ segment_loop-IsPiece (length s.text) s n 0 p (ground arith)
  ]
