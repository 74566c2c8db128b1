-- ===== src/Extraction/Evidence/Exact.antt =====
-- packages/core extraction.py `find_evidence`: where the quote stands in the text.
use open_graph_memory.Prelude.{
  ℕ, zero, suc, ◌+◌, ◌-◌, ◌≤◌, ◌<◌, ◌≡◌, refl, ap, subst, inl, inr, Bool, true, false, ◌&&◌, Option,
  none, some, List, [], ◌∷◌, ◌++◌, length, length-take, length-drop, take, drop, starts_codes, eqb,
  arith, some_inj, Bool-cases, Option-cases, if◌then◌else◌,
}
use open_graph_memory.Prelude.Results.{ok}
use open_graph_memory.Extraction.Evidence.{
  Place, find, Mode, reading, in_line_ends, in_spaces, placed_items, end_spaces, read, in_mode,
  normalize_from, normalize_evidence, place_at, items, between, quote_at, find_evidence,
  is_listed_text, next_is, is_line_end, is_space_text,
}

starts-take :
    (m xs : List ℕ) → starts_codes m xs ≡ true → (take (length m) xs ≡ m) × (length m ≤ length xs)
starts-take [] xs h = (refl, omega arith)
starts-take (c ∷ m) [] h = cc
starts-take (c ∷ m) (x ∷ xs) h =
    let (same, small) = starts-take m xs (ground (arith, h)) in
    let own : x ≡ c = ground (arith, h) in ((λ i. own i ∷ same i), omega (arith, small))

-- The mention stands in the text at the offset.
abbrev pub IsAt : List ℕ → List ℕ → ℕ → Type 0
IsAt mention text offset =
    (take (length mention) (drop offset text) ≡ mention) × (offset + length mention ≤ length text)

pub find-IsAt :
    (mention text : List ℕ) (offset : ℕ)
    → find mention text ≡ some offset
    → IsAt mention text offset
unfolding find
find-IsAt mention [] offset h = elim (Bool-cases (starts_codes mention [])) [
  | inl t ↦
      subst (IsAt mention []) (some_inj (rw (find, t) at h))
        (let (same, small) = starts-take mention [] t in (same, omega (arith, small)))
  | inr f ↦ let never = rw (find, f) at h in cc
]
find-IsAt mention (c ∷ rest) offset h = elim (Bool-cases (starts_codes mention (c ∷ rest))) [
  | inl t ↦
      subst (IsAt mention (c ∷ rest)) (some_inj (rw (find, t) at h))
        (let (same, small) = starts-take mention (c ∷ rest) t in (same, omega (arith, small)))
  | inr f ↦ elim (Option-cases (find mention rest)) [
    | inl n ↦ let never = rw (find, f, n) at h in cc
    | inr (later, found) ↦
        let (same, small) = find-IsAt mention rest later found in
        subst (IsAt mention (c ∷ rest)) (some_inj (rw (find, f, found) at h))
          (same, omega (arith, small))
  ]
]

-- The places follow each other between two positions, none of them empty.
abbrev ArePlaced : ℕ → ℕ → List Place → Type 0
ArePlaced lo hi [] = Unit {0}
ArePlaced lo hi (p ∷ ps) =
    (lo ≤ p.start) × (p.start < p.end_) × (p.end_ ≤ hi) × ArePlaced p.start hi ps

ArePlaced-weaken :
    (lo lo' hi : ℕ) (ps : List Place) → lo' ≤ lo → ArePlaced lo hi ps → ArePlaced lo' hi ps
ArePlaced-weaken lo lo' hi [] small h = tt
ArePlaced-weaken lo lo' hi (p ∷ ps) small (a, b, c, d) = (omega (arith, a, small), b, c, d)

-- the place at an index, and one that is no later
place_at-ArePlaced :
    (lo hi m : ℕ) (ps : List Place)
    → m < length ps
    → ArePlaced lo hi ps
    → (q : Place) × (place_at m ps ≡ ok q) × (lo < q.end_) × (q.end_ ≤ hi)
place_at-ArePlaced lo hi m [] small h = let never : true ≡ false = ground (arith, small) in cc
place_at-ArePlaced lo hi zero (p ∷ ps) small (a, b, c, d) = (p, refl, omega (arith, a, b), c)
place_at-ArePlaced lo hi (suc m) (p ∷ ps) small (a, b, c, d) =
    let (q, found, after, before) = place_at-ArePlaced p.start hi m ps (omega (arith, small)) d in
    (q, found, omega (arith, a, after), before)

place_at-order :
    (lo hi n m : ℕ) (ps : List Place)
    → n ≤ m
    → m < length ps
    → ArePlaced lo hi ps
    → (p : Place) × (q : Place) × (place_at n ps ≡ ok p)
      × (place_at m ps ≡ ok q)
      × (p.start < q.end_)
      × (q.end_ ≤ hi)
place_at-order lo hi n m [] le small h = let never : true ≡ false = ground (arith, small) in cc
place_at-order lo hi zero zero (p ∷ ps) le small (a, b, c, d) = (p, p, refl, refl, b, c)
place_at-order lo hi zero (suc m) (p ∷ ps) le small (a, b, c, d) =
    let (q, found, after, before) = place_at-ArePlaced p.start hi m ps (omega (arith, small)) d in
    (p, q, refl, found, after, before)
place_at-order lo hi (suc n) zero (p ∷ ps) le small h =
    let never : true ≡ false = ground (arith, le) in cc
place_at-order lo hi (suc n) (suc m) (p ∷ ps) le small (a, b, c, d) =
    place_at-order p.start hi n m ps (omega (arith, le)) (omega (arith, small)) d

placed_items-ArePlaced :
    (index hi : ℕ) (cs : List ℕ) (ps : List Place)
    → index + 1 ≤ hi
    → ArePlaced (index + 1) hi ps
    → ArePlaced index hi (placed_items index cs ++ ps)
placed_items-ArePlaced index hi [] ps small h =
    ArePlaced-weaken (index + 1) index hi ps (omega arith) h
placed_items-ArePlaced index hi (c ∷ cs) ps small h =
    (omega arith, omega arith, small, placed_items-ArePlaced index hi cs ps small h)

-- The quote is the text at its offset, within the text, and it is not empty unless the mention is.
abbrev pub IsEvidence : List ℕ → List ℕ → Option (ℕ × List ℕ) → Type 0
IsEvidence text mention none = Unit {0}
IsEvidence text mention (some (offset, quote)) =
    (take (length quote) (drop offset text) ≡ quote)
    × (offset + length quote ≤ length text)
    × (is_listed_text mention ≡ true → is_listed_text quote ≡ true)

module _ (nfkc : ℕ → List ℕ) (is_space : ℕ → Bool) where
  end_spaces-ArePlaced :
      (index hi : ℕ) (rest : List ℕ) (next : Mode → List Place)
      → index + 1 ≤ hi
      → ((mode : Mode) → ArePlaced (index + 1) hi (next mode))
      → ArePlaced index hi (end_spaces nfkc is_space index rest next)
  end_spaces-ArePlaced index hi rest next small h = elim (Bool-cases (next_is is_space rest)) [
    | inl t ↦
        rw t (ArePlaced-weaken (index + 1) index hi (next in_spaces) (omega arith) (h in_spaces))
    | inr f ↦ rw f (placed_items-ArePlaced index hi (32 ∷ []) (next reading) small (h reading))
  ]

  read-ArePlaced :
      (index hi c : ℕ) (rest : List ℕ) (next : Mode → List Place)
      → index + 1 ≤ hi
      → ((mode : Mode) → ArePlaced (index + 1) hi (next mode))
      → ArePlaced index hi (read nfkc is_space index c rest next)
  read-ArePlaced index hi c rest next small h =
      first (eqb c 173) (eqb c 45 && next_is is_line_end rest)
        (is_space_text nfkc is_space (nfkc c))
    where
      skipped : (mode : Mode) → ArePlaced index hi (next mode)
      skipped mode = ArePlaced-weaken (index + 1) index hi (next mode) (omega arith) (h mode)

      first :
          (a b d : Bool)
          → ArePlaced index hi (
              if a
              then next reading
              else if b
              then next in_line_ends
              else if d
              then end_spaces nfkc is_space index rest next
              else placed_items index (nfkc c) ++ next reading)
      first true b d = skipped reading
      first false true d = skipped in_line_ends
      first false false true = end_spaces-ArePlaced index hi rest next small h
      first false false false =
          placed_items-ArePlaced index hi (nfkc c) (next reading) small (h reading)

  in_mode-ArePlaced :
      (mode : Mode) (index hi c : ℕ) (rest : List ℕ) (next : Mode → List Place)
      → index + 1 ≤ hi
      → ((mode : Mode) → ArePlaced (index + 1) hi (next mode))
      → ArePlaced index hi (in_mode nfkc is_space mode index c rest next)
  in_mode-ArePlaced reading index hi c rest next small h =
      read-ArePlaced index hi c rest next small h
  in_mode-ArePlaced in_line_ends index hi c rest next small h = go (is_line_end c)
    where
      go :
          (b : Bool)
          → ArePlaced index hi
              (if b then next in_line_ends else read nfkc is_space index c rest next)
      go true =
          ArePlaced-weaken (index + 1) index hi (next in_line_ends) (omega arith) (h in_line_ends)
      go false = read-ArePlaced index hi c rest next small h
  in_mode-ArePlaced in_spaces index hi c rest next small h =
      end_spaces-ArePlaced index hi rest next small h

  normalize_from-ArePlaced :
      (index : ℕ) (rest : List ℕ) (mode : Mode)
      → ArePlaced index (index + length rest) (normalize_from nfkc is_space index rest mode)
  unfolding normalize_from
  normalize_from-ArePlaced index [] mode = tt
  normalize_from-ArePlaced index (c ∷ rest) mode =
      in_mode-ArePlaced mode index (index + suc (length rest)) c rest
        (normalize_from nfkc is_space (index + 1) rest) (omega arith)
        (λ mode.
          subst
            (λ hi. ArePlaced (index + 1) hi (normalize_from nfkc is_space (index + 1) rest mode))
            (omega arith) (normalize_from-ArePlaced (index + 1) rest mode))

  between-IsEvidence :
      (text mention : List ℕ) (i j : ℕ)
      → i < j
      → j ≤ length text
      → IsEvidence text mention (some (i, between text i j))
  between-IsEvidence text mention i j less small =
      let size : length (between text i j) ≡ j - i =
        omega (arith, length-take (j - i) (drop i text), length-drop i text) in
      (
        ap (λ n. take n (drop i text)) size,
        omega (arith, size, less, small),
        λ h. listed (between text i j) (omega (arith, size, less)),
      )
    where
      listed : (xs : List ℕ) → 0 < length xs → is_listed_text xs ≡ true
      listed [] h = ground (arith, h)
      listed (x ∷ xs) h = refl

  length-items : (ps : List Place) → length (items ps) ≡ length ps
  length-items [] = refl
  length-items (p ∷ ps) = ap suc (length-items ps)

  quote_at-IsEvidence :
      (text mention : List ℕ) (offset size : ℕ) (ps : List Place)
      → ArePlaced 0 (length text) ps
      → 0 < size
      → offset + size ≤ length ps
      → (found : Option (ℕ × List ℕ)) × (quote_at text ps offset size ≡ ok found)
        × IsEvidence text mention found
  quote_at-IsEvidence text mention offset size ps placed positive small =
      let (p, q, first, last, less, inside) =
        place_at-order 0 (length text) offset (offset + size - 1) ps (omega (arith, positive))
          (omega (arith, positive, small)) placed in
      (
        some (p.start, between text p.start q.end_),
        rw first (rw last refl),
        between-IsEvidence text mention p.start q.end_ less inside,
      )

  -- Looking for the evidence of a mention always returns, and what it returns is nothing or a quote
  -- of the text: the characters from the offset on, within the text, and not empty unless the
  -- mention is.
  pub find_evidence-IsEvidence :
      (text mention : List ℕ)
      → (found : Option (ℕ × List ℕ)) × (find_evidence nfkc is_space text mention ≡ ok found)
        × IsEvidence text mention found
  unfolding find_evidence
  find_evidence-IsEvidence text mention = elim (Option-cases (find mention text)) [
    | inr (offset, found) ↦
        let (same, small) = find-IsAt mention text offset found in
        (some (offset, mention), rw (find_evidence, found) refl, (same, small, λ h. h))
    | inl none_exact ↦
        let normal = normalize_evidence nfkc is_space mention in
        let ps = normalize_evidence nfkc is_space text in
        elim (Bool-cases (is_listed_text (items normal))) [
          | inr f ↦ (none, rw (find_evidence, none_exact) (rw f refl), tt)
          | inl t ↦ elim (Option-cases (find (items normal) (items ps))) [
            | inl n ↦ (none, rw (find_evidence, none_exact) (rw (t, n) refl), tt)
            | inr (offset, found) ↦
                let (same, small) = find-IsAt (items normal) (items ps) offset found in
                let (result, run, own) =
                  quote_at-IsEvidence text mention offset (length (items normal)) ps
                    (subst (λ hi. ArePlaced 0 hi ps) (omega arith)
                      (normalize_from-ArePlaced 0 text reading))
                    (nonempty (items normal) t) (omega (arith, small, length-items ps)) in
                (result, rw (find_evidence, none_exact) (rw (t, found) run), own)
          ]
        ]
  ]
    where
      nonempty : (xs : List ℕ) → is_listed_text xs ≡ true → 0 < length xs
      nonempty [] h = ground (arith, h)
      nonempty (x ∷ xs) h = omega arith
