-- ===== src/Retrieval/Fused.antt =====
-- retrieval.py: what the fusion of two rankings returns.
use open_graph_memory.Prelude.{
  ◌+◌, ◌*◌, ◌≤◌, ◌<◌, leb, Option-cases, some_inj, ℕ, zero, suc, min, String, Bool, true, false,
  not, Option, none, some, List, [], ◌∷◌, ◌++◌, ◌==◌, eq_iff, ==_refl, contains, take, length,
  length-take, where_rows, All, All-map, ◌≡◌, refl, sym, ap, ◌∙◌, subst, inl, inr, arith,
  Bool-cases,
}
use open_graph_memory.Prelude.Sorting.{
  order_by, insert_by, insert_by-All, order_by-All, length-order_by,
}
use open_graph_memory.Prelude.Members.{contains-append, All-take}
use open_graph_memory.Prelude.Results.{Result, ok}
use open_graph_memory.Floats.{Floats, FloatLaws, zero_float, one_float}
use open_graph_memory.Prelude.Int.{pos, ◌+ℤ◌}
use open_graph_memory.Retrieval.{
  RetrievedChunk, distinct, stored_vector, stored_graph, merge_chunk, chunk_ids, all_ids, fuse,
  rank_of, is_zero, divide, divide_int, is_large, float_limit, of_int, part_of, rrf_score,
  rrf_scores, score_in, max_possible, in_rank_order, scored_chunk, fused_chunk, fuse_rankings,
  reciprocal_rank_fusion,
}

-- No two texts of the list are equal.
abbrev pub IsDistinct : List String → Type 0
IsDistinct [] = Unit {0}
IsDistinct (x ∷ xs) = All (λ y. (x == y) ≡ false) xs × IsDistinct xs

All-where :
    (P : String → Type 0) (p : String → Bool) (xs : List String)
    → All P xs
    → All (λ y. P y × (p y ≡ true)) (where_rows p xs)
All-where P p [] h = tt
All-where P p (x ∷ xs) h = elim (Bool-cases (p x)) [
  | inl t ↦ rw t ((h.0, t), All-where P p xs h.1)
  | inr f ↦ rw f (All-where P p xs h.1)
]

where-IsDistinct :
    (p : String → Bool) (xs : List String) → IsDistinct xs → IsDistinct (where_rows p xs)
where-IsDistinct p [] h = tt
where-IsDistinct p (x ∷ xs) h = elim (Bool-cases (p x)) [
  | inl t ↦ rw t (
    All-map (λ y (q : ((x == y) ≡ false) × (p y ≡ true)). q.0) (where_rows p xs)
        (All-where (λ y. (x == y) ≡ false) p xs h.0),
    where-IsDistinct p xs h.1,
  )
  | inr f ↦ rw f (where-IsDistinct p xs h.1)
]

distinct-contained : (xs : List String) → All (λ y. contains xs y ≡ true) (distinct xs)
unfolding distinct
distinct-contained [] = tt
distinct-contained (x ∷ xs) = (
  ground (arith, ==_refl x),
  All-map (λ y (q : (contains xs y ≡ true) × (not (x == y) ≡ true)). ground (arith, q.0))
      (where_rows (λ y. not (x == y)) (distinct xs))
      (All-where (λ y. contains xs y ≡ true) (λ y. not (x == y)) (distinct xs)
        (distinct-contained xs)),
)

distinct-IsDistinct : (xs : List String) → IsDistinct (distinct xs)
unfolding distinct
distinct-IsDistinct [] = tt
distinct-IsDistinct (x ∷ xs) = (
  All-map (λ y (q : (contains xs y ≡ true) × (not (x == y) ≡ true)). ground (arith, q.1))
      (where_rows (λ y. not (x == y)) (distinct xs))
      (All-where (λ y. contains xs y ≡ true) (λ y. not (x == y)) (distinct xs)
        (distinct-contained xs)),
  where-IsDistinct (λ y. not (x == y)) (distinct xs) (distinct-IsDistinct xs),
)

insert_by-IsDistinct :
    (le : String → String → Bool) (x : String) (ys : List String)
    → All (λ y. (x == y) ≡ false) ys
    → IsDistinct ys
    → IsDistinct (insert_by le x ys)
unfolding insert_by
insert_by-IsDistinct le x [] other h = (tt, tt)
insert_by-IsDistinct le x (y ∷ ys) other h = elim (Bool-cases (le x y)) [
  | inl t ↦ rw t (other, h)
  | inr f ↦
      let flipped : (y == x) ≡ false = ground (arith, other.0, eq_iff x y, eq_iff y x) in
      rw f (
        insert_by-All le (λ z. (y == z) ≡ false) x ys flipped h.0,
        insert_by-IsDistinct le x ys other.1 h.1,
      )
]

order_by-IsDistinct :
    (le : String → String → Bool) (xs : List String) → IsDistinct xs → IsDistinct (order_by le xs)
unfolding order_by
order_by-IsDistinct le [] h = tt
order_by-IsDistinct le (x ∷ xs) h =
    insert_by-IsDistinct le x (order_by le xs) (order_by-All le (λ y. (x == y) ≡ false) xs h.0)
      (order_by-IsDistinct le xs h.1)

take-IsDistinct : (n : ℕ) (xs : List String) → IsDistinct xs → IsDistinct (take n xs)
take-IsDistinct zero xs h = tt
take-IsDistinct (suc n) [] h = tt
take-IsDistinct (suc n) (x ∷ xs) h =
    (All-take (λ y. (x == y) ≡ false) n xs h.0, take-IsDistinct n xs h.1)

module _ {F : Type 0} where
  -- A chunk is found, and it has the identifier that is looked for.
  abbrev Has : String → Option (RetrievedChunk F) → Type 0
  Has k found = (base : RetrievedChunk F) × (found ≡ some base) × (base.chunk_id ≡ k)

  stored_vector-keeps :
      (k : String) (found : Option (RetrievedChunk F)) (cs : List (RetrievedChunk F))
      → Has k found
      → Has k (stored_vector k found cs)
  stored_vector-keeps k found [] h = h
  stored_vector-keeps k found (c ∷ cs) h = elim (Bool-cases (c.chunk_id == k)) [
    | inl t ↦ rw t (stored_vector-keeps k (some c) cs (c, refl, (eq_iff c.chunk_id k).0 t))
    | inr f ↦ rw f (stored_vector-keeps k found cs h)
  ]

  stored_vector-finds :
      (k : String) (found : Option (RetrievedChunk F)) (cs : List (RetrievedChunk F))
      → contains (chunk_ids cs) k ≡ true
      → Has k (stored_vector k found cs)
  stored_vector-finds k found [] h = cc
  stored_vector-finds k found (c ∷ cs) h = elim (Bool-cases (c.chunk_id == k)) [
    | inl t ↦ rw t (stored_vector-keeps k (some c) cs (c, refl, (eq_iff c.chunk_id k).0 t))
    | inr f ↦ rw f (stored_vector-finds k found cs (ground (arith, h, f)))
  ]

  merge_chunk-id :
      (k : String) (found : Option (RetrievedChunk F)) (c : RetrievedChunk F)
      → Has k found
      → (merge_chunk found c).chunk_id ≡ k
  unfolding merge_chunk
  merge_chunk-id k found c (base, here, same) = rw here same

  stored_graph-keeps :
      (k : String) (found : Option (RetrievedChunk F)) (cs : List (RetrievedChunk F))
      → Has k found
      → Has k (stored_graph k found cs)
  stored_graph-keeps k found [] h = h
  stored_graph-keeps k found (c ∷ cs) h = elim (Bool-cases (c.chunk_id == k)) [
    | inl t ↦ rw t (
        stored_graph-keeps k (some (merge_chunk found c)) cs
          (merge_chunk found c, refl, merge_chunk-id k found c h))
    | inr f ↦ rw f (stored_graph-keeps k found cs h)
  ]

  stored_graph-finds :
      (k : String) (cs : List (RetrievedChunk F))
      → contains (chunk_ids cs) k ≡ true
      → Has k (stored_graph k none cs)
  unfolding merge_chunk
  stored_graph-finds k [] h = cc
  stored_graph-finds k (c ∷ cs) h = elim (Bool-cases (c.chunk_id == k)) [
    | inl t ↦ rw t (stored_graph-keeps k (some c) cs (c, refl, (eq_iff c.chunk_id k).0 t))
    | inr f ↦ rw f (stored_graph-finds k cs (ground (arith, h, f)))
  ]

  stored_vector-misses :
      (k : String) (found : Option (RetrievedChunk F)) (cs : List (RetrievedChunk F))
      → contains (chunk_ids cs) k ≡ false
      → stored_vector k found cs ≡ found
  stored_vector-misses k found [] h = refl
  stored_vector-misses k found (c ∷ cs) h =
      let other : (c.chunk_id == k) ≡ false = ground (arith, h) in
      let rest : contains (chunk_ids cs) k ≡ false = ground (arith, h) in
      rw other (stored_vector-misses k found cs rest)

  -- What either ranking has, the store of chunks has.
  stored-finds :
      (vector_results graph_results : List (RetrievedChunk F)) (k : String)
      → contains (chunk_ids vector_results ++ chunk_ids graph_results) k ≡ true
      → Has k (stored_graph k (stored_vector k none vector_results) graph_results)
  stored-finds vector_results graph_results k h =
      elim (Bool-cases (contains (chunk_ids vector_results) k)) [
        | inl t ↦
            stored_graph-keeps k (stored_vector k none vector_results) graph_results
              (stored_vector-finds k none vector_results t)
        | inr f ↦
            let split = contains-append (chunk_ids vector_results) (chunk_ids graph_results) k in
            rw (stored_vector-misses k none vector_results f)
              (stored_graph-finds k graph_results (ground (arith, h, f, split)))
      ]

length-chunk_ids : {F : Type 0} (cs : List (RetrievedChunk F)) → length cs ≡ length (chunk_ids cs)
length-chunk_ids [] = refl
length-chunk_ids (c ∷ cs) = ap suc (length-chunk_ids cs)

module _ {F : Type 0} (store : String → Option (RetrievedChunk F))
    (make : String → RetrievedChunk F → Result (RetrievedChunk F)) where
  abbrev Makes : Type 0
  Makes =
      (k : String) (base : RetrievedChunk F)
      → (c : RetrievedChunk F) × (make k base ≡ ok c) × (c.chunk_id ≡ base.chunk_id)

  -- Where the store has every identifier, the loop returns a chunk for each.
  fuse_total :
      Makes
      → (ks : List String) → All (λ k. Has k (store k)) ks
      → (fused : List (RetrievedChunk F)) × (fuse store make ks ≡ ok fused) × (chunk_ids fused ≡ ks)
  fuse_total makes [] h = ([], refl, refl)
  fuse_total makes (k ∷ ks) ((base, here, named), rest) =
      let (c, made, same) = makes k base in
      let (fused, run, ids) = fuse_total makes ks rest in
      (c ∷ fused, rw (fuse, here) (rw made (rw run refl)), λ i. (same ∙ named) i ∷ ids i)

-- A result has at most one chunk for an identifier, each of them from one of the rankings, and
-- as many as asked for, or all.
pub record IsFused {F : Type 0} (vs gs : List (RetrievedChunk F)) (top_k : ℕ)
    (fused : List (RetrievedChunk F)) : Type 0 where
  pub distinct_ids : IsDistinct (chunk_ids fused)
  pub from_rankings : All (λ k. contains (chunk_ids vs ++ chunk_ids gs) k ≡ true) (chunk_ids fused)
  pub count : length fused ≡ min top_k (length (all_ids vs gs))

-- The divisions of the fusion
module _ {F : Type 0} (fl : Floats F) (laws : FloatLaws fl) where
  divide_ok : (a b : F) → is_zero fl b ≡ false → divide fl a b ≡ ok (fl.div a b)
  divide_ok a b h = rw h refl

  of_int-nonzero : (k n : ℕ) → 1 ≤ n → is_zero fl (of_int fl (pos k +ℤ pos n)) ≡ false
  unfolding ◌+ℤ◌
  of_int-nonzero k n h =
      let positive = laws.cents_pos ((k + n) * 100) (omega (arith, h)) in
      let apart = laws.not_le_of_lt _ _ positive in
      let sum : pos k +ℤ pos n ≡ pos (k + n) = ground arith in rw sum (rw apart refl)

  divide_int_ok :
      (a : F) (k n : ℕ)
      → 1 ≤ n
      → k + n < float_limit
      → divide_int fl a (pos k +ℤ pos n) ≡ ok (fl.div a (of_int fl (pos k +ℤ pos n)))
  unfolding ◌+ℤ◌
  divide_int_ok a k n h near =
      let sum : pos k +ℤ pos n ≡ pos (k + n) = ground arith in
      let small : leb float_limit (k + n) ≡ false = ground (arith, near) in
      let large : is_large (pos k +ℤ pos n) ≡ false = rw sum small in
      rw large (divide_ok a _ (of_int-nonzero k n h))

  rank_of-le :
      (cid : String) (rank : ℕ) (cs : List (RetrievedChunk F)) {n : ℕ}
      → rank_of cid rank cs ≡ some n
      → n < rank + length cs
  rank_of-le cid rank [] q = cc
  rank_of-le cid rank (c ∷ cs) q = elim (Option-cases (rank_of cid (suc rank) cs)) [
    | inr (m, e) ↦
        let later : m < rank + suc (length cs) =
          let own = rank_of-le cid (suc rank) cs e in omega (arith, own) in
        subst (λ x. x < rank + suc (length cs)) (some_inj (rw e at q)) later
    | inl e ↦ elim (Bool-cases (c.chunk_id == cid)) [
      | inl t ↦ subst (λ x. x < rank + suc (length cs)) (some_inj (rw (e, t) at q)) (omega arith)
      | inr f ↦ let never = rw (e, f) at q in cc
    ]
  ]

  rank_of-pos :
      (cid : String) (rank : ℕ) (cs : List (RetrievedChunk F)) {n : ℕ}
      → 1 ≤ rank
      → rank_of cid rank cs ≡ some n
      → 1 ≤ n
  rank_of-pos cid rank [] h q = cc
  rank_of-pos cid rank (c ∷ cs) h q = elim (Option-cases (rank_of cid (suc rank) cs)) [
    | inr (m, e) ↦
        let later = rank_of-pos cid (suc rank) cs (omega (arith, h)) e in
        subst (λ x. 1 ≤ x) (some_inj (rw e at q)) later
    | inl e ↦ elim (Bool-cases (c.chunk_id == cid)) [
      | inl t ↦ subst (λ x. 1 ≤ x) (some_inj (rw (e, t) at q)) h
      | inr f ↦ let never = rw (e, f) at q in cc
    ]
  ]

  part_of_total :
      (weight : F) (k : ℕ) (cid : String) (cs : List (RetrievedChunk F))
      → k + (length cs + 1) < float_limit
      → (x : F) × (part_of fl weight (pos k) (rank_of cid 1 cs) ≡ ok x)
  part_of_total weight k cid cs near = elim (Option-cases (rank_of cid 1 cs)) [
    | inl e ↦ (zero_float fl, rw e refl)
    | inr (n, e) ↦
        let below = rank_of-le cid 1 cs e in
        (
          fl.div weight (of_int fl (pos k +ℤ pos n)),
          rw e (
              divide_int_ok weight k n (rank_of-pos cid 1 cs (omega arith) e)
                (omega (arith, below, near))),
        )
  ]

  rrf_score_total :
      (vs gs : List (RetrievedChunk F)) (k : ℕ) (vector_weight graph_weight : F)
      → k + (length vs + length gs + 1) < float_limit
      → (cid : String)
      → (x : F) × (rrf_score fl vs gs (pos k) vector_weight graph_weight cid ≡ ok x)
  rrf_score_total vs gs k vector_weight graph_weight near cid =
      let (v, p) = part_of_total vector_weight k cid vs (omega (arith, near)) in
      let (g, q) = part_of_total graph_weight k cid gs (omega (arith, near)) in
      (fl.add v g, rw p (rw q refl))

  rrf_scores_total :
      (score : String → Result F)
      → ((cid : String) → (x : F) × (score cid ≡ ok x))
      → (ks : List String) → (scores : List (String × F)) × (rrf_scores fl score ks ≡ ok scores)
  rrf_scores_total score h [] = ([], refl)
  rrf_scores_total score h (k ∷ ks) =
      let (x, p) = h k in
      let (rest, q) = rrf_scores_total score h ks in ((k, x) ∷ rest, rw p (rw q refl))

  one-nonzero : is_zero fl (one_float fl) ≡ false
  one-nonzero = rw (laws.not_le_of_lt _ _ (laws.cents_pos 100 (omega arith))) refl

  max_possible_total :
      (k : ℕ) (vector_weight graph_weight : F)
      → k + 1 < float_limit
      → (fl.lt (zero_float fl) (fl.add vector_weight graph_weight) ≡ true
          → is_zero fl (fl.div (fl.add vector_weight graph_weight) (of_int fl (pos k +ℤ pos 1)))
            ≡ false)
      → (best : F) × (max_possible fl (pos k) vector_weight graph_weight ≡ ok best)
        × (is_zero fl best ≡ false)
  max_possible_total k vector_weight graph_weight near kept =
      let sum = fl.add vector_weight graph_weight in
      elim (Bool-cases (fl.lt (zero_float fl) sum)) [
        | inl t ↦ (
          fl.div sum (of_int fl (pos k +ℤ pos 1)),
          rw t (divide_int_ok sum k 1 (omega arith) near),
          kept t,
        )
        | inr f ↦ (one_float fl, rw f refl, one-nonzero)
      ]

module _ {F : Type 0} (fl : Floats F) (laws : FloatLaws fl) (less : String → String → Bool)
    (round_4 : F → F) where
  fuse_rankings-IsFused :
      (vs gs : List (RetrievedChunk F)) (top_k k : ℕ) (vector_weight graph_weight : F)
      → k + (length vs + length gs + 1) < float_limit
      → (fl.lt (zero_float fl) (fl.add vector_weight graph_weight) ≡ true
          → is_zero fl (fl.div (fl.add vector_weight graph_weight) (of_int fl (pos k +ℤ pos 1)))
            ≡ false)
      → (fused : List (RetrievedChunk F)) × (fuse_rankings fl less round_4 vs gs top_k
            (pos k)
            vector_weight
            graph_weight
          ≡ ok fused)
        × IsFused vs gs top_k fused
  unfolding fuse_rankings
  fuse_rankings-IsFused vs gs top_k k vector_weight graph_weight near kept =
      let ids = chunk_ids vs ++ chunk_ids gs in
      let (scores, scored) =
        rrf_scores_total fl laws (rrf_score fl vs gs (pos k) vector_weight graph_weight)
          (rrf_score_total fl laws vs gs k vector_weight graph_weight near) (all_ids vs gs) in
      let (best, bounded, nonzero) =
        max_possible_total fl laws k vector_weight graph_weight (omega (arith, near)) kept in
      let le = in_rank_order fl less (score_in fl scores) in
      let ordered = order_by le (all_ids vs gs) in
      let known : All (λ x. contains ids x ≡ true) (take top_k ordered) =
        All-take (λ x. contains ids x ≡ true) top_k ordered
          (order_by-All le (λ x. contains ids x ≡ true) (all_ids vs gs) (distinct-contained ids)) in
      let (fused, run, named) =
        fuse_total (λ cid. stored_graph cid (stored_vector cid none vs) gs)
          (fused_chunk fl round_4 vs gs scores best)
          (λ cid base. (
            scored_chunk fl round_4 vs gs (fl.div (score_in fl scores cid) best) cid base,
            rw nonzero refl,
            refl,
          ))
          (take top_k ordered)
          (All-map (λ x h. stored-finds vs gs x h) (take top_k ordered) known) in
      (
        fused,
        rw scored (rw bounded run),
        record {
          distinct_ids = subst IsDistinct (sym named) (
              take-IsDistinct top_k ordered
                (order_by-IsDistinct le (all_ids vs gs) (distinct-IsDistinct ids)));
          from_rankings = subst (All (λ x. contains ids x ≡ true)) (sym named) known;
          count =
              length-chunk_ids fused
              ∙ ap length named
              ∙ length-take top_k ordered
              ∙ ap (min top_k) (length-order_by le (all_ids vs gs));
        },
      )

  -- If `k` is not negative, all ranks with `k` are within the range of floats, and the weights' sum, where it is positive, does not become zero when it
  -- is divided by `k + 1`, the fusion of two rankings returns, and no division is by zero. The
  -- result has at most one chunk for each identifier, each from one of the rankings, and as many as
  -- asked for, or one for each identifier if there are not so many.
  pub reciprocal_rank_fusion-IsFused :
      (vs gs : List (RetrievedChunk F)) (top_k k : ℕ) (vector_weight graph_weight : F)
      → k + (length vs + length gs + 1) < float_limit
      → (fl.lt (zero_float fl) (fl.add vector_weight graph_weight) ≡ true
          → is_zero fl (fl.div (fl.add vector_weight graph_weight) (of_int fl (pos k +ℤ pos 1)))
            ≡ false)
      → (fused : List (RetrievedChunk F)) × (reciprocal_rank_fusion fl less round_4 vs gs top_k
            (pos k)
            vector_weight
            graph_weight
          ≡ ok fused)
        × IsFused vs gs top_k fused
  unfolding reciprocal_rank_fusion distinct
  reciprocal_rank_fusion-IsFused [] [] top_k k vector_weight graph_weight near kept =
      ([], refl, record { distinct_ids = tt; from_rankings = tt; count = omega arith })
  reciprocal_rank_fusion-IsFused [] (c ∷ gs) top_k k vector_weight graph_weight near kept =
      fuse_rankings-IsFused [] (c ∷ gs) top_k k vector_weight graph_weight near kept
  reciprocal_rank_fusion-IsFused (c ∷ vs) gs top_k k vector_weight graph_weight near kept =
      fuse_rankings-IsFused (c ∷ vs) gs top_k k vector_weight graph_weight near kept
