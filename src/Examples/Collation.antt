-- ===== src/Examples/Collation.antt =====
-- The order of texts by their code points, as in the collation "C".
use text.Mathlib.TextEquality.{eq_iff, Char-path}
use open_graph_memory.Prelude.{
  ℕ, String, codes, codes_eq, Bool, true, false, ◌&&◌, ◌||◌, ◌==◌, ltb, eqb, List, [], ◌∷◌, ◌≡◌,
  refl, inl, inr, arith, Bool-cases,
}
use open_graph_memory.Graph.Explorer.Sorted.{StrictOrder}

abbrev codes_less : List ℕ → List ℕ → Bool
codes_less [] [] = false
codes_less [] (y ∷ ys) = true
codes_less (x ∷ xs) [] = false
codes_less (x ∷ xs) (y ∷ ys) = ltb x y || eqb x y && codes_less xs ys

abbrev pub text_less : String → String → Bool
text_less a b = codes_less (codes a) (codes b)

codes_less_irrefl : (xs : List ℕ) → codes_less xs xs ≡ false
codes_less_irrefl [] = refl
codes_less_irrefl (x ∷ xs) = ground (arith, codes_less_irrefl xs)

codes_less_trans :
    (xs ys zs : List ℕ)
    → codes_less xs ys ≡ true
    → codes_less ys zs ≡ true
    → codes_less xs zs ≡ true
codes_less_trans [] [] zs h g = cc
codes_less_trans [] (y ∷ ys) [] h g = cc
codes_less_trans [] (y ∷ ys) (z ∷ zs) h g = refl
codes_less_trans (x ∷ xs) [] zs h g = cc
codes_less_trans (x ∷ xs) (y ∷ ys) [] h g = cc
codes_less_trans (x ∷ xs) (y ∷ ys) (z ∷ zs) h g = ground (arith, codes_less_trans xs ys zs)

codes_less-total :
    (xs ys : List ℕ) → codes_less xs ys ≡ false → codes_less ys xs ≡ false → codes_eq xs ys ≡ true
codes_less-total [] [] h g = refl
codes_less-total [] (y ∷ ys) h g = cc
codes_less-total (x ∷ xs) [] h g = cc
codes_less-total (x ∷ xs) (y ∷ ys) h g = ground (arith, codes_less-total xs ys)

codes_eq-path : (s t : String) → codes_eq (codes s) (codes t) ≡ true → s ≡ t
codes_eq-path String.[] String.[] h = refl
codes_eq-path String.[] (String.◌∷◌ d t) h = let never : true ≡ false = cc in cc
codes_eq-path (String.◌∷◌ c s) String.[] h = let never : true ≡ false = cc in cc
codes_eq-path (String.◌∷◌ c s) (String.◌∷◌ d t) h =
    let same = Char-path c d (ground (arith, h)) in
    let rest = codes_eq-path s t (ground (arith, h)) in λ i. String.◌∷◌ (same i) (rest i)

pub text_less-laws : StrictOrder text_less
text_less-laws = record {
  irreflexive = λ a. codes_less_irrefl (codes a);
  transitive = λ a b c. codes_less_trans (codes a) (codes b) (codes c);
  total = total;
}
  where
    total : (a b : String) → (a == b) ≡ false → text_less a b ≡ false → text_less b a ≡ true
    total a b other h = elim (Bool-cases (text_less b a)) [
      | inl t ↦ t
      | inr f ↦
          let same =
            (eq_iff a b).1 (codes_eq-path a b (codes_less-total (codes a) (codes b) h f)) in
          cc
    ]
