-- ===== src/Graph/Explorer/Sorted.antt =====
-- graph/service.py: the rows of the explorer in the order of their keys.
use open_graph_memory.Prelude.{
  String, ◌≡◌, refl, inl, inr, Bool, true, false, List, [], ◌∷◌, ◌++◌, ◌==◌, eq_iff, where_rows,
  All, All-map, arith, Bool-cases,
}
use open_graph_memory.Prelude.Sorting.{order_by, insert_by, insert_by-All, order_by-All}
use open_graph_memory.Graph.Explorer.{in_order}

-- A strict total order on texts
pub record StrictOrder (less : String → String → Bool) : Type 0 where
  pub irreflexive : (a : String) → less a a ≡ false
  pub transitive : (a b c : String) → less a b ≡ true → less b c ≡ true → less a c ≡ true
  pub total : (a b : String) → (a == b) ≡ false → less a b ≡ false → less b a ≡ true

module _ {A : Type 0} (less : String → String → Bool) (key : A → String) where
  abbrev pub AreAbove : A → List A → Type 0
  AreAbove x ys = All (λ y. less (key x) (key y) ≡ true) ys

  -- Each key is less than all later ones.
  abbrev pub IsSorted : List A → Type 0
  IsSorted [] = Unit {0}
  IsSorted (x ∷ xs) = AreAbove x xs × IsSorted xs

module _ {A : Type 0} (key : A → String) where
  abbrev pub AreOther : A → List A → Type 0
  AreOther x ys = All (λ y. (key x == key y) ≡ false) ys

  -- No two rows have the same key.
  abbrev pub AreDistinct : List A → Type 0
  AreDistinct [] = Unit {0}
  AreDistinct (x ∷ xs) = AreOther x xs × AreDistinct xs

module _ {A : Type 0} (less : String → String → Bool) (key : A → String)
    (laws : StrictOrder less) where
  insert_by-IsSorted :
      (x : A) (ys : List A)
      → AreOther key x ys
      → IsSorted less key ys
      → IsSorted less key (insert_by (in_order less key) x ys)
  unfolding insert_by
  insert_by-IsSorted x [] other h = (tt, tt)
  insert_by-IsSorted x (y ∷ ys) other h = elim (Bool-cases (less (key y) (key x))) [
    | inl t ↦ rw t (
      insert_by-All (in_order less key) (λ z. less (key y) (key z) ≡ true) x ys t h.0,
      insert_by-IsSorted x ys other.1 h.1,
    )
    | inr f ↦
        let below =
          laws.total (key y) (key x)
            (ground (arith, other.0, eq_iff (key x) (key y), eq_iff (key y) (key x))) f in
        rw f (
          (below, All-map (λ z above. laws.transitive (key x) (key y) (key z) below above) ys h.0),
          h,
        )
  ]

  pub order_by-IsSorted :
      (xs : List A) → AreDistinct key xs → IsSorted less key (order_by (in_order less key) xs)
  unfolding order_by
  order_by-IsSorted [] h = tt
  order_by-IsSorted (x ∷ xs) h =
      insert_by-IsSorted x (order_by (in_order less key) xs)
        (order_by-All (in_order less key) (λ y. (key x == key y) ≡ false) xs h.0)
        (order_by-IsSorted xs h.1)

  where-above :
      (c : String) (ys : List A)
      → All (λ y. less c (key y) ≡ true) ys
      → where_rows (λ y. less c (key y)) ys ≡ ys
  where-above c [] h = refl
  where-above c (y ∷ ys) h = rw (h.0) (λ i. y ∷ where-above c ys h.1 i)

  less-asym : (a b : String) → less a b ≡ true → less b a ≡ false
  less-asym a b h = elim (Bool-cases (less b a)) [
    | inr f ↦ f
    | inl t ↦ let around = laws.transitive a b a h t in let never = laws.irreflexive a in cc
  ]

  All-middle :
      (P : A → Type 0) (pre : List A) (x : A) (post : List A) → All P (pre ++ x ∷ post) → P x
  All-middle P [] x post h = h.0
  All-middle P (z ∷ pre) x post h = All-middle P pre x post h.1

  -- What follows a row of the sorted rows is what is above its key.
  pub where-after :
      (pre : List A) (x : A) (post : List A)
      → IsSorted less key (pre ++ x ∷ post)
      → where_rows (λ y. less (key x) (key y)) (pre ++ x ∷ post) ≡ post
  where-after [] x post h = rw (laws.irreflexive (key x)) (where-above (key x) post h.0)
  where-after (z ∷ pre) x post h =
      rw (less-asym (key z) (key x) (All-middle (λ y. less (key z) (key y) ≡ true) pre x post h.0))
        (where-after pre x post h.1)
