-- ===== src/Prelude/Members.antt =====
-- What a list of texts contains, after a selection and in two parts.
use open_graph_memory.Prelude.Tests.{if◌then◌else◌, Bool-cases}
use open_graph_memory.Prelude.Lists.{take, where_rows, find_row, any_row, All, All-map}
use open_graph_memory.Prelude.Texts.{contains, ==_refl}
use Prim.Native.Nat.{ℕ, zero, suc}
use Prim.Native.String.{String}
use mathlib.Core.Option.{some}
use mathlib.Core.Path.{◌≡◌, refl, ap, subst}
use mathlib.Core.Logic.{inl, inr}
use mathlib.Core.Bool.{Bool, true, false, ◌&&◌, ◌||◌}
use mathlib.Core.List.{List, [], ◌∷◌, ◌++◌, map}
use native.Mathlib.Omega.{arith}
use text.Mathlib.Text.{◌==◌}
use text.Mathlib.TextEquality.{eq_iff}

pub contains-append :
    (xs ys : List String) (k : String) → contains (xs ++ ys) k ≡ (contains xs k || contains ys k)
contains-append [] ys k = refl
contains-append (x ∷ xs) ys k = ground (arith, contains-append xs ys k)

pub contains-where_rows :
    (p : String → Bool) (xs : List String) (k : String)
    → contains (where_rows p xs) k ≡ (contains xs k && p k)
contains-where_rows p [] k = refl
contains-where_rows p (x ∷ xs) k = elim (Bool-cases (x == k)) [
  | inl t ↦ ground (arith, contains-where_rows p xs k, ap p ((eq_iff x k).0 t))
  | inr f ↦ ground (arith, contains-where_rows p xs k)
]

pub contains_of_where_rows :
    (p : String → Bool) (xs : List String) (k : String)
    → contains (where_rows p xs) k ≡ true
    → contains xs k ≡ true
contains_of_where_rows p xs k h = ground (arith, contains-where_rows p xs k)

module _ {ℓ} {A : Type ℓ} where
  pub where_rows-all : (p : A → Bool) (xs : List A) → ((x : A) → p x ≡ true) → where_rows p xs ≡ xs
  where_rows-all p [] h = refl
  where_rows-all p (x ∷ xs) h = rw (h x, where_rows-all p xs h)

  pub where_rows_cong :
      (p q : A → Bool) (xs : List A) → All (λ x. p x ≡ q x) xs → where_rows p xs ≡ where_rows q xs
  where_rows_cong p q [] h = refl
  where_rows_cong p q (x ∷ xs) h = rw (h.0, where_rows_cong p q xs h.1)

  -- What the selected rows have under a key, all rows have.
  pub contains-map-where_rows :
      (f : A → String) (p : A → Bool) (xs : List A) (k : String)
      → contains (map f (where_rows p xs)) k ≡ true
      → contains (map f xs) k ≡ true
  contains-map-where_rows f p [] k h = h
  contains-map-where_rows f p (x ∷ xs) k h = ground (arith, contains-map-where_rows f p xs k)

  -- A selected row is found under its key among the selected ones.
  pub All-selected :
      (f : A → String) (p : A → Bool) (xs : List A)
      → All (λ x. p x ≡ true → contains (map f (where_rows p xs)) (f x) ≡ true) xs
  All-selected f p [] = tt
  All-selected f p (x ∷ xs) = go (p x) refl (All-selected f p xs)
    where
      go :
          (b : Bool)
          → p x ≡ b
          → All (λ y. p y ≡ true → contains (map f (where_rows p xs)) (f y) ≡ true) xs
          → All
              (λ y.
                p y ≡ true
                → contains (map f (if b then x ∷ where_rows p xs else where_rows p xs)) (f y)
                  ≡ true)
              (x ∷ xs)
      go true e rest =
          ((λ own. rw (==_refl (f x)) refl), All-map (λ y own i. ground (arith, own i)) xs rest)
      go false e rest = ((λ own. cc), rest)

  -- Under a key of a selected row, a test of keys that all selected rows pass holds.
  pub selected_key :
      (f : A → String) (p : A → Bool) (q : String → Bool) (xs : List A) (k : String)
      → ((x : A) → p x ≡ true → q (f x) ≡ true)
      → contains (map f (where_rows p xs)) k ≡ true
      → q k ≡ true
  selected_key f p q [] k imp h = cc
  selected_key f p q (x ∷ xs) k imp h = elim (Bool-cases (p x)) [
    | inl t ↦ elim (Bool-cases (f x == k)) [
      | inl e ↦ subst (λ j. q j ≡ true) ((eq_iff (f x) k).0 e) (imp x t)
      | inr n ↦ selected_key f p q xs k imp (rw (t, n) at h)
    ]
    | inr n ↦ selected_key f p q xs k imp (rw n at h)
  ]

  pub contains-where_rows_mono :
      (f : A → String) (p q : A → Bool) (xs : List A) (k : String)
      → ((x : A) → p x ≡ true → q x ≡ true)
      → contains (map f (where_rows p xs)) k ≡ true
      → contains (map f (where_rows q xs)) k ≡ true
  contains-where_rows_mono f p q [] k imp h = h
  contains-where_rows_mono f p q (x ∷ xs) k imp h =
      ground (arith, imp x, contains-where_rows_mono f p q xs k imp)

  pub any_row-false :
      (p : A → Bool) (xs : List A) → All (λ x. p x ≡ false) xs → any_row p xs ≡ false
  any_row-false p [] h = refl
  any_row-false p (x ∷ xs) h = rw (h.0, any_row-false p xs h.1)

  pub All-own : (f : A → String) (xs : List A) → All (λ x. contains (map f xs) (f x) ≡ true) xs
  All-own f [] = tt
  All-own f (x ∷ xs) =
      (rw (==_refl (f x)) refl, All-map (λ y own. ground (arith, own)) xs (All-own f xs))

  pub any_row-where_rows :
      (q p : A → Bool) (xs : List A)
      → All (λ x. p x ≡ true → q x ≡ false) xs
      → any_row q (where_rows p xs) ≡ false
  any_row-where_rows q p [] h = refl
  any_row-where_rows q p (x ∷ xs) h = ground (arith, h.0, any_row-where_rows q p xs h.1)

  pub All-both : (P Q : A → Type 0) (xs : List A) → All P xs → All Q xs → All (λ x. P x × Q x) xs
  All-both P Q [] h k = tt
  All-both P Q (x ∷ xs) h k = ((h.0, k.0), All-both P Q xs h.1 k.1)

  pub any_row-append :
      (p : A → Bool) (xs ys : List A) → any_row p (xs ++ ys) ≡ (any_row p xs || any_row p ys)
  any_row-append p [] ys = refl
  any_row-append p (x ∷ xs) ys = ground (arith, any_row-append p xs ys)

  pub find_row-any_row :
      (p : A → Bool) (xs : List A) → any_row p xs ≡ true → (x : A) × (find_row p xs ≡ some x)
  find_row-any_row p [] h = cc
  find_row-any_row p (x ∷ xs) h = elim (Bool-cases (p x)) [
    | inl t ↦ (x, rw t refl)
    | inr f ↦ let (y, found) = find_row-any_row p xs (rw f at h) in (y, rw f found)
  ]

  pub All-selects : (p : A → Bool) (xs : List A) → All (λ x. p x ≡ true) (where_rows p xs)
  All-selects p [] = tt
  All-selects p (x ∷ xs) = go (p x) refl (All-selects p xs)
    where
      go :
          (b : Bool)
          → p x ≡ b
          → All (λ y. p y ≡ true) (where_rows p xs)
          → All (λ y. p y ≡ true) (if b then x ∷ where_rows p xs else where_rows p xs)
      go true e rest = (e, rest)
      go false e rest = rest

  pub All-take : (P : A → Type 0) (n : ℕ) (xs : List A) → All P xs → All P (take n xs)
  All-take P zero xs h = tt
  All-take P (suc n) [] h = tt
  All-take P (suc n) (x ∷ xs) h = (h.0, All-take P n xs h.1)

pub contains-All :
    (P : String → Type 0) (ks : List String) (k : String) → All P ks → contains ks k ≡ true → P k
contains-All P [] k h c = cc
contains-All P (j ∷ ks) k h c = elim (Bool-cases (j == k)) [
  | inl t ↦ subst P ((eq_iff j k).0 t) h.0
  | inr f ↦ contains-All P ks k h.1 (rw f at c)
]
