-- ===== src/Prelude/Lists.antt =====
-- Lists as Python uses them: lengths and slices by native numbers, the loops `all`, `any` and the
-- comprehensions with a condition, and the first row that a query finds.
use Prim.Native.Nat.{ℕ, zero, suc, ◌+◌, ◌-◌, ◌≤◌, min}
use mathlib.Core.Path.{◌≡◌, refl, subst}
use mathlib.Core.Logic.{inl, inr}
use mathlib.Core.Bool.{Bool, true, false, ◌&&◌, ◌||◌}
use mathlib.Core.List.{List, [], ◌∷◌, ◌++◌}
use mathlib.Core.Option.{Option, none, some}
use native.Mathlib.Omega.{arith}
use open_graph_memory.Prelude.Tests.{if◌then◌else◌, Bool-cases}

module _ {ℓ} {A : Type ℓ} where
  abbrev pub length : List A → ℕ
  length [] = 0
  length (x ∷ xs) = suc (length xs)

  abbrev pub take : ℕ → List A → List A
  take zero xs = []
  take (suc n) [] = []
  take (suc n) (x ∷ xs) = x ∷ take n xs

  abbrev pub drop : ℕ → List A → List A
  drop zero xs = xs
  drop (suc n) [] = []
  drop (suc n) (x ∷ xs) = drop n xs

  -- `[x for x in xs if p x]`, and a `WHERE` clause
  abbrev pub where_rows : (A → Bool) → List A → List A
  where_rows p [] = []
  where_rows p (x ∷ xs) = if p x then x ∷ where_rows p xs else where_rows p xs

  -- the first row of a query, or None
  abbrev pub find_row : (A → Bool) → List A → Option A
  find_row p [] = none
  find_row p (x ∷ xs) = if p x then some x else find_row p xs

  abbrev pub any_row : (A → Bool) → List A → Bool
  any_row p [] = false
  any_row p (x ∷ xs) = p x || any_row p xs

  abbrev pub all_rows : (A → Bool) → List A → Bool
  all_rows p [] = true
  all_rows p (x ∷ xs) = p x && all_rows p xs

  -- `UPDATE`: the rows that pass the test are changed
  abbrev pub update_rows : (A → Bool) → (A → A) → List A → List A
  update_rows p f [] = []
  update_rows p f (x ∷ xs) = (if p x then f x else x) ∷ update_rows p f xs

  -- A property of every element, by recursion, so that tactics read it.
  abbrev pub All {κ} : (A → Type κ) → List A → Type κ
  All P [] = Unit
  All P (x ∷ xs) = P x × All P xs

  pub length-append : (xs ys : List A) → length (xs ++ ys) ≡ length xs + length ys
  length-append [] ys = omega arith
  length-append (x ∷ xs) ys = omega (arith, length-append xs ys)

  pub length-update_rows :
      (p : A → Bool) (f : A → A) (xs : List A) → length (update_rows p f xs) ≡ length xs
  length-update_rows p f [] = refl
  length-update_rows p f (x ∷ xs) = omega (arith, length-update_rows p f xs)

  pub length-where_rows-le : (p : A → Bool) (xs : List A) → length (where_rows p xs) ≤ length xs
  length-where_rows-le p [] = omega arith
  length-where_rows-le p (x ∷ xs) = ground (arith, length-where_rows-le p xs)

  pub length-take : (n : ℕ) (xs : List A) → length (take n xs) ≡ min n (length xs)
  length-take zero xs = omega arith
  length-take (suc n) [] = omega arith
  length-take (suc n) (x ∷ xs) = omega (arith, length-take n xs)

  pub length-drop : (n : ℕ) (xs : List A) → length (drop n xs) ≡ length xs - n
  length-drop zero xs = omega arith
  length-drop (suc n) [] = omega arith
  length-drop (suc n) (x ∷ xs) = omega (arith, length-drop n xs)

pub All-map {ℓ κ μ} :
    {A : Type ℓ} {P : A → Type κ} {Q : A → Type μ}
    → ((x : A) → P x → Q x)
    → (xs : List A) → All P xs
    → All Q xs
All-map f [] h = tt
All-map f (x ∷ xs) h = (f x h.0, All-map f xs h.1)

pub some_inj {ℓ} : {A : Type ℓ} {x y : A} → some x ≡ some y → x ≡ y
some_inj e = cc

module _ {ℓ κ} {A : Type ℓ} (P : A → Type κ) where
  pub All-append : (xs ys : List A) → All P xs → All P ys → All P (xs ++ ys)
  All-append [] ys h k = k
  All-append (x ∷ xs) ys h k = (h.0, All-append xs ys h.1 k)

  pub All-update_rows :
      (p : A → Bool) (f : A → A)
      → ((x : A) → P x → p x ≡ true → P (f x))
      → (xs : List A) → All P xs
      → All P (update_rows p f xs)
  All-update_rows p f keep [] h = tt
  All-update_rows p f keep (x ∷ xs) h = (head (p x) refl, All-update_rows p f keep xs h.1)
    where
      head : (b : Bool) → p x ≡ b → P (if b then f x else x)
      head true e = keep x h.0 e
      head false e = h.0

  pub All-where_rows : (p : A → Bool) (xs : List A) → All P xs → All P (where_rows p xs)
  All-where_rows p [] h = tt
  All-where_rows p (x ∷ xs) h = go (p x) (All-where_rows p xs h.1)
    where
      go :
          (b : Bool)
          → All P (where_rows p xs)
          → All P (if b then x ∷ where_rows p xs else where_rows p xs)
      go true r = (h.0, r)
      go false r = r

  pub find_row-All : (p : A → Bool) (xs : List A) {x : A} → All P xs → find_row p xs ≡ some x → P x
  find_row-All p [] h e = cc
  find_row-All p (y ∷ xs) h e = elim (Bool-cases (p y)) [
    | inl t ↦ subst P (some_inj (rw t at e)) h.0
    | inr t ↦ find_row-All p xs h.1 (rw t at e)
  ]

module _ {ℓ} {A : Type ℓ} (p : A → Bool) where
  pub find_row-true : (xs : List A) {x : A} → find_row p xs ≡ some x → p x ≡ true
  find_row-true [] e = cc
  find_row-true (y ∷ xs) e = elim (Bool-cases (p y)) [
    | inl t ↦ subst (λ z. p z ≡ true) (some_inj (rw t at e)) t
    | inr f ↦ find_row-true xs (rw f at e)
  ]

  -- After every row that the test finds was replaced by one that it finds, it finds that one.
  pub find_row-update_rows :
      (y : A) (xs : List A) {x : A}
      → p y ≡ true
      → find_row p xs ≡ some x
      → find_row p (update_rows p (λ _. y) xs) ≡ some y
  find_row-update_rows y [] own e = cc
  find_row-update_rows y (z ∷ xs) own e = elim (Bool-cases (p z)) [
    | inl t ↦ rw (t, own)
    | inr f ↦ rw (f, f) (find_row-update_rows y xs own (rw f at e))
  ]
