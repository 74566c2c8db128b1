-- ===== src/Floats.antt =====
-- Python's floats, which the language here lacks: a type, the operations that the program calls,
-- and the order laws that it relies on. `cents n` is the float that the literal n / 100 denotes.
-- `min` and `max` are the language's own, by comparison: the first argument stays unless the second
-- is strictly beyond it.
use native.Mathlib.Nat.{div-le_of_le-mul}
use open_graph_memory.Prelude.{
  ℕ, ◌+◌, ◌-◌, ◌*◌, ◌/◌, ◌≤◌, ◌<◌, ◌≡◌, Bool, true, false, arith, ltb, leb, if◌then◌else◌,
}

pub record Floats (F : Type 0) : Type 0 where
  pub cents : ℕ → F
  pub add : F → F → F
  pub sub : F → F → F
  pub mul : F → F → F
  pub div : F → F → F
  pub lt : F → F → Bool
  pub le : F → F → Bool

module _ {F : Type 0} (fl : Floats F) where
  abbrev pub zero_float : F
  zero_float = fl.cents 0

  abbrev pub one_float : F
  one_float = fl.cents 100

  -- `min(a, b)` and `max(a, b)`
  abbrev pub min_float : F → F → F
  min_float a b = if fl.lt b a then b else a

  abbrev pub max_float : F → F → F
  max_float a b = if fl.lt a b then b else a

  -- 0.0 <= a <= 1.0, which holds of no NaN
  pub record IsUnit (a : F) : Type 0 where
    pub from_zero : fl.le (fl.cents 0) a ≡ true
    pub to_one : fl.le a (fl.cents 100) ≡ true

  -- What IEEE 754 arithmetic guarantees of the values that meet the premises.
  pub record FloatLaws : Type 0 where
    pub le_trans : (a b c : F) → fl.le a b ≡ true → fl.le b c ≡ true → fl.le a c ≡ true
    pub le_of_lt : (a b : F) → fl.lt a b ≡ true → fl.le a b ≡ true
    pub le_cents : (m n : ℕ) → m ≤ n → fl.le (fl.cents m) (fl.cents n) ≡ true
    -- `n` is not zero, and no float of so many hundredths is.
    pub cents_pos : (n : ℕ) → 0 < n → fl.lt (fl.cents 0) (fl.cents n) ≡ true
    pub not_le_of_lt : (a b : F) → fl.lt a b ≡ true → fl.le b a ≡ false
    pub add_nonneg :
        (a b : F)
        → fl.le (fl.cents 0) a ≡ true
        → fl.le (fl.cents 0) b ≡ true
        → fl.le (fl.cents 0) (fl.add a b) ≡ true
    pub sub_le : (a b : F) → IsUnit a → fl.le (fl.cents 0) b ≡ true → fl.le (fl.sub a b) a ≡ true
    pub add_pos :
        (a b : F)
        → fl.le (fl.cents 0) a ≡ true
        → fl.lt (fl.cents 0) b ≡ true
        → fl.lt (fl.cents 0) (fl.add a b) ≡ true
    pub add_mono :
        (a b c d : F)
        → fl.le (fl.cents 0) a ≡ true
        → fl.le (fl.cents 0) c ≡ true
        → fl.le a b ≡ true
        → fl.le c d ≡ true
        → fl.le (fl.add a c) (fl.add b d) ≡ true
    -- `n` bounds the denominator, so it is finite.
    pub div_unit :
        (a b : F) (n : ℕ)
        → fl.le (fl.cents 0) a ≡ true
        → fl.le a b ≡ true
        → fl.lt (fl.cents 0) b ≡ true
        → fl.lt b (fl.cents n) ≡ true
        → IsUnit (fl.div a b)

-- Hundredths, truncated: an instance that runs and satisfies the laws.
abbrev pub hundredths : Floats ℕ
hundredths = record {
  cents = λ n. n;
  add = λ a b. a + b;
  sub = λ a b. a - b;
  mul = λ a b. a * b / 100;
  div = λ a b. a * 100 / b;
  lt = ltb;
  le = leb;
}

ratio_le : (a b : ℕ) → leb a b ≡ true → ltb 0 b ≡ true → leb (a * 100 / b) 100 ≡ true
ratio_le a b h k =
    let q : a * 100 ≤ b * 100 = ground arith in
    let r : a * 100 / b ≤ 100 = div-le_of_le-mul b q in ground arith

pub hundredths_laws : FloatLaws hundredths
hundredths_laws = record {
  le_trans = λ a b c p q. ground arith;
  le_of_lt = λ a b p. ground arith;
  le_cents = λ m n p. ground arith;
  cents_pos = λ n p. ground arith;
  not_le_of_lt = λ a b p. ground arith;
  add_nonneg = λ a b p q. ground arith;
  sub_le = λ a b u p. ground arith;
  add_pos = λ a b p q. ground arith;
  add_mono = λ a b c d p q r t. ground arith;
  div_unit = λ a b n p q r t. record { from_zero = ground arith; to_one = ratio_le a b q r };
}
