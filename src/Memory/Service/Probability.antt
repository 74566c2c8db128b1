-- ===== src/Memory/Service/Probability.antt =====
-- memory/service.py `bayesian_confidence`: the range of a pattern's confidence.
use open_graph_memory.Prelude.{ℕ, ◌≡◌, true, inl, inr, arith, Bool-cases}
use open_graph_memory.Floats.{Floats, FloatLaws, IsUnit, min_float, max_float}
use open_graph_memory.Memory.Service.{bayesian_confidence}

module _ {F : Type 0} (fl : Floats F) (laws : FloatLaws fl) where
  max_zero-nonneg : (x : F) → fl.le (fl.cents 0) (max_float fl (fl.cents 0) x) ≡ true
  max_zero-nonneg x = elim (Bool-cases (fl.lt (fl.cents 0) x)) [
    | inl t ↦ rw t (laws.le_of_lt _ _ t)
    | inr f ↦ rw f (laws.le_cents 0 0 (omega arith))
  ]

  module _ (b x : F) (hb : fl.le (fl.cents 0) b ≡ true) (hx : fl.le (fl.cents 0) x ≡ true)
      (number : fl.le b b ≡ true) where
    min-nonneg : fl.le (fl.cents 0) (min_float fl b x) ≡ true
    min-nonneg = elim (Bool-cases (fl.lt x b)) [ inl t ↦ rw t hx | inr f ↦ rw f hb ]

    min-le : fl.le (min_float fl b x) b ≡ true
    min-le = elim (Bool-cases (fl.lt x b)) [
      | inl t ↦ rw t (laws.le_of_lt _ _ t)
      | inr f ↦ rw f number
    ]

  -- Whatever the successes and the total are, the confidence lies in [0, 1], if the total that is
  -- not below zero is a number, and so small that the denominator is below some decimal number.
  pub bayesian_confidence-IsUnit :
      (successes total : F) (n : ℕ)
      → fl.lt (fl.add (max_float fl (fl.cents 0) total) (fl.cents 200)) (fl.cents n) ≡ true
      → fl.le (max_float fl (fl.cents 0) total) (max_float fl (fl.cents 0) total) ≡ true
      → IsUnit fl (bayesian_confidence fl successes total)
  unfolding bayesian_confidence
  bayesian_confidence-IsUnit successes total n small number =
      let bt = max_float fl (fl.cents 0) total in
      let ms = max_float fl (fl.cents 0) successes in
      let bs = min_float fl bt ms in
      let bt_nonneg = max_zero-nonneg total in
      let bs_nonneg = min-nonneg bt ms bt_nonneg (max_zero-nonneg successes) number in
      let bs_le = min-le bt ms bt_nonneg (max_zero-nonneg successes) number in
      let one_nonneg = laws.le_cents 0 100 (omega arith) in
      laws.div_unit (fl.add bs (fl.cents 100)) (fl.add bt (fl.cents 200)) n
        (laws.add_nonneg _ _ bs_nonneg one_nonneg)
        (laws.add_mono _ _ _ _ bs_nonneg one_nonneg bs_le (laws.le_cents 100 200 (omega arith)))
        (laws.add_pos _ _ bt_nonneg (laws.cents_pos 200 (omega arith))) small
