-- ===== src/Floats.antt =====
-- Go's `float64` as the scheduler uses it: a type with its operations. What a proof needs of the
-- order is a hypothesis of that proof.
use os_complete.Base.{ℕ, ◌≡◌, Bool, true, false, ℤ}

pub record Floats : Type 1 where
  pub F : Type 0
  -- Conversion of a `uint64`, and of an `int` or `int64`.
  pub of_nat : ℕ → F
  pub of_int : ℤ → F
  -- Conversion to a `uint64`.
  pub to_nat : F → ℕ
  pub add : F → F → F
  pub sub : F → F → F
  pub mul : F → F → F
  pub div : F → F → F
  pub abs : F → F
  pub round : F → F
  pub neg_inf : F
  pub lt : F → F → Bool
  pub eq : F → F → Bool

-- What the comparison of numbers does: no number is below `-Inf`, and a NaN is no number.
pub record IsOrdered (fl : Floats) (IsNumber : fl.F → Type 0) : Type 0 where
  pub neg_inf_lt : (a : fl.F) → IsNumber a → fl.lt fl.neg_inf a ≡ true
  pub lt_trans :
      (a b c : fl.F)
      → IsNumber a
      → IsNumber b
      → IsNumber c
      → fl.lt a b ≡ true
      → fl.lt b c ≡ true
      → fl.lt a c ≡ true
  pub lt_asymm : (a b : fl.F) → IsNumber a → IsNumber b → fl.lt a b ≡ true → fl.lt b a ≡ false
  pub eq_of_not_lt :
      (a b : fl.F) → IsNumber a → IsNumber b → fl.lt a b ≡ false → fl.lt b a ≡ false → a ≡ b
  pub eq_iff : (a : fl.F) → IsNumber a → fl.eq a a ≡ true
  pub not_eq_of_lt : (a b : fl.F) → IsNumber a → IsNumber b → fl.lt a b ≡ true → fl.eq a b ≡ false
