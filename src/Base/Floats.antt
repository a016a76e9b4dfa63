-- ===== src/Base/Floats.antt =====
-- Python's `float`, an interface: the operations that the program uses and the laws of IEEE
-- binary64 that it relies on. Every law holds of round-to-nearest on finite values: each rounding
-- is monotone, integers below 2^53 are exact, and so is a quotient that is such an integer. A
-- decimal literal is the correctly rounded quotient of two integers.
use revenue_recovery_voice_a.Base.Int.{ℤ, pos, ◌≤ℤ◌, ◌+ℤ◌}
use Prim.Native.Nat.{ℕ, ◌*◌, ◌^◌, ◌<◌, ◌≤◌}
use mathlib.Core.Path.{◌≡◌}
use mathlib.Core.Bool.{Bool, true, false}

pub record FloatOps : Type 1 where
  pub F : Type 0
  pub of_int : ℤ → F
  pub add : F → F → F
  pub sub : F → F → F
  pub mul : F → F → F
  pub div : F → F → F
  pub le : F → F → Bool
  -- `int(x)`, towards zero
  pub trunc : F → ℤ
  -- `round(x, n)`
  pub round : F → ℕ → F
  pub le_refl : (a : F) → le a a ≡ true
  pub le_trans : (a b c : F) → le a b ≡ true → le b c ≡ true → le a c ≡ true
  pub le_total : (a b : F) → le a b ≡ false → le b a ≡ true
  pub of_int_mono : (a b : ℤ) → a ≤ℤ b → le (of_int a) (of_int b) ≡ true
  pub of_int_strict : (a b : ℕ) → a < b → b < 2 ^ 53 → le (of_int (pos b)) (of_int (pos a)) ≡ false
  pub zero_add : (a : F) → add (of_int (pos 0)) a ≡ a
  pub add_mono : (a b c : F) → le a b ≡ true → le (add a c) (add b c) ≡ true
  pub mul_mono_left :
      (a b c : F) → le (of_int (pos 0)) c ≡ true → le a b ≡ true → le (mul c a) (mul c b) ≡ true
  pub mul_mono_right :
      (a b c : F) → le (of_int (pos 0)) c ≡ true → le a b ≡ true → le (mul a c) (mul b c) ≡ true
  pub div_mono :
      (a b c : F) → le c (of_int (pos 0)) ≡ false → le a b ≡ true → le (div a c) (div b c) ≡ true
  pub mul_exact :
      (a b : ℕ) → a * b < 2 ^ 53 → mul (of_int (pos a)) (of_int (pos b)) ≡ of_int (pos (a * b))
  pub div_exact :
      (a b : ℕ)
      → 0 < b
      → a * b < 2 ^ 53
      → div (of_int (pos (a * b))) (of_int (pos b)) ≡ of_int (pos a)
  pub trunc_mono : (a b : F) → le a b ≡ true → trunc a ≤ℤ trunc b
  pub trunc_of_int : (a : ℕ) → a < 2 ^ 53 → trunc (of_int (pos a)) ≡ pos a
  pub mul_one : (a : F) → mul a (of_int (pos 1)) ≡ a
  pub trunc_below_next : (a : F) → le a (of_int (trunc a +ℤ pos 1)) ≡ true
  -- A quotient of positive integers, with a divisor that decimal literals have.
  pub div_pos :
      (a b : ℕ)
      → 0 < a
      → a < 2 ^ 53
      → 0 < b
      → b ≤ 100
      → le (div (of_int (pos a)) (of_int (pos b))) (of_int (pos 0)) ≡ false
