-- ===== src/Base/Fixed.antt =====
-- Fixed-point numbers with six decimals satisfy the laws that are asked of floats, so the laws
-- can hold; the examples run on them.
use revenue_recovery_voice_a.Base.Int.{ℤ, pos, negsuc, pos_part, neg_part, leb_ℤ, ◌≤ℤ◌, ◌+ℤ◌, ◌-ℤ◌}
use revenue_recovery_voice_a.Base.Floats.{FloatOps}
use Prim.Native.Nat.{ℕ, zero, suc, ◌*◌, ◌/◌, ◌^◌, ◌<◌, ◌≤◌}
use mathlib.Core.Path.{◌≡◌, refl, ap}
use native.Mathlib.Nat.{mul_comm}
use mathlib.Core.Bool.{true, false}
use native.Mathlib.Omega.{arith}

-- The magnitude of a negative number, back to an integer.
abbrev pub minus : ℕ → ℤ
minus zero = pos 0
minus (suc n) = negsuc n

unfoldable pub scale : ℤ → ℤ
scale (pos n) = pos (n * 1000000)
scale (negsuc n) = minus (suc n * 1000000)

unfoldable pub times : ℤ → ℤ → ℤ
times (pos a) (pos b) = pos (a * b / 1000000)
times (pos a) (negsuc b) = minus (a * suc b / 1000000)
times (negsuc a) (pos b) = minus (suc a * b / 1000000)
times (negsuc a) (negsuc b) = pos (suc a * suc b / 1000000)

unfoldable pub over : ℤ → ℤ → ℤ
over (pos a) (pos b) = pos (a * 1000000 / b)
over (pos a) (negsuc b) = minus (a * 1000000 / suc b)
over (negsuc a) (pos b) = minus (suc a * 1000000 / b)
over (negsuc a) (negsuc b) = pos (suc a * 1000000 / suc b)

unfoldable pub towards_zero : ℤ → ℤ
towards_zero (pos a) = pos (a / 1000000)
towards_zero (negsuc a) = minus (suc a / 1000000)

minus_parts : (n : ℕ) → (pos_part (minus n) ≡ 0) × (neg_part (minus n) ≡ n)
minus_parts zero = (refl, refl)
minus_parts (suc n) = (refl, refl)

div_le : (a b c : ℕ) → a ≤ b → a / c ≤ b / c
div_le a b c h = grind arith

mul_le : (a b c : ℕ) → a ≤ b → c * a ≤ c * b
mul_le a b c h = grind arith

div_positive : (x y : ℕ) → y ≤ x → 0 < y → 0 < x / y
div_positive x y h k = grind arith

mul_div_cancel : (x y : ℕ) {z : ℕ} → 0 < y → z ≡ x * y → z / y ≡ x
mul_div_cancel x y h e = grind arith

pub le_refl_lem : (a : ℤ) → leb_ℤ a a ≡ true
le_refl_lem a = ground arith

pub le_trans_lem : (a b c : ℤ) → leb_ℤ a b ≡ true → leb_ℤ b c ≡ true → leb_ℤ a c ≡ true
le_trans_lem a b c h k = ground arith

pub le_total_lem : (a b : ℤ) → leb_ℤ a b ≡ false → leb_ℤ b a ≡ true
le_total_lem a b h = ground arith

pub scale_mono : (a b : ℤ) → a ≤ℤ b → leb_ℤ (scale a) (scale b) ≡ true
unfolding scale
scale_mono a b h = ground arith

pub scale_strict : (a b : ℕ) → a < b → b < 2 ^ 53 → leb_ℤ (scale (pos b)) (scale (pos a)) ≡ false
unfolding scale
scale_strict a b h k = ground arith

pub zero_add_lem : (a : ℤ) → scale (pos 0) +ℤ a ≡ a
unfolding scale ◌+ℤ◌
zero_add_lem a = ground arith

pub add_mono_lem : (a b c : ℤ) → leb_ℤ a b ≡ true → leb_ℤ (a +ℤ c) (b +ℤ c) ≡ true
unfolding ◌+ℤ◌
add_mono_lem a b c h = ground arith

pub times_mono_left :
    (a b c : ℤ)
    → leb_ℤ (scale (pos 0)) c ≡ true
    → leb_ℤ a b ≡ true
    → leb_ℤ (times c a) (times c b) ≡ true
unfolding times scale
times_mono_left (pos a) (pos b) (pos c) p h =
    ground (arith, mul_le a b c, div_le (c * a) (c * b) 1000000)
times_mono_left (pos a) (negsuc b) (pos c) p h = ground arith
times_mono_left (negsuc a) (pos b) (pos c) p h = ground (arith, minus_parts (c * suc a / 1000000))
times_mono_left (negsuc a) (negsuc b) (pos c) p h = ground (
  arith,
  mul_le (suc b) (suc a) c,
  div_le (c * suc b) (c * suc a) 1000000,
  minus_parts (c * suc a / 1000000),
  minus_parts (c * suc b / 1000000),
)
times_mono_left a b (negsuc c) p h = ground arith

times_comm : (a b : ℤ) → times a b ≡ times b a
unfolding times
times_comm (pos a) (pos b) = ap (λ (n : ℕ). pos (n / 1000000)) (mul_comm a b)
times_comm (pos a) (negsuc b) = ap (λ (n : ℕ). minus (n / 1000000)) (mul_comm a (suc b))
times_comm (negsuc a) (pos b) = ap (λ (n : ℕ). minus (n / 1000000)) (mul_comm (suc a) b)
times_comm (negsuc a) (negsuc b) = ap (λ (n : ℕ). pos (n / 1000000)) (mul_comm (suc a) (suc b))

pub over_mono :
    (a b c : ℤ)
    → leb_ℤ c (scale (pos 0)) ≡ false
    → leb_ℤ a b ≡ true
    → leb_ℤ (over a c) (over b c) ≡ true
unfolding over scale
over_mono (pos a) (pos b) (pos c) p h = ground (arith, div_le (a * 1000000) (b * 1000000) c)
over_mono (pos a) (negsuc b) (pos c) p h = ground arith
over_mono (negsuc a) (pos b) (pos c) p h = ground (arith, minus_parts (suc a * 1000000 / c))
over_mono (negsuc a) (negsuc b) (pos c) p h = ground (
  arith,
  div_le (suc b * 1000000) (suc a * 1000000) c,
  minus_parts (suc a * 1000000 / c),
  minus_parts (suc b * 1000000 / c),
)
over_mono a b (negsuc c) p h = ground arith

pub times_exact :
    (a b : ℕ) → a * b < 2 ^ 53 → times (scale (pos a)) (scale (pos b)) ≡ scale (pos (a * b))
unfolding times scale
times_exact a b h = ground arith

pub over_exact :
    (a b : ℕ) → 0 < b → a * b < 2 ^ 53 → over (scale (pos (a * b))) (scale (pos b)) ≡ scale (pos a)
unfolding over scale
over_exact a b h k = ap pos (mul_div_cancel (a * 1000000) (b * 1000000) (omega arith) (omega arith))

pub trunc_mono_lem : (a b : ℤ) → leb_ℤ a b ≡ true → towards_zero a ≤ℤ towards_zero b
unfolding towards_zero
trunc_mono_lem (pos a) (pos b) h = ground (arith, div_le a b 1000000)
trunc_mono_lem (pos a) (negsuc b) h = ground arith
trunc_mono_lem (negsuc a) (pos b) h = ground (arith, minus_parts (suc a / 1000000))
trunc_mono_lem (negsuc a) (negsuc b) h = ground (
  arith,
  div_le (suc b) (suc a) 1000000,
  minus_parts (suc a / 1000000),
  minus_parts (suc b / 1000000),
)

pub trunc_scale : (a : ℕ) → a < 2 ^ 53 → towards_zero (scale (pos a)) ≡ pos a
unfolding towards_zero scale
trunc_scale a h = ground arith

pub times_mono_right :
    (a b c : ℤ)
    → leb_ℤ (scale (pos 0)) c ≡ true
    → leb_ℤ a b ≡ true
    → leb_ℤ (times a c) (times b c) ≡ true
times_mono_right a b c p h = rw (times_comm a c, times_comm b c) (times_mono_left a b c p h)

pub times_one : (a : ℤ) → times a (scale (pos 1)) ≡ a
unfolding times scale
times_one (pos a) = ap pos (mul_div_cancel a 1000000 (omega arith) refl)
times_one (negsuc a) = ap minus (mul_div_cancel (suc a) 1000000 (omega arith) refl)

pub towards_zero_next : (a : ℤ) → leb_ℤ a (scale (towards_zero a +ℤ pos 1)) ≡ true
unfolding towards_zero scale ◌+ℤ◌
towards_zero_next (pos a) = ground arith
towards_zero_next (negsuc a) = ground arith

pub over_pos :
    (a b : ℕ)
    → 0 < a
    → a < 2 ^ 53
    → 0 < b
    → b ≤ 100
    → leb_ℤ (over (scale (pos a)) (scale (pos b))) (scale (pos 0)) ≡ false
unfolding over scale
over_pos a b h k l m =
    ground (arith, div_positive (a * 1000000 * 1000000) (b * 1000000) (omega arith) (omega arith))

abbrev pub fixed : FloatOps
fixed = record {
  F = ℤ;
  of_int = scale;
  add = ◌+ℤ◌;
  sub = ◌-ℤ◌;
  mul = times;
  div = over;
  le = leb_ℤ;
  trunc = towards_zero;
  round = λ x n. x;
  le_refl = le_refl_lem;
  le_trans = le_trans_lem;
  le_total = le_total_lem;
  of_int_mono = scale_mono;
  of_int_strict = scale_strict;
  zero_add = zero_add_lem;
  add_mono = add_mono_lem;
  mul_mono_left = times_mono_left;
  mul_mono_right = times_mono_right;
  div_mono = over_mono;
  mul_exact = times_exact;
  div_exact = over_exact;
  trunc_mono = trunc_mono_lem;
  trunc_of_int = trunc_scale;
  mul_one = times_one;
  trunc_below_next = towards_zero_next;
  div_pos = over_pos;
}
