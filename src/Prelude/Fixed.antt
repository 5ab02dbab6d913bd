-- ===== src/Prelude/Fixed.antt =====
-- Decimals and floats in fixed point. A `Decimal` or a finite `float` of the program is the whole
-- number of 10^-18 that it holds; a product of two is in 10^-36, and is compared there. The
-- rounding of Python's decimal context (28 digits) and of binary floats is not modelled.
use Prim.Native.Nat.{ℕ, zero, suc, ◌+◌, ◌*◌, ◌/◌, ◌%◌, ◌≤◌, ◌<◌}
use mathlib.Core.Path.{◌≡◌}
use mathlib.Core.Logic.{◌⊎◌, inl, inr}
use mathlib.Core.Bool.{true, false, Bool, ◌||◌, ◌&&◌}
use native.Mathlib.Omega.{arith}
use native.Mathlib.Nat.{
  div-mul-le_self, lt-div-mul-add, le-div_iff_mul-le, le_trans, div-zero, div-add-mod, mod-lt,
  div-le_of_le-mul,
}
use jd_holdings.Prelude.Tests.{ltb, ◌==◌, if◌then◌else◌, Bool-cases}

-- Decimal("1")
abbrev pub one : ℕ
one = 1_000_000_000_000_000_000

-- Decimal("0.01")
abbrev pub cent : ℕ
cent = 10_000_000_000_000_000

-- Decimal("0.0001")
abbrev pub basis_point : ℕ
basis_point = 100_000_000_000_000

-- The whole part of a / b.
unfoldable pub floor_div : ℕ → ℕ → ℕ
floor_div a b = a / b

-- a / b rounded up.
unfoldable pub ceil_div : ℕ → ℕ → ℕ
ceil_div a b = if a % b == 0 then a / b else a / b + 1

-- Whether a remainder `r` of a division by `b` with the quotient `q` rounds up: a tie goes to the
-- even number.
rounds_up : ℕ → ℕ → ℕ → Bool
rounds_up b r q = ltb b (2 * r) || ((2 * r == b) && (q % 2 == 1))

-- a / b rounded to the nearest whole number: `quantize`.
unfoldable pub round_div : ℕ → ℕ → ℕ
unfolding rounds_up
round_div a b = if rounds_up b (a % b) (a / b) then a / b + 1 else a / b

rounds_up-true : (b r q : ℕ) → rounds_up b r q ≡ true → b ≤ 2 * r
unfolding rounds_up
rounds_up-true b r q h = ground arith

rounds_up-false : (b r q : ℕ) → rounds_up b r q ≡ false → 2 * r ≤ b
unfolding rounds_up
rounds_up-false b r q h = ground arith

pub floor_div-le : (a b : ℕ) → floor_div a b * b ≤ a
unfolding floor_div
floor_div-le a b = div-mul-le_self a b

pub lt-floor_div : (a b : ℕ) → 0 < b → a < (floor_div a b + 1) * b
unfolding floor_div
lt-floor_div a b h = omega (arith, lt-div-mul-add {a = a} h)

-- The least whole multiple that is not below.
pub ceil_div_bounds : (a b : ℕ) → 0 < b → (a ≤ ceil_div a b * b) × (ceil_div a b * b < a + b)
unfolding ceil_div
ceil_div_bounds a b h = grind (arith, div-mul-le_self a b, lt-div-mul-add {a = a} h)

div_mono : (a b c : ℕ) → a ≤ b → a / c ≤ b / c
div_mono a b zero h = omega (arith, div-zero a, div-zero b)
div_mono a b (suc c) h =
    (le-div_iff_mul-le (omega arith)).1 (le_trans (div-mul-le_self a (suc c)) h)

pub floor_div_mono : (a b c : ℕ) → a ≤ b → floor_div a c ≤ floor_div b c
unfolding floor_div
floor_div_mono a b c h = div_mono a b c h

pub ceil_div_mono : (a b c : ℕ) → a ≤ b → ceil_div a c ≤ ceil_div b c
unfolding ceil_div
ceil_div_mono a b c h = elim (Bool-cases (a / c == b / c)) [
  | inl e ↦ ground (arith, div-add-mod a c, div-add-mod b c)
  | inr e ↦ ground (arith, div_mono a b c h)
]

round_div_cases :
    (a b : ℕ)
    → ((round_div a b ≡ a / b + 1) × (b ≤ 2 * (a % b)))
      ⊎ ((round_div a b ≡ a / b) × (2 * (a % b) ≤ b))
unfolding round_div
round_div_cases a b = elim (Bool-cases (rounds_up b (a % b) (a / b))) [
  | inl up ↦ inl (rw up, rounds_up-true b (a % b) (a / b) up)
  | inr down ↦ inr (rw down, rounds_up-false b (a % b) (a / b) down)
]

-- A rounded quotient is at most half a divisor away.
pub round_div_near :
    (a b : ℕ)
    → 0 < b
    → (2 * a ≤ 2 * (round_div a b * b) + b) × (2 * (round_div a b * b) ≤ 2 * a + b)
round_div_near a b h = elim (round_div_cases a b) [
  | inl (e, r) ↦ rw e (omega (arith, div-add-mod a b, mod-lt a h))
  | inr (e, r) ↦ rw e (omega (arith, div-add-mod a b))
]

-- Rounding does not pass a whole number.
pub round_div-le : (a b n : ℕ) → 0 < b → a ≤ n * b → round_div a b ≤ n
round_div-le a b n h k =
    let low : a / b ≤ n = div-le_of_le-mul b (omega arith) in
    elim (round_div_cases a b) [
      | inl (e, r) ↦ rw e (grind (arith, div-add-mod a b))
      | inr (e, r) ↦ rw e low
    ]
