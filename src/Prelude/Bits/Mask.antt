-- ===== src/Prelude/Bits/Mask.antt =====
-- `x & mask` at variables, for a mask of one bit and for a mask of low ones.
use Prim.Native.Nat.{
  ℕ, zero, suc, ◌+◌, ◌-◌, ◌*◌, ◌/◌, ◌%◌, ◌^◌, ◌≤◌, min, bit_and, digits, bit_and-bitwise,
}
use mathlib.Core.Path.{◌≡◌, refl, ap}
use native.Mathlib.Nat.{le_refl, pow-suc, div-add-mod', div-div-eq-div-mul, mul_assoc, one-le-pow}
use native.Mathlib.Omega.{arith}

enough_fuel : (n m a b : ℕ) → a ≤ n → a ≤ m → digits (λ _. 0) min n a b ≡ digits (λ _. 0) min m a b
enough_fuel zero zero a b p q = refl
enough_fuel zero (suc m) zero b p q = refl
enough_fuel zero (suc m) (suc a) b p q = absurd (omega arith)
enough_fuel (suc n) zero zero b p q = refl
enough_fuel (suc n) zero (suc a) b p q = absurd (omega arith)
enough_fuel (suc n) (suc m) zero b p q = refl
enough_fuel (suc n) (suc m) (suc a) b p q =
    rw (enough_fuel n m (suc a / 2) (b / 2) (omega arith) (omega arith))

zero-and : (b : ℕ) → bit_and 0 b ≡ 0
zero-and b = bit_and-bitwise 0 b

pub and_step : (a b : ℕ) → bit_and a b ≡ bit_and (a / 2) (b / 2) * 2 + min (a % 2) (b % 2)
and_step zero b = omega (arith, zero-and b, zero-and (b / 2))
and_step (suc a) b = omega (
  arith,
  bit_and-bitwise (suc a) b,
  bit_and-bitwise (suc a / 2) (b / 2),
  enough_fuel a (suc a / 2) (suc a / 2) (b / 2) (omega arith) (le_refl _),
)

and-zero_below : (n a : ℕ) → a ≤ n → bit_and a 0 ≡ 0
and-zero_below n zero h = refl
and-zero_below zero (suc a) h = absurd (omega arith)
and-zero_below (suc n) (suc a) h =
    omega (arith, and_step (suc a) 0, and-zero_below n (suc a / 2) (omega arith))

pub and-zero : (a : ℕ) → bit_and a 0 ≡ 0
and-zero a = and-zero_below a a (le_refl a)

-- `x & (1 << k)` is the digit of weight 2 ^ k, in its place.
pub and_bit : (k a : ℕ) → bit_and a (2 ^ k) ≡ a / 2 ^ k % 2 * 2 ^ k
and_bit zero a = omega (arith, and_step a 1, and-zero (a / 2))
and_bit (suc k) a = rw two_pow (
    ground (
      arith,
      and_step a (2 * 2 ^ k),
      and_bit k (a / 2),
      div-div-eq-div-mul a 2 (2 ^ k),
      mul_assoc (a / 2 / 2 ^ k % 2) 2 (2 ^ k),
    ))
  where
    two_pow : 2 ^ suc k ≡ 2 * 2 ^ k
    two_pow = omega (arith, pow-suc 2 k)

low_suc : (k a : ℕ) → a % 2 ^ suc k ≡ a / 2 % 2 ^ k * 2 + a % 2
low_suc k a = omega (
  arith,
  two_pow,
  div-div-eq-div-mul a 2 (2 ^ k),
  div-add-mod' (a / 2) (2 ^ k),
  div-add-mod' a (2 ^ suc k),
  ap (λ t. a / 2 / 2 ^ k * t) two_pow,
  ap (λ t. a / t * 2 ^ suc k) two_pow,
  ap (λ t. t * 2 ^ suc k) (div-div-eq-div-mul a 2 (2 ^ k)),
)
  where
    two_pow : 2 ^ suc k ≡ 2 * 2 ^ k
    two_pow = omega (arith, pow-suc 2 k)

-- `x & ((1 << k) - 1)` keeps the `k` low digits.
pub and_ones : (k a : ℕ) → bit_and a (2 ^ k - 1) ≡ a % 2 ^ k
and_ones zero a = ground (arith, and-zero a)
and_ones (suc k) a = ground (
  arith,
  pow-suc 2 k,
  one-le-pow k 2 (omega arith),
  and_step a (2 ^ suc k - 1),
  and_ones k (a / 2),
  low_suc k a,
)
