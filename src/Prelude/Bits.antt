-- ===== src/Prelude/Bits.antt =====
-- Exclusive or at variables: digit by digit, its group laws, and how it meets shifts. The laws of
-- a mask stand in the child.
pub mod Mask
use Prim.Native.Nat.{
  ℕ, zero, suc, ◌+◌, ◌*◌, ◌/◌, ◌%◌, ◌^◌, ◌≤◌, ◌<◌, bit_xor, digits, differ, bit_xor-bitwise,
}
use mathlib.Core.Path.{◌≡◌, refl, sym, ◌∙◌, ap, ap₂}
use native.Mathlib.Nat.{le_refl, pow-suc, add-zero, mod-lt, div-add-mod', one-le-pow}
use native.Mathlib.Omega.{arith}

-- More fuel than the first number is never used.
more_fuel :
    (n m a b : ℕ) → a ≤ n → a ≤ m → digits (λ y. y) differ n a b ≡ digits (λ y. y) differ m a b
more_fuel zero zero a b p q = refl
more_fuel zero (suc m) zero b p q = refl
more_fuel zero (suc m) (suc a) b p q = absurd (omega arith)
more_fuel (suc n) zero zero b p q = refl
more_fuel (suc n) zero (suc a) b p q = absurd (omega arith)
more_fuel (suc n) (suc m) zero b p q = refl
more_fuel (suc n) (suc m) (suc a) b p q =
    rw (more_fuel n m (suc a / 2) (b / 2) (omega arith) (omega arith))

pub zero-xor : (b : ℕ) → bit_xor 0 b ≡ b
zero-xor b = bit_xor-bitwise 0 b

differ_digit : (a b : ℕ) → a < 2 → b < 2 → differ a b ≡ (a + b) % 2
differ_digit zero b p q = omega arith
differ_digit (suc zero) zero p q = refl
differ_digit (suc zero) (suc zero) p q = refl
differ_digit (suc zero) (suc (suc b)) p q = absurd (omega arith)
differ_digit (suc (suc a)) b p q = absurd (omega arith)

-- The lowest digit of an exclusive or is that of the sum; the others are those of the halves.
pub xor_step : (a b : ℕ) → bit_xor a b ≡ bit_xor (a / 2) (b / 2) * 2 + (a + b) % 2
xor_step zero b = omega (arith, zero-xor b, zero-xor (b / 2))
xor_step (suc a) b = omega (
  arith,
  bit_xor-bitwise (suc a) b,
  bit_xor-bitwise (suc a / 2) (b / 2),
  more_fuel a (suc a / 2) (suc a / 2) (b / 2) (omega arith) (le_refl _),
  differ_digit (suc a % 2) (b % 2) (omega arith) (omega arith),
)

xor-zero_below : (n a : ℕ) → a ≤ n → bit_xor a 0 ≡ a
xor-zero_below n zero h = refl
xor-zero_below zero (suc a) h = absurd (omega arith)
xor-zero_below (suc n) (suc a) h =
    omega (arith, xor_step (suc a) 0, xor-zero_below n (suc a / 2) (omega arith))

pub xor-zero : (a : ℕ) → bit_xor a 0 ≡ a
xor-zero a = xor-zero_below a a (le_refl a)

xor_comm_below : (n a b : ℕ) → a ≤ n → bit_xor a b ≡ bit_xor b a
xor_comm_below n zero b h = zero-xor b ∙ sym (xor-zero b)
xor_comm_below zero (suc a) b h = absurd (omega arith)
xor_comm_below (suc n) (suc a) b h = omega (
  arith,
  xor_step (suc a) b,
  xor_step b (suc a),
  xor_comm_below n (suc a / 2) (b / 2) (omega arith),
)

pub xor_comm : (a b : ℕ) → bit_xor a b ≡ bit_xor b a
xor_comm a b = xor_comm_below a a b (le_refl a)

xor_self_below : (n a : ℕ) → a ≤ n → bit_xor a a ≡ 0
xor_self_below n zero h = refl
xor_self_below zero (suc a) h = absurd (omega arith)
xor_self_below (suc n) (suc a) h =
    omega (arith, xor_step (suc a) (suc a), xor_self_below n (suc a / 2) (omega arith))

pub xor_self : (a : ℕ) → bit_xor a a ≡ 0
xor_self a = xor_self_below a a (le_refl a)

-- The half and the last digit of an exclusive or, as `omega` uses them.
xor_half : (a b : ℕ) → bit_xor a b / 2 ≡ bit_xor (a / 2) (b / 2)
xor_half a b = omega (arith, xor_step a b)

xor_digit : (a b : ℕ) → bit_xor a b % 2 ≡ (a + b) % 2
xor_digit a b = omega (arith, xor_step a b)

xor_assoc_below : (n a b c : ℕ) → a ≤ n → bit_xor (bit_xor a b) c ≡ bit_xor a (bit_xor b c)
xor_assoc_below n zero b c h = ap (λ t. bit_xor t c) (zero-xor b) ∙ sym (zero-xor (bit_xor b c))
xor_assoc_below zero (suc a) b c h = absurd (omega arith)
xor_assoc_below (suc n) (suc a) b c h = omega (
  arith,
  xor_step (bit_xor (suc a) b) c,
  xor_step (suc a) (bit_xor b c),
  xor_digit (suc a) b,
  xor_digit b c,
  ap (λ t. bit_xor t (c / 2)) (xor_half (suc a) b),
  ap (λ t. bit_xor (suc a / 2) t) (xor_half b c),
  xor_assoc_below n (suc a / 2) (b / 2) (c / 2) (omega arith),
)

pub xor_assoc : (a b c : ℕ) → bit_xor (bit_xor a b) c ≡ bit_xor a (bit_xor b c)
xor_assoc a b c = xor_assoc_below a a b c (le_refl a)

-- The four-fold exchange.
pub xor_swap :
    (a b c d : ℕ) → bit_xor (bit_xor a b) (bit_xor c d) ≡ bit_xor (bit_xor a c) (bit_xor b d)
xor_swap a b c d =
    xor_assoc a b (bit_xor c d)
    ∙ ap (bit_xor a)
        (sym (xor_assoc b c d) ∙ ap (λ t. bit_xor t d) (xor_comm b c) ∙ xor_assoc c b d)
    ∙ sym (xor_assoc a c (bit_xor b d))

two_pow_suc : (a k : ℕ) → a * 2 ^ suc k ≡ 2 * (a * 2 ^ k)
two_pow_suc a k = omega (arith, ap (λ (t : ℕ). a * t) (pow-suc 2 k))

-- High and low fields are combined separately.
pub xor_fields :
    (k a b r s : ℕ)
    → r < 2 ^ k
    → s < 2 ^ k
    → bit_xor (a * 2 ^ k + r) (b * 2 ^ k + s) ≡ bit_xor a b * 2 ^ k + bit_xor r s
xor_fields zero a b r s p q = ground arith
xor_fields (suc k) a b r s p q = ground (
  arith,
  xor_step (a * 2 ^ suc k + r) (b * 2 ^ suc k + s),
  xor_step r s,
  two_pow_suc a k,
  two_pow_suc b k,
  two_pow_suc (bit_xor a b) k,
  xor_fields k a b (r / 2) (s / 2) (omega arith),
)

pub xor-lt : (k a b : ℕ) → a < 2 ^ k → b < 2 ^ k → bit_xor a b < 2 ^ k
xor-lt zero a b p q = ground arith
xor-lt (suc k) a b p q =
    omega (arith, xor_step a b, xor-lt k (a / 2) (b / 2) (omega arith) (omega arith), pow-suc 2 k)

-- Shifting left, shifting right and masking all distribute over exclusive or.
pub xor_shl : (k a b : ℕ) → bit_xor (a * 2 ^ k) (b * 2 ^ k) ≡ bit_xor a b * 2 ^ k
xor_shl zero a b = ground arith
xor_shl (suc k) a b = ground (
  arith,
  xor_step (a * 2 ^ suc k) (b * 2 ^ suc k),
  two_pow_suc a k,
  two_pow_suc b k,
  two_pow_suc (bit_xor a b) k,
  xor_shl k a b,
)

pub two_pow_pos : (k : ℕ) → 0 < 2 ^ k
two_pow_pos k = one-le-pow k 2 (omega arith)

xor_split :
    (k a b : ℕ)
    → bit_xor a b ≡ bit_xor (a / 2 ^ k) (b / 2 ^ k) * 2 ^ k + bit_xor (a % 2 ^ k) (b % 2 ^ k)
xor_split k a b =
    ap₂ bit_xor (sym (div-add-mod' a (2 ^ k))) (sym (div-add-mod' b (2 ^ k)))
    ∙ xor_fields k (a / 2 ^ k) (b / 2 ^ k) (a % 2 ^ k) (b % 2 ^ k) (mod-lt a (two_pow_pos k))
        (mod-lt b (two_pow_pos k))

xor_low-lt : (k a b : ℕ) → bit_xor (a % 2 ^ k) (b % 2 ^ k) < 2 ^ k
xor_low-lt k a b =
    xor-lt k (a % 2 ^ k) (b % 2 ^ k) (mod-lt a (two_pow_pos k)) (mod-lt b (two_pow_pos k))

pub xor_shr : (k a b : ℕ) → bit_xor a b / 2 ^ k ≡ bit_xor (a / 2 ^ k) (b / 2 ^ k)
xor_shr k a b = grind (arith, xor_split k a b, xor_low-lt k a b, two_pow_pos k)

pub xor_low : (k a b : ℕ) → bit_xor a b % 2 ^ k ≡ bit_xor (a % 2 ^ k) (b % 2 ^ k)
xor_low k a b = omega (
  arith,
  xor_split k a b,
  ap (λ t. t * 2 ^ k) (xor_shr k a b),
  div-add-mod' (bit_xor a b) (2 ^ k),
)

-- Disjoint fields add up.
pub xor_disjoint : (k a r : ℕ) → r < 2 ^ k → bit_xor (a * 2 ^ k) r ≡ a * 2 ^ k + r
xor_disjoint k a r h =
    ground (arith, xor_fields k a 0 0 r, xor-zero a, zero-xor r, add-zero (a * 2 ^ k))
