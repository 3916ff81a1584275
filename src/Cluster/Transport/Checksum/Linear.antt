-- ===== src/Cluster/Transport/Checksum/Linear.antt =====
-- The tables of the CRC-32 are linear under exclusive or, and hold 32-bit values.
use mathlib.Core.Path.{ap₂}
use fyro_db.Prelude.{
  ℕ, zero, suc, ◌/◌, ◌%◌, ◌^◌, ◌<◌, bit_and, bit_xor, ◌≡◌, refl, sym, ap, ◌∙◌, arith, ◌==◌,
  if◌then◌else◌,
}
use fyro_db.Prelude.Bits.{xor_shr, xor_low, xor_swap, xor_assoc, xor-zero, zero-xor, xor-lt}
use fyro_db.Prelude.Bits.Mask.{and_bit, and_ones}
use fyro_db.Cluster.Transport.Checksum.{
  crc32_round, crc32_rounds, crc32_table0, crc32_table, crc32_byte,
}

-- The round without its test: the last digit selects the polynomial.
poly : ℕ → ℕ
poly digit = if digit == 0 then 0 else 0xedb8_8320

round_lem : (x : ℕ) → crc32_round x ≡ bit_xor (x / 2) (poly (x % 2))
unfolding crc32_round poly
round_lem x = ground (arith, and_bit 0 x, xor-zero (x / 2))

poly-xor : (a b : ℕ) → a < 2 → b < 2 → poly (bit_xor a b) ≡ bit_xor (poly a) (poly b)
unfolding poly
poly-xor zero b p q = ap poly (zero-xor b) ∙ sym (zero-xor (poly b))
poly-xor (suc zero) zero p q = refl
poly-xor (suc zero) (suc zero) p q = refl
poly-xor (suc zero) (suc (suc b)) p q = absurd (omega arith)
poly-xor (suc (suc a)) b p q = absurd (omega arith)

poly-lt : (a : ℕ) → poly a < 2 ^ 32
unfolding poly
poly-lt a = ground arith

round-xor : (x y : ℕ) → crc32_round (bit_xor x y) ≡ bit_xor (crc32_round x) (crc32_round y)
round-xor x y =
    round_lem (bit_xor x y)
    ∙ ap₂ bit_xor (xor_shr 1 x y)
        (ap poly (xor_low 1 x y) ∙ poly-xor (x % 2) (y % 2) (omega arith) (omega arith))
    ∙ xor_swap _ _ _ _
    ∙ sym (ap₂ bit_xor (round_lem x) (round_lem y))

round-lt : (x : ℕ) → x < 2 ^ 32 → crc32_round x < 2 ^ 32
round-lt x h = rw round_lem (xor-lt 32 (x / 2) (poly (x % 2)) (omega arith) (poly-lt (x % 2)))

pub rounds-xor :
    (n x y : ℕ) → crc32_rounds n (bit_xor x y) ≡ bit_xor (crc32_rounds n x) (crc32_rounds n y)
unfolding crc32_rounds
rounds-xor zero x y = refl
rounds-xor (suc n) x y =
    ap (crc32_rounds n) (round-xor x y) ∙ rounds-xor n (crc32_round x) (crc32_round y)

rounds-lt : (n x : ℕ) → x < 2 ^ 32 → crc32_rounds n x < 2 ^ 32
unfolding crc32_rounds
rounds-lt zero x h = h
rounds-lt (suc n) x h = rounds-lt n (crc32_round x) (round-lt x h)

-- A step by a zero byte.
pub advance : ℕ → ℕ
advance x = bit_xor (x / 2 ^ 8) (crc32_table 0 (x % 2 ^ 8))

pub advance_lem : (x : ℕ) → advance x ≡ bit_xor (x / 2 ^ 8) (crc32_table 0 (x % 2 ^ 8))
unfolding advance
advance_lem x = refl

table0-xor : (x y : ℕ) → crc32_table0 (bit_xor x y) ≡ bit_xor (crc32_table0 x) (crc32_table0 y)
table0-xor x y = unfold crc32_table0 in rounds-xor 8 x y

table_zero-xor :
    (x y : ℕ) → crc32_table 0 (bit_xor x y) ≡ bit_xor (crc32_table 0 x) (crc32_table 0 y)
table_zero-xor x y = unfold crc32_table in table0-xor x y

pub advance-xor : (x y : ℕ) → advance (bit_xor x y) ≡ bit_xor (advance x) (advance y)
unfolding advance
advance-xor x y =
    ap₂ bit_xor (xor_shr 8 x y) (ap (crc32_table 0) (xor_low 8 x y) ∙ table_zero-xor _ _)
    ∙ xor_swap _ _ _ _

pub table_zero : (i : ℕ) → crc32_table 0 i ≡ crc32_table0 i
unfolding crc32_table
table_zero i = refl

table_step :
    (k i : ℕ)
    → crc32_table (suc k) i
      ≡ bit_xor (crc32_table k i / 2 ^ 8) (crc32_table0 (bit_and (crc32_table k i) 0xff))
unfolding crc32_table
table_step k i = refl

pub table-suc : (k i : ℕ) → advance (crc32_table k i) ≡ crc32_table (suc k) i
unfolding advance
table-suc k i =
    ap (bit_xor (crc32_table k i / 2 ^ 8))
      (table_zero _ ∙ ap crc32_table0 (sym (and_ones 8 (crc32_table k i))))
    ∙ sym (table_step k i)

pub table-xor :
    (k x y : ℕ) → crc32_table k (bit_xor x y) ≡ bit_xor (crc32_table k x) (crc32_table k y)
table-xor zero x y = table_zero-xor x y
table-xor (suc k) x y =
    sym (table-suc k (bit_xor x y))
    ∙ ap advance (table-xor k x y)
    ∙ advance-xor _ _
    ∙ ap₂ bit_xor (table-suc k x) (table-suc k y)

pub table0-lt : (i : ℕ) → i < 2 ^ 32 → crc32_table 0 i < 2 ^ 32
table0-lt i h = rw table_zero (unfold crc32_table0 in rounds-lt 8 i h)

pub byte_lem : (crc b : ℕ) → b < 2 ^ 8 → crc32_byte crc b ≡ bit_xor (advance crc) (crc32_table 0 b)
unfolding crc32_byte advance
byte_lem crc b h =
    ap (bit_xor (crc / 2 ^ 8)) (ap (crc32_table 0) low ∙ table-xor 0 (crc % 2 ^ 8) b)
    ∙ sym (xor_assoc _ _ _)
  where
    low : bit_and (bit_xor crc b) 0xff ≡ bit_xor (crc % 2 ^ 8) b
    low = and_ones 8 (bit_xor crc b) ∙ xor_low 8 crc b ∙ ap (bit_xor (crc % 2 ^ 8)) (omega arith)

pub byte-lt : (crc b : ℕ) → crc < 2 ^ 32 → b < 2 ^ 8 → crc32_byte crc b < 2 ^ 32
byte-lt crc b hc hb =
    rw (byte_lem crc b hb)
      (xor-lt 32 (advance crc) (crc32_table 0 b) advanced (table0-lt b (omega arith)))
  where
    advanced : advance crc < 2 ^ 32
    advanced =
        unfold advance in
        xor-lt 32 (crc / 2 ^ 8) (crc32_table 0 (crc % 2 ^ 8)) (omega arith)
          (table0-lt (crc % 2 ^ 8) (omega arith))
