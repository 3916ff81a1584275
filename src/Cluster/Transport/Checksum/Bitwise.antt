-- ===== src/Cluster/Transport/Checksum/Bitwise.antt =====
-- The checksum of src/cluster/transport/codec.rs is CRC-32, bit by bit.
use mathlib.Core.Path.{ap₂}
use native.Mathlib.Numerals.{unary_clauses}
use fyro_db.Prelude.{
  ℕ, zero, suc, ◌*◌, ◌/◌, ◌%◌, ◌^◌, ◌<◌, bit_xor, ◌≡◌, refl, sym, ap, ◌∙◌, arith, List, [], ◌∷◌,
  ◌==◌, if◌then◌else◌, All,
}
use fyro_db.Prelude.Bits.{xor_disjoint}
use fyro_db.Prelude.Bits.Mask.{and_bit}
use fyro_db.Cluster.Transport.Checksum.{
  crc32_round, crc32_rounds, crc32_table0, crc32_byte, crc32_remainder, not32, checksum, reference,
}
use fyro_db.Cluster.Transport.Checksum.Linear.{
  advance, advance_lem, rounds-xor, byte_lem, table_zero,
}
use fyro_db.Cluster.Transport.Checksum.Slicing.{checksum-eq-reference}

-- One bit goes out of the register, and the polynomial comes in if it was set.
unfoldable pub shift : ℕ → ℕ
shift register = if register % 2 == 0 then register / 2 else bit_xor (register / 2) 0xedb8_8320

unfoldable pub shift_byte : ℕ → ℕ
shift_byte register = shift (shift (shift (shift (shift (shift (shift (shift register)))))))

-- CRC-32 without tables: every byte is added to the register and shifted through it.
unfoldable pub crc32 : ℕ → List ℕ → ℕ
crc32 register [] = register
crc32 register (byte ∷ bytes) = crc32 (shift_byte (bit_xor register byte)) bytes

round-shift : (x : ℕ) → crc32_round x ≡ shift x
unfolding crc32_round shift
round-shift x = ground (arith, and_bit 0 x)

rounds-shift_byte : (x : ℕ) → crc32_rounds 8 x ≡ shift_byte x
unfolding crc32_rounds shift_byte
rounds-shift_byte x = simp round-shift refl

round_even : (x : ℕ) → crc32_round (x * 2) ≡ x
unfolding shift
round_even x = round-shift (x * 2) ∙ ground arith

-- Zeros behind a number go out first.
rounds_even : (n x : ℕ) → crc32_rounds n (x * 2 ^ n) ≡ x
unfolding crc32_rounds
rounds_even zero x = omega arith
rounds_even (suc n) x =
    let apart : x * 2 ^ suc n ≡ (x * 2 ^ n) * 2 = simp unary_clauses (omega arith) in
    ap (λ t. crc32_rounds n (crc32_round t)) apart
    ∙ ap (crc32_rounds n) (round_even (x * 2 ^ n))
    ∙ rounds_even n x

advance-rounds : (x : ℕ) → advance x ≡ crc32_rounds 8 x
unfolding crc32_table0
advance-rounds x =
    let whole : bit_xor (x / 2 ^ 8 * 2 ^ 8) (x % 2 ^ 8) ≡ x =
      xor_disjoint 8 (x / 2 ^ 8) (x % 2 ^ 8) (omega arith) ∙ omega arith in
    advance_lem x
    ∙ ap₂ bit_xor (sym (rounds_even 8 (x / 2 ^ 8))) (table_zero (x % 2 ^ 8))
    ∙ sym (rounds-xor 8 (x / 2 ^ 8 * 2 ^ 8) (x % 2 ^ 8))
    ∙ ap (crc32_rounds 8) whole

byte-shift_byte : (crc b : ℕ) → b < 2 ^ 8 → crc32_byte crc b ≡ shift_byte (bit_xor crc b)
unfolding crc32_table0
byte-shift_byte crc b h =
    byte_lem crc b h
    ∙ ap₂ bit_xor (advance-rounds crc) (table_zero b)
    ∙ sym (rounds-xor 8 crc b)
    ∙ rounds-shift_byte (bit_xor crc b)

remainder-crc32 :
    (crc : ℕ) (bytes : List ℕ)
    → All (λ b. b < 2 ^ 8) bytes
    → crc32_remainder crc bytes ≡ crc32 crc bytes
unfolding crc32_remainder crc32
remainder-crc32 crc [] h = refl
remainder-crc32 crc (b ∷ bytes) (hb, h) =
    remainder-crc32 (crc32_byte crc b) bytes h ∙ ap (λ t. crc32 t bytes) (byte-shift_byte crc b hb)

-- For every sequence of bytes the checksum by chunks of eight bytes and eight tables is the CRC-32
-- that shifts bit by bit, with a register of ones before and the ones' complement behind, and it
-- is a `u32`.
pub checksum-crc32 :
    (bytes : List ℕ)
    → All (λ b. b < 2 ^ 8) bytes
    → (checksum bytes ≡ bit_xor (crc32 0xffff_ffff bytes) 0xffff_ffff) × (checksum bytes < 2 ^ 32)
unfolding reference not32
checksum-crc32 bytes h =
    let (e, small) = checksum-eq-reference bytes h in
    (e ∙ ap (λ t. bit_xor t 0xffff_ffff) (remainder-crc32 (bit_xor 0 0xffff_ffff) bytes h), small)
