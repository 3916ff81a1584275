-- ===== src/Cluster/Transport/Checksum.antt =====
-- `checksum` and its tables (src/cluster/transport/codec.rs): CRC-32 by eight tables. A table of
-- the source is a function from its index; `!x` on a `u32` is exclusive or with all ones.
pub mod Linear
pub mod Slicing
pub mod Bitwise
pub mod Eight
use fyro_db.Prelude.{
  ℕ, zero, suc, ◌+◌, ◌*◌, ◌/◌, ◌^◌, bit_and, bit_xor, List, [], ◌∷◌, ◌==◌, if◌then◌else◌,
}

-- One round of the inner loop of `build_crc32_tables`.
unfoldable pub crc32_round : ℕ → ℕ
crc32_round crc = if bit_and crc 1 == 0 then crc / 2 else bit_xor (crc / 2) 0xedb8_8320

unfoldable pub crc32_rounds : ℕ → ℕ → ℕ
crc32_rounds zero crc = crc
crc32_rounds (suc n) crc = crc32_rounds n (crc32_round crc)

-- `CRC32_TABLES[0][index]`
unfoldable pub crc32_table0 : ℕ → ℕ
unfolding crc32_round crc32_rounds
crc32_table0 index = crc32_rounds 8 index

-- `CRC32_TABLES[slice][index]`
unfoldable pub crc32_table : ℕ → ℕ → ℕ
unfolding crc32_table0
crc32_table zero index = crc32_table0 index
crc32_table (suc slice) index =
    let previous = crc32_table slice index in
    bit_xor (previous / 2 ^ 8) (crc32_table0 (bit_and previous 0xff))

-- `u32::from_le_bytes`
unfoldable pub u32_from_le : ℕ → ℕ → ℕ → ℕ → ℕ
u32_from_le b0 b1 b2 b3 = b0 + b1 * 2 ^ 8 + b2 * 2 ^ 16 + b3 * 2 ^ 24

-- The body of the loop over the remainder.
unfoldable pub crc32_byte : ℕ → ℕ → ℕ
crc32_byte crc byte = bit_xor (crc / 2 ^ 8) (crc32_table 0 (bit_and (bit_xor crc byte) 0xff))

-- The eight look-ups of the loop over the chunks.
unfoldable pub crc32_lookups : ℕ → ℕ → ℕ
crc32_lookups low high =
    bit_xor
      (bit_xor
        (bit_xor
          (bit_xor
            (bit_xor
              (bit_xor
                (bit_xor (crc32_table 7 (bit_and low 0xff))
                  (crc32_table 6 (bit_and (low / 2 ^ 8) 0xff)))
                (crc32_table 5 (bit_and (low / 2 ^ 16) 0xff)))
              (crc32_table 4 (low / 2 ^ 24)))
            (crc32_table 3 (bit_and high 0xff)))
          (crc32_table 2 (bit_and (high / 2 ^ 8) 0xff)))
        (crc32_table 1 (bit_and (high / 2 ^ 16) 0xff)))
      (crc32_table 0 (high / 2 ^ 24))

-- The body of the loop over the chunks of eight bytes.
unfoldable pub crc32_chunk : ℕ → ℕ → ℕ → ℕ → ℕ → ℕ → ℕ → ℕ → ℕ → ℕ
unfolding crc32_lookups u32_from_le
crc32_chunk crc b0 b1 b2 b3 b4 b5 b6 b7 =
    crc32_lookups (bit_xor (u32_from_le b0 b1 b2 b3) crc) (u32_from_le b4 b5 b6 b7)

unfoldable pub crc32_remainder : ℕ → List ℕ → ℕ
crc32_remainder crc [] = crc
crc32_remainder crc (byte ∷ bytes) = crc32_remainder (crc32_byte crc byte) bytes

unfoldable pub crc32_chunks : ℕ → List ℕ → ℕ
crc32_chunks crc (b0 ∷ b1 ∷ b2 ∷ b3 ∷ b4 ∷ b5 ∷ b6 ∷ b7 ∷ bytes) =
    crc32_chunks (crc32_chunk crc b0 b1 b2 b3 b4 b5 b6 b7) bytes
crc32_chunks crc remainder = crc32_remainder crc remainder

-- `!x` on a `u32`
unfoldable pub not32 : ℕ → ℕ
not32 x = bit_xor x 0xffff_ffff

unfoldable pub checksum : List ℕ → ℕ
checksum bytes = not32 (crc32_chunks (not32 0) bytes)

-- The bytewise definition, which the repository's tests compare with.
pub reference : List ℕ → ℕ
reference bytes = not32 (crc32_remainder (not32 0) bytes)
