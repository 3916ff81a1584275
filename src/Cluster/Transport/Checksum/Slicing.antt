-- ===== src/Cluster/Transport/Checksum/Slicing.antt =====
-- The chunked checksum is the bytewise one.
use fyro_db.Prelude.{ℕ, ◌^◌, ◌<◌, bit_xor, ◌≡◌, refl, sym, ap, ◌∙◌, arith, List, [], ◌∷◌, All}
use fyro_db.Prelude.Bits.{xor-lt}
use fyro_db.Cluster.Transport.Checksum.{
  crc32_table, crc32_byte, crc32_lookups, crc32_chunk, crc32_remainder, crc32_chunks, not32,
  checksum, reference,
}
use fyro_db.Cluster.Transport.Checksum.Linear.{advance-xor, table-suc, byte_lem, byte-lt}
use fyro_db.Cluster.Transport.Checksum.Eight.{weave, le_bytes, low_lookups, advance8}

chunk_lem :
    (crc b0 b1 b2 b3 b4 b5 b6 b7 : ℕ)
    → crc < 2 ^ 32
    → b0 < 2 ^ 8
    → b1 < 2 ^ 8
    → b2 < 2 ^ 8
    → b3 < 2 ^ 8
    → b4 < 2 ^ 8
    → b5 < 2 ^ 8
    → b6 < 2 ^ 8
    → b7 < 2 ^ 8
    → crc32_chunk crc b0 b1 b2 b3 b4 b5 b6 b7
      ≡ crc32_byte
          (crc32_byte
            (crc32_byte
              (crc32_byte (crc32_byte (crc32_byte (crc32_byte (crc32_byte crc b0) b1) b2) b3) b4)
              b5)
            b6)
          b7
unfolding crc32_chunk crc32_lookups
chunk_lem crc b0 b1 b2 b3 b4 b5 b6 b7 hc h0 h1 h2 h3 h4 h5 h6 h7 =
    let (e4, e5, e6, e7) = le_bytes b4 b5 b6 b7 h4 h5 h6 h7 in
    rw (low_lookups b0 b1 b2 b3 h0 h1 h2 h3 crc, e4, e5, e6, e7)
      (sym (
        simp
          (
            λ (c : ℕ). byte_lem c b0 h0,
            λ (c : ℕ). byte_lem c b1 h1,
            λ (c : ℕ). byte_lem c b2 h2,
            λ (c : ℕ). byte_lem c b3 h3,
            λ (c : ℕ). byte_lem c b4 h4,
            λ (c : ℕ). byte_lem c b5 h5,
            λ (c : ℕ). byte_lem c b6 h6,
            λ (c : ℕ). byte_lem c b7 h7,
            advance-xor,
            table-suc,
          )
          (rw (advance8 crc hc) (
            ap
              (λ t.
                bit_xor
                  (bit_xor (bit_xor (bit_xor t (crc32_table 3 b4)) (crc32_table 2 b5))
                    (crc32_table 1 b6))
                  (crc32_table 0 b7))
              (weave _ _ _ _ _ _ _ _)))))

-- Eight bytewise steps stay within 32 bits.
eight-lt :
    (crc b0 b1 b2 b3 b4 b5 b6 b7 : ℕ) (bytes : List ℕ)
    → crc < 2 ^ 32
    → All (λ b. b < 2 ^ 8) (b0 ∷ b1 ∷ b2 ∷ b3 ∷ b4 ∷ b5 ∷ b6 ∷ b7 ∷ bytes)
    → crc32_chunk crc b0 b1 b2 b3 b4 b5 b6 b7 < 2 ^ 32
eight-lt crc b0 b1 b2 b3 b4 b5 b6 b7 bytes hc (h0, (h1, (h2, (h3, (h4, (h5, (h6, (h7, h)))))))) =
    rw (chunk_lem crc b0 b1 b2 b3 b4 b5 b6 b7 hc h0 h1 h2 h3 h4 h5 h6 h7) (
      byte-lt _ b7
        (byte-lt _ b6
          (byte-lt _ b5
            (byte-lt _ b4
              (byte-lt _ b3 (byte-lt _ b2 (byte-lt _ b1 (byte-lt crc b0 hc h0) h1) h2) h3) h4)
            h5)
          h6)
        h7)

chunks_lem :
    (crc : ℕ) (bytes : List ℕ)
    → crc < 2 ^ 32
    → All (λ b. b < 2 ^ 8) bytes
    → crc32_chunks crc bytes ≡ crc32_remainder crc bytes
unfolding crc32_chunks crc32_remainder
chunks_lem crc (b0 ∷ b1 ∷ b2 ∷ b3 ∷ b4 ∷ b5 ∷ b6 ∷ b7 ∷ bytes) hc h =
    chunks_lem (crc32_chunk crc b0 b1 b2 b3 b4 b5 b6 b7) bytes
      (eight-lt crc b0 b1 b2 b3 b4 b5 b6 b7 bytes hc h) h.1.1.1.1.1.1.1.1
    ∙ ap (λ t. crc32_remainder t bytes)
        (chunk_lem crc b0 b1 b2 b3 b4 b5 b6 b7 hc h.0 h.1.0 h.1.1.0 h.1.1.1.0 h.1.1.1.1.0
          h.1.1.1.1.1.0 h.1.1.1.1.1.1.0 h.1.1.1.1.1.1.1.0)
chunks_lem crc _ hc h = refl

remainder-lt :
    (crc : ℕ) (bytes : List ℕ)
    → crc < 2 ^ 32
    → All (λ b. b < 2 ^ 8) bytes
    → crc32_remainder crc bytes < 2 ^ 32
unfolding crc32_remainder
remainder-lt crc [] hc h = hc
remainder-lt crc (b ∷ bytes) hc (hb, h) =
    remainder-lt (crc32_byte crc b) bytes (byte-lt crc b hc hb) h

-- For every sequence of bytes the checksum by chunks of eight bytes and eight tables is the
-- bytewise one, and it is a `u32`.
pub checksum-eq-reference :
    (bytes : List ℕ)
    → All (λ b. b < 2 ^ 8) bytes
    → (checksum bytes ≡ reference bytes) × (checksum bytes < 2 ^ 32)
unfolding checksum reference not32
checksum-eq-reference bytes h =
    let e = chunks_lem (bit_xor 0 0xffff_ffff) bytes (omega arith) h in
    (
      ap not32 e,
      rw e (
          xor-lt 32 _ _ (remainder-lt (bit_xor 0 0xffff_ffff) bytes (omega arith) h) (omega arith)),
    )
