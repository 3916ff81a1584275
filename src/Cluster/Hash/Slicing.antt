-- ===== src/Cluster/Hash/Slicing.antt =====
-- The chunked checksum is the bytewise one: the tables are linear under exclusive or.
use fyro_db.Prelude.{
  ℕ, zero, suc, ◌+◌, ◌*◌, ◌/◌, ◌%◌, ◌^◌, ◌<◌, bit_and, bit_xor, ◌≡◌, refl, sym, ap, ◌∙◌, List, [],
  ◌∷◌, arith, ◌==◌, if◌then◌else◌, All,
}
use mathlib.Core.Path.{ap₂}
use fyro_db.Prelude.Bits.{
  xor_shl, xor_shr, xor_low, xor_swap, xor_comm, xor_assoc, xor-zero, zero-xor,
}
use fyro_db.Prelude.Bits.Mask.{and_bit, and_ones}
use fyro_db.Cluster.Hash.{
  crc16_round, crc16_rounds, crc16_table0, crc16_table, crc16_byte, crc16_chunk, crc16_remainder,
  crc16_chunks, crc16,
}

-- The round without its test: the top digit selects the polynomial.
poly : ℕ → ℕ
poly digit = if digit == 0 then 0 else 0x1021

round_lem : (x : ℕ) → crc16_round x ≡ bit_xor (x * 2 % 2 ^ 16) (poly (x / 2 ^ 15 % 2))
unfolding crc16_round poly
round_lem x = ground (arith, and_bit 15 x, xor-zero (x * 2 % 2 ^ 16))

poly-xor : (a b : ℕ) → a < 2 → b < 2 → poly (bit_xor a b) ≡ bit_xor (poly a) (poly b)
unfolding poly
poly-xor zero b p q = ap poly (zero-xor b) ∙ sym (zero-xor (poly b))
poly-xor (suc zero) zero p q = refl
poly-xor (suc zero) (suc zero) p q = refl
poly-xor (suc zero) (suc (suc b)) p q = absurd (omega arith)
poly-xor (suc (suc a)) b p q = absurd (omega arith)

shl16 :
    (k x y : ℕ) → bit_xor x y * 2 ^ k % 2 ^ 16 ≡ bit_xor (x * 2 ^ k % 2 ^ 16) (y * 2 ^ k % 2 ^ 16)
shl16 k x y = ap (λ t. t % 2 ^ 16) (sym (xor_shl k x y)) ∙ xor_low 16 (x * 2 ^ k) (y * 2 ^ k)

digit15 : (x y : ℕ) → bit_xor x y / 2 ^ 15 % 2 ≡ bit_xor (x / 2 ^ 15 % 2) (y / 2 ^ 15 % 2)
digit15 x y = ap (λ t. t % 2) (xor_shr 15 x y) ∙ xor_low 1 (x / 2 ^ 15) (y / 2 ^ 15)

round-xor : (x y : ℕ) → crc16_round (bit_xor x y) ≡ bit_xor (crc16_round x) (crc16_round y)
round-xor x y =
    round_lem (bit_xor x y)
    ∙ ap₂ bit_xor (shl16 1 x y) (
        ap poly (digit15 x y)
        ∙ poly-xor (x / 2 ^ 15 % 2) (y / 2 ^ 15 % 2) (omega arith) (omega arith))
    ∙ xor_swap _ _ _ _
    ∙ sym (ap₂ bit_xor (round_lem x) (round_lem y))

rounds-xor :
    (n x y : ℕ) → crc16_rounds n (bit_xor x y) ≡ bit_xor (crc16_rounds n x) (crc16_rounds n y)
unfolding crc16_rounds
rounds-xor zero x y = refl
rounds-xor (suc n) x y =
    ap (crc16_rounds n) (round-xor x y) ∙ rounds-xor n (crc16_round x) (crc16_round y)

table0-xor : (x y : ℕ) → crc16_table0 (bit_xor x y) ≡ bit_xor (crc16_table0 x) (crc16_table0 y)
table0-xor x y = unfold crc16_table0 in (ap (crc16_rounds 8) (shl16 8 x y) ∙ rounds-xor 8 _ _)

-- A step by a zero byte.
advance : ℕ → ℕ
advance x = bit_xor (x * 2 ^ 8 % 2 ^ 16) (crc16_table0 (x / 2 ^ 8))

advance-xor : (x y : ℕ) → advance (bit_xor x y) ≡ bit_xor (advance x) (advance y)
unfolding advance
advance-xor x y =
    ap₂ bit_xor (shl16 8 x y) (ap crc16_table0 (xor_shr 8 x y) ∙ table0-xor _ _) ∙ xor_swap _ _ _ _

table-suc : (k i : ℕ) → advance (crc16_table k i) ≡ crc16_table (suc k) i
unfolding advance crc16_table
table-suc k i = refl

table-xor : (k x y : ℕ) → crc16_table k (bit_xor x y) ≡ bit_xor (crc16_table k x) (crc16_table k y)
table-xor zero x y = unfold crc16_table in table0-xor x y
table-xor (suc k) x y =
    sym (table-suc k (bit_xor x y))
    ∙ ap advance (table-xor k x y)
    ∙ advance-xor _ _
    ∙ ap₂ bit_xor (table-suc k x) (table-suc k y)

table_zero : (i : ℕ) → crc16_table 0 i ≡ crc16_table0 i
unfolding crc16_table
table_zero i = refl

byte_lem : (crc b : ℕ) → crc16_byte crc b ≡ bit_xor (advance crc) (crc16_table 0 b)
unfolding crc16_byte advance
byte_lem crc b =
    ap (bit_xor (crc * 2 ^ 8 % 2 ^ 16)) (table-xor 0 (crc / 2 ^ 8) b)
    ∙ sym (xor_assoc _ _ _)
    ∙ ap (λ t. bit_xor (bit_xor (crc * 2 ^ 8 % 2 ^ 16) t) (crc16_table 0 b)) (table_zero _)

-- Two steps by a zero byte look both bytes of the checksum up.
advance_low : (y : ℕ) → y < 2 ^ 8 → advance (y * 2 ^ 8) ≡ crc16_table 0 y
unfolding advance
advance_low y h = ap₂ bit_xor zeros (ap crc16_table0 back) ∙ zero-xor _ ∙ sym (table_zero y)
  where
    zeros : y * 2 ^ 8 * 2 ^ 8 % 2 ^ 16 ≡ 0
    zeros = omega arith

    back : y * 2 ^ 8 / 2 ^ 8 ≡ y
    back = omega arith

advance_lem : (x : ℕ) → advance x ≡ bit_xor (x % 2 ^ 8 * 2 ^ 8) (crc16_table 0 (x / 2 ^ 8))
unfolding advance
advance_lem x = ap₂ bit_xor low (sym (table_zero _))
  where
    low : x * 2 ^ 8 % 2 ^ 16 ≡ x % 2 ^ 8 * 2 ^ 8
    low = omega arith

advance_twice :
    (x : ℕ) → advance (advance x) ≡ bit_xor (crc16_table 1 (x / 2 ^ 8)) (crc16_table 0 (x % 2 ^ 8))
advance_twice x =
    ap advance (advance_lem x)
    ∙ advance-xor _ _
    ∙ ap₂ bit_xor (advance_low (x % 2 ^ 8) (omega arith)) (table-suc 0 (x / 2 ^ 8))
    ∙ xor_comm _ _

-- The first two bytes of a chunk.
two_bytes :
    (crc b0 b1 : ℕ)
    → crc16_byte (crc16_byte crc b0) b1
      ≡ bit_xor
          (bit_xor (crc16_table 1 (crc / 2 ^ 8)) (crc16_table 0 (crc % 2 ^ 8)))
          (bit_xor (crc16_table 1 b0) (crc16_table 0 b1))
two_bytes crc b0 b1 = simp (byte_lem, advance-xor, table-suc, advance_twice, xor_assoc)

head_lem :
    (k crc b0 b1 : ℕ)
    → b1 < 2 ^ 8
    → let head = bit_xor crc (b0 * 2 ^ 8 + b1) in
      bit_xor (crc16_table (suc k) (head / 2 ^ 8)) (crc16_table k (bit_and head 0xff))
      ≡ bit_xor
          (bit_xor (crc16_table (suc k) (crc / 2 ^ 8)) (crc16_table k (crc % 2 ^ 8)))
          (bit_xor (crc16_table (suc k) b0) (crc16_table k b1))
head_lem k crc b0 b1 h =
    ap₂ bit_xor (ap (crc16_table (suc k)) high ∙ table-xor (suc k) _ _)
      (ap (crc16_table k) low ∙ table-xor k _ _)
    ∙ xor_swap _ _ _ _
  where
    high : bit_xor crc (b0 * 2 ^ 8 + b1) / 2 ^ 8 ≡ bit_xor (crc / 2 ^ 8) b0
    high = xor_shr 8 crc (b0 * 2 ^ 8 + b1) ∙ ap (bit_xor (crc / 2 ^ 8)) (omega arith)

    low : bit_and (bit_xor crc (b0 * 2 ^ 8 + b1)) 0xff ≡ bit_xor (crc % 2 ^ 8) b1
    low =
        and_ones 8 (bit_xor crc (b0 * 2 ^ 8 + b1))
        ∙ xor_low 8 crc (b0 * 2 ^ 8 + b1)
        ∙ ap (bit_xor (crc % 2 ^ 8)) (omega arith)

chunk_lem :
    (crc b0 b1 b2 b3 b4 b5 b6 b7 : ℕ)
    → b1 < 2 ^ 8
    → crc16_chunk crc b0 b1 b2 b3 b4 b5 b6 b7
      ≡ crc16_remainder crc (b0 ∷ b1 ∷ b2 ∷ b3 ∷ b4 ∷ b5 ∷ b6 ∷ b7 ∷ [])
unfolding crc16_chunk crc16_remainder
chunk_lem crc b0 b1 b2 b3 b4 b5 b6 b7 h =
    rw (head_lem 6 crc b0 b1 h, two_bytes crc b0 b1) (simp (byte_lem, advance-xor, table-suc))

chunks_lem :
    (crc : ℕ) (bytes : List ℕ)
    → All (λ b. b < 2 ^ 8) bytes
    → crc16_chunks crc bytes ≡ crc16_remainder crc bytes
unfolding crc16_chunks
chunks_lem crc (b0 ∷ b1 ∷ b2 ∷ b3 ∷ b4 ∷ b5 ∷ b6 ∷ b7 ∷ bytes) h =
    ap (λ t. crc16_chunks t bytes) (chunk_lem crc b0 b1 b2 b3 b4 b5 b6 b7 h.1.0)
    ∙ chunks_lem (crc16_remainder crc (b0 ∷ b1 ∷ b2 ∷ b3 ∷ b4 ∷ b5 ∷ b6 ∷ b7 ∷ [])) bytes
        h.1.1.1.1.1.1.1.1
    ∙ unfold crc16_remainder in refl
chunks_lem crc _ h = refl

-- For every sequence of bytes the chunked checksum, which reads eight bytes a round from eight
-- tables, is the bytewise one, which looks each byte up in the first table.
pub crc16-eq-bytewise :
    (bytes : List ℕ) → All (λ b. b < 2 ^ 8) bytes → crc16 bytes ≡ crc16_remainder 0 bytes
unfolding crc16
crc16-eq-bytewise bytes h = chunks_lem 0 bytes h
