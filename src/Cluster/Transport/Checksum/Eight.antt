-- ===== src/Cluster/Transport/Checksum/Eight.antt =====
-- Eight bytes go through the shift register at once.
use mathlib.Core.Path.{ap₂}
use fyro_db.Prelude.{ℕ, ◌/◌, ◌%◌, ◌^◌, ◌<◌, bit_and, bit_xor, ◌≡◌, sym, ap, ◌∙◌, arith}
use fyro_db.Prelude.Bits.{xor_shr, xor_low, xor_swap, xor_assoc, xor_comm, zero-xor}
use fyro_db.Prelude.Bits.Mask.{and_ones}
use fyro_db.Cluster.Transport.Checksum.{crc32_table, u32_from_le}
use fyro_db.Cluster.Transport.Checksum.Linear.{
  advance, advance_lem, advance-xor, table-suc, table-xor,
}

advance_byte : (x : ℕ) → x < 2 ^ 8 → advance x ≡ crc32_table 0 x
advance_byte x h =
    advance_lem x ∙ ap₂ bit_xor none_left (ap (crc32_table 0) (omega arith)) ∙ zero-xor _
  where
    none_left : x / 2 ^ 8 ≡ 0
    none_left = omega arith

advance2 : (x : ℕ) → advance (advance x) ≡ bit_xor (advance (x / 2 ^ 8)) (crc32_table 1 (x % 2 ^ 8))
advance2 x = ap advance (advance_lem x) ∙ simp (advance-xor, table-suc)

advance3 :
    (x : ℕ)
    → advance (advance (advance x))
      ≡ bit_xor (advance (advance (x / 2 ^ 8))) (crc32_table 2 (x % 2 ^ 8))
advance3 x = ap advance (advance2 x) ∙ simp (advance-xor, table-suc)

reverse4 : (a b c d : ℕ) → bit_xor (bit_xor (bit_xor d c) b) a ≡ bit_xor (bit_xor (bit_xor a b) c) d
reverse4 a b c d =
    xor_comm _ a
    ∙ ap (bit_xor a) (xor_comm _ b ∙ ap (bit_xor b) (xor_comm d c))
    ∙ sym (xor_assoc a b (bit_xor c d))
    ∙ sym (xor_assoc (bit_xor a b) c d)

-- Four steps by a zero byte look all four bytes of a 32-bit checksum up.
advance4 :
    (x : ℕ)
    → x < 2 ^ 32
    → advance (advance (advance (advance x)))
      ≡ bit_xor
          (bit_xor
            (bit_xor (crc32_table 3 (x % 2 ^ 8)) (crc32_table 2 (x / 2 ^ 8 % 2 ^ 8)))
            (crc32_table 1 (x / 2 ^ 16 % 2 ^ 8)))
          (crc32_table 0 (x / 2 ^ 24))
advance4 x h =
    ap advance (advance3 x)
    ∙ simp (advance-xor, table-suc)
        (ap (λ t. bit_xor t (crc32_table 3 (x % 2 ^ 8)))
          (advance3 (x / 2 ^ 8)
            ∙ ap (λ t. bit_xor t (crc32_table 2 (x / 2 ^ 8 % 2 ^ 8)))
                (advance2 (x / 2 ^ 8 / 2 ^ 8)
                  ∙ ap₂ bit_xor (advance_byte _ (omega arith) ∙ ap (crc32_table 0) (omega arith))
                      (ap (crc32_table 1) (omega arith)))))
    ∙ reverse4 _ _ _ _

-- Two rows of four, joined one after the other or column by column.
pub weave :
    (a b c d a' b' c' d' : ℕ)
    → bit_xor (bit_xor (bit_xor (bit_xor (bit_xor (bit_xor (bit_xor a b) c) d) a') b') c') d'
      ≡ bit_xor (bit_xor (bit_xor (bit_xor a a') (bit_xor b b')) (bit_xor c c')) (bit_xor d d')
weave a b c d a' b' c' d' =
    ap (λ t. bit_xor (bit_xor t c') d') (xor_assoc _ a' b')
    ∙ ap (λ t. bit_xor t d') (xor_assoc _ (bit_xor a' b') c')
    ∙ xor_assoc _ (bit_xor (bit_xor a' b') c') d'
    ∙ xor_swap _ d _ d'
    ∙ ap (λ t. bit_xor t (bit_xor d d')) (xor_swap _ c _ c')
    ∙ ap (λ t. bit_xor (bit_xor t (bit_xor c c')) (bit_xor d d')) (xor_swap a b a' b')

-- The four bytes of a little-endian number, as the look-ups take them.
module _ (b0 b1 b2 b3 : ℕ) (h0 : b0 < 2 ^ 8) (h1 : b1 < 2 ^ 8) (h2 : b2 < 2 ^ 8)
    (h3 : b3 < 2 ^ 8) where
  pub le_bytes :
      (bit_and (u32_from_le b0 b1 b2 b3) 0xff ≡ b0)
      × (bit_and (u32_from_le b0 b1 b2 b3 / 2 ^ 8) 0xff ≡ b1)
      × (bit_and (u32_from_le b0 b1 b2 b3 / 2 ^ 16) 0xff ≡ b2)
      × (u32_from_le b0 b1 b2 b3 / 2 ^ 24 ≡ b3)
  unfolding u32_from_le
  le_bytes = (
    and_ones 8 _ ∙ omega arith,
    and_ones 8 _ ∙ omega arith,
    and_ones 8 _ ∙ omega arith,
    omega arith,
  )

  -- A byte of the checksum xored into the number is a byte of each.
  byte_of_xor :
      (k x crc : ℕ)
      → bit_and (u32_from_le b0 b1 b2 b3 / 2 ^ k) 0xff ≡ x
      → bit_and (bit_xor (u32_from_le b0 b1 b2 b3) crc / 2 ^ k) 0xff
        ≡ bit_xor (crc / 2 ^ k % 2 ^ 8) x
  byte_of_xor k x crc e =
      and_ones 8 _
      ∙ ap (λ t. t % 2 ^ 8) (xor_shr k _ crc)
      ∙ xor_low 8 _ _
      ∙ xor_comm _ _
      ∙ ap (bit_xor (crc / 2 ^ k % 2 ^ 8)) (sym (and_ones 8 _) ∙ e)

  pub low_lookups :
      (crc : ℕ)
      → let low = bit_xor (u32_from_le b0 b1 b2 b3) crc in
        bit_xor
          (bit_xor
            (bit_xor
              (crc32_table 7 (bit_and low 0xff))
              (crc32_table 6 (bit_and (low / 2 ^ 8) 0xff)))
            (crc32_table 5 (bit_and (low / 2 ^ 16) 0xff)))
          (crc32_table 4 (low / 2 ^ 24))
        ≡ bit_xor
            (bit_xor
              (bit_xor
                (bit_xor (crc32_table 7 (crc % 2 ^ 8)) (crc32_table 7 b0))
                (bit_xor (crc32_table 6 (crc / 2 ^ 8 % 2 ^ 8)) (crc32_table 6 b1)))
              (bit_xor (crc32_table 5 (crc / 2 ^ 16 % 2 ^ 8)) (crc32_table 5 b2)))
            (bit_xor (crc32_table 4 (crc / 2 ^ 24)) (crc32_table 4 b3))
  low_lookups crc =
      ap₂ bit_xor
        (ap₂ bit_xor
          (ap₂ bit_xor (ap (crc32_table 7) first ∙ table-xor 7 _ _)
            (ap (crc32_table 6) (byte_of_xor 8 b1 crc le_bytes.1) ∙ table-xor 6 _ _))
          (ap (crc32_table 5) (byte_of_xor 16 b2 crc le_bytes.2) ∙ table-xor 5 _ _))
        (ap (crc32_table 4) last ∙ table-xor 4 _ _)
    where
      first : bit_and (bit_xor (u32_from_le b0 b1 b2 b3) crc) 0xff ≡ bit_xor (crc % 2 ^ 8) b0
      first =
          and_ones 8 _
          ∙ xor_low 8 _ crc
          ∙ xor_comm _ _
          ∙ ap (bit_xor (crc % 2 ^ 8)) (sym (and_ones 8 _) ∙ le_bytes.0)

      last : bit_xor (u32_from_le b0 b1 b2 b3) crc / 2 ^ 24 ≡ bit_xor (crc / 2 ^ 24) b3
      last = xor_shr 24 _ crc ∙ xor_comm _ _ ∙ ap (bit_xor (crc / 2 ^ 24)) le_bytes.3

pub advance8 :
    (x : ℕ)
    → x < 2 ^ 32
    → advance (advance (advance (advance (advance (advance (advance (advance x)))))))
      ≡ bit_xor
          (bit_xor
            (bit_xor (crc32_table 7 (x % 2 ^ 8)) (crc32_table 6 (x / 2 ^ 8 % 2 ^ 8)))
            (crc32_table 5 (x / 2 ^ 16 % 2 ^ 8)))
          (crc32_table 4 (x / 2 ^ 24))
advance8 x h =
    ap (λ t. advance (advance (advance (advance t)))) (advance4 x h) ∙ simp (advance-xor, table-suc)
