-- ===== src/Cluster/Hash.antt =====
-- Hash slots (src/cluster/hash.rs): slots and slot ranges, the hash tag of a key, and CRC-16 by
-- eight tables. Keys are lists of bytes. A table of the source is a function from its index.
pub mod Slicing
pub mod Tag
pub mod Tests
use fyro_db.Prelude.{
  ℕ, zero, suc, ◌+◌, ◌*◌, ◌/◌, ◌%◌, ◌^◌, bit_and, bit_xor, Bool, ◌&&◌, Option, none, some, List, [],
  ◌∷◌, ltb, leb, ◌==◌, if◌then◌else◌, drop, take,
}

abbrev pub hash_slots : ℕ
hash_slots = 16384

pub record Slot : Type 0 where
  pub value : ℕ

-- `Slot::new`
unfoldable pub new_slot : ℕ → Option Slot
new_slot value = if ltb value hash_slots then some (record { value = value }) else none

pub record SlotRange : Type 0 where
  pub start : Slot
  pub end : Slot

-- `SlotRange::new`
unfoldable pub new_range : Slot → Slot → Option SlotRange
new_range start end =
    if leb start.value end.value then some (record { start = start; end = end }) else none

unfoldable pub contains : SlotRange → Slot → Bool
contains range slot = leb range.start.value slot.value && leb slot.value range.end.value

-- One round of the inner loop of `build_crc16_tables`, on a `u16`.
crc16_round : ℕ → ℕ
crc16_round crc =
    if bit_and crc 0x8000 == 0 then crc * 2 % 2 ^ 16 else bit_xor (crc * 2 % 2 ^ 16) 0x1021

crc16_rounds : ℕ → ℕ → ℕ
crc16_rounds zero crc = crc
crc16_rounds (suc n) crc = crc16_rounds n (crc16_round crc)

-- `CRC16_TABLES[0][index]`
pub crc16_table0 : ℕ → ℕ
unfolding crc16_round crc16_rounds
crc16_table0 index = crc16_rounds 8 (index * 2 ^ 8 % 2 ^ 16)

-- `CRC16_TABLES[slice][index]`
pub crc16_table : ℕ → ℕ → ℕ
unfolding crc16_table0
crc16_table zero index = crc16_table0 index
crc16_table (suc slice) index =
    let previous = crc16_table slice index in
    bit_xor (previous * 2 ^ 8 % 2 ^ 16) (crc16_table0 (previous / 2 ^ 8))

-- The body of the loop over the remainder.
pub crc16_byte : ℕ → ℕ → ℕ
crc16_byte crc byte = bit_xor (crc * 2 ^ 8 % 2 ^ 16) (crc16_table 0 (bit_xor (crc / 2 ^ 8) byte))

-- The body of the loop over the chunks of eight bytes.
pub crc16_chunk : ℕ → ℕ → ℕ → ℕ → ℕ → ℕ → ℕ → ℕ → ℕ → ℕ
crc16_chunk crc b0 b1 b2 b3 b4 b5 b6 b7 =
    let head = bit_xor crc (b0 * 2 ^ 8 + b1) in
    bit_xor
      (bit_xor
        (bit_xor
          (bit_xor
            (bit_xor
              (bit_xor (bit_xor (crc16_table 7 (head / 2 ^ 8)) (crc16_table 6 (bit_and head 0xff)))
                (crc16_table 5 b2))
              (crc16_table 4 b3))
            (crc16_table 3 b4))
          (crc16_table 2 b5))
        (crc16_table 1 b6))
      (crc16_table 0 b7)

pub crc16_remainder : ℕ → List ℕ → ℕ
crc16_remainder crc [] = crc
crc16_remainder crc (byte ∷ bytes) = crc16_remainder (crc16_byte crc byte) bytes

pub crc16_chunks : ℕ → List ℕ → ℕ
crc16_chunks crc (b0 ∷ b1 ∷ b2 ∷ b3 ∷ b4 ∷ b5 ∷ b6 ∷ b7 ∷ bytes) =
    crc16_chunks (crc16_chunk crc b0 b1 b2 b3 b4 b5 b6 b7) bytes
crc16_chunks crc remainder = crc16_remainder crc remainder

pub crc16 : List ℕ → ℕ
crc16 bytes = crc16_chunks 0 bytes

-- `memchr::memchr` is a parameter: the position of a byte in a slice.
module _ (memchr : ℕ → List ℕ → Option ℕ) where
  -- What follows the opening brace: the tag if it is closed and not empty, else the whole key.
  close_tag : List ℕ → List ℕ → Option ℕ → List ℕ
  close_tag key rest none = key
  close_tag key rest (some relative_end) = if relative_end == 0 then key else take relative_end rest

  open_tag : List ℕ → Option ℕ → List ℕ
  open_tag key none = key
  open_tag key (some open_at) =
      let rest = drop (open_at + 1) key in close_tag key rest (memchr b'}' rest)

  pub hashtag : List ℕ → List ℕ
  hashtag key = open_tag key (memchr b'{' key)

  unfoldable pub hash_slot : List ℕ → Slot
  hash_slot key = record { value = crc16 (hashtag key) % hash_slots }
