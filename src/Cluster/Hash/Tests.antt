-- ===== src/Cluster/Hash/Tests.antt =====
-- The vectors of the repository's tests, and the theorems at concrete keys.
use mathlib.Core.Option
use fyro_db.Prelude.{
  ℕ, zero, suc, ◌≡◌, ◌≢◌, refl, Option, none, some, List, [], ◌∷◌, arith, All, get_elem?, take,
  ◌==◌, if◌then◌else◌, codes,
}
use fyro_db.Cluster.Hash.{
  hash_slot, hashtag, crc16, crc16_remainder, open_tag, close_tag, crc16_chunks, crc16_chunk,
  crc16_byte, crc16_table,
}
use fyro_db.Cluster.Hash.Tag.{FindsFirst, hash_slot-tag}
use fyro_db.Cluster.Hash.Slicing.{crc16-eq-bytewise}

-- A `memchr` that meets what the theorems assume of it.
abbrev pub position : ℕ → List ℕ → Option ℕ
position c [] = none
position c (b ∷ bytes) = if b == c then some 0 else Option.map suc (position c bytes)

position_found :
    (c : ℕ) (bytes : List ℕ) (i : ℕ)
    → position c bytes ≡ some i
    → (get_elem? bytes i ≡ some c) × All (λ b. b ≢ c) (take i bytes)
position_found c [] i e = cc
position_found c (b ∷ bytes) zero e = ground arith
position_found c (b ∷ bytes) (suc i) e = ground (arith, position_found c bytes i)

position_missing : (c : ℕ) (bytes : List ℕ) → position c bytes ≡ none → All (λ b. b ≢ c) bytes
position_missing c [] e = tt
position_missing c (b ∷ bytes) e = ground (arith, position_missing c bytes)

pub position-FindsFirst : FindsFirst position
position-FindsFirst = record { found = position_found; missing = position_missing }

slot_foo : (hash_slot position (codes "foo")).value ≡ 12182
unfolding hash_slot crc16 crc16_chunks hashtag open_tag crc16_remainder crc16_byte crc16_table
slot_foo = refl

pub slot_b : (hash_slot position (codes "b")).value ≡ 3300
unfolding hash_slot crc16 crc16_chunks hashtag open_tag crc16_remainder crc16_byte crc16_table
slot_b = refl

slot_user : (hash_slot position (codes "{user1000}.following")).value ≡ 3443
unfolding hash_slot crc16 crc16_chunks hashtag open_tag close_tag crc16_remainder crc16_chunk
    crc16_byte crc16_table
slot_user = refl

check_value : crc16 (codes "123456789") ≡ 0x31c3
unfolding crc16 crc16_chunks crc16_remainder crc16_chunk crc16_byte crc16_table
check_value = refl

crc16-eq-bytewise_example : crc16 (codes "123456789") ≡ crc16_remainder 0 (codes "123456789")
crc16-eq-bytewise_example = crc16-eq-bytewise (codes "123456789") (omega arith)

hash_slot-tag_example :
    (hashtag position (codes "foo{bar}") ≡ codes "bar")
    × (hash_slot position (codes "foo{bar}") ≡ hash_slot position (codes "{bar}"))
hash_slot-tag_example =
    hash_slot-tag position-FindsFirst (codes "foo") [] [] [] b'b' (codes "ar") (omega arith) tt
      (omega arith)
