-- ===== src/Storage/Chunk.antt =====
-- A chunk of a quick list (src/storage/value/quicklist.rs): the strings of some elements in one
-- buffer, the offsets where each ends and the next begins, and the number of offsets in front that
-- are dead. A `none` is a panic; spare capacity is left out.
pub mod Packed
pub mod Push
pub mod Append
pub mod Pop
pub mod Held
use fyro_db.Prelude.{
  ℕ, zero, suc, ◌+◌, ◌-◌, ◌/◌, ◌%◌, ◌^◌, max, Bool, ◌&&◌, ◌||◌, Option, none, some, List, [], ◌∷◌,
  ◌++◌, ltb, leb, ◌==◌, if◌then◌else◌, ◌>>=◌, length, get_elem?, set, take, drop, replicate, map,
}
use fyro_db.Cluster.Topology.{Text}

pub record Chunk : Type 0 where
  pub bytes : List ℕ
  pub offs : List ℕ
  pub head : ℕ

abbrev pub chunk_entries : ℕ
chunk_entries = 128

abbrev pub chunk_bytes : ℕ
chunk_bytes = 4096

abbrev pub front_slots : ℕ
front_slots = 16

-- `Chunk::new`
abbrev pub new_chunk : Chunk
new_chunk = record { bytes = []; offs = 0 ∷ []; head = 0 }

-- `Chunk::len`
unfoldable pub chunk_len : Chunk → ℕ
chunk_len c = length c.offs - 1 - c.head

-- `&data[from..to]`
unfoldable pub slice : ℕ → ℕ → List ℕ → Option Text
slice from to bytes =
    if leb from to && leb to (length bytes) then some (take (to - from) (drop from bytes)) else none

unfoldable pub live_bytes : Chunk → Option ℕ
live_bytes c = do base ← get_elem? c.offs c.head; some (length c.bytes - base)

-- The element at an index of the offsets.
unfoldable pub at_offset : Chunk → ℕ → Option Text
unfolding slice
at_offset c i = do from ← get_elem? c.offs i; to ← get_elem? c.offs (i + 1); slice from to c.bytes

-- `Chunk::get`
unfoldable pub chunk_get : Chunk → ℕ → Option Text
unfolding at_offset
chunk_get c j = at_offset c (c.head + j)

unfoldable pub rebuild : ℕ → ℕ → Chunk → Option Chunk
unfolding slice
rebuild slots gap c = do
  base ← get_elem? c.offs c.head
  live ← slice base (length c.bytes) c.bytes
  some (record {
    bytes = replicate gap 0 ++ live;
    offs =
        replicate slots (gap % 2 ^ 32) ++ map (λ o. (o - base + gap) % 2 ^ 32) (drop c.head c.offs);
    head = slots;
  })

unfoldable pub seal : Chunk → Option Chunk
unfolding rebuild
seal c = if ltb 0 c.head then rebuild 0 0 c else some c

unfoldable pub full_back : Chunk → Bool
unfolding chunk_len
full_back c = leb chunk_entries (chunk_len c) || leb chunk_bytes (length c.bytes)

unfoldable pub full_front : Chunk → Option Bool
unfolding chunk_len live_bytes
full_front c = do
  live ← live_bytes c
  some (leb chunk_entries (chunk_len c) || leb chunk_bytes live)

-- `Chunk::push_back`
unfoldable pub append_to : Text → Chunk → Chunk
append_to s c = record c {
  bytes = c.bytes ++ s;
  offs = c.offs ++ ((length c.bytes + length s) % 2 ^ 32) ∷ [];
}

-- The part of `Chunk::push_front` that makes room in front of the first element.
unfoldable pub with_room : Text → Chunk → Option Chunk
unfolding rebuild
with_room s c = do
  base ← get_elem? c.offs c.head
  if c.head == 0 || ltb base (length s)
      then rebuild front_slots (max (max (length s) ((length c.bytes - base) / 2)) 64) c
      else some c

-- The write in front of the first element, to `data[start..end]`.
unfoldable pub write_front : Text → Chunk → Option Chunk
write_front s c = do
  end ← get_elem? c.offs c.head
  if leb (length s) end && leb end (length c.bytes)
      then some (record {
        bytes = take (end - length s) c.bytes ++ (s ++ drop end c.bytes);
        offs = set c.offs (c.head - 1) ((end - length s) % 2 ^ 32);
        head = c.head - 1;
      })
      else none

-- `Chunk::push_front`
unfoldable pub prepend_to : Text → Chunk → Option Chunk
unfolding with_room write_front
prepend_to s c = do c ← with_room s c; write_front s c

unfoldable pub reset_if_empty : Chunk → Chunk
unfolding chunk_len
reset_if_empty c = if chunk_len c == 0 then new_chunk else c

-- `Chunk::pop_back_with`, with the element itself as the result
unfoldable pub drop_back : Chunk → Option (Text × Chunk)
unfolding reset_if_empty slice
drop_back c = do
  start ← if ltb (length c.offs) 2 then none else get_elem? c.offs (length c.offs - 2)
  s ← slice start (length c.bytes) c.bytes
  some (
    s,
    reset_if_empty
        (record c { bytes = take start c.bytes; offs = take (length c.offs - 1) c.offs }),
  )

-- `Chunk::pop_front_with`
unfoldable pub drop_front : Chunk → Option (Text × Chunk)
unfolding reset_if_empty chunk_get
drop_front c = do s ← chunk_get c 0; some (s, reset_if_empty (record c { head = c.head + 1 }))

-- `Chunk::from_iter`
unfoldable pub append_all : List Text → Chunk → Chunk
unfolding append_to
append_all [] c = c
append_all (s ∷ items) c = append_all items (append_to s c)

-- `Chunk::iter`, from an index of the offsets, for some elements
unfoldable pub iter_from : Chunk → ℕ → ℕ → Option (List Text)
unfolding at_offset
iter_from c i zero = some []
iter_from c i (suc n) = do s ← at_offset c i; rest ← iter_from c (i + 1) n; some (s ∷ rest)

unfoldable pub chunk_iter : Chunk → Option (List Text)
unfolding iter_from
chunk_iter c = iter_from c c.head (length c.offs - 1 - c.head)
