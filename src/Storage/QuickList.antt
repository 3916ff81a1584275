-- ===== src/Storage/QuickList.antt =====
-- The quick list (src/storage/value/quicklist.rs): the elements of a long list in a deque of
-- chunks, with their number. A `none` is a panic; spare capacity is left out, and a function that
-- is handed an element returns the element.
pub mod Ends
pub mod Shrink
pub mod Grow
pub mod Locate
pub mod Walk
pub mod Rewrite
pub mod Edit
pub mod Patch
pub mod Trim
pub mod Trimmed
pub mod Pieces
pub mod Remove
pub mod Range
pub mod Broken
use fyro_db.Prelude.{
  ℕ, zero, suc, ◌+◌, ◌-◌, ◌/◌, Bool, true, false, ◌&&◌, Option, none, some, List, [], ◌∷◌, ◌++◌,
  ltb, leb, ◌==◌, if◌then◌else◌, ◌>>=◌, length, get_elem?, set, take, drop,
}
use fyro_db.Cluster.Topology.{Text}
use fyro_db.Storage.Chunk.{
  Chunk, chunk_entries, chunk_bytes, new_chunk, chunk_len, chunk_get, seal, full_back, full_front,
  append_to, prepend_to, drop_back, drop_front, append_all, chunk_iter,
}

pub record QuickList : Type 0 where
  pub chunks : List Chunk
  pub len : ℕ

-- `QuickList::new`
abbrev pub new_list : QuickList
new_list = record { chunks = []; len = 0 }

-- The match on the last chunk, and the push into it.
unfoldable pub push_last : Text → List Chunk → Option (List Chunk)
unfolding full_back seal append_to
push_last s [] = some (append_to s new_chunk ∷ [])
push_last s (c ∷ []) =
    if full_back c
    then (do sealed ← seal c; some (sealed ∷ append_to s new_chunk ∷ []))
    else some (append_to s c ∷ [])
push_last s (c ∷ next ∷ chunks) = do rest ← push_last s (next ∷ chunks); some (c ∷ rest)

unfoldable pub push_back : Text → QuickList → Option QuickList
unfolding push_last
push_back s q = do chunks ← push_last s q.chunks; some (record { chunks = chunks; len = q.len + 1 })

-- The match on the first chunk, and the push into it.
unfoldable pub push_first : Text → List Chunk → Option (List Chunk)
unfolding full_front seal prepend_to
push_first s [] = do fresh ← prepend_to s new_chunk; some (fresh ∷ [])
push_first s (c ∷ chunks) = do
  full ← full_front c
  if full
      then (do sealed ← seal c; fresh ← prepend_to s new_chunk; some (fresh ∷ sealed ∷ chunks))
      else (do c ← prepend_to s c; some (c ∷ chunks))

unfoldable pub push_front : Text → QuickList → Option QuickList
unfolding push_first
push_front s q = do
  chunks ← push_first s q.chunks
  some (record { chunks = chunks; len = q.len + 1 })

-- A chunk stays in the deque if it holds an element.
unfoldable pub keep_chunk : Chunk → List Chunk → List Chunk
unfolding chunk_len
keep_chunk c chunks = if chunk_len c == 0 then chunks else c ∷ chunks

-- `pop_front_with`
unfoldable pub pop_first : List Chunk → Option (Option Text × List Chunk)
unfolding drop_front keep_chunk
pop_first [] = some (none, [])
pop_first (c ∷ chunks) = do (s, c) ← drop_front c; some (some s, keep_chunk c chunks)

-- `pop_back_with`
unfoldable pub pop_last : List Chunk → Option (Option Text × List Chunk)
unfolding drop_back keep_chunk
pop_last [] = some (none, [])
pop_last (c ∷ []) = do (s, c) ← drop_back c; some (some s, keep_chunk c [])
pop_last (c ∷ next ∷ chunks) = do (popped, rest) ← pop_last (next ∷ chunks); some (popped, c ∷ rest)

-- The number of elements after a pop.
abbrev pub counted : QuickList → Option Text × List Chunk → Option Text × QuickList
counted q (none, chunks) = (none, q)
counted q (some s, chunks) = (some s, record { chunks = chunks; len = q.len - 1 })

unfoldable pub pop_front : QuickList → Option (Option Text × QuickList)
unfolding pop_first
pop_front q = do popped ← pop_first q.chunks; some (counted q popped)

unfoldable pub pop_back : QuickList → Option (Option Text × QuickList)
unfolding pop_last
pop_back q = do popped ← pop_last q.chunks; some (counted q popped)

-- The two loops of `locate`: the chunk and the index in it, counted from the front, and from the
-- back with the chunks in reverse order.
unfoldable pub locate_front : ℕ → ℕ → List Chunk → Option (ℕ × ℕ)
unfolding chunk_len
locate_front ci r [] = none
locate_front ci r (c ∷ chunks) =
    let further = locate_front (ci + 1) (r - chunk_len c) chunks in
    if ltb r (chunk_len c) then some (ci, r) else further

unfoldable pub locate_back : ℕ → List Chunk → Option (ℕ × ℕ)
unfolding chunk_len
locate_back r [] = none
locate_back r (c ∷ chunks) =
    let further = locate_back (r - chunk_len c) chunks in
    if ltb r (chunk_len c) then some (length chunks, chunk_len c - 1 - r) else further

abbrev pub backwards {ℓ} : {A : Type ℓ} → List A → List A
backwards [] = []
backwards (x ∷ xs) = backwards xs ++ x ∷ []

unfoldable pub locate : ℕ → QuickList → Option (ℕ × ℕ)
unfolding locate_front locate_back
locate idx q =
    if leb q.len idx
    then none
    else if ltb idx (q.len / 2)
    then locate_front 0 idx q.chunks
    else locate_back (q.len - 1 - idx) (backwards q.chunks)

unfoldable pub get : ℕ → QuickList → Option (Option Text)
unfolding locate chunk_get
get idx q = elim (locate idx q) [
  | none ↦ some none
  | some (ci, j) ↦ do c ← get_elem? q.chunks ci; s ← chunk_get c j; some (some s)
]

unfoldable pub iter : List Chunk → Option (List Text)
unfolding chunk_iter
iter [] = some []
iter (c ∷ chunks) = do items ← chunk_iter c; rest ← iter chunks; some (items ++ rest)

-- The iteration whose first chunk skips some elements.
unfoldable pub iter_from_chunk : ℕ → List Chunk → Option (List Text)
unfolding iter
iter_from_chunk j [] = some []
iter_from_chunk j (c ∷ chunks) = do
  items ← chunk_iter c
  rest ← iter chunks
  some (drop j items ++ rest)

abbrev pub or_end : QuickList → Option (ℕ × ℕ) → ℕ × ℕ
or_end q none = (length q.chunks, 0)
or_end q (some found) = found

unfoldable pub range : ℕ → ℕ → QuickList → Option (List Text)
unfolding locate iter_from_chunk
range start count q =
    let (ci, j) = or_end q (locate start q) in
    iter_from_chunk j (drop ci q.chunks) >>= λ items. some (take count items)

abbrev pub total_bytes : List Text → ℕ
total_bytes [] = 0
total_bytes (s ∷ items) = length s + total_bytes items

unfoldable pub rewrite_chunk : ℕ → List Text → QuickList → Option QuickList
unfolding chunk_len append_all
rewrite_chunk ci items q = do
  c ← get_elem? q.chunks ci
  let len = q.len - chunk_len c + length items
  let mid = length items / 2
  some (record {
    chunks =
        if length items == 0
        then take ci q.chunks ++ drop (ci + 1) q.chunks
        else if leb (length items) chunk_entries && leb (total_bytes items) chunk_bytes
        then take ci q.chunks ++ append_all items new_chunk ∷ drop (ci + 1) q.chunks
        else take ci q.chunks
          ++ append_all (take mid items) new_chunk
            ∷ append_all (drop mid items) new_chunk
            ∷ drop (ci + 1) q.chunks;
    len = len;
  })

-- `QuickList::set`, with whether the index was in range
unfoldable pub assign : ℕ → Text → QuickList → Option (Bool × QuickList)
unfolding locate rewrite_chunk chunk_iter
assign idx value q = elim (locate idx q) [
  | none ↦ some (false, q)
  | some (ci, j) ↦ do
    c ← get_elem? q.chunks ci
    items ← chunk_iter c
    q ← if ltb j (length items) then rewrite_chunk ci (set items j value) q else none
    some (true, q)
]

-- `QuickList::insert`
unfoldable pub insert_at : ℕ → Text → QuickList → Option QuickList
unfolding locate rewrite_chunk chunk_iter push_front push_back
insert_at idx value q =
    if idx == 0
    then push_front value q
    else if leb q.len idx
    then push_back value q
    else elim (locate idx q) [
      | none ↦ none
      | some (ci, j) ↦ do
        c ← get_elem? q.chunks ci
        items ← chunk_iter c
        if leb j (length items)
            then rewrite_chunk ci (take j items ++ value ∷ drop j items) q
            else none
    ]
