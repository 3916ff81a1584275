-- ===== src/Storage/QuickList/Trim.antt =====
-- `QuickList::trim` of src/storage/value/quicklist.rs, and what it leaves.
use fyro_db.Prelude.{
  ℕ, zero, suc, ◌-◌, Option, some, List, [], ◌∷◌, leb, ◌==◌, if◌then◌else◌, ◌>>=◌,
}
use fyro_db.Storage.Chunk.{Chunk, chunk_len, drop_front, drop_back}
use fyro_db.Storage.QuickList.{QuickList, backwards}

-- `for _ in 0..n` of pops at one end
unfoldable pub drop_fronts : ℕ → Chunk → Option Chunk
unfolding drop_front
drop_fronts zero c = some c
drop_fronts (suc n) c = do (s, c) ← drop_front c; drop_fronts n c

unfoldable pub drop_backs : ℕ → Chunk → Option Chunk
unfolding drop_back
drop_backs zero c = some c
drop_backs (suc n) c = do (s, c) ← drop_back c; drop_backs n c

-- The loop that skips elements in front, with the number of elements.
unfoldable pub trim_front : ℕ → List Chunk → ℕ → Option (List Chunk × ℕ)
unfolding chunk_len drop_fronts
trim_front skip [] len = some ([], len)
trim_front skip (c ∷ chunks) len =
    let further = trim_front (skip - chunk_len c) chunks (len - chunk_len c) in
    if skip == 0
    then some (c ∷ chunks, len)
    else if leb (chunk_len c) skip
    then further
    else (do c ← drop_fronts skip c; some (c ∷ chunks, len - skip))

-- The loop that drops the excess behind, on the chunks in reverse order.
unfoldable pub trim_back : ℕ → List Chunk → ℕ → Option (List Chunk × ℕ)
unfolding chunk_len drop_backs
trim_back keep [] len = some ([], len)
trim_back keep (c ∷ chunks) len =
    let further = trim_back keep chunks (len - chunk_len c) in
    if leb len keep
    then some (c ∷ chunks, len)
    else if leb (chunk_len c) (len - keep)
    then further
    else (do c ← drop_backs (len - keep) c; some (c ∷ chunks, len - (len - keep)))

unfoldable pub trim : ℕ → ℕ → QuickList → Option QuickList
unfolding trim_front trim_back
trim start keep q = do
  (chunks, len) ← trim_front start q.chunks q.len
  (chunks, len) ← trim_back keep (backwards chunks) len
  some (record { chunks = backwards chunks; len = len })
