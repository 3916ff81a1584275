-- ===== src/Storage/QuickList/Remove.antt =====
-- `QuickList::remove_matching` of src/storage/value/quicklist.rs. With the flag the chunks and the
-- elements in each are gone through from the back.
pub mod Elements
pub mod Along
pub mod Both
pub mod Struck
use fyro_db.Prelude.{
  ℕ, zero, suc, ◌+◌, ◌-◌, Bool, true, false, not, Option, none, some, List, [], ◌∷◌, ◌==◌,
  if◌then◌else◌, ◌>>=◌, length, any, bytes_eq,
}
use fyro_db.Cluster.Topology.{Text}
use fyro_db.Storage.Chunk.{Chunk, new_chunk, append_all, chunk_iter}
use fyro_db.Storage.QuickList.{QuickList, backwards}

abbrev pub flip {ℓ} : {A : Type ℓ} → Bool → List A → List A
flip false xs = xs
flip true xs = backwards xs

-- The loop over the elements, which leaves the others and counts what it took out.
unfoldable pub remove_some : Text → ℕ → List Text → List Text × ℕ
remove_some value zero items = (items, 0)
remove_some value (suc limit) [] = ([], 0)
remove_some value (suc limit) (s ∷ items) = elim (bytes_eq s value) [
  | true ↦ let (left, removed) = remove_some value limit items in (left, suc removed)
  | false ↦ let (left, removed) = remove_some value (suc limit) items in (s ∷ left, removed)
]

-- A chunk is rewritten if it has the value, and dropped if nothing is left in it.
unfoldable pub replace_chunk : Bool → Text → Chunk → List Text → List Text → List Chunk → List Chunk
unfolding append_all
replace_chunk from_back value c items left rest =
    if not (any (λ s. bytes_eq s value) items)
    then c ∷ rest
    else if length left == 0
    then rest
    else append_all (flip from_back left) new_chunk ∷ rest

unfoldable pub remove_chunks : Bool → Text → ℕ → List Chunk → Option (List Chunk × ℕ)
unfolding chunk_iter remove_some replace_chunk
remove_chunks from_back value zero chunks = some (chunks, 0)
remove_chunks from_back value (suc limit) [] = some ([], 0)
remove_chunks from_back value (suc limit) (c ∷ chunks) = do
  items ← chunk_iter c
  let (left, removed) = remove_some value (suc limit) (flip from_back items)
  (rest, more) ← remove_chunks from_back value (suc limit - removed) chunks
  some (replace_chunk from_back value c items left rest, removed + more)

unfoldable pub remove_matching : Text → ℕ → Bool → QuickList → Option (ℕ × QuickList)
unfolding remove_chunks
remove_matching value limit from_back q = do
  (chunks, removed) ← remove_chunks from_back value limit (flip from_back q.chunks)
  some (removed, record { chunks = flip from_back chunks; len = q.len - removed })
