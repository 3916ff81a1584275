-- ===== src/Storage/ListValue.antt =====
-- The list value (src/storage/value/list.rs): a deque of strings that becomes a quick list when it
-- grows, and a deque again when it shrinks. A `none` is a panic.
pub mod Convert
pub mod Ask
pub mod Ends
pub mod Refine
pub mod Build
pub mod Inside
mod Tests
use fyro_db.Prelude.{
  ℕ, ◌+◌, ◌-◌, ◌^◌, min, Bool, true, false, Option, none, some, List, [], ◌∷◌, ◌++◌, ltb, leb,
  if◌then◌else◌, ◌>>=◌, length, get_elem?, set, take, drop,
}
use fyro_db.Cluster.Topology.{Text}
use fyro_db.Storage.QuickList
use fyro_db.Storage.QuickList.{QuickList, new_list}
use fyro_db.Storage.QuickList.Trim.{trim}
use fyro_db.Storage.QuickList.Remove.{flip, remove_some, remove_matching}
use fyro_db.Storage.QuickList.Shrink.{first, others, last, init}

abbrev pub small_max : ℕ
small_max = 128

abbrev pub small_back : ℕ
small_back = 32

pub data ListValue : Type 0 where
  small : List Text → ListValue
  packed : QuickList → ListValue

-- `QuickList::from_strs`, onto a list
unfoldable pub push_all : List Text → QuickList → Option QuickList
push_all [] q = some q
push_all (s ∷ items) q = do q ← QuickList.push_back s q; push_all items q

-- `grow_check`
unfoldable pub grow : List Text → Option ListValue
unfolding push_all
grow items =
    if ltb small_max (length items)
    then (do q ← push_all items new_list; some (packed q))
    else some (small items)

-- `shrink_check`
unfoldable pub shrink : QuickList → Option ListValue
shrink q =
    if leb q.len small_back
    then (do items ← QuickList.iter q.chunks; some (small items))
    else some (packed q)

unfoldable pub list_len : ListValue → ℕ
list_len (small items) = length items
list_len (packed q) = q.len

unfoldable pub list_push_back : Text → ListValue → Option ListValue
unfolding grow
list_push_back s (small items) = grow (items ++ s ∷ [])
list_push_back s (packed q) = do q ← QuickList.push_back s q; some (packed q)

unfoldable pub list_push_front : Text → ListValue → Option ListValue
unfolding grow
list_push_front s (small items) = grow (s ∷ items)
list_push_front s (packed q) = do q ← QuickList.push_front s q; some (packed q)

unfoldable pub list_pop_front : ListValue → Option (Option Text × ListValue)
unfolding shrink
list_pop_front (small items) = some (first items, small (others items))
list_pop_front (packed q) = do (popped, q) ← QuickList.pop_front q; l ← shrink q; some (popped, l)

unfoldable pub list_pop_back : ListValue → Option (Option Text × ListValue)
unfolding shrink
list_pop_back (small items) = some (last items, small (init items))
list_pop_back (packed q) = do (popped, q) ← QuickList.pop_back q; l ← shrink q; some (popped, l)

unfoldable pub list_get : ℕ → ListValue → Option (Option Text)
list_get idx (small items) = some (get_elem? items idx)
list_get idx (packed q) = QuickList.get idx q

-- `range`, whose end saturates
unfoldable pub list_range : ℕ → ℕ → ListValue → Option (List Text)
list_range start count (small items) =
    let end = min (min (start + count) (2 ^ 64 - 1)) (length items) in
    some (take (end - min start end) (drop (min start end) items))
list_range start count (packed q) = QuickList.range start count q

unfoldable pub list_set : ℕ → Text → ListValue → Option (Bool × ListValue)
list_set idx value (small items) = some (ltb idx (length items), small (set items idx value))
list_set idx value (packed q) = do (hit, q) ← QuickList.assign idx value q; some (hit, packed q)

unfoldable pub list_insert : ℕ → Text → ListValue → Option ListValue
unfolding grow
list_insert idx value (small items) =
    let at = min idx (length items) in grow (take at items ++ value ∷ drop at items)
list_insert idx value (packed q) = do q ← QuickList.insert_at idx value q; some (packed q)

unfoldable pub list_trim : ℕ → ℕ → ListValue → Option ListValue
unfolding shrink trim
list_trim start keep (small items) =
    some (small (take keep (drop (min start (length items)) items)))
list_trim start keep (packed q) = do q ← trim start keep q; shrink q

unfoldable pub list_remove_matching : Text → ℕ → Bool → ListValue → Option (ℕ × ListValue)
unfolding shrink remove_some remove_matching
list_remove_matching value limit from_back (small items) =
    let (left, removed) = remove_some value limit (flip from_back items) in
    some (removed, small (flip from_back left))
list_remove_matching value limit from_back (packed q) = do
  (removed, q) ← remove_matching value limit from_back q
  l ← shrink q
  some (removed, l)

-- `clear`
abbrev pub new_value : ListValue
new_value = small []

-- `from_strs`, onto a list value
unfoldable pub list_push_all : List Text → ListValue → Option ListValue
unfolding list_push_back
list_push_all [] l = some l
list_push_all (s ∷ items) l = do l ← list_push_back s l; list_push_all items l
