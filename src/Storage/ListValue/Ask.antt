-- ===== src/Storage/ListValue/Ask.antt =====
-- The calls of a list value, and the same calls of a plain list.
use fyro_db.Prelude.{
  ℕ, ◌+◌, ◌^◌, ◌≤◌, ◌<◌, ◌≡◌, Bool, Option, some, List, [], ◌∷◌, ◌++◌, ltb, ◌>>=◌, All, length,
  get_elem?, set, take, drop,
}
use fyro_db.Cluster.Topology.{Text}
use fyro_db.Storage.Chunk.{chunk_bytes}
use fyro_db.Storage.Chunk.Packed.{join}
use fyro_db.Storage.QuickList.{QuickList}
use fyro_db.Storage.QuickList.Shrink.{first, others, last, init}
use fyro_db.Storage.QuickList.Remove.Struck.{struck}
use fyro_db.Storage.ListValue.{
  ListValue, packed, shrink, new_value, list_len, list_push_back, list_push_front, list_pop_front,
  list_pop_back, list_get, list_range, list_set, list_insert, list_trim, list_remove_matching,
}
use fyro_db.Storage.ListValue.Convert.{Short, Shape}

-- What a client asks of a list, and what it is answered.
pub data Ask : Type 0 where
  put_last put_first : Text → Ask
  take_first take_last count clear : Ask
  read : ℕ → Ask
  slice keep : ℕ → ℕ → Ask
  write insert : ℕ → Text → Ask
  remove : Text → ℕ → Bool → Ask

pub data Reply : Type 0 where
  done : Reply
  number : ℕ → Reply
  element : Option Text → Reply
  elements : List Text → Reply
  hit : Bool → Reply

abbrev pub changed : Option ListValue → Option (Reply × ListValue)
changed result = result >>= λ l. some (done, l)

abbrev pub with_answer : Option Text → ListValue → Option (Option Text × ListValue)
with_answer x l = some (x, l)

abbrev pub in_place : Bool × QuickList → Option (Bool × ListValue)
in_place written = some (written.0, packed written.1)

abbrev pub was_hit : Option (Bool × ListValue) → Option (Reply × ListValue)
was_hit result = result >>= λ written. some (hit written.0, written.1)

abbrev pub told : ℕ → ListValue → Option (ℕ × ListValue)
told n l = some (n, l)

abbrev pub settle_count : ℕ × QuickList → Option (ℕ × ListValue)
settle_count removed = shrink removed.1 >>= told removed.0

abbrev pub as_number : ℕ × ListValue → Option (Reply × ListValue)
as_number removed = some (number removed.0, removed.1)

abbrev pub settle : Option Text × QuickList → Option (Option Text × ListValue)
settle popped = shrink popped.1 >>= with_answer popped.0

abbrev pub answered : Option (Option Text × ListValue) → Option (Reply × ListValue)
answered result = result >>= λ popped. some (element popped.0, popped.1)

-- A call of the list value.
unfoldable pub asked : Ask → ListValue → Option (Reply × ListValue)
unfolding list_push_back list_push_front list_pop_front list_pop_back list_len list_get list_range
    list_trim list_set list_insert list_remove_matching
asked (put_last s) l = list_push_back s l >>= λ l. some (done, l)
asked (put_first s) l = list_push_front s l >>= λ l. some (done, l)
asked take_first l = list_pop_front l >>= λ popped. some (element popped.0, popped.1)
asked take_last l = list_pop_back l >>= λ popped. some (element popped.0, popped.1)
asked count l = some (number (list_len l), l)
asked clear l = some (done, new_value)
asked (read idx) l = list_get idx l >>= λ found. some (element found, l)
asked (slice start n) l = list_range start n l >>= λ items. some (elements items, l)
asked (keep start n) l = list_trim start n l >>= λ l. some (done, l)
asked (write idx value) l = list_set idx value l >>= λ written. some (hit written.0, written.1)
asked (insert idx value) l = list_insert idx value l >>= λ l. some (done, l)
asked (remove value limit from_back) l =
    list_remove_matching value limit from_back l >>= λ removed. some (number removed.0, removed.1)

-- The same on a plain list.
unfoldable pub plain : Ask → List Text → Reply × List Text
plain (put_last s) items = (done, items ++ s ∷ [])
plain (put_first s) items = (done, s ∷ items)
plain take_first items = (element (first items), others items)
plain take_last items = (element (last items), init items)
plain count items = (number (length items), items)
plain clear items = (done, [])
plain (read idx) items = (element (get_elem? items idx), items)
plain (slice start n) items = (elements (take n (drop start items)), items)
plain (keep start n) items = (done, take n (drop start items))
plain (write idx value) items = (hit (ltb idx (length items)), set items idx value)
plain (insert idx value) items = (done, take idx items ++ value ∷ drop idx items)
plain (remove value limit from_back) items =
    (number (struck value limit from_back items).0, (struck value limit from_back items).1)

-- The sizes that a call keeps to: a string has less than 2^31 bytes, a value that is written in
-- place of another at most 4096, and the elements together less than 2^32.
abbrev pub Allowed : Ask → List Text → Type 0
Allowed (put_last s) items = Short s
Allowed (put_first s) items = Short s
Allowed (write idx value) items =
    (length value ≤ chunk_bytes) × (length (join (set items idx value)) < 2 ^ 32)
Allowed (insert idx value) items = Short value × (length (join items) + length value < 2 ^ 32)
Allowed _ items = Unit

-- The value holds the items.
pub record IsList (l : ListValue) (items : List Text) : Type 0 where
  pub short : All Short items
  pub shape : Shape l items

-- The call answers as the plain list does, and leaves the plain list's elements.
abbrev pub Agrees : Ask → ListValue → List Text → Type 0
Agrees ask l items =
    (after : ListValue) × (asked ask l ≡ some ((plain ask items).0, after))
    × IsList after (plain ask items).1
