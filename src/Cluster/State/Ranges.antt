-- ===== src/Cluster/State/Ranges.antt =====
-- `remove_slot`, `compact_ranges` and the sort by start (src/cluster/state.rs).
pub mod Cover
use mathlib.Core.Option
use fyro_db.Prelude.{
  ℕ, zero, suc, ◌+◌, ◌-◌, ◌≤◌, ◌<◌, ◌≡◌, refl, sym, ap, ◌∙◌, Bool, true, false, ◌&&◌, ◌||◌, not,
  Option, none, some, List, [], ◌∷◌, ◌++◌, ltb, leb, ◌==◌, if◌then◌else◌, ◌>>=◌, length, any, arith,
  All, All-append, Bool-cases, inl, inr, ==_iff, append-nil, append_assoc,
}
use fyro_db.Cluster.Hash.{hash_slots, Slot, SlotRange, new_range, contains}

-- `replacement.push(range.unwrap())`: a range that is refused is a panic.
abbrev pub push_unwrap : List SlotRange → Option SlotRange → Option (List SlotRange)
push_unwrap out none = none
push_unwrap out (some range) = some (out ++ range ∷ [])

-- The body of the loop of `remove_slot`.
remove_from : SlotRange → Slot → List SlotRange → Option (List SlotRange)
remove_from range slot out =
    if not (contains range slot)
    then some (out ++ range ∷ [])
    else (if ltb range.start.value slot.value
        then push_unwrap out (new_range range.start (record { value = slot.value - 1 }))
        else some out)
      >>= λ out.
          (if ltb slot.value range.end.value
            then push_unwrap out (new_range (record { value = slot.value + 1 }) range.end)
            else some out)

remove_loop : List SlotRange → Slot → List SlotRange → Option (List SlotRange)
remove_loop [] slot out = some out
remove_loop (range ∷ ranges) slot out = remove_from range slot out >>= remove_loop ranges slot

pub remove_slot : List SlotRange → Slot → Option (List SlotRange)
remove_slot ranges slot = remove_loop ranges slot []

-- The loop of `compact_ranges`, on the last range that was put out.
compact_from : SlotRange → List SlotRange → List SlotRange
compact_from last [] = last ∷ []
compact_from last (r ∷ ranges) =
    let joined = compact_from (record last { end = r.end }) ranges in
    let apart = compact_from r ranges in
    if last.end.value + 1 == r.start.value then joined else last ∷ apart

pub compact_ranges : List SlotRange → List SlotRange
compact_ranges [] = []
compact_ranges (r ∷ ranges) = compact_from r ranges

-- The stable sort by the start of the range.
insert_range : SlotRange → List SlotRange → List SlotRange
insert_range r [] = r ∷ []
insert_range r (x ∷ ranges) =
    if leb r.start.value x.start.value then r ∷ x ∷ ranges else x ∷ insert_range r ranges

pub sort_ranges : List SlotRange → List SlotRange
sort_ranges [] = []
sort_ranges (r ∷ ranges) = insert_range r (sort_ranges ranges)

-- The slots of a list of ranges.
abbrev pub covers : List SlotRange → Slot → Bool
covers ranges slot = any (λ range. contains range slot) ranges

abbrev pub same_slot : Slot → Slot → Bool
same_slot a b = a.value == b.value
