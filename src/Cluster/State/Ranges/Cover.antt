-- ===== src/Cluster/State/Ranges/Cover.antt =====
-- Which slots the lists of ranges cover.
use fyro_db.Prelude.{
  ◌+◌, ◌-◌, ◌≡◌, refl, ap, ◌∙◌, Bool, ◌&&◌, ◌||◌, not, Option, some, List, [], ◌∷◌, ◌++◌, ltb, ◌==◌,
  if◌then◌else◌, any, arith, All, All-append, Bool-cases, inl, inr, ==_iff, append-nil,
  append_assoc,
}
use fyro_db.Cluster.Hash.{Slot, SlotRange, new_range, contains}
use fyro_db.Cluster.Topology.Ownership.{IsRange}
use fyro_db.Cluster.State.Ranges.{
  remove_from, remove_loop, remove_slot, compact_from, compact_ranges, insert_range, sort_ranges,
  covers, same_slot,
}

pub any-append {ℓ} :
    {A : Type ℓ} (p : A → Bool) (xs ys : List A) → any p (xs ++ ys) ≡ any p xs || any p ys
any-append p [] ys = refl
any-append p (x ∷ xs) ys = ground (arith, any-append p xs ys)

-- What is left of a range without a slot of it.
below : SlotRange → Slot → List SlotRange
below range slot =
    if ltb range.start.value slot.value
    then record { start = range.start; end = record { value = slot.value - 1 } } ∷ []
    else []

above : SlotRange → Slot → List SlotRange
above range slot =
    if ltb slot.value range.end.value
    then record { start = record { value = slot.value + 1 }; end = range.end } ∷ []
    else []

pieces : SlotRange → Slot → List SlotRange
pieces range slot =
    if not (contains range slot) then range ∷ [] else below range slot ++ above range slot

pieces-IsRange : (range : SlotRange) (slot : Slot) → IsRange range → All IsRange (pieces range slot)
unfolding pieces below above contains
pieces-IsRange range slot h = ground arith

covers-pieces :
    (range : SlotRange) (slot x : Slot)
    → IsRange range
    → covers (pieces range slot) x ≡ contains range x && not (same_slot x slot)
unfolding pieces below above contains
covers-pieces range slot x h = ground arith

remove_from_lem :
    (range : SlotRange) (slot : Slot) (out : List SlotRange)
    → IsRange range
    → remove_from range slot out ≡ some (out ++ pieces range slot)
unfolding remove_from pieces below above contains new_range
remove_from_lem range slot out h = ground (
  arith,
  append-nil out,
  append_assoc out (record { start = range.start; end = record { value = slot.value - 1 } } ∷ [])
      (record { start = record { value = slot.value + 1 }; end = range.end } ∷ []),
)

all_pieces : List SlotRange → Slot → List SlotRange
all_pieces [] slot = []
all_pieces (range ∷ ranges) slot = pieces range slot ++ all_pieces ranges slot

remove_loop_lem :
    (ranges : List SlotRange) (slot : Slot) (out : List SlotRange)
    → All IsRange ranges
    → remove_loop ranges slot out ≡ some (out ++ all_pieces ranges slot)
unfolding remove_loop all_pieces
remove_loop_lem [] slot out h = rw append-nil
remove_loop_lem (range ∷ ranges) slot out (hr, h) =
    rw (remove_from_lem range slot out hr)
      (remove_loop_lem ranges slot (out ++ pieces range slot) h ∙ rw append_assoc)

covers-all_pieces :
    (ranges : List SlotRange) (slot x : Slot)
    → All IsRange ranges
    → covers (all_pieces ranges slot) x ≡ covers ranges x && not (same_slot x slot)
unfolding all_pieces
covers-all_pieces [] slot x h = refl
covers-all_pieces (range ∷ ranges) slot x (hr, h) =
    any-append _ (pieces range slot) (all_pieces ranges slot)
    ∙ ground (arith, covers-pieces range slot x hr, covers-all_pieces ranges slot x h)

all_pieces-IsRange :
    (ranges : List SlotRange) (slot : Slot)
    → All IsRange ranges
    → All IsRange (all_pieces ranges slot)
unfolding all_pieces
all_pieces-IsRange [] slot h = tt
all_pieces-IsRange (range ∷ ranges) slot (hr, h) =
    All-append IsRange (pieces range slot) _ (pieces-IsRange range slot hr)
      (all_pieces-IsRange ranges slot h)

-- A list of ranges without one slot.
pub record Removed (ranges : List SlotRange) (slot : Slot) (result : Option (List SlotRange))
    : Type 0 where
  pub left : List SlotRange
  pub returns : result ≡ some left
  pub ranged : All IsRange left
  pub covered : (x : Slot) → covers left x ≡ covers ranges x && not (same_slot x slot)

-- On valid ranges `remove_slot` never panics, leaves valid ranges, and these cover exactly the
-- slots that were covered, without the one removed.
pub remove_slot-Removed :
    (ranges : List SlotRange) (slot : Slot)
    → All IsRange ranges
    → Removed ranges slot (remove_slot ranges slot)
remove_slot-Removed ranges slot h = record {
  left = all_pieces ranges slot;
  returns = unfold remove_slot in remove_loop_lem ranges slot [] h;
  ranged = all_pieces-IsRange ranges slot h;
  covered = λ x. covers-all_pieces ranges slot x h;
}

join_lem :
    (last r : SlotRange) (x : Slot)
    → IsRange last
    → IsRange r
    → last.end.value + 1 ≡ r.start.value
    → contains (record last { end = r.end }) x ≡ contains last x || contains r x
unfolding contains
join_lem last r x hl hr e = ground arith

compact_from_lem :
    (last : SlotRange) (ranges : List SlotRange)
    → IsRange last
    → All IsRange ranges
    → All IsRange (compact_from last ranges)
      × ((x : Slot) → covers (compact_from last ranges) x ≡ contains last x || covers ranges x)
unfolding compact_from
compact_from_lem last [] hl h = ((hl, tt), λ x. refl)
compact_from_lem last (r ∷ ranges) hl (hr, h) =
    elim (Bool-cases (last.end.value + 1 == r.start.value)) [
      | inl e ↦
          let touch : last.end.value + 1 ≡ r.start.value = (==_iff _ _).0 e in
          let (a, b) = compact_from_lem (record last { end = r.end }) ranges (omega arith) h in
          rw e (a, λ x. b x ∙ ground (arith, join_lem last r x hl hr touch))
      | inr e ↦
          let (a, b) = compact_from_lem r ranges hr h in
          rw e ((hl, a), λ x. ap (λ t. contains last x || t) (b x))
    ]

covers-insert_range :
    (r : SlotRange) (ranges : List SlotRange) (x : Slot)
    → covers (insert_range r ranges) x ≡ contains r x || covers ranges x
unfolding insert_range
covers-insert_range r [] x = refl
covers-insert_range r (y ∷ ranges) x = ground (arith, covers-insert_range r ranges x)

insert_range-IsRange :
    (r : SlotRange) (ranges : List SlotRange)
    → IsRange r
    → All IsRange ranges
    → All IsRange (insert_range r ranges)
unfolding insert_range
insert_range-IsRange r [] hr h = (hr, tt)
insert_range-IsRange r (y ∷ ranges) hr h = ground (arith, insert_range-IsRange r ranges hr h.1)

covers-sort_ranges :
    (ranges : List SlotRange) (x : Slot) → covers (sort_ranges ranges) x ≡ covers ranges x
unfolding sort_ranges
covers-sort_ranges [] x = refl
covers-sort_ranges (r ∷ ranges) x =
    covers-insert_range r (sort_ranges ranges) x
    ∙ ap (λ t. contains r x || t) (covers-sort_ranges ranges x)

sort_ranges-IsRange :
    (ranges : List SlotRange) → All IsRange ranges → All IsRange (sort_ranges ranges)
unfolding sort_ranges
sort_ranges-IsRange [] h = tt
sort_ranges-IsRange (r ∷ ranges) (hr, h) =
    insert_range-IsRange r (sort_ranges ranges) hr (sort_ranges-IsRange ranges h)

-- Sorting valid ranges by their start and joining neighbours leaves valid ranges that cover the
-- same slots.
pub compact_sorted :
    (ranges : List SlotRange)
    → All IsRange ranges
    → All IsRange (compact_ranges (sort_ranges ranges))
      × ((x : Slot) → covers (compact_ranges (sort_ranges ranges)) x ≡ covers ranges x)
compact_sorted ranges h =
    let (a, b) = compacted (sort_ranges ranges) (sort_ranges-IsRange ranges h) in
    (a, λ x. b x ∙ covers-sort_ranges ranges x)
  where
    compacted :
        (ranges : List SlotRange)
        → All IsRange ranges
        → All IsRange (compact_ranges ranges)
          × ((x : Slot) → covers (compact_ranges ranges) x ≡ covers ranges x)
    compacted [] h = unfold compact_ranges in (tt, λ x. refl)
    compacted (r ∷ ranges) (hr, h) = unfold compact_ranges in compact_from_lem r ranges hr h
