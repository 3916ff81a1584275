-- ===== src/Cluster/Topology/Ownership.antt =====
-- The flat table answers as the search through the nodes' ranges does.
use fyro_db.Prelude.{
  ℕ, ◌+◌, ◌-◌, ◌≤◌, ◌<◌, min, ◌≡◌, refl, sym, ap, ◌∙◌, Bool, false, ◌&&◌, Option, none, some, List,
  [], ◌∷◌, ltb, leb, ◌==◌, if◌then◌else◌, ◌>>=◌, length, any, position, get_elem?, arith, All,
  find-filter, position-lt, get_elem?-position, Bool-cases, Option-cases, inl, inr, lt→ltb,
}
use fyro_db.Cluster.Hash.{hash_slots, Slot, SlotRange, contains}
use fyro_db.Cluster.Topology.{
  NodeInfo, Topology, RoutingTable, is_primary, serves, owner, unassigned, fill_range, fill_ranges,
  fill_nodes, build_table, owner_index,
}

-- A range that `SlotRange::new` makes of two slots that `Slot::new` makes.
abbrev pub IsRange : SlotRange → Type 0
IsRange range = (range.start.value ≤ range.end.value) × (range.end.value < hash_slots)

abbrev pub HasRanges : NodeInfo → Type 0
HasRanges node = All IsRange node.slots

-- What a loop that claims the slots of `mine` for `encoded` leaves.
record Claimed (mine : Slot → Bool) (encoded : ℕ) (owners : ℕ → ℕ) (result : Option (ℕ → ℕ))
    : Type 0 where
  filled : ℕ → ℕ
  returns : result ≡ some filled
  at :
      (slot : Slot)
      → slot.value < hash_slots
      → filled slot.value
        ≡ (if owners slot.value == unassigned && mine slot then encoded else owners slot.value)

fill_range_lem :
    (encoded : ℕ) (range : SlotRange) (owners : ℕ → ℕ)
    → IsRange range
    → Claimed (contains range) encoded owners (fill_range encoded range owners)
unfolding fill_range contains
fill_range_lem encoded range owners h = record {
  filled = λ slot.
      if leb range.start.value slot && leb slot range.end.value && owners slot == unassigned
      then encoded
      else owners slot;
  returns = rw (starts, ends, ordered);
  at = λ slot hs. ground arith;
}
  where
    starts : min range.start.value (hash_slots - 1) ≡ range.start.value
    starts = omega arith

    ends : min range.end.value (hash_slots - 1) ≡ range.end.value
    ends = omega arith

    ordered : ltb (range.end.value + 1) range.start.value ≡ false
    ordered = ground arith

fill_ranges_lem :
    (encoded : ℕ) (ranges : List SlotRange) (owners : ℕ → ℕ)
    → encoded < unassigned
    → All IsRange ranges
    → Claimed
        (λ slot. any (λ range. contains range slot) ranges)
        encoded
        owners
        (fill_ranges encoded ranges owners)
unfolding fill_ranges
fill_ranges_lem encoded [] owners he h = record {
  filled = owners;
  returns = refl;
  at = λ slot hs. ground arith;
}
fill_ranges_lem encoded (range ∷ ranges) owners he (hr, h) =
    let first = fill_range_lem encoded range owners hr in
    let rest = fill_ranges_lem encoded ranges first.filled he h in
    record {
      filled = rest.filled;
      returns = rw first.returns rest.returns;
      at = λ slot hs. ground (arith, first.at slot hs, rest.at slot hs);
    }

-- The position of the first primary that serves the slot.
abbrev first_owner : Slot → List NodeInfo → Option ℕ
first_owner slot = position (λ node. is_primary node.role && serves slot node)

abbrev encode : ℕ → Option ℕ → ℕ
encode index none = unassigned
encode index (some k) = index + k

record Filled (index : ℕ) (nodes : List NodeInfo) (owners : ℕ → ℕ) (result : Option (ℕ → ℕ))
    : Type 0 where
  filled : ℕ → ℕ
  returns : result ≡ some filled
  at :
      (slot : Slot)
      → slot.value < hash_slots
      → filled slot.value ≡ (
          if owners slot.value == unassigned
          then encode index (first_owner slot nodes)
          else owners slot.value)

fill_nodes_lem :
    (index : ℕ) (nodes : List NodeInfo) (owners : ℕ → ℕ)
    → index + length nodes ≤ unassigned
    → All HasRanges nodes
    → Filled index nodes owners (fill_nodes index nodes owners)
unfolding fill_nodes
fill_nodes_lem index [] owners hi h = record {
  filled = owners;
  returns = refl;
  at = λ slot hs. ground arith;
}
fill_nodes_lem index (node ∷ nodes) owners hi (hn, h) = elim (Bool-cases (is_primary node.role)) [
  | inl p ↦
      let first = fill_ranges_lem index node.slots owners (omega arith) hn in
      let rest = fill_nodes_lem (index + 1) nodes first.filled (omega arith) h in
      record {
        filled = rest.filled;
        returns = rw (p, lt→ltb index unassigned (omega arith), first.returns) rest.returns;
        at = λ slot hs. ground (arith, first.at slot hs, rest.at slot hs);
      }
  | inr p ↦
      let rest = fill_nodes_lem (index + 1) nodes owners (omega arith) h in
      record {
        filled = rest.filled;
        returns = rw p rest.returns;
        at = λ slot hs. ground (arith, rest.at slot hs);
      }
]

-- Building never panics on nodes with such ranges, whatever their number.
fill_nodes_total :
    (index : ℕ) (nodes : List NodeInfo) (owners : ℕ → ℕ)
    → All HasRanges nodes
    → (filled : ℕ → ℕ) × (fill_nodes index nodes owners ≡ some filled)
unfolding fill_nodes
fill_nodes_total index [] owners h = (owners, refl)
fill_nodes_total index (node ∷ nodes) owners (hn, h) =
    elim (Bool-cases (is_primary node.role && ltb index unassigned)) [
      | inl p ↦
          let first = fill_ranges_lem index node.slots owners (ground arith) hn in
          rw (p, first.returns) (fill_nodes_total (index + 1) nodes first.filled h)
      | inr p ↦ rw p (fill_nodes_total (index + 1) nodes owners h)
    ]

pub build_table_total :
    (topology : Topology)
    → All HasRanges topology.nodes
    → (table : RoutingTable) × (build_table topology ≡ some table)
unfolding build_table
build_table_total topology h =
    let (filled, e) = fill_nodes_total 0 topology.nodes (λ _. unassigned) h in
    rw e (record { owners = filled }, refl)

-- The table that `build` returns, and what it answers on every slot.
pub record Agrees (topology : Topology) : Type 0 where
  pub table : RoutingTable
  pub builds : build_table topology ≡ some table
  pub answers :
      (slot : Slot)
      → slot.value < hash_slots
      → (owner_index table slot >>= get_elem? topology.nodes) ≡ owner topology slot
  pub bounded :
      (slot : Slot) (index : ℕ)
      → slot.value < hash_slots
      → owner_index table slot ≡ some index
      → index < length topology.nodes

-- For at most 65535 nodes, whose ranges are ordered and lie below the number of slots, building
-- the table does not panic, and for every slot the node at the table's index is the owner that
-- the topology finds by searching the ranges of the primaries; there is none if it finds none.
-- An index of the table is always that of a node.
pub build_table-Agrees :
    (topology : Topology)
    → length topology.nodes ≤ unassigned
    → All HasRanges topology.nodes
    → Agrees topology
build_table-Agrees topology count h =
    let f = fill_nodes_lem 0 topology.nodes (λ _. unassigned) (omega arith) h in
    record {
      table = record { owners = f.filled };
      builds = unfold build_table in rw f.returns;
      answers = λ slot hs.
          ap (λ o. o >>= get_elem? topology.nodes) (index_lem f slot hs)
          ∙ get_elem?-position _ topology.nodes
          ∙ sym (unfold owner in find-filter (serves slot) _ topology.nodes);
      bounded =
          λ slot index hs e. position-lt _ topology.nodes index (sym (index_lem f slot hs) ∙ e);
    }
  where
    index_lem :
        (f : Filled 0 topology.nodes
          (λ _. unassigned)
          (fill_nodes 0 topology.nodes (λ _. unassigned)))
        (slot : Slot)
        → slot.value < hash_slots
        → owner_index (record { owners = f.filled }) slot ≡ first_owner slot topology.nodes
    index_lem f slot hs = elim (Option-cases (first_owner slot topology.nodes)) [
      | inl e ↦ unfold owner_index in ground (arith, f.at slot hs)
      | inr (k, e) ↦
          unfold owner_index in ground (arith, f.at slot hs, position-lt _ topology.nodes k e)
    ]
