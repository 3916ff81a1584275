-- ===== src/Cluster/Topology.antt =====
-- The cluster's nodes and the flat routing table (src/cluster/topology.rs). An identifier or
-- address is its list of bytes. The array of owners is a function on the slots below 16384, and
-- an index range that a slice refuses, where the program would panic, is `none`.
pub mod Ownership
use fyro_db.Prelude.{
  ℕ, zero, suc, ◌+◌, ◌-◌, ◌≤◌, ◌<◌, min, Bool, true, false, ◌&&◌, ◌||◌, not, Option, none, some,
  List, [], ◌∷◌, ltb, leb, ◌==◌, if◌then◌else◌, ◌>>=◌, length, any, all, filter, find, bytes_eq,
}
use fyro_db.Cluster.Hash.{hash_slots, Slot, SlotRange, contains}

abbrev pub Text : Type 0
Text = List ℕ

pub data NodeRole : Type 0 where
  primary replica : NodeRole

abbrev pub is_primary : NodeRole → Bool
is_primary primary = true
is_primary replica = false

pub record NodeInfo : Type 0 where
  pub id : Text
  pub address : Text
  pub cluster_address : Text
  pub role : NodeRole
  pub replica_of : Option Text
  pub epoch : ℕ
  pub slots : List SlotRange

pub record Topology : Type 0 where
  pub epoch : ℕ
  pub nodes : List NodeInfo

-- `node.slots.iter().any(|range| range.contains(slot))`
abbrev pub serves : Slot → NodeInfo → Bool
serves slot node = any (λ range. contains range slot) node.slots

-- `Topology::owner`
unfoldable pub owner : Topology → Slot → Option NodeInfo
owner topology slot = find (serves slot) (filter (λ node. is_primary node.role) topology.nodes)

-- The set that `is_valid` collects: `insert` answers whether the identifier is new.
pub all_new : List Text → List NodeInfo → Bool
all_new seen [] = true
all_new seen (node ∷ nodes) = not (any (bytes_eq node.id) seen) && all_new (node.id ∷ seen) nodes

unfoldable pub is_valid : Topology → Bool
unfolding all_new
is_valid topology =
    all
      (λ node.
        leb (length node.id) 256
        && leb (length node.address) 512
        && leb (length node.cluster_address) 512
        && all (λ range. leb range.start.value range.end.value) node.slots)
      topology.nodes
    && all_new [] topology.nodes

abbrev pub unassigned : ℕ
unassigned = 65535

-- `RoutingTable`: the owner of each slot below `hash_slots`.
pub record RoutingTable : Type 0 where
  pub owners : ℕ → ℕ

abbrev last : ℕ
last = hash_slots - 1

-- The loop over the slots of a range: the first primary wins.
unfoldable pub fill_range : ℕ → SlotRange → (ℕ → ℕ) → Option (ℕ → ℕ)
fill_range encoded range owners =
    let start = min range.start.value last in
    let end = min range.end.value last in
    if ltb (end + 1) start
    then none
    else some (λ slot.
      if leb start slot && leb slot end && owners slot == unassigned then encoded else owners slot)

unfoldable pub fill_ranges : ℕ → List SlotRange → (ℕ → ℕ) → Option (ℕ → ℕ)
fill_ranges encoded [] owners = some owners
fill_ranges encoded (range ∷ ranges) owners =
    fill_range encoded range owners >>= fill_ranges encoded ranges

-- The loop over the nodes, from an index on.
unfoldable pub fill_nodes : ℕ → List NodeInfo → (ℕ → ℕ) → Option (ℕ → ℕ)
fill_nodes index [] owners = some owners
fill_nodes index (node ∷ nodes) owners =
    (if is_primary node.role && ltb index unassigned
      then fill_ranges index node.slots owners
      else some owners)
    >>= fill_nodes (index + 1) nodes

-- `RoutingTable::build`
unfoldable pub build_table : Topology → Option RoutingTable
build_table topology =
    fill_nodes 0 topology.nodes (λ _. unassigned) >>= λ owners. some (record { owners = owners })

unfoldable pub owner_index : RoutingTable → Slot → Option ℕ
owner_index table slot =
    if leb hash_slots slot.value || table.owners slot.value == unassigned
    then none
    else some (table.owners slot.value)
