-- ===== src/Cluster/State.antt =====
-- The state of the cluster (src/cluster/state.rs). Each method is a function on the state, as it
-- runs while no other method does; a panic is `none`.
pub mod Ranges
pub mod Moves
pub mod Members
pub mod Failover
pub mod Safety
pub mod Snapshot
use fyro_db.Prelude.{
  ℕ, zero, suc, ◌+◌, ◌%◌, ◌^◌, min, ◌-◌, Bool, true, false, ◌&&◌, ◌||◌, not, Option, none, some,
  List, [], ◌∷◌, ◌++◌, ltb, leb, ◌==◌, if◌then◌else◌, ◌>>=◌, length, any, position, modify,
  get_elem?, bytes_eq,
}
use fyro_db.Prelude.Assoc.{Assoc, nat_eq, lookup, insert, remove}
use fyro_db.Cluster.Hash.{Slot, SlotRange, new_range, contains}
use fyro_db.Cluster.Topology.{
  Text, Topology, RoutingTable, NodeInfo, NodeRole, primary, replica, is_primary, serves, owner,
  is_valid, build_table,
}
use fyro_db.Cluster.Failure.{FailureTracker, new_tracker}
use fyro_db.Cluster.State.Ranges.{remove_slot, compact_ranges, sort_ranges}

pub record ClusterState : Type 0 where
  pub failures : FailureTracker
  pub topology : Topology
  pub routing : RoutingTable
  pub version : ℕ
  pub migrations : Assoc ℕ Text
  pub imports : Assoc ℕ Text
  pub has_imports : Bool
  pub has_migrations : Bool

abbrev pub is_empty {ℓ} : {A : Type ℓ} → List A → Bool
is_empty [] = true
is_empty (x ∷ xs) = false

-- A method that changes the state: the result and the new state, or a panic.
abbrev pub Method : Type 0 → Type 0
Method A = ClusterState → Option (A × ClusterState)

-- `u64::saturating_add(1)`
abbrev pub next_epoch : ℕ → ℕ
next_epoch epoch = min (epoch + 1) (2 ^ 64 - 1)

-- `fetch_add(1)` on an `AtomicU64`
abbrev pub next_version : ℕ → ℕ
next_version version = (version + 1) % 2 ^ 64

-- `ClusterState::build`
pub build : ℕ → ℕ → Topology → Option ClusterState
build quorum retention topology = do
  routing ← build_table topology
  some (record {
    failures = new_tracker quorum retention;
    topology = topology;
    routing = routing;
    version = 1;
    migrations = [];
    imports = [];
    has_imports = false;
    has_migrations = false;
  })

-- `ClusterState::new`
pub new_state : ℕ → ℕ → Option ClusterState
new_state quorum retention = build quorum retention (record { epoch = 0; nodes = [] })

pub with_topology : ℕ → ℕ → Topology → Option ClusterState
with_topology quorum retention topology = build quorum retention topology

pub topology_and_routing_arc : ClusterState → Topology × RoutingTable
topology_and_routing_arc state = (state.topology, state.routing)

pub topology_version : ClusterState → ℕ
topology_version state = state.version

-- `topology_if_newer`
unfoldable pub topology_if_newer : ℕ → ClusterState → Option (ℕ × Topology × RoutingTable)
topology_if_newer cached state =
    if state.version == cached then none else some (state.version, state.topology, state.routing)

pub install_topology : Topology → ClusterState → Option ClusterState
install_topology topology state = do
  routing ← build_table topology
  some (record state {
    topology = topology;
    routing = routing;
    version = next_version state.version;
  })

-- Installs a topology and returns it.
pub publish : Topology → Method (Option Topology)
unfolding install_topology
publish topology state = do state ← install_topology topology state; some (some topology, state)

pub replace_topology : Topology → Method Bool
unfolding install_topology
replace_topology topology state =
    if leb topology.epoch state.topology.epoch || not (is_valid topology)
    then some (false, state)
    else do state ← install_topology topology state; some (true, state)

abbrev pub has_id : Text → NodeInfo → Bool
has_id id node = bytes_eq node.id id

pub begin_slot_migration : Slot → Text → ClusterState → Bool × ClusterState
begin_slot_migration slot target state =
    if is_empty target || ltb 256 (length target)
    then (false, state)
    else elim (owner state.topology slot) [
      | none ↦ (false, state)
      | some _ ↦ if not (any (has_id target) state.topology.nodes) then (false, state) else (
        true,
        record state {
          migrations = insert slot.value target state.migrations;
          has_migrations = true;
        },
      )
    ]

-- The entry taken out, and the flag that goes down with the last one.
pub drop_migration : Slot → ClusterState → ClusterState
drop_migration slot state =
    let left = remove slot.value state.migrations in
    record state {
      migrations = left;
      has_migrations = if is_empty left then false else state.has_migrations;
    }

pub finish_slot_migration : Slot → ClusterState → ClusterState
unfolding drop_migration
finish_slot_migration slot state = drop_migration slot state

unfoldable pub migrating_target : Slot → ClusterState → Option Text
migrating_target slot state =
    if not state.has_migrations then none else lookup slot.value state.migrations

pub begin_slot_import : Slot → Text → ClusterState → Bool × ClusterState
begin_slot_import slot source state =
    if is_empty source || ltb 256 (length source) then (false, state) else (
      true,
      record state { imports = insert slot.value source state.imports; has_imports = true },
    )

pub finish_slot_import : Slot → ClusterState → ClusterState
finish_slot_import slot state =
    let left = remove slot.value state.imports in
    record state {
      imports = left;
      has_imports = if is_empty left then false else state.has_imports;
    }

pub is_importing : Slot → ClusterState → Bool
is_importing slot state =
    if not state.has_imports
    then false
    else elim (lookup slot.value state.imports) [ none ↦ false | some _ ↦ true ]

unfoldable pub import_source : Slot → ClusterState → Option Text
import_source slot state = if not state.has_imports then none else lookup slot.value state.imports
