-- ===== src/Cluster/State/Snapshot.antt =====
-- What readers of the topology see after it was replaced.
use fyro_db.Prelude.{
  ℕ, ◌^◌, ◌<◌, ◌≡◌, refl, Bool, true, false, ◌&&◌, ◌||◌, not, Option, none, some, arith, leb, ltb,
  ◌==◌, ==_refl, if◌then◌else◌, All, Bool-cases, inl, inr,
}
use fyro_db.Cluster.Topology.{Topology, RoutingTable, build_table, is_valid}
use fyro_db.Cluster.Topology.Ownership.{HasRanges, build_table_total}
use fyro_db.Cluster.State.{
  ClusterState, publish, install_topology, replace_topology, topology_if_newer, next_version,
}

-- What a reader that cached a version gets after a call.
pub record Refetched (cached : ℕ) (topology : Topology) (after : ClusterState) : Type 0 where
  pub table : RoutingTable
  pub built : build_table topology ≡ some table
  pub fetched : topology_if_newer cached after ≡ some (after.version, topology, table)
  pub current : topology_if_newer after.version after ≡ none

version_moves : (v : ℕ) → v < 2 ^ 64 → (next_version v == v) ≡ false
version_moves v h = ground arith

-- A topology that was installed.
pub record Replaced (topology : Topology) (state : ClusterState) {A : Type 0} (answer : A)
    (result : Option (A × ClusterState)) : Type 0 where
  pub after : ClusterState
  pub returns : result ≡ some (answer, after)
  pub reread : Refetched state.version topology after

-- Whenever a topology with valid ranges is published, a reader that cached the version before
-- gets exactly that topology together with the table built from it, and none again until the next
-- change; so does a reader after `replace_topology` accepted it, which it does exactly for a valid
-- topology of a larger epoch. A refusal changes nothing. The version is a `u64`.
pub replace_topology-Replaced :
    (topology : Topology) (state : ClusterState)
    → All HasRanges topology.nodes
    → state.version < 2 ^ 64
    → Replaced topology state (some topology) (publish topology state)
      × (if ltb state.topology.epoch topology.epoch && is_valid topology
          then Replaced topology state true (replace_topology topology state)
          else replace_topology topology state ≡ some (false, state))
unfolding replace_topology publish install_topology topology_if_newer
replace_topology-Replaced topology state hn hv =
    let (table, built) = build_table_total topology hn in
    (
      reinstalled (some topology) _ table built (rw (built, publish) refl),
      elim (Bool-cases (ltb state.topology.epoch topology.epoch && is_valid topology)) [
        | inl e ↦
            rw e (reinstalled true _ table built (rw (opposite _ e, built, replace_topology) refl))
        | inr e ↦ rw e (rw (opposite _ e, replace_topology) refl)
      ],
    )
  where
    opposite :
        (b : Bool)
        → (ltb state.topology.epoch topology.epoch && is_valid topology) ≡ b
        → (leb topology.epoch state.topology.epoch || not (is_valid topology)) ≡ not b
    opposite b e = ground arith

    installed : RoutingTable → ClusterState
    installed table = record state {
      topology = topology;
      routing = table;
      version = next_version state.version;
    }

    reinstalled :
        {A : Type 0} (answer : A) (result : Option (A × ClusterState)) (table : RoutingTable)
        → build_table topology ≡ some table
        → result ≡ some (answer, installed table)
        → Replaced topology state answer result
    reinstalled answer result table built e = record {
      after = installed table;
      returns = e;
      reread = record {
        table = table;
        built = built;
        fetched = rw (version_moves state.version hv) refl;
        current = rw (==_refl (next_version state.version)) refl;
      };
    }
