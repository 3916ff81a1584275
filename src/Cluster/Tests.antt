-- ===== src/Cluster/Tests.antt =====
-- The two nodes of the repository's tests, and the theorems about them.
pub mod Moves
pub mod Routes
pub mod Wire
pub mod Peers
use fyro_db.Prelude.{ℕ, false, Option, none, some, List, [], ◌∷◌, codes}
use fyro_db.Cluster.Hash.{Slot}
use fyro_db.Cluster.Topology.{Topology, NodeInfo, RoutingTable, primary, replica, unassigned}
use fyro_db.Cluster.Failure.{FailureTracker}
use fyro_db.Cluster.State.{ClusterState}

abbrev pub slot : ℕ → Slot
slot n = record { value = n }

-- The primary p serves every slot, and r is its replica.
abbrev pub p : NodeInfo
p = record {
  id = codes "p";
  address = codes "p:8000";
  cluster_address = codes "p:18000";
  role = primary;
  replica_of = none;
  epoch = 1;
  slots = record { start = slot 0; end = slot 16383 } ∷ [];
}

abbrev pub r : NodeInfo
r = record {
  id = codes "r";
  address = codes "r:8000";
  cluster_address = codes "r:18000";
  role = replica;
  replica_of = some (codes "p");
  epoch = 7;
  slots = [];
}

abbrev pub two_nodes : Topology
two_nodes = record { epoch = 1; nodes = p ∷ r ∷ [] }

-- The failure reports of two reporters reach the quorum.
abbrev pub failures : FailureTracker
failures = record {
  quorum = 2;
  retention = 30;
  evidence =
      ((codes "p", 1), record { reporters = codes "b" ∷ codes "a" ∷ []; updated_at = 3 }) ∷ [];
}

abbrev pub state_with : RoutingTable → ClusterState
state_with routing = record {
  failures = failures;
  topology = two_nodes;
  routing = routing;
  version = 1;
  migrations = [];
  imports = [];
  has_imports = false;
  has_migrations = false;
}
