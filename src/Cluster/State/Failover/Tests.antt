-- ===== src/Cluster/State/Failover/Tests.antt =====
-- The promotion of the repository's tests.
use fyro_db.Prelude.{◌≡◌, refl, Option, none, some, codes}
use fyro_db.Prelude.Assoc.{lookup}
use fyro_db.Cluster.Hash.{contains}
use fyro_db.Cluster.Topology.{
  Topology, unassigned, build_table, fill_nodes, fill_ranges, fill_range, owner,
}
use fyro_db.Cluster.Failure.{report_count}
use fyro_db.Cluster.State.{ClusterState, publish, install_topology}
use fyro_db.Cluster.State.Failover.{promote_replica, best_replica, hand_over}
use fyro_db.Cluster.State.Failover.Effect.{HandedOver, promote_replica-HandedOver}
use fyro_db.Cluster.State.Failover.Choice.{Justified, promote_replica-Justified}
use fyro_db.Cluster.Tests.{slot, p, r, two_nodes, state_with}

abbrev start : ClusterState
start = state_with (record { owners = λ _. unassigned })

abbrev after_promotion : Option (Option Topology × ClusterState) → ClusterState
after_promotion none = start
after_promotion (some (answer, state)) = state

abbrev end : ClusterState
end = after_promotion (promote_replica (codes "p") 1 start)

promotion : promote_replica (codes "p") 1 start ≡ some (some (hand_over 0 1 p two_nodes), end)
unfolding promote_replica publish install_topology hand_over report_count lookup best_replica
    build_table fill_nodes fill_ranges fill_range
promotion = refl

-- The replica owns slot 42 afterwards.
promotion_owner :
    owner end.topology (slot 42)
    ≡ some (record r { role = p.role; replica_of = none; slots = p.slots; epoch = 2 })
unfolding promote_replica publish install_topology hand_over report_count lookup best_replica
    build_table fill_nodes fill_ranges fill_range owner contains
promotion_owner = refl

promote_replica-Justified_example : Justified (codes "p") 1 start end (hand_over 0 1 p two_nodes)
promote_replica-Justified_example =
    promote_replica-Justified (codes "p") 1 start end (hand_over 0 1 p two_nodes) promotion

promote_replica-HandedOver_example : HandedOver (codes "p") start end (hand_over 0 1 p two_nodes)
promote_replica-HandedOver_example =
    promote_replica-HandedOver (codes "p") 1 start end (hand_over 0 1 p two_nodes) promotion
