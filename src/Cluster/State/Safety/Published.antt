-- ===== src/Cluster/State/Safety/Published.antt =====
-- The topology that a promotion answers with is the one it has installed.
use mathlib.Core.Path.{subst}
use fyro_db.Prelude.{
  ℕ, ◌≡◌, refl, inl, inr, ◌||◌, not, Option, none, some, ltb, ◌==◌, Bool-cases, Option-cases,
  position, get_elem?,
}
use fyro_db.Cluster.Topology.{Text, Topology, is_primary, build_table}
use fyro_db.Cluster.Failure.{report_count}
use fyro_db.Cluster.State.{ClusterState, has_id, install_topology, publish}
use fyro_db.Cluster.State.Failover.{best_replica, hand_over, promote_replica}

abbrev pub IsCurrent : Option (Option Topology × ClusterState) → Type 0
IsCurrent none = Unit
IsCurrent (some (none, state)) = Unit
IsCurrent (some (some topology, state)) = topology ≡ state.topology

publish-IsCurrent :
    (topology : Topology) (state : ClusterState) → IsCurrent (publish topology state)
unfolding publish install_topology
publish-IsCurrent topology state = elim (Option-cases (build_table topology)) [
  | inl e ↦ rw (e) tt
  | inr (table, e) ↦ rw (e) refl
]

promote_replica-IsCurrent :
    (failed_id : Text) (epoch : ℕ) (state : ClusterState)
    → IsCurrent (promote_replica failed_id epoch state)
unfolding promote_replica
promote_replica-IsCurrent failed_id epoch state =
    elim (Bool-cases (
      ltb (report_count failed_id epoch state.failures) state.failures.quorum
      || not (state.topology.epoch == epoch))) [
        | inl e ↦ rw (e, promote_replica) tt
        | inr agreed ↦ elim (Option-cases (position (has_id failed_id) state.topology.nodes)) [
          | inl e ↦ rw (agreed, e, promote_replica) tt
          | inr (i, ei) ↦ elim (Option-cases (get_elem? state.topology.nodes i)) [
            | inl ef ↦ rw (agreed, ei, ef, promote_replica) tt
            | inr (failed, ef) ↦ elim (Bool-cases (is_primary failed.role)) [
              | inr e ↦ rw (agreed, ei, ef, e, promote_replica) tt
              | inl e ↦ elim (Option-cases (best_replica failed_id 0 state.topology.nodes none)) [
                | inl eb ↦ rw (agreed, ei, ef, e, eb, promote_replica) tt
                | inr (best, eb) ↦
                    rw (agreed, ei, ef, e, eb, promote_replica)
                      (publish-IsCurrent (hand_over i best.0 failed state.topology) state)
              ]
            ]
          ]
        ]
      ]

pub promoted_current :
    (failed_id : Text) (epoch : ℕ) (state after : ClusterState) (topology : Topology)
    → promote_replica failed_id epoch state ≡ some (some topology, after)
    → topology ≡ after.topology
promoted_current failed_id epoch state after topology e =
    subst IsCurrent e (promote_replica-IsCurrent failed_id epoch state)
