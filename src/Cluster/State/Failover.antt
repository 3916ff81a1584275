-- ===== src/Cluster/State/Failover.antt =====
-- Failure reports and the promotion of a replica (src/cluster/state.rs).
pub mod Choice
pub mod Effect
mod Tests
use fyro_db.Prelude.{
  ℕ, zero, suc, ◌+◌, Bool, true, false, ◌&&◌, ◌||◌, not, Option, none, some, List, [], ◌∷◌, ltb,
  leb, ◌==◌, if◌then◌else◌, ◌>>=◌, position, modify, get_elem?, bytes_eq,
}
use fyro_db.Cluster.Topology.{Text, Topology, NodeInfo, is_primary}
use fyro_db.Cluster.Failure.{FailureReport, report, report_count}
use fyro_db.Cluster.State.{ClusterState, Method, next_epoch, publish, has_id}
use fyro_db.Cluster.State.Moves.{promoted, at_epoch, with_slots}

-- The order of `str`: byte by byte.
unfoldable pub text_leb : Text → Text → Bool
text_leb [] ys = true
text_leb (x ∷ xs) [] = false
text_leb (x ∷ xs) (y ∷ ys) = ltb x y || (x == y && text_leb xs ys)

-- `(epoch, Reverse(id))` of one node is at most that of the other.
unfoldable pub rank_leb : NodeInfo → NodeInfo → Bool
unfolding text_leb
rank_leb a b = ltb a.epoch b.epoch || (a.epoch == b.epoch && text_leb b.id a.id)

abbrev pub replica_of : Text → NodeInfo → Bool
replica_of failed_id node =
    not (is_primary node.role)
    && (elim node.replica_of [ none ↦ false | some id ↦ bytes_eq id failed_id ])

-- `max_by_key`: of equal keys the later wins.
abbrev pub better : ℕ × NodeInfo → Option (ℕ × NodeInfo) → Option (ℕ × NodeInfo)
better this none = some this
better this (some best) = if rank_leb best.1 this.1 then some this else some best

-- The chain from `iter().enumerate()` to `max_by_key`, from an index on.
unfoldable pub best_replica :
    Text → ℕ → List NodeInfo → Option (ℕ × NodeInfo) → Option (ℕ × NodeInfo)
unfolding rank_leb
best_replica failed_id i [] best = best
best_replica failed_id i (node ∷ nodes) best =
    best_replica failed_id (i + 1) nodes
      (if replica_of failed_id node then better (i, node) best else best)

unfoldable pub hand_over : ℕ → ℕ → NodeInfo → Topology → Topology
hand_over failed_index replica_index failed topology =
    let epoch = next_epoch topology.epoch in
    record {
      epoch = epoch;
      nodes =
          modify (λ node. at_epoch epoch (with_slots failed.slots (promoted node))) replica_index
            (modify (λ node. at_epoch epoch (with_slots [] node)) failed_index topology.nodes);
    }

unfoldable pub promote_replica : Text → ℕ → Method (Option Topology)
unfolding best_replica hand_over
promote_replica failed_id epoch state =
    if ltb (report_count failed_id epoch state.failures) state.failures.quorum
      || not (state.topology.epoch == epoch)
    then some (none, state)
    else let nodes = state.topology.nodes in
      elim (position (has_id failed_id) nodes) [
        | none ↦ some (none, state)
        | some failed_index ↦ get_elem? nodes failed_index >>= λ failed.
            if not (is_primary failed.role)
            then some (none, state)
            else elim (best_replica failed_id 0 nodes none) [
              | none ↦ some (none, state)
              | some best ↦ publish (hand_over failed_index best.0 failed state.topology) state
            ]
      ]

unfoldable pub record_failure : ℕ → FailureReport → ClusterState → Bool × ClusterState
record_failure now r state =
    let (confirmed, failures) = report now r state.failures in
    (confirmed, record state { failures = failures })

unfoldable pub failure_report_count : Text → ℕ → ClusterState → ℕ
failure_report_count target_id epoch state = report_count target_id epoch state.failures
