-- ===== src/Cluster/Tests/Moves.antt =====
-- The theorems on the topology, the state and the failure reports at concrete inputs.
use fyro_db.Prelude.{
  ℕ, ◌≡◌, refl, true, false, ◌&&◌, some, List, [], ◌∷◌, codes, arith, All, ◌>>=◌, if◌then◌else◌,
  ltb,
}
use fyro_db.Cluster.Topology.{Topology, RoutingTable, build_table, is_valid}
use fyro_db.Cluster.Topology.Ownership.{HasRanges, Agrees, build_table-Agrees, build_table_total}
use fyro_db.Cluster.State.{ClusterState, build, publish, replace_topology}
use fyro_db.Cluster.State.Ranges.{remove_slot}
use fyro_db.Cluster.State.Ranges.Cover.{Removed, remove_slot-Removed}
use fyro_db.Cluster.State.Moves.{assign_slot}
use fyro_db.Cluster.State.Moves.Effect.{Moved, assign_slot-Moved}
use fyro_db.Cluster.State.Safety.{IsSafe}
use fyro_db.Cluster.State.Safety.Steps.{
  Call, begin_migration, commit_migration, assign, promote, del, add, reset, Ends, run_calls,
  history-Ends,
}
use fyro_db.Cluster.State.Snapshot.{Replaced, replace_topology-Replaced}
use fyro_db.Cluster.Failure.{FailureReport, new_tracker}
use fyro_db.Cluster.Failure.Quorum.{Witnessed, run, run-Witnessed}
use fyro_db.Cluster.Tests.{slot, p, r, two_nodes, state_with}

nodes-HasRanges : All HasRanges (p ∷ r ∷ [])
nodes-HasRanges = (((omega arith, omega arith), tt), (tt, tt))

build_table-Agrees_example : Agrees two_nodes
build_table-Agrees_example = build_table-Agrees two_nodes (omega arith) nodes-HasRanges

remove_slot-Removed_example : Removed p.slots (slot 42) (remove_slot p.slots (slot 42))
remove_slot-Removed_example = remove_slot-Removed p.slots (slot 42) nodes-HasRanges.0

abbrev calls : List Call
calls =
    begin_migration (slot 42) (codes "r")
    ∷ commit_migration (slot 42)
    ∷ assign (slot 7) (codes "r")
    ∷ del (codes "p") (slot 8 ∷ [])
    ∷ add (codes "r") (slot 8 ∷ [])
    ∷ promote (codes "p") 1
    ∷ reset (codes "p")
    ∷ []

history-Ends_example : Ends (build 2 30 two_nodes >>= run_calls calls)
history-Ends_example =
    history-Ends 2 30 two_nodes calls nodes-HasRanges
      (tt, (omega arith, (omega arith, (tt, ((omega arith, tt), (tt, (tt, tt)))))))

-- The table of the two nodes, and the state it is part of.
pub table : (t : RoutingTable) × (build_table two_nodes ≡ some t)
table = build_table_total two_nodes nodes-HasRanges

abbrev pub start : ClusterState
start = state_with table.0

pub start-IsSafe : IsSafe start
start-IsSafe = record {
  ranged = nodes-HasRanges;
  routed = table.1;
  migrating = refl;
  importing = refl;
}

assign_slot-Moved_example : Moved (slot 6399) 1 start (assign_slot (slot 6399) (codes "r") start)
assign_slot-Moved_example =
    assign_slot-Moved (slot 6399) (codes "r") start 1 r (omega arith) start-IsSafe refl refl refl

abbrev newer : Topology
newer = record two_nodes { epoch = 5 }

replace_topology-Replaced_example :
    Replaced newer start (some newer) (publish newer start)
    × (if ltb 1 5 && is_valid newer
        then Replaced newer start true (replace_topology newer start)
        else replace_topology newer start ≡ some (false, start))
replace_topology-Replaced_example =
    replace_topology-Replaced newer start nodes-HasRanges (omega arith)

abbrev report_of : ℕ → FailureReport
report_of n = record { target_id = codes "p"; reporter_id = n ∷ []; epoch = 1 }

abbrev timed : List (ℕ × FailureReport)
timed = (1, report_of 97) ∷ (2, report_of 97) ∷ (3, report_of 98) ∷ []

run-Witnessed_example : Witnessed (codes "p") 1 timed (run timed (new_tracker 2 30))
run-Witnessed_example =
    run-Witnessed 2 30 0 (codes "p") 1 timed
      ((omega arith, omega arith), ((omega arith, omega arith), ((omega arith, omega arith), tt)))
