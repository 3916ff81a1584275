-- ===== src/Cluster/State/Safety/Steps.antt =====
-- Histories of calls to the cluster state, one after the other.
use fyro_db.Prelude.{
  ℕ, ◌<◌, ◌≡◌, refl, ap, ◌↔◌, Bool, true, false, not, Option, none, some, List, [], ◌∷◌, arith,
  if◌then◌else◌, ◌>>=◌, All,
}
use fyro_db.Prelude.Assoc.{Assoc, nat_eq, lookup}
use fyro_db.Cluster.Hash.{hash_slots, Slot}
use fyro_db.Cluster.Topology.{Text, Topology, NodeInfo}
use fyro_db.Cluster.Topology.Ownership.{HasRanges, build_table_total}
use fyro_db.Cluster.Failure.{FailureReport}
use fyro_db.Cluster.State.{
  ClusterState, is_empty, build, replace_topology, begin_slot_migration, finish_slot_migration,
  begin_slot_import, finish_slot_import, migrating_target, import_source, is_importing,
}
use fyro_db.Cluster.State.Moves.{commit_slot_migration, assign_slot}
use fyro_db.Cluster.State.Members.{meet_node, add_slots, del_slots, forget_node, reset_slots}
use fyro_db.Cluster.State.Failover.{promote_replica, record_failure}
use fyro_db.Cluster.State.Safety.{
  IsSafe, Runs, replace_topology-Runs, drop_migration-IsSafe, begin_slot_migration-IsSafe,
  begin_slot_import-IsSafe, finish_slot_import-IsSafe,
}
use fyro_db.Cluster.State.Safety.Edits.{commit_slot_migration-Runs, assign_slot-Runs}
use fyro_db.Cluster.State.Safety.Members.{
  InBounds, meet_node-Runs, add_slots-Runs, del_slots-Runs, forget_node-Runs, reset_slots-Runs,
  promote_replica-Runs,
}

-- A call of a method that changes the state, with its arguments.
pub data Call : Type 0 where
  begin_migration : Slot → Text → Call
  finish_migration : Slot → Call
  commit_migration : Slot → Call
  begin_import : Slot → Text → Call
  finish_import : Slot → Call
  replace : Topology → Call
  promote : Text → ℕ → Call
  fail : ℕ → FailureReport → Call
  assign : Slot → Text → Call
  meet : NodeInfo → Call
  add : Text → List Slot → Call
  del : Text → List Slot → Call
  forget : Text → Call
  reset : Text → Call

-- The state a method leaves.
abbrev pub left : {A : Type 0} → Option (A × ClusterState) → Option ClusterState
left none = none
left (some (answer, state)) = some state

pub perform : Call → ClusterState → Option ClusterState
perform (begin_migration slot target) state = some (begin_slot_migration slot target state).1
perform (finish_migration slot) state = some (finish_slot_migration slot state)
perform (commit_migration slot) state = left (commit_slot_migration slot state)
perform (begin_import slot source) state = some (begin_slot_import slot source state).1
perform (finish_import slot) state = some (finish_slot_import slot state)
perform (replace topology) state = left (replace_topology topology state)
perform (promote failed_id epoch) state = left (promote_replica failed_id epoch state)
perform (fail now r) state = some (record_failure now r state).1
perform (assign slot target) state = left (assign_slot slot target state)
perform (meet node) state = left (meet_node node state)
perform (add node_id slots) state = left (add_slots node_id slots state)
perform (del node_id slots) state = left (del_slots node_id slots state)
perform (forget node_id) state = left (forget_node node_id state)
perform (reset node_id) state = left (reset_slots node_id state)

-- The slots come from `Slot::new`, and the ranges from `SlotRange::new`.
abbrev pub IsCall : Call → Type 0
IsCall (commit_migration slot) = slot.value < hash_slots
IsCall (assign slot target) = slot.value < hash_slots
IsCall (replace topology) = All HasRanges topology.nodes
IsCall (meet node) = HasRanges node
IsCall (add node_id slots) = InBounds slots
IsCall _ = Unit

pub run_calls : List Call → ClusterState → Option ClusterState
run_calls [] state = some state
run_calls (call ∷ calls) state = perform call state >>= run_calls calls

-- A history that does not panic, and leaves a safe state.
pub record Ends (result : Option ClusterState) : Type 0 where
  pub state : ClusterState
  pub ends : result ≡ some state
  pub safe : IsSafe state

ended : (state : ClusterState) → IsSafe state → Ends (some state)
ended state h = record { state = state; ends = refl; safe = h }

left-Ends : {A : Type 0} {result : Option (A × ClusterState)} → Runs result → Ends (left result)
left-Ends r = record { state = r.after; ends = ap left r.returns; safe = r.safe }

perform-Ends :
    (call : Call) (state : ClusterState) → IsCall call → IsSafe state → Ends (perform call state)
unfolding perform
perform-Ends (begin_migration slot target) state c h =
    ended _ (begin_slot_migration-IsSafe slot target state h)
perform-Ends (finish_migration slot) state c h =
    ended _ (unfold finish_slot_migration in drop_migration-IsSafe slot state h)
perform-Ends (commit_migration slot) state c h =
    left-Ends (commit_slot_migration-Runs slot state c h)
perform-Ends (begin_import slot source) state c h =
    ended _ (begin_slot_import-IsSafe slot source state h)
perform-Ends (finish_import slot) state c h = ended _ (finish_slot_import-IsSafe slot state h)
perform-Ends (replace topology) state c h = left-Ends (replace_topology-Runs topology state c h)
perform-Ends (promote failed_id epoch) state c h =
    left-Ends (promote_replica-Runs failed_id epoch state h)
perform-Ends (fail now r) state c h = ended _ (
    unfold record_failure in
    record {
      ranged = h.ranged;
      routed = h.routed;
      migrating = h.migrating;
      importing = h.importing;
    })
perform-Ends (assign slot target) state c h = left-Ends (assign_slot-Runs slot target state c h)
perform-Ends (meet node) state c h = left-Ends (meet_node-Runs node state c h)
perform-Ends (add node_id slots) state c h = left-Ends (add_slots-Runs node_id slots state c h)
perform-Ends (del node_id slots) state c h = left-Ends (del_slots-Runs node_id slots state h)
perform-Ends (forget node_id) state c h = left-Ends (forget_node-Runs node_id state h)
perform-Ends (reset node_id) state c h = left-Ends (reset_slots-Runs node_id state h)

run_calls-Ends :
    (calls : List Call) (state : ClusterState)
    → All IsCall calls
    → IsSafe state
    → Ends (run_calls calls state)
unfolding run_calls
run_calls-Ends [] state c h = ended state h
run_calls-Ends (call ∷ calls) state (c, cs) h =
    let first = perform-Ends call state c h in
    rw first.ends (run_calls-Ends calls first.state cs first.safe)

-- From a topology whose ranges are ordered and in bounds, building the state and performing any
-- sequence of calls, whose slots and ranges are in bounds too, never panics; in the state that is
-- left the ranges are still valid, the routing table is the one built from the topology, and the
-- flags are up exactly while their maps have entries.
pub history-Ends :
    (quorum retention : ℕ) (topology : Topology) (calls : List Call)
    → All HasRanges topology.nodes
    → All IsCall calls
    → Ends (build quorum retention topology >>= run_calls calls)
unfolding build
history-Ends quorum retention topology calls hn c =
    let (table, e) = build_table_total topology hn in
    rw e (
      run_calls-Ends calls _ c
        (record { ranged = hn; routed = e; migrating = refl; importing = refl }))

-- In a safe state the flags never hide an entry: the lock-free checks of `migrating_target`,
-- `import_source` and `is_importing` answer as the maps do.
pub flags-exact :
    (slot : Slot) (state : ClusterState)
    → IsSafe state
    → (migrating_target slot state ≡ lookup slot.value state.migrations)
      × (import_source slot state ≡ lookup slot.value state.imports)
      × ((is_importing slot state ≡ false) ↔ (lookup slot.value state.imports ≡ none))
unfolding migrating_target import_source is_importing
flags-exact slot state h = (
  hidden state.migrations state.has_migrations h.migrating,
  hidden state.imports state.has_imports h.importing,
  importing state.imports state.has_imports h.importing,
)
  where
    hidden :
        (m : Assoc ℕ Text) (flag : Bool)
        → flag ≡ not (is_empty m)
        → (if not flag then none else lookup slot.value m) ≡ lookup slot.value m
    hidden [] flag e = unfold lookup in ground (arith, e)
    hidden (x ∷ m) flag e = rw e refl

    importing :
        (m : Assoc ℕ Text) (flag : Bool)
        → flag ≡ not (is_empty m)
        → ((if not flag then false else elim (lookup slot.value m) [ none ↦ false | some _ ↦ true ])
            ≡ false)
          ↔ (lookup slot.value m ≡ none)
    importing [] flag e = unfold lookup in ground (arith, e)
    importing (x ∷ m) flag e = rw e ground arith
