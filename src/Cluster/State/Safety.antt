-- ===== src/Cluster/State/Safety.antt =====
-- No method of the cluster state panics on a state that the methods can reach, and what they keep.
pub mod Edits
pub mod Members
pub mod Steps
pub mod Published
use fyro_db.Prelude.{
  ℕ, ◌+◌, ◌≤◌, ◌<◌, ◌≡◌, refl, Bool, true, false, ◌&&◌, ◌||◌, not, Option, none, some, List, [],
  ◌∷◌, ◌++◌, arith, leb, ltb, any, if◌then◌else◌, ◌>>=◌, All, Bool-cases, Option-cases, inl, inr,
  length,
}
use fyro_db.Prelude.Assoc.{Assoc, nat_eq, insert, remove}
use fyro_db.Cluster.Hash.{Slot}
use fyro_db.Cluster.Topology.{Text, Topology, RoutingTable, NodeInfo, build_table, owner, is_valid}
use fyro_db.Cluster.Topology.Ownership.{IsRange, HasRanges, build_table_total}
use fyro_db.Cluster.State.{
  ClusterState, Method, has_id, is_empty, build, install_topology, publish, replace_topology,
  drop_migration, begin_slot_migration, finish_slot_migration, begin_slot_import,
  finish_slot_import,
}

-- What holds of every state: the ranges are ordered and in bounds, the table is the one built from
-- the topology, and each flag is up exactly while its map has entries.
pub record IsSafe (state : ClusterState) : Type 0 where
  pub ranged : All HasRanges state.topology.nodes
  pub routed : build_table state.topology ≡ some state.routing
  pub migrating : state.has_migrations ≡ not (is_empty state.migrations)
  pub importing : state.has_imports ≡ not (is_empty state.imports)

-- A call that returns, and leaves such a state.
pub record Runs {A : Type 0} (result : Option (A × ClusterState)) : Type 0 where
  pub answer : A
  pub after : ClusterState
  pub returns : result ≡ some (answer, after)
  pub safe : IsSafe after

pub stays : {A : Type 0} (a : A) (state : ClusterState) → IsSafe state → Runs (some (a, state))
stays a state h = record { answer = a; after = state; returns = refl; safe = h }

pub install_lem :
    (topology : Topology) (state : ClusterState)
    → All HasRanges topology.nodes
    → IsSafe state
    → (after : ClusterState) × (install_topology topology state ≡ some after) × IsSafe after
unfolding install_topology
install_lem topology state hn h =
    let (table, e) = build_table_total topology hn in
    rw e (
      _,
      refl,
      record { ranged = hn; routed = e; migrating = h.migrating; importing = h.importing },
    )

pub publish-Runs :
    (topology : Topology) (state : ClusterState)
    → All HasRanges topology.nodes
    → IsSafe state
    → Runs (publish topology state)
unfolding publish
publish-Runs topology state hn h =
    let (after, e, safe) = install_lem topology state hn h in
    record { answer = some topology; after = after; returns = rw e; safe = safe }

pub replace_topology-Runs :
    (topology : Topology) (state : ClusterState)
    → All HasRanges topology.nodes
    → IsSafe state
    → Runs (replace_topology topology state)
unfolding replace_topology
replace_topology-Runs topology state hn h =
    elim (Bool-cases (leb topology.epoch state.topology.epoch || not (is_valid topology))) [
      | inl e ↦ rw e (stays false state h)
      | inr e ↦
          let (table, routed) = build_table_total topology hn in
          rw (e, routed)
            (stays true _ (record {
              ranged = hn;
              routed = routed;
              migrating = h.migrating;
              importing = h.importing;
            }))
    ]

insert_some : (k : ℕ) (v : Text) (m : Assoc ℕ Text) → is_empty (insert k v m) ≡ false
unfolding insert
insert_some k v [] = refl
insert_some k v ((j, w) ∷ m) = ground arith

remove_flag :
    (k : ℕ) (flag : Bool) (m : Assoc ℕ Text)
    → flag ≡ not (is_empty m)
    → (if is_empty (remove k m) then false else flag) ≡ not (is_empty (remove k m))
remove_flag k flag [] e = unfold remove in refl
remove_flag k flag (x ∷ m) e = ground (arith, e)

pub begin_slot_migration-IsSafe :
    (slot : Slot) (target : Text) (state : ClusterState)
    → IsSafe state
    → IsSafe (begin_slot_migration slot target state).1
unfolding begin_slot_migration
begin_slot_migration-IsSafe slot target state h =
    elim (Bool-cases (is_empty target || ltb 256 (length target))) [
      | inl e ↦ rw e h
      | inr e ↦ rw e (elim (Option-cases (owner state.topology slot)) [
        | inl none_serves ↦ rw none_serves h
        | inr (node, serving) ↦
            rw serving (elim (Bool-cases (any (has_id target) state.topology.nodes)) [
              | inl known ↦ rw known (record {
                ranged = h.ranged;
                routed = h.routed;
                migrating = rw (insert_some slot.value target state.migrations) refl;
                importing = h.importing;
              })
              | inr unknown ↦ rw unknown h
            ])
      ])
    ]

pub drop_migration-IsSafe :
    (slot : Slot) (state : ClusterState) → IsSafe state → IsSafe (drop_migration slot state)
unfolding drop_migration
drop_migration-IsSafe slot state h = record {
  ranged = h.ranged;
  routed = h.routed;
  migrating = remove_flag slot.value state.has_migrations state.migrations h.migrating;
  importing = h.importing;
}

pub begin_slot_import-IsSafe :
    (slot : Slot) (source : Text) (state : ClusterState)
    → IsSafe state
    → IsSafe (begin_slot_import slot source state).1
unfolding begin_slot_import
begin_slot_import-IsSafe slot source state h =
    elim (Bool-cases (is_empty source || ltb 256 (length source))) [
      | inl e ↦ rw e h
      | inr e ↦ rw e (record {
        ranged = h.ranged;
        routed = h.routed;
        migrating = h.migrating;
        importing = rw (insert_some slot.value source state.imports) refl;
      })
    ]

pub finish_slot_import-IsSafe :
    (slot : Slot) (state : ClusterState) → IsSafe state → IsSafe (finish_slot_import slot state)
unfolding finish_slot_import
finish_slot_import-IsSafe slot state h = record {
  ranged = h.ranged;
  routed = h.routed;
  migrating = h.migrating;
  importing = remove_flag slot.value state.has_imports state.imports h.importing;
}
