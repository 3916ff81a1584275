-- ===== src/Cluster/State/Safety/Edits.antt =====
-- The methods that change the topology return, and leave a safe state.
use fyro_db.Prelude.{
  ℕ, zero, suc, ◌<◌, ◌≡◌, refl, ap, ◌&&◌, Option, none, some, List, [], ◌∷◌, ◌++◌, arith, All,
  All-append, All-modify, get_elem?-lt, position, position-lt, modify, Bool-cases, Option-cases,
  inl, inr, length,
}
use fyro_db.Prelude.Assoc.{nat_eq, lookup}
use fyro_db.Cluster.Hash.{hash_slots, Slot, SlotRange, new_range}
use fyro_db.Cluster.Topology.{Text, NodeInfo, is_primary, serves}
use fyro_db.Cluster.Topology.Ownership.{IsRange, HasRanges}
use fyro_db.Cluster.State.{ClusterState, has_id}
use fyro_db.Cluster.State.Ranges.{remove_slot, compact_ranges, sort_ranges, push_unwrap}
use fyro_db.Cluster.State.Ranges.Cover.{remove_slot-Removed, compact_sorted}
use fyro_db.Cluster.State.Moves.{
  update_slots, promoted, at_epoch, with_slots, commit_to, commit_slot_migration, remove_everywhere,
  assign_slot,
}
use fyro_db.Cluster.State.Safety.{IsSafe, Runs, stays, publish-Runs, drop_migration-IsSafe}

-- An edit of the nodes that returns, and keeps their ranges valid and their number.
pub record Edited (nodes : List NodeInfo) (result : Option (List NodeInfo)) : Type 0 where
  pub edited : List NodeInfo
  pub returns : result ≡ some edited
  pub ranged : All HasRanges edited
  pub size : length edited ≡ length nodes

-- An edit of one list of ranges that returns, and keeps them valid.
unfoldable pub Keeps : (List SlotRange → Option (List SlotRange)) → Type 0
Keeps f =
    (ranges : List SlotRange)
    → All IsRange ranges
    → (left : List SlotRange) × (f ranges ≡ some left) × All IsRange left

pub update_slots-Edited :
    (f : List SlotRange → Option (List SlotRange)) (i : ℕ) (nodes : List NodeInfo)
    → Keeps f
    → i < length nodes
    → All HasRanges nodes
    → Edited nodes (update_slots f i nodes)
unfolding update_slots Keeps
update_slots-Edited f i [] k hi h = elim hi [ ]
update_slots-Edited f zero (node ∷ nodes) k hi (hn, h) =
    let (left, e, hl) = k node.slots hn in
    record { edited = with_slots left node ∷ nodes; returns = rw e; ranged = (hl, h); size = refl }
update_slots-Edited f (suc i) (node ∷ nodes) k hi (hn, h) =
    let rest = update_slots-Edited f i nodes k (omega arith) h in
    record {
      edited = node ∷ rest.edited;
      returns = rw rest.returns;
      ranged = (hn, rest.ranged);
      size = ap suc rest.size;
    }

pub remove_slot-Keeps : (slot : Slot) → Keeps (λ ranges. remove_slot ranges slot)
unfolding Keeps
remove_slot-Keeps slot ranges h =
    let removed = remove_slot-Removed ranges slot h in
    (removed.left, removed.returns, removed.ranged)

abbrev pub single : Slot → SlotRange
single slot = record { start = slot; end = slot }

pub new_range-single : (slot : Slot) → new_range slot slot ≡ some (single slot)
unfolding new_range
new_range-single slot = ground arith

pub single-IsRange : (slot : Slot) → slot.value < hash_slots → IsRange (single slot)
single-IsRange slot h = omega arith

pub push-Keeps :
    (slot : Slot)
    → slot.value < hash_slots
    → Keeps (λ ranges. push_unwrap ranges (new_range slot slot))
unfolding Keeps
push-Keeps slot hs ranges h =
    rw (new_range-single slot) (_, refl, All-append IsRange ranges _ h (single-IsRange slot hs, tt))

pub remove_everywhere-Edited :
    (slot : Slot) (nodes : List NodeInfo)
    → All HasRanges nodes
    → Edited nodes (remove_everywhere slot nodes)
unfolding remove_everywhere
remove_everywhere-Edited slot [] h = record {
  edited = [];
  returns = refl;
  ranged = tt;
  size = refl;
}
remove_everywhere-Edited slot (node ∷ nodes) (hn, h) =
    let rest = remove_everywhere-Edited slot nodes h in
    let removed = remove_slot-Removed node.slots slot hn in
    elim (Bool-cases (serves slot node)) [
      | inl e ↦ record {
        edited = with_slots removed.left node ∷ rest.edited;
        returns = rw (e, removed.returns, rest.returns);
        ranged = (removed.ranged, rest.ranged);
        size = ap suc rest.size;
      }
      | inr e ↦ record {
        edited = node ∷ rest.edited;
        returns = rw (e, rest.returns);
        ranged = (hn, rest.ranged);
        size = ap suc rest.size;
      }
    ]

pub at_epoch-ranges :
    (epoch i : ℕ) (nodes : List NodeInfo)
    → All HasRanges nodes
    → All HasRanges (modify (at_epoch epoch) i nodes)
at_epoch-ranges epoch i nodes h = All-modify HasRanges _ i nodes (λ node hn. hn) h

commit_to-Runs :
    (slot : Slot) (target : Text) (state : ClusterState)
    → slot.value < hash_slots
    → IsSafe state
    → Runs (commit_to slot target state)
unfolding commit_to
commit_to-Runs slot target state hs h =
    elim (Option-cases
      (position (λ node. is_primary node.role && serves slot node) state.topology.nodes)) [
        | inl e ↦ rw (e, commit_to) (stays none state h)
        | inr (source, es) ↦ elim (Option-cases (position (has_id target) state.topology.nodes)) [
          | inl e ↦ rw (es, e, commit_to) (stays none state h)
          | inr (i, ei) ↦
              let nodes = state.topology.nodes in
              let edit =
                update_slots-Edited _ source nodes (remove_slot-Keeps slot)
                  (position-lt _ nodes source es) h.ranged in
              rw (es, ei, edit.returns, new_range-single slot, commit_to)
                (publish-Runs _ state
                  (at_epoch-ranges _ i _
                    (at_epoch-ranges _ source _ (pushed i edit.edited edit.ranged)))
                  h)
        ]
      ]
  where
    pushed :
        (i : ℕ) (nodes : List NodeInfo)
        → All HasRanges nodes
        → All HasRanges
            (modify (λ node. with_slots (node.slots ++ single slot ∷ []) (promoted node)) i nodes)
    pushed i nodes hn =
        All-modify HasRanges _ i nodes
          (λ node hr. All-append IsRange node.slots _ hr (single-IsRange slot hs, tt)) hn

pub commit_slot_migration-Runs :
    (slot : Slot) (state : ClusterState)
    → slot.value < hash_slots
    → IsSafe state
    → Runs (commit_slot_migration slot state)
unfolding commit_slot_migration
commit_slot_migration-Runs slot state hs h =
    elim (Option-cases (lookup slot.value state.migrations)) [
      | inl e ↦ rw (e, commit_slot_migration) (stays none state h)
      | inr (target, e) ↦
          rw (e, commit_slot_migration)
            (commit_to-Runs slot target _ hs (drop_migration-IsSafe slot state h))
    ]

pub assign_slot-Runs :
    (slot : Slot) (target : Text) (state : ClusterState)
    → slot.value < hash_slots
    → IsSafe state
    → Runs (assign_slot slot target state)
unfolding assign_slot
assign_slot-Runs slot target state hs h =
    elim (Option-cases (position (has_id target) state.topology.nodes)) [
      | inl e ↦ rw (e, assign_slot) (stays none state h)
      | inr (i, ei) ↦
          let nodes = state.topology.nodes in
          let (found, ef) = get_elem?-lt i nodes (position-lt _ nodes i ei) in
          elim (Bool-cases (serves slot found)) [
            | inl e ↦ rw (ei, ef, e, assign_slot) (stays none state h)
            | inr e ↦
                let edit = remove_everywhere-Edited slot nodes h.ranged in
                rw (ei, ef, e, edit.returns, new_range-single slot, assign_slot)
                  (publish-Runs _ state (All-modify HasRanges _ i edit.edited compacted edit.ranged)
                    h)
          ]
    ]
  where
    compacted :
        (node : NodeInfo)
        → HasRanges node
        → All IsRange (compact_ranges (sort_ranges (node.slots ++ single slot ∷ [])))
    compacted node hn =
        (compact_sorted (node.slots ++ single slot ∷ [])
          (All-append IsRange node.slots _ hn (single-IsRange slot hs, tt))).0
