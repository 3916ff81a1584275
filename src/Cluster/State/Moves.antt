-- ===== src/Cluster/State/Moves.antt =====
-- The methods of `ClusterState` that move one slot (src/cluster/state.rs).
pub mod Effect
use fyro_db.Prelude.{
  ℕ, Bool, true, false, ◌&&◌, Option, none, some, List, [], ◌∷◌, ◌++◌, if◌then◌else◌, ◌>>=◌, zero,
  suc, position, modify, get_elem?,
}
use fyro_db.Prelude.Assoc.{nat_eq, lookup}
use fyro_db.Cluster.Hash.{Slot, SlotRange, new_range}
use fyro_db.Cluster.Topology.{Text, Topology, NodeInfo, primary, is_primary, serves}
use fyro_db.Cluster.State.{ClusterState, Method, next_epoch, publish, has_id, drop_migration}
use fyro_db.Cluster.State.Ranges.{remove_slot, compact_ranges, sort_ranges}

-- Changes the ranges of the node at an index; the change may panic.
unfoldable pub update_slots :
    (List SlotRange → Option (List SlotRange)) → ℕ → List NodeInfo → Option (List NodeInfo)
update_slots f i [] = none
update_slots f zero (node ∷ nodes) =
    f node.slots >>= λ ranges. some (record node { slots = ranges } ∷ nodes)
update_slots f (suc i) (node ∷ nodes) = update_slots f i nodes >>= λ rest. some (node ∷ rest)

abbrev pub promoted : NodeInfo → NodeInfo
promoted node = record node { role = primary; replica_of = none }

abbrev pub at_epoch : ℕ → NodeInfo → NodeInfo
at_epoch epoch node = record node { epoch = epoch }

abbrev pub with_slots : List SlotRange → NodeInfo → NodeInfo
with_slots ranges node = record node { slots = ranges }

-- From `let mut topology` on, for the target that was found.
unfoldable pub commit_to : Slot → Text → Method (Option Topology)
unfolding update_slots
commit_to slot target state =
    let nodes = state.topology.nodes in
    elim (position (λ node. is_primary node.role && serves slot node) nodes) [
      | none ↦ some (none, state)
      | some source_index ↦ elim (position (has_id target) nodes) [
        | none ↦ some (none, state)
        | some target_index ↦
            update_slots (λ ranges. remove_slot ranges slot) source_index nodes >>= λ nodes.
            elim (new_range slot slot) [
              | none ↦ some (none, state)
              | some range ↦
                  let epoch = next_epoch state.topology.epoch in
                  let nodes =
                    modify (λ node. with_slots (node.slots ++ range ∷ []) (promoted node))
                      target_index nodes in
                  publish
                    (record {
                      epoch = epoch;
                      nodes =
                          modify (at_epoch epoch) target_index
                            (modify (at_epoch epoch) source_index nodes);
                    })
                    state
            ]
      ]
    ]

unfoldable pub commit_slot_migration : Slot → Method (Option Topology)
unfolding commit_to
commit_slot_migration slot state = elim (lookup slot.value state.migrations) [
  | none ↦ some (none, state)
  | some target ↦ commit_to slot target (drop_migration slot state)
]

-- The loop of `assign_slot` over the nodes.
unfoldable pub remove_everywhere : Slot → List NodeInfo → Option (List NodeInfo)
remove_everywhere slot [] = some []
remove_everywhere slot (node ∷ nodes) = do
  ranges ← if serves slot node then remove_slot node.slots slot else some node.slots
  rest ← remove_everywhere slot nodes
  some (with_slots ranges node ∷ rest)

unfoldable pub assign_slot : Slot → Text → Method (Option Topology)
unfolding remove_everywhere
assign_slot slot target state =
    let nodes = state.topology.nodes in
    elim (position (has_id target) nodes) [
      | none ↦ some (none, state)
      | some target_index ↦ get_elem? nodes target_index >>= λ found.
          if serves slot found
          then some (none, state)
          else remove_everywhere slot nodes >>= λ nodes. elim (new_range slot slot) [
            | none ↦ some (none, state)
            | some range ↦
                let epoch = next_epoch state.topology.epoch in
                publish
                  (record {
                    epoch = epoch;
                    nodes =
                        modify
                          (λ node. at_epoch epoch (
                            with_slots (compact_ranges (sort_ranges (node.slots ++ range ∷ [])))
                              (promoted node)))
                          target_index nodes;
                  })
                  state
          ]
    ]
