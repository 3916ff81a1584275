-- ===== src/Cluster/State/Members.antt =====
-- The methods of `ClusterState` that add and remove nodes and their slots (src/cluster/state.rs).
use fyro_db.Prelude.{
  ℕ, zero, suc, Option, none, some, List, [], ◌∷◌, ◌++◌, if◌then◌else◌, ◌>>=◌, position, modify,
  any,
}
use fyro_db.Cluster.Hash.{Slot, new_range}
use fyro_db.Cluster.Topology.{Text, Topology, NodeInfo, serves}
use fyro_db.Cluster.State.{Method, next_epoch, publish, install_topology, has_id}
use fyro_db.Cluster.State.Ranges.{remove_slot, compact_ranges, sort_ranges, push_unwrap}
use fyro_db.Cluster.State.Moves.{update_slots, at_epoch, with_slots}

unfoldable pub meet_node : NodeInfo → Method (Option Topology)
meet_node node state =
    if any (has_id node.id) state.topology.nodes
    then some (none, state)
    else publish
        (record {
          epoch = next_epoch state.topology.epoch;
          nodes = state.topology.nodes ++ node ∷ [];
        })
        state

-- The loop over the slots: the nodes after it, `none` when it returns early; or a panic.
unfoldable pub add_loop : ℕ → List Slot → List NodeInfo → Option (Option (List NodeInfo))
unfolding update_slots
add_loop i [] nodes = some (some nodes)
add_loop i (slot ∷ slots) nodes =
    let rest =
      update_slots (λ ranges. push_unwrap ranges (new_range slot slot)) i nodes
      >>= add_loop i slots in
    if any (serves slot) nodes then some none else rest

unfoldable pub add_slots : Text → List Slot → Method (Option Topology)
unfolding add_loop
add_slots node_id slots state = elim (position (has_id node_id) state.topology.nodes) [
  | none ↦ some (none, state)
  | some i ↦ add_loop i slots state.topology.nodes >>= λ added. elim added [
    | none ↦ some (none, state)
    | some nodes ↦
        let epoch = next_epoch state.topology.epoch in
        publish
          (record {
            epoch = epoch;
            nodes =
                modify
                  (λ node.
                    at_epoch epoch (with_slots (compact_ranges (sort_ranges node.slots)) node))
                  i nodes;
          })
          state
  ]
]

unfoldable pub del_loop : ℕ → List Slot → List NodeInfo → Option (List NodeInfo)
unfolding update_slots
del_loop i [] nodes = some nodes
del_loop i (slot ∷ slots) nodes =
    update_slots (λ ranges. remove_slot ranges slot) i nodes >>= del_loop i slots

unfoldable pub del_slots : Text → List Slot → Method (Option Topology)
unfolding del_loop
del_slots node_id slots state = elim (position (has_id node_id) state.topology.nodes) [
  | none ↦ some (none, state)
  | some i ↦ del_loop i slots state.topology.nodes >>= λ nodes.
      let epoch = next_epoch state.topology.epoch in
      publish (record { epoch = epoch; nodes = modify (at_epoch epoch) i nodes }) state
]

-- `Vec::remove`
abbrev pub erase {ℓ} : {A : Type ℓ} → ℕ → List A → List A
erase i [] = []
erase zero (x ∷ xs) = xs
erase (suc i) (x ∷ xs) = x ∷ erase i xs

unfoldable pub forget_node : Text → Method (Option Topology)
forget_node node_id state = elim (position (has_id node_id) state.topology.nodes) [
  | none ↦ some (none, state)
  | some i ↦
      publish
        (record { epoch = next_epoch state.topology.epoch; nodes = erase i state.topology.nodes })
        state
]

-- `iter_mut().find`: the first node with the identifier loses its slots.
unfoldable pub clear_slots : Text → List NodeInfo → List NodeInfo
clear_slots node_id nodes = elim (position (has_id node_id) nodes) [
  | none ↦ nodes
  | some i ↦ modify (with_slots []) i nodes
]

unfoldable pub reset_slots : Text → Method Topology
unfolding clear_slots
reset_slots node_id state =
    let topology : Topology = record {
      epoch = next_epoch state.topology.epoch;
      nodes = clear_slots node_id state.topology.nodes;
    } in
    install_topology topology state >>= λ state. some (topology, state)
