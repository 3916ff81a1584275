-- ===== src/Cluster/State/Safety/Members.antt =====
-- The methods that add and remove nodes, give and take their slots, or promote a replica return,
-- and leave a safe state.
use fyro_db.Prelude.{
  ℕ, zero, suc, ◌<◌, ◌≡◌, refl, ◌∙◌, ◌||◌, not, none, some, List, [], ◌∷◌, arith, ltb, any, ◌==◌,
  All, All-append, All-modify, All-get_elem?, get_elem?-lt, position, position-lt, Bool-cases,
  Option-cases, ◌⊎◌, inl, inr, length,
}
use fyro_db.Cluster.Hash.{hash_slots, Slot}
use fyro_db.Cluster.Topology.{Text, Topology, NodeInfo, is_primary, serves}
use fyro_db.Cluster.Topology.Ownership.{HasRanges}
use fyro_db.Cluster.Failure.{report_count}
use fyro_db.Cluster.State.{ClusterState, next_epoch, has_id}
use fyro_db.Cluster.State.Ranges.Cover.{compact_sorted}
use fyro_db.Cluster.State.Members.{
  meet_node, add_loop, add_slots, del_loop, del_slots, erase, forget_node, clear_slots, reset_slots,
}
use fyro_db.Cluster.State.Failover.{best_replica, hand_over, promote_replica}
use fyro_db.Cluster.State.Safety.{IsSafe, Runs, stays, install_lem, publish-Runs}
use fyro_db.Cluster.State.Safety.Edits.{
  Edited, update_slots-Edited, remove_slot-Keeps, push-Keeps, at_epoch-ranges,
}

abbrev pub InBounds : List Slot → Type 0
InBounds = All (λ slot. slot.value < hash_slots)

pub meet_node-Runs :
    (node : NodeInfo) (state : ClusterState)
    → HasRanges node
    → IsSafe state
    → Runs (meet_node node state)
unfolding meet_node
meet_node-Runs node state hn h = elim (Bool-cases (any (has_id node.id) state.topology.nodes)) [
  | inl e ↦ rw (e, meet_node) (stays none state h)
  | inr e ↦
      rw (e, meet_node)
        (publish-Runs _ state (All-append HasRanges state.topology.nodes _ h.ranged (hn, tt)) h)
]

-- The loop of `add_slots` returns early, or leaves edited nodes.
add_loop_lem :
    (i : ℕ) (slots : List Slot) (nodes : List NodeInfo)
    → InBounds slots
    → i < length nodes
    → All HasRanges nodes
    → (add_loop i slots nodes ≡ some none)
      ⊎ ((edited : List NodeInfo) × (add_loop i slots nodes ≡ some (some edited))
          × All HasRanges edited)
unfolding add_loop
add_loop_lem i [] nodes hs hi h = unfold add_loop in inr (nodes, refl, h)
add_loop_lem i (slot ∷ slots) nodes (hx, hs) hi h =
    let edit = update_slots-Edited _ i nodes (push-Keeps slot hx) hi h in
    elim (Bool-cases (any (serves slot) nodes)) [
      | inl e ↦ inl (rw (e, add_loop) refl)
      | inr e ↦
          rw (e, edit.returns, add_loop)
            (add_loop_lem i slots edit.edited hs (omega (arith, edit.size)) edit.ranged)
    ]

pub add_slots-Runs :
    (node_id : Text) (slots : List Slot) (state : ClusterState)
    → InBounds slots
    → IsSafe state
    → Runs (add_slots node_id slots state)
unfolding add_slots
add_slots-Runs node_id slots state hs h =
    elim (Option-cases (position (has_id node_id) state.topology.nodes)) [
      | inl e ↦ rw (e, add_slots) (stays none state h)
      | inr (i, ei) ↦
          elim (add_loop_lem i slots state.topology.nodes hs (position-lt _ _ i ei) h.ranged) [
            | inl e ↦ rw (ei, e, add_slots) (stays none state h)
            | inr (edited, e, hn) ↦
                rw (ei, e, add_slots)
                  (publish-Runs _ state
                    (All-modify HasRanges _ i edited (λ node hr. (compact_sorted node.slots hr).0)
                      hn)
                    h)
          ]
    ]

del_loop-Edited :
    (i : ℕ) (slots : List Slot) (nodes : List NodeInfo)
    → i < length nodes
    → All HasRanges nodes
    → Edited nodes (del_loop i slots nodes)
unfolding del_loop
del_loop-Edited i [] nodes hi h = record { edited = nodes; returns = refl; ranged = h; size = refl }
del_loop-Edited i (slot ∷ slots) nodes hi h =
    let edit = update_slots-Edited _ i nodes (remove_slot-Keeps slot) hi h in
    let rest = del_loop-Edited i slots edit.edited (omega (arith, edit.size)) edit.ranged in
    record {
      edited = rest.edited;
      returns = rw edit.returns rest.returns;
      ranged = rest.ranged;
      size = rest.size ∙ edit.size;
    }

pub del_slots-Runs :
    (node_id : Text) (slots : List Slot) (state : ClusterState)
    → IsSafe state
    → Runs (del_slots node_id slots state)
unfolding del_slots
del_slots-Runs node_id slots state h =
    elim (Option-cases (position (has_id node_id) state.topology.nodes)) [
      | inl e ↦ rw (e, del_slots) (stays none state h)
      | inr (i, ei) ↦
          let edit = del_loop-Edited i slots state.topology.nodes (position-lt _ _ i ei) h.ranged in
          rw (ei, edit.returns, del_slots)
            (publish-Runs _ state (at_epoch-ranges _ i edit.edited edit.ranged) h)
    ]

All-erase : (i : ℕ) (nodes : List NodeInfo) → All HasRanges nodes → All HasRanges (erase i nodes)
All-erase i [] h = tt
All-erase zero (node ∷ nodes) h = h.1
All-erase (suc i) (node ∷ nodes) h = (h.0, All-erase i nodes h.1)

pub forget_node-Runs :
    (node_id : Text) (state : ClusterState) → IsSafe state → Runs (forget_node node_id state)
unfolding forget_node
forget_node-Runs node_id state h =
    elim (Option-cases (position (has_id node_id) state.topology.nodes)) [
      | inl e ↦ rw (e, forget_node) (stays none state h)
      | inr (i, ei) ↦ rw (ei, forget_node) (publish-Runs _ state (All-erase i _ h.ranged) h)
    ]

clear_slots-ranges :
    (node_id : Text) (nodes : List NodeInfo)
    → All HasRanges nodes
    → All HasRanges (clear_slots node_id nodes)
unfolding clear_slots
clear_slots-ranges node_id nodes h = elim (Option-cases (position (has_id node_id) nodes)) [
  | inl e ↦ rw (e, clear_slots) h
  | inr (i, ei) ↦ rw (ei, clear_slots) (All-modify HasRanges _ i nodes (λ node hn. tt) h)
]

pub reset_slots-Runs :
    (node_id : Text) (state : ClusterState) → IsSafe state → Runs (reset_slots node_id state)
unfolding reset_slots
reset_slots-Runs node_id state h =
    let topology : Topology = record {
      epoch = next_epoch state.topology.epoch;
      nodes = clear_slots node_id state.topology.nodes;
    } in
    let (after, e, safe) = install_lem topology state (clear_slots-ranges node_id _ h.ranged) h in
    record { answer = topology; after = after; returns = rw e; safe = safe }

pub promote_replica-Runs :
    (failed_id : Text) (epoch : ℕ) (state : ClusterState)
    → IsSafe state
    → Runs (promote_replica failed_id epoch state)
unfolding promote_replica
promote_replica-Runs failed_id epoch state h =
    elim (Bool-cases (
      ltb (report_count failed_id epoch state.failures) state.failures.quorum
      || not (state.topology.epoch == epoch))) [
        | inl e ↦ rw (e, promote_replica) (stays none state h)
        | inr agreed ↦ elim (Option-cases (position (has_id failed_id) state.topology.nodes)) [
          | inl e ↦ rw (agreed, e, promote_replica) (stays none state h)
          | inr (i, ei) ↦
              let nodes = state.topology.nodes in
              let (failed, ef) = get_elem?-lt i nodes (position-lt _ nodes i ei) in
              elim (Bool-cases (is_primary failed.role)) [
                | inr e ↦ rw (agreed, ei, ef, e, promote_replica) (stays none state h)
                | inl e ↦ elim (Option-cases (best_replica failed_id 0 nodes none)) [
                  | inl eb ↦ rw (agreed, ei, ef, e, eb, promote_replica) (stays none state h)
                  | inr (best, eb) ↦
                      rw (agreed, ei, ef, e, eb, promote_replica)
                        (publish-Runs _ state
                          (handed i best.0 failed
                            (All-get_elem? HasRanges i nodes failed h.ranged ef))
                          h)
                ]
              ]
        ]
      ]
  where
    handed :
        (i j : ℕ) (failed : NodeInfo)
        → HasRanges failed
        → All HasRanges (hand_over i j failed state.topology).nodes
    handed i j failed hf =
        unfold hand_over in
        All-modify HasRanges _ j _ (λ node hn. hf)
          (All-modify HasRanges _ i _ (λ node hn. tt) h.ranged)
