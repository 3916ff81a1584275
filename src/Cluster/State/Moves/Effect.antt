-- ===== src/Cluster/State/Moves/Effect.antt =====
-- Which node serves which slot after `assign_slot`.
use mathlib.Core.Option
use fyro_db.Prelude.{
  ℕ, zero, suc, ◌<◌, ◌≡◌, refl, ap, ◌∙◌, true, false, ◌&&◌, ◌||◌, not, Option, none, some, List, [],
  ◌∷◌, ◌++◌, arith, ◌==◌, ==_iff, if◌then◌else◌, All, All-append, All-modify, position, modify,
  get_elem?, Bool-cases, inl, inr,
}
use fyro_db.Cluster.Hash.{hash_slots, Slot, SlotRange, contains}
use fyro_db.Cluster.Topology.{Text, Topology, NodeInfo, serves}
use fyro_db.Cluster.Topology.Ownership.{IsRange, HasRanges, build_table_total}
use fyro_db.Cluster.State.{ClusterState, next_epoch, publish, install_topology, has_id}
use fyro_db.Cluster.State.Ranges.{remove_slot, compact_ranges, sort_ranges, covers, same_slot}
use fyro_db.Cluster.State.Ranges.Cover.{Removed, remove_slot-Removed, compact_sorted, any-append}
use fyro_db.Cluster.State.Moves.{promoted, at_epoch, with_slots, remove_everywhere, assign_slot}
use fyro_db.Cluster.State.Safety.{IsSafe}
use fyro_db.Cluster.State.Safety.Edits.{single, new_range-single, single-IsRange}

covers-same :
    (ranges : List SlotRange) (x slot : Slot)
    → same_slot x slot ≡ true
    → covers ranges x ≡ covers ranges slot
covers-same ranges x slot e =
    ap (λ v. covers ranges (record { value = v })) ((==_iff x.value slot.value).0 e)

contains-single : (slot x : Slot) → contains (single slot) x ≡ same_slot x slot
unfolding contains
contains-single slot x = ground arith

-- The nodes without a slot.
record Swept (slot : Slot) (nodes : List NodeInfo) (result : Option (List NodeInfo)) : Type 0 where
  edited : List NodeInfo
  returns : result ≡ some edited
  ranged : All HasRanges edited
  at :
      (x : Slot) (j : ℕ)
      → Option.map (serves x) (get_elem? edited j)
        ≡ Option.map (λ node. serves x node && not (same_slot x slot)) (get_elem? nodes j)

remove_everywhere-Swept :
    (slot : Slot) (nodes : List NodeInfo)
    → All HasRanges nodes
    → Swept slot nodes (remove_everywhere slot nodes)
unfolding remove_everywhere
remove_everywhere-Swept slot [] h = record {
  edited = [];
  returns = refl;
  ranged = tt;
  at = λ x j. refl;
}
remove_everywhere-Swept slot (node ∷ nodes) (hn, h) =
    let rest = remove_everywhere-Swept slot nodes h in
    elim (Bool-cases (serves slot node)) [
      | inl e ↦ cut e rest (remove_slot-Removed node.slots slot hn)
      | inr e ↦ kept e rest
    ]
  where
    cut :
        serves slot node ≡ true
        → Swept slot nodes (remove_everywhere slot nodes)
        → Removed node.slots slot (remove_slot node.slots slot)
        → Swept slot (node ∷ nodes) (remove_everywhere slot (node ∷ nodes))
    cut e rest removed = record {
      edited = with_slots removed.left node ∷ rest.edited;
      returns = rw (e, removed.returns, rest.returns);
      ranged = (removed.ranged, rest.ranged);
      at = placed;
    }
      where
        placed :
            (x : Slot) (j : ℕ)
            → Option.map (serves x) (get_elem? (with_slots removed.left node ∷ rest.edited) j)
              ≡ Option.map
                  (λ node. serves x node && not (same_slot x slot))
                  (get_elem? (node ∷ nodes) j)
        placed x zero = ap some (removed.covered x)
        placed x (suc j) = rest.at x j

    kept :
        serves slot node ≡ false
        → Swept slot nodes (remove_everywhere slot nodes)
        → Swept slot (node ∷ nodes) (remove_everywhere slot (node ∷ nodes))
    kept e rest = record {
      edited = node ∷ rest.edited;
      returns = rw (e, rest.returns);
      ranged = (hn, rest.ranged);
      at = placed;
    }
      where
        placed :
            (x : Slot) (j : ℕ)
            → Option.map (serves x) (get_elem? (node ∷ rest.edited) j)
              ≡ Option.map
                  (λ node. serves x node && not (same_slot x slot))
                  (get_elem? (node ∷ nodes) j)
        placed x zero = ap some (ground (arith, covers-same node.slots x slot))
        placed x (suc j) = rest.at x j

-- A call that moves a slot to the node at an index.
pub record Moved (slot : Slot) (i : ℕ) (state : ClusterState)
    (result : Option (Option Topology × ClusterState)) : Type 0 where
  pub topology : Topology
  pub after : ClusterState
  pub returns : result ≡ some (some topology, after)
  pub installed : after.topology ≡ topology
  pub newer : topology.epoch ≡ next_epoch state.topology.epoch
  pub placed :
      (x : Slot) (j : ℕ)
      → Option.map (serves x) (get_elem? topology.nodes j)
        ≡ Option.map
            (λ node.
              if j == i
              then serves x node || same_slot x slot
              else serves x node && not (same_slot x slot))
            (get_elem? state.topology.nodes j)

-- The target's ranges after the push, the sort and the compaction.
compacted_lem :
    (slot x : Slot) (node : NodeInfo)
    → slot.value < hash_slots
    → HasRanges node
    → covers (compact_ranges (sort_ranges (node.slots ++ single slot ∷ []))) x
      ≡ serves x node || same_slot x slot
compacted_lem slot x node hs hn =
    (compact_sorted (node.slots ++ single slot ∷ [])
        (All-append IsRange node.slots _ hn (single-IsRange slot hs, tt))).1
      x
    ∙ any-append _ node.slots (single slot ∷ [])
    ∙ ground (arith, contains-single slot x)

abbrev gain : Slot → ℕ → NodeInfo → NodeInfo
gain slot epoch node =
    at_epoch epoch
      (with_slots (compact_ranges (sort_ranges (node.slots ++ single slot ∷ []))) (promoted node))

gained :
    (slot x : Slot) (epoch i j : ℕ) (edited : List NodeInfo)
    → slot.value < hash_slots
    → All HasRanges edited
    → Option.map (serves x) (get_elem? (modify (gain slot epoch) i edited) j)
      ≡ Option.map
          (λ b. if j == i then b || same_slot x slot else b)
          (Option.map (serves x) (get_elem? edited j))
gained slot x epoch i j [] hs h = refl
gained slot x epoch zero zero (node ∷ edited) hs (hn, h) = ap some (compacted_lem slot x node hs hn)
gained slot x epoch zero (suc j) (node ∷ edited) hs (hn, h) = ground arith
gained slot x epoch (suc i) zero (node ∷ edited) hs (hn, h) = ground arith
gained slot x epoch (suc i) (suc j) (node ∷ edited) hs (hn, h) =
    ground (arith, gained slot x epoch i j edited hs h)

publish_lem :
    (topology : Topology) (state : ClusterState)
    → All HasRanges topology.nodes
    → (after : ClusterState) × (publish topology state ≡ some (some topology, after))
      × (after.topology ≡ topology)
unfolding publish install_topology
publish_lem topology state h = let (table, e) = build_table_total topology h in rw e (_, refl, refl)

-- For a slot in bounds, a target that is known and does not serve it yet, `assign_slot` installs a
-- topology with the next epoch in which the target serves that slot besides those it served, and
-- every other node serves what it served without it.
pub assign_slot-Moved :
    (slot : Slot) (target : Text) (state : ClusterState) (i : ℕ) (found : NodeInfo)
    → slot.value < hash_slots
    → IsSafe state
    → position (has_id target) state.topology.nodes ≡ some i
    → get_elem? state.topology.nodes i ≡ some found
    → serves slot found ≡ false
    → Moved slot i state (assign_slot slot target state)
unfolding assign_slot
assign_slot-Moved slot target state i found hs h ei ef e =
    let swept = remove_everywhere-Swept slot state.topology.nodes h.ranged in
    let epoch = next_epoch state.topology.epoch in
    let topology : Topology = record {
      epoch = epoch;
      nodes = modify (gain slot epoch) i swept.edited;
    } in
    let (after, published, installed) =
      publish_lem topology state
        (All-modify HasRanges _ i swept.edited gain-HasRanges swept.ranged) in
    record {
      topology = topology;
      after = after;
      returns = rw (ei, ef, e, swept.returns, new_range-single slot, assign_slot) published;
      installed = installed;
      newer = refl;
      placed = λ x j.
          gained slot x epoch i j swept.edited hs swept.ranged
          ∙ ap (Option.map (λ b. if j == i then b || same_slot x slot else b)) (swept.at x j)
          ∙ together x j (get_elem? state.topology.nodes j);
    }
  where
    gain-HasRanges :
        (node : NodeInfo)
        → HasRanges node
        → HasRanges (gain slot (next_epoch state.topology.epoch) node)
    gain-HasRanges node hn =
        (compact_sorted (node.slots ++ single slot ∷ [])
          (All-append IsRange node.slots _ hn (single-IsRange slot hs, tt))).0

    together :
        (x : Slot) (j : ℕ) (o : Option NodeInfo)
        → Option.map
            (λ b. if j == i then b || same_slot x slot else b)
            (Option.map (λ node. serves x node && not (same_slot x slot)) o)
          ≡ Option.map
              (λ node.
                if j == i
                then serves x node || same_slot x slot
                else serves x node && not (same_slot x slot))
              o
    together x j none = refl
    together x j (some node) = ground arith
