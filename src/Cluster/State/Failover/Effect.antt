-- ===== src/Cluster/State/Failover/Effect.antt =====
-- What every node is after a promotion.
use mathlib.Core.Option
use fyro_db.Prelude.{
  ℕ, zero, suc, ◌≡◌, refl, sym, ap, ◌∙◌, inl, inr, true, false, none, some, Bool-cases, List, [],
  ◌∷◌, arith, ◌==◌, if◌then◌else◌, modify, get_elem?,
}
use mathlib.Core.Option.{some-injective}
use fyro_db.Cluster.Topology.{Text, Topology, NodeInfo, primary}
use fyro_db.Cluster.State.{ClusterState, has_id, next_epoch}
use fyro_db.Cluster.State.Moves.{promoted, at_epoch, with_slots}
use fyro_db.Cluster.State.Failover.{replica_of, hand_over, promote_replica}
use fyro_db.Cluster.State.Failover.Choice.{Justified, promote_replica-Justified}

get_elem?-modify :
    {A : Type 0} (f : A → A) (i k : ℕ) (xs : List A)
    → get_elem? (modify f i xs) k
      ≡ (if k == i then Option.map f (get_elem? xs k) else get_elem? xs k)
get_elem?-modify f i k [] = ground arith
get_elem?-modify f zero zero (x ∷ xs) = refl
get_elem?-modify f zero (suc k) (x ∷ xs) = ground arith
get_elem?-modify f (suc i) zero (x ∷ xs) = ground arith
get_elem?-modify f (suc i) (suc k) (x ∷ xs) = ground (arith, get_elem?-modify f i k xs)

abbrev lose : Topology → NodeInfo → NodeInfo
lose topology node = at_epoch (next_epoch topology.epoch) (with_slots [] node)

abbrev gain : NodeInfo → Topology → NodeInfo → NodeInfo
gain failed topology node =
    at_epoch (next_epoch topology.epoch) (with_slots failed.slots (promoted node))

-- A node after the handover, by its index.
abbrev pub handed : ℕ → ℕ → NodeInfo → ℕ → ℕ → NodeInfo → NodeInfo
handed failed_index replica_index failed epoch k node =
    if k == replica_index
    then record node { role = primary; slots = failed.slots; epoch = epoch; replica_of = none }
    else if k == failed_index
    then record node { slots = []; epoch = epoch }
    else node

hand_over-handed :
    (failed_index replica_index : ℕ) (failed : NodeInfo) (topology : Topology) (k : ℕ)
    → (replica_index == failed_index) ≡ false
    → get_elem? (hand_over failed_index replica_index failed topology).nodes k
      ≡ Option.map
          (handed failed_index replica_index failed (next_epoch topology.epoch) k)
          (get_elem? topology.nodes k)
unfolding hand_over
hand_over-handed failed_index replica_index failed topology k apart = ground (
  arith,
  get_elem?-modify (gain failed topology) replica_index k
      (modify (lose topology) failed_index topology.nodes),
  get_elem?-modify (lose topology) failed_index k topology.nodes,
)

-- What a promotion does to every node.
pub record HandedOver (failed_id : Text) (state after : ClusterState) (topology : Topology)
    : Type 0 where
  pub failed_index : ℕ
  pub replica_index : ℕ
  pub failed : NodeInfo
  pub replica : NodeInfo
  pub failed_at : get_elem? state.topology.nodes failed_index ≡ some failed
  pub replica_at : get_elem? state.topology.nodes replica_index ≡ some replica
  pub named : has_id failed_id failed ≡ true
  pub follows : replica_of failed_id replica ≡ true
  pub apart : (replica_index == failed_index) ≡ false
  pub installed : after.topology ≡ topology
  pub epoch : topology.epoch ≡ next_epoch state.topology.epoch
  pub nodes :
      (k : ℕ)
      → get_elem? topology.nodes k
        ≡ Option.map
            (handed failed_index replica_index failed topology.epoch k)
            (get_elem? state.topology.nodes k)

-- When `promote_replica` returns a topology, it is installed, its epoch is the next one, and the
-- nodes are those of the topology before but for two: the failed node that was named has lost its
-- slots, and another node, which was its replica, has exactly those slots, is a primary and follows
-- nobody. These two have the new epoch; every other node is the same in all its fields.
pub promote_replica-HandedOver :
    (failed_id : Text) (epoch : ℕ) (state after : ClusterState) (topology : Topology)
    → promote_replica failed_id epoch state ≡ some (some topology, after)
    → HandedOver failed_id state after topology
promote_replica-HandedOver failed_id epoch state after topology e =
    let j = promote_replica-Justified failed_id epoch state after topology e in
    let next : topology.epoch ≡ next_epoch state.topology.epoch =
      ap (λ (t : Topology). t.epoch) j.handed ∙ unfold hand_over in refl in
    let two : (j.best.0 == j.failed_index) ≡ false = different j in
    record {
      failed_index = j.failed_index;
      replica_index = j.best.0;
      failed = j.failed;
      replica = j.best.1;
      failed_at = j.found;
      replica_at = j.chosen.place;
      named = j.named;
      follows = j.chosen.is_replica;
      apart = two;
      installed = j.installed;
      epoch = next;
      nodes = λ k.
          ap (λ (t : Topology). get_elem? t.nodes k) j.handed
          ∙ hand_over-handed j.failed_index j.best.0 j.failed state.topology k two
          ∙ ap
              (λ n.
                Option.map (handed j.failed_index j.best.0 j.failed n k)
                  (get_elem? state.topology.nodes k))
              (sym next);
    }
  where
    -- A primary is nobody's replica.
    different :
        (j : Justified failed_id epoch state after topology) → (j.best.0 == j.failed_index) ≡ false
    different j = elim (Bool-cases (j.best.0 == j.failed_index)) [
      | inr e ↦ e
      | inl e ↦
          let here : j.best.0 ≡ j.failed_index = ground (arith, e) in
          let same : j.best.1 ≡ j.failed =
            some-injective j.best.1 j.failed
              (sym j.chosen.place ∙ ap (get_elem? state.topology.nodes) here ∙ j.found) in
          let both : replica_of failed_id j.failed ≡ true =
            ap (replica_of failed_id) (sym same) ∙ j.chosen.is_replica in
          absurd (ground (arith, both, j.was_primary))
    ]
