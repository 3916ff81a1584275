-- ===== src/Cluster/State/Failover/Choice.antt =====
-- Which replica is promoted, and on what evidence.
use mathlib.Core.Path.{subst}
use fyro_db.Prelude.{
  ℕ, suc, ◌+◌, ◌≤◌, ◌≡◌, refl, ap, sym, ◌∙◌, Bool, true, false, ◌||◌, not, Option, none, some, List,
  [], ◌∷◌, arith, ltb, ◌==◌, if◌then◌else◌, All, position, position-lt, position-get_elem?,
  get_elem?, get_elem?-lt, Bool-cases, Option-cases, inl, inr,
}
use fyro_db.Cluster.Topology.{Text, Topology, NodeInfo, is_primary}
use fyro_db.Cluster.Failure.{report_count}
use fyro_db.Cluster.State.{ClusterState, publish, install_topology, has_id}
use fyro_db.Cluster.State.Failover.{
  text_leb, rank_leb, replica_of, better, best_replica, hand_over, promote_replica,
}

text_leb_refl : (xs : Text) → text_leb xs xs ≡ true
unfolding text_leb
text_leb_refl [] = refl
text_leb_refl (x ∷ xs) = ground (arith, text_leb_refl xs)

text_leb_trans :
    (xs ys zs : Text) → text_leb xs ys ≡ true → text_leb ys zs ≡ true → text_leb xs zs ≡ true
unfolding text_leb
text_leb_trans [] ys zs p q = refl
text_leb_trans (x ∷ xs) [] zs p q = cc
text_leb_trans (x ∷ xs) (y ∷ ys) [] p q = cc
text_leb_trans (x ∷ xs) (y ∷ ys) (z ∷ zs) p q = ground (arith, text_leb_trans xs ys zs)

text_leb_total : (xs ys : Text) → text_leb xs ys ≡ false → text_leb ys xs ≡ true
unfolding text_leb
text_leb_total [] ys p = cc
text_leb_total (x ∷ xs) [] p = refl
text_leb_total (x ∷ xs) (y ∷ ys) p = ground (arith, text_leb_total xs ys)

rank_leb_refl : (a : NodeInfo) → rank_leb a a ≡ true
unfolding rank_leb
rank_leb_refl a = ground (arith, text_leb_refl a.id)

rank_leb_trans :
    (a b c : NodeInfo) → rank_leb a b ≡ true → rank_leb b c ≡ true → rank_leb a c ≡ true
unfolding rank_leb
rank_leb_trans a b c p q = ground (arith, text_leb_trans c.id b.id a.id)

rank_leb_total : (a b : NodeInfo) → rank_leb a b ≡ false → rank_leb b a ≡ true
unfolding rank_leb
rank_leb_total a b p = ground (arith, text_leb_total b.id a.id)

-- A replica of the failed node at its index, which no replica among some nodes outranks.
pub record IsBest (failed_id : Text) (whole nodes : List NodeInfo) (best : ℕ × NodeInfo)
    : Type 0 where
  pub place : get_elem? whole best.0 ≡ some best.1
  pub is_replica : replica_of failed_id best.1 ≡ true
  pub highest : All (λ node. replica_of failed_id node ≡ true → rank_leb node best.1 ≡ true) nodes

-- The bound that the search started from.
abbrev Above : Option (ℕ × NodeInfo) → NodeInfo → Type 0
Above none node = Unit
Above (some best) node = rank_leb best.1 node ≡ true

abbrev Held : Text → List NodeInfo → Option (ℕ × NodeInfo) → Type 0
Held failed_id whole none = Unit
Held failed_id whole (some best) =
    (get_elem? whole best.0 ≡ some best.1) × (replica_of failed_id best.1 ≡ true)

-- One more candidate.
better_lem :
    (failed_id : Text) (whole : List NodeInfo) (i : ℕ) (node : NodeInfo)
    (best : Option (ℕ × NodeInfo))
    → get_elem? whole i ≡ some node
    → replica_of failed_id node ≡ true
    → Held failed_id whole best
    → Held failed_id whole (better (i, node) best)
      × ((top : NodeInfo)
          → Above (better (i, node) best) top
          → Above best top × (rank_leb node top ≡ true))
better_lem failed_id whole i node none p r h = ((p, r), λ top a. (tt, a))
better_lem failed_id whole i node (some best) p r h = elim (Bool-cases (rank_leb best.1 node)) [
  | inl e ↦ rw e ((p, r), λ top a. (rank_leb_trans best.1 node top e a, a))
  | inr e ↦ rw e (h, λ top a. (a, rank_leb_trans node best.1 top (rank_leb_total best.1 node e) a))
]

best_lem :
    (failed_id : Text) (whole : List NodeInfo) (i : ℕ) (nodes : List NodeInfo)
    (best : Option (ℕ × NodeInfo)) (result : ℕ × NodeInfo)
    → ((k : ℕ) → get_elem? whole (i + k) ≡ get_elem? nodes k)
    → Held failed_id whole best
    → best_replica failed_id i nodes best ≡ some result
    → IsBest failed_id whole nodes result × Above best result.1
unfolding best_replica
best_lem failed_id whole i [] none result at h e = cc
best_lem failed_id whole i [] (some best) result at h e =
    let same : best ≡ result = cc in
    subst (λ r. IsBest failed_id whole [] r × (rank_leb best.1 r.1 ≡ true)) same
      (record { place = h.0; is_replica = h.1; highest = tt }, rank_leb_refl best.1)
best_lem failed_id whole i (node ∷ nodes) best result at h e =
    elim (Bool-cases (replica_of failed_id node)) [
      | inl r ↦
          let (held, above) = better_lem failed_id whole i node best here r h in
          let (found, a) =
            best_lem failed_id whole (i + 1) nodes (better (i, node) best) result next held
              (sym (ap onward r) ∙ e) in
          let (b, c) = above result.1 a in
          (
            record {
              place = found.place;
              is_replica = found.is_replica;
              highest = (λ _. c, found.highest);
            },
            b,
          )
      | inr r ↦
          let (found, a) =
            best_lem failed_id whole (i + 1) nodes best result next h (sym (ap onward r) ∙ e) in
          (
            record {
              place = found.place;
              is_replica = found.is_replica;
              highest = (λ is_one. cc, found.highest);
            },
            a,
          )
    ]
  where
    here : get_elem? whole i ≡ some node
    here = ap (get_elem? whole) (omega arith) ∙ at 0

    onward : Bool → Option (ℕ × NodeInfo)
    onward b = best_replica failed_id (i + 1) nodes (if b then better (i, node) best else best)

    next : (k : ℕ) → get_elem? whole ((i + 1) + k) ≡ get_elem? nodes k
    next k = ap (get_elem? whole) (omega arith) ∙ at (suc k)

-- A promotion and what justifies it.
pub record Justified (failed_id : Text) (epoch : ℕ) (state after : ClusterState)
    (topology : Topology) : Type 0 where
  pub failed_index : ℕ
  pub failed : NodeInfo
  pub best : ℕ × NodeInfo
  pub quorum : state.failures.quorum ≤ report_count failed_id epoch state.failures
  pub same_epoch : state.topology.epoch ≡ epoch
  pub found : get_elem? state.topology.nodes failed_index ≡ some failed
  pub named : has_id failed_id failed ≡ true
  pub was_primary : is_primary failed.role ≡ true
  pub chosen : IsBest failed_id state.topology.nodes state.topology.nodes best
  pub installed : after.topology ≡ topology
  pub handed : topology ≡ hand_over failed_index best.0 failed state.topology

published :
    (topology answer : Topology) (state after : ClusterState)
    → publish topology state ≡ some (some answer, after)
    → (answer ≡ topology) × (after.topology ≡ topology)
unfolding publish install_topology
published topology answer state after e = ground arith

-- When `promote_replica` returns a topology, the reports for the failed node at this epoch reached
-- the quorum, the epoch is that of the topology, the failed node was a primary, and the node that
-- takes over its slots is a replica of it that no other replica of it outranks; the topology is
-- the one installed, and differs in these two nodes and the epochs only.
pub promote_replica-Justified :
    (failed_id : Text) (epoch : ℕ) (state after : ClusterState) (topology : Topology)
    → promote_replica failed_id epoch state ≡ some (some topology, after)
    → Justified failed_id epoch state after topology
unfolding promote_replica
promote_replica-Justified failed_id epoch state after topology h =
    elim (Bool-cases (
      ltb (report_count failed_id epoch state.failures) state.failures.quorum
      || not (state.topology.epoch == epoch))) [
        | inl e ↦ absurd (refused (rw (e, promote_replica) at h))
        | inr agreed ↦ elim (Option-cases (position (has_id failed_id) state.topology.nodes)) [
          | inl e ↦ absurd (refused (rw (agreed, e, promote_replica) at h))
          | inr (i, ei) ↦
              let nodes = state.topology.nodes in
              let (failed, ef) = get_elem?-lt i nodes (position-lt _ nodes i ei) in
              elim (Bool-cases (is_primary failed.role)) [
                | inr e ↦ absurd (refused (rw (agreed, ei, ef, e, promote_replica) at h))
                | inl e ↦ elim (Option-cases (best_replica failed_id 0 nodes none)) [
                  | inl eb ↦ absurd (refused (rw (agreed, ei, ef, e, eb, promote_replica) at h))
                  | inr (best, eb) ↦
                      let (answer, put) =
                        published _ topology state after
                          (rw (agreed, ei, ef, e, eb, promote_replica) at h) in
                      record {
                        failed_index = i;
                        failed = failed;
                        best = best;
                        quorum = ground arith;
                        same_epoch = ground arith;
                        found = ef;
                        named = position-get_elem? (has_id failed_id) nodes i failed ei ef;
                        was_primary = e;
                        chosen =
                            (best_lem failed_id nodes 0 nodes none best
                              (λ k. ap (get_elem? nodes) (omega arith)) tt eb).0;
                        installed = put ∙ sym answer;
                        handed = answer;
                      }
                ]
              ]
        ]
      ]
  where
    nothing : Option (Option Topology × ClusterState)
    nothing = some (none, state)

    refused : ¬ (nothing ≡ some (some topology, after))
    refused e = cc
