-- ===== src/Cluster/Transport/TopologyCodec/Bounds.antt =====
-- Whatever bytes are decoded, the ranges of the topology are ordered and in bounds.
use mathlib.Core.Path.{subst}
use fyro_db.Prelude.{ℕ, zero, suc, ◌<◌, ◌≡◌, List, [], ◌∷◌, arith, ltb, All, Bool-cases, inl, inr}
use fyro_db.Cluster.Hash.{hash_slots, Slot, new_slot, new_range}
use fyro_db.Cluster.Topology.{Topology, NodeInfo}
use fyro_db.Cluster.Topology.Ownership.{IsRange, HasRanges}
use fyro_db.Cluster.Transport.TopologyCodec.{
  Outcome, value, failure, ◌>>=◌, ok_or_invalid, take_number, take_string, take_slot, take_role,
  decode_ranges, decode_node, decode_nodes, finish, decode_topology, max_nodes,
}

-- What holds of a result, if there is one.
abbrev Ensures {κ μ} : {A : Type κ} → (A → Type μ) → Outcome A → Type μ
Ensures P (failure reason) = Unit
Ensures P (value a) = P a

bind-Ensures {κ μ ν ρ} :
    {A : Type κ} {B : Type μ} (P : A → Type ν) (Q : B → Type ρ) (m : Outcome A)
    (next : A → Outcome B)
    → Ensures P m
    → ((a : A) → P a → Ensures Q (next a))
    → Ensures Q (m >>= next)
bind-Ensures P Q (failure reason) next h k = tt
bind-Ensures P Q (value a) next h k = k a h

-- A step of which nothing is needed.
skip {κ μ ρ} :
    {A : Type κ} {B : Type μ} (Q : B → Type ρ) (m : Outcome A) (next : A → Outcome B)
    → ((a : A) → Ensures Q (next a))
    → Ensures Q (m >>= next)
skip Q (failure reason) next k = tt
skip Q (value a) next k = k a

take_slot-Ensures : (input : List ℕ) → Ensures (λ p. p.0.value < hash_slots) (take_slot input)
unfolding take_slot new_slot
take_slot-Ensures input = skip _ (take_number 2 input) _ λ p. ground arith

new_range-IsRange :
    (start end : Slot)
    → end.value < hash_slots
    → Ensures IsRange (ok_or_invalid (new_range start end))
unfolding new_range
new_range-IsRange start end h = ground arith

decode_ranges-Ensures :
    (count : ℕ) (input : List ℕ) → Ensures (λ p. All IsRange p.0) (decode_ranges count input)
unfolding decode_ranges
decode_ranges-Ensures zero input = tt
decode_ranges-Ensures (suc count) input = skip _ (take_slot input) _ λ start.
    bind-Ensures (λ p. p.0.value < hash_slots) _ (take_slot start.1) _ (take_slot-Ensures start.1)
      λ end he.
        bind-Ensures IsRange _ (ok_or_invalid (new_range start.0 end.0)) _
          (new_range-IsRange start.0 end.0 he)
          λ range hr.
            bind-Ensures (λ p. All IsRange p.0) _ (decode_ranges count end.1) _
              (decode_ranges-Ensures count end.1) λ rest h. (hr, h)

decode_node-Ensures : (input : List ℕ) → Ensures (λ p. HasRanges p.0) (decode_node input)
unfolding decode_node
decode_node-Ensures input = skip _ (take_string input) _ λ id.
    skip _ (take_string id.1) _ λ address. skip _ (take_string address.1) _ λ cluster_address.
      skip _ (take_role cluster_address.1) _ λ role. skip _ (take_string role.1) _ λ replica_of.
        skip _ (take_number 8 replica_of.1) _ λ epoch. skip _ (take_number 2 epoch.1) _ λ count.
          bind-Ensures (λ p. All IsRange p.0) _ (decode_ranges count.0 count.1) _
            (decode_ranges-Ensures count.0 count.1) λ slots h. h

decode_nodes-Ensures :
    (count : ℕ) (input : List ℕ) → Ensures (λ p. All HasRanges p.0) (decode_nodes count input)
unfolding decode_nodes
decode_nodes-Ensures zero input = tt
decode_nodes-Ensures (suc count) input =
    bind-Ensures (λ p. HasRanges p.0) _ (decode_node input) _ (decode_node-Ensures input)
      λ node hn.
        bind-Ensures (λ p. All HasRanges p.0) _ (decode_nodes count node.1) _
          (decode_nodes-Ensures count node.1) λ rest h. (hn, h)

finish-Ensures :
    (epoch : ℕ) (p : List NodeInfo × List ℕ)
    → All HasRanges p.0
    → Ensures (λ t. All HasRanges t.nodes) (finish epoch p)
finish-Ensures epoch (nodes, []) h = h
finish-Ensures epoch (nodes, byte ∷ rest) h = tt

decode_topology-Ensures :
    (bytes : List ℕ) → Ensures (λ t. All HasRanges t.nodes) (decode_topology bytes)
unfolding decode_topology
decode_topology-Ensures bytes = skip _ (take_number 8 bytes) _ λ epoch.
    skip _ (take_number 4 epoch.1) _ λ count. elim (Bool-cases (ltb max_nodes count.0)) [
      | inl many ↦ rw many tt
      | inr few ↦ rw few (
          bind-Ensures (λ p. All HasRanges p.0) _ (decode_nodes count.0 count.1) _
            (decode_nodes-Ensures count.0 count.1) (finish-Ensures epoch.0))
    ]

-- A topology that is decoded has only ranges that are ordered and in bounds.
pub decode_topology-HasRanges :
    (bytes : List ℕ) (topology : Topology)
    → decode_topology bytes ≡ value topology
    → All HasRanges topology.nodes
decode_topology-HasRanges bytes topology e =
    subst (Ensures (λ t. All HasRanges t.nodes)) e (decode_topology-Ensures bytes)
