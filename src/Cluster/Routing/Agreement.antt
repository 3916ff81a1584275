-- ===== src/Cluster/Routing/Agreement.antt =====
-- The ways to route a command agree.
use mathlib.Core.Path.{subst}
use fyro_db.Prelude.{
  ℕ, suc, ◌≤◌, ◌<◌, ◌≡◌, refl, ap, sym, ◌∙◌, Bool, ◌&&◌, Option, none, some, List, [], ◌∷◌, arith,
  ◌>>=◌, length, if◌then◌else◌, position, get_elem?, get_elem?-lt, min, bytes_eq, All, Bool-cases,
  Option-cases, inl, inr,
}
use fyro_db.Cluster.Hash.{hash_slots, Slot}
use fyro_db.Cluster.Topology.{
  Text, Topology, RoutingTable, NodeInfo, owner, owner_index, build_table,
}
use fyro_db.Cluster.Topology
use fyro_db.Cluster.Topology.Ownership.{HasRanges, Agrees, build_table-Agrees}
use fyro_db.Cluster.State.{ClusterState, has_id, is_importing, migrating_target}
use fyro_db.Cluster.Routing.{
  key_pattern, indices, steps, routing_scope, first_key, all, every_other, first_two, keyless,
  many_keys, RoutingScope, first, ClusterConfig, RouteDecision, local, moved, moved_node, ask,
  another_slot, route, by_owner, resolve_slot, route_single_key, route_command_with_snapshot,
}

indices-first : (n : ℕ) → indices first (suc n) ≡ 0 ∷ []
unfolding indices steps
indices-first n = let one : min (suc n) 1 ≡ 1 = omega arith in rw one refl

-- The decision of each scope.
abbrev pub by_scope :
    RoutingScope → Option RouteDecision → Option RouteDecision → Option RouteDecision
by_scope keyless single many = some local
by_scope first_key single many = single
by_scope many_keys single many = many

-- With at least one argument, `route_command_with_snapshot` decides by the scope of the command: a
-- keyless command is local, and one whose first argument is its key is decided as
-- `route_single_key` decides on that argument alone.
pub route_command_with_snapshot-routing_scope :
    (memchr : ℕ → List ℕ → Option ℕ) (cluster : ClusterConfig) (state : ClusterState)
    (topology : Topology) (routing : RoutingTable) (command key : List ℕ) (args : List (List ℕ))
    (allow_import : Bool)
    → route_command_with_snapshot memchr cluster state topology routing command
        (key ∷ args)
        allow_import
      ≡ by_scope
          (routing_scope command)
          (route_single_key memchr cluster state topology routing key allow_import)
          (route_command_with_snapshot memchr cluster state topology routing command
            (key ∷ args)
            allow_import)
unfolding routing_scope route_command_with_snapshot route_single_key route another_slot
route_command_with_snapshot-routing_scope memchr cluster state topology routing command key args
      allow_import =
    elim (Option-cases (key_pattern command)) [
      | inl e ↦ rw (e, routing_scope, route_command_with_snapshot, route) ground arith
      | inr (all, e) ↦ rw (e, routing_scope) refl
      | inr (every_other, e) ↦ rw (e, routing_scope) refl
      | inr (first_two, e) ↦ rw (e, routing_scope) refl
      | inr (first, e) ↦
          rw
            (
              e,
              indices-first (length args),
              routing_scope,
              route_command_with_snapshot,
              route,
              route_single_key,
            )
            (elim (Bool-cases cluster.enabled) [ inl on ↦ rw on refl | inr off ↦ rw off refl ])
    ]

some_same : {A : Type 0} (a b : A) → some a ≡ some b → a ≡ b
some_same a b e = cc

-- The address that a redirection by index means.
abbrev pub addressed : Topology → RouteDecision → Option RouteDecision
addressed topology (moved_node slot index) =
    get_elem? topology.nodes index >>= λ node. some (moved slot node.address)
addressed topology decision = some decision

-- A slot of this node that is being migrated away goes to its target, if the topology has it.
abbrev pub unless_migrating :
    Topology → Slot → Option Text → Option RouteDecision → Option RouteDecision
unless_migrating topology slot target (some local) = elim target [
  | none ↦ some local
  | some id ↦ elim (position (has_id id) topology.nodes) [
    | none ↦ some local
    | some node ↦ some (ask slot node)
  ]
]
unless_migrating topology slot target decision = decision

target_gone :
    (topology : Topology) (slot : Slot) (target : Text)
    → position (has_id target) topology.nodes ≡ none
    → unless_migrating topology slot (some target) (some local) ≡ some local
target_gone topology slot target gone = rw (gone, unless_migrating) refl

target_there :
    (topology : Topology) (slot : Slot) (target : Text) (k : ℕ)
    → position (has_id target) topology.nodes ≡ some k
    → unless_migrating topology slot (some target) (some local) ≡ some (ask slot k)
target_there topology slot target k there = rw (there, unless_migrating) refl

-- With the table built from the topology, the decision by the table does not panic. A slot that is
-- being imported is local on an ASK. Otherwise the decision is the one by the search for the owner,
-- once the node's index is replaced by its address, but for a slot of this node that is being
-- migrated away: it is asked of the target, if the topology has that node.
pub resolve_slot-by_owner :
    (cluster : ClusterConfig) (state : ClusterState) (topology : Topology) (routing : RoutingTable)
    (allow_import : Bool) (slot : Slot)
    → length topology.nodes ≤ Topology.unassigned
    → All HasRanges topology.nodes
    → build_table topology ≡ some routing
    → slot.value < hash_slots
    → (resolve_slot cluster state topology routing allow_import slot >>= addressed topology) ≡ (
        if allow_import && is_importing slot state
        then some local
        else unless_migrating topology slot
            (migrating_target slot state)
            (by_owner cluster topology slot))
unfolding resolve_slot by_owner
resolve_slot-by_owner cluster state topology routing allow_import slot few h built hs =
    elim (Bool-cases (allow_import && is_importing slot state)) [
      | inl imported ↦ rw (imported, resolve_slot) refl
      | inr hi ↦ elim (Option-cases (owner_index routing slot)) [
        | inl e ↦
            let unowned : owner topology slot ≡ none = sym agreed ∙ ap nodes_at e in
            rw (hi, e, unowned, resolve_slot, by_owner) refl
        | inr (index, e) ↦
            let (node, found) = get_elem?-lt index topology.nodes (in_bounds index e) in
            let owned : owner topology slot ≡ some node = sym agreed ∙ ap nodes_at e ∙ found in
            elim (Bool-cases (bytes_eq node.id cluster.local_id)) [
              | inr theirs ↦
                  rw (hi, e, found, owned, theirs, resolve_slot, by_owner) (rw found refl)
              | inl mine ↦ elim (Option-cases (migrating_target slot state)) [
                | inl hm ↦ rw (hi, e, found, owned, mine, hm, resolve_slot, by_owner) refl
                | inr (target, hm) ↦ elim (Option-cases (position (has_id target) topology.nodes)) [
                  | inl gone ↦
                      rw (hi, e, found, owned, mine, hm, gone, resolve_slot, by_owner)
                        (sym (target_gone topology slot target gone))
                  | inr (k, there) ↦
                      rw (hi, e, found, owned, mine, hm, there, resolve_slot, by_owner)
                        (sym (target_there topology slot target k there))
                ]
              ]
            ]
      ]
    ]
  where
    nodes_at : Option ℕ → Option NodeInfo
    nodes_at o = o >>= get_elem? topology.nodes

    a : Agrees topology
    a = build_table-Agrees topology few h

    same : a.table ≡ routing
    same = some_same a.table routing (sym a.builds ∙ built)

    agreed : nodes_at (owner_index routing slot) ≡ owner topology slot
    agreed =
        subst (λ (t : RoutingTable). nodes_at (owner_index t slot) ≡ owner topology slot) same
          (a.answers slot hs)

    in_bounds : (index : ℕ) → owner_index routing slot ≡ some index → index < length topology.nodes
    in_bounds index e =
        a.bounded slot index hs (ap (λ (t : RoutingTable). owner_index t slot) same ∙ e)
