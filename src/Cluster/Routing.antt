-- ===== src/Cluster/Routing.antt =====
-- The routing of commands to nodes (src/cluster/routing.rs). Where a slice index would be out of
-- range and the program panic, the result is `none`.
pub mod Tables
pub mod Recognised
pub mod Agreement
use fyro_db.Prelude.{
  ℕ, zero, suc, ◌+◌, ◌-◌, min, Bool, true, false, ◌&&◌, ◌||◌, not, Option, none, some, List, [],
  ◌∷◌, map, ltb, leb, ◌==◌, if◌then◌else◌, ◌>>=◌, length, any, position, get_elem?, get_or,
  bytes_eq, codes,
}
use fyro_db.Cluster.Hash.{Slot, hash_slot}
use fyro_db.Cluster.Topology.{Text, Topology, RoutingTable, NodeInfo, owner, owner_index}
use fyro_db.Cluster.State.{ClusterState, is_importing, migrating_target, has_id}
use fyro_db.Cluster.Routing.Tables.{Arm, x_words, write_arms, single_arms}

-- `to_ascii_uppercase` and `eq_ignore_ascii_case`
abbrev pub upper : ℕ → ℕ
upper b = if leb 97 b && leb b 122 then b - 32 else b

abbrev pub uppercase : List ℕ → List ℕ
uppercase = map upper

abbrev pub eq_ignore_case : List ℕ → List ℕ → Bool
eq_ignore_case a b = bytes_eq (uppercase a) (uppercase b)

-- The match on the length and the first byte.
unfoldable pub in_arms : List Arm → ℕ → List ℕ → Bool
in_arms [] first command = false
in_arms (arm ∷ arms) first command =
    if length command == arm.size && upper first == arm.first
    then any (eq_ignore_case command) arm.words
    else in_arms arms first command

unfoldable pub is_write_command : List ℕ → Bool
unfolding in_arms
is_write_command [] = false
is_write_command (first ∷ rest) =
    if upper first == b'X' && any (eq_ignore_case (first ∷ rest)) x_words
    then true
    else in_arms write_arms first (first ∷ rest)

unfoldable pub is_single_key : List ℕ → Bool
unfolding in_arms
is_single_key [] = false
is_single_key (first ∷ rest) = in_arms single_arms first (first ∷ rest)

pub data KeyPattern : Type 0 where
  all every_other first_two first : KeyPattern

-- `eq_ignore_ascii_case(word).then_some(pattern)`
abbrev pub then_some : KeyPattern → List ℕ → List ℕ → Option KeyPattern
then_some pattern word command = if eq_ignore_case command word then some pattern else none

-- The table of the commands with several keys.
unfoldable pub multi_key : ℕ → List ℕ → Option KeyPattern
multi_key head command =
    let size = length command in
    let letter = upper head in
    if size == 4 && letter == b'M'
    then (let second = upper (get_or command 1 0) in
        if second == b'G' && eq_ignore_case command (codes "MGET")
        then some all
        else if second == b'S' && eq_ignore_case command (codes "MSET")
        then some every_other
        else none)
    else if size == 6 && letter == b'M'
    then then_some every_other (codes "MSETNX") command
    else if size == 3 && letter == b'D'
    then then_some all (codes "DEL") command
    else if size == 6 && letter == b'U'
    then then_some all (codes "UNLINK") command
    else if size == 6 && letter == b'E'
    then then_some all (codes "EXISTS") command
    else if size == 5 && letter == b'T'
    then then_some all (codes "TOUCH") command
    else if size == 6 && letter == b'R'
    then then_some first_two (codes "RENAME") command
    else if size == 8 && letter == b'R'
    then then_some first_two (codes "RENAMENX") command
    else if size == 4 && letter == b'C'
    then then_some first_two (codes "COPY") command
    else if size == 5 && letter == b'S'
    then then_some first_two (codes "SMOVE") command
    else if size == 5 && letter == b'L'
    then then_some first_two (codes "LMOVE") command
    else if size == 9 && letter == b'R'
    then then_some first_two (codes "RPOPLPUSH") command
    else none

unfoldable pub key_pattern : List ℕ → Option KeyPattern
unfolding multi_key
key_pattern [] = none
key_pattern (head ∷ rest) = elim (multi_key head (head ∷ rest)) [
  | some pattern ↦ some pattern
  | none ↦ if is_single_key (head ∷ rest) then some first else none
]

-- `(0..take).step_by(step)`, as many numbers as there can be.
unfoldable pub steps : ℕ → ℕ → ℕ → ℕ → List ℕ
steps zero i take step = []
steps (suc most) i take step =
    let rest = steps most (i + step) take step in if ltb i take then i ∷ rest else []

unfoldable pub indices : KeyPattern → ℕ → List ℕ
unfolding steps
indices all len = steps len 0 len 1
indices every_other len = steps len 0 len 2
indices first_two len = steps (min len 2) 0 (min len 2) 1
indices first len = steps (min len 1) 0 (min len 1) 1

pub data RoutingScope : Type 0 where
  keyless first_key many_keys : RoutingScope

unfoldable pub routing_scope : List ℕ → RoutingScope
routing_scope command = elim (key_pattern command) [
  | none ↦ keyless
  | some first ↦ first_key
  | some _ ↦ many_keys
]

-- What routing reads of the configuration.
pub record ClusterConfig : Type 0 where
  pub enabled : Bool
  pub local_id : Text
  pub topology : Topology

pub data RouteDecision : Type 0 where
  local cross_slot : RouteDecision
  moved : Slot → Text → RouteDecision
  moved_node ask : Slot → ℕ → RouteDecision
  unassigned : Slot → RouteDecision

-- `indices.any(|index| hash_slot(args[index]) != slot)`
unfoldable pub another_slot : (ℕ → List ℕ → Option ℕ) → List (List ℕ) → Slot → List ℕ → Option Bool
another_slot memchr args slot [] = some false
another_slot memchr args slot (index ∷ rest) = do
  key ← get_elem? args index
  let same = (hash_slot memchr key).value == slot.value
  if not same then some true else another_slot memchr args slot rest

unfoldable pub by_owner : ClusterConfig → Topology → Slot → Option RouteDecision
by_owner cluster topology slot = elim (owner topology slot) [
  | none ↦ some (unassigned slot)
  | some node ↦
      if bytes_eq node.id cluster.local_id then some local else some (moved slot node.address)
]

unfoldable pub resolve_slot :
    ClusterConfig → ClusterState → Topology → RoutingTable → Bool → Slot → Option RouteDecision
resolve_slot cluster state topology routing allow_import slot =
    if allow_import && is_importing slot state
    then some local
    else elim (owner_index routing slot) [
      | none ↦ some (unassigned slot)
      | some index ↦ get_elem? topology.nodes index >>= λ node.
          if not (bytes_eq node.id cluster.local_id)
          then some (moved_node slot index)
          else elim (migrating_target slot state) [
            | none ↦ some local
            | some target ↦ elim (position (has_id target) topology.nodes) [
              | none ↦ some local
              | some node ↦ some (ask slot node)
            ]
          ]
    ]

module _ (memchr : ℕ → List ℕ → Option ℕ) where
  -- The head that `route_command_with_topology` and `route_command_with_snapshot` share, with what
  -- follows once the slot is known.
  unfoldable pub route :
      Bool → List ℕ → List (List ℕ) → (Slot → Option RouteDecision) → Option RouteDecision
  unfolding another_slot
  route enabled command args resolve =
      if not enabled then some local else elim (key_pattern command) [
        | none ↦ some local
        | some pattern ↦ elim (indices pattern (length args)) [
          | [] ↦ some local
          | (first_index ∷ rest) ↦ get_elem? args first_index >>= λ key.
              let slot = hash_slot memchr key in
              another_slot memchr args slot rest >>= λ differs.
              if differs then some cross_slot else resolve slot
        ]
      ]

  unfoldable pub route_command_with_topology :
      ClusterConfig → Topology → List ℕ → List (List ℕ) → Option RouteDecision
  unfolding route by_owner
  route_command_with_topology cluster topology command args =
      route cluster.enabled command args (by_owner cluster topology)

  pub route_command : ClusterConfig → List ℕ → List (List ℕ) → Option RouteDecision
  unfolding route_command_with_topology
  route_command cluster command args =
      route_command_with_topology cluster cluster.topology command args

  unfoldable pub route_single_key :
      ClusterConfig → ClusterState → Topology → RoutingTable → List ℕ → Bool → Option RouteDecision
  unfolding resolve_slot
  route_single_key cluster state topology routing key allow_import =
      if not cluster.enabled
      then some local
      else resolve_slot cluster state topology routing allow_import (hash_slot memchr key)

  unfoldable pub route_command_with_snapshot :
      ClusterConfig
      → ClusterState
      → Topology
      → RoutingTable
      → List ℕ
      → List (List ℕ)
      → Bool
      → Option RouteDecision
  unfolding route resolve_slot
  route_command_with_snapshot cluster state topology routing command args allow_import =
      route cluster.enabled command args (resolve_slot cluster state topology routing allow_import)

  pub route_command_with_state_import :
      ClusterConfig → ClusterState → List ℕ → List (List ℕ) → Bool → Option RouteDecision
  unfolding route_command_with_snapshot
  route_command_with_state_import cluster state command args allow_import =
      route_command_with_snapshot cluster state state.topology state.routing command args
        allow_import

  pub route_command_with_state :
      ClusterConfig → ClusterState → List ℕ → List (List ℕ) → Option RouteDecision
  unfolding route_command_with_state_import
  route_command_with_state cluster state command args =
      route_command_with_state_import cluster state command args false
