-- ===== src/Cluster/Tests/Routes.antt =====
-- The theorems on routing at concrete inputs.
use fyro_db.Prelude.{
  map, ◌≡◌, refl, true, false, ◌>>=◌, none, some, [], ◌∷◌, codes, arith, All, any, bytes_eq,
}
use fyro_db.Prelude.Assoc.{nat_eq}
use fyro_db.Cluster.Hash.Tests.{position}
use fyro_db.Cluster.Topology.{RoutingTable, build_table}
use fyro_db.Cluster.Topology.Ownership.{HasRanges, build_table_total}
use fyro_db.Cluster.State.{ClusterState, migrating_target}
use fyro_db.Cluster.Routing.{
  ClusterConfig, uppercase, is_write_command, is_single_key, routing_scope, route_single_key,
  route_command_with_snapshot, resolve_slot, by_owner, in_arms, key_pattern, multi_key,
}
use fyro_db.Cluster.Routing.Recognised.{write_words, is_write_command_words}
use fyro_db.Cluster.Routing.Agreement.{
  by_scope, addressed, unless_migrating, route_command_with_snapshot-routing_scope,
  resolve_slot-by_owner,
}
use fyro_db.Cluster.Tests.{slot, p, r, two_nodes, state_with}

is_write_command_words_example :
    is_write_command (codes "set") ≡ any (bytes_eq (uppercase (codes "set"))) write_words
is_write_command_words_example = is_write_command_words (codes "set")

-- Words that are filed under a wrong length or first byte.
misfiled_writes :
    map is_write_command (
      codes "EXPIRE"
      ∷ codes "PERSIST"
      ∷ codes "RENAME"
      ∷ codes "INCRBY"
      ∷ codes "DECRBY"
      ∷ codes "SETRANGE"
      ∷ codes "BLPOP"
      ∷ codes "PFADD"
      ∷ codes "MSETNX"
      ∷ codes "ZINCRBY"
      ∷ codes "HMSET"
      ∷ [])
    ≡ false ∷ false ∷ false ∷ false ∷ false ∷ false ∷ false ∷ false ∷ false ∷ false ∷ false ∷ []
unfolding is_write_command in_arms
misfiled_writes = refl

misfiled_keys :
    map key_pattern
      (codes "EXPIRE" ∷ codes "HMGET" ∷ codes "SCARD" ∷ codes "ZPOPMIN" ∷ codes "GETDEL" ∷ [])
    ≡ none ∷ none ∷ none ∷ none ∷ none ∷ []
unfolding key_pattern is_single_key in_arms multi_key
misfiled_keys = refl

nodes-HasRanges : All HasRanges (p ∷ r ∷ [])
nodes-HasRanges = (((omega arith, omega arith), tt), (tt, tt))

table : (t : RoutingTable) × (build_table two_nodes ≡ some t)
table = build_table_total two_nodes nodes-HasRanges

abbrev start : ClusterState
start = state_with table.0

abbrev seen_from_r : ClusterConfig
seen_from_r = record { enabled = true; local_id = codes "r"; topology = two_nodes }

resolve_slot-by_owner_example :
    (resolve_slot seen_from_r start two_nodes table.0 false (slot 42) >>= addressed two_nodes)
    ≡ unless_migrating two_nodes
        (slot 42)
        (migrating_target (slot 42) start)
        (by_owner seen_from_r two_nodes (slot 42))
resolve_slot-by_owner_example =
    resolve_slot-by_owner seen_from_r start two_nodes table.0 false (slot 42) (omega arith)
      nodes-HasRanges table.1 (omega arith)

route_command_with_snapshot-routing_scope_example :
    route_command_with_snapshot position seen_from_r start two_nodes table.0
      (codes "GET")
      (codes "k" ∷ [])
      false
    ≡ by_scope
        (routing_scope (codes "GET"))
        (route_single_key position seen_from_r start two_nodes table.0 (codes "k") false)
        (route_command_with_snapshot position seen_from_r start two_nodes table.0
          (codes "GET")
          (codes "k" ∷ [])
          false)
route_command_with_snapshot-routing_scope_example =
    route_command_with_snapshot-routing_scope position seen_from_r start two_nodes table.0
      (codes "GET") (codes "k") [] false

-- Slot 42 is on its way to r.
abbrev migrating : ClusterState
migrating = record start { migrations = (42, codes "r") ∷ []; has_migrations = true }
