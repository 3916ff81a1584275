-- ===== src/Cluster/Server/Session/Node.antt =====
-- What one peer's connection sees of its node and holds itself, and the steps that its frames share
-- (src/cluster/server.rs, src/storage/store/cluster.rs).
use fyro_db.Prelude.{
  ℕ, ◌+◌, Bool, true, false, not, Option, none, some, List, [], ◌∷◌, ◌==◌, if◌then◌else◌, ◌>>=◌,
  length, bytes_eq, from_be,
}
use fyro_db.Prelude.Checked.{Checked, good, bad}
use fyro_db.Cluster.Hash.{Slot, new_slot}
use fyro_db.Cluster.Topology.{Text, Topology}
use fyro_db.Cluster.Failure.{FailureReport}
use fyro_db.Cluster.State.{ClusterState, replace_topology, import_source, topology_if_newer}
use fyro_db.Cluster.State.Failover.{promote_replica}
use fyro_db.Cluster.Transport.Codec.{MessageType, Frame}
use fyro_db.Cluster.Replication.{MutationRecord, ApplyError, ack_of, ReplicaApplier}
use fyro_db.Cluster.Replication.Wire.{encode_replication_message}
use fyro_db.Storage.Store.{Store, Values, Call, apply_replica_mutation}
use fyro_db.Cluster.Server.{PeerContext, is_replication_source, stable_id, reply}

-- The clock and the CPU at each mutation that one frame brings.
abbrev pub Calls : Type 0
Calls = ℕ → Call

-- What the loop calls of the keys: `apply_replica_mutation`, `flush` and `rdb::load_strict`, which
-- answers whether it loaded the file.
pub record Keyspace (S : Type 0) : Type 0 where
  pub apply : Call → MutationRecord → S → Checked ApplyError S
  pub flush : S → S
  pub load_strict : Calls → List ℕ → S → Bool × S

-- The store as the keys: its mutations, and a flush and a loader of the store.
abbrev pub store_keys :
    {V : Type 0}
    → Values V
    → (Store V → Store V)
    → (Calls → List ℕ → Store V → Bool × Store V)
    → Keyspace (Store V)
store_keys values flush load_strict = record {
  apply = apply_replica_mutation values;
  flush = flush;
  load_strict = load_strict;
}

-- The node as the connection sees it, and the connection's own variables.
pub record Session (S : Type 0) : Type 0 where
  pub cluster : ClusterState
  pub keys : S
  pub stored_offset : ℕ
  pub identity : Option (List ℕ)
  pub installing : Bool
  pub applier : ReplicaApplier
  pub snapshot_file : Option (List ℕ)
  pub topology_version : ℕ
  pub current_topology : Topology
  pub source_allowed : Bool

-- The clock, what the mutations of the frame read, and whether the snapshot file can be opened and
-- written.
pub record Moment : Type 0 where
  pub now : ℕ
  pub calls : Calls
  pub opens : Bool
  pub writes : Bool

-- Whether the loop goes on, the frames it sent, and what it leaves.
abbrev pub Handled : Type 0 → Type 0
Handled S = Bool × List Frame × Session S

abbrev pub quiet : {S : Type 0} → Session S → Handled S
quiet session = (true, [], session)

-- `current == identity` under `is_some_and`
abbrev pub is_identity : List ℕ → Option (List ℕ) → Bool
is_identity identity none = false
is_identity identity (some current) = bytes_eq current identity

-- `is_some_and(|source| stable_id(&source) == frame.source_id)`
unfoldable pub is_source : ℕ → Option Text → Bool
unfolding stable_id
is_source id none = false
is_source id (some source) = stable_id source == id

-- The answer that acknowledges an offset.
unfoldable pub ack_frames : PeerContext → ℕ → Frame → List Frame
unfolding encode_replication_message reply
ack_frames ctx offset frame = elim (encode_replication_message (ack_of offset)) [
  | bad reason ↦ []
  | good payload ↦ reply ctx MessageType.replication_ack ctx.epoch payload frame ∷ []
]

-- The start of a round: the topology is read again if its version moved.
unfoldable pub refresh : {S : Type 0} → PeerContext → Text → Session S → Session S
unfolding is_replication_source
refresh ctx remote_id session = elim (topology_if_newer session.topology_version session.cluster) [
  | none ↦ session
  | some (version, topology, routing) ↦ record session {
    topology_version = version;
    current_topology = topology;
    source_allowed = is_replication_source topology ctx.local_id remote_id;
  }
]

-- `install_cluster_topology`, whose answer the loop drops
unfoldable pub install : {S : Type 0} → Topology → Session S → Option (Session S)
install topology session = do
  (installed, cluster) ← replace_topology topology session.cluster
  some (record session { cluster = cluster })

-- The promotion after the report that completes the quorum.
unfoldable pub promote : {S : Type 0} → FailureReport → Session S → Option (Handled S)
unfolding install
promote report session =
    promote_replica report.target_id report.epoch session.cluster >>= λ (promoted, cluster).
    elim promoted [
      | none ↦ some (quiet (record session { cluster = cluster }))
      | some topology ↦ install topology (record session { cluster = cluster }) >>= λ session.
          some (quiet session)
    ]

-- `set_replica_identity`
unfoldable pub set_identity : {S : Type 0} → List ℕ → Session S → Session S
set_identity identity session = record session {
  stored_offset = if is_identity identity session.identity then session.stored_offset else 0;
  identity = some identity;
}

-- The loop over the records of a chunk: whether all were applied, and the keys.
unfoldable pub apply_chunk :
    {S : Type 0} → Keyspace S → Calls → ClusterState → ℕ → List MutationRecord → S → Bool × S
unfolding is_source
apply_chunk ks calls cluster source_id [] keys = (true, keys)
apply_chunk ks calls cluster source_id (r ∷ records) keys =
    if not (is_source source_id (import_source r.slot cluster))
    then (false, keys)
    else elim (ks.apply (calls 0) r keys) [
      | bad reason ↦ (false, keys)
      | good keys ↦ apply_chunk ks (λ n. calls (n + 1)) cluster source_id records keys
    ]

-- Behind the loop: a snapshot that is not complete is given up.
unfoldable pub close : {S : Type 0} → Session S → Session S
close session = elim session.snapshot_file [
  | none ↦ session
  | some bytes ↦ record session { snapshot_file = none; installing = false }
]

abbrev pub is_topology : MessageType → Bool
is_topology MessageType.topology = true
is_topology _ = false

-- The two bytes that name a slot.
unfoldable pub named_slot : List ℕ → Option Slot
unfolding new_slot
named_slot payload = if length payload == 2 then new_slot (from_be payload) else none
