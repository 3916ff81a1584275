-- ===== src/Lib.antt =====
-- FyroDB: hash slots, cluster topology and state, command routing, failure evidence, the transport
-- codec, replication and the server of the cluster peers.
--
-- A cluster of servers shares 16384 hash slots. A key is hashed to a slot (src/cluster/hash.rs);
-- the topology says which primary serves which ranges of slots, and a flat table is built from it
-- for the command path (src/cluster/topology.rs). The cluster state holds the current topology
-- with its table, a version for cached readers, and the slots that are being migrated or imported;
-- its methods change them (src/cluster/state.rs), on the evidence of failures where a replica
-- takes over (src/cluster/failure.rs). A command is routed by its keys' slot through the table
-- (src/cluster/routing.rs). Nodes exchange frames (src/cluster/transport/codec.rs), which the server
-- of the peers answers (src/cluster/server.rs): topologies, failure reports, moved slots, and the
-- mutations that a primary keeps in its log (src/cluster/replication.rs) and its replicas apply.
--
-- Prelude holds what the modules share: Boolean tests on numbers, lists measured by native
-- numbers (Lists), fixed-width numbers as bytes (Bytes), UTF-8 (Utf8), hash maps as association
-- lists (Assoc), results with an error (Checked), and the laws of the bit operations (Bits).
-- Numbers of machine width are natural numbers with the wrap-around or saturation written out; a string is its list of bytes.
--
--   Cluster/Hash       src/cluster/hash.rs: slots, hash_slot, hashtag and crc16 by eight tables. The
--                      crate memchr is a parameter, which finds the first occurrence of a byte.
--   Cluster/Topology   src/cluster/topology.rs: owner, is_valid, RoutingTable::build, owner_index. The
--                      array of owners is a function on the slots. is_complete is left out.
--   Cluster/State      src/cluster/state.rs: ClusterState and each of its methods as a function from
--                      state to state, as it runs while no other does. Ranges holds remove_slot and
--                      compact_ranges; Moves, Members and Failover hold the methods that edit the
--                      topology; Safety/Steps runs sequences of calls. A panic is `none`; locks and
--                      methods that overlap are left out.
--   Cluster/Failure    src/cluster/failure.rs: FailureTracker with the clock as an argument, and the
--                      wire form of a report.
--   Cluster/Routing    src/cluster/routing.rs: the tables of words (Tables), key patterns, and the
--                      routing functions.
--   Cluster/Transport  src/cluster/transport/codec.rs: checksum by eight tables, write_all_slices
--                      against a writer that is the list of the answers it will give, frames.
--                      Fuel is that list: its length bounds the calls of the writer.
--   Cluster/Transport/TopologyCodec
--                      src/cluster/transport/topology.rs: the wire form of a topology.
--   Cluster/Transport/Health
--                      src/cluster/transport/health.rs: the state machine of a connection to a peer.
--   Cluster/Replication
--                      src/cluster/replication.rs: MutationLog, ReplicationStream and ReplicaApplier;
--                      Wire holds the codec of mutations, batches and messages, Journal the
--                      coordinator with its file. Log, Delivery and CatchUp hold the proofs. What a
--                      record's struct occupies is a parameter, and a closure that applies a
--                      mutation is a function on a store of any type. The fuel of the loop that
--                      reads a journal is the number of its bytes, of which a round reads four.
--   Cluster/Server     src/cluster/server.rs: parse_hello, auth_matches and stable_id; Session holds
--                      handle_peer, one function for each type of frame, with the parts of
--                      src/storage/store/cluster.rs that it calls, on the state in
--                      Session/Node. The keys are the record Keyspace, which apply_replica_mutation
--                      of Storage/Store implements; the clock, the CPU, and whether the snapshot
--                      file opens and takes a write, come with each frame; what is sent is a list
--                      of frames. Saving the offset in its file is left out.
--   Storage/Ttl        src/storage/store/ttl.rs: the striped counters of the keys that expire.
--   Storage/Store      src/storage/store/cluster.rs: apply_replica_mutation and the record that
--                      record_current_value appends. The values, their dump and memchr are the
--                      record Values; the clock and the CPU come with each call, and the sharded
--                      table is the map it implements. Nothing is appended to a file here.
--   Storage/Chunk, Storage/QuickList
--                      src/storage/value/quicklist.rs: a chunk with its buffer and offsets, and the deque
--                      of chunks. A list of chunks is the deque, and a panic is `none`. Held tells what
--                      a chunk holds; Grow, Shrink, Locate, Edit, Trimmed, Remove and Range are about
--                      the operations of the list, and Broken about an assignment that leaves an
--                      empty chunk.
--   Storage/ListValue  src/storage/value/list.rs: the deque of strings that becomes a quick list; Ask
--                      holds the calls of it and of a plain list, and Inside and Ends compare them;
--                      Build is about from_strs.
--   Utils/Glob         src/utils/util.rs: glob_match_bytes, an index being the part behind it. Its fuel
--                      is the product of the lengths, since each retry takes a byte more.
--   Storage/Capacity   src/storage/capacity.rs: which commands are refused when memory is used up.
--   Cluster/Tests      the nodes of the repository's tests, and the theorems at concrete inputs.
--
-- Loops over slices are recursion on the list, so no fuel is needed but where the list above says
-- so and for the strided indices of a key pattern, which are at most as many as there are
-- arguments. Not modelled: the rest of storage, commands, persistence, search and the workspace's
-- crates, the threads that send a log to the replicas, and sockets, files and threads, which only carry what
-- is modelled.
pub mod Prelude
pub mod Cluster
pub mod Storage
pub mod Utils
