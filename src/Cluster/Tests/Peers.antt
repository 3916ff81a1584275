-- ===== src/Cluster/Tests/Peers.antt =====
-- The server of the peers, at the two nodes.
use fyro_db.Prelude.{
  ℕ, suc, ◌≤◌, ◌≡◌, ◌≢◌, refl, Bool, true, false, none, some, List, [], ◌∷◌, ◌++◌, if◌then◌else◌,
  arith, codes, to_be, read_exact, from_be, from_be_onto,
}
use fyro_db.Prelude.Utf8.{is_utf8, utf8_from}
use fyro_db.Prelude.Checked.{good, bad}
use fyro_db.Cluster.Hash.{new_slot}
use fyro_db.Cluster.State.{topology_if_newer}
use fyro_db.Cluster.Transport.Codec.{MessageType, Frame}
use fyro_db.Cluster.Replication.{MutationRecord, set_kind, invalid_value}
use fyro_db.Storage.Store.{Store, Call}
use fyro_db.Cluster.Server.{
  PeerContext, parse_hello, split_once, collect_diff, auth_matches, admit, reply,
}
use fyro_db.Cluster.Server.Session.{
  Keyspace, store_keys, Session, Moment, ack_frames, quiet, refresh, on_begin, on_entry, dispatch,
  handle, serve,
}
use fyro_db.Cluster.Server.Safety.{Serves, serve-Serves}
use fyro_db.Cluster.Server.Replica.Handlers.{replica}
use fyro_db.Cluster.Server.Replica.{Offset, handle-keeps}
use fyro_db.Cluster.Server.Replica.History.{IsPrefix, serve-IsPrefix}
use fyro_db.Cluster.Server.Replica.Restart.{on_entry-on_begin}
use fyro_db.Cluster.Server.Handshake.{admit-token}
use fyro_db.Cluster.Replication.Wire.{
  take_part, decode_replication_message, decode_mutation, is_nil,
}
use fyro_db.Cluster.Hash.Tests.{position}
use fyro_db.Cluster.Tests.{two_nodes}
use fyro_db.Cluster.Tests.Moves.{start, start-IsSafe}

-- Keys that count the mutations, and refuse an empty value.
abbrev counting : Keyspace ℕ
counting = record {
  apply = λ call r n. if is_nil r.value then bad invalid_value else good (suc n);
  flush = λ n. 0;
  load_strict = λ calls file n. (true, n);
}

-- The node r, where p connects.
abbrev here : PeerContext
here = record { local_id = codes "r"; epoch = 1; auth_token = some (codes "secret") }

abbrev session_of : Bool → ℕ → Session ℕ
session_of allowed offset = record {
  cluster = start;
  keys = offset;
  stored_offset = offset;
  identity = none;
  installing = false;
  applier = record { applied_offset = offset };
  snapshot_file = none;
  topology_version = 1;
  current_topology = two_nodes;
  source_allowed = allowed;
}

abbrev frame_of : MessageType → List ℕ → Frame
frame_of message_type payload = record {
  message_type = message_type;
  flags = 0;
  request_id = 9;
  source_id = 1;
  target_id = 2;
  epoch = 1;
  payload = payload;
}

abbrev call : Call
call = record { now_ms = 1; cpu = none }

abbrev moment : Moment
moment = record { now = 5; calls = λ n. call; opens = true; writes = true }

-- The key k, set to v at the offset.
abbrev written_at : ℕ → MutationRecord
written_at offset = record {
  offset = offset;
  slot = record { value = 42 };
  kind = set_kind;
  key = codes "k";
  value = codes "v";
  expire_at_ms = none;
}

-- The first of them on the wire.
abbrev entry_payload : List ℕ
entry_payload =
    2
    ∷ 0
    ∷ 0
    ∷ 0
    ∷ 0
    ∷ 0
    ∷ 0
    ∷ 0
    ∷ 1
    ∷ 0
    ∷ 42
    ∷ 1
    ∷ 0
    ∷ 0
    ∷ 0
    ∷ 1
    ∷ 0
    ∷ 0
    ∷ 0
    ∷ 1
    ∷ 0
    ∷ 0
    ∷ 0
    ∷ 0
    ∷ 0
    ∷ 0
    ∷ 0
    ∷ 0
    ∷ codes "kv"

abbrev entry_frame : Frame
entry_frame = frame_of MessageType.replication_entry entry_payload

serve-Serves_example :
    Serves {S = ℕ}
      (serve here (codes "p") counting ((moment, entry_frame) ∷ []) (session_of true 0))
serve-Serves_example =
    serve-Serves here (codes "p") counting ((moment, entry_frame) ∷ []) (session_of true 0)
      start-IsSafe

handle-keeps_example :
    ◌≡◌ {A = ℕ} 0 0
    × ((session_of false 0).applier ≡ (session_of false 0).applier)
    × Offset here
        (codes "q")
        counting
        MessageType.replication_entry
        entry_frame
        (session_of false 0)
        0
unfolding refresh topology_if_newer handle dispatch on_entry decode_replication_message
    decode_mutation take_part read_exact from_be from_be_onto new_slot
handle-keeps_example =
    handle-keeps here (codes "q") counting moment entry_frame (session_of false 0)
      (quiet (session_of false 0)) refl refl refl

-- The frame is of the history, and what the loop leaves.
abbrev sent_frames : List (Moment × Frame)
sent_frames =
    (moment, entry_frame) ∷ (moment, frame_of MessageType.ping []) ∷ (moment, entry_frame) ∷ []

-- The store of a node as its keys, without dumps.
abbrev stored : Keyspace (Store (List ℕ))
stored =
    store_keys
      (record {
        of_text = λ text. text;
        encode_single_value = λ value. none;
        decode_single_value = λ bytes. none;
        memchr = position;
      })
      (λ store. store) (λ calls file store. (false, store))

abbrev no_keys : Store (List ℕ)
no_keys = record { entries = []; ttl = record { adds = 0 ∷ []; removes = 0 ∷ [] } }

abbrev fresh_session : Session (Store (List ℕ))
fresh_session = record {
  cluster = start;
  keys = no_keys;
  stored_offset = 0;
  identity = none;
  installing = false;
  applier = record { applied_offset = 0 };
  snapshot_file = none;
  topology_version = 1;
  current_topology = two_nodes;
  source_allowed = true;
}

run : Serves {S = Store (List ℕ)} (serve here (codes "p") stored sent_frames fresh_session)
run = serve-Serves here (codes "p") stored sent_frames fresh_session start-IsSafe

serve-IsPrefix_example :
    IsPrefix here (codes "p") stored no_keys written_at (replica run.last)
    × (0 ≤ run.last.applier.applied_offset)
unfolding decode_replication_message decode_mutation take_part read_exact from_be from_be_onto
    new_slot
serve-IsPrefix_example =
    serve-IsPrefix here (codes "p") stored no_keys written_at sent_frames fresh_session run.last
      run.sent ((refl, (refl, omega arith)), ((refl, tt), ((refl, (refl, omega arith)), tt))) refl
      run.returns

-- A stream from another log, on a connection that has applied five mutations.
abbrev begin_frame : Frame
begin_frame =
    frame_of MessageType.replication_begin
      (1 ∷ (to_be 8 1 ++ (to_be 8 0 ++ codes "0123456789abcdef")))

on_entry-on_begin_example :
    ((on_begin here (codes "p") begin_frame (session_of true 5)).1
      ≡ reply here MessageType.replication_ack 1 (codes "0123456789abcdef" ++ to_be 8 0) begin_frame
        ∷ [])
    × ((on_entry here
          (codes "p")
          counting
          call
          entry_frame
          (on_begin here (codes "p") begin_frame (session_of true 5)).2).1
        ≡ ack_frames here 5 entry_frame)
    × ((on_entry here
          (codes "p")
          counting
          call
          entry_frame
          (on_begin here (codes "p") begin_frame (session_of true 5)).2).2.keys
        ≡ 5)
unfolding decode_replication_message decode_mutation take_part read_exact from_be from_be_onto
    new_slot to_be
on_entry-on_begin_example =
    on_entry-on_begin here (codes "p") counting call begin_frame entry_frame (session_of true 5) 1 0
      (codes "0123456789abcdef") (written_at 1) refl refl refl refl (omega arith)

abbrev hello_frame : Frame
hello_frame = frame_of MessageType.hello (codes "secret" ++ 0 ∷ codes "p")

admit-token_example :
    (hello_frame.message_type ≡ MessageType.hello)
    × (hello_frame.payload ≡ codes "secret" ++ 0 ∷ codes "p")
    × (codes "p" ≢ codes "r")
unfolding admit parse_hello split_once auth_matches collect_diff is_utf8 utf8_from
admit-token_example = admit-token here hello_frame (codes "secret") (codes "p") refl refl
