-- ===== src/Cluster/Transport/Codec.antt =====
-- Frames between cluster peers (src/cluster/transport/codec.rs). A reader over a byte slice is
-- the list of bytes that are left.
pub mod RoundTrip
pub mod Refusal
pub mod Batch
pub mod Tests
use fyro_db.Prelude.{
  ℕ, zero, suc, ◌+◌, ◌*◌, ◌^◌, Bool, true, false, not, Option, none, some, List, [], ◌∷◌, ◌++◌, ltb,
  ◌==◌, if◌then◌else◌, length, to_be, from_be, read_exact, take, drop, get_or, leb, bytes_eq,
}
use fyro_db.Cluster.Transport.Checksum.{checksum}
use fyro_db.Cluster.Transport.Vectored.{
  Answer, Status, done, write_zero, io_error, pending, concat, write_all_slices,
}

pub data MessageType : Type 0 where
  hello ping pong topology command_forward command_reply replication_begin : MessageType
  replication_entry replication_ack replication_snapshot replication_finish : MessageType
  failure_report failure_confirm migrate_begin migrate_chunk migrate_finish : MessageType

-- The discriminants of the `#[repr(u8)]` enumeration.
pub to_byte : MessageType → ℕ
to_byte hello = 1
to_byte ping = 2
to_byte pong = 3
to_byte topology = 4
to_byte command_forward = 5
to_byte command_reply = 6
to_byte replication_begin = 7
to_byte replication_entry = 8
to_byte replication_ack = 9
to_byte replication_snapshot = 10
to_byte replication_finish = 11
to_byte failure_report = 12
to_byte failure_confirm = 13
to_byte migrate_begin = 14
to_byte migrate_chunk = 15
to_byte migrate_finish = 16

pub record Frame : Type 0 where
  pub message_type : MessageType
  pub flags : ℕ
  pub request_id : ℕ
  pub source_id : ℕ
  pub target_id : ℕ
  pub epoch : ℕ
  pub payload : List ℕ

pub data ProtocolError : Type 0 where
  unexpected_eof io_failed write_blocked bad_magic bad_checksum invalid_handshake : ProtocolError
  unsupported_version unknown_message : ℕ → ProtocolError
  payload_too_large : ℕ → ℕ → ProtocolError

pub data Result {ℓ} (A : Type ℓ) : Type ℓ where
  ok : A → Result A
  err : ProtocolError → Result A

-- An early return: `reason` unless the test passes.
abbrev pub require : Bool → ProtocolError → Result (Unit {0})
require false reason = err reason
require true reason = ok tt

-- `?` after a test, and after a value that is used.
infixl 5 ◌>>◌
abbrev pub ◌>>◌ {κ} : {Next : Type κ} → Result (Unit {0}) → Result Next → Result Next
err reason >> next = err reason
ok _ >> next = next

infixl 5 ◌>>=◌
abbrev pub ◌>>=◌ {κ μ} :
    {Now : Type κ} {Next : Type μ} → Result Now → (Now → Result Next) → Result Next
err reason >>= next = err reason
ok now >>= next = next now

-- `MessageType::try_from`
pub try_from : ℕ → Result MessageType
try_from value =
    if value == 1
    then ok hello
    else if value == 2
    then ok ping
    else if value == 3
    then ok pong
    else if value == 4
    then ok topology
    else if value == 5
    then ok command_forward
    else if value == 6
    then ok command_reply
    else if value == 7
    then ok replication_begin
    else if value == 8
    then ok replication_entry
    else if value == 9
    then ok replication_ack
    else if value == 10
    then ok replication_snapshot
    else if value == 11
    then ok replication_finish
    else if value == 12
    then ok failure_report
    else if value == 13
    then ok failure_confirm
    else if value == 14
    then ok migrate_begin
    else if value == 15
    then ok migrate_chunk
    else if value == 16
    then ok migrate_finish
    else err (unknown_message value)

-- "FYRC"
abbrev pub magic : List ℕ
magic = 70 ∷ 89 ∷ 82 ∷ 67 ∷ []

abbrev pub version : ℕ
version = 1

abbrev pub prefix_len : ℕ
prefix_len = 48

abbrev pub default_max_payload : ℕ
default_max_payload = 16 * 1024 * 1024

-- The 48 bytes that `encode_prefix` fills.
pub prefix_bytes : Frame → List ℕ
prefix_bytes frame =
    magic
    ++ (version ∷ to_byte frame.message_type ∷ [])
    ++ to_be 2 frame.flags
    ++ to_be 8 frame.request_id
    ++ to_be 8 frame.source_id
    ++ to_be 8 frame.target_id
    ++ to_be 8 frame.epoch
    ++ to_be 4 (length frame.payload)
    ++ to_be 4 (checksum frame.payload)

pub encode_prefix : ℕ → Frame → Result (List ℕ)
encode_prefix max_payload frame =
    if ltb max_payload (length frame.payload)
    then err (payload_too_large (length frame.payload) max_payload)
    else ok (prefix_bytes frame)

-- What the status of the vectored write is to the caller.
pub written : Status × List ℕ → Result (List ℕ)
written (done, out) = ok out
written (write_zero, out) = err io_failed
written (io_error, out) = err io_failed
written (pending, out) = err write_blocked

-- `write_frame`, on what the writer holds and what it will answer.
pub write_frame : ℕ → List Answer → List ℕ → Frame → Result (List ℕ)
unfolding written
write_frame max_payload answers out frame = do
  prefix ← encode_prefix max_payload frame
  written (write_all_slices answers (prefix ∷ frame.payload ∷ []) out)

-- `scratch` and the slices of `write_frames`.
pub encode_all : ℕ → List Frame → Result (List (List ℕ))
encode_all max_payload [] = ok []
encode_all max_payload (frame ∷ frames) = do
  prefix ← encode_prefix max_payload frame
  rest ← encode_all max_payload frames
  ok (prefix ∷ frame.payload ∷ rest)

pub write_frames : ℕ → List Answer → List ℕ → List Frame → Result (List ℕ)
unfolding written
write_frames max_payload answers out frames = do
  slices ← encode_all max_payload frames
  written (write_all_slices answers slices out)

-- `reader.read_exact`
pub read : ℕ → List ℕ → Result (List ℕ × List ℕ)
read n input = elim (read_exact n input) [ none ↦ err unexpected_eof | some p ↦ ok p ]

-- `prefix[from..from + count]`
abbrev pub slice : ℕ → ℕ → List ℕ → List ℕ
slice from count bytes = take count (drop from bytes)

unfoldable pub read_frame : ℕ → List ℕ → Result (Frame × List ℕ)
unfolding read try_from
read_frame max_payload input = do
  (prefix, rest) ← read prefix_len input
  require (bytes_eq (slice 0 4 prefix) magic) bad_magic
  require (get_or prefix 4 0 == version) (unsupported_version (get_or prefix 4 0))
  message_type ← try_from (get_or prefix 5 0)
  let size = from_be (slice 40 4 prefix)
  require (leb size max_payload) (payload_too_large size max_payload)
  (payload, rest) ← read size rest
  require (checksum payload == from_be (slice 44 4 prefix)) bad_checksum
  ok (
    record {
      message_type = message_type;
      flags = from_be (slice 6 2 prefix);
      request_id = from_be (slice 8 8 prefix);
      source_id = from_be (slice 16 8 prefix);
      target_id = from_be (slice 24 8 prefix);
      epoch = from_be (slice 32 8 prefix);
      payload = payload;
    },
    rest,
  )
