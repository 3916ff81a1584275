-- ===== src/Cluster/Server.antt =====
-- The server of a node's peers (src/cluster/server.rs): the handshake, and the loop that answers
-- the frames of one connection. What the loop sends is its result. The file of a snapshot is the
-- bytes written to it; whether it opens and takes a write, and the time, are given with each
-- frame. Checkpoints of the applied offset on disk are left out.
pub mod Session
pub mod Safety
pub mod Replica
pub mod Handshake
use fyro_db.Prelude.{
  ℕ, zero, suc, ◌+◌, ◌*◌, ◌%◌, ◌^◌, bit_xor, bit_or, max, Bool, true, false, ◌&&◌, ◌||◌, not,
  Option, none, some, List, [], ◌∷◌, ◌++◌, ltb, leb, ◌==◌, if◌then◌else◌, ◌>>=◌, length, get_elem?,
  find, bytes_eq,
}
use fyro_db.Prelude.Utf8.{is_utf8}
use fyro_db.Cluster.Topology.{Text, Topology, NodeInfo}
use fyro_db.Cluster.State.{has_id}
use fyro_db.Cluster.Transport.Codec.{MessageType, Frame}

-- `fold` with FNV-1a on a `u64`
unfoldable pub stable_id_onto : ℕ → Text → ℕ
stable_id_onto hash [] = hash
stable_id_onto hash (byte ∷ id) = stable_id_onto (bit_xor hash byte * 0x100000001b3 % 2 ^ 64) id

unfoldable pub stable_id : Text → ℕ
unfolding stable_id_onto
stable_id id = stable_id_onto 0xcbf29ce484222325 id

-- `split_once('\0')`
unfoldable pub split_once : List ℕ → Option (List ℕ × List ℕ)
split_once [] = none
split_once (b ∷ bytes) =
    let rest = split_once bytes >>= λ (before, after). some (b ∷ before, after) in
    if b == 0 then some ([], bytes) else rest

-- The id, and the token before it.
unfoldable pub parse_hello : List ℕ → Option (Text × Option Text)
unfolding split_once
parse_hello payload = if not (is_utf8 payload) then none else elim (split_once payload) [
  | none ↦ some (payload, none)
  | some (token, id) ↦ some (id, some token)
]

-- `a.get(index) != b.get(index)`
abbrev pub differ_at : Option ℕ → Option ℕ → Bool
differ_at none none = false
differ_at none (some y) = true
differ_at (some x) none = true
differ_at (some x) (some y) = not (x == y)

abbrev pub to_bit : Bool → ℕ
to_bit true = 1
to_bit false = 0

-- The loop over the indices: `diff |= usize::from(..)`.
unfoldable pub collect_diff : List ℕ → List ℕ → ℕ → ℕ → ℕ → ℕ
collect_diff a b zero index diff = diff
collect_diff a b (suc left) index diff =
    collect_diff a b left (suc index)
      (bit_or diff (to_bit (differ_at (get_elem? a index) (get_elem? b index))))

unfoldable pub auth_matches : Option Text → Option Text → Bool
unfolding collect_diff
auth_matches none received = true
auth_matches (some a) none = false
auth_matches (some a) (some b) =
    collect_diff a b (max (length a) (length b)) 0 (bit_xor (length a) (length b)) == 0

abbrev pub same_id : Option Text → Text → Bool
same_id none id = false
same_id (some source) id = bytes_eq source id

unfoldable pub is_replication_source : Topology → Text → Text → Bool
is_replication_source topology local_id remote_id =
    same_id (find (has_id local_id) topology.nodes >>= λ node. node.replica_of) remote_id

pub record PeerContext : Type 0 where
  pub local_id : Text
  pub epoch : ℕ
  pub auth_token : Option Text

abbrev pub is_hello : MessageType → Bool
is_hello MessageType.hello = true
is_hello _ = false

abbrev pub is_nil : List ℕ → Bool
is_nil [] = true
is_nil (b ∷ bytes) = false

-- The checks of the first frame: the id of the peer, if it is let in.
unfoldable pub admit : PeerContext → Frame → Option Text
unfolding parse_hello auth_matches
admit ctx hello =
    let parsed = parse_hello hello.payload >>= λ (remote_id, token).
    if not (auth_matches ctx.auth_token token)
    then none
    else if bytes_eq remote_id ctx.local_id
    then none
    else some remote_id in
    if not (is_hello hello.message_type) || is_nil hello.payload then none else parsed

-- A frame that answers another.
unfoldable pub reply : PeerContext → MessageType → ℕ → List ℕ → Frame → Frame
unfolding stable_id
reply ctx message_type epoch payload frame = record {
  message_type = message_type;
  flags = 0;
  request_id = frame.request_id;
  source_id = stable_id ctx.local_id;
  target_id = frame.source_id;
  epoch = epoch;
  payload = payload;
}
