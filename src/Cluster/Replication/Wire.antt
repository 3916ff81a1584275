-- ===== src/Cluster/Replication/Wire.antt =====
-- The wire form of mutations, batches of them and replication messages
-- (src/cluster/replication.rs).
pub mod RoundTrip
pub mod Batch
pub mod Messages
use fyro_db.Prelude.{
  ℕ, zero, suc, ◌+◌, ◌-◌, ◌*◌, ◌/◌, ◌^◌, Bool, true, false, ◌&&◌, ◌||◌, not, Option, none, some,
  List, [], ◌∷◌, ◌++◌, ltb, leb, ◌==◌, if◌then◌else◌, length, take, drop, get_or, to_be, from_be,
  read_exact,
}
use fyro_db.Prelude.Checked.{Checked, good, bad, ◌>>=◌, ◌>>◌, refuse_if, ok_or}
use fyro_db.Cluster.Hash.{Slot, new_slot}
use fyro_db.Cluster.Replication.{
  MutationKind, set_kind, delete_kind, expire_kind, replace_kind, MutationRecord, max_field,
  ReplicationMessage, begin_stream, entry_of, ack_of, snapshot_of, finish_stream,
}

pub data ReplicationCodecError : Type 0 where
  truncated invalid too_large : ReplicationCodecError

abbrev pub Coded : Type 0 → Type 0
Coded A = Checked ReplicationCodecError A

abbrev pub mutation_header_len : ℕ
mutation_header_len = 27

abbrev pub kind_byte : MutationKind → ℕ
kind_byte set_kind = 1
kind_byte delete_kind = 2
kind_byte expire_kind = 3
kind_byte replace_kind = 4

-- `expire_at_ms.unwrap_or(0)`
abbrev pub expire_or_zero : Option ℕ → ℕ
expire_or_zero none = 0
expire_or_zero (some at) = at

-- What `encode_mutation_to_buf` appends.
unfoldable pub mutation_bytes : MutationRecord → List ℕ
mutation_bytes r =
    to_be 8 r.offset
    ++ (to_be 2 r.slot.value
        ++ (kind_byte r.kind
            ∷ (to_be 4 (length r.key)
                ++ (to_be 4 (length r.value)
                    ++ (to_be 8 (expire_or_zero r.expire_at_ms) ++ (r.key ++ r.value))))))

unfoldable pub encode_mutation_to_buf : MutationRecord → List ℕ → Coded (List ℕ)
unfolding mutation_bytes
encode_mutation_to_buf r out =
    if ltb max_field (length r.key) || ltb max_field (length r.value)
    then bad too_large
    else good (out ++ mutation_bytes r)

unfoldable pub encode_mutation : MutationRecord → Coded (List ℕ)
unfolding encode_mutation_to_buf
encode_mutation r =
    if ltb max_field (length r.key) || ltb max_field (length r.value)
    then bad too_large
    else encode_mutation_to_buf r []

-- The loop over the records of a batch.
unfoldable pub encode_records : List MutationRecord → List ℕ → Coded (List ℕ)
unfolding encode_mutation_to_buf
encode_records [] out = good out
encode_records (r ∷ records) out =
    let record_len = mutation_header_len + length r.key + length r.value in
    encode_mutation_to_buf r (out ++ to_be 4 record_len) >>= encode_records records

unfoldable pub encode_mutation_batch : List MutationRecord → Coded (List ℕ)
unfolding encode_records
encode_mutation_batch records = encode_records records (to_be 4 (length records))

unfoldable pub take_part : ℕ → List ℕ → Coded (List ℕ × List ℕ)
take_part size input = ok_or (read_exact size input) truncated

abbrev pub kind_of : ℕ → Coded MutationKind
kind_of tag =
    if tag == 1
    then good set_kind
    else if tag == 2
    then good delete_kind
    else if tag == 3
    then good expire_kind
    else if tag == 4
    then good replace_kind
    else bad invalid

abbrev pub is_nil : List ℕ → Bool
is_nil [] = true
is_nil (b ∷ bytes) = false

-- `matches!(kind, MutationKind::Delete | MutationKind::Expire)`
abbrev pub has_no_value : MutationKind → Bool
has_no_value delete_kind = true
has_no_value expire_kind = true
has_no_value set_kind = false
has_no_value replace_kind = false

-- `(expire != 0).then_some(expire)`
abbrev pub expiry : ℕ → Option ℕ
expiry at = if at == 0 then none else some at

unfoldable pub decode_mutation : List ℕ → Coded MutationRecord
decode_mutation input = do
  (offset, input) ← take_part 8 input
  (raw_slot, input) ← take_part 2 input
  slot ← ok_or (new_slot (from_be raw_slot)) invalid
  (tag, input) ← take_part 1 input
  kind ← kind_of (get_or tag 0 0)
  (key_len, input) ← take_part 4 input
  (value_len, input) ← take_part 4 input
  (expire, input) ← take_part 8 input
  refuse_if (ltb max_field (from_be key_len) || ltb max_field (from_be value_len)) too_large
  (key, input) ← take_part (from_be key_len) input
  (value, input) ← take_part (from_be value_len) input
  refuse_if (not (is_nil input) || is_nil key || (has_no_value kind && not (is_nil value))) invalid
  good (record {
    offset = from_be offset;
    slot = slot;
    kind = kind;
    key = key;
    value = value;
    expire_at_ms = expiry (from_be expire);
  })

-- The loop over the count, and the check of what is left.
unfoldable pub decode_records : ℕ → List ℕ → Coded (List MutationRecord)
decode_records zero input = if is_nil input then good [] else bad invalid
decode_records (suc count) input = do
  (size, input) ← take_part 4 input
  refuse_if (ltb (max_field * 2 + 64) (from_be size)) too_large
  (part, input) ← take_part (from_be size) input
  r ← decode_mutation part
  records ← decode_records count input
  good (r ∷ records)

unfoldable pub decode_mutation_batch : List ℕ → Coded (List MutationRecord)
unfolding decode_records
decode_mutation_batch input =
    if ltb (length input) 4
    then bad truncated
    else let count = from_be (take 4 input) in
      if ltb (2 ^ 20) count || ltb ((length input - 4) / (4 + mutation_header_len)) count
      then bad invalid
      else decode_records count (drop 4 input)

unfoldable pub encode_snapshot : ℕ → ℕ → List ℕ → Coded (List ℕ)
encode_snapshot epoch offset payload =
    if ltb max_field (length payload)
    then bad too_large
    else good (4 ∷ (to_be 8 epoch ++ (to_be 8 offset ++ (to_be 4 (length payload) ++ payload))))

unfoldable pub encode_replication_message : ReplicationMessage → Coded (List ℕ)
unfolding encode_mutation_to_buf encode_snapshot
encode_replication_message (begin_stream epoch from_offset identity) =
    good (1 ∷ (to_be 8 epoch ++ (to_be 8 from_offset ++ identity)))
encode_replication_message (entry_of r) = encode_mutation_to_buf r (2 ∷ [])
encode_replication_message (ack_of applied_offset) = good (3 ∷ to_be 8 applied_offset)
encode_replication_message (snapshot_of epoch offset payload) =
    if ltb max_field (length payload)
    then bad too_large
    else good (4 ∷ (to_be 8 epoch ++ (to_be 8 offset ++ (to_be 4 (length payload) ++ payload))))
encode_replication_message (finish_stream offset) = good (5 ∷ to_be 8 offset)

-- `input[from..to]` of the bytes after the tag, which stand one index lower there.
abbrev pub field : ℕ → ℕ → List ℕ → List ℕ
field from size rest = take size (drop from rest)

-- The arm for a snapshot, on the bytes after the tag.
unfoldable pub decode_snapshot : List ℕ → Coded ReplicationMessage
decode_snapshot rest =
    let size = from_be (field 16 4 rest) in
    if ltb max_field size || not (length rest == 20 + size)
    then bad invalid
    else good (snapshot_of (from_be (field 0 8 rest)) (from_be (field 8 8 rest)) (drop 20 rest))

unfoldable pub decode_replication_message : List ℕ → Coded ReplicationMessage
unfolding decode_mutation decode_snapshot
decode_replication_message [] = bad truncated
decode_replication_message (tag ∷ rest) =
    let entry = decode_mutation rest >>= λ r. good (entry_of r) in
    if tag == 1 && length rest == 32
    then good (begin_stream (from_be (field 0 8 rest)) (from_be (field 8 8 rest)) (drop 16 rest))
    else if tag == 2
    then entry
    else if tag == 3 && length rest == 8
    then good (ack_of (from_be (field 0 8 rest)))
    else if tag == 4 && leb 20 (length rest)
    then decode_snapshot rest
    else if tag == 5 && length rest == 8
    then good (finish_stream (from_be (field 0 8 rest)))
    else bad invalid
