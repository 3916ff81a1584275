-- ===== src/Cluster/Replication/Wire/Messages.antt =====
-- Reading back the messages of a replication stream.
use fyro_db.Prelude.{
  ℕ, ◌+◌, ◌^◌, ◌≤◌, ◌<◌, ◌≡◌, refl, sym, ap, ◌∙◌, inl, inr, Bool-cases, if◌then◌else◌, true, false,
  ◌&&◌, ◌||◌, not, List, [], ◌++◌, arith, ltb, leb, ◌==◌, length, length-append, take, drop, to_be,
  from_be, from_be-to_be, length-to_be, append-nil, take-append_length, drop-append_length,
  drop-drop,
}
use fyro_db.Prelude.Checked.{Checked, good, bad, ◌>>=◌}
use fyro_db.Cluster.Replication.{
  MutationRecord, max_field, ReplicationMessage, begin_stream, entry_of, ack_of, snapshot_of,
  finish_stream,
}
use fyro_db.Cluster.Replication.Wire.{
  ReplicationCodecError, too_large, invalid, is_nil, has_no_value, encode_mutation_to_buf, field,
  encode_replication_message, decode_snapshot, decode_replication_message,
}
use fyro_db.Cluster.Replication.Wire.RoundTrip.{timed, IsTyped, is_refused, decode_mutation_lem}

-- A message by its types: numbers of 64 bits, an identity of 16 bytes.
abbrev pub IsMessage : ReplicationMessage → Type 0
IsMessage (begin_stream epoch from_offset identity) =
    (epoch < 256 ^ 8) × (from_offset < 256 ^ 8) × (length identity ≡ 16)
IsMessage (entry_of r) = IsTyped r
IsMessage (ack_of applied_offset) = applied_offset < 256 ^ 8
IsMessage (snapshot_of epoch offset payload) = (epoch < 256 ^ 8) × (offset < 256 ^ 8)
IsMessage (finish_stream offset) = offset < 256 ^ 8

drop_number : (width n : ℕ) (rest : List ℕ) → drop width (to_be width n ++ rest) ≡ rest
drop_number width n rest =
    ap (λ k. drop k (to_be width n ++ rest)) (sym (length-to_be width n))
    ∙ drop-append_length (to_be width n) rest

take_number :
    (width n : ℕ) (rest : List ℕ)
    → n < 256 ^ width
    → from_be (take width (to_be width n ++ rest)) ≡ n
take_number width n rest h =
    ap (λ k. from_be (take k (to_be width n ++ rest))) (sym (length-to_be width n))
    ∙ ap from_be (take-append_length (to_be width n) rest)
    ∙ from_be-to_be width n h

-- Two numbers of eight bytes and what follows them.
module _ (a b : ℕ) (rest : List ℕ) (ha : a < 256 ^ 8) (hb : b < 256 ^ 8) where
  first_field : from_be (field 0 8 (to_be 8 a ++ (to_be 8 b ++ rest))) ≡ a
  first_field = take_number 8 a (to_be 8 b ++ rest) ha

  second_field : from_be (field 8 8 (to_be 8 a ++ (to_be 8 b ++ rest))) ≡ b
  second_field =
      ap (λ t. from_be (take 8 t)) (drop_number 8 a (to_be 8 b ++ rest)) ∙ take_number 8 b rest hb

behind_two : (a b : ℕ) (rest : List ℕ) → drop 16 (to_be 8 a ++ (to_be 8 b ++ rest)) ≡ rest
behind_two a b rest =
    sym (drop-drop 8 8 (to_be 8 a ++ (to_be 8 b ++ rest)))
    ∙ ap (drop 8) (drop_number 8 a (to_be 8 b ++ rest))
    ∙ drop_number 8 b rest

one_number : (n : ℕ) → n < 256 ^ 8 → from_be (field 0 8 (to_be 8 n)) ≡ n
one_number n h = ap (λ t. from_be (take 8 t)) (sym (append-nil (to_be 8 n))) ∙ take_number 8 n [] h

length-two :
    (a b : ℕ) (rest : List ℕ) → length (to_be 8 a ++ (to_be 8 b ++ rest)) ≡ 16 + length rest
length-two a b rest = simp (length-append, length-to_be) (omega arith)

module _ (epoch offset : ℕ) (payload : List ℕ)
    (h : (epoch < 256 ^ 8) × (offset < 256 ^ 8) × (length payload ≤ max_field)) where
  decode_snapshot_lem :
      decode_snapshot (to_be 8 epoch ++ (to_be 8 offset ++ (to_be 4 (length payload) ++ payload)))
      ≡ good (snapshot_of epoch offset payload)
  unfolding decode_snapshot
  decode_snapshot_lem =
      rw
        (
          size,
          first_field epoch offset behind h.0 h.1,
          second_field epoch offset behind h.0 h.1,
          at_payload,
          fits,
        )
        refl
    where
      behind : List ℕ
      behind = to_be 4 (length payload) ++ payload

      size : from_be (field 16 4 (to_be 8 epoch ++ (to_be 8 offset ++ behind))) ≡ length payload
      size =
          ap (λ t. from_be (take 4 t)) (behind_two epoch offset behind)
          ∙ take_number 4 (length payload) payload (omega (arith, h.2))

      at_payload : drop 20 (to_be 8 epoch ++ (to_be 8 offset ++ behind)) ≡ payload
      at_payload =
          sym (drop-drop 16 4 (to_be 8 epoch ++ (to_be 8 offset ++ behind)))
          ∙ ap (drop 4) (behind_two epoch offset behind)
          ∙ drop_number 4 (length payload) payload

      fits :
          (ltb max_field (length payload)
            || not (length (to_be 8 epoch ++ (to_be 8 offset ++ behind)) == 20 + length payload))
          ≡ false
      fits = simp (length-append, length-to_be) (ground (arith, h.2))

-- What the receiver of a message gets.
abbrev pub received : ReplicationMessage → Checked ReplicationCodecError ReplicationMessage
received (entry_of r) =
    if ltb max_field (length r.key) || ltb max_field (length r.value)
    then bad too_large
    else if is_nil r.key || has_no_value r.kind && not (is_nil r.value)
    then bad invalid
    else good (entry_of (timed r))
received (snapshot_of epoch offset payload) =
    if ltb max_field (length payload)
    then bad too_large
    else good (snapshot_of epoch offset payload)
received message = good message

entry-received :
    (r : MutationRecord)
    → IsTyped r
    → (encode_replication_message (entry_of r) >>= decode_replication_message)
      ≡ received (entry_of r)
unfolding encode_replication_message decode_replication_message encode_mutation_to_buf
entry-received r h =
    elim (Bool-cases (ltb max_field (length r.key) || ltb max_field (length r.value))) [
      | inl long ↦ rw long refl
      | inr fits ↦
          rw (fits, decode_mutation_lem r h (ground (arith, fits)) (ground (arith, fits)))
            (elim (Bool-cases (is_refused r)) [ inl e ↦ rw e refl | inr e ↦ rw e refl ])
    ]

snapshot-received :
    (epoch offset : ℕ) (payload : List ℕ)
    → (epoch < 256 ^ 8) × (offset < 256 ^ 8)
    → (encode_replication_message (snapshot_of epoch offset payload) >>= decode_replication_message)
      ≡ received (snapshot_of epoch offset payload)
unfolding encode_replication_message decode_replication_message
snapshot-received epoch offset payload h = elim (Bool-cases (ltb max_field (length payload))) [
  | inl too_long ↦ rw too_long refl
  | inr fits ↦
      rw (fits, long, decode_snapshot_lem epoch offset payload (h.0, h.1, ground (arith, fits)))
        refl
]
  where
    long :
        leb 20 (length (to_be 8 epoch ++ (to_be 8 offset ++ (to_be 4 (length payload) ++ payload))))
        ≡ true
    long = simp (length-append, length-to_be) (ground arith)

-- A message of a stream, encoded and decoded, is the same message again, but for these: an entry
-- whose key or value is above 16 MiB and a snapshot part above it are not encoded; an entry with an
-- empty key, and a deletion or a new time to live with a value, are encoded and then refused; and
-- an entry that expires at 0 comes back as one that does not expire.
pub decode-encode_replication_message :
    (message : ReplicationMessage)
    → IsMessage message
    → (encode_replication_message message >>= decode_replication_message) ≡ received message
unfolding encode_replication_message decode_replication_message
decode-encode_replication_message (begin_stream epoch from_offset identity) h =
    rw
      (
        length-two epoch from_offset identity,
        h.2,
        first_field epoch from_offset identity h.0 h.1,
        second_field epoch from_offset identity h.0 h.1,
        behind_two epoch from_offset identity,
      )
      refl
decode-encode_replication_message (entry_of r) h = entry-received r h
decode-encode_replication_message (ack_of applied_offset) h =
    rw (length-to_be 8 applied_offset, one_number applied_offset h) refl
decode-encode_replication_message (snapshot_of epoch offset payload) h =
    snapshot-received epoch offset payload h
decode-encode_replication_message (finish_stream offset) h =
    rw (length-to_be 8 offset, one_number offset h) refl
