-- ===== src/Cluster/Transport/TopologyCodec/RoundTrip.antt =====
-- Reading back an encoded topology.
use fyro_db.Prelude.{
  ℕ, ◌^◌, ◌≤◌, ◌<◌, ◌≡◌, refl, sym, ap, ◌∙◌, true, false, some, List, [], ◌∷◌, ◌++◌, arith, ltb,
  length, to_be, from_be-to_be, length-to_be, read_exact, read_exact-append, append_assoc,
  append-nil, All,
}
use fyro_db.Prelude.Utf8.{is_utf8}
use fyro_db.Cluster.Hash.{hash_slots, Slot, SlotRange, new_slot, new_range}
use fyro_db.Cluster.Topology.{Text, NodeRole, primary, replica, NodeInfo, Topology}
use fyro_db.Cluster.Topology.Ownership.{IsRange, HasRanges}
use fyro_db.Cluster.Transport.TopologyCodec.{
  value, ◌>>=◌, max_nodes, put_string, role_byte, or_empty, put_ranges, encode_node, encode_nodes,
  encode_topology, take_bytes, take_number, take_string, take_slot, decode_ranges, take_role,
  unless_empty, decode_node, decode_nodes, decode_topology,
}

-- A string that is UTF-8 and whose length is a `u16`.
pub record IsString (text : Text) : Type 0 where
  pub utf8 : is_utf8 text ≡ true
  pub short : length text ≤ 65535

pub record IsCodable (node : NodeInfo) : Type 0 where
  pub id : IsString node.id
  pub address : IsString node.address
  pub cluster_address : IsString node.cluster_address
  pub replica_of : IsString (or_empty node.replica_of)
  pub named : unless_empty (or_empty node.replica_of) ≡ node.replica_of
  pub epoch : node.epoch < 256 ^ 8
  pub count : length node.slots ≤ 65535
  pub slots : HasRanges node

string_bytes : Text → List ℕ
string_bytes text = to_be 2 (length text) ++ text

put_string_lem : (text : Text) → IsString text → put_string text ≡ value (string_bytes text)
unfolding put_string string_bytes
put_string_lem text h = let short : length text ≤ 65535 = h.short in ground arith

take_bytes-append :
    (n : ℕ) (xs rest : List ℕ) → length xs ≡ n → take_bytes n (xs ++ rest) ≡ value (xs, rest)
unfolding take_bytes
take_bytes-append n xs rest e =
    rw (ap (λ k. read_exact k (xs ++ rest)) (sym e) ∙ read_exact-append xs rest, take_bytes) refl

take_number-to_be :
    (width n : ℕ) (rest : List ℕ)
    → n < 256 ^ width
    → take_number width (to_be width n ++ rest) ≡ value (n, rest)
unfolding take_number
take_number-to_be width n rest h =
    rw
      (take_bytes-append width (to_be width n) rest (length-to_be width n), from_be-to_be width n h)
      refl

take_string_lem :
    (text : Text) (rest : List ℕ)
    → IsString text
    → take_string (string_bytes text ++ rest) ≡ value (text, rest)
unfolding take_string string_bytes
take_string_lem text rest h =
    let short : length text ≤ 65535 = h.short in
    rw (append_assoc (to_be 2 (length text)) text rest) (
      rw
        (
          take_number-to_be 2 (length text) (text ++ rest) (omega arith),
          take_bytes-append (length text) text rest refl,
          h.utf8,
        )
        refl)

take_slot_lem :
    (slot : Slot) (rest : List ℕ)
    → slot.value < hash_slots
    → take_slot (to_be 2 slot.value ++ rest) ≡ value (slot, rest)
unfolding take_slot new_slot
take_slot_lem slot rest h = rw (take_number-to_be 2 slot.value rest (omega arith)) (ground arith)

decode_ranges_lem :
    (ranges : List SlotRange) (rest : List ℕ)
    → All IsRange ranges
    → decode_ranges (length ranges) (put_ranges ranges ++ rest) ≡ value (ranges, rest)
unfolding decode_ranges put_ranges
decode_ranges_lem [] rest h = refl
decode_ranges_lem (range ∷ ranges) rest (hr, h) =
    rw
      (
        append_assoc (to_be 2 range.start.value) (to_be 2 range.end.value ++ put_ranges ranges)
            rest,
        append_assoc (to_be 2 range.end.value) (put_ranges ranges) rest,
        take_slot_lem range.start (to_be 2 range.end.value ++ (put_ranges ranges ++ rest))
            (omega arith),
        take_slot_lem range.end (put_ranges ranges ++ rest) (omega arith),
        made,
        decode_ranges_lem ranges rest h,
      )
      refl
  where
    made : new_range range.start range.end ≡ some range
    made = unfold new_range in ground arith

node_bytes : NodeInfo → List ℕ
node_bytes node =
    string_bytes node.id
    ++ (string_bytes node.address
        ++ (string_bytes node.cluster_address
            ++ (role_byte node.role
                ∷ (string_bytes (or_empty node.replica_of)
                    ++ (to_be 8 node.epoch
                        ++ (to_be 2 (length node.slots) ++ put_ranges node.slots))))))

encode_node_lem : (node : NodeInfo) → IsCodable node → encode_node node ≡ value (node_bytes node)
unfolding encode_node node_bytes
encode_node_lem node h =
    rw
      (
        put_string_lem node.id h.id,
        put_string_lem node.address h.address,
        put_string_lem node.cluster_address h.cluster_address,
        put_string_lem (or_empty node.replica_of) h.replica_of,
      )
      (rw few refl)
  where
    few : ltb 65535 (length node.slots) ≡ false
    few = let count : length node.slots ≤ 65535 = h.count in ground arith

take_role_lem :
    (role : NodeRole) (rest : List ℕ) → take_role (role_byte role ∷ rest) ≡ value (role, rest)
unfolding take_role
take_role_lem primary rest = refl
take_role_lem replica rest = refl

node_bytes-append :
    (node : NodeInfo) (rest : List ℕ)
    → node_bytes node ++ rest
      ≡ string_bytes node.id
        ++ (string_bytes node.address
            ++ (string_bytes node.cluster_address
                ++ (role_byte node.role
                    ∷ (string_bytes (or_empty node.replica_of)
                        ++ (to_be 8 node.epoch
                            ++ (to_be 2 (length node.slots) ++ (put_ranges node.slots ++ rest)))))))
unfolding node_bytes
node_bytes-append node rest = simp append_assoc refl

decode_node_lem :
    (node : NodeInfo) (rest : List ℕ)
    → IsCodable node
    → decode_node (node_bytes node ++ rest) ≡ value (node, rest)
unfolding decode_node
decode_node_lem node rest h =
    let replica_of = or_empty node.replica_of in
    let slots = put_ranges node.slots ++ rest in
    let count = to_be 2 (length node.slots) ++ slots in
    let epoch = to_be 8 node.epoch ++ count in
    let after_role = string_bytes replica_of ++ epoch in
    let role = role_byte node.role ∷ after_role in
    let cluster_address = string_bytes node.cluster_address ++ role in
    let address = string_bytes node.address ++ cluster_address in
    rw
      (
        node_bytes-append node rest,
        take_string_lem node.id address h.id,
        take_string_lem node.address cluster_address h.address,
        take_string_lem node.cluster_address role h.cluster_address,
        take_role_lem node.role after_role,
        take_string_lem replica_of epoch h.replica_of,
        take_number-to_be 8 node.epoch count h.epoch,
        take_number-to_be 2 (length node.slots) slots (omega (arith, h.count)),
        decode_ranges_lem node.slots rest h.slots,
        h.named,
        decode_node,
      )
      refl

decode_nodes_lem :
    (nodes : List NodeInfo) (rest : List ℕ)
    → All IsCodable nodes
    → (bytes : List ℕ) × (encode_nodes nodes ≡ value bytes)
      × (decode_nodes (length nodes) (bytes ++ rest) ≡ value (nodes, rest))
unfolding encode_nodes decode_nodes
decode_nodes_lem [] rest h = ([], refl, refl)
decode_nodes_lem (node ∷ nodes) rest (hn, h) =
    let (bytes, e, d) = decode_nodes_lem nodes rest h in
    (
      node_bytes node ++ bytes,
      rw (encode_node_lem node hn, e) refl,
      rw (append_assoc (node_bytes node) bytes rest)
          (rw (decode_node_lem node (bytes ++ rest) hn, d) refl),
    )

-- A topology of at most 4096 nodes whose strings are UTF-8 of at most 65535 bytes, whose ranges
-- are ordered and in bounds and at most 65535 for a node, whose epochs are `u64`s and where no
-- replica follows a node without a name, is encoded, and decoded as the same topology.
pub decode_topology-encode_topology :
    (topology : Topology)
    → topology.epoch < 256 ^ 8
    → length topology.nodes ≤ max_nodes
    → All IsCodable topology.nodes
    → (encode_topology topology >>= decode_topology) ≡ value topology
unfolding encode_topology decode_topology
decode_topology-encode_topology topology he hc h =
    let (bytes, e, d) = decode_nodes_lem topology.nodes [] h in
    let whole : decode_nodes (length topology.nodes) bytes ≡ value (topology.nodes, []) =
      ap (decode_nodes (length topology.nodes)) (sym (append-nil bytes)) ∙ d in
    rw (few, e, encode_topology)
      (rw
        (
          take_number-to_be 8 topology.epoch (to_be 4 (length topology.nodes) ++ bytes) he,
          take_number-to_be 4 (length topology.nodes) bytes (omega arith),
          few,
          whole,
          decode_topology,
        )
        refl)
  where
    few : ltb max_nodes (length topology.nodes) ≡ false
    few = ground arith
