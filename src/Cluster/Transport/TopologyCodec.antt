-- ===== src/Cluster/Transport/TopologyCodec.antt =====
-- The wire form of a topology (src/cluster/transport/topology.rs). What `put_string` and the loops
-- append to the output is their result.
pub mod RoundTrip
pub mod Bounds
use fyro_db.Prelude.{
  ℕ, zero, suc, Bool, true, false, Option, none, some, List, [], ◌∷◌, ◌++◌, ltb, ◌==◌,
  if◌then◌else◌, length, to_be, from_be, read_exact,
}
use fyro_db.Prelude.Utf8.{is_utf8}
use fyro_db.Cluster.Hash.{Slot, SlotRange, new_slot, new_range}
use fyro_db.Cluster.Topology.{Text, NodeRole, primary, replica, NodeInfo, Topology}

pub data TopologyCodecError : Type 0 where
  truncated invalid too_large : TopologyCodecError

pub data Outcome {ℓ} (A : Type ℓ) : Type ℓ where
  value : A → Outcome A
  failure : TopologyCodecError → Outcome A

-- `?` on a result
infixl 5 ◌>>=◌
abbrev pub ◌>>=◌ {κ μ} :
    {Part : Type κ} {Whole : Type μ} → Outcome Part → (Part → Outcome Whole) → Outcome Whole
failure reason >>= next = failure reason
value part >>= next = next part

-- `.ok_or(TopologyCodecError::Invalid)`
abbrev pub ok_or_invalid {κ} : {Part : Type κ} → Option Part → Outcome Part
ok_or_invalid none = failure invalid
ok_or_invalid (some part) = value part

abbrev pub max_nodes : ℕ
max_nodes = 4096

pub put_string : Text → Outcome (List ℕ)
put_string text =
    if ltb 65535 (length text) then failure too_large else value (to_be 2 (length text) ++ text)

abbrev pub role_byte : NodeRole → ℕ
role_byte primary = 0
role_byte replica = 1

-- `as_deref().unwrap_or("")`
abbrev pub or_empty : Option Text → Text
or_empty none = []
or_empty (some id) = id

pub put_ranges : List SlotRange → List ℕ
put_ranges [] = []
put_ranges (range ∷ ranges) =
    to_be 2 range.start.value ++ (to_be 2 range.end.value ++ put_ranges ranges)

-- The body of the loop of `encode_topology`.
pub encode_node : NodeInfo → Outcome (List ℕ)
encode_node node = do
  id ← put_string node.id
  address ← put_string node.address
  cluster_address ← put_string node.cluster_address
  replica_of ← put_string (or_empty node.replica_of)
  if ltb 65535 (length node.slots)
      then failure too_large
      else value (
          id
          ++ (address
              ++ (cluster_address
                  ++ (role_byte node.role
                      ∷ (replica_of
                          ++ (to_be 8 node.epoch
                              ++ (to_be 2 (length node.slots) ++ put_ranges node.slots)))))))

pub encode_nodes : List NodeInfo → Outcome (List ℕ)
encode_nodes [] = value []
encode_nodes (node ∷ nodes) = do
  bytes ← encode_node node
  rest ← encode_nodes nodes
  value (bytes ++ rest)

pub encode_topology : Topology → Outcome (List ℕ)
encode_topology topology =
    if ltb max_nodes (length topology.nodes)
    then failure too_large
    else encode_nodes topology.nodes >>= λ nodes.
        value (to_be 8 topology.epoch ++ (to_be 4 (length topology.nodes) ++ nodes))

-- What is read of the input, and what is left of it.
abbrev pub Taken : Type 0 → Type 0
Taken A = Outcome (A × List ℕ)

pub take_bytes : ℕ → List ℕ → Taken (List ℕ)
take_bytes count input = elim (read_exact count input) [
  | none ↦ failure truncated
  | some p ↦ value p
]

-- `take_u16`, `take_u32` and `take_u64`
pub take_number : ℕ → List ℕ → Taken ℕ
take_number width input = take_bytes width input >>= λ p. value (from_be p.0, p.1)

pub take_string : List ℕ → Taken Text
take_string input = take_number 2 input >>= λ size.
    take_bytes size.0 size.1 >>= λ text. if is_utf8 text.0 then value text else failure invalid

pub take_slot : List ℕ → Taken Slot
take_slot input =
    take_number 2 input >>= λ p. ok_or_invalid (new_slot p.0) >>= λ slot. value (slot, p.1)

pub decode_ranges : ℕ → List ℕ → Taken (List SlotRange)
decode_ranges zero input = value ([], input)
decode_ranges (suc count) input = take_slot input >>= λ start. take_slot start.1 >>= λ end.
    ok_or_invalid (new_range start.0 end.0) >>= λ range.
    decode_ranges count end.1 >>= λ rest. value (range ∷ rest.0, rest.1)

-- `match take(&mut input, 1)?[0]`
pub take_role : List ℕ → Taken NodeRole
take_role [] = failure truncated
take_role (byte ∷ input) =
    if byte == 0
    then value (primary, input)
    else if byte == 1
    then value (replica, input)
    else failure invalid

abbrev pub unless_empty : Text → Option Text
unless_empty [] = none
unless_empty (byte ∷ bytes) = some (byte ∷ bytes)

-- The body of the loop of `decode_topology`.
pub decode_node : List ℕ → Taken NodeInfo
decode_node input = take_string input >>= λ id. take_string id.1 >>= λ address.
    take_string address.1 >>= λ cluster_address. take_role cluster_address.1 >>= λ role.
    take_string role.1 >>= λ replica_of. take_number 8 replica_of.1 >>= λ epoch.
    take_number 2 epoch.1 >>= λ count. decode_ranges count.0 count.1 >>= λ slots. value (
      record {
        id = id.0;
        address = address.0;
        cluster_address = cluster_address.0;
        role = role.0;
        replica_of = unless_empty replica_of.0;
        epoch = epoch.0;
        slots = slots.0;
      },
      slots.1,
    )

pub decode_nodes : ℕ → List ℕ → Taken (List NodeInfo)
decode_nodes zero input = value ([], input)
decode_nodes (suc count) input = decode_node input >>= λ node.
    decode_nodes count node.1 >>= λ rest. value (node.0 ∷ rest.0, rest.1)

abbrev pub finish : ℕ → List NodeInfo × List ℕ → Outcome Topology
finish epoch (nodes, []) = value (record { epoch = epoch; nodes = nodes })
finish epoch (nodes, byte ∷ rest) = failure invalid

pub decode_topology : List ℕ → Outcome Topology
decode_topology bytes = take_number 8 bytes >>= λ epoch. take_number 4 epoch.1 >>= λ count.
    if ltb max_nodes count.0
    then failure too_large
    else (decode_nodes count.0 count.1 >>= finish epoch.0)
