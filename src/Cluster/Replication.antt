-- ===== src/Cluster/Replication.antt =====
-- The replication stream, the applier of a replica and the mutation log
-- (src/cluster/replication.rs). The bytes that a record's struct occupies are a parameter.
pub mod Wire
mod Tests
pub mod Log
pub mod Delivery
pub mod CatchUp
pub mod Journal
use fyro_db.Prelude.{
  ℕ, zero, suc, ◌+◌, ◌-◌, ◌*◌, ◌^◌, min, max, Bool, true, false, ◌&&◌, ◌||◌, not, Option, none,
  some, List, [], ◌∷◌, ◌++◌, ltb, leb, ◌==◌, if◌then◌else◌, length, filter, get_elem?,
}
use fyro_db.Prelude.Checked.{Checked, good, bad, ◌>>=◌, ◌>>◌, refuse_if}
use fyro_db.Cluster.Hash.{Slot}

pub data MutationKind : Type 0 where
  set_kind delete_kind expire_kind replace_kind : MutationKind

pub record MutationRecord : Type 0 where
  pub offset : ℕ
  pub slot : Slot
  pub kind : MutationKind
  pub key : List ℕ
  pub value : List ℕ
  pub expire_at_ms : Option ℕ

pub data LogError : Type 0 where
  offset_gap offset_regression : LogError

pub data ApplyError : Type 0 where
  apply_gap invalid_key invalid_value wrong_slot : ApplyError

pub data ReplicationMessage : Type 0 where
  begin_stream : ℕ → ℕ → List ℕ → ReplicationMessage
  entry_of : MutationRecord → ReplicationMessage
  ack_of : ℕ → ReplicationMessage
  snapshot_of : ℕ → ℕ → List ℕ → ReplicationMessage
  finish_stream : ℕ → ReplicationMessage

pub data StreamError : Type 0 where
  not_started wrong_epoch stream_gap invalid_ack already_finished : StreamError

pub record ReplicationStream : Type 0 where
  pub epoch : ℕ
  pub next_offset : ℕ
  pub started : Bool
  pub finished : Bool

abbrev pub u64_max : ℕ
u64_max = 2 ^ 64 - 1

-- `u64::saturating_add(1)`
abbrev pub next_u64 : ℕ → ℕ
next_u64 n = min (n + 1) u64_max

abbrev pub Streamed : Type 0
Streamed = Checked StreamError ReplicationStream

unfoldable pub new_stream : ReplicationStream
new_stream = record { epoch = 0; next_offset = 1; started = false; finished = false }

unfoldable pub begin : ℕ → ℕ → ReplicationStream → Streamed
begin epoch from_offset stream =
    if stream.started && not stream.finished
    then bad already_finished
    else good (record {
      epoch = epoch;
      next_offset = max from_offset 1;
      started = true;
      finished = false;
    })

unfoldable pub entry : MutationRecord → ReplicationStream → Streamed
entry r stream = do
  refuse_if (not stream.started || stream.finished) not_started
  refuse_if (not (r.offset == stream.next_offset)) stream_gap
  good (record stream { next_offset = next_u64 stream.next_offset })

unfoldable pub ack : ℕ → ReplicationStream → Streamed
ack offset stream =
    if not stream.started || leb stream.next_offset offset then bad invalid_ack else good stream

unfoldable pub finish : ℕ → ReplicationStream → Streamed
finish offset stream =
    if not stream.started || stream.finished || not (offset == stream.next_offset - 1)
    then bad invalid_ack
    else good (record stream { finished = true })

-- `ReplicationStream::apply`
unfoldable pub apply_message : ReplicationMessage → ReplicationStream → Streamed
unfolding begin entry ack finish
apply_message (begin_stream epoch from_offset identity) stream = begin epoch from_offset stream
apply_message (entry_of r) stream = entry r stream
apply_message (ack_of applied_offset) stream = ack applied_offset stream
apply_message (finish_stream offset) stream = finish offset stream
apply_message (snapshot_of epoch offset payload) stream =
    if stream.started && not (epoch == stream.epoch)
    then bad wrong_epoch
    else good
        (record { epoch = epoch; next_offset = next_u64 offset; started = true; finished = false })

pub record ReplicaApplier : Type 0 where
  pub applied_offset : ℕ

-- `ReplicaApplier::try_apply` on a store that the closure changes: the answer, the applier and
-- the store.
unfoldable pub try_apply {ℓ} :
    {S : Type ℓ}
    → (MutationRecord → S → Checked ApplyError S)
    → MutationRecord
    → ReplicaApplier × S
    → Checked ApplyError (Bool × (ReplicaApplier × S))
try_apply apply r (applier, store) =
    if leb r.offset applier.applied_offset
    then good (false, (applier, store))
    else if not (r.offset == next_u64 applier.applied_offset)
    then bad apply_gap
    else apply r store >>= λ store. good (true, (record { applied_offset = r.offset }, store))

-- `ReplicaApplier::apply`, whose closure does not fail
unfoldable pub apply_record {ℓ} :
    {S : Type ℓ}
    → (MutationRecord → S → S)
    → MutationRecord
    → ReplicaApplier × S
    → Checked ApplyError (Bool × (ReplicaApplier × S))
unfolding try_apply
apply_record apply r state = try_apply (λ r store. good (apply r store)) r state

abbrev pub max_field : ℕ
max_field = 16 * 1024 * 1024

abbrev pub max_log_bytes : ℕ
max_log_bytes = 64 * 1024 * 1024

pub record MutationLog : Type 0 where
  pub next_offset : ℕ
  pub capacity : ℕ
  pub bytes : ℕ
  pub records : List MutationRecord

unfoldable pub new_log : ℕ → MutationLog
new_log capacity = record { next_offset = 1; capacity = max capacity 1; bytes = 0; records = [] }

-- `usize::saturating_add`
abbrev pub add_usize : ℕ → ℕ → ℕ
add_usize a b = min (a + b) u64_max

-- `size_of::<MutationRecord>()` is the first argument.
unfoldable pub record_memory_bytes : ℕ → MutationRecord → ℕ
record_memory_bytes size r = add_usize (add_usize (length r.key) (length r.value)) size

-- The loop that drops the oldest records; `capacity` and `bytes` are what it compares.
unfoldable pub trim_oldest : ℕ → ℕ → ℕ → List MutationRecord → ℕ × List MutationRecord
trim_oldest size capacity bytes [] = (bytes, [])
trim_oldest size capacity bytes (r ∷ records) =
    elim (ltb capacity (suc (length records)) || ltb max_log_bytes bytes) [
      | true ↦ trim_oldest size capacity (bytes - record_memory_bytes size r) records
      | false ↦ (bytes, r ∷ records)
    ]

-- `MutationLog::append`: the offset and the log.
unfoldable pub append : ℕ → MutationRecord → MutationLog → Checked LogError (ℕ × MutationLog)
unfolding trim_oldest record_memory_bytes
append size r log =
    if not (r.offset == 0) && ltb r.offset log.next_offset
    then bad offset_regression
    else let stored = record r { offset = log.next_offset } in
      let bytes = add_usize log.bytes (record_memory_bytes size stored) in
      let (bytes, records) = trim_oldest size log.capacity bytes (log.records ++ stored ∷ []) in
      let next = next_u64 log.next_offset in
      good (next - 1, record log { next_offset = next; bytes = bytes; records = records })

-- `front().map_or(self.next_offset, |record| record.offset)`
unfoldable pub first_offset : MutationLog → ℕ
first_offset log = elim log.records [ [] ↦ log.next_offset | (r ∷ records) ↦ r.offset ]

unfoldable pub replay_from : ℕ → MutationLog → Checked LogError (List MutationRecord)
unfolding first_offset
replay_from offset log =
    if not (offset == 0) && ltb offset (first_offset log)
    then bad offset_gap
    else good (filter (λ r. leb (max offset 1) r.offset) log.records)

unfoldable pub record_at : ℕ → MutationLog → Checked LogError (Option MutationRecord)
record_at offset log = elim log.records [
  | [] ↦ good none
  | (front ∷ records) ↦
      if not (offset == 0) && ltb offset front.offset
      then bad offset_gap
      else if ltb (max offset 1) front.offset
      then good none
      else good (get_elem? (front ∷ records) (max offset 1 - front.offset))
]
