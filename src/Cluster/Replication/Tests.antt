-- ===== src/Cluster/Replication/Tests.antt =====
-- Replication at concrete records.
use fyro_db.Prelude.{
  ℕ, suc, ◌≤◌, ◌≡◌, refl, none, List, [], ◌∷◌, ◌++◌, arith, replicate, get_elem?, codes, to_le,
  to_be,
}
use fyro_db.Prelude.Checked.{good, bad, ◌>>=◌}
use fyro_db.Cluster.Transport.Vectored.{Answer, wrote, interrupted}
use fyro_db.Cluster.Replication.{
  MutationRecord, set_kind, ReplicationMessage, begin_stream, MutationLog, new_log, append,
  replay_from, record_at,
}
use fyro_db.Cluster.Replication.Wire.{
  mutation_bytes, encode_replication_message, decode_replication_message,
}
use fyro_db.Cluster.Replication.Wire.RoundTrip.{IsRecord}
use fyro_db.Cluster.Replication.Wire.Batch.{record_len}
use fyro_db.Cluster.Replication.Wire.Messages.{decode-encode_replication_message}
use fyro_db.Cluster.Replication.Log.{IsLog, new_log-IsLog, append-IsLog}
use fyro_db.Cluster.Replication.Log.Lookup.{record_at-replay_from}
use fyro_db.Cluster.Replication.Journal.{unexpected_eof, read_journal}
use fyro_db.Cluster.Replication.Journal.Reopen.{
  new_file, write_all, read_journal-write_all, read_journal-torn,
}
use fyro_db.Cluster.Replication.Journal.Entries.{entries}

-- The key k, set to v at the offset.
abbrev written_at : ℕ → MutationRecord
written_at offset = record {
  offset = offset;
  slot = record { value = 42 };
  kind = set_kind;
  key = codes "k";
  value = codes "v";
  expire_at_ms = none;
}

written-IsRecord : (offset : ℕ) → offset ≤ 100 → IsRecord (written_at offset)
written-IsRecord offset h = record {
  offset = omega arith;
  slot = omega arith;
  key = omega arith;
  named = refl;
  value = omega arith;
  bare = refl;
  expire = omega arith;
  lasting = λ e. cc;
}

abbrev one_log : MutationLog
one_log = record { next_offset = 2; capacity = 4; bytes = 102; records = written_at 1 ∷ [] }

appended_one : append 100 (written_at 0) (new_log 4) ≡ good (1, one_log)
unfolding append new_log
appended_one = refl

one_log-IsLog : IsLog 100 one_log
unfolding new_log
one_log-IsLog =
    append-IsLog 100 (written_at 0) (new_log 4) one_log 1 (new_log-IsLog 100 4) (omega arith)
      (omega arith) appended_one

append-IsLog_example : IsLog 100 one_log
unfolding new_log
append-IsLog_example =
    append-IsLog 100 (written_at 0) (new_log 4) one_log 1 (new_log-IsLog 100 4) (omega arith)
      (omega arith) appended_one

record_at-replay_from_example :
    record_at 1 one_log ≡ (replay_from 1 one_log >>= λ records. good (get_elem? records 0))
record_at-replay_from_example = record_at-replay_from 100 1 one_log one_log-IsLog

abbrev begun : ReplicationMessage
begun = begin_stream 3 0 (codes "0123456789abcdef")

decode-encode_replication_message_example :
    (encode_replication_message begun >>= decode_replication_message) ≡ good begun
decode-encode_replication_message_example =
    decode-encode_replication_message begun (omega arith, omega arith, refl)

-- A store that counts the mutations.
abbrev count : MutationRecord → ℕ → ℕ
count r n = suc n

abbrev who : List ℕ
who = codes "0123456789abcdef"

abbrev one_write : List Answer × MutationRecord
one_write = (interrupted ∷ replicate 40 (wrote 7), written_at 1)

read_journal-write_all_example :
    read_journal who (
      (write_all (one_write ∷ []) (record { file = new_file who; identity = who })).file ++ 33 ∷ [])
    ≡ good (written_at 1 ∷ [])
unfolding mutation_bytes to_be to_le
read_journal-write_all_example =
    read_journal-write_all who (33 ∷ []) (one_write ∷ []) refl
      (
        (
          record { offset = omega arith; slot = omega arith; expire = omega arith },
          omega arith,
          omega arith,
        ),
        tt,
      )
      (omega arith)

-- The entry of the second record without its last byte.
abbrev cut : List ℕ
cut = to_be 8 2 ++ (to_be 2 42 ++ (1 ∷ (to_be 4 1 ++ (to_be 4 1 ++ (to_be 8 0 ++ codes "k")))))

read_journal-torn_example :
    read_journal who (
      new_file who ++ (entries (written_at 1 ∷ []) ++ (to_le 4 (record_len (written_at 2)) ++ cut)))
    ≡ bad unexpected_eof
unfolding mutation_bytes to_be
read_journal-torn_example =
    read_journal-torn who cut (codes "v") (written_at 1 ∷ []) (written_at 2) refl
      (written-IsRecord 1 (omega arith), tt) (written-IsRecord 2 (omega arith)) refl (omega arith)
