-- ===== src/Cluster/Replication/Journal.antt =====
-- The replication coordinator and its journal file (src/cluster/replication.rs). The file is the
-- list of its bytes, and what its writes answer is given; flushing is left out.
pub mod Reopen
pub mod Entries
pub mod Restored
use fyro_db.Prelude.{
  ℕ, zero, suc, ◌+◌, ◌*◌, ◌%◌, ◌^◌, Bool, true, false, ◌&&◌, ◌||◌, not, Option, none, some, List,
  [], ◌∷◌, ◌++◌, ltb, ◌==◌, if◌then◌else◌, length, take, drop, get_or, to_be, to_le, from_le,
  read_exact, bytes_eq, replicate, codes,
}
use fyro_db.Prelude.Checked.{Checked, good, bad, ◌>>=◌, ◌>>◌, refuse_if, ok_or}
use fyro_db.Cluster.Transport.Vectored.{Answer, write_all_slices}
use fyro_db.Cluster.Replication.{MutationRecord, LogError, MutationLog, new_log, append, max_field}
use fyro_db.Cluster.Replication.Wire.{
  ReplicationCodecError, mutation_header_len, kind_byte, expire_or_zero, decode_mutation,
}

pub record ReplicationJournal : Type 0 where
  pub file : List ℕ
  pub identity : List ℕ

pub record Coordinator : Type 0 where
  pub log : MutationLog
  pub next_offset : ℕ
  pub appended : ℕ
  pub journal : Option ReplicationJournal

-- The array `prefix` of `write_journal_entry`.
unfoldable pub entry_prefix : MutationRecord → List ℕ
entry_prefix r =
    to_le 4 (mutation_header_len + length r.key + length r.value)
    ++ (to_be 8 r.offset
        ++ (to_be 2 r.slot.value
            ++ (kind_byte r.kind
                ∷ (to_be 4 (length r.key)
                    ++ (to_be 4 (length r.value) ++ to_be 8 (expire_or_zero r.expire_at_ms))))))

-- The result of the write is dropped.
unfoldable pub write_journal_entry :
    List Answer → MutationRecord → ReplicationJournal → ReplicationJournal
write_journal_entry answers r journal =
    if ltb max_field (length r.key) || ltb max_field (length r.value)
    then journal
    else record journal {
      file = (write_all_slices answers (entry_prefix r ∷ r.key ∷ r.value ∷ []) journal.file).1;
    }

unfoldable pub new_coordinator : ℕ → Coordinator
unfolding new_log
new_coordinator capacity = record {
  log = new_log capacity;
  next_offset = 1;
  appended = 0;
  journal = none;
}

-- `ReplicationCoordinator::append`; the size is that of the struct of a record.
unfoldable pub coordinate :
    ℕ → List Answer → MutationRecord → Coordinator → Checked LogError ℕ × Coordinator
unfolding write_journal_entry append
coordinate size answers r c =
    let stored = record r { offset = c.log.next_offset } in
    let journal : Option ReplicationJournal = elim c.journal [
      | none ↦ none
      | some journal ↦ some (write_journal_entry answers stored journal)
    ] in
    elim (append size stored c.log) [
      | bad reason ↦ (bad reason, record c { journal = journal })
      | good (offset, log) ↦ (
        good offset,
        record c {
          log = log;
          next_offset = log.next_offset;
          appended = (c.appended + 1) % 2 ^ 64;
          journal = journal;
        },
      )
    ]

pub data JournalError : Type 0 where
  unexpected_eof identity_mismatch oversized_record invalid_record : JournalError

-- One round of the reading loop, with the rest of the rounds.
unfoldable pub read_record :
    (List ℕ → Checked JournalError (List MutationRecord))
    → List ℕ × List ℕ
    → Checked JournalError (List MutationRecord)
unfolding decode_mutation
read_record rounds (size, input) = do
  refuse_if (ltb (max_field * 2 + 64) (from_le size)) oversized_record
  (payload, input) ← ok_or (read_exact (from_le size) input) unexpected_eof
  r ← elim (decode_mutation payload) [ bad reason ↦ bad invalid_record | good r ↦ good r ]
  records ← rounds input
  good (r ∷ records)

-- The loop reads four bytes or more in each round, so the bytes of the file are fuel enough.
unfoldable pub read_records : ℕ → List ℕ → Checked JournalError (List MutationRecord)
unfolding read_record
read_records zero input = good []
read_records (suc rounds) input = elim (read_exact 4 input) [
  | none ↦ good []
  | some part ↦ read_record (read_records rounds) part
]

-- The magic number, the version and the identity at the head of the file.
unfoldable pub read_journal : List ℕ → List ℕ → Checked JournalError (List MutationRecord)
unfolding read_records
read_journal identity file = do
  (header, input) ← ok_or (read_exact 21 file) unexpected_eof
  refuse_if (not (bytes_eq (take 4 header) (codes "FLRJ")) || not (get_or header 4 0 == 1))
      identity_mismatch
  refuse_if (not (bytes_eq identity (replicate 16 0)) && not (bytes_eq (drop 5 header) identity))
      identity_mismatch
  read_records (length input) input

-- The restored records are appended one by one; what `append` answers is dropped.
unfoldable pub restore : ℕ → List MutationRecord → MutationLog → MutationLog
unfolding append
restore size [] log = log
restore size (r ∷ records) log =
    restore size records (elim (append size r log) [ bad reason ↦ log | good (offset, log) ↦ log ])

abbrev pub is_none_left : List MutationRecord → Bool
is_none_left [] = true
is_none_left (r ∷ records) = false

-- `open_journal`, on the file that is there, if there is one.
unfoldable pub open_journal :
    ℕ → Option (List ℕ) → List ℕ → Coordinator → Checked JournalError Coordinator
unfolding read_journal restore
open_journal size none identity c = good (record c {
  journal = some (record { file = codes "FLRJ" ++ 1 ∷ identity; identity = identity });
})
open_journal size (some file) identity c = read_journal identity file >>= λ restored.
    let log = restore size restored c.log in
    good (record c {
      log = log;
      next_offset = if is_none_left restored then c.next_offset else log.next_offset;
      journal = some (record { file = file; identity = identity });
    })
