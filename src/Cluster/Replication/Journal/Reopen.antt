-- ===== src/Cluster/Replication/Journal/Reopen.antt =====
-- Reopening a journal: complete records, a torn length, and a torn record.
use mathlib.Core.Path.{subst}
use fyro_db.Prelude.{
  ℕ, suc, ◌+◌, ◌-◌, ◌≤◌, ◌<◌, ◌≡◌, refl, sym, ap, ◌∙◌, inl, inr, Bool-cases, filter, if◌then◌else◌,
  false, ◌&&◌, ◌||◌, not, some, List, [], ◌∷◌, ◌++◌, arith, ltb, map, length, length-append, to_le,
  length-to_le, read_exact, read_exact-append, append-nil, append_assoc, bytes_eq, bytes_eq_refl,
  replicate, codes, All,
}
use fyro_db.Prelude.Checked.{bad}
use fyro_db.Cluster.Transport.Vectored.{Answer}
use fyro_db.Cluster.Transport.Vectored.Delivery.{MakesProgress, writes, write_all_slices_total}
use fyro_db.Cluster.Replication.{MutationRecord, max_field}
use fyro_db.Cluster.Replication.Wire.{mutation_bytes}
use fyro_db.Cluster.Replication.Wire.RoundTrip.{IsRecord, IsTyped}
use fyro_db.Cluster.Replication.Wire.Batch.{record_len}
use fyro_db.Cluster.Replication.Journal.{
  ReplicationJournal, entry_prefix, write_journal_entry, unexpected_eof, read_records, read_journal,
}
use fyro_db.Cluster.Replication.Journal.Restored.{is_written, restored, Fits, read_restored}
use fyro_db.Cluster.Replication.Journal.Entries.{
  entry_bytes, entries, concat-entry, after, read_torn, read_entries, read_short,
}

-- What a new journal holds, and the entries behind it.
abbrev pub new_file : List ℕ → List ℕ
new_file identity = codes "FLRJ" ++ 1 ∷ identity

read_head :
    (identity input : List ℕ)
    → length identity ≡ 16
    → read_journal identity (new_file identity ++ input) ≡ read_records (length input) input
unfolding read_journal
read_head identity input sixteen =
    let whole : read_exact 21 (new_file identity ++ input) ≡ some (new_file identity, input) =
      ap (λ k. read_exact k (new_file identity ++ input)) (omega (arith, sixteen))
      ∙ read_exact-append (new_file identity) input in
    let same : (not (bytes_eq identity (replicate 16 0)) && not (bytes_eq identity identity))
        ≡ false =
      ground (arith, bytes_eq_refl identity) in
    rw (whole, same) refl

length-entries : (records : List MutationRecord) → length records ≤ length (entries records)
length-entries [] = omega arith
length-entries (r ∷ records) = omega (
  arith,
  length-append (entry_bytes r) (entries records),
  length-append (to_le 4 (record_len r)) (mutation_bytes r),
  length-to_le 4 (record_len r),
  length-entries records,
)

-- The journal of some records and what follows them.
read_behind :
    (identity rest : List ℕ) (records : List MutationRecord)
    → length identity ≡ 16
    → All IsRecord records
    → read_journal identity (new_file identity ++ (entries records ++ rest))
      ≡ after records (read_records (length (entries records ++ rest) - length records) rest)
read_behind identity rest records sixteen h =
    let input : List ℕ = entries records ++ rest in
    let rounds : length input ≡ length records + (length input - length records) =
      omega (arith, length-append (entries records) rest, length-entries records) in
    read_head identity input sixteen
    ∙ ap (λ n. read_records n input) rounds
    ∙ read_entries records (length input - length records) rest h

-- What the journal of one open connection to the disk holds after some writes, each with the
-- answers it gets.
unfoldable pub write_all :
    List (List Answer × MutationRecord) → ReplicationJournal → ReplicationJournal
unfolding write_journal_entry
write_all [] journal = journal
write_all ((answers, r) ∷ writes) journal = write_all writes (write_journal_entry answers r journal)

-- A record by its types, and answers that take bytes until the entry is written.
abbrev pub IsWritten : List Answer × MutationRecord → Type 0
IsWritten (answers, r) =
    IsTyped r × All MakesProgress answers × (length (entry_bytes r) ≤ writes answers)

abbrev written_records : List (List Answer × MutationRecord) → List MutationRecord
written_records = map (λ w. w.1)

write_one :
    (answers : List Answer) (r : MutationRecord) (journal : ReplicationJournal)
    → IsWritten (answers, r)
    → write_journal_entry answers r journal
      ≡ (if is_written r then record journal { file = journal.file ++ entry_bytes r } else journal)
unfolding write_journal_entry
write_one answers r journal (h, progress, enough) =
    let sent =
      write_all_slices_total answers (entry_prefix r ∷ r.key ∷ r.value ∷ []) journal.file progress
        (subst (λ t. length t ≤ writes answers) (sym (concat-entry r)) enough) in
    elim (Bool-cases (ltb max_field (length r.key) || ltb max_field (length r.value))) [
      | inl long ↦ rw long refl
      | inr fits ↦ rw (fits, sent, concat-entry r) refl
    ]

write_all_lem :
    (ws : List (List Answer × MutationRecord)) (journal : ReplicationJournal)
    → All IsWritten ws
    → (write_all ws journal).file ≡ journal.file ++ entries (filter is_written (written_records ws))
unfolding write_all
write_all_lem [] journal h = sym (append-nil journal.file)
write_all_lem ((answers, r) ∷ ws) journal (hw, h) = elim (Bool-cases (is_written r)) [
  | inr long ↦
      ap (λ (j : ReplicationJournal). (write_all ws j).file)
        (write_one answers r journal hw ∙ rw long refl)
      ∙ write_all_lem ws journal h
      ∙ rw long refl
  | inl fits ↦
      ap (λ (j : ReplicationJournal). (write_all ws j).file)
        (write_one answers r journal hw ∙ rw fits refl)
      ∙ write_all_lem ws (record journal { file = journal.file ++ entry_bytes r }) h
      ∙ append_assoc journal.file (entry_bytes r) (entries (filter is_written (written_records ws)))
      ∙ rw fits refl
]

written-Fits :
    (ws : List (List Answer × MutationRecord))
    → All IsWritten ws
    → All Fits (filter is_written (written_records ws))
written-Fits [] h = tt
written-Fits ((answers, r) ∷ ws) (hw, h) = elim (Bool-cases (is_written r)) [
  | inl fits ↦ rw fits ((hw.0, fits), written-Fits ws h)
  | inr long ↦ rw long (written-Fits ws h)
]

-- Records that are written to a new journal are read back in order when it is opened again with its
-- identity, also if the length of one more record broke off behind them. Those with a key or a
-- value above 16 MiB are left out, and one that expires at 0 is read as one that does not expire.
-- If one of the others has an empty key, or a value beside a deletion or a new time to live, the
-- journal is refused.
pub read_journal-write_all :
    (identity torn : List ℕ) (ws : List (List Answer × MutationRecord))
    → length identity ≡ 16
    → All IsWritten ws
    → length torn < 4
    → read_journal identity
        ((write_all ws (record { file = new_file identity; identity = identity })).file ++ torn)
      ≡ restored (filter is_written (map (λ w. w.1) ws))
read_journal-write_all identity torn ws sixteen h short =
    let records = filter is_written (written_records ws) in
    let input : List ℕ = entries records ++ torn in
    let rounds : length input ≡ length records + (length input - length records) =
      omega (arith, length-append (entries records) torn, length-entries records) in
    ap (λ t. read_journal identity (t ++ torn)) (write_all_lem ws _ h)
    ∙ ap (read_journal identity) (append_assoc (new_file identity) (entries records) torn)
    ∙ read_head identity input sixteen
    ∙ ap (λ n. read_records n input) rounds
    ∙ read_restored records (length input - length records) torn (written-Fits ws h)
        (read_short _ torn short)

-- A journal whose last record broke off behind its length, as after a crash during the write, is
-- refused when it is opened again, with all the complete records before it.
pub read_journal-torn :
    (identity part missing : List ℕ) (records : List MutationRecord) (r : MutationRecord)
    → length identity ≡ 16
    → All IsRecord records
    → IsRecord r
    → mutation_bytes r ≡ part ++ missing
    → 0 < length missing
    → read_journal identity
        (new_file identity ++ (entries records ++ (to_le 4 (record_len r) ++ part)))
      ≡ bad unexpected_eof
read_journal-torn identity part missing records r sixteen h hr e torn =
    let rest : List ℕ = to_le 4 (record_len r) ++ part in
    let rounds : ℕ = length (entries records ++ rest) - length records in
    let one_more : rounds ≡ suc (rounds - 1) = omega (
      arith,
      length-append (entries records) rest,
      length-entries records,
      length-append (to_le 4 (record_len r)) part,
      length-to_le 4 (record_len r),
    ) in
    read_behind identity rest records sixteen h
    ∙ ap (λ n. after records (read_records n rest)) one_more
    ∙ ap (after records) (read_torn r hr (rounds - 1) part missing e torn)
