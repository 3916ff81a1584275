-- ===== src/Cluster/Replication/Journal/Restored.antt =====
-- What the journal reads from the entries of records of every kind.
use native.Mathlib.Nat.{suc-add, zero-add}
use fyro_db.Prelude.{
  ℕ, suc, ◌+◌, ◌≡◌, refl, sym, ap, ◌∙◌, inl, inr, Bool, true, false, ◌||◌, not, List, [], ◌∷◌, ◌++◌,
  arith, ltb, if◌then◌else◌, Bool-cases, length, All, from_le, to_le, from_le-to_le, read_exact,
  read_exact-append, some, append_assoc, ◌*◌,
}
use fyro_db.Prelude.Checked.{Checked, good, bad, ◌>>=◌}
use fyro_db.Cluster.Replication.{MutationRecord, max_field}
use fyro_db.Cluster.Replication.Wire.{mutation_bytes}
use fyro_db.Cluster.Replication.Wire.RoundTrip.{IsTyped, is_refused, timed, decode_mutation_lem}
use fyro_db.Cluster.Replication.Wire.Batch.{record_len, length-mutation_bytes}
use fyro_db.Cluster.Replication.Journal.{JournalError, invalid_record, read_record, read_records}
use fyro_db.Cluster.Replication.Journal.Entries.{entry_bytes, entries, four_bytes}

-- A key and a value that are not above 16 MiB: the others are not written.
abbrev pub is_written : MutationRecord → Bool
is_written r = not (ltb max_field (length r.key) || ltb max_field (length r.value))

-- The records that are read back, unless one of them is refused.
abbrev pub restored : List MutationRecord → Checked JournalError (List MutationRecord)
restored [] = good []
restored (r ∷ records) =
    let rest = restored records in
    if is_refused r then bad invalid_record else rest >>= λ more. good (timed r ∷ more)

abbrev pub Fits : MutationRecord → Type 0
Fits r = IsTyped r × (is_written r ≡ true)

module _ (r : MutationRecord) (h : Fits r) where
  read_payload :
      (rounds : List ℕ → Checked JournalError (List MutationRecord)) (rest : List ℕ)
      → read_record rounds (to_le 4 (record_len r), mutation_bytes r ++ rest) ≡ (
          if is_refused r
          then bad invalid_record
          else rounds rest >>= λ records. good (timed r ∷ records))
  unfolding read_record
  read_payload rounds rest =
      let size : from_le (to_le 4 (record_len r)) ≡ record_len r =
        from_le-to_le 4 (record_len r) (ground (arith, h.1)) in
      let small : ltb (max_field * 2 + 64) (record_len r) ≡ false = ground (arith, h.1) in
      let whole : read_exact (record_len r) (mutation_bytes r ++ rest)
          ≡ some (mutation_bytes r, rest) =
        ap (λ k. read_exact k (mutation_bytes r ++ rest)) (sym (length-mutation_bytes r))
        ∙ read_exact-append (mutation_bytes r) rest in
      rw (size, small, whole, decode_mutation_lem r h.0 (ground (arith, h.1)) (ground (arith, h.1)))
        (elim (Bool-cases (is_refused r)) [ inl e ↦ rw e refl | inr e ↦ rw e refl ])

  read_one :
      (rounds : ℕ) (rest : List ℕ)
      → read_records (suc rounds) (entry_bytes r ++ rest) ≡ (
          if is_refused r
          then bad invalid_record
          else read_records rounds rest >>= λ records. good (timed r ∷ records))
  unfolding read_records
  read_one rounds rest =
      rw
        (
          append_assoc (to_le 4 (record_len r)) (mutation_bytes r) rest,
          four_bytes r (mutation_bytes r ++ rest),
          read_records,
        )
        (read_payload (read_records rounds) rest)

pub read_restored :
    (records : List MutationRecord) (rounds : ℕ) (rest : List ℕ)
    → All Fits records
    → read_records rounds rest ≡ good []
    → read_records (length records + rounds) (entries records ++ rest) ≡ restored records
read_restored [] rounds rest h last = rw zero-add last
read_restored (r ∷ records) rounds rest (hr, h) last =
    rw
      (
        suc-add,
        append_assoc (entry_bytes r) (entries records) rest,
        read_one r hr (length records + rounds) (entries records ++ rest),
        read_restored records rounds rest h last,
      )
      refl
