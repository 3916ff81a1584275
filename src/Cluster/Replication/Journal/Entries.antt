-- ===== src/Cluster/Replication/Journal/Entries.antt =====
-- What the journal reads from the bytes of whole records.
use native.Mathlib.Nat.{suc-add, zero-add}
use fyro_db.Prelude.{
  ℕ, zero, suc, ◌+◌, ◌*◌, ◌<◌, ◌≡◌, refl, sym, ap, ◌∙◌, false, some, List, [], ◌∷◌, ◌++◌, arith,
  ltb, length, length-append, to_le, from_le, from_le-to_le, length-to_le, read_exact,
  read_exact-append, read_exact_short, append-nil, append_assoc, All,
}
use fyro_db.Prelude.Checked.{Checked, good, bad, ◌>>=◌}
use fyro_db.Cluster.Transport.Vectored.{concat}
use fyro_db.Cluster.Replication.{MutationRecord, max_field}
use fyro_db.Cluster.Replication.Wire.{mutation_bytes}
use fyro_db.Cluster.Replication.Wire.RoundTrip.{IsRecord, decode_mutation-bytes}
use fyro_db.Cluster.Replication.Wire.Batch.{record_len, length-mutation_bytes}
use fyro_db.Cluster.Replication.Journal.{
  entry_prefix, JournalError, unexpected_eof, read_record, read_records,
}

-- An entry of the journal.
abbrev pub entry_bytes : MutationRecord → List ℕ
entry_bytes r = to_le 4 (record_len r) ++ mutation_bytes r

abbrev pub entries : List MutationRecord → List ℕ
entries [] = []
entries (r ∷ records) = entry_bytes r ++ entries records

-- The slices that are written make up the entry.
pub concat-entry :
    (r : MutationRecord) → concat (entry_prefix r ∷ r.key ∷ r.value ∷ []) ≡ entry_bytes r
unfolding entry_prefix mutation_bytes
concat-entry r = simp (append_assoc, append-nil)

abbrev pub after :
    List MutationRecord
    → Checked JournalError (List MutationRecord)
    → Checked JournalError (List MutationRecord)
after xs m = m >>= λ more. good (xs ++ more)

length_read : (r : MutationRecord) → IsRecord r → from_le (to_le 4 (record_len r)) ≡ record_len r
length_read r h = from_le-to_le 4 (record_len r) (omega (arith, h.key, h.value))

not_oversized : (r : MutationRecord) → IsRecord r → ltb (max_field * 2 + 64) (record_len r) ≡ false
not_oversized r h = ground (arith, h.key, h.value)

pub four_bytes :
    (r : MutationRecord) (rest : List ℕ)
    → read_exact 4 (to_le 4 (record_len r) ++ rest) ≡ some (to_le 4 (record_len r), rest)
four_bytes r rest =
    ap (λ k. read_exact k (to_le 4 (record_len r) ++ rest)) (sym (length-to_le 4 (record_len r)))
    ∙ read_exact-append (to_le 4 (record_len r)) rest

module _ (r : MutationRecord) (h : IsRecord r) where
  read_payload :
      (rounds : List ℕ → Checked JournalError (List MutationRecord)) (rest : List ℕ)
      → read_record rounds (to_le 4 (record_len r), mutation_bytes r ++ rest)
        ≡ (rounds rest >>= λ records. good (r ∷ records))
  unfolding read_record
  read_payload rounds rest =
      let whole : read_exact (record_len r) (mutation_bytes r ++ rest)
          ≡ some (mutation_bytes r, rest) =
        ap (λ k. read_exact k (mutation_bytes r ++ rest)) (sym (length-mutation_bytes r))
        ∙ read_exact-append (mutation_bytes r) rest in
      rw (length_read r h, not_oversized r h, whole, decode_mutation-bytes r h) refl

  read_one :
      (rounds : ℕ) (rest : List ℕ)
      → read_records (suc rounds) (entry_bytes r ++ rest)
        ≡ (read_records rounds rest >>= λ records. good (r ∷ records))
  unfolding read_records
  read_one rounds rest =
      rw
        (
          append_assoc (to_le 4 (record_len r)) (mutation_bytes r) rest,
          four_bytes r (mutation_bytes r ++ rest),
          read_records,
        )
        (read_payload (read_records rounds) rest)

  -- A record that breaks off behind its length.
  pub read_torn :
      (rounds : ℕ) (part missing : List ℕ)
      → mutation_bytes r ≡ part ++ missing
      → 0 < length missing
      → read_records (suc rounds) (to_le 4 (record_len r) ++ part) ≡ bad unexpected_eof
  unfolding read_records read_record
  read_torn rounds part missing e torn =
      let short : length part < record_len r =
        omega (arith, ap length e, length-append part missing, length-mutation_bytes r) in
      rw
        (
          four_bytes r part,
          read_records,
          length_read r h,
          not_oversized r h,
          read_exact_short (record_len r) part short,
        )
        refl

after_nil : (m : Checked JournalError (List MutationRecord)) → after [] m ≡ m
after_nil (bad reason) = refl
after_nil (good more) = refl

after-cons :
    (r : MutationRecord) (records : List MutationRecord)
    (m : Checked JournalError (List MutationRecord))
    → (after records m >>= λ more. good (r ∷ more)) ≡ after (r ∷ records) m
after-cons r records (bad reason) = refl
after-cons r records (good more) = refl

pub read_entries :
    (records : List MutationRecord) (rounds : ℕ) (rest : List ℕ)
    → All IsRecord records
    → read_records (length records + rounds) (entries records ++ rest)
      ≡ after records (read_records rounds rest)
read_entries [] rounds rest h = rw zero-add (sym (after_nil (read_records rounds rest)))
read_entries (r ∷ records) rounds rest (hr, h) =
    rw
      (
        suc-add,
        append_assoc (entry_bytes r) (entries records) rest,
        read_one r hr (length records + rounds) (entries records ++ rest),
        read_entries records rounds rest h,
      )
      (after-cons r records (read_records rounds rest))

-- The length alone breaks off.
pub read_short : (rounds : ℕ) (rest : List ℕ) → length rest < 4 → read_records rounds rest ≡ good []
unfolding read_records
read_short zero rest h = refl
read_short (suc rounds) rest h = rw (read_exact_short 4 rest h, read_records) refl
