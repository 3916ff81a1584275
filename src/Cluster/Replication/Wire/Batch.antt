-- ===== src/Cluster/Replication/Wire/Batch.antt =====
-- Reading back a batch of mutations.
use fyro_db.Prelude.{
  ℕ, ◌+◌, ◌-◌, ◌*◌, ◌/◌, ◌^◌, ◌≤◌, ◌≡◌, refl, sym, ap, ◌∙◌, false, ◌||◌, List, [], ◌∷◌, ◌++◌, arith,
  ltb, length, length-append, take, drop, to_be, from_be-to_be, length-to_be, append-nil,
  append_assoc, All, take-append_length, drop-append_length,
}
use fyro_db.Prelude.Checked.{good, ◌>>=◌}
use fyro_db.Cluster.Replication.{MutationRecord, max_field}
use fyro_db.Cluster.Replication.Wire.{
  mutation_header_len, mutation_bytes, encode_mutation_to_buf, encode_records,
  encode_mutation_batch, decode_records, decode_mutation_batch,
}
use fyro_db.Cluster.Replication.Wire.RoundTrip.{
  IsRecord, take_part-append, take_part-to_be, decode_mutation-bytes,
}

-- The length that a batch or a journal writes before the record.
abbrev pub record_len : MutationRecord → ℕ
record_len r = mutation_header_len + length r.key + length r.value

pub length-mutation_bytes : (r : MutationRecord) → length (mutation_bytes r) ≡ record_len r
unfolding mutation_bytes
length-mutation_bytes r = simp (length-append, length-to_be) (omega arith)

-- The bytes of the records of a batch.
framed : List MutationRecord → List ℕ
framed [] = []
framed (r ∷ records) = to_be 4 (record_len r) ++ (mutation_bytes r ++ framed records)

length-framed : (records : List MutationRecord) → length records * 31 ≤ length (framed records)
unfolding framed
length-framed [] = omega arith
length-framed (r ∷ records) =
    simp (length-append, length-to_be, length-mutation_bytes) (omega (arith, length-framed records))

pub encode_mutation_to_buf_lem :
    (r : MutationRecord) (out : List ℕ)
    → IsRecord r
    → encode_mutation_to_buf r out ≡ good (out ++ mutation_bytes r)
unfolding encode_mutation_to_buf
encode_mutation_to_buf_lem r out h = ground (arith, h.key, h.value)

encode_records_lem :
    (records : List MutationRecord) (out : List ℕ)
    → All IsRecord records
    → encode_records records out ≡ good (out ++ framed records)
unfolding encode_records framed
encode_records_lem [] out h = rw (append-nil out)
encode_records_lem (r ∷ records) out (hr, h) =
    rw
      (
        encode_mutation_to_buf_lem r (out ++ to_be 4 (record_len r)) hr,
        encode_records_lem records ((out ++ to_be 4 (record_len r)) ++ mutation_bytes r) h,
        append_assoc (out ++ to_be 4 (record_len r)) (mutation_bytes r) (framed records),
        append_assoc out (to_be 4 (record_len r)) (mutation_bytes r ++ framed records),
      )
      refl

record_len_fits :
    (r : MutationRecord) → IsRecord r → ltb (max_field * 2 + 64) (record_len r) ≡ false
record_len_fits r h = ground (arith, h.key, h.value)

decode_records-framed :
    (records : List MutationRecord)
    → All IsRecord records
    → decode_records (length records) (framed records) ≡ good records
unfolding decode_records framed
decode_records-framed [] h = refl
decode_records-framed (r ∷ records) (hr, h) =
    rw
      (
        take_part-to_be 4 (record_len r) (mutation_bytes r ++ framed records),
        from_be-to_be 4 (record_len r) (omega (arith, hr.key, hr.value)),
        record_len_fits r hr,
        take_part-append (record_len r) (mutation_bytes r) (framed records)
            (length-mutation_bytes r),
        decode_mutation-bytes r hr,
        decode_records-framed records h,
      )
      refl

count_fits :
    (records : List MutationRecord)
    → length records ≤ 2 ^ 20
    → (ltb (2 ^ 20) (length records)
        || ltb ((length (to_be 4 (length records) ++ framed records) - 4) / 31) (length records))
      ≡ false
count_fits records few = simp (length-append, length-to_be) (ground (arith, length-framed records))

-- A batch of at most 2²⁰ records of which each is read back is encoded, and decoding the bytes
-- gives the records back in order.
pub decode_mutation_batch-encode_mutation_batch :
    (records : List MutationRecord)
    → length records ≤ 2 ^ 20
    → All IsRecord records
    → (encode_mutation_batch records >>= decode_mutation_batch) ≡ good records
unfolding encode_mutation_batch decode_mutation_batch
decode_mutation_batch-encode_mutation_batch records few h =
    let input = to_be 4 (length records) ++ framed records in
    rw
      (
        encode_records_lem records (to_be 4 (length records)) h,
        enough,
        first,
        from_be-to_be 4 (length records) (omega arith),
        count_fits records few,
        behind,
        decode_records-framed records h,
      )
      refl
  where
    enough : ltb (length (to_be 4 (length records) ++ framed records)) 4 ≡ false
    enough = simp (length-append, length-to_be) (ground arith)

    first : take 4 (to_be 4 (length records) ++ framed records) ≡ to_be 4 (length records)
    first =
        ap (λ k. take k (to_be 4 (length records) ++ framed records))
          (sym (length-to_be 4 (length records)))
        ∙ take-append_length (to_be 4 (length records)) (framed records)

    behind : drop 4 (to_be 4 (length records) ++ framed records) ≡ framed records
    behind =
        ap (λ k. drop k (to_be 4 (length records) ++ framed records))
          (sym (length-to_be 4 (length records)))
        ∙ drop-append_length (to_be 4 (length records)) (framed records)
