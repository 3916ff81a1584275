-- ===== src/Cluster/Replication/Wire/RoundTrip.antt =====
-- Reading back mutations and batches of them.
use fyro_db.Prelude.{
  ℕ, zero, suc, ◌^◌, ◌≤◌, ◌<◌, ◌≡◌, ◌≢◌, refl, sym, ap, ◌∙◌, inl, inr, Bool, Bool-cases,
  Option-cases, ◌==◌, false, if◌then◌else◌, ◌&&◌, ◌||◌, not, Option, none, some, List, [], ◌∷◌,
  ◌++◌, arith, ltb, length, to_be, from_be-to_be, length-to_be, read_exact, read_exact-append,
  append-nil,
}
use fyro_db.Prelude.Checked.{good, bad}
use fyro_db.Cluster.Hash.{hash_slots, Slot, new_slot}
use fyro_db.Cluster.Replication.{
  MutationKind, set_kind, delete_kind, expire_kind, replace_kind, MutationRecord, max_field,
}
use fyro_db.Cluster.Replication.Wire.{
  kind_byte, expire_or_zero, mutation_bytes, take_part, kind_of, is_nil, has_no_value, expiry,
  decode_mutation, invalid,
}

-- A record by its types: numbers of 64 bits and a slot.
pub record IsTyped (r : MutationRecord) : Type 0 where
  pub offset : r.offset < 256 ^ 8
  pub slot : r.slot.value < hash_slots
  pub expire : expire_or_zero r.expire_at_ms < 256 ^ 8

-- A record that is read back: it has a key, the sizes are in bounds, a deletion or a new time to
-- live has no value, and no record expires at 0.
pub record IsRecord (r : MutationRecord) : Type 0 where
  pub offset : r.offset < 256 ^ 8
  pub slot : r.slot.value < hash_slots
  pub key : length r.key ≤ max_field
  pub named : is_nil r.key ≡ false
  pub value : length r.value ≤ max_field
  pub bare : (has_no_value r.kind && not (is_nil r.value)) ≡ false
  pub expire : expire_or_zero r.expire_at_ms < 256 ^ 8
  pub lasting : r.expire_at_ms ≢ some 0

pub take_part-append :
    (n : ℕ) (xs rest : List ℕ) → length xs ≡ n → take_part n (xs ++ rest) ≡ good (xs, rest)
unfolding take_part
take_part-append n xs rest e =
    rw (ap (λ k. read_exact k (xs ++ rest)) (sym e) ∙ read_exact-append xs rest, take_part) refl

pub take_part-to_be :
    (width n : ℕ) (rest : List ℕ)
    → take_part width (to_be width n ++ rest) ≡ good (to_be width n, rest)
take_part-to_be width n rest = take_part-append width (to_be width n) rest (length-to_be width n)

take_tag : (tag : ℕ) (rest : List ℕ) → take_part 1 (tag ∷ rest) ≡ good (tag ∷ [], rest)
take_tag tag rest = take_part-append 1 (tag ∷ []) rest refl

take_whole : (xs : List ℕ) → take_part (length xs) xs ≡ good (xs, [])
take_whole xs =
    ap (take_part (length xs)) (sym (append-nil xs)) ∙ take_part-append (length xs) xs [] refl

kind_of-kind_byte : (k : MutationKind) → kind_of (kind_byte k) ≡ good k
kind_of-kind_byte set_kind = refl
kind_of-kind_byte delete_kind = refl
kind_of-kind_byte expire_kind = refl
kind_of-kind_byte replace_kind = refl

expiry_lem : (o : Option ℕ) → o ≢ some 0 → expiry (expire_or_zero o) ≡ o
expiry_lem none h = refl
expiry_lem (some zero) h = absurd (h refl)
expiry_lem (some (suc at)) h = ground arith

new_slot_lem : (s : Slot) → s.value < hash_slots → new_slot s.value ≡ some s
unfolding new_slot
new_slot_lem s h = ground arith

-- What the decoder refuses in a record of the right size: an empty key, and a value beside a
-- deletion or a new time to live.
abbrev pub is_refused : MutationRecord → Bool
is_refused r = is_nil r.key || has_no_value r.kind && not (is_nil r.value)

-- A record with no expiry where the source has one at 0.
abbrev pub timed : MutationRecord → MutationRecord
timed r = record r {
  expire_at_ms = elim r.expire_at_ms [ none ↦ none | some at ↦ if at == 0 then none else some at ];
}

timed_lem :
    (r : MutationRecord)
    → record r { expire_at_ms = expiry (expire_or_zero r.expire_at_ms) } ≡ timed r
timed_lem r = elim (Option-cases r.expire_at_ms) [ inl e ↦ rw e refl | inr (at, e) ↦ rw e refl ]

-- The bytes of a record of the right size, decoded.
pub decode_mutation_lem :
    (r : MutationRecord)
    → IsTyped r
    → length r.key ≤ max_field
    → length r.value ≤ max_field
    → decode_mutation (mutation_bytes r) ≡ (if is_refused r then bad invalid else good (timed r))
unfolding decode_mutation mutation_bytes
decode_mutation_lem r h key_fits value_fits =
    let payload = r.key ++ r.value in
    let expire = to_be 8 (expire_or_zero r.expire_at_ms) ++ payload in
    let value_len = to_be 4 (length r.value) ++ expire in
    let key_len = to_be 4 (length r.key) ++ value_len in
    let tag = kind_byte r.kind ∷ key_len in
    rw
      (
        take_part-to_be 8 r.offset (to_be 2 r.slot.value ++ tag),
        take_part-to_be 2 r.slot.value tag,
        from_be-to_be 2 r.slot.value (omega (arith, h.slot)),
        new_slot_lem r.slot h.slot,
        take_tag (kind_byte r.kind) key_len,
        kind_of-kind_byte r.kind,
        take_part-to_be 4 (length r.key) value_len,
        take_part-to_be 4 (length r.value) expire,
        take_part-to_be 8 (expire_or_zero r.expire_at_ms) payload,
        from_be-to_be 4 (length r.key) (omega (arith, key_fits)),
        from_be-to_be 4 (length r.value) (omega (arith, value_fits)),
        fits,
        take_part-append (length r.key) r.key r.value refl,
        take_whole r.value,
        from_be-to_be 8 r.offset h.offset,
        from_be-to_be 8 (expire_or_zero r.expire_at_ms) h.expire,
      )
      (elim (Bool-cases (is_refused r)) [
        | inl e ↦ rw e refl
        | inr e ↦ rw e (ap good (timed_lem r))
      ])
  where
    fits : (ltb max_field (length r.key) || ltb max_field (length r.value)) ≡ false
    fits = ground (arith, key_fits, value_fits)

pub decode_mutation-bytes :
    (r : MutationRecord) → IsRecord r → decode_mutation (mutation_bytes r) ≡ good r
decode_mutation-bytes r h =
    let accepted : is_refused r ≡ false = ground (arith, h.named, h.bare) in
    decode_mutation_lem r (record { offset = h.offset; slot = h.slot; expire = h.expire }) h.key
      h.value
    ∙ rw accepted (
        ap good (
          sym (timed_lem r)
          ∙ ap (λ (at : Option ℕ). record r { expire_at_ms = at })
              (expiry_lem r.expire_at_ms h.lasting)))
