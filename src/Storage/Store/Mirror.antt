-- ===== src/Storage/Store/Mirror.antt =====
-- A replica follows its primary, key by key.
use fyro_db.Prelude.{
  ℕ, ◌≡◌, ◌≤◌, refl, sym, ap, ◌∙◌, ◌⊎◌, inl, inr, true, Option, none, some, List, [], arith, ==_iff,
  Bool-cases, Option-cases, bytes_eq, bytes_eq_iff,
}
use fyro_db.Prelude.Assoc.{text_eq, lookup}
use mathlib.Core.Path.{subst}
use mathlib.Core.Option.{some-injective, none-ne-some}
use fyro_db.Prelude.Utf8.{is_utf8}
use fyro_db.Prelude.Checked.{good, bad}
use fyro_db.Cluster.Hash.{hash_slot}
use fyro_db.Cluster.Topology.{Text}
use fyro_db.Cluster.Replication.{MutationRecord, delete_kind, replace_kind, invalid_value}
use fyro_db.Storage.Store.{
  StoreValue, Store, Call, Values, is_expired, unexpired, unless_zero, replace, take_out, put,
  apply_kind, apply_replica_mutation, record_current_value,
}
use fyro_db.Storage.Store.Effect.{Writes, take_out-Writes, put-Writes}

module _ {V : Type 0} where
  -- The dump of a held value is read back as that value, or it is refused.
  abbrev pub IsDumped : Values V → Option (StoreValue V) → Type 0
  IsDumped values none = Unit
  IsDumped values (some value) =
      (bytes : List ℕ)
      → values.encode_single_value value ≡ some bytes
      → (values.decode_single_value bytes ≡ some value) ⊎ (values.decode_single_value bytes ≡ none)

  -- The replica refuses the record of a value, since it does not decode the dump.
  abbrev pub Refused : Values V → Call → MutationRecord → Store V → Type 0
  Refused values call r replica =
      (r.kind ≡ replace_kind)
      × (values.decode_single_value r.value ≡ none)
      × (apply_replica_mutation values call r replica ≡ bad invalid_value)

  -- A reader at some time finds the same under every key.
  abbrev pub Mirrors : ℕ → Store V → Store V → Type 0
  Mirrors now primary replica =
      (key : Text)
      → unexpired now (lookup key replica.entries) ≡ unexpired now (lookup key primary.entries)

  -- Later fewer values are there.
  unexpired_later :
      (now later : ℕ) (held : Option (StoreValue V))
      → now ≤ later
      → unexpired later (unexpired now held) ≡ unexpired later held
  unfolding is_expired
  unexpired_later now later none h = refl
  unexpired_later now later (some value) h = ground arith

  module _ (values : Values V) (call : Call) (key : Text) (replica : Store V)
      (text : is_utf8 key ≡ true) where
    -- The replica accepts the records of a key that is gone and of a dumped value.
    accepts_delete :
        apply_replica_mutation values call
          (record {
            offset = 0;
            slot = hash_slot values.memchr key;
            kind = delete_kind;
            key = key;
            value = [];
            expire_at_ms = none;
          })
          replica
        ≡ good (take_out call key replica)
    unfolding apply_replica_mutation apply_kind
    accepts_delete =
        let own =
          (==_iff (hash_slot values.memchr key).value (hash_slot values.memchr key).value).1 refl in
        rw (text, own) refl

    accepts_replace :
        (value : StoreValue V) (bytes : List ℕ) (expiry : Option ℕ)
        → values.decode_single_value bytes ≡ some value
        → apply_replica_mutation values call
            (replace (hash_slot values.memchr key) key bytes expiry)
            replica
          ≡ good (put call key value replica)
    unfolding apply_replica_mutation apply_kind replace
    accepts_replace value bytes expiry read =
        let own =
          (==_iff (hash_slot values.memchr key).value (hash_slot values.memchr key).value).1 refl in
        rw (text, own, read) refl

    refuses_replace :
        (bytes : List ℕ) (expiry : Option ℕ)
        → values.decode_single_value bytes ≡ none
        → apply_replica_mutation values call
            (replace (hash_slot values.memchr key) key bytes expiry)
            replica
          ≡ bad invalid_value
    unfolding apply_replica_mutation apply_kind replace
    refuses_replace bytes expiry unread =
        let own =
          (==_iff (hash_slot values.memchr key).value (hash_slot values.memchr key).value).1 refl in
        rw (text, own, unread) refl

  module _ (values : Values V) (call : Call) (now : ℕ) (key : Text) (r : MutationRecord)
      (primary replica : Store V) (text : is_utf8 key ≡ true)
      (dumps : IsDumped values (unexpired now (lookup key primary.entries)))
      (e : record_current_value values now key primary ≡ some r) where
    -- The replica's key has the primary's value then.
    abbrev Applied : Type 0
    Applied =
        (after : Store V) × (apply_replica_mutation values call r replica ≡ good after)
        × Writes key (unexpired call.now_ms (unexpired now (lookup key primary.entries))) replica
            after

    -- The record of a value that is there.
    applied_value :
        (value : StoreValue V) (bytes : List ℕ)
        → unexpired now (lookup key primary.entries) ≡ some value
        → replace (hash_slot values.memchr key) key bytes (unless_zero value.expires_ms) ≡ r
        → (values.decode_single_value bytes ≡ some value)
          ⊎ (values.decode_single_value bytes ≡ none)
        → Applied ⊎ Refused values call r replica
    unfolding replace
    applied_value value bytes live same (inl read) = inl (
      put call key value replica,
      subst (λ m. apply_replica_mutation values call m replica ≡ good (put call key value replica))
          same
          (accepts_replace values call key replica text value bytes (unless_zero value.expires_ms)
            read),
      rw live (put-Writes call key replica value),
    )
    applied_value value bytes live same (inr unread) = inr (
      ap (λ (m : MutationRecord). m.kind) (sym same),
      ap (λ (m : MutationRecord). values.decode_single_value m.value) (sym same) ∙ unread,
      subst (λ m. apply_replica_mutation values call m replica ≡ bad invalid_value) same
          (refuses_replace values call key replica text bytes (unless_zero value.expires_ms)
            unread),
    )

    applied_current : Applied ⊎ Refused values call r replica
    unfolding record_current_value
    applied_current = elim (Option-cases (unexpired now (lookup key primary.entries))) [
      | inl gone ↦
          let same = rw (gone, record_current_value) at e in
          inl (
            take_out call key replica,
            subst
                (λ m.
                  apply_replica_mutation values call m replica ≡ good (take_out call key replica))
                (some-injective _ r same) (accepts_delete values call key replica text),
            rw gone (take_out-Writes call key replica),
          )
      | inr (value, live) ↦ elim (Option-cases (values.encode_single_value value)) [
        | inl undumped ↦ absurd (none-ne-some r (rw (live, record_current_value, undumped) at e))
        | inr (bytes, dumped) ↦
            let same = rw (live, record_current_value, dumped) at e in
            applied_value value bytes live (some-injective _ r same)
              (subst (IsDumped values) live dumps bytes dumped)
      ]
    ]

    -- When a command of the primary changed one key and recorded it, the replica either accepts the
    -- record, and to every later reader it holds then what the primary holds, if it did before the
    -- command; or it refuses the record of a value that it cannot decode. The key is UTF-8, and
    -- the dump of the key's value is not decoded as another value.
    pub record_current_value-Mirrors :
        (before : Store V) (written : Option (StoreValue V)) (later : ℕ)
        → now ≤ later
        → call.now_ms ≤ later
        → Writes key written before primary
        → Mirrors later before replica
        → ((after : Store V) × (apply_replica_mutation values call r replica ≡ good after)
            × Mirrors later primary after)
          ⊎ Refused values call r replica
    record_current_value-Mirrors before written later recorded applied changed agree =
        elim applied_current [
          | inr refused ↦ inr refused
          | inl (after, accepted, is_written) ↦ inl (after, accepted, everywhere after is_written)
        ]
      where
        everywhere :
            (after : Store V)
            → Writes key
                (unexpired call.now_ms (unexpired now (lookup key primary.entries)))
                replica
                after
            → Mirrors later primary after
        everywhere after is_written other = elim (Bool-cases (bytes_eq key other)) [
          | inl same ↦
              let here = (bytes_eq_iff key other).0 same in
              let read = rw same at (is_written other) in
              ap (unexpired later) read
              ∙ unexpired_later call.now_ms later (unexpired now (lookup key primary.entries))
                  applied
              ∙ unexpired_later now later (lookup key primary.entries) recorded
              ∙ ap (λ k. unexpired later (lookup k primary.entries)) here
          | inr differs ↦
              let read = rw differs at (is_written other) in
              let was = rw differs at (changed other) in
              ap (unexpired later) read ∙ agree other ∙ ap (unexpired later) (sym was)
        ]
