-- ===== src/Storage/Store/Effect.antt =====
-- What a mutation from the primary does to each key.
use fyro_db.Prelude.{
  ℕ, ◌≡◌, refl, ap, ◌∙◌, inl, inr, Bool, true, false, not, Option, none, some, arith, ◌==◌,
  if◌then◌else◌, Bool-cases, Option-cases, bytes_eq, bytes_eq_iff,
}
use fyro_db.Prelude.Assoc.{text_eq, lookup, lookup-insert, lookup-remove}
use fyro_db.Prelude.Utf8.{is_utf8}
use fyro_db.Prelude.Checked.{good, Gives, Gives-elim, Gives-refuse_if}
use fyro_db.Cluster.Hash.{hash_slot}
use fyro_db.Cluster.Topology.{Text}
use fyro_db.Cluster.Replication.{
  MutationRecord, MutationKind, set_kind, delete_kind, expire_kind, replace_kind, invalid_key,
  wrong_slot,
}
use fyro_db.Storage.Store.{
  StoreValue, Store, Call, Values, or_zero, is_expired, expires, add_ttl, sub_ttl,
  adjust_replaced_ttl, take_out, put, expire_at, unexpired, apply_kind, apply_replica_mutation,
}

module _ {V : Type 0} where
  abbrev pub with_expiry : ℕ → StoreValue V → StoreValue V
  with_expiry expires_ms old = record old { expires_ms = expires_ms }

  abbrev pub renewed : ℕ → Option (StoreValue V) → Option (StoreValue V)
  renewed expires_ms none = none
  renewed expires_ms (some old) = some (with_expiry expires_ms old)

  abbrev pub renewed_at : Option ℕ → Option (StoreValue V) → Option (StoreValue V)
  renewed_at none old = old
  renewed_at (some expires_ms) old = renewed expires_ms old

  -- What a mutation of a kind makes of the value of its key.
  abbrev pub outcome :
      Values V → ℕ → MutationRecord → MutationKind → Option (StoreValue V) → Option (StoreValue V)
  outcome values now r replace_kind old = unexpired now (values.decode_single_value r.value)
  outcome values now r set_kind old =
      unexpired now
        (some (record { value = values.of_text r.value; expires_ms = or_zero r.expire_at_ms }))
  outcome values now r delete_kind old = none
  outcome values now r expire_kind old = renewed_at r.expire_at_ms old

  -- The entries differ at one key only.
  abbrev pub Writes : Text → Option (StoreValue V) → Store V → Store V → Type 0
  Writes key value before after =
      (other : Text)
      → lookup other after.entries
        ≡ (if bytes_eq key other then value else lookup other before.entries)

  module _ (call : Call) (key : Text) (store : Store V) where
    entries-adjust :
        (old new : Bool) (s : Store V) → (adjust_replaced_ttl call old new s).entries ≡ s.entries
    unfolding adjust_replaced_ttl add_ttl sub_ttl
    entries-adjust false false s = refl
    entries-adjust false true s = refl
    entries-adjust true false s = refl
    entries-adjust true true s = refl

    pub take_out-Writes : Writes key none store (take_out call key store)
    unfolding take_out sub_ttl
    take_out-Writes other = elim (Bool-cases (expires (lookup key store.entries))) [
      | inl e ↦ rw e (lookup-remove key other store.entries)
      | inr e ↦ rw e (lookup-remove key other store.entries)
    ]

    pub put-Writes :
        (value : StoreValue V)
        → Writes key (unexpired call.now_ms (some value)) store (put call key value store)
    unfolding put
    put-Writes value other = elim (Bool-cases (is_expired call.now_ms value)) [
      | inl late ↦ rw late (take_out-Writes other)
      | inr fresh ↦ rw fresh (
          ap (lookup other)
            (entries-adjust (expires (lookup key store.entries)) (expires (some value)) _)
          ∙ lookup-insert key other value store.entries)
    ]

    expire_at-Writes :
        (expires_ms : ℕ)
        → Writes key
            (renewed expires_ms (lookup key store.entries))
            store
            (expire_at call key expires_ms store)
    unfolding expire_at add_ttl
    expire_at-Writes expires_ms other = elim (Option-cases (lookup key store.entries)) [
      | inl gone ↦ rw (gone, expire_at) (ground (arith, gone, bytes_eq_iff key other))
      | inr (old, found) ↦ elim (Bool-cases (old.expires_ms == 0)) [
        | inl never ↦
            rw (found, expire_at, never)
              (lookup-insert key other (with_expiry expires_ms old) store.entries)
        | inr had ↦
            rw (found, expire_at, had)
              (lookup-insert key other (with_expiry expires_ms old) store.entries)
      ]
    ]

  module _ (values : Values V) (call : Call) (r : MutationRecord) (store : Store V) where
    apply_kind-Writes :
        (kind : MutationKind)
        → Gives
            (Writes r.key (outcome values call.now_ms r kind (lookup r.key store.entries)) store)
            (apply_kind values call kind r store)
    unfolding apply_kind
    apply_kind-Writes replace_kind = elim (Option-cases (values.decode_single_value r.value)) [
      | inl unread ↦ rw unread tt
      | inr (value, read) ↦ rw read (put-Writes call r.key store value)
    ]
    apply_kind-Writes set_kind = elim (Bool-cases (is_utf8 r.value)) [
      | inl text ↦ rw text (
          put-Writes call r.key store
            (record { value = values.of_text r.value; expires_ms = or_zero r.expire_at_ms }))
      | inr bytes ↦ rw bytes tt
    ]
    apply_kind-Writes delete_kind = take_out-Writes call r.key store
    apply_kind-Writes expire_kind = elim (Option-cases r.expire_at_ms) [
      | inl missing ↦ rw missing tt
      | inr (at, e) ↦ rw e (expire_at-Writes call r.key store at)
    ]

    -- After a mutation from the primary that the replica accepts, its key has the value that the
    -- mutation's kind gives it, with nothing in place of a value that has expired, and every other
    -- key has the value it had.
    pub apply_replica_mutation-Writes :
        (after : Store V)
        → apply_replica_mutation values call r store ≡ good after
        → Writes r.key
            (outcome values call.now_ms r r.kind (lookup r.key store.entries))
            store
            after
    unfolding apply_replica_mutation
    apply_replica_mutation-Writes after e =
        let written =
          Writes r.key (outcome values call.now_ms r r.kind (lookup r.key store.entries)) store in
        Gives-elim written (apply_replica_mutation values call r store)
          (Gives-refuse_if written (not (is_utf8 r.key)) invalid_key _ (
            Gives-refuse_if written (not ((hash_slot values.memchr r.key).value == r.slot.value))
              wrong_slot _ (apply_kind-Writes r.kind)))
          e
