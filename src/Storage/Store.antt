-- ===== src/Storage/Store.antt =====
-- The keys of a node as its replica changes them (src/storage/store/cluster.rs). The sharded hash
-- table is the map that it implements. The values, the text of a value, the decoding of a dumped
-- value and the search for a byte are parameters; the clock and the CPU come with each call.
pub mod Count
pub mod Effect
pub mod Mirror
mod Tests
use fyro_db.Prelude.{
  ℕ, Bool, true, false, ◌&&◌, not, Option, none, some, List, [], ◌∷◌, leb, ◌==◌, if◌then◌else◌,
}
use fyro_db.Prelude.Assoc.{Assoc, text_eq, lookup, insert, remove}
use fyro_db.Prelude.Utf8.{is_utf8}
use fyro_db.Prelude.Checked.{Checked, good, bad, ◌>>=◌, ◌>>◌, refuse_if, ok_or}
use fyro_db.Cluster.Hash.{Slot, hash_slot}
use fyro_db.Cluster.Topology.{Text}
use fyro_db.Cluster.Replication.{
  MutationRecord, MutationKind, set_kind, delete_kind, expire_kind, replace_kind, ApplyError,
  invalid_key, invalid_value, wrong_slot,
}
use fyro_db.Storage.Ttl.{TtlCounters, add_one, remove_one}

pub record StoreValue (V : Type 0) : Type 0 where
  pub value : V
  pub expires_ms : ℕ

pub record Store (V : Type 0) : Type 0 where
  pub entries : Assoc Text (StoreValue V)
  pub ttl : TtlCounters

-- The clock and the CPU of a call.
pub record Call : Type 0 where
  pub now_ms : ℕ
  pub cpu : Option ℕ

-- What the store takes from elsewhere.
pub record Values (V : Type 0) : Type 0 where
  pub of_text : List ℕ → V
  pub encode_single_value : StoreValue V → Option (List ℕ)
  pub decode_single_value : List ℕ → Option (StoreValue V)
  pub memchr : ℕ → List ℕ → Option ℕ

-- `expire_at_ms.unwrap_or(0)`
abbrev pub or_zero : Option ℕ → ℕ
or_zero none = 0
or_zero (some at) = at

-- `MutationRecord::replace`
unfoldable pub replace : Slot → List ℕ → List ℕ → Option ℕ → MutationRecord
replace slot key value expire_at_ms = record {
  offset = 0;
  slot = slot;
  kind = replace_kind;
  key = key;
  value = value;
  expire_at_ms = expire_at_ms;
}

-- `Some(expires_ms).filter(|expiry| *expiry != 0)`
abbrev pub unless_zero : ℕ → Option ℕ
unless_zero n = if n == 0 then none else some n

module _ {V : Type 0} where
  unfoldable pub is_expired : ℕ → StoreValue V → Bool
  is_expired now value = not (value.expires_ms == 0) && leb value.expires_ms now

  -- `get_ref(key).is_some_and(|old| old.expires_ms != 0)`
  abbrev pub expires : Option (StoreValue V) → Bool
  expires none = false
  expires (some old) = not (old.expires_ms == 0)

  unfoldable pub add_ttl : Call → Store V → Store V
  unfolding add_one
  add_ttl call store = record store { ttl = add_one call.cpu store.ttl }

  unfoldable pub sub_ttl : Call → Store V → Store V
  unfolding remove_one
  sub_ttl call store = record store { ttl = remove_one call.cpu store.ttl }

  unfoldable pub adjust_replaced_ttl : Call → Bool → Bool → Store V → Store V
  unfolding add_ttl sub_ttl
  adjust_replaced_ttl call false true store = add_ttl call store
  adjust_replaced_ttl call true false store = sub_ttl call store
  adjust_replaced_ttl call false false store = store
  adjust_replaced_ttl call true true store = store

  -- The key taken out, with the count.
  unfoldable pub take_out : Call → Text → Store V → Store V
  unfolding sub_ttl
  take_out call key store =
      let old_has_ttl = expires (lookup key store.entries) in
      let after : Store V = record store { entries = remove key store.entries } in
      if old_has_ttl then sub_ttl call after else after

  -- The value put in, or the key taken out if it has expired.
  unfoldable pub put : Call → Text → StoreValue V → Store V → Store V
  unfolding is_expired take_out adjust_replaced_ttl
  put call key value store =
      let old_has_ttl = expires (lookup key store.entries) in
      let after : Store V = record store { entries = insert key value store.entries } in
      if is_expired call.now_ms value
      then take_out call key store
      else adjust_replaced_ttl call old_has_ttl (not (value.expires_ms == 0)) after

  -- `update_with` of the time to live, and the count.
  unfoldable pub expire_at : Call → Text → ℕ → Store V → Store V
  unfolding add_ttl
  expire_at call key expires_ms store = elim (lookup key store.entries) [
    | none ↦ store
    | some old ↦
        let after : Store V = record store {
          entries = insert key (record old { expires_ms = expires_ms }) store.entries;
        } in
        if old.expires_ms == 0 then add_ttl call after else after
  ]

  unfoldable pub apply_kind :
      Values V → Call → MutationKind → MutationRecord → Store V → Checked ApplyError (Store V)
  unfolding put take_out expire_at
  apply_kind values call replace_kind r store = do
    value ← ok_or (values.decode_single_value r.value) invalid_value
    good (put call r.key value store)
  apply_kind values call set_kind r store = do
    refuse_if (not (is_utf8 r.value)) invalid_value
    good (
        put call r.key
          (record { value = values.of_text r.value; expires_ms = or_zero r.expire_at_ms }) store)
  apply_kind values call delete_kind r store = good (take_out call r.key store)
  apply_kind values call expire_kind r store = do
    expires_ms ← ok_or r.expire_at_ms invalid_value
    good (expire_at call r.key expires_ms store)

  unfoldable pub apply_replica_mutation :
      Values V → Call → MutationRecord → Store V → Checked ApplyError (Store V)
  unfolding apply_kind
  apply_replica_mutation values call r store = do
    refuse_if (not (is_utf8 r.key)) invalid_key
    refuse_if (not ((hash_slot values.memchr r.key).value == r.slot.value)) wrong_slot
    apply_kind values call r.kind r store

  -- `get_ref(key).filter(|value| !value.is_expired())`
  abbrev pub unexpired : ℕ → Option (StoreValue V) → Option (StoreValue V)
  unexpired now none = none
  unexpired now (some value) = if is_expired now value then none else some value

  -- The record that `record_current_value` appends to the log, if any.
  unfoldable pub record_current_value : Values V → ℕ → Text → Store V → Option MutationRecord
  unfolding replace
  record_current_value values now key store = elim (unexpired now (lookup key store.entries)) [
    | none ↦ some (record {
      offset = 0;
      slot = hash_slot values.memchr key;
      kind = delete_kind;
      key = key;
      value = [];
      expire_at_ms = none;
    })
    | some value ↦ elim (values.encode_single_value value) [
      | none ↦ none
      | some encoded ↦
          some (replace (hash_slot values.memchr key) key encoded (unless_zero value.expires_ms))
    ]
  ]
