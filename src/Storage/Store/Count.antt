-- ===== src/Storage/Store/Count.antt =====
-- The counters tell how many keys expire.
use fyro_db.Prelude.{
  ℕ, ◌+◌, ◌%◌, ◌^◌, ◌≡◌, ◌≢◌, refl, sym, ap, ◌∙◌, inl, inr, Bool, true, false, not, none, some, [],
  ◌∷◌, arith, ◌==◌, Bool-cases, Option-cases, bytes_eq, bytes_eq_iff,
}
use fyro_db.Prelude.Assoc.{Assoc, text_eq, lookup, insert, remove, lookup-insert, lookup-remove}
use fyro_db.Prelude.Checked.{good, Gives, Gives-elim, Gives-refuse_if}
use fyro_db.Prelude.Utf8.{is_utf8}
use fyro_db.Cluster.Hash.{hash_slot}
use fyro_db.Cluster.Topology.{Text}
use fyro_db.Cluster.Replication.{
  MutationRecord, MutationKind, set_kind, delete_kind, expire_kind, replace_kind, invalid_key,
  wrong_slot,
}
use fyro_db.Storage.Ttl.{add_one, remove_one, total_adds, total_removes}
use fyro_db.Storage.Ttl.Live.{
  IsStriped, total_adds-add_one, total_removes-remove_one, add_one-IsStriped, remove_one-IsStriped,
}
use fyro_db.Storage.Store.{
  StoreValue, Store, Call, Values, or_zero, is_expired, expires, add_ttl, sub_ttl,
  adjust_replaced_ttl, take_out, put, expire_at, apply_kind, apply_replica_mutation,
}

abbrev pub one_if : Bool → ℕ
one_if true = 1
one_if false = 0

module _ {V : Type 0} where
  -- The keys that expire, at some time.
  unfoldable pub expiring : Assoc Text (StoreValue V) → ℕ
  expiring [] = 0
  expiring ((key, value) ∷ entries) = one_if (expires (some value)) + expiring entries

  -- Each key stands once.
  abbrev pub IsMap : Assoc Text (StoreValue V) → Type 0
  IsMap [] = Unit
  IsMap ((key, value) ∷ entries) = (lookup key entries ≡ none) × IsMap entries

  pub expiring-insert :
      (key : Text) (value : StoreValue V) (entries : Assoc Text (StoreValue V))
      → expiring (insert key value entries) + one_if (expires (lookup key entries))
        ≡ expiring entries + one_if (expires (some value))
  unfolding expiring insert lookup
  expiring-insert key value [] = omega arith
  expiring-insert key value ((k, w) ∷ entries) = elim (Bool-cases (bytes_eq k key)) [
    | inl same ↦ rw same (omega arith)
    | inr other ↦ rw other (omega (arith, expiring-insert key value entries))
  ]

  -- A key that is not there.
  remove-none :
      (key : Text) (entries : Assoc Text (StoreValue V))
      → lookup key entries ≡ none
      → remove key entries ≡ entries
  unfolding remove lookup
  remove-none key [] e = refl
  remove-none key ((k, w) ∷ entries) e = ground (arith, remove-none key entries)

  pub expiring-remove :
      (key : Text) (entries : Assoc Text (StoreValue V))
      → IsMap entries
      → expiring (remove key entries) + one_if (expires (lookup key entries)) ≡ expiring entries
  unfolding expiring remove lookup
  expiring-remove key [] h = omega arith
  expiring-remove key ((k, w) ∷ entries) (hk, h) = elim (Bool-cases (bytes_eq k key)) [
    | inl same ↦
        let gone : lookup key entries ≡ none =
          ap (λ j. lookup j entries) (sym ((bytes_eq_iff k key).0 same)) ∙ hk in
        rw (same, remove-none key entries gone) (omega arith)
    | inr other ↦ rw other (omega (arith, expiring-remove key entries h))
  ]

  pub insert-IsMap :
      (key : Text) (value : StoreValue V) (entries : Assoc Text (StoreValue V))
      → IsMap entries
      → IsMap (insert key value entries)
  unfolding insert lookup
  insert-IsMap key value [] h = (refl, tt)
  insert-IsMap key value ((k, w) ∷ entries) (hk, h) = elim (Bool-cases (bytes_eq k key)) [
    | inl same ↦
        let gone : lookup key entries ≡ none =
          ap (λ j. lookup j entries) (sym ((bytes_eq_iff k key).0 same)) ∙ hk in
        rw same (gone, h)
    | inr other ↦ rw other (
      ground (arith, lookup-insert key k value entries, bytes_eq_iff k key, bytes_eq_iff key k),
      insert-IsMap key value entries h,
    )
  ]

  pub remove-IsMap :
      (key : Text) (entries : Assoc Text (StoreValue V))
      → IsMap entries
      → IsMap (remove key entries)
  unfolding remove
  remove-IsMap key [] h = tt
  remove-IsMap key ((k, w) ∷ entries) (hk, h) = elim (Bool-cases (bytes_eq k key)) [
    | inl same ↦ rw same (remove-IsMap key entries h)
    | inr other ↦ rw other (ground (arith, lookup-remove key k entries), remove-IsMap key entries h)
  ]

  -- The keys stand once, and the additions are the removals and the keys that expire, in the
  -- wrap-around of the counters.
  pub record IsCounted (store : Store V) : Type 0 where
    pub once : IsMap store.entries
    pub striped : IsStriped store.ttl
    pub tally : total_adds store.ttl ≡ (total_removes store.ttl + expiring store.entries) % 2 ^ 64

  module _ (call : Call) (store : Store V) (entries : Assoc Text (StoreValue V))
      (h : IsCounted store) (once : IsMap entries) where
    -- The counters after one key more expires, one less, or as many.
    more_one :
        expiring entries ≡ expiring store.entries + 1
        → IsCounted (add_ttl call (record store { entries = entries }))
    unfolding add_ttl total_removes add_one
    more_one e = record {
      once = once;
      striped = add_one-IsStriped call.cpu store.ttl h.striped;
      tally = omega (arith, total_adds-add_one call.cpu store.ttl h.striped, h.tally, e);
    }

    one_less :
        expiring entries + 1 ≡ expiring store.entries
        → IsCounted (sub_ttl call (record store { entries = entries }))
    unfolding sub_ttl total_adds remove_one
    one_less e = record {
      once = once;
      striped = remove_one-IsStriped call.cpu store.ttl h.striped;
      tally = omega (arith, total_removes-remove_one call.cpu store.ttl h.striped, h.tally, e);
    }

    as_many :
        expiring entries ≡ expiring store.entries → IsCounted (record store { entries = entries })
    as_many e = record { once = once; striped = h.striped; tally = omega (arith, h.tally, e) }

  module _ (call : Call) (key : Text) (store : Store V) (h : IsCounted store) where
    take_out-IsCounted : IsCounted (take_out call key store)
    unfolding take_out
    take_out-IsCounted =
        let left = remove key store.entries in
        let once = remove-IsMap key store.entries h.once in
        let count = expiring-remove key store.entries h.once in
        elim (Bool-cases (expires (lookup key store.entries))) [
          | inl e ↦ rw e (one_less call store left h once (omega (arith, count, ap one_if e)))
          | inr e ↦ rw e (as_many call store left h once (omega (arith, count, ap one_if e)))
        ]

    adjusted-IsCounted :
        (value : StoreValue V) (old new : Bool)
        → expires (lookup key store.entries) ≡ old
        → expires (some value) ≡ new
        → IsCounted (
            adjust_replaced_ttl call old new
              (record store { entries = insert key value store.entries }))
    unfolding adjust_replaced_ttl
    adjusted-IsCounted value true true was is =
        as_many call store (insert key value store.entries) h
          (insert-IsMap key value store.entries h.once)
          (omega (arith, expiring-insert key value store.entries, ap one_if was, ap one_if is))
    adjusted-IsCounted value true false was is =
        one_less call store (insert key value store.entries) h
          (insert-IsMap key value store.entries h.once)
          (omega (arith, expiring-insert key value store.entries, ap one_if was, ap one_if is))
    adjusted-IsCounted value false true was is =
        more_one call store (insert key value store.entries) h
          (insert-IsMap key value store.entries h.once)
          (omega (arith, expiring-insert key value store.entries, ap one_if was, ap one_if is))
    adjusted-IsCounted value false false was is =
        as_many call store (insert key value store.entries) h
          (insert-IsMap key value store.entries h.once)
          (omega (arith, expiring-insert key value store.entries, ap one_if was, ap one_if is))

    put-IsCounted : (value : StoreValue V) → IsCounted (put call key value store)
    unfolding put
    put-IsCounted value = elim (Bool-cases (is_expired call.now_ms value)) [
      | inl late ↦ rw late take_out-IsCounted
      | inr kept ↦ rw kept (
          adjusted-IsCounted value (expires (lookup key store.entries)) (expires (some value)) refl
            refl)
    ]

    expire_at-IsCounted :
        (expires_ms : ℕ) → expires_ms ≢ 0 → IsCounted (expire_at call key expires_ms store)
    unfolding expire_at
    expire_at-IsCounted expires_ms real = elim (Option-cases (lookup key store.entries)) [
      | inl gone ↦ rw (gone, expire_at) h
      | inr (old, found) ↦
          let value : StoreValue V = record old { expires_ms = expires_ms } in
          let count = expiring-insert key value store.entries in
          let before = ap (λ o. one_if (expires o)) found in
          let once = insert-IsMap key value store.entries h.once in
          elim (Bool-cases (old.expires_ms == 0)) [
            | inl never ↦
                rw (found, expire_at, never)
                  (more_one call store (insert key value store.entries) h once
                    (ground (arith, count, before, never, real)))
            | inr had ↦
                rw (found, expire_at, had)
                  (as_many call store (insert key value store.entries) h once
                    (ground (arith, count, before, had, real)))
          ]
    ]

  module _ (values : Values V) (call : Call) (r : MutationRecord) (store : Store V)
      (real : r.expire_at_ms ≢ some 0) (h : IsCounted store) where
    apply_kind-IsCounted :
        (kind : MutationKind) → Gives IsCounted (apply_kind values call kind r store)
    unfolding apply_kind
    apply_kind-IsCounted replace_kind = elim (Option-cases (values.decode_single_value r.value)) [
      | inl unread ↦ rw unread tt
      | inr (value, read) ↦ rw read (put-IsCounted call r.key store h value)
    ]
    apply_kind-IsCounted set_kind = elim (Bool-cases (is_utf8 r.value)) [
      | inl text ↦ rw text (
          put-IsCounted call r.key store h
            (record { value = values.of_text r.value; expires_ms = or_zero r.expire_at_ms }))
      | inr bytes ↦ rw bytes tt
    ]
    apply_kind-IsCounted delete_kind = take_out-IsCounted call r.key store h
    apply_kind-IsCounted expire_kind = elim (Option-cases r.expire_at_ms) [
      | inl missing ↦ rw missing tt
      | inr (at, e) ↦
          rw e (expire_at-IsCounted call r.key store h at (λ zero_at. real (e ∙ ap some zero_at)))
    ]

    -- A mutation from the primary that the replica accepts keeps the keys single and the count of
    -- those that expire right, if it does not set the time to live to zero.
    pub apply_replica_mutation-IsCounted :
        (after : Store V)
        → apply_replica_mutation values call r store ≡ good after
        → IsCounted after
    unfolding apply_replica_mutation
    apply_replica_mutation-IsCounted after e =
        Gives-elim IsCounted (apply_replica_mutation values call r store)
          (Gives-refuse_if IsCounted (not (is_utf8 r.key)) invalid_key _ (
            Gives-refuse_if IsCounted (not ((hash_slot values.memchr r.key).value == r.slot.value))
              wrong_slot _ (apply_kind-IsCounted r.kind)))
          e
