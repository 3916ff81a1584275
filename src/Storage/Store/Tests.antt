-- ===== src/Storage/Store/Tests.antt =====
-- The store of a node at concrete keys, and the theorems there.
use mathlib.Core.Path.{subst}
use mathlib.Core.Option.{some-injective}
use fyro_db.Prelude.{ℕ, ◌≡◌, refl, ◌⊎◌, inl, Option, none, some, List, [], ◌∷◌, arith, codes}
use fyro_db.Prelude.Assoc.{lookup, insert, text_eq}
use fyro_db.Prelude.Utf8.{is_utf8, utf8_from}
use fyro_db.Prelude.Checked.{good}
use fyro_db.Cluster.Hash.{hash_slot}
use fyro_db.Cluster.Hash.Tests.{position, slot_b}
use fyro_db.Cluster.Replication.{MutationRecord, expire_kind, replace_kind}
use fyro_db.Storage.Ttl.{TtlCounters, live, set_live, total_adds, total_removes}
use fyro_db.Storage.Ttl.Live.{live-set_live}
use fyro_db.Storage.Store.{
  StoreValue, Store, Call, Values, is_expired, replace, apply_replica_mutation,
  record_current_value,
}
use fyro_db.Storage.Store.Mirror.{IsDumped, Refused, Mirrors, record_current_value-Mirrors}
use fyro_db.Storage.Store.Count.{IsCounted, expiring, apply_replica_mutation-IsCounted}
use fyro_db.Storage.Store.Effect.{Writes, apply_replica_mutation-Writes}

abbrev four_stripes : TtlCounters
four_stripes = record { adds = 3 ∷ 1 ∷ 0 ∷ 2 ∷ []; removes = 0 ∷ 0 ∷ 1 ∷ 0 ∷ [] }

-- Of six keys added two are live; the stripe that takes the correction goes up.
live-set_live_example : live (set_live 2 four_stripes) ≡ 2
unfolding total_adds
live-set_live_example =
    live-set_live 2 four_stripes (record { some_stripe = omega arith; even = refl })

abbrev decode : List ℕ → Option (StoreValue (List ℕ))
decode [] = none
decode (expires_ms ∷ text) = some (record { value = text; expires_ms = expires_ms })

abbrev texts : Values (List ℕ)
texts = record {
  of_text = λ text. text;
  encode_single_value = λ value. some (value.expires_ms ∷ value.value);
  decode_single_value = decode;
  memchr = position;
}

abbrev at_noon : Call
at_noon = record { now_ms = 1000; cpu = some 5 }

-- A key with a time to live and one without.
abbrev two_keys : Store (List ℕ)
two_keys = record {
  entries =
      (codes "a", record { value = codes "1"; expires_ms = 5000 })
      ∷ (codes "b", record { value = codes "2"; expires_ms = 0 })
      ∷ [];
  ttl = record { adds = 0 ∷ 1 ∷ []; removes = 0 ∷ 0 ∷ [] };
}

abbrev expire_b : MutationRecord
expire_b = record {
  offset = 1;
  slot = record { value = 3300 };
  kind = expire_kind;
  key = codes "b";
  value = [];
  expire_at_ms = some 3000;
}

abbrev both_expire : Store (List ℕ)
both_expire = record {
  entries =
      (codes "a", record { value = codes "1"; expires_ms = 5000 })
      ∷ (codes "b", record { value = codes "2"; expires_ms = 3000 })
      ∷ [];
  ttl = record { adds = 0 ∷ 2 ∷ []; removes = 0 ∷ 0 ∷ [] };
}

expires_b : apply_replica_mutation texts at_noon expire_b two_keys ≡ good both_expire
unfolding apply_replica_mutation lookup insert is_utf8 utf8_from
expires_b = rw slot_b refl

two_keys-IsCounted : IsCounted two_keys
unfolding lookup total_removes total_adds expiring
two_keys-IsCounted = record {
  once = (refl, (refl, tt));
  striped = record { some_stripe = omega arith; even = refl };
  tally = refl;
}

apply_replica_mutation-IsCounted_example : IsCounted both_expire
apply_replica_mutation-IsCounted_example =
    apply_replica_mutation-IsCounted texts at_noon expire_b two_keys (λ e. cc) two_keys-IsCounted
      both_expire expires_b

b_written :
    Writes (codes "b") (some (record { value = codes "2"; expires_ms = 3000 })) two_keys both_expire
unfolding lookup
b_written = apply_replica_mutation-Writes texts at_noon expire_b two_keys both_expire expires_b

apply_replica_mutation-Writes_example :
    Writes (codes "b") (some (record { value = codes "2"; expires_ms = 3000 })) two_keys both_expire
unfolding lookup
apply_replica_mutation-Writes_example =
    apply_replica_mutation-Writes texts at_noon expire_b two_keys both_expire expires_b

-- What the primary records after it gave a time to live to the key.
abbrev dumped_b : MutationRecord
dumped_b = record {
  offset = 0;
  slot = hash_slot position (codes "b");
  kind = replace_kind;
  key = codes "b";
  value = 3000 ∷ codes "2";
  expire_at_ms = some 3000;
}

records_b : record_current_value texts 900 (codes "b") both_expire ≡ some dumped_b
unfolding record_current_value replace is_expired lookup
records_b = refl

dumps_b : IsDumped texts (some (record { value = codes "2"; expires_ms = 3000 }))
dumps_b bytes e = inl (
    subst (λ b. decode b ≡ some (record { value = codes "2"; expires_ms = 3000 }))
      (some-injective _ bytes e) refl)

record_current_value-Mirrors_example :
    ((after : Store (List ℕ)) × (apply_replica_mutation texts at_noon dumped_b two_keys
        ≡ good after)
      × Mirrors 2000 both_expire after)
    ⊎ Refused texts at_noon dumped_b two_keys
unfolding is_utf8 utf8_from lookup is_expired
record_current_value-Mirrors_example =
    record_current_value-Mirrors texts at_noon 900 (codes "b") dumped_b both_expire two_keys refl
      dumps_b records_b two_keys (some (record { value = codes "2"; expires_ms = 3000 })) 2000
      (omega arith) (omega arith) b_written (λ key. refl)
