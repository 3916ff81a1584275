-- ===== src/Cluster/Routing/Recognised.antt =====
-- Exactly which words the tables recognise: those that stand under their own length and first byte.
use fyro_db.Prelude.{
  ℕ, ◌≡◌, refl, ap, sym, ◌∙◌, Bool, true, false, ◌&&◌, ◌||◌, not, List, [], ◌∷◌, ◌++◌, map, arith,
  ◌==◌, if◌then◌else◌, length, length-map, any, filter, get_or, bytes_eq, bytes_eq_iff, codes,
  Bool-cases, inl, inr,
}
use fyro_db.Cluster.State.Ranges.Cover.{any-append}
use fyro_db.Cluster.Routing.Tables.{Arm, x_words, write_arms, single_arms}
use fyro_db.Cluster.Routing.{upper, uppercase, in_arms, is_write_command, is_single_key}

-- The words that `is_write_command` takes for writes.
abbrev pub write_words : List (List ℕ)
write_words = map codes (
    "SET" ∷ "DEL" ∷ "INCR" ∷ "DECR" ∷ "COPY" ∷ "MSET" ∷ "HSET" ∷ "HDEL" ∷ "LPOP" ∷ "LSET" ∷ "LREM"
    ∷ "RPOP" ∷ "SADD" ∷ "SREM" ∷ "SPOP" ∷ "SORT" ∷ "ZADD" ∷ "ZREM" ∷ "XADD" ∷ "XDEL" ∷ "XACK"
    ∷ "SETNX" ∷ "SETEX" ∷ "SMOVE" ∷ "LPUSH" ∷ "LMOVE" ∷ "LTRIM" ∷ "RPUSH" ∷ "XTRIM" ∷ "BITOP"
    ∷ "APPEND" ∷ "UNLINK" ∷ "GETDEL" ∷ "GETSET" ∷ "GEOADD" ∷ "PSETEX" ∷ "HSETNX" ∷ "SETBIT"
    ∷ "XGROUP" ∷ "PEXPIRE" ∷ "PFMERGE" ∷ "HINCRBY" ∷ "LINSERT" ∷ "ZPOPMIN" ∷ "ZPOPMAX" ∷ "FLUSHDB"
    ∷ "EXPIREAT" ∷ "RENAMENX" ∷ "BITFIELD" ∷ "FLUSHALL" ∷ "RPOPLPUSH" ∷ "SDIFFSTORE" ∷ "ZUNIONSTORE"
    ∷ "ZINTERSTORE" ∷ "SUNIONSTORE" ∷ "SINTERSTORE" ∷ "GEOSEARCHSTORE" ∷ "JSON.SET" ∷ "JSON.DEL"
    ∷ "JSON.CLEAR" ∷ "JSON.FORGET" ∷ "JSON.TOGGLE" ∷ "JSON.ARRPOP" ∷ "JSON.ARRTRIM"
    ∷ "JSON.NUMINCRBY" ∷ "JSON.NUMMULTBY" ∷ "JSON.STRAPPEND" ∷ "JSON.ARRAPPEND" ∷ "JSON.ARRINSERT"
    ∷ "XTRIM" ∷ "XGROUP" ∷ "XCLAIM" ∷ "XAUTOCLAIM" ∷ "XREADGROUP" ∷ [])

-- The words that `is_single_key` takes for commands on one key.
abbrev pub single_words : List (List ℕ)
single_words = map codes (
    "GET" ∷ "SET" ∷ "TTL" ∷ "DEL" ∷ "INCR" ∷ "DECR" ∷ "TYPE" ∷ "PTTL" ∷ "HSET" ∷ "HGET" ∷ "HDEL"
    ∷ "HLEN" ∷ "LPOP" ∷ "LLEN" ∷ "LSET" ∷ "LREM" ∷ "RPOP" ∷ "SADD" ∷ "SREM" ∷ "SPOP" ∷ "ZADD"
    ∷ "ZREM" ∷ "XADD" ∷ "XLEN" ∷ "XDEL" ∷ "SETNX" ∷ "SETEX" ∷ "LPUSH" ∷ "RPUSH" ∷ "ZRANK" ∷ "PFADD"
    ∷ "APPEND" ∷ "GETSET" ∷ "GETBIT" ∷ "GEOPOS" ∷ "PSETEX" ∷ "STRLEN" ∷ "SETBIT" ∷ "LINDEX"
    ∷ "LRANGE" ∷ "ZSCORE" ∷ "ZRANGE" ∷ "ZCOUNT" ∷ "XRANGE" ∷ "GEODIST" ∷ "GEOHASH" ∷ "PEXPIRE"
    ∷ "PFCOUNT" ∷ "EXPIREAT" ∷ "GETRANGE" ∷ "SETRANGE" ∷ "SMEMBERS" ∷ "ZREVRANK" ∷ "BITCOUNT"
    ∷ "JSON.SET" ∷ "JSON.GET" ∷ "JSON.DEL" ∷ "SISMEMBER" ∷ "ZREVRANGE" ∷ "GEOSEARCH" ∷ "JSON.TYPE"
    ∷ "XREVRANGE" ∷ "SMISMEMBER" ∷ "SRANDMEMBER" ∷ "INCRBYFLOAT" ∷ "HINCRBYFLOAT" ∷ "ZRANGEBYSCORE"
    ∷ [])

-- The words of an arm that can be found there.
abbrev fits : Arm → List ℕ → Bool
fits arm word = length word == arm.size && get_or word 0 0 == arm.first

abbrev under : Arm → List (List ℕ) → List (List ℕ)
under arm words = filter (fits arm) (map uppercase words)

abbrev reachable : List Arm → List (List ℕ)
reachable [] = []
reachable (arm ∷ arms) = under arm arm.words ++ reachable arms

abbrev same_key : Arm → Arm → Bool
same_key a b = a.size == b.size && a.first == b.first

abbrev keys_differ : List Arm → Bool
keys_differ [] = true
keys_differ (arm ∷ arms) = not (any (same_key arm) arms) && keys_differ arms

-- Whether an upper-case command goes to the arm.
abbrev goes : List ℕ → Arm → Bool
goes up arm = length up == arm.size && get_or up 0 0 == arm.first

any-under :
    (up : List ℕ) (arm : Arm) (words : List (List ℕ))
    → any (bytes_eq up) (under arm words)
      ≡ goes up arm && any (λ w. bytes_eq up (uppercase w)) words
any-under up arm [] = ground arith
any-under up arm (w ∷ words) = elim (Bool-cases (bytes_eq up (uppercase w))) [
  | inl e ↦
      let same : uppercase w ≡ up = sym ((bytes_eq_iff up (uppercase w)).0 e) in
      ground (arith, any-under up arm words, ap (fits arm) same)
  | inr e ↦ ground (arith, any-under up arm words)
]

not_reached :
    (up : List ℕ) (arms : List Arm)
    → any (goes up) arms ≡ false
    → any (bytes_eq up) (reachable arms) ≡ false
not_reached up [] h = refl
not_reached up (arm ∷ arms) h =
    any-append _ (under arm arm.words) (reachable arms)
    ∙ ground (arith, any-under up arm arm.words, not_reached up arms)

other_keys :
    (up : List ℕ) (arm : Arm) (arms : List Arm)
    → goes up arm ≡ true
    → any (same_key arm) arms ≡ false
    → any (goes up) arms ≡ false
other_keys up arm [] g h = refl
other_keys up arm (other ∷ arms) g h = ground (arith, other_keys up arm arms g)

in_arms_lem :
    (arms : List Arm) (first : ℕ) (rest : List ℕ)
    → keys_differ arms ≡ true
    → in_arms arms first (first ∷ rest) ≡ any (bytes_eq (uppercase (first ∷ rest))) (reachable arms)
unfolding in_arms
in_arms_lem [] first rest h = refl
in_arms_lem (arm ∷ arms) first rest h =
    let up = uppercase (first ∷ rest) in
    ground (
      arith,
      any-append (bytes_eq up) (under arm arm.words) (reachable arms),
      any-under up arm arm.words,
      length-map rest upper,
      in_arms_lem arms first rest,
      other_keys up arm arms,
      not_reached up arms,
    )

either : (x p r q : Bool) → (p ≡ true → x ≡ true) → r ≡ q → (if x && p then true else r) ≡ q || p
either true true r q h e = ground arith
either true false r q h e = ground arith
either false true r q h e = ground (arith, h refl)
either false false r q h e = ground arith

-- A command is a write exactly if its upper-case form is one of `write_words`.
pub is_write_command_words :
    (command : List ℕ) → is_write_command command ≡ any (bytes_eq (uppercase command)) write_words
unfolding is_write_command
is_write_command_words [] = refl
is_write_command_words (first ∷ rest) =
    either (upper first == 88) (any (bytes_eq up) x_words) _ _ starts
      (in_arms_lem write_arms first rest refl)
    ∙ sym (any-append (bytes_eq up) (reachable write_arms) x_words)
  where
    up : List ℕ
    up = uppercase (first ∷ rest)

    starts : any (bytes_eq up) x_words ≡ true → (upper first == 88) ≡ true
    starts e = ground arith

-- A command works on one key exactly if its upper-case form is one of `single_words`.
pub is_single_key_words :
    (command : List ℕ) → is_single_key command ≡ any (bytes_eq (uppercase command)) single_words
unfolding is_single_key
is_single_key_words [] = refl
is_single_key_words (first ∷ rest) = in_arms_lem single_arms first rest refl
