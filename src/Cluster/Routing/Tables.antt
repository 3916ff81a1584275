-- ===== src/Cluster/Routing/Tables.antt =====
-- The tables of `is_write_command` and `is_single_key` (src/cluster/routing.rs): each arm of the
-- match on the length and the upper-case first byte, with the words it compares.
use Prim.Native.String.{String}
use fyro_db.Prelude.{ℕ, List, [], ◌∷◌, map, codes, get_or}

pub record Arm : Type 0 where
  pub size : ℕ
  pub first : ℕ
  pub words : List (List ℕ)

abbrev pub row : ℕ → String → List String → Arm
row size first words = record {
  size = size;
  first = get_or (codes first) 0 0;
  words = map codes words;
}

-- The words that are compared before the match when the first byte is an X.
abbrev pub x_words : List (List ℕ)
x_words = map codes ("XTRIM" ∷ "XGROUP" ∷ "XCLAIM" ∷ "XAUTOCLAIM" ∷ "XREADGROUP" ∷ [])

abbrev pub write_arms : List Arm
write_arms =
    row 3 "S" ("SET" ∷ [])
    ∷ row 3 "D" ("DEL" ∷ [])
    ∷ row 4 "I" ("INCR" ∷ [])
    ∷ row 4 "D" ("DECR" ∷ [])
    ∷ row 4 "C" ("COPY" ∷ [])
    ∷ row 4 "M" ("MSET" ∷ [])
    ∷ row 4 "H" ("HSET" ∷ "HDEL" ∷ [])
    ∷ row 4 "L" ("LPOP" ∷ "LSET" ∷ "LREM" ∷ [])
    ∷ row 4 "R" ("RPOP" ∷ "RPUSH" ∷ [])
    ∷ row 4 "S" ("SADD" ∷ "SREM" ∷ "SPOP" ∷ "SORT" ∷ [])
    ∷ row 4 "Z" ("ZADD" ∷ "ZREM" ∷ [])
    ∷ row 4 "X" ("XADD" ∷ "XDEL" ∷ "XACK" ∷ [])
    ∷ row 4 "P" ("PFADD" ∷ [])
    ∷ row 5 "S" ("SETNX" ∷ "SETEX" ∷ "SMOVE" ∷ [])
    ∷ row 5 "L" ("LPUSH" ∷ "LMOVE" ∷ "LTRIM" ∷ [])
    ∷ row 5 "R" ("RPUSH" ∷ [])
    ∷ row 5 "M" ("MSETNX" ∷ [])
    ∷ row 5 "X" ("XTRIM" ∷ [])
    ∷ row 5 "B" ("BITOP" ∷ [])
    ∷ row 5 "Z" ("ZINCRBY" ∷ [])
    ∷ row 6 "A" ("APPEND" ∷ [])
    ∷ row 6 "U" ("UNLINK" ∷ [])
    ∷ row 6 "G" ("GETDEL" ∷ "GETSET" ∷ "GETEX" ∷ "GEOADD" ∷ [])
    ∷ row 6 "P" ("PSETEX" ∷ "PERSIST" ∷ "PFADD" ∷ [])
    ∷ row 6 "H" ("HSETNX" ∷ "HMSET" ∷ [])
    ∷ row 6 "S" ("SETBIT" ∷ [])
    ∷ row 6 "Z" ("ZINCRBY" ∷ [])
    ∷ row 6 "X" ("XGROUP" ∷ [])
    ∷ row 7 "E" ("EXPIRE" ∷ [])
    ∷ row 7 "R" ("RENAME" ∷ [])
    ∷ row 7 "P" ("PEXPIRE" ∷ "PFMERGE" ∷ [])
    ∷ row 7 "S" ("SETRANGE" ∷ [])
    ∷ row 7 "H" ("HINCRBY" ∷ [])
    ∷ row 7 "L" ("LINSERT" ∷ [])
    ∷ row 7 "B" ("BLPOP" ∷ "BRPOP" ∷ "BITFIELD" ∷ [])
    ∷ row 7 "Z" ("ZPOPMIN" ∷ "ZPOPMAX" ∷ [])
    ∷ row 7 "F" ("FLUSHDB" ∷ "FLUSHALL" ∷ [])
    ∷ row 7 "I" ("INCRBY" ∷ [])
    ∷ row 7 "D" ("DECRBY" ∷ [])
    ∷ row 7 "X" ("XGROUP" ∷ [])
    ∷ row 8 "E" ("EXPIREAT" ∷ [])
    ∷ row 8 "R" ("RENAMENX" ∷ [])
    ∷ row 8 "P" ("PEXPIREAT" ∷ [])
    ∷ row 8 "B" ("BITFIELD" ∷ [])
    ∷ row 8 "F" ("FLUSHALL" ∷ [])
    ∷ row 8 "I" ("INCRBYFLOAT" ∷ [])
    ∷ row 9 "R" ("RPOPLPUSH" ∷ [])
    ∷ row 9 "Z" ("ZPOPMIN" ∷ "ZPOPMAX" ∷ "ZINCRBY" ∷ "ZRANGESTORE" ∷ [])
    ∷ row 9 "B" ("BZPOPMIN" ∷ "BZPOPMAX" ∷ "BLMOVE" ∷ [])
    ∷ row 9 "H" ("HINCRBYFLOAT" ∷ [])
    ∷ row 10 "S" ("SDIFFSTORE" ∷ "ZDIFFSTORE" ∷ [])
    ∷ row 11 "Z" ("ZUNIONSTORE" ∷ "ZINTERSTORE" ∷ [])
    ∷ row 11 "S" ("SUNIONSTORE" ∷ "SINTERSTORE" ∷ [])
    ∷ row 14 "G" ("GEOSEARCHSTORE" ∷ [])
    ∷ row 8 "J" ("JSON.SET" ∷ "JSON.DEL" ∷ [])
    ∷ row 10 "J" ("JSON.CLEAR" ∷ [])
    ∷ row 11 "J" ("JSON.ARRTRIM" ∷ "JSON.FORGET" ∷ "JSON.TOGGLE" ∷ "JSON.ARRPOP" ∷ [])
    ∷ row 12 "J" ("JSON.ARRTRIM" ∷ [])
    ∷ row 14 "J" (
        "JSON.NUMINCRBY" ∷ "JSON.NUMMULTBY" ∷ "JSON.STRAPPEND" ∷ "JSON.ARRAPPEND" ∷ "JSON.ARRINSERT"
        ∷ [])
    ∷ []

abbrev pub single_arms : List Arm
single_arms =
    row 3 "G" ("GET" ∷ [])
    ∷ row 3 "S" ("SET" ∷ [])
    ∷ row 3 "T" ("TTL" ∷ [])
    ∷ row 3 "D" ("DEL" ∷ [])
    ∷ row 4 "I" ("INCR" ∷ [])
    ∷ row 4 "D" ("DECR" ∷ [])
    ∷ row 4 "T" ("TYPE" ∷ [])
    ∷ row 4 "P" ("PTTL" ∷ [])
    ∷ row 4 "H" ("HSET" ∷ "HGET" ∷ "HDEL" ∷ "HLEN" ∷ [])
    ∷ row 4 "L" ("LPOP" ∷ "LLEN" ∷ "LSET" ∷ "LREM" ∷ [])
    ∷ row 4 "R" ("RPOP" ∷ "RPUSH" ∷ [])
    ∷ row 4 "S" ("SADD" ∷ "SREM" ∷ "SPOP" ∷ "SCARD" ∷ [])
    ∷ row 4 "Z" ("ZADD" ∷ "ZREM" ∷ "ZCARD" ∷ [])
    ∷ row 4 "X" ("XADD" ∷ "XLEN" ∷ "XDEL" ∷ [])
    ∷ row 5 "S" ("SETNX" ∷ "SETEX" ∷ [])
    ∷ row 5 "L" ("LPUSH" ∷ "LPOS" ∷ [])
    ∷ row 5 "R" ("RPUSH" ∷ [])
    ∷ row 5 "Z" ("ZSCORE" ∷ "ZRANK" ∷ "ZCOUNT" ∷ "ZRANGE" ∷ [])
    ∷ row 5 "P" ("PFADD" ∷ [])
    ∷ row 6 "A" ("APPEND" ∷ [])
    ∷ row 6 "G" ("GETSET" ∷ "GETEX" ∷ "GETBIT" ∷ "GEOPOS" ∷ [])
    ∷ row 6 "P" ("PSETEX" ∷ "PERSIST" ∷ [])
    ∷ row 6 "S" ("STRLEN" ∷ "SETBIT" ∷ [])
    ∷ row 6 "H" ("HMGET" ∷ "HMSET" ∷ "HKEYS" ∷ "HVALS" ∷ "HEXISTS" ∷ [])
    ∷ row 6 "L" ("LINDEX" ∷ "LRANGE" ∷ "LTRIM" ∷ [])
    ∷ row 6 "Z" ("ZSCORE" ∷ "ZRANGE" ∷ "ZCOUNT" ∷ "ZRANK" ∷ [])
    ∷ row 6 "X" ("XRANGE" ∷ [])
    ∷ row 7 "E" ("EXPIRE" ∷ [])
    ∷ row 7 "G" ("GEODIST" ∷ "GEOHASH" ∷ [])
    ∷ row 7 "P" ("PEXPIRE" ∷ "PFCOUNT" ∷ [])
    ∷ row 8 "E" ("EXPIREAT" ∷ [])
    ∷ row 8 "G" ("GETRANGE" ∷ "GETDEL" ∷ "GEOADD" ∷ [])
    ∷ row 8 "S" ("SETRANGE" ∷ "SMEMBERS" ∷ [])
    ∷ row 8 "P" ("PEXPIREAT" ∷ [])
    ∷ row 8 "Z" ("ZPOPMIN" ∷ "ZPOPMAX" ∷ "ZREVRANK" ∷ [])
    ∷ row 8 "B" ("BITCOUNT" ∷ "BITPOS" ∷ [])
    ∷ row 8 "J" ("JSON.SET" ∷ "JSON.GET" ∷ "JSON.DEL" ∷ [])
    ∷ row 8 "X" ("XREVRANGE" ∷ [])
    ∷ row 9 "S" ("SISMEMBER" ∷ "SRANDMEMBER" ∷ [])
    ∷ row 9 "Z" ("ZINCRBY" ∷ "ZREVRANGE" ∷ [])
    ∷ row 9 "G" ("GEOSEARCH" ∷ "GEOHASH" ∷ [])
    ∷ row 9 "J" ("JSON.TYPE" ∷ [])
    ∷ row 9 "X" ("XREVRANGE" ∷ [])
    ∷ row 10 "S" ("SMISMEMBER" ∷ [])
    ∷ row 10 "P" ("PFCOUNT" ∷ [])
    ∷ row 11 "S" ("SRANDMEMBER" ∷ [])
    ∷ row 11 "I" ("INCRBYFLOAT" ∷ [])
    ∷ row 12 "H" ("HINCRBYFLOAT" ∷ [])
    ∷ row 13 "Z" ("ZRANGEBYSCORE" ∷ [])
    ∷ []
