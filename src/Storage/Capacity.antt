-- ===== src/Storage/Capacity.antt =====
-- Which commands are refused when the memory is used up (src/storage/capacity.rs).
pub mod Gate
use Prim.Native.String.{String}
use fyro_db.Prelude.{
  ℕ, Bool, true, false, ◌&&◌, not, List, [], ◌∷◌, map, ◌==◌, if◌then◌else◌, any, get_or, codes,
}
use fyro_db.Cluster.Routing.{upper, eq_ignore_case, is_write_command}

-- An arm of the match on the upper-case first byte.
pub record Letter : Type 0 where
  pub first : ℕ
  pub words : List (List ℕ)

abbrev pub row : String → List String → Letter
row first words = record { first = get_or (codes first) 0 0; words = map codes words }

abbrev pub freeing : List Letter
freeing =
    row "D" ("DEL" ∷ "DECR" ∷ "DECRBY" ∷ [])
    ∷ row "U" ("UNLINK" ∷ [])
    ∷ row "F" ("FLUSHDB" ∷ "FLUSHALL" ∷ [])
    ∷ row "E" ("EXPIRE" ∷ "EXPIREAT" ∷ [])
    ∷ row "P" ("PEXPIRE" ∷ "PEXPIREAT" ∷ "PERSIST" ∷ [])
    ∷ row "G" ("GETDEL" ∷ [])
    ∷ row "H" ("HDEL" ∷ [])
    ∷ row "S" ("SREM" ∷ "SPOP" ∷ [])
    ∷ row "Z" ("ZREM" ∷ "ZPOPMIN" ∷ "ZPOPMAX" ∷ [])
    ∷ row "L" ("LPOP" ∷ "LREM" ∷ "LTRIM" ∷ [])
    ∷ row "R" ("RPOP" ∷ [])
    ∷ row "X" ("XDEL" ∷ "XTRIM" ∷ [])
    ∷ row "J" ("JSON.DEL" ∷ "JSON.FORGET" ∷ "JSON.CLEAR" ∷ "JSON.ARRPOP" ∷ "JSON.ARRTRIM" ∷ [])
    ∷ []

-- The match on the first byte.
pub in_letters : List Letter → ℕ → List ℕ → Bool
in_letters [] first command = false
in_letters (letter ∷ letters) first command =
    if upper first == letter.first
    then any (eq_ignore_case command) letter.words
    else in_letters letters first command

pub frees_memory : List ℕ → Bool
frees_memory [] = false
frees_memory (first ∷ rest) = in_letters freeing first (first ∷ rest)

pub is_denyoom_command : List ℕ → Bool
is_denyoom_command command = is_write_command command && not (frees_memory command)
