-- ===== src/Storage/Capacity/Gate.antt =====
-- Exactly which commands are gated.
use fyro_db.Prelude.{
  ℕ, ◌≡◌, refl, ap, sym, ◌∙◌, Bool, true, false, ◌&&◌, not, List, [], ◌∷◌, ◌++◌, map, arith, ◌==◌,
  any, filter, get_or, bytes_eq, bytes_eq_iff, codes, Bool-cases, inl, inr,
}
use fyro_db.Cluster.State.Ranges.Cover.{any-append}
use fyro_db.Cluster.Routing.{uppercase}
use fyro_db.Cluster.Routing.Recognised.{write_words, is_write_command_words}
use fyro_db.Storage.Capacity.{Letter, freeing, in_letters, frees_memory, is_denyoom_command}

-- The words of commands that free memory.
abbrev pub free_words : List (List ℕ)
free_words = map codes (
    "DEL" ∷ "DECR" ∷ "DECRBY" ∷ "UNLINK" ∷ "FLUSHDB" ∷ "FLUSHALL" ∷ "EXPIRE" ∷ "EXPIREAT"
    ∷ "PEXPIRE" ∷ "PEXPIREAT" ∷ "PERSIST" ∷ "GETDEL" ∷ "HDEL" ∷ "SREM" ∷ "SPOP" ∷ "ZREM" ∷ "ZPOPMIN"
    ∷ "ZPOPMAX" ∷ "LPOP" ∷ "LREM" ∷ "LTRIM" ∷ "RPOP" ∷ "XDEL" ∷ "XTRIM" ∷ "JSON.DEL" ∷ "JSON.FORGET"
    ∷ "JSON.CLEAR" ∷ "JSON.ARRPOP" ∷ "JSON.ARRTRIM" ∷ [])

abbrev starts : ℕ → List ℕ → Bool
starts first word = get_or word 0 0 == first

abbrev under : Letter → List (List ℕ) → List (List ℕ)
under letter words = filter (starts letter.first) (map uppercase words)

abbrev reachable : List Letter → List (List ℕ)
reachable [] = []
reachable (letter ∷ letters) = under letter letter.words ++ reachable letters

abbrev letters_differ : List Letter → Bool
letters_differ [] = true
letters_differ (letter ∷ letters) =
    not (any (λ other. letter.first == other.first) letters) && letters_differ letters

any-under :
    (up : List ℕ) (letter : Letter) (words : List (List ℕ))
    → any (bytes_eq up) (under letter words)
      ≡ starts letter.first up && any (λ w. bytes_eq up (uppercase w)) words
any-under up letter [] = ground arith
any-under up letter (w ∷ words) = elim (Bool-cases (bytes_eq up (uppercase w))) [
  | inl e ↦
      let same : uppercase w ≡ up = sym ((bytes_eq_iff up (uppercase w)).0 e) in
      ground (arith, any-under up letter words, ap (starts letter.first) same)
  | inr e ↦ ground (arith, any-under up letter words)
]

not_reached :
    (up : List ℕ) (letter : Letter) (letters : List Letter)
    → starts letter.first up ≡ true
    → any (λ other. letter.first == other.first) letters ≡ false
    → any (bytes_eq up) (reachable letters) ≡ false
not_reached up letter [] s h = refl
not_reached up letter (other ∷ letters) s h =
    any-append _ (under other other.words) (reachable letters)
    ∙ ground (arith, any-under up other other.words, not_reached up letter letters)

in_letters_lem :
    (letters : List Letter) (first : ℕ) (rest : List ℕ)
    → letters_differ letters ≡ true
    → in_letters letters first (first ∷ rest)
      ≡ any (bytes_eq (uppercase (first ∷ rest))) (reachable letters)
unfolding in_letters
in_letters_lem [] first rest h = refl
in_letters_lem (letter ∷ letters) first rest h =
    let up = uppercase (first ∷ rest) in
    ground (
      arith,
      any-append (bytes_eq up) (under letter letter.words) (reachable letters),
      any-under up letter letter.words,
      in_letters_lem letters first rest,
      not_reached up letter letters,
    )

frees_memory_words :
    (command : List ℕ) → frees_memory command ≡ any (bytes_eq (uppercase command)) free_words
unfolding frees_memory
frees_memory_words [] = refl
frees_memory_words (first ∷ rest) = in_letters_lem freeing first rest refl

-- A command is gated exactly if its upper-case form is one of `write_words` and none of
-- `free_words`.
pub is_denyoom_command_words :
    (command : List ℕ)
    → is_denyoom_command command
      ≡ any (bytes_eq (uppercase command)) write_words
        && not (any (bytes_eq (uppercase command)) free_words)
unfolding is_denyoom_command
is_denyoom_command_words command =
    rw (is_write_command_words command, frees_memory_words command) refl
