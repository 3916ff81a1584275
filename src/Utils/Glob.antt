-- ===== src/Utils/Glob.antt =====
-- `glob_match_bytes` (src/utils/util.rs). An index into the pattern or the input is the part
-- behind it; the position of the last star is the pattern behind it and the input to retry from.
pub mod Search
pub mod Correct
pub mod Total
mod Tests
use fyro_db.Prelude.{
  ℕ, zero, suc, ◌+◌, ◌*◌, Bool, true, false, ◌||◌, Option, none, some, List, [], ◌∷◌, ◌==◌,
  if◌then◌else◌, length, drop,
}

abbrev pub star_byte : ℕ
star_byte = b'*'

abbrev pub fits : ℕ → ℕ → Bool
fits q c = q == b'?' || q == c

-- `while pi < p.len() && p[pi] == b'*'`
unfoldable pub skip_stars : List ℕ → List ℕ
skip_stars [] = []
skip_stars (q ∷ pattern) = if q == star_byte then skip_stars pattern else q ∷ pattern

abbrev pub is_nil : List ℕ → Bool
is_nil [] = true
is_nil (b ∷ bytes) = false

-- Back to the last star, which takes one byte more, with the rest of the loop.
unfoldable pub retry :
    (List ℕ → List ℕ → Option (List ℕ × List ℕ) → Option Bool)
    → Option (List ℕ × List ℕ)
    → Option Bool
retry loop none = some false
retry loop (some (pattern, input)) = loop pattern (drop 1 input) (some (pattern, drop 1 input))

-- The loop, on fuel; `none` means that the fuel ran out.
unfoldable pub glob_loop : ℕ → List ℕ → List ℕ → Option (List ℕ × List ℕ) → Option Bool
unfolding skip_stars retry
glob_loop zero pattern input star = none
glob_loop (suc fuel) pattern [] star = some (is_nil (skip_stars pattern))
glob_loop (suc fuel) [] (c ∷ input) star = retry (glob_loop fuel) star
glob_loop (suc fuel) (q ∷ pattern) (c ∷ input) star =
    let both = glob_loop fuel pattern input star in
    let over = glob_loop fuel pattern (c ∷ input) (some (pattern, c ∷ input)) in
    let back = retry (glob_loop fuel) star in
    if fits q c then both else if q == star_byte then over else back

-- Fuel for every start.
abbrev pub glob_fuel : List ℕ → List ℕ → ℕ
glob_fuel pattern input = suc (length input * suc (length pattern) + length pattern)

unfoldable pub glob_match : List ℕ → List ℕ → Option Bool
unfolding glob_loop
glob_match pattern input = glob_loop (glob_fuel pattern input) pattern input none
