-- ===== src/Utils/Glob/Total.antt =====
-- The loop ends on every input, and an input on which it misses a match.
use native.Mathlib.Nat.{suc-mul}
use fyro_db.Prelude.{
  ℕ, zero, suc, ◌+◌, ◌*◌, ◌-◌, ◌<◌, ◌≤◌, ◌≡◌, refl, ap, ◌∙◌, inl, inr, Bool, true, false, Option,
  none, some, List, [], ◌∷◌, arith, ◌==◌, Bool-cases, length,
}
use fyro_db.Utils.Glob.{star_byte, fits, retry, glob_loop, glob_fuel, glob_match}
use fyro_db.Utils.Glob.Search.{some_end, matches}

abbrev Ends : Option Bool → Type 0
Ends result = (b : Bool) × (result ≡ some b)

-- The tries that are left, in the bytes of the input and of the pattern.
abbrev InReach : ℕ → ℕ → Option (List ℕ × List ℕ) → List ℕ → List ℕ → Type 0
InReach size tries none pattern input = (length input ≤ tries) × (length pattern ≤ size)
InReach size tries (some (from, start)) pattern input =
    (0 < length input → 0 < length start)
    × (length start ≤ tries)
    × (length input ≤ length start)
    × (length from ≤ size)
    × (length pattern ≤ size)

-- Back to the last star, which has a byte to take where a byte of the input is left.
retry-Ends :
    (size tries fuel : ℕ) (pattern input : List ℕ) (star : Option (List ℕ × List ℕ))
    → ((from start : List ℕ)
        → (length start ≤ tries - 1) × (length from ≤ size)
        → (tries - 1) * suc size + length from < fuel
        → Ends (glob_loop fuel from start (some (from, start))))
    → 0 < length input
    → InReach size tries star pattern input
    → tries * suc size + length pattern < suc fuel
    → Ends (retry (glob_loop fuel) star)
unfolding retry
retry-Ends size tries fuel pattern input none again left reach enough = (false, refl)
retry-Ends size tries fuel pattern input (some (from, [])) again left reach enough =
    absurd (omega arith)
retry-Ends size tries fuel pattern input (some (from, s ∷ start)) again left reach enough =
    let one_less : tries * suc size ≡ (tries - 1) * suc size + suc size =
      let e : tries ≡ suc (tries - 1) = omega arith in
      omega (arith, ap (λ (t : ℕ). t * suc size) e, suc-mul (tries - 1) (suc size)) in
    again from start (omega arith, reach.3) (omega arith)

glob_loop-Ends :
    (size tries fuel : ℕ) (pattern input : List ℕ) (star : Option (List ℕ × List ℕ))
    → InReach size tries star pattern input
    → tries * suc size + length pattern < fuel
    → Ends (glob_loop fuel pattern input star)
unfolding glob_loop
glob_loop-Ends size tries zero pattern input star reach enough = absurd (omega arith)
glob_loop-Ends size tries (suc fuel) pattern [] star reach enough = (_, refl)
glob_loop-Ends size tries (suc fuel) [] (c ∷ input) star reach enough =
    retry-Ends size tries fuel [] (c ∷ input) star
      (λ from start r.
        glob_loop-Ends size (tries - 1) fuel from start (some (from, start))
          (λ p. p, r.0, omega arith, r.1, r.1))
      (omega arith) reach enough
glob_loop-Ends size tries (suc fuel) (q ∷ pattern) (c ∷ input) star reach enough =
    elim (Bool-cases (fits q c)) [
      | inl same ↦
          rw same
            (glob_loop-Ends size tries fuel pattern input star (reach_on star reach) (omega arith))
      | inr other ↦ elim (Bool-cases (q == star_byte)) [
        | inl over ↦
            rw (other, over)
              (glob_loop-Ends size tries fuel pattern (c ∷ input) (some (pattern, c ∷ input))
                (reach_over star reach) (omega arith))
        | inr stuck ↦
            rw (other, stuck)
              (retry-Ends size tries fuel (q ∷ pattern) (c ∷ input) star
                (λ from start r.
                  glob_loop-Ends size (tries - 1) fuel from start (some (from, start))
                    (λ p. p, r.0, omega arith, r.1, r.1))
                (omega arith) reach enough)
      ]
    ]
  where
    reach_on :
        (star : Option (List ℕ × List ℕ))
        → InReach size tries star (q ∷ pattern) (c ∷ input)
        → InReach size tries star pattern input
    reach_on none r = (omega arith, omega arith)
    reach_on (some (from, start)) r = (λ p. r.0 (omega arith), r.1, omega arith, r.3, omega arith)

    reach_over :
        (star : Option (List ℕ × List ℕ))
        → InReach size tries star (q ∷ pattern) (c ∷ input)
        → InReach size tries (some (pattern, c ∷ input)) pattern (c ∷ input)
    reach_over none r = (λ p. p, r.0, omega arith, omega arith, omega arith)
    reach_over (some (from, start)) r = (λ p. p, omega arith, omega arith, omega arith, omega arith)

-- On every pattern and input the loop ends within the fuel.
pub glob_match_total : (pattern input : List ℕ) → (b : Bool) × (glob_match pattern input ≡ some b)
unfolding glob_match
glob_match_total pattern input =
    glob_loop-Ends (length pattern) (length input) (glob_fuel pattern input) pattern input none
      (omega arith, omega arith) (omega arith)

no_star :
    (fuel c d : ℕ)
    → (c == b'?') ≡ false
    → (c == star_byte) ≡ false
    → (c == d) ≡ false
    → glob_loop (suc fuel) (c ∷ []) (d ∷ c ∷ []) none ≡ some false
unfolding glob_loop retry
no_star fuel c d mark star other = rw (mark, other, star) refl

letter_taken :
    (fuel : ℕ) (pattern input : List ℕ)
    → glob_loop (suc fuel) (star_byte ∷ pattern) (star_byte ∷ input) none
      ≡ glob_loop fuel pattern input none
unfolding glob_loop
letter_taken fuel pattern input = refl

-- The byte `*` of the input is taken by the star of the pattern as a letter: the pattern `*c`
-- does not match the input `*dc`, although its star stands for any bytes, for a byte `c` that is
-- no wildcard and another byte `d`.
pub glob_match-star_letter :
    (c d : ℕ)
    → (c == b'?') ≡ false
    → (c == star_byte) ≡ false
    → (c == d) ≡ false
    → (glob_match (star_byte ∷ c ∷ []) (star_byte ∷ d ∷ c ∷ []) ≡ some false)
      × (matches (star_byte ∷ c ∷ []) (star_byte ∷ d ∷ c ∷ []) ≡ true)
unfolding glob_match matches some_end
glob_match-star_letter c d mark star other =
    (letter_taken 11 (c ∷ []) (d ∷ c ∷ []) ∙ no_star 10 c d mark star other, ground arith)
