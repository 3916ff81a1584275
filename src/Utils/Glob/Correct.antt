-- ===== src/Utils/Glob/Correct.antt =====
-- The loop ends, and finds what the pattern means.
use mathlib.Core.Path.{subst}
use native.Mathlib.Nat.{suc-mul}
use fyro_db.Prelude.{
  ℕ, zero, suc, ◌+◌, ◌*◌, ◌-◌, ◌<◌, ◌≤◌, ◌≡◌, refl, sym, ap, ◌∙◌, inl, inr, Bool, true, false, ◌||◌,
  Option, none, some, List, [], ◌∷◌, ◌++◌, arith, ◌==◌, Bool-cases, length, length-append,
  append_assoc, All, All-append,
}
use fyro_db.Utils.Glob.{star_byte, fits, retry, glob_loop, glob_fuel, glob_match}
use fyro_db.Utils.Glob.Search.{
  some_end, matches, shorter_end, NotStar, some_end_lem, matches_empty, some_end_short,
  shorter_end_behind,
}

-- What the last star can still match.
abbrev pub later : Option (List ℕ × List ℕ) → Bool
later none = false
later (some (pattern, input)) = shorter_end (matches pattern) input

-- How far the loop has come behind the last star.
pub record IsPast (from start pattern input : List ℕ) : Type 0 where
  pub part : List ℕ
  pub taken : List ℕ
  pub pattern_parts : from ≡ part ++ pattern
  pub input_parts : start ≡ taken ++ input
  pub even : length part ≡ length taken
  pub plain : All NotStar part

abbrev pub Aligned : Option (List ℕ × List ℕ) → List ℕ → List ℕ → Type 0
Aligned none pattern input = Unit
Aligned (some (from, start)) pattern input = IsPast from start pattern input

-- The tries that are left, in the bytes of the input and of the pattern.
abbrev pub InReach : ℕ → ℕ → Option (List ℕ × List ℕ) → List ℕ → List ℕ → Type 0
InReach size tries none pattern input = (length input ≤ tries) × (length pattern ≤ size)
InReach size tries (some (from, start)) pattern input =
    (length start ≤ tries)
    × (length input ≤ length start)
    × (length from ≤ size)
    × (length pattern ≤ size)
    × All NotStar start

start_anew : (from start : List ℕ) → IsPast from start from start
start_anew from start = record {
  part = [];
  taken = [];
  pattern_parts = refl;
  input_parts = refl;
  even = refl;
  plain = tt;
}

-- What the text ends with, where a part and as many bytes are past.
end_lem :
    (part pattern taken : List ℕ)
    → All NotStar part
    → length part ≡ length taken
    → shorter_end (matches (part ++ pattern)) (taken ++ []) ≡ false
unfolding shorter_end
end_lem part pattern [] h e = refl
end_lem part pattern (t ∷ taken) h e =
    some_end_short part pattern (taken ++ []) h (omega (arith, length-append taken []))

-- At the end of the input an earlier start would need more bytes than there are.
later_end :
    (star : Option (List ℕ × List ℕ)) (pattern : List ℕ)
    → Aligned star pattern []
    → later star ≡ false
later_end none pattern a = refl
later_end (some (from, start)) pattern a =
    ap (λ f. shorter_end (matches f) start) a.pattern_parts
    ∙ ap (shorter_end (matches (a.part ++ pattern))) a.input_parts
    ∙ end_lem a.part pattern a.taken a.plain a.even

-- A byte of the pattern and of the input.
step_on :
    (star : Option (List ℕ × List ℕ)) (q c : ℕ) (pattern input : List ℕ)
    → NotStar q
    → Aligned star (q ∷ pattern) (c ∷ input)
    → Aligned star pattern input
step_on none q c pattern input plain a = tt
step_on (some (from, start)) q c pattern input plain a = record {
  part = a.part ++ q ∷ [];
  taken = a.taken ++ c ∷ [];
  pattern_parts = a.pattern_parts ∙ sym (append_assoc a.part (q ∷ []) pattern);
  input_parts = a.input_parts ∙ sym (append_assoc a.taken (c ∷ []) input);
  even =
      length-append a.part (q ∷ []) ∙ ap (λ n. n + 1) a.even ∙ sym (length-append a.taken (c ∷ []));
  plain = All-append NotStar a.part (q ∷ []) a.plain (plain, tt);
}

-- A new star takes over from the last one.
take_over :
    (star : Option (List ℕ × List ℕ)) (pattern input : List ℕ)
    → Aligned star (star_byte ∷ pattern) input
    → (some_end (matches pattern) input || later star) ≡ some_end (matches pattern) input
take_over none pattern input a = ground arith
take_over (some (from, start)) pattern input a =
    elim (Bool-cases (shorter_end (matches from) start)) [
      | inr none_left ↦ rw none_left (ground arith)
      | inl more ↦
          let moved : shorter_end (matches (a.part ++ star_byte ∷ pattern)) (a.taken ++ input)
              ≡ true =
            ap (λ f. shorter_end (matches f) (a.taken ++ input)) (sym a.pattern_parts)
            ∙ ap (shorter_end (matches from)) (sym a.input_parts)
            ∙ more in
          let found = shorter_end_behind a.part pattern a.taken input a.plain a.even moved in
          rw found refl
    ]

-- Back to the last star, if the loop is right from there.
retry_lem :
    (size tries fuel c : ℕ) (pattern input : List ℕ) (star : Option (List ℕ × List ℕ))
    → ((from start : List ℕ)
        → All NotStar start
        → IsPast from start from start
        → (length start ≤ tries - 1)
          × (length start ≤ length start)
          × (length from ≤ size)
          × (length from ≤ size)
          × All NotStar start
        → (tries - 1) * suc size + length from < fuel
        → glob_loop fuel from start (some (from, start))
          ≡ some (matches from start || shorter_end (matches from) start))
    → Aligned star pattern (c ∷ input)
    → InReach size tries star pattern (c ∷ input)
    → tries * suc size + length pattern < suc fuel
    → retry (glob_loop fuel) star ≡ some (later star)
unfolding retry shorter_end some_end
retry_lem size tries fuel c pattern input none again a reach enough = refl
retry_lem size tries fuel c pattern input (some (from, [])) again a reach enough =
    absurd (omega arith)
retry_lem size tries fuel c pattern input (some (from, s ∷ start)) again a reach enough =
    let one_less : tries * suc size ≡ (tries - 1) * suc size + suc size =
      let e : tries ≡ suc (tries - 1) = omega arith in
      omega (arith, ap (λ (t : ℕ). t * suc size) e, suc-mul (tries - 1) (suc size)) in
    again from start reach.4.1 (start_anew from start)
      (omega arith, omega arith, reach.2, reach.2, reach.4.1) (omega arith)
    ∙ ap some (sym (some_end_lem (matches from) start))

glob_loop_lem :
    (size tries fuel : ℕ) (pattern input : List ℕ) (star : Option (List ℕ × List ℕ))
    → All NotStar input
    → Aligned star pattern input
    → InReach size tries star pattern input
    → tries * suc size + length pattern < fuel
    → glob_loop fuel pattern input star ≡ some (matches pattern input || later star)
unfolding glob_loop matches
glob_loop_lem size tries zero pattern input star plain a reach enough = absurd (omega arith)
glob_loop_lem size tries (suc fuel) pattern [] star plain a reach enough =
    rw (later_end star pattern a, matches_empty pattern) (ground arith)
glob_loop_lem size tries (suc fuel) [] (c ∷ input) star plain a reach enough =
    retry_lem size tries fuel c [] input star
      (λ from start. glob_loop_lem size (tries - 1) fuel from start (some (from, start))) a reach
      enough
glob_loop_lem size tries (suc fuel) (q ∷ pattern) (c ∷ input) star plain a reach enough =
    elim (Bool-cases (fits q c)) [
      | inl same ↦
          let letter : NotStar q = ground arith in
          let rest =
            glob_loop_lem size tries fuel pattern input star plain.1
              (step_on star q c pattern input letter a) (reach_on star reach) (omega arith) in
          rw (letter, same) rest
      | inr other ↦ elim (Bool-cases (q == star_byte)) [
        | inl over ↦
            let at : q ≡ star_byte = ground arith in
            let rest =
              glob_loop_lem size tries fuel pattern (c ∷ input) (some (pattern, c ∷ input)) plain
                (start_anew pattern (c ∷ input)) (reach_over star reach plain) (omega arith) in
            let all =
              take_over star pattern (c ∷ input)
                (subst (λ q. Aligned star (q ∷ pattern) (c ∷ input)) at a) in
            rw (other, over)
              (rest ∙ ap some (sym (some_end_lem (matches pattern) (c ∷ input)) ∙ sym all))
        | inr stuck ↦
            let back =
              retry_lem size tries fuel c (q ∷ pattern) input star
                (λ from start. glob_loop_lem size (tries - 1) fuel from start (some (from, start)))
                a reach enough in
            rw (other, stuck) back
      ]
    ]
  where
    reach_on :
        (star : Option (List ℕ × List ℕ))
        → InReach size tries star (q ∷ pattern) (c ∷ input)
        → InReach size tries star pattern input
    reach_on none r = (omega arith, omega arith)
    reach_on (some (from, start)) r = (r.0, omega arith, r.2, omega arith, r.4)

    reach_over :
        (star : Option (List ℕ × List ℕ))
        → InReach size tries star (q ∷ pattern) (c ∷ input)
        → All NotStar (c ∷ input)
        → InReach size tries (some (pattern, c ∷ input)) pattern (c ∷ input)
    reach_over none r clean = (r.0, omega arith, omega arith, omega arith, clean)
    reach_over (some (from, start)) r clean =
        (omega arith, omega arith, omega arith, omega arith, clean)

-- On an input without the byte `*` the fuel is enough, and the loop finds exactly whether the
-- pattern matches the whole input, a star standing for any bytes and a question mark for one.
pub glob_match-matches :
    (pattern input : List ℕ)
    → All NotStar input
    → glob_match pattern input ≡ some (matches pattern input)
unfolding glob_match
glob_match-matches pattern input plain =
    glob_loop_lem (length pattern) (length input) (glob_fuel pattern input) pattern input none plain
      tt (omega arith, omega arith) (omega arith)
    ∙ ap some (ground arith)
