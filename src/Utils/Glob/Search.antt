-- ===== src/Utils/Glob/Search.antt =====
-- What a pattern means, and why the last star alone is worth a retry.
use mathlib.Core.Path.{subst}
use fyro_db.Prelude.{
  ℕ, zero, suc, ◌<◌, ◌≡◌, refl, inl, inr, Bool, true, false, ◌&&◌, ◌||◌, List, [], ◌∷◌, ◌++◌, arith,
  ◌==◌, if◌then◌else◌, Bool-cases, length, drop, drop-append_length, All,
}
use fyro_db.Utils.Glob.{star_byte, fits, skip_stars, is_nil}

-- Some part that the text ends with, the whole text included.
unfoldable pub some_end : (List ℕ → Bool) → List ℕ → Bool
some_end p [] = p []
some_end p (c ∷ text) = p (c ∷ text) || some_end p text

-- A star stands for any bytes, a question mark for one, and any other byte for itself.
unfoldable pub matches : List ℕ → List ℕ → Bool
unfolding some_end
matches [] text = is_nil text
matches (q ∷ pattern) text =
    if q == star_byte
    then some_end (matches pattern) text
    else elim text [ [] ↦ false | (c ∷ rest) ↦ fits q c && matches pattern rest ]

-- The ends that are shorter than the text.
unfoldable pub shorter_end : (List ℕ → Bool) → List ℕ → Bool
unfolding some_end
shorter_end p [] = false
shorter_end p (c ∷ text) = some_end p text

abbrev pub NotStar : ℕ → Type 0
NotStar q = (q == star_byte) ≡ false

pub some_end_lem :
    (p : List ℕ → Bool) (text : List ℕ) → some_end p text ≡ (p text || shorter_end p text)
unfolding some_end shorter_end
some_end_lem p [] = ground arith
some_end_lem p (c ∷ text) = refl

pub matches_empty : (pattern : List ℕ) → matches pattern [] ≡ is_nil (skip_stars pattern)
unfolding matches skip_stars some_end
matches_empty [] = refl
matches_empty (q ∷ pattern) = ground (arith, matches_empty pattern)

-- Bytes before any star take one byte each.
pub matches_short :
    (part pattern text : List ℕ)
    → All NotStar part
    → length text < length part
    → matches (part ++ pattern) text ≡ false
unfolding matches
matches_short [] pattern text h few = absurd (omega arith)
matches_short (q ∷ part) pattern [] (hq, h) few = rw hq refl
matches_short (q ∷ part) pattern (c ∷ text) (hq, h) few =
    rw (hq, matches_short part pattern text h (omega arith)) (ground arith)

pub some_end_short :
    (part pattern text : List ℕ)
    → All NotStar part
    → length text < length part
    → some_end (matches (part ++ pattern)) text ≡ false
unfolding some_end
some_end_short part pattern [] h few = matches_short part pattern [] h few
some_end_short part pattern (c ∷ text) h few =
    rw (matches_short part pattern (c ∷ text) h few)
      (some_end_short part pattern text h (omega arith))

-- If a part without stars and a star behind it match, some end behind the part matches the rest.
matches_behind :
    (part pattern text : List ℕ)
    → All NotStar part
    → matches (part ++ star_byte ∷ pattern) text ≡ true
    → some_end (matches pattern) (drop (length part) text) ≡ true
unfolding matches
matches_behind [] pattern text h e = e
matches_behind (q ∷ part) pattern [] (hq, h) e = ground arith
matches_behind (q ∷ part) pattern (c ∷ text) (hq, h) e =
    matches_behind part pattern text h (ground arith)

drop_more :
    (p : List ℕ → Bool) (k c : ℕ) (text : List ℕ)
    → some_end p (drop k text) ≡ true
    → some_end p (drop k (c ∷ text)) ≡ true
unfolding some_end
drop_more p zero c text e = ground arith
drop_more p (suc zero) c [] e = e
drop_more p (suc (suc k)) c [] e = e
drop_more p (suc k) c (d ∷ text) e = drop_more p k d text e

some_end_behind :
    (part pattern text : List ℕ)
    → All NotStar part
    → some_end (matches (part ++ star_byte ∷ pattern)) text ≡ true
    → some_end (matches pattern) (drop (length part) text) ≡ true
unfolding some_end
some_end_behind part pattern [] h e = matches_behind part pattern [] h e
some_end_behind part pattern (c ∷ text) h e =
    elim (Bool-cases (matches (part ++ star_byte ∷ pattern) (c ∷ text))) [
      | inl here ↦ matches_behind part pattern (c ∷ text) h here
      | inr later ↦
          drop_more (matches pattern) (length part) c text
            (some_end_behind part pattern text h (ground arith))
    ]

-- What an earlier star could still match, the last one can match too.
pub shorter_end_behind :
    (part pattern taken text : List ℕ)
    → All NotStar part
    → length part ≡ length taken
    → shorter_end (matches (part ++ star_byte ∷ pattern)) (taken ++ text) ≡ true
    → some_end (matches pattern) text ≡ true
unfolding shorter_end
shorter_end_behind part pattern [] [] h e more = absurd (cc)
shorter_end_behind part pattern [] (c ∷ text) h e more =
    let found =
      drop_more (matches pattern) (length part) c text (some_end_behind part pattern text h more) in
    subst (λ k. some_end (matches pattern) (drop k (c ∷ text)) ≡ true) e found
shorter_end_behind part pattern (t ∷ taken) text h e more =
    let found =
      drop_more (matches pattern) (length part) t (taken ++ text)
        (some_end_behind part pattern (taken ++ text) h more) in
    subst (λ s. some_end (matches pattern) s ≡ true) (drop-append_length taken text)
      (subst (λ k. some_end (matches pattern) (drop k (t ∷ (taken ++ text))) ≡ true) e found)
