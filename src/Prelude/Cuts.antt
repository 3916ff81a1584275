-- ===== src/Prelude/Cuts.antt =====
-- Lists taken apart at an index.
use Prim.Native.Nat.{ℕ, zero, suc, ◌+◌, ◌-◌, ◌≤◌, ◌<◌, min}
use mathlib.Core.Path.{◌≡◌, refl, sym, ap, ◌∙◌}
use mathlib.Core.Logic.{inl, inr}
use mathlib.Core.Option.{none, some}
use mathlib.Core.List.{List, [], ◌∷◌, ◌++◌}
use native.Mathlib.Omega.{arith}
use fyro_db.Prelude.Tests.{leb, Bool-cases}
use fyro_db.Prelude.Lists.{length, get_elem?, set, take, drop}

module _ {ℓ} {A : Type ℓ} where
  pub take-nil : (n : ℕ) → take {A = A} n [] ≡ []
  take-nil zero = refl
  take-nil (suc n) = refl

  pub drop-nil : (n : ℕ) → drop {A = A} n [] ≡ []
  drop-nil zero = refl
  drop-nil (suc n) = refl

  pub take_beyond : (n : ℕ) (xs : List A) → length xs ≤ n → take n xs ≡ xs
  take_beyond zero [] h = refl
  take_beyond zero (x ∷ xs) h = absurd (omega arith)
  take_beyond (suc n) [] h = refl
  take_beyond (suc n) (x ∷ xs) h = ap (λ l. x ∷ l) (take_beyond n xs (omega arith))

  pub drop_beyond : (n : ℕ) (xs : List A) → length xs ≤ n → drop n xs ≡ []
  drop_beyond zero [] h = refl
  drop_beyond zero (x ∷ xs) h = absurd (omega arith)
  drop_beyond (suc n) [] h = refl
  drop_beyond (suc n) (x ∷ xs) h = drop_beyond n xs (omega arith)

  pub drop_all : (xs : List A) → drop (length xs) xs ≡ []
  drop_all [] = refl
  drop_all (x ∷ xs) = drop_all xs

  pub set_beyond : (xs : List A) (i : ℕ) (v : A) → length xs ≤ i → set xs i v ≡ xs
  set_beyond [] i v h = refl
  set_beyond (x ∷ xs) zero v h = absurd (omega arith)
  set_beyond (x ∷ xs) (suc i) v h = ap (λ l. x ∷ l) (set_beyond xs i v (omega arith))

  pub get_elem?_beyond : (xs : List A) (i : ℕ) → length xs ≤ i → get_elem? xs i ≡ none
  get_elem?_beyond [] i h = refl
  get_elem?_beyond (x ∷ xs) zero h = absurd (omega arith)
  get_elem?_beyond (x ∷ xs) (suc i) h = get_elem?_beyond xs i (omega arith)

  pub take-append_part : (n : ℕ) (xs ys : List A) → n ≤ length xs → take n (xs ++ ys) ≡ take n xs
  take-append_part zero xs ys h = refl
  take-append_part (suc n) [] ys h = absurd (omega arith)
  take-append_part (suc n) (x ∷ xs) ys h = ap (λ l. x ∷ l) (take-append_part n xs ys (omega arith))

  pub take-append_past :
      (n : ℕ) (xs ys : List A) → length xs ≤ n → take n (xs ++ ys) ≡ xs ++ take (n - length xs) ys
  take-append_past n [] ys h = ap (λ k. take k ys) (omega arith)
  take-append_past zero (x ∷ xs) ys h = absurd (omega arith)
  take-append_past (suc n) (x ∷ xs) ys h =
      ap (λ l. x ∷ l)
        (take-append_past n xs ys (omega arith)
          ∙ ap (λ k. xs ++ take k ys) {y = suc n - suc (length xs)} (omega arith))

  pub drop-append_part :
      (n : ℕ) (xs ys : List A) → n ≤ length xs → drop n (xs ++ ys) ≡ drop n xs ++ ys
  drop-append_part zero xs ys h = refl
  drop-append_part (suc n) [] ys h = absurd (omega arith)
  drop-append_part (suc n) (x ∷ xs) ys h = drop-append_part n xs ys (omega arith)

  pub drop-append_past :
      (n : ℕ) (xs ys : List A) → length xs ≤ n → drop n (xs ++ ys) ≡ drop (n - length xs) ys
  drop-append_past n [] ys h = ap (λ k. drop k ys) (omega arith)
  drop-append_past zero (x ∷ xs) ys h = absurd (omega arith)
  drop-append_past (suc n) (x ∷ xs) ys h =
      drop-append_past n xs ys (omega arith)
      ∙ ap (λ k. drop k ys) {y = suc n - suc (length xs)} (omega arith)

  pub drop_to :
      (i : ℕ) (xs : List A) (x : A) → get_elem? xs i ≡ some x → drop i xs ≡ x ∷ drop (suc i) xs
  drop_to i [] x e = cc
  drop_to zero (y ∷ xs) x e = ap (λ z. z ∷ xs) (ground (arith, e))
  drop_to (suc i) (y ∷ xs) x e = drop_to i xs x e

  pub get_elem?-append :
      (xs ys : List A) (j : ℕ) → get_elem? (xs ++ ys) (length xs + j) ≡ get_elem? ys j
  get_elem?-append [] ys j = ap (get_elem? ys) {x = 0 + j} (omega arith)
  get_elem?-append (x ∷ xs) ys j =
      let deeper : suc (length xs) + j ≡ suc (length xs + j) = omega arith in
      ap (get_elem? (x ∷ (xs ++ ys))) deeper ∙ get_elem?-append xs ys j

  pub get_elem?-append_before :
      (xs ys : List A) (y : A) → get_elem? (xs ++ y ∷ ys) (length xs) ≡ some y
  get_elem?-append_before [] ys y = refl
  get_elem?-append_before (x ∷ xs) ys y = get_elem?-append_before xs ys y

  pub set-append : (xs ys : List A) (x y : A) → set (xs ++ x ∷ ys) (length xs) y ≡ xs ++ y ∷ ys
  set-append [] ys x y = refl
  set-append (z ∷ xs) ys x y = ap (λ l. z ∷ l) (set-append xs ys x y)

  pub take-min : (n : ℕ) (xs : List A) → take (min n (length xs)) xs ≡ take n xs
  take-min n xs = elim (Bool-cases (leb n (length xs))) [
    | inl low ↦ ap (λ k. take k xs) {y = n} (ground (arith, low))
    | inr high ↦
        take_beyond (min n (length xs)) xs (ground (arith, high))
        ∙ sym (take_beyond n xs (ground (arith, high)))
  ]

  pub drop-min : (n : ℕ) (xs : List A) → drop (min n (length xs)) xs ≡ drop n xs
  drop-min n xs = elim (Bool-cases (leb n (length xs))) [
    | inl low ↦ ap (λ k. drop k xs) {y = n} (ground (arith, low))
    | inr high ↦
        drop_beyond (min n (length xs)) xs (ground (arith, high))
        ∙ sym (drop_beyond n xs (ground (arith, high)))
  ]

  -- A list that is not empty ends in an element.
  pub split_last :
      (x : A) (xs : List A) → (init : List A) × (last : A) × (x ∷ xs ≡ init ++ last ∷ [])
  split_last x [] = ([], x, refl)
  split_last x (y ∷ xs) =
      let (init, last, e) = split_last y xs in (x ∷ init, last, ap (λ l. x ∷ l) e)

  -- A list taken apart at an index in range.
  pub split_at :
      (xs : List A) (i : ℕ)
      → i < length xs
      → (u : List A) × (y : A) × (v : List A) × (xs ≡ u ++ y ∷ v) × (length u ≡ i)
  split_at [] i h = elim h [ ]
  split_at (x ∷ xs) zero h = ([], x, xs, refl, refl)
  split_at (x ∷ xs) (suc i) h =
      let (u, y, v, e, n) = split_at xs i (omega arith) in
      (x ∷ u, y, v, ap (λ l. x ∷ l) e, ap suc n)
