-- ===== src/Storage/QuickList/Remove/Elements.antt =====
-- The elements that the loop of `remove_matching` leaves and counts.
use fyro_db.Prelude.{
  ℕ, zero, suc, ◌+◌, ◌-◌, ◌≤◌, ◌≡◌, refl, ap, ◌∙◌, inl, inr, Bool, true, false, ◌||◌, List, [], ◌∷◌,
  ◌++◌, arith, Bool-cases, length, length-append, any, bytes_eq, All, All-append,
}
use fyro_db.Cluster.Topology.{Text}
use fyro_db.Storage.QuickList.{backwards, total_bytes}
use fyro_db.Storage.QuickList.Pieces.{backwards-backwards}
use fyro_db.Storage.QuickList.Remove.{flip, remove_some}

-- The removal of some elements of one list is that of the first part, and then of the second.
pub remove_some-append :
    (value : Text) (limit : ℕ) (a b : List Text)
    → remove_some value limit (a ++ b) ≡ (
      (remove_some value limit a).0
          ++ (remove_some value (limit - (remove_some value limit a).1) b).0,
      (remove_some value limit a).1
          + (remove_some value (limit - (remove_some value limit a).1) b).1,
    )
unfolding remove_some
remove_some-append value zero a b = refl
remove_some-append value (suc limit) [] b =
    let left = λ (n : ℕ). remove_some value n b in
    let whole : suc limit ≡ suc limit - 0 = omega arith in
    ap left whole ∙ ap (λ (k : ℕ). ((left (suc limit - 0)).0, k)) (omega arith)
remove_some-append value (suc limit) (s ∷ a) b = elim (Bool-cases (bytes_eq s value)) [
  | inl hit ↦
      let first = remove_some value limit a in
      let second = λ (n : ℕ). remove_some value n b in
      let same : limit - first.1 ≡ suc limit - suc first.1 = omega arith in
      rw (hit, remove_some)
        (ap (λ (p : List Text × ℕ). (p.0, suc p.1)) (remove_some-append value limit a b)
          ∙ ap (λ (n : ℕ). (first.0 ++ (second n).0, suc (first.1 + (second n).1))) same
          ∙ ap (λ (k : ℕ). (first.0 ++ (second (suc limit - suc first.1)).0, k)) (omega arith))
  | inr miss ↦
      rw (miss, remove_some)
        (ap (λ (p : List Text × ℕ). (s ∷ p.0, p.1)) (remove_some-append value (suc limit) a b))
]

any-append :
    (value : Text) (a b : List Text)
    → any (λ s. bytes_eq s value) (a ++ b)
      ≡ any (λ s. bytes_eq s value) a || any (λ s. bytes_eq s value) b
any-append value [] b = refl
any-append value (s ∷ a) b = ground (arith, any-append value a b)

pub any-flip :
    (value : Text) (from_back : Bool) (items : List Text)
    → any (λ s. bytes_eq s value) (flip from_back items) ≡ any (λ s. bytes_eq s value) items
any-flip value false items = refl
any-flip value true [] = refl
any-flip value true (s ∷ items) =
    any-append value (backwards items) (s ∷ []) ∙ ground (arith, any-flip value true items)

-- Without the value nothing is removed.
pub remove_some-absent :
    (value : Text) (limit : ℕ) (items : List Text)
    → any (λ s. bytes_eq s value) items ≡ false
    → remove_some value limit items ≡ (items, 0)
unfolding remove_some
remove_some-absent value zero items e = refl
remove_some-absent value (suc limit) [] e = refl
remove_some-absent value (suc limit) (s ∷ items) e =
    let miss : bytes_eq s value ≡ false = ground (arith, e) in
    rw (miss, remove_some)
      (ap (λ (p : List Text × ℕ). (s ∷ p.0, p.1))
        (remove_some-absent value (suc limit) items (ground (arith, e))))

pub total_bytes-remove_some :
    (value : Text) (limit : ℕ) (items : List Text)
    → total_bytes (remove_some value limit items).0 ≤ total_bytes items
unfolding remove_some
total_bytes-remove_some value zero items = omega arith
total_bytes-remove_some value (suc limit) [] = omega arith
total_bytes-remove_some value (suc limit) (s ∷ items) = elim (Bool-cases (bytes_eq s value)) [
  | inl hit ↦
      rw (hit, total_bytes, remove_some) (omega (arith, total_bytes-remove_some value limit items))
  | inr miss ↦
      rw (miss, total_bytes, remove_some)
        (omega (arith, total_bytes-remove_some value (suc limit) items))
]

total_bytes-append : (a b : List Text) → total_bytes (a ++ b) ≡ total_bytes a + total_bytes b
total_bytes-append [] b = omega arith
total_bytes-append (s ∷ a) b = omega (arith, total_bytes-append a b)

pub total_bytes-flip :
    (from_back : Bool) (items : List Text) → total_bytes (flip from_back items) ≡ total_bytes items
total_bytes-flip false items = refl
total_bytes-flip true [] = refl
total_bytes-flip true (s ∷ items) =
    omega (arith, total_bytes-append (backwards items) (s ∷ []), total_bytes-flip true items)

pub flip-flip {ℓ} :
    {A : Type ℓ} (from_back : Bool) (xs : List A) → flip from_back (flip from_back xs) ≡ xs
flip-flip false xs = refl
flip-flip true xs = backwards-backwards xs

-- An element is removed and counted, or left.
pub length-remove_some :
    (value : Text) (limit : ℕ) (items : List Text)
    → length (remove_some value limit items).0 + (remove_some value limit items).1 ≡ length items
unfolding remove_some
length-remove_some value zero items = omega arith
length-remove_some value (suc limit) [] = omega arith
length-remove_some value (suc limit) (s ∷ items) = elim (Bool-cases (bytes_eq s value)) [
  | inl hit ↦ rw (hit, remove_some) (omega (arith, length-remove_some value limit items))
  | inr miss ↦ rw (miss, remove_some) (omega (arith, length-remove_some value (suc limit) items))
]

pub length-flip {ℓ} :
    {A : Type ℓ} (from_back : Bool) (xs : List A) → length (flip from_back xs) ≡ length xs
length-flip false xs = refl
length-flip true [] = refl
length-flip true (x ∷ xs) =
    length-append (backwards xs) (x ∷ []) ∙ omega (arith, length-flip true xs)

All-backwards : (P : Text → Type 0) (items : List Text) → All P items → All P (backwards items)
All-backwards P [] h = tt
All-backwards P (s ∷ items) (one, h) =
    All-append P (backwards items) (s ∷ []) (All-backwards P items h) (one, tt)

All-flip :
    (P : Text → Type 0) (from_back : Bool) (items : List Text)
    → All P items
    → All P (flip from_back items)
All-flip P false items h = h
All-flip P true items h = All-backwards P items h

All-remove_some :
    (P : Text → Type 0) (value : Text) (limit : ℕ) (items : List Text)
    → All P items
    → All P (remove_some value limit items).0
unfolding remove_some
All-remove_some P value zero items h = h
All-remove_some P value (suc limit) [] h = tt
All-remove_some P value (suc limit) (s ∷ items) (one, h) = elim (Bool-cases (bytes_eq s value)) [
  | inl hit ↦ rw (hit, remove_some) (All-remove_some P value limit items h)
  | inr miss ↦ rw (miss, remove_some) (one, All-remove_some P value (suc limit) items h)
]

-- The elements of the list without the ones that were removed from that end, and their number.
abbrev pub without : Text → ℕ → Bool → List Text → ℕ × List Text
without value limit from_back items =
    let (left, removed) = remove_some value limit (flip from_back items) in
    (removed, flip from_back left)

pub All-without :
    (P : Text → Type 0) (value : Text) (limit : ℕ) (from_back : Bool) (items : List Text)
    → All P items
    → All P (without value limit from_back items).1
All-without P value limit from_back items h =
    All-flip P from_back (remove_some value limit (flip from_back items)).0
      (All-remove_some P value limit (flip from_back items) (All-flip P from_back items h))

pub length-without :
    (value : Text) (limit : ℕ) (from_back : Bool) (items : List Text)
    → length (without value limit from_back items).1 + (without value limit from_back items).0
      ≡ length items
length-without value limit from_back items = omega (
  arith,
  length-flip from_back (remove_some value limit (flip from_back items)).0,
  length-flip from_back items,
  length-remove_some value limit (flip from_back items),
)
