-- ===== src/Storage/QuickList/Remove/Struck.antt =====
-- A removal described on its own: which elements stay, and how many go.
use fyro_db.Prelude.{
  ℕ, zero, suc, ◌+◌, ◌≡◌, refl, ap, ◌∙◌, inl, inr, min, Bool, true, false, List, [], ◌∷◌, ◌++◌,
  arith, Bool-cases, bytes_eq,
}
use fyro_db.Cluster.Topology.{Text}
use fyro_db.Storage.QuickList.{backwards}
use fyro_db.Storage.QuickList.Remove.{flip, remove_some}
use fyro_db.Storage.QuickList.Remove.Elements.{without}

-- How often the value is among the items.
unfoldable pub occurrences : Text → List Text → ℕ
occurrences value [] = 0
occurrences value (s ∷ items) = elim (bytes_eq s value) [
  | true ↦ suc (occurrences value items)
  | false ↦ occurrences value items
]

-- The items without the first of the value, as many as the limit says.
unfoldable pub strike : Text → ℕ → List Text → List Text
strike value zero items = items
strike value (suc limit) [] = []
strike value (suc limit) (s ∷ items) = elim (bytes_eq s value) [
  | true ↦ strike value limit items
  | false ↦ s ∷ strike value (suc limit) items
]

-- The number of removed elements, and the others.
abbrev pub struck : Text → ℕ → Bool → List Text → ℕ × List Text
struck value limit from_back items = (
  min limit (occurrences value items),
  flip from_back (strike value limit (flip from_back items)),
)

remove_some-strike :
    (value : Text) (limit : ℕ) (items : List Text)
    → remove_some value limit items
      ≡ (strike value limit items, min limit (occurrences value items))
unfolding remove_some strike occurrences
remove_some-strike value zero items = ap (λ n. (items, n)) (omega arith)
remove_some-strike value (suc limit) [] = ap (λ n. ([], n)) (omega arith)
remove_some-strike value (suc limit) (s ∷ items) = elim (Bool-cases (bytes_eq s value)) [
  | inl hit ↦
      rw (hit, remove_some, strike, occurrences)
        (ap (λ (p : List Text × ℕ). (p.0, suc p.1)) (remove_some-strike value limit items)
          ∙ ap (λ n. (strike value limit items, n)) (omega arith))
  | inr miss ↦
      rw (miss, remove_some, strike, occurrences)
        (ap (λ (p : List Text × ℕ). (s ∷ p.0, p.1)) (remove_some-strike value (suc limit) items))
]

occurrences-append :
    (value : Text) (a b : List Text)
    → occurrences value (a ++ b) ≡ occurrences value a + occurrences value b
unfolding occurrences
occurrences-append value [] b = omega arith
occurrences-append value (s ∷ a) b = elim (Bool-cases (bytes_eq s value)) [
  | inl hit ↦ rw (hit, occurrences) (omega (arith, occurrences-append value a b))
  | inr miss ↦ rw (miss, occurrences) (occurrences-append value a b)
]

occurrences-cons :
    (value s : Text) (items : List Text)
    → occurrences value (s ∷ items) ≡ occurrences value items + occurrences value (s ∷ [])
unfolding occurrences
occurrences-cons value s items = elim (Bool-cases (bytes_eq s value)) [
  | inl hit ↦ rw (hit, occurrences) (omega arith)
  | inr miss ↦ rw (miss, occurrences) (omega arith)
]

occurrences-flip :
    (value : Text) (from_back : Bool) (items : List Text)
    → occurrences value (flip from_back items) ≡ occurrences value items
occurrences-flip value false items = refl
occurrences-flip value true [] = refl
occurrences-flip value true (s ∷ items) =
    occurrences-append value (backwards items) (s ∷ [])
    ∙ omega (arith, occurrences-flip value true items, occurrences-cons value s items)

-- The loop takes out the value from that end until the limit, and leaves the other elements.
pub without-struck :
    (value : Text) (limit : ℕ) (from_back : Bool) (items : List Text)
    → without value limit from_back items ≡ struck value limit from_back items
without-struck value limit from_back items =
    ap (λ (p : List Text × ℕ). (p.1, flip from_back p.0))
      (remove_some-strike value limit (flip from_back items))
    ∙ ap (λ n. (min limit n, flip from_back (strike value limit (flip from_back items))))
        (occurrences-flip value from_back items)
