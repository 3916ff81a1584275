-- ===== src/Prelude/Assoc.antt =====
-- A hash map as an association list. The programs modelled here never depend on its order.
use mathlib.Core.Path.{◌≡◌, refl}
use mathlib.Core.Logic.{◌↔◌}
use mathlib.Core.Bool.{Bool, true, ◌&&◌}
use mathlib.Core.Option.{Option, none, some}
use mathlib.Core.List.{List, [], ◌∷◌}
use native.Mathlib.Omega.{arith}
use Prim.Native.Nat.{ℕ}
use fyro_db.Prelude.Tests.{if◌then◌else◌, ◌==◌, ==_iff}
use fyro_db.Prelude.Lists.{All, bytes_eq, bytes_eq_iff}

-- Equality of keys as a test.
pub record Eq {ℓ} (K : Type ℓ) : Type ℓ where
  pub beq : K → K → Bool
  pub beq_iff : (a b : K) → (beq a b ≡ true) ↔ (a ≡ b)

instance abbrev pub nat_eq : Eq ℕ
nat_eq = record { beq = λ a b. a == b; beq_iff = ==_iff }

-- Texts as their lists of bytes.
instance abbrev pub text_eq : Eq (List ℕ)
text_eq = record { beq = bytes_eq; beq_iff = bytes_eq_iff }

-- A text with a number.
abbrev pub entry_beq : List ℕ × ℕ → List ℕ × ℕ → Bool
entry_beq (a, m) (b, n) = bytes_eq a b && m == n

pub entry_beq_iff : (a b : List ℕ × ℕ) → (entry_beq a b ≡ true) ↔ (a ≡ b)
entry_beq_iff (a, m) (b, n) = ground (arith, bytes_eq_iff a b)

instance abbrev pub entry_eq : Eq (List ℕ × ℕ)
entry_eq = record { beq = entry_beq; beq_iff = entry_beq_iff }

abbrev pub Assoc {ℓ κ} : Type ℓ → Type κ → Type (ℓ ⊔ κ)
Assoc K V = List (K × V)

module _ {ℓ} {K V : Type ℓ} ⦃e : Eq K⦄ where
  unfoldable pub lookup : K → Assoc K V → Option V
  lookup k [] = none
  lookup k ((j, v) ∷ m) = if e.beq j k then some v else lookup k m

  unfoldable pub insert : K → V → Assoc K V → Assoc K V
  insert k v [] = (k, v) ∷ []
  insert k v ((j, w) ∷ m) = if e.beq j k then (k, v) ∷ m else (j, w) ∷ insert k v m

  unfoldable pub remove : K → Assoc K V → Assoc K V
  remove k [] = []
  remove k ((j, w) ∷ m) = let rest = remove k m in if e.beq j k then rest else (j, w) ∷ rest

  pub lookup-insert :
      (k j : K) (v : V) (m : Assoc K V)
      → lookup j (insert k v m) ≡ (if e.beq k j then some v else lookup j m)
  unfolding lookup insert
  lookup-insert k j v [] = refl
  lookup-insert k j v ((i, w) ∷ m) =
      ground (arith, e.beq_iff i k, e.beq_iff i j, e.beq_iff k j, lookup-insert k j v m)

  pub lookup-insert_self : (k : K) (v : V) (m : Assoc K V) → lookup k (insert k v m) ≡ some v
  lookup-insert_self k v m = ground (arith, lookup-insert k k v m, (e.beq_iff k k).1 refl)

  pub lookup-remove :
      (k j : K) (m : Assoc K V) → lookup j (remove k m) ≡ (if e.beq k j then none else lookup j m)
  unfolding lookup remove
  lookup-remove k j [] = ground arith
  lookup-remove k j ((i, w) ∷ m) =
      ground (arith, e.beq_iff i k, e.beq_iff i j, e.beq_iff k j, lookup-remove k j m)

  pub All-insert {μ} :
      (P : K × V → Type μ) (k : K) (v : V) (m : Assoc K V)
      → P (k, v)
      → All P m
      → All P (insert k v m)
  unfolding insert
  All-insert P k v [] h hs = (h, tt)
  All-insert P k v ((j, w) ∷ m) h (hw, hs) = ground (arith, All-insert P k v m h hs, e.beq_iff j k)
