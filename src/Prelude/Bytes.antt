-- ===== src/Prelude/Bytes.antt =====
-- Texts as lists of bytes, and numbers of fixed width as bytes.
use Prim.Native.Nat.{ℕ, zero, suc, ◌+◌, ◌*◌, ◌/◌, ◌%◌, ◌^◌, ◌<◌}
use Prim.Native.Char.{code}
use Prim.Native.String.{String}
use mathlib.Core.Path.{◌≡◌, refl, ap}
use mathlib.Core.List.{List, [], ◌∷◌, ◌++◌}
use mathlib.Core.Option.{Option, none, some}
use mathlib.Core.Option
use native.Mathlib.Nat.{pow-suc}
use native.Mathlib.Omega.{arith}
use fyro_db.Prelude.Lists.{length, length-append, All, All-append}

-- The bytes of an ASCII text.
abbrev pub codes : String → List ℕ
codes String.[] = []
codes (String.◌∷◌ c s) = code c ∷ codes s

abbrev pub IsByte : ℕ → Type 0
IsByte b = b < 256

abbrev pub AllBytes : List ℕ → Type 0
AllBytes = All IsByte

-- The `k` bytes of a number, highest first, and the number of some bytes.
unfoldable pub to_be : ℕ → ℕ → List ℕ
to_be zero n = []
to_be (suc k) n = to_be k (n / 256) ++ (n % 256) ∷ []

unfoldable pub from_be_onto : ℕ → List ℕ → ℕ
from_be_onto acc [] = acc
from_be_onto acc (b ∷ bytes) = from_be_onto (acc * 256 + b) bytes

unfoldable pub from_be : List ℕ → ℕ
unfolding from_be_onto
from_be = from_be_onto 0

from_be_onto-append :
    (acc : ℕ) (xs : List ℕ) (b : ℕ)
    → from_be_onto acc (xs ++ b ∷ []) ≡ from_be_onto acc xs * 256 + b
unfolding from_be_onto
from_be_onto-append acc [] b = refl
from_be_onto-append acc (x ∷ xs) b = from_be_onto-append (acc * 256 + x) xs b

pub length-to_be : (k n : ℕ) → length (to_be k n) ≡ k
unfolding to_be
length-to_be zero n = refl
length-to_be (suc k) n =
    omega (arith, length-append (to_be k (n / 256)) ((n % 256) ∷ []), length-to_be k (n / 256))

pub to_be-AllBytes : (k n : ℕ) → AllBytes (to_be k n)
unfolding to_be
to_be-AllBytes zero n = tt
to_be-AllBytes (suc k) n =
    All-append IsByte (to_be k (n / 256)) _ (to_be-AllBytes k (n / 256)) (omega arith)

pub from_be-to_be : (k n : ℕ) → n < 256 ^ k → from_be (to_be k n) ≡ n
unfolding to_be from_be
from_be-to_be zero n h = ground arith
from_be-to_be (suc k) n h = omega (
  arith,
  from_be_onto-append 0 (to_be k (n / 256)) (n % 256),
  from_be-to_be k (n / 256) (omega (arith, pow-suc 256 k)),
)

-- The same, lowest first.
unfoldable pub to_le : ℕ → ℕ → List ℕ
to_le zero n = []
to_le (suc k) n = (n % 256) ∷ to_le k (n / 256)

unfoldable pub from_le : List ℕ → ℕ
from_le [] = 0
from_le (b ∷ bytes) = b + from_le bytes * 256

pub length-to_le : (k n : ℕ) → length (to_le k n) ≡ k
unfolding to_le
length-to_le zero n = refl
length-to_le (suc k) n = ap suc (length-to_le k (n / 256))

pub to_le-AllBytes : (k n : ℕ) → AllBytes (to_le k n)
unfolding to_le
to_le-AllBytes zero n = tt
to_le-AllBytes (suc k) n = (omega arith, to_le-AllBytes k (n / 256))

pub from_le-to_le : (k n : ℕ) → n < 256 ^ k → from_le (to_le k n) ≡ n
unfolding to_le from_le
from_le-to_le zero n h = omega arith
from_le-to_le (suc k) n h = omega (arith, from_le-to_le k (n / 256) (omega (arith, pow-suc 256 k)))

-- `read_exact`: the next `n` bytes and what follows them, or the end of the input.
unfoldable pub read_exact : ℕ → List ℕ → Option (List ℕ × List ℕ)
read_exact zero input = some ([], input)
read_exact (suc n) [] = none
read_exact (suc n) (b ∷ input) = Option.map (λ p. (b ∷ p.0, p.1)) (read_exact n input)

pub read_exact-append : (xs rest : List ℕ) → read_exact (length xs) (xs ++ rest) ≡ some (xs, rest)
unfolding read_exact
read_exact-append [] rest = refl
read_exact-append (x ∷ xs) rest = rw (read_exact-append xs rest)

pub read_exact_parts :
    (n : ℕ) (input taken rest : List ℕ)
    → read_exact n input ≡ some (taken, rest)
    → (length taken ≡ n) × (input ≡ taken ++ rest)
unfolding read_exact
read_exact_parts zero input taken rest e = ground arith
read_exact_parts (suc n) [] taken rest e = cc
read_exact_parts (suc n) (b ∷ input) [] rest e = ground arith
read_exact_parts (suc n) (b ∷ input) (c ∷ taken) rest e =
    ground (arith, read_exact_parts n input taken rest)

pub read_exact_short : (n : ℕ) (input : List ℕ) → length input < n → read_exact n input ≡ none
unfolding read_exact
read_exact_short zero input h = absurd (omega arith)
read_exact_short (suc n) [] h = refl
read_exact_short (suc n) (b ∷ input) h = rw (read_exact_short n input (omega arith))
