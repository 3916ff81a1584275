-- ===== src/Prelude/Utf8.antt =====
-- The check of `String::from_utf8`: the lead byte gives the number of bytes that continue the
-- character and the range of the first of them.
use Prim.Native.Nat.{ℕ, zero, suc}
use mathlib.Core.Bool.{Bool, true, false, ◌&&◌}
use mathlib.Core.Option.{Option, none, some}
use mathlib.Core.List.{List, [], ◌∷◌}
use fyro_db.Prelude.Tests.{leb, ltb, ◌==◌, if◌then◌else◌}

lead : ℕ → Option (ℕ × ℕ × ℕ)
lead b =
    if ltb b 0x80
    then some (0, 0x80, 0xbf)
    else if leb 0xc2 b && leb b 0xdf
    then some (1, 0x80, 0xbf)
    else if b == 0xe0
    then some (2, 0xa0, 0xbf)
    else if b == 0xed
    then some (2, 0x80, 0x9f)
    else if leb 0xe1 b && leb b 0xef
    then some (2, 0x80, 0xbf)
    else if b == 0xf0
    then some (3, 0x90, 0xbf)
    else if leb 0xf1 b && leb b 0xf3
    then some (3, 0x80, 0xbf)
    else if b == 0xf4
    then some (3, 0x80, 0x8f)
    else none

unfoldable pub utf8_from : ℕ → ℕ → ℕ → List ℕ → Bool
unfolding lead
utf8_from zero low high [] = true
utf8_from (suc more) low high [] = false
utf8_from zero low high (b ∷ bytes) = elim (lead b) [
  | none ↦ false
  | some (more, low, high) ↦ utf8_from more low high bytes
]
utf8_from (suc more) low high (b ∷ bytes) =
    leb low b && leb b high && utf8_from more 0x80 0xbf bytes

unfoldable pub is_utf8 : List ℕ → Bool
is_utf8 bytes = utf8_from 0 0x80 0xbf bytes
