-- ===== src/Prelude/Utf8.antt =====
-- `std::str::from_utf8`: which bytes are text.
use Prim.Native.Nat.{ℕ, zero, suc}
use mathlib.Core.Bool.{Bool, true, false, ◌&&◌}
use mathlib.Core.Option.{Option, none, some}
use mathlib.Core.List.{[], ◌∷◌}
use programmable_redfish_pro.Prelude.Tests.{ltb, leb, ◌==◌, if◌then◌else◌}
use programmable_redfish_pro.Prelude.Bytes.{Text}

-- The bytes that must follow: how many, and the range of the next.
pub record Follow : Type 0 where
  pub count : ℕ
  pub low : ℕ
  pub high : ℕ

abbrev pub follow : ℕ → ℕ → ℕ → Option Follow
follow count low high = some (record { count = count; low = low; high = high })

-- Table 3-7 of the Unicode standard, by the first byte of a character.
unfoldable pub first_byte : ℕ → Option Follow
first_byte b =
    if ltb b 128
    then follow 0 128 191
    else if leb 194 b && leb b 223
    then follow 1 128 191
    else if b == 224
    then follow 2 160 191
    else if b == 237
    then follow 2 128 159
    else if leb 225 b && leb b 239
    then follow 2 128 191
    else if b == 240
    then follow 3 144 191
    else if leb 241 b && leb b 243
    then follow 3 128 191
    else if b == 244
    then follow 3 128 143
    else none

unfoldable pub utf8_from : (count low high : ℕ) → Text → Bool
unfolding first_byte
utf8_from zero low high [] = true
utf8_from zero low high (b ∷ s) = elim (first_byte b) [
  | none ↦ false
  | some next ↦ utf8_from next.count next.low next.high s
]
utf8_from (suc count) low high [] = false
utf8_from (suc count) low high (b ∷ s) = leb low b && leb b high && utf8_from count 128 191 s

unfoldable pub is_utf8 : Text → Bool
unfolding utf8_from
is_utf8 s = utf8_from 0 128 191 s

-- `from_utf8(..).ok()`
abbrev pub from_utf8 : Text → Option Text
from_utf8 s = if is_utf8 s then some s else none
