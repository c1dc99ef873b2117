-- ===== src/Prelude/Bytes.antt =====
-- Text as Rust holds it, a list of bytes, with the operations of `str` that the program uses.
-- Every separator that the program looks for is ASCII, so a walk over bytes finds what a walk over
-- characters would.
use Prim.Native.Char.{code}
use Prim.Native.Nat.{ℕ, ◌+◌, ◌-◌, ◌*◌, ◌^◌}
use Prim.Native.String.{String}
use mathlib.Core.Path.{◌≡◌, refl}
use mathlib.Core.Logic.{◌↔◌}
use mathlib.Core.Bool.{Bool, true, false, ◌&&◌, ◌||◌}
use mathlib.Core.Option.{Option, none, some}
use mathlib.Core.List.{List, [], ◌∷◌}
use native.Mathlib.Omega.{arith}
use programmable_redfish_pro.Prelude.Tests.{ltb, leb, ◌==◌, if◌then◌else◌}
use programmable_redfish_pro.Prelude.Lists.{all}

abbrev pub Text : Type 0
Text = List ℕ

-- The bytes of an ASCII literal.
unfoldable pub lit : String → Text
lit String.[] = []
lit (String.◌∷◌ c s) = code c ∷ lit s

unfoldable pub text_eq : Text → Text → Bool
text_eq [] [] = true
text_eq (x ∷ s) (y ∷ t) = x == y && text_eq s t
text_eq _ _ = false

pub text_eq_iff : (s t : Text) → (text_eq s t ≡ true) ↔ (s ≡ t)
unfolding text_eq
text_eq_iff [] [] = ground arith
text_eq_iff [] (y ∷ t) = ground arith
text_eq_iff (x ∷ s) [] = ground arith
text_eq_iff (x ∷ s) (y ∷ t) = ground (arith, text_eq_iff s t)

pub text_eq_refl : (s : Text) → text_eq s s ≡ true
text_eq_refl s = (text_eq_iff s s).1 refl

pub text_eq_sym : (s t : Text) → text_eq s t ≡ text_eq t s
unfolding text_eq
text_eq_sym [] [] = refl
text_eq_sym [] (y ∷ t) = refl
text_eq_sym (x ∷ s) [] = refl
text_eq_sym (x ∷ s) (y ∷ t) = ground (arith, text_eq_sym s t)

-- `Ord` for `str` compares bytes in turn.
unfoldable pub text_lt : Text → Text → Bool
text_lt [] [] = false
text_lt [] (y ∷ t) = true
text_lt (x ∷ s) [] = false
text_lt (x ∷ s) (y ∷ t) = ltb x y || (x == y && text_lt s t)

-- `str::starts_with`, the prefix first.
unfoldable pub starts_with : Text → Text → Bool
starts_with [] s = true
starts_with (p ∷ ps) [] = false
starts_with (p ∷ ps) (x ∷ s) = p == x && starts_with ps s

abbrev pub is_empty : Text → Bool
is_empty [] = true
is_empty (x ∷ s) = false

-- `str::split` at one ASCII character, which always yields at least one piece.
abbrev pub push_head : ℕ → List Text → List Text
push_head x [] = (x ∷ []) ∷ []
push_head x (p ∷ ps) = (x ∷ p) ∷ ps

unfoldable pub split : ℕ → Text → List Text
split sep [] = [] ∷ []
split sep (x ∷ s) = let rest = split sep s in if x == sep then [] ∷ rest else push_head x rest

abbrev pub is_ascii_digit : ℕ → Bool
is_ascii_digit b = leb 48 b && leb b 57

-- The value of a run of digits.
unfoldable pub decimal_from : ℕ → Text → ℕ
decimal_from acc [] = acc
decimal_from acc (x ∷ s) = decimal_from (acc * 10 + (x - 48)) s

abbrev pub usize_max : ℕ
usize_max = 2 ^ 64 - 1

-- The digits after an optional sign, refused past the 64 bits of a `usize`.
unfoldable pub parse_digits : Text → Option ℕ
unfolding decimal_from
parse_digits [] = none
parse_digits (x ∷ s) =
    if all is_ascii_digit (x ∷ s)
    then (if leb (decimal_from 0 (x ∷ s)) usize_max then some (decimal_from 0 (x ∷ s)) else none)
    else none

-- `str::parse::<usize>`, which takes a leading plus sign.
unfoldable pub parse_usize : Text → Option ℕ
unfolding parse_digits
parse_usize [] = none
parse_usize (x ∷ s) = if x == b'+' then parse_digits s else parse_digits (x ∷ s)
