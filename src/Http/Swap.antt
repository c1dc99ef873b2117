-- ===== src/Http/Swap.antt =====
-- `scheme_start` and `swap_authorities` of src/http.rs. A position in the text is the text before
-- it and the text after it, and a slice that Rust would panic on is `none`.
pub mod Walk
pub mod Total
pub mod Scan
use programmable_redfish_pro.Prelude.{
  ℕ, zero, suc, ◌+◌, ◌-◌, Bool, true, false, ◌&&◌, ◌||◌, not, Option, none, some, List, [], ◌∷◌,
  ◌++◌, Text, lit, length, split_last, ltb, leb, ◌==◌, if◌then◌else◌, starts_with, any,
}
use programmable_redfish_pro.DeepPath.{checked_sub}
use programmable_redfish_pro.Prelude.Optional.{◌>>=◌}
use mathlib.Core.List.{reverse}

abbrev pub sep : Text
sep = b':' ∷ (b'/' ∷ (b'/' ∷ []))

abbrev pub strip_prefix : Text → Text → Option Text
strip_prefix [] s = some s
strip_prefix (p ∷ ps) [] = none
strip_prefix (p ∷ ps) (x ∷ s) = if p == x then strip_prefix ps s else none

-- `find("://")`: what stands before it and what stands after it.
unfoldable pub find_sep : Text → Option (Text × Text)
find_sep [] = none
find_sep (x ∷ s) = elim (strip_prefix sep (x ∷ s)) [
  | some after ↦ some ([], after)
  | none ↦ do (before, after) ← find_sep s; some (x ∷ before, after)
]

-- The longest part at the front that passes a test, and the rest.
unfoldable pub span : (ℕ → Bool) → Text → Text × Text
span p [] = ([], [])
span p (x ∷ s) = let (front, rest) = span p s in if p x then (x ∷ front, rest) else ([], x ∷ s)

abbrev pub is_ascii_alphabetic : ℕ → Bool
is_ascii_alphabetic b = leb b'A' b && leb b b'Z' || leb b'a' b && leb b b'z'

abbrev pub is_scheme_byte : ℕ → Bool
is_scheme_byte b =
    is_ascii_alphabetic b || leb b'0' b && leb b b'9' || b == b'+' || b == b'-' || b == b'.'

-- The bytes of `"/?#\"'<>, \t"`, which end an authority.
abbrev pub is_delimiter : ℕ → Bool
is_delimiter b =
    b == 47
    || b == 63
    || b == 35
    || b == 34
    || b == 39
    || b == 60
    || b == 62
    || b == 44
    || b == 32
    || b == 9

-- How far before the `://` the URL starts: `scheme_start` is that much before `sep`.
unfoldable pub scheme_len : Text → ℕ
unfolding span
scheme_len before =
    let walked = (span is_scheme_byte (reverse before)).0 in
    elim (split_last walked) [
      | none ↦ 0
      | some (nearer, first) ↦ if is_ascii_alphabetic first then length walked else 0
    ]

abbrev pub split_at : ℕ → Text → Text × Text
split_at zero s = ([], s)
split_at (suc k) [] = ([], [])
split_at (suc k) (x ∷ s) = let (front, rest) = split_at k s in (x ∷ front, rest)

-- `trim_end_matches('/')`
unfoldable pub trim_end_slashes : Text → Text
unfolding span
trim_end_slashes s = reverse (span (λ b. b == b'/') (reverse s)).1

module _ (base : Text) (wanted : Text → Bool) where
  -- The loop of `swap_authorities`, from the cursor between `seen` and `rest`.
  unfoldable pub swap_from : ℕ → Text → Text → Option Text
  unfolding find_sep scheme_len
  swap_from zero seen rest = none
  swap_from (suc fuel) seen rest = elim (find_sep rest) [
    | none ↦ some rest
    | some (before, after) ↦ elim (scheme_len (seen ++ before)) [
      | zero ↦ do
        more ← swap_from fuel ((seen ++ before) ++ sep) after
        some (before ++ (sep ++ more))
      | suc n ↦ do
        start ← checked_sub (length before) (suc n)
        let (kept, scheme) = split_at start before
        let (authority, left) = span (λ b. not (is_delimiter b)) after
        more ← swap_from fuel ((seen ++ before) ++ (sep ++ authority)) left
        some (kept ++ ((if wanted authority then base else scheme ++ (sep ++ authority)) ++ more))
    ]
  ]

unfoldable pub swap_authorities : (base text : Text) → (wanted : Text → Bool) → Option Text
unfolding swap_from trim_end_slashes
swap_authorities base text wanted =
    swap_from (trim_end_slashes base) wanted (suc (length text)) [] text
