-- ===== src/JsonPatch/Pointer/RoundTrip.antt =====
-- Printing tokens as RFC 6901 says, and reading them back.
use programmable_redfish_pro.Prelude.{
  ℕ, ◌≡◌, refl, ap, ◌∙◌, List, [], ◌∷◌, ◌++◌, map, Text, split, ok, ◌==◌, if◌then◌else◌, Bool-cases,
  inl, inr, ==_iff, false,
}
use programmable_redfish_pro.JsonPatch.Pointer.{replace_pair, unescape, pointer_tokens}

-- `~` is written `~0`, and `/` is written `~1`.
pub escape : Text → Text
escape [] = []
escape (x ∷ s) =
    let rest = escape s in
    if x == b'~' then b'~' ∷ (b'0' ∷ rest) else if x == b'/' then b'~' ∷ (b'1' ∷ rest) else x ∷ rest

pub print_pointer : List Text → Text
print_pointer [] = []
print_pointer (t ∷ ts) = b'/' ∷ (escape t ++ print_pointer ts)

-- What is left to undo after `~1` is replaced.
tilde : Text → Text
tilde [] = []
tilde (x ∷ s) = let rest = tilde s in if x == b'~' then b'~' ∷ (b'0' ∷ rest) else x ∷ rest

replace_skip :
    (a b c x : ℕ) (s : Text)
    → (x == a) ≡ false
    → replace_pair a b c (x ∷ s) ≡ x ∷ replace_pair a b c s
unfolding replace_pair
replace_skip a b c x [] h = refl
replace_skip a b c x (y ∷ s) h = rw h

replace_slash : (s : Text) → replace_pair b'~' b'1' b'/' (escape s) ≡ tilde s
unfolding escape tilde replace_pair
replace_slash [] = refl
replace_slash (x ∷ s) = elim (Bool-cases (x == b'~')) [
  | inl sign ↦ rw sign (
      ap (◌∷◌ b'~')
        (replace_skip b'~' b'1' b'/' b'0' (escape s) refl ∙ ap (◌∷◌ b'0') (replace_slash s)))
  | inr other ↦ elim (Bool-cases (x == b'/')) [
    | inl slash ↦ rw (other, slash) (cc (replace_slash s, (==_iff x b'/').0 slash))
    | inr plain ↦
        rw (other, plain)
          (replace_skip b'~' b'1' b'/' x (escape s) other ∙ ap (◌∷◌ x) (replace_slash s))
  ]
]

replace_tilde : (s : Text) → replace_pair b'~' b'0' b'~' (tilde s) ≡ s
unfolding tilde replace_pair
replace_tilde [] = refl
replace_tilde (x ∷ s) = elim (Bool-cases (x == b'~')) [
  | inl sign ↦ rw sign (cc (replace_tilde s, (==_iff x b'~').0 sign))
  | inr other ↦
      rw other (replace_skip b'~' b'0' b'~' x (tilde s) other ∙ ap (◌∷◌ x) (replace_tilde s))
]

-- Unescaping undoes escaping.
pub unescape-escape : (s : Text) → unescape (escape s) ≡ s
unfolding unescape
unescape-escape s = rw (replace_slash s) (replace_tilde s)

-- An escaped token holds no slash, so the next slash ends it.
split-escape : (s rest : Text) → split b'/' (escape s ++ b'/' ∷ rest) ≡ escape s ∷ split b'/' rest
unfolding escape split
split-escape [] rest = refl
split-escape (x ∷ s) rest = elim (Bool-cases (x == b'~')) [
  | inl sign ↦ rw (sign, split-escape s rest) refl
  | inr other ↦ elim (Bool-cases (x == b'/')) [
    | inl slash ↦ rw (other, slash, split-escape s rest) refl
    | inr plain ↦ rw (other, plain, plain, split-escape s rest) refl
  ]
]

split-escape_last : (s : Text) → split b'/' (escape s ++ []) ≡ escape s ∷ []
unfolding escape split
split-escape_last [] = refl
split-escape_last (x ∷ s) = elim (Bool-cases (x == b'~')) [
  | inl sign ↦ rw (sign, split-escape_last s) refl
  | inr other ↦ elim (Bool-cases (x == b'/')) [
    | inl slash ↦ rw (other, slash, split-escape_last s) refl
    | inr plain ↦ rw (other, plain, plain, split-escape_last s) refl
  ]
]

split-print :
    (t : Text) (ts : List Text) → split b'/' (escape t ++ print_pointer ts) ≡ map escape (t ∷ ts)
unfolding print_pointer
split-print t [] = split-escape_last t
split-print t (u ∷ ts) =
    split-escape t (escape u ++ print_pointer ts) ∙ ap (◌∷◌ (escape t)) (split-print u ts)

map-unescape-escape : (ts : List Text) → map unescape (map escape ts) ≡ ts
map-unescape-escape [] = refl
map-unescape-escape (t ∷ ts) = cc (unescape-escape t, map-unescape-escape ts)

-- Every list of tokens, printed as RFC 6901 says, is read back.
pub pointer_tokens-print_pointer : (ts : List Text) → pointer_tokens (print_pointer ts) ≡ ok ts
unfolding pointer_tokens print_pointer
pointer_tokens-print_pointer [] = refl
pointer_tokens-print_pointer (t ∷ ts) = rw (split-print t ts) (ap ok (map-unescape-escape (t ∷ ts)))
