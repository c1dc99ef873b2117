-- ===== src/Http/Url.antt =====
-- What a URL in a text is, whatever src/http.rs does with it: a scheme as in RFC 3986, `://`, and an
-- authority, which goes on to the next of the characters that `swap_authorities` names, or to the end.
use mathlib.Core.List.{reverse}
use programmable_redfish_pro.Prelude.{
  ℕ, ◌≡◌, refl, Bool, true, false, ◌&&◌, ◌||◌, not, [], ◌∷◌, Text, lit, is_ascii_digit, all, any,
  leb, ◌==◌, arith,
}
use programmable_redfish_pro.Http.Swap.{is_ascii_alphabetic, is_scheme_byte, is_delimiter}

unfoldable pub is_letter : ℕ → Bool
is_letter b = leb b'a' b && leb b b'z' || leb b'A' b && leb b b'Z'

-- ALPHA / DIGIT / "+" / "-" / "."
unfoldable pub in_scheme : ℕ → Bool
unfolding is_letter lit
in_scheme b = any (λ c. b == c) (lit "+-.") || is_ascii_digit b || is_letter b

-- ALPHA *( ALPHA / DIGIT / "+" / "-" / "." )
unfoldable pub is_scheme : Text → Bool
unfolding in_scheme
is_scheme [] = false
is_scheme (b ∷ s) = is_letter b && all in_scheme s

unfoldable pub ends_authority : ℕ → Bool
unfolding lit
ends_authority b = any (λ c. b == c) (lit "/?#\"'<>, \t")

-- The text is at its end, or goes on with what ends an authority.
unfoldable pub is_ended : Text → Bool
unfolding ends_authority
is_ended [] = true
is_ended (b ∷ s) = ends_authority b

-- The text is empty, or its first byte is in no scheme.
unfoldable pub is_apart : Text → Bool
unfolding in_scheme
is_apart [] = true
is_apart (b ∷ s) = not (in_scheme b)

-- The text is empty, or its last byte is in no scheme: a scheme after it is whole.
unfoldable pub is_open : Text → Bool
unfolding is_apart
is_open front = is_apart (reverse front)

pub is_letter_lem : (b : ℕ) → is_letter b ≡ is_ascii_alphabetic b
unfolding is_letter
is_letter_lem b = ground arith

pub in_scheme_lem : (b : ℕ) → in_scheme b ≡ is_scheme_byte b
unfolding in_scheme is_letter lit
in_scheme_lem b = ground arith

pub ends_authority_lem : (b : ℕ) → ends_authority b ≡ is_delimiter b
unfolding ends_authority lit
ends_authority_lem b = ground arith

-- A test that is the same of every byte is the same of all bytes.
pub all-same : (p q : ℕ → Bool) → ((b : ℕ) → p b ≡ q b) → (s : Text) → all p s ≡ all q s
all-same p q h [] = refl
all-same p q h (b ∷ s) = rw (h b, all-same p q h s) refl
