-- ===== src/Http/Body.antt =====
-- Whole bodies: `json_content_type`, `rewrite_json`, `truncate_body` and `render_body` of
-- src/http.rs. A declared type is ASCII, as `to_str` of a header is.
pub mod Refusal
pub mod Clipped
pub mod Utf8
use mathlib.Core.List.{reverse}
use programmable_redfish_pro.Http.Address.{SocketAddrV4}
use programmable_redfish_pro.Prelude.{
  ℕ, zero, suc, ◌-◌, ◌*◌, Bool, true, false, ◌&&◌, ◌||◌, not, Option, none, some, List, [], ◌∷◌,
  ◌++◌, Text, lit, text_eq, is_empty, split, length, starts_with, ltb, leb, ◌==◌, if◌then◌else◌,
  Result, ok, err, ok_or, map_err, ◌>>=◌,
}
use programmable_redfish_pro.Json.{Value}
use programmable_redfish_pro.DeepPath.{to_ascii_lowercase}
use programmable_redfish_pro.Http.Swap.{span, split_at}
use programmable_redfish_pro.Http.Rewrite.{rewrite_value}

-- `char::is_whitespace` on ASCII.
abbrev pub is_whitespace : ℕ → Bool
is_whitespace b = leb 9 b && leb b 13 || b == 32

unfoldable pub trim : Text → Text
unfolding span
trim s = reverse (span is_whitespace (reverse (span is_whitespace s).1)).1

abbrev pub head_or_empty : List Text → Text
head_or_empty [] = []
head_or_empty (x ∷ xs) = x

unfoldable pub ends_with : Text → Text → Bool
ends_with suffix s = starts_with (reverse suffix) (reverse s)

unfoldable pub json_content_type : Option Text → Bool
unfolding trim ends_with lit split
json_content_type none = false
json_content_type (some value) =
    let essence = to_ascii_lowercase (trim (head_or_empty (split b';' value))) in
    text_eq essence (lit "application/json") || ends_with (lit "+json") essence

-- `serde_json::from_slice` and `serde_json::to_vec`.
pub record Codec : Type 0 where
  pub from_slice : Text → Result Text Value
  pub to_vec : Value → Result Text Text

pub data RewriteError : Type 0 where
  not_parsed : Text → RewriteError
  not_encoded : Text → RewriteError
  panicked : RewriteError

unfoldable pub rewrite_json :
    Codec
    → (target : SocketAddrV4) → (base : Text) → (content_type : Option Text) → (body : Text)
    → Result RewriteError (Option Text)
unfolding json_content_type rewrite_value
rewrite_json codec target base content_type body =
    if not (json_content_type content_type) then ok none else if is_empty body then ok none else (do
      value ← map_err not_parsed (codec.from_slice body)
      rewritten ← ok_or panicked (rewrite_value target base value)
      encoded ← map_err not_encoded (codec.to_vec rewritten)
      ok (some encoded))

abbrev pub max_body_log : ℕ
max_body_log = 16 * 1024

-- `is_char_boundary`: the end of the text, or a byte that continues no character.
unfoldable pub is_char_boundary : Text → ℕ → Bool
is_char_boundary [] zero = true
is_char_boundary [] (suc end) = false
is_char_boundary (x ∷ s) zero = not (leb 128 x && ltb x 192)
is_char_boundary (x ∷ s) (suc end) = is_char_boundary s end

-- The loop that walks back from the limit.
unfoldable pub clip_at : Text → ℕ → ℕ
unfolding is_char_boundary
clip_at body zero = zero
clip_at body (suc end) =
    let less = clip_at body end in if is_char_boundary body (suc end) then suc end else less

-- What is kept of a body, and how many bytes are reported as truncated, if any are.
unfoldable pub truncate_at : (cap : ℕ) → Text → Text × Option ℕ
unfolding clip_at
truncate_at cap body =
    if leb (length body) cap
    then (body, none)
    else ((split_at (clip_at body cap) body).0, some (length body - clip_at body cap))

abbrev pub truncate_body : Text → Text × Option ℕ
truncate_body body = truncate_at max_body_log body
