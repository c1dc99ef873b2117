-- ===== src/JsonPatch/Pointer.antt =====
-- Pointers and the tokens that they hold: `pointer_tokens` and `array_index` of src/script_util.rs.
pub mod RoundTrip
use programmable_redfish_pro.Prelude.{
  ℕ, Bool, not, ◌&&◌, ◌||◌, List, [], ◌∷◌, map, Text, lit, text_eq, starts_with, is_empty, split,
  is_ascii_digit, parse_usize, all, length, ltb, ◌==◌, if◌then◌else◌, Result, ok, err, ok_or,
}

-- What an operation is refused for. Each is one message of the source, with what it quotes.
pub data OpError : Type 0 where
  not_pointer not_array_index not_there unknown_op not_string missing : Text → OpError
  end_only_for_add no_parent bad_parent whole_document own_descendant : OpError
  no_location no_source not_tested_value op_not_object : OpError
  past_end : (index len : ℕ) → OpError
  too_many_nodes : ℕ → OpError

-- `str::replace` of a two byte pattern by one byte.
unfoldable pub replace_pair : (first second by : ℕ) → Text → Text
replace_pair a b c [] = []
replace_pair a b c (x ∷ []) = x ∷ []
replace_pair a b c (x ∷ (y ∷ s)) =
    let hit = c ∷ replace_pair a b c s in
    let miss = x ∷ replace_pair a b c (y ∷ s) in if x == a && y == b then hit else miss

-- `~1` is replaced before `~0`.
unfoldable pub unescape : Text → Text
unfolding replace_pair
unescape token = replace_pair b'~' b'0' b'~' (replace_pair b'~' b'1' b'/' token)

unfoldable pub pointer_tokens : Text → Result OpError (List Text)
unfolding split unescape
pointer_tokens [] = ok []
pointer_tokens (x ∷ rest) =
    if x == b'/' then ok (map unescape (split b'/' rest)) else err (not_pointer (x ∷ rest))

unfoldable pub array_index : Text → ℕ → Bool → Result OpError ℕ
unfolding text_eq lit parse_usize starts_with
array_index token len allow_end =
    if text_eq token (lit "-")
    then if allow_end then ok len else err end_only_for_add
    else if not (not (is_empty token) && all is_ascii_digit token)
        || (ltb 1 (length token) && starts_with (lit "0") token)
    then err (not_array_index token)
    else ok_or (not_array_index token) (parse_usize token)
