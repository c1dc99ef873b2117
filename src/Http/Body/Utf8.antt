-- ===== src/Http/Body/Utf8.antt =====
-- A body that is text stays text when it is clipped for the log: `render_body` of src/http.rs.
use mathlib.Core.Path.{subst}
use programmable_redfish_pro.Prelude.{
  ℕ, zero, suc, ◌≤◌, ◌≡◌, refl, sym, ◌∙◌, ap, Bool, true, false, ◌&&◌, not, inl, inr, Option, none,
  some, Option-cases, [], ◌∷◌, ◌++◌, Text, length, leb, ltb, ◌==◌, if◌then◌else◌, arith, is_utf8,
  utf8_from, first_byte, Follow, follow,
}
use programmable_redfish_pro.Http.Body.{is_char_boundary, truncate_at}
use programmable_redfish_pro.Http.Body.Clipped.{truncate_at_lem}

-- Where a text may be cut: before the first byte of a character, or at its end.
unfoldable starts_character : Text → Bool
starts_character [] = true
starts_character (b ∷ s) = not (leb 128 b && ltb b 192)

record InRange (next : Follow) : Type 0 where
  from_128 : 128 ≤ next.low
  to_191 : next.high ≤ 191

abbrev AnyInRange : Option Follow → Type 0
AnyInRange none = Unit
AnyInRange (some next) = InRange next

either :
    (c : Bool) (x y : Option Follow) → AnyInRange x → AnyInRange y → AnyInRange (if c then x else y)
either true x y p q = p
either false x y p q = q

range : {count low high : ℕ} → 128 ≤ low → high ≤ 191 → AnyInRange (follow count low high)
range p q = record { from_128 = p; to_191 = q }

first_byte-AnyInRange : (b : ℕ) → AnyInRange (first_byte b)
unfolding first_byte
first_byte-AnyInRange b = either (ltb b 128) _ _ (range (omega arith) (omega arith)) (
    either (leb 194 b && leb b 223) _ _ (range (omega arith) (omega arith)) (
      either (b == 224) _ _ (range (omega arith) (omega arith)) (
        either (b == 237) _ _ (range (omega arith) (omega arith)) (
          either (leb 225 b && leb b 239) _ _ (range (omega arith) (omega arith)) (
            either (b == 240) _ _ (range (omega arith) (omega arith)) (
              either (leb 241 b && leb b 243) _ _ (range (omega arith) (omega arith))
                (either (b == 244) _ _ (range (omega arith) (omega arith)) tt)))))))

first_byte-InRange : (b : ℕ) (next : Follow) → first_byte b ≡ some next → InRange next
first_byte-InRange b next h = subst AnyInRange h (first_byte-AnyInRange b)

-- The front of a text that is cut there is text.
utf8_from-front :
    (count low high : ℕ) (front rest : Text)
    → 128 ≤ low
    → high ≤ 191
    → starts_character rest ≡ true
    → utf8_from count low high (front ++ rest) ≡ true
    → utf8_from count low high front ≡ true
unfolding utf8_from starts_character
utf8_from-front zero low high [] rest l h start valid = refl
utf8_from-front (suc count) low high [] [] l h start valid = valid
utf8_from-front (suc count) low high [] (b ∷ rest) l h start valid = ground arith
utf8_from-front zero low high (b ∷ front) rest l h start valid =
    elim (Option-cases (first_byte b)) [
      | inl bad ↦ ground (arith, rw (utf8_from, bad) at valid)
      | inr (next, e) ↦
          let bounds = first_byte-InRange b next e in
          rw (utf8_from, e)
            (utf8_from-front next.count next.low next.high front rest bounds.from_128 bounds.to_191
              start (rw (utf8_from, e) at valid))
    ]
utf8_from-front (suc count) low high (b ∷ front) rest l h start valid =
    let inside : (leb low b && leb b high) ≡ true = ground arith in
    let more : utf8_from count 128 191 (front ++ rest) ≡ true = ground arith in
    ground (
      arith,
      inside,
      utf8_from-front count 128 191 front rest (omega arith) (omega arith) start more,
    )

boundary-starts :
    (front rest : Text)
    → is_char_boundary (front ++ rest) (length front) ≡ true
    → starts_character rest ≡ true
unfolding is_char_boundary starts_character
boundary-starts [] [] h = refl
boundary-starts [] (b ∷ rest) h = h
boundary-starts (x ∷ front) rest h = boundary-starts front rest h

-- Text is still text when it is clipped for the log, however short the limit.
pub is_utf8-truncate_at :
    (cap : ℕ) (body : Text) → is_utf8 body ≡ true → is_utf8 (truncate_at cap body).0 ≡ true
unfolding is_utf8 utf8_from starts_character
is_utf8-truncate_at cap body valid =
    let clipping = truncate_at_lem cap body in
    let kept = (truncate_at cap body).0 in
    let whole : is_utf8 (kept ++ clipping.rest) ≡ true = ap is_utf8 (sym clipping.parts) ∙ valid in
    elim clipping.whole_characters [
      | inl boundary ↦
          utf8_from-front 0 128 191 kept clipping.rest (omega arith) (omega arith)
            (boundary-starts kept clipping.rest
              (ap (λ (s : Text). is_char_boundary s (length kept)) (sym clipping.parts) ∙ boundary))
            whole
      | inr (inl empty) ↦ rw empty refl
      | inr (inr all_of_it) ↦
          utf8_from-front 0 128 191 kept clipping.rest (omega arith) (omega arith)
            (ap starts_character all_of_it) whole
    ]
