-- ===== src/Http/Swap/Scan.antt =====
-- The URLs of a text, as a walk over it finds them: a reading of the text that does not change it.
pub mod Walked
pub mod Steps
pub mod Runs
pub mod Swapped
pub mod Occurs
use programmable_redfish_pro.Prelude.{
  ℕ, zero, suc, ◌≡◌, refl, sym, ◌∙◌, ap, Bool, true, false, ◌&&◌, not, Bool-cases, Option-cases,
  inl, inr, Option, none, some, List, [], ◌∷◌, ◌++◌, Text, all, length, ◌==◌, arith,
}
use programmable_redfish_pro.Prelude.Optional.{>>=-eq-some}
use programmable_redfish_pro.Http.Swap.Walk.{find_sep-some}
use programmable_redfish_pro.Http.Swap.{
  sep, strip_prefix, find_sep, span, is_scheme_byte, is_delimiter, scheme_len,
}

-- The authority of every URL from here on.
unfoldable pub authorities_from : ℕ → Text → List Text
unfolding find_sep scheme_len span
authorities_from zero rest = []
authorities_from (suc fuel) rest = elim (find_sep rest) [
  | none ↦ []
  | some (before, after) ↦ elim (scheme_len before) [
    | zero ↦ authorities_from fuel after
    | suc n ↦
        let (authority, left) = span (λ b. not (is_delimiter b)) after in
        authority ∷ authorities_from fuel left
  ]
]

unfoldable pub authorities : Text → List Text
unfolding authorities_from
authorities text = authorities_from (suc (length text)) text

-- Two slashes at the front, where a colon would follow a text that is too short.
unfoldable pub slashes : Text → Bool
slashes [] = false
slashes (y ∷ []) = false
slashes (y ∷ (z ∷ s)) = b'/' == y && b'/' == z

-- No `://` begins in the text, not even where one follows it.
unfoldable pub clean : Text → Bool
unfolding slashes
clean [] = true
clean (x ∷ s) = not (b':' == x && slashes s) && clean s

strip_prefix-none :
    (x : ℕ) (s other : Text)
    → (b':' == x && slashes s) ≡ false
    → strip_prefix sep (x ∷ (s ++ (sep ++ other))) ≡ none
unfolding slashes
strip_prefix-none x [] other h = elim (Bool-cases (b':' == x)) [
  | inl colon ↦ rw colon refl
  | inr no_colon ↦ rw no_colon refl
]
strip_prefix-none x (y ∷ []) other h = elim (Bool-cases (b':' == x)) [
  | inr no_colon ↦ rw no_colon refl
  | inl colon ↦ elim (Bool-cases (b'/' == y)) [
    | inr no_slash ↦ rw (colon, no_slash) refl
    | inl slash ↦ rw (colon, slash) refl
  ]
]
strip_prefix-none x (y ∷ (z ∷ s)) other h = elim (Bool-cases (b':' == x)) [
  | inr no_colon ↦ rw no_colon refl
  | inl colon ↦ elim (Bool-cases (b'/' == y)) [
    | inr no_slash ↦ rw (colon, no_slash) refl
    | inl slash ↦ let last : (b'/' == z) ≡ false = ground arith in rw (colon, slash, last) refl
  ]
]

-- The first `://` after a clean text is the one that follows it.
pub find_sep-clean :
    (s other : Text) → clean s ≡ true → find_sep (s ++ (sep ++ other)) ≡ some (s, other)
unfolding clean find_sep
find_sep-clean [] other h = refl
find_sep-clean (x ∷ s) other h =
    let here : (b':' == x && slashes s) ≡ false = ground arith in
    let there : clean s ≡ true = ground arith in
    rw (find_sep, strip_prefix-none x s other here, find_sep-clean s other there) refl

strip_prefix-slashes :
    (x : ℕ) (s : Text) → strip_prefix sep (x ∷ s) ≡ none → (b':' == x && slashes s) ≡ false
unfolding slashes
strip_prefix-slashes x [] h = ground arith
strip_prefix-slashes x (y ∷ []) h = ground arith
strip_prefix-slashes x (y ∷ (z ∷ s)) h = ground arith

slashes-front : (s other : Text) → slashes (s ++ other) ≡ false → slashes s ≡ false
unfolding slashes
slashes-front [] other h = refl
slashes-front (y ∷ []) other h = refl
slashes-front (y ∷ (z ∷ s)) other h = h

front_of :
    {p : Text × Text} {before after : Text}
    → ◌≡◌ {A = Option (Text × Text)} (some p) (some (before, after))
    → p.0 ≡ before
front_of h = cc

clean-cons :
    (x : ℕ) (b rest : Text)
    → (b':' == x && slashes (b ++ rest)) ≡ false
    → clean b ≡ true
    → clean (x ∷ b) ≡ true
unfolding clean
clean-cons x b rest h c = elim (Bool-cases (b':' == x)) [
  | inr no_colon ↦ rw (no_colon, c) refl
  | inl colon ↦
      let none_there : slashes (b ++ rest) ≡ false = rw colon at h in
      rw (colon, slashes-front b rest none_there, c) refl
]

-- What stands before the first `://` is clean.
pub clean-find_sep :
    (s before after : Text) → find_sep s ≡ some (before, after) → clean before ≡ true
unfolding clean find_sep
clean-find_sep [] before after h = cc
clean-find_sep (x ∷ s) before after h = elim (Option-cases (strip_prefix sep (x ∷ s))) [
  | inr (rest, here) ↦ rw (sym (front_of (rw (find_sep, here) at h))) refl
  | inl missed ↦
      let ((b, a), found, same) = >>=-eq-some (find_sep s) _ (rw (find_sep, missed) at h) in
      let apart = strip_prefix-slashes x s missed in
      let cut : (b':' == x && slashes (b ++ (sep ++ a))) ≡ false =
        rw (find_sep-some s found) at apart in
      rw (sym (front_of same)) (clean-cons x b (sep ++ a) cut (clean-find_sep s b a found))
]

clean_join :
    (x : ℕ) (s : Text) → (b':' == x && slashes s) ≡ false → clean s ≡ true → clean (x ∷ s) ≡ true
unfolding clean
clean_join x s h c = rw (h, c) refl

-- A text without `://` is clean.
pub clean-none : (s : Text) → find_sep s ≡ none → clean s ≡ true
unfolding clean find_sep
clean-none [] h = refl
clean-none (x ∷ s) h = elim (Option-cases (strip_prefix sep (x ∷ s))) [
  | inr (rest, here) ↦ cc (rw (find_sep, here) at h)
  | inl missed ↦ elim (Option-cases (find_sep s)) [
    | inr ((b, a), found) ↦ cc (rw (find_sep, missed, found) at h)
    | inl none_left ↦ clean_join x s (strip_prefix-slashes x s missed) (clean-none s none_left)
  ]
]

letter_apart : (b : ℕ) → is_scheme_byte b ≡ true → ((b':' == b) ≡ false) × ((b'/' == b) ≡ false)
letter_apart b h = (ground arith, ground arith)

slashes-scheme : (b : ℕ) (s : Text) → is_scheme_byte b ≡ true → slashes (b ∷ s) ≡ false
unfolding slashes
slashes-scheme b [] h = refl
slashes-scheme b (c ∷ s) h = rw (letter_apart b h).1 refl

slashes_second : (y b : ℕ) (s : Text) → is_scheme_byte b ≡ true → slashes (y ∷ (b ∷ s)) ≡ false
unfolding slashes
slashes_second y b s h = elim (Bool-cases (b'/' == y)) [
  | inl slash ↦ rw (slash, (letter_apart b h).1) refl
  | inr other ↦ rw other refl
]

-- A scheme is clean.
clean-scheme : (s : Text) → all is_scheme_byte s ≡ true → clean s ≡ true
unfolding clean
clean-scheme [] h = refl
clean-scheme (b ∷ s) h =
    let one : is_scheme_byte b ≡ true = ground arith in
    let rest : all is_scheme_byte s ≡ true = ground arith in
    rw ((letter_apart b one).0, clean-scheme s rest) refl

clean_tail : (x : ℕ) (s : Text) → clean (x ∷ s) ≡ true → clean s ≡ true
unfolding clean
clean_tail x s h = ground arith

clean_head : (x : ℕ) (s : Text) → clean (x ∷ s) ≡ true → (b':' == x && slashes s) ≡ false
unfolding clean
clean_head x s h = ground arith

and_none : (a : Bool) (s : Text) → slashes s ≡ false → (a && slashes s) ≡ false
and_none true s h = h
and_none false s h = refl

slashes_two : (y z : ℕ) (s t : Text) → slashes (y ∷ (z ∷ s)) ≡ slashes (y ∷ (z ∷ t))
unfolding slashes
slashes_two y z s t = refl

-- Another scheme at the end leaves a clean text clean.
pub clean-swap :
    (kept scheme : Text) (b : ℕ) (s : Text)
    → clean (kept ++ scheme) ≡ true
    → all is_scheme_byte (b ∷ s) ≡ true
    → clean (kept ++ b ∷ s) ≡ true
clean-swap [] scheme b s c h = clean-scheme (b ∷ s) h
clean-swap (x ∷ []) scheme b s c h =
    let one : is_scheme_byte b ≡ true = ground arith in
    clean_join x (b ∷ s) (and_none (b':' == x) (b ∷ s) (slashes-scheme b s one))
      (clean-scheme (b ∷ s) h)
clean-swap (x ∷ (y ∷ [])) scheme b s c h =
    let one : is_scheme_byte b ≡ true = ground arith in
    clean_join x (y ∷ (b ∷ s)) (and_none (b':' == x) (y ∷ (b ∷ s)) (slashes_second y b s one))
      (clean-swap (y ∷ []) scheme b s (clean_tail x (y ∷ scheme) c) h)
clean-swap (x ∷ (y ∷ (z ∷ kept))) scheme b s c h =
    clean_join x (y ∷ (z ∷ (kept ++ b ∷ s)))
      (ap (λ (t : Bool). b':' == x && t) (slashes_two y z (kept ++ b ∷ s) (kept ++ scheme))
        ∙ clean_head x (y ∷ (z ∷ (kept ++ scheme))) c)
      (clean-swap (y ∷ (z ∷ kept)) scheme b s (clean_tail x (y ∷ (z ∷ (kept ++ scheme))) c) h)
