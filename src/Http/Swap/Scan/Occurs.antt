-- ===== src/Http/Swap/Scan/Occurs.antt =====
-- Which URLs of a text the walk of `swap_authorities` of src/http.rs is sure to find: the first after a
-- `://`, and every one after a character that ends an authority, but a slash.
use mathlib.Core.List.{append_assoc, append-nil, reverse}
use programmable_redfish_pro.Prelude.{
  ℕ, zero, suc, ◌≤◌, ◌<◌, ◌≡◌, refl, sym, ◌∙◌, ap, Bool, true, false, ◌&&◌, not, Bool-cases,
  Option-cases, inl, inr, some, [], ◌∷◌, ◌++◌, Text, lit, all, length, length-append, ◌==◌, arith,
}
use programmable_redfish_pro.Http.Url.{in_scheme, is_scheme, is_open, ends_authority, is_letter_lem}
use programmable_redfish_pro.Http.Swap.{
  sep, find_sep, span, is_ascii_alphabetic, is_scheme_byte, is_delimiter, scheme_len,
}
use programmable_redfish_pro.Http.Swap.Walk.{ℕ-cases, find_sep-some, find_sep-length, span-rest_le}
use programmable_redfish_pro.Http.Swap.Scan.{
  authorities, authorities_from, slashes, clean, clean_join, clean-none, clean-find_sep, clean_tail,
  clean_head, clean-scheme, clean-swap, find_sep-clean,
}
use programmable_redfish_pro.Http.Swap.Scan.Walked.{
  stops, span-front, scheme_len-context, scheme_len-scheme, scheme_len-letter,
}
use programmable_redfish_pro.Http.Swap.Scan.Runs.{is_apart-stops, all-in_scheme}

abbrev pub in_authority : ℕ → Bool
in_authority b = not (is_delimiter b)

-- A character before which no URL goes on.
unfoldable pub is_divider : ℕ → Bool
unfolding ends_authority lit
is_divider b = ends_authority b && not (b == b'/')

-- `Before front`: a URL that stands after this front is sure to be found.
pub data Before : Text → Type 0 where
  first : (front : Text) → clean front ≡ true → is_open front ≡ true → Before front
  divided : (front : Text) (d : ℕ) → is_divider d ≡ true → Before (front ++ d ∷ [])

-- What the walk reads at a URL: a scheme, and an authority to its end.
pub record IsUrl (scheme authority rest : Text) : Type 0 where
  pub scheme_whole : is_scheme scheme ≡ true
  pub inside : all in_authority authority ≡ true
  pub ended : stops in_authority rest ≡ true

is_scheme-parts :
    (scheme : Text)
    → is_scheme scheme ≡ true
    → (all is_scheme_byte scheme ≡ true) × ((n : ℕ) × (scheme_len scheme ≡ suc n))
unfolding is_scheme in_scheme
is_scheme-parts [] h = cc
is_scheme-parts (b ∷ s) h =
    let letter : is_ascii_alphabetic b ≡ true = sym (is_letter_lem b) ∙ ground (arith, h) in
    let rest : all in_scheme s ≡ true = ground (arith, h) in
    let tail : all is_scheme_byte s ≡ true = sym (all-in_scheme s) ∙ rest in
    let whole : all is_scheme_byte (b ∷ s) ≡ true = rw (letter, tail) refl in
    (whole, (length s, scheme_len-letter b s letter whole))

clean-with_scheme :
    (front scheme : Text)
    → clean front ≡ true
    → is_scheme scheme ≡ true
    → clean (front ++ scheme) ≡ true
unfolding is_scheme
clean-with_scheme front [] c h = cc
clean-with_scheme front (b ∷ s) c h =
    clean-swap front [] b s (ap clean (append-nil front) ∙ c) (is_scheme-parts (b ∷ s) h).0

divider_apart :
    (d : ℕ)
    → is_divider d ≡ true
    → (is_scheme_byte d ≡ false)
      × ((in_authority d ≡ false) × (((b':' == d) ≡ false) × ((b'/' == d) ≡ false)))
unfolding is_divider ends_authority lit
divider_apart d h = (ground arith, (ground arith, (ground arith, ground arith)))

slashes-divided :
    (front : Text) (d : ℕ) (t : Text)
    → (b'/' == d) ≡ false
    → slashes front ≡ false
    → slashes (front ++ d ∷ t) ≡ false
unfolding slashes
slashes-divided [] d [] n h = refl
slashes-divided [] d (y ∷ t) n h = rw n refl
slashes-divided (x ∷ []) d t n h = elim (Bool-cases (b'/' == x)) [
  | inl slash ↦ rw (slash, n) refl
  | inr other ↦ rw other refl
]
slashes-divided (x ∷ (y ∷ front)) d t n h = h

-- A divider and a scheme leave a clean text clean.
clean-divided :
    (front : Text) (d : ℕ) (t : Text)
    → (b':' == d) ≡ false
    → (b'/' == d) ≡ false
    → clean front ≡ true
    → clean t ≡ true
    → clean (front ++ d ∷ t) ≡ true
clean-divided [] d t colon slash h c = clean_join d t (rw colon refl) c
clean-divided (x ∷ front) d t colon slash h c =
    let here = clean_head x front h in
    let more = clean-divided front d t colon slash (clean_tail x front h) c in
    clean_join x (front ++ d ∷ t)
      (elim (Bool-cases (b':' == x)) [
        | inr other ↦ rw other refl
        | inl same ↦
            let none_here : slashes front ≡ false = rw same at here in
            rw (same, slashes-divided front d t slash none_here) refl
      ])
      more

-- The first `://` of a text is that of any longer text.
find_sep-append :
    (s t before after : Text)
    → find_sep s ≡ some (before, after)
    → find_sep (s ++ t) ≡ some (before, after ++ t)
find_sep-append s t before after h =
    ap find_sep
      (ap (λ (r : Text). r ++ t) (find_sep-some s h) ∙ append_assoc before (sep ++ after) t)
    ∙ find_sep-clean before (after ++ t) (clean-find_sep s before after h)

span-divided :
    (s : Text) (d : ℕ) (t : Text)
    → in_authority d ≡ false
    → (left : Text) × ((span in_authority (s ++ d ∷ t)).1 ≡ left ++ d ∷ t)
unfolding span
span-divided [] d t h = ([], rw h refl)
span-divided (x ∷ s) d t h = elim (Bool-cases (in_authority x)) [
  | inr stop ↦ (x ∷ s, rw stop refl)
  | inl go ↦ let (left, same) = span-divided s d t h in (left, rw go same)
]

-- The test holds of the authority of a URL that the walk finds, if it holds of all it finds.
module _ (p : Text → Bool) {scheme authority rest : Text} (url : IsUrl scheme authority rest) where
  abbrev link : Text
  link = scheme ++ (sep ++ (authority ++ rest))

  parts : (all is_scheme_byte scheme ≡ true) × ((n : ℕ) × (scheme_len scheme ≡ suc n))
  parts = is_scheme-parts scheme url.scheme_whole

  -- The next `://` is that of the URL.
  here :
      (fuel : ℕ) (front : Text)
      → clean (front ++ scheme) ≡ true
      → scheme_len (front ++ scheme) ≡ scheme_len scheme
      → all p (authorities_from (suc fuel) (front ++ link)) ≡ true
      → p authority ≡ true
  unfolding authorities_from
  here fuel front c same h =
      let (n, len) = parts.1 in
      let walked : authorities_from (suc fuel) ((front ++ scheme) ++ (sep ++ (authority ++ rest)))
          ≡ authority ∷ authorities_from fuel rest =
        rw
          (
            authorities_from,
            find_sep-clean (front ++ scheme) (authority ++ rest) c,
            same,
            len,
            span-front in_authority authority rest url.inside url.ended,
          )
          refl in
      let listed : all p (authority ∷ authorities_from fuel rest) ≡ true =
        ap (all p) (
          sym walked
          ∙ ap (authorities_from (suc fuel))
              (append_assoc front scheme (sep ++ (authority ++ rest))))
        ∙ h in
      ground (arith, listed)

  -- The walk gets to a URL after a divider.
  later :
      (fuel : ℕ) (front : Text) (d : ℕ)
      → is_divider d ≡ true
      → length front < fuel
      → all p (authorities_from fuel (front ++ d ∷ link)) ≡ true
      → p authority ≡ true
  unfolding authorities_from
  later zero front d divides enough h = elim enough [ ]
  later (suc fuel) front d divides enough h =
      let apart = divider_apart d divides in
      elim (Option-cases (find_sep front)) [
        | inl missed ↦
            let joined = append_assoc front (d ∷ []) scheme in
            here fuel (front ++ d ∷ [])
              (ap clean joined
                ∙ clean-divided front d scheme apart.1.1.0 apart.1.1.1 (clean-none front missed)
                    (clean-scheme scheme parts.0))
              (ap scheme_len joined ∙ scheme_len-context front scheme d apart.0)
              (ap (λ (t : Text). all p (authorities_from (suc fuel) t))
                  (append_assoc front (d ∷ []) link)
                ∙ h)
        | inr ((before, after), found) ↦
            let next = find_sep-append front (d ∷ link) before after found in
            let short = find_sep-length front before after found in
            elim (ℕ-cases (scheme_len before)) [
              | inl bare ↦
                  later fuel after d divides (omega (arith, short, enough))
                    (rw (authorities_from, next, bare) at h)
              | inr (n, len) ↦
                  let (left, same) = span-divided after d link apart.1.0 in
                  let le = span-rest_le (after ++ d ∷ link) in
                  let shorter : length left ≤ length after = omega (
                    arith,
                    le,
                    ap (λ (t : Text). length t) same,
                    length-append left (d ∷ link),
                    length-append after (d ∷ link),
                  ) in
                  let listed = rw (authorities_from, next, len) at h in
                  let more : all p (authorities_from fuel (span in_authority (after ++ d ∷ link)).1)
                      ≡ true =
                    ground (arith, listed) in
                  later fuel left d divides (omega (arith, short, enough, shorter))
                    (rw same at more)
            ]
      ]

  -- So it finds every URL that stands after such a front.
  pub all-authorities :
      (front : Text)
      → Before front
      → all p (authorities (front ++ link)) ≡ true
      → p authority ≡ true
  unfolding authorities is_open
  all-authorities _ (first front c open_front) h =
      here (length (front ++ link)) front (clean-with_scheme front scheme c url.scheme_whole)
        (scheme_len-scheme front scheme (sym (is_apart-stops (reverse front)) ∙ open_front) parts.0)
        h
  all-authorities _ (divided front d divides) h =
      let joined = append_assoc front (d ∷ []) link in
      later (suc (length ((front ++ d ∷ []) ++ link))) front d divides
        (omega (arith, length-append (front ++ d ∷ []) link, length-append front (d ∷ [])))
        (ap (λ (t : Text). all p (authorities_from (suc (length ((front ++ d ∷ []) ++ link))) t))
            (sym joined)
          ∙ h)
