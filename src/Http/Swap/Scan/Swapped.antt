-- ===== src/Http/Swap/Scan/Swapped.antt =====
-- What `swap_authorities` of src/http.rs makes of the URLs of a text.
use mathlib.Core.List.{append_assoc, reverse}
use programmable_redfish_pro.Prelude.{
  ℕ, zero, suc, ◌-◌, ◌≤◌, ◌<◌, ◌≡◌, refl, sym, ◌∙◌, ap, Bool, true, Bool-cases, Option-cases, inl,
  inr, none, some, List, [], ◌∷◌, ◌++◌, map, Text, all, length, length-append, le→leb,
  if◌then◌else◌, arith,
}
use programmable_redfish_pro.Http.Swap.{
  sep, find_sep, span, is_ascii_alphabetic, is_scheme_byte, scheme_len, split_at, trim_end_slashes,
  swap_from, swap_authorities,
}
use programmable_redfish_pro.Http.Swap.Walk.{
  find_sep-some, span-append, scheme_len-le, split_at-append, span-Boundary, sep-Boundary, ℕ-cases,
  find_sep-length, span-rest_le, Boundary, at_start,
}
use programmable_redfish_pro.Http.Swap.Scan.{
  authorities_from, authorities, clean, clean-find_sep, clean-swap,
}
use programmable_redfish_pro.Http.Swap.Scan.Walked.{
  stops, span-passes, span-stops, scheme_len-scheme, scheme_len-Boundary, split_at-stops,
  scheme_len-letter,
}
use programmable_redfish_pro.Http.Swap.Scan.Steps.{
  in_authority, scan-link, scan-bare, stops-front, stops-kept,
}

module _ (b : ℕ) (s authority : Text) (wanted : Text → Bool) (letter : is_ascii_alphabetic b ≡ true)
    (in_scheme : all is_scheme_byte (b ∷ s) ≡ true)
    (no_delimiter : all in_authority authority ≡ true) where
  abbrev base_of : Text
  base_of = (b ∷ s) ++ (sep ++ authority)

  abbrev rebased : Text → Text
  rebased a = if wanted a then authority else a

  record Rescan (fuel : ℕ) (seen rest : Text) : Type 0 where
    out : Text
    same : swap_from base_of wanted fuel seen rest ≡ some out
    begins : stops in_authority rest ≡ true → stops in_authority out ≡ true
    scanned :
        (enough : ℕ)
        → length out ≤ enough
        → authorities_from (suc enough) out ≡ map rebased (authorities_from fuel rest)

  Rescan-none : (fuel : ℕ) (seen rest : Text) → find_sep rest ≡ none → Rescan (suc fuel) seen rest
  unfolding swap_from authorities_from
  Rescan-none fuel seen rest missed = record {
    out = rest;
    same = rw (swap_from, missed) refl;
    begins = λ h. h;
    scanned = λ enough h. rw (authorities_from, missed) refl;
  }

  Rescan-bare :
      (fuel : ℕ) (seen rest before after : Text)
      → find_sep rest ≡ some (before, after)
      → scheme_len (seen ++ before) ≡ 0
      → scheme_len before ≡ 0
      → Rescan fuel ((seen ++ before) ++ sep) after
      → Rescan (suc fuel) seen rest
  unfolding swap_from
  Rescan-bare fuel seen rest before after found bare bare' o =
      let whole = find_sep-some rest found in
      let c = clean-find_sep rest before after found in
      record {
        out = before ++ (sep ++ o.out);
        same = rw (swap_from, found, bare, o.same) refl;
        begins = λ h. stops-front before o.out after ∙ (ap (stops in_authority) (sym whole) ∙ h);
        scanned = λ enough h.
            let more : length o.out ≤ enough - 1 =
              omega (arith, h, length-append before (sep ++ o.out)) in
            let again : enough ≡ suc (enough - 1) =
              omega (arith, h, length-append before (sep ++ o.out)) in
            scan-bare before o.out enough c bare'
            ∙ ap (λ (k : ℕ). authorities_from k o.out) again
            ∙ o.scanned (enough - 1) more
            ∙ ap (map rebased) (
                sym (ap (authorities_from (suc fuel)) whole ∙ scan-bare before after fuel c bare'));
      }

  -- What stands for a URL in the result: a front, and an authority after it.
  record Link (kept scheme found : Text) : Type 0 where
    front : Text
    n : ℕ
    is_clean : clean front ≡ true
    has_scheme : scheme_len front ≡ suc n
    inside : all in_authority (rebased found) ≡ true
    text :
        (more : Text)
        → kept ++ ((if wanted found then base_of else scheme ++ (sep ++ found)) ++ more)
          ≡ front ++ (sep ++ (rebased found ++ more))

  Link-of :
      (kept scheme found : Text) (n : ℕ)
      → clean (kept ++ scheme) ≡ true
      → scheme_len (kept ++ scheme) ≡ suc n
      → stops is_scheme_byte (reverse kept) ≡ true
      → all in_authority found ≡ true
      → Link kept scheme found
  Link-of kept scheme found n c link h inside = elim (Bool-cases (wanted found)) [
    | inr not_wanted ↦ record {
      front = kept ++ scheme;
      n = n;
      is_clean = c;
      has_scheme = link;
      inside = rw not_wanted inside;
      text = λ more.
          rw (not_wanted, append_assoc scheme (sep ++ found) more)
            (sym (append_assoc kept scheme (sep ++ (found ++ more))));
    }
    | inl is_wanted ↦ record {
      front = kept ++ b ∷ s;
      n = length s;
      is_clean = clean-swap kept scheme b s c in_scheme;
      has_scheme =
          scheme_len-scheme kept (b ∷ s) h in_scheme ∙ scheme_len-letter b s letter in_scheme;
      inside = rw is_wanted no_delimiter;
      text = λ more.
          rw (is_wanted, append_assoc s (sep ++ authority) more)
            (sym (append_assoc kept (b ∷ s) (sep ++ (authority ++ more))));
    }
  ]

  Rescan-link :
      (fuel : ℕ) (seen rest before after : Text) (n : ℕ)
      → find_sep rest ≡ some (before, after)
      → scheme_len (seen ++ before) ≡ suc n
      → scheme_len before ≡ suc n
      → suc n ≤ length before
      → Rescan fuel
          ((seen ++ before) ++ (sep ++ (span in_authority after).0))
          (span in_authority after).1
      → Rescan (suc fuel) seen rest
  unfolding swap_from
  Rescan-link fuel seen rest before after n found link link' le o =
      let whole = find_sep-some rest found in
      let parts = split_at (length before - suc n) before in
      let ends = span in_authority after in
      let both = split_at-append (length before - suc n) before in
      let c : clean (parts.0 ++ parts.1) ≡ true =
        ap clean both ∙ clean-find_sep rest before after found in
      let l =
        Link-of parts.0 parts.1 ends.0 n c (ap scheme_len both ∙ link')
          (split_at-stops before n link') (span-passes in_authority after) in
      let next = o.begins (span-stops in_authority after) in
      let made =
        parts.0 ++ ((if wanted ends.0 then base_of else parts.1 ++ (sep ++ ends.0)) ++ o.out) in
      let input : rest ≡ before ++ (sep ++ (ends.0 ++ ends.1)) =
        whole ∙ ap (λ (t : Text). before ++ (sep ++ t)) (sym (span-append in_authority after)) in
      record {
        out = made;
        same = rw (swap_from, found, link, le→leb (suc n) (length before) le, o.same) refl;
        begins = λ h.
            stops-kept seen before (sep ++ after) _ n link le
              (ap (stops in_authority) (sym whole) ∙ h);
        scanned = λ enough h.
            let lengths = ap (λ (t : Text). length t) (l.text o.out) in
            let sum = length-append l.front (sep ++ (rebased ends.0 ++ o.out)) in
            let sum' = length-append (rebased ends.0) o.out in
            let fits : length o.out ≤ enough - 1 = omega (arith, h, lengths, sum, sum') in
            let again : enough ≡ suc (enough - 1) = omega (arith, h, lengths, sum, sum') in
            ap (authorities_from (suc enough)) (l.text o.out)
            ∙ scan-link l.front (rebased ends.0) o.out enough l.n l.is_clean l.has_scheme l.inside
                next
            ∙ ap (λ (k : ℕ). rebased ends.0 ∷ authorities_from k o.out) again
            ∙ ap (λ (t : List Text). rebased ends.0 ∷ t) (o.scanned (enough - 1) fits)
            ∙ ap (map rebased) (
                sym (
                  ap (authorities_from (suc fuel)) input
                  ∙ scan-link before ends.0 ends.1 fuel n (clean-find_sep rest before after found)
                      link' (span-passes in_authority after) (span-stops in_authority after)));
      }

  rescan :
      (fuel : ℕ) (seen rest : Text)
      → Boundary seen rest
      → length rest < fuel
      → Rescan fuel seen rest
  rescan zero seen rest at_cursor h = elim h [ ]
  rescan (suc fuel) seen rest at_cursor h = elim (Option-cases (find_sep rest)) [
    | inl missed ↦ Rescan-none fuel seen rest missed
    | inr ((before, after), found) ↦
        let cut = find_sep-some rest found in
        let ends = span in_authority after in
        let short = find_sep-length rest before after found in
        let alone = scheme_len-Boundary before after at_cursor cut in
        elim (ℕ-cases (scheme_len (seen ++ before))) [
          | inl bare ↦ Rescan-bare fuel seen rest before after found bare (sym alone ∙ bare) (
              rescan fuel ((seen ++ before) ++ sep) after (sep-Boundary (seen ++ before) after)
                (omega (arith, short)))
          | inr (n, link) ↦
              let le = scheme_len-le before after at_cursor cut in
              let fits : suc n ≤ length before = omega (arith, le, link) in
              Rescan-link fuel seen rest before after n found link (sym alone ∙ link) fits (
                rescan fuel ((seen ++ before) ++ (sep ++ ends.0)) ends.1
                  (span-Boundary ((seen ++ before) ++ (sep ++ ends.0)) after)
                  (omega (arith, short, span-rest_le after)))
        ]
  ]

-- The base is a scheme and an authority. The URLs of the result, as `authorities` reads them, are then
-- those of the text, in turn:
-- each with a wanted authority has the base's authority instead, each other has the one it had.
pub authorities-swap_authorities :
    (base text : Text) (wanted : Text → Bool) (b : ℕ) (s authority : Text)
    → trim_end_slashes base ≡ (b ∷ s) ++ (sep ++ authority)
    → is_ascii_alphabetic b ≡ true
    → all is_scheme_byte (b ∷ s) ≡ true
    → all in_authority authority ≡ true
    → (out : Text) × (swap_authorities base text wanted ≡ some out)
      × (authorities out ≡ map (λ a. if wanted a then authority else a) (authorities text))
unfolding swap_authorities authorities
authorities-swap_authorities base text wanted b s authority e letter in_scheme no_delimiter =
    let o =
      rescan b s authority wanted letter in_scheme no_delimiter (suc (length text)) [] text at_start
        (omega arith) in
    (
      o.out,
      ap (λ (t : Text). swap_from t wanted (suc (length text)) [] text) e ∙ o.same,
      o.scanned (length o.out) (omega arith),
    )
