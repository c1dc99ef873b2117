-- ===== src/Http/Swap/Total.antt =====
-- What `swap_authorities` of src/http.rs does to any text: it never slices out of bounds, it ends,
-- and it changes the URLs of a wanted authority, all of them, and nothing else.
use mathlib.Core.Path.{subst}
use mathlib.Core.List.{append_assoc}
use programmable_redfish_pro.Prelude.{
  ℕ, zero, suc, ◌-◌, ◌≤◌, ◌<◌, ◌≡◌, refl, sym, ap, ◌∙◌, Bool, true, false, not, Bool-cases,
  Option-cases, inl, inr, some, [], ◌++◌, Text, all, length, length-append, arith, le→leb,
  if◌then◌else◌,
}
use programmable_redfish_pro.Http.Url.{
  in_scheme, is_scheme, is_open, ends_authority, is_ended, ends_authority_lem, all-same,
}
use programmable_redfish_pro.Http.Swap.{
  sep, find_sep, span, is_delimiter, scheme_len, split_at, trim_end_slashes, swap_from,
  swap_authorities,
}
use programmable_redfish_pro.Http.Swap.Walk.{
  find_sep-some, span-append, span-Boundary, sep-Boundary, find_sep-length, span-rest_le, Boundary,
  at_start,
}
use programmable_redfish_pro.Http.Swap.Scan.{clean, clean-none, clean-find_sep}
use programmable_redfish_pro.Http.Swap.Scan.Walked.{scheme_len-Boundary, span-passes, span-stops}
use programmable_redfish_pro.Http.Swap.Scan.Runs.{
  is_ended-stops, LastRun, last_run, split_at-LastRun, length-is_scheme,
}

module _ (base : Text) (wanted : Text → Bool) where
  -- `Swapped s t`: the text `t` is `s` with `scheme://authority` replaced by the base in every URL of
  -- a wanted authority, and nothing else changed. At each `://` in turn, the bytes of a scheme before
  -- it are a scheme, or begin with no letter, and an authority goes on as far as it can.
  pub data Swapped : Text → Text → Type 0 where
    no_link : {s : Text} → clean s ≡ true → Swapped s s
    no_scheme :
        {s t : Text} (front run : Text)
        → clean (front ++ run) ≡ true
        → is_open front ≡ true
        → all in_scheme run ≡ true
        → is_scheme run ≡ false
        → Swapped s t
        → Swapped (front ++ (run ++ (sep ++ s))) (front ++ (run ++ (sep ++ t)))
    keep :
        {s t : Text} (front scheme authority : Text)
        → clean (front ++ scheme) ≡ true
        → is_open front ≡ true
        → is_scheme scheme ≡ true
        → all (λ b. not (ends_authority b)) authority ≡ true
        → is_ended s ≡ true
        → wanted authority ≡ false
        → Swapped s t
        → Swapped
            (front ++ (scheme ++ (sep ++ (authority ++ s))))
            (front ++ (scheme ++ (sep ++ (authority ++ t))))
    replace :
        {s t : Text} (front scheme authority : Text)
        → clean (front ++ scheme) ≡ true
        → is_open front ≡ true
        → is_scheme scheme ≡ true
        → all (λ b. not (ends_authority b)) authority ≡ true
        → is_ended s ≡ true
        → wanted authority ≡ true
        → Swapped s t
        → Swapped (front ++ (scheme ++ (sep ++ (authority ++ s)))) (front ++ (base ++ t))

abbrev in_authority : ℕ → Bool
in_authority b = not (is_delimiter b)

all-inside : (s : Text) → all in_authority s ≡ true → all (λ b. not (ends_authority b)) s ≡ true
all-inside s h =
    all-same (λ b. not (ends_authority b)) in_authority (λ b. ap not (ends_authority_lem b)) s ∙ h

module _ (base : Text) (wanted : Text → Bool) where
  -- What the loop gives, from any cursor that no scheme crosses, with as much fuel as there is text.
  record Outcome (fuel : ℕ) (seen rest : Text) : Type 0 where
    out : Text
    same : swap_from base wanted fuel seen rest ≡ some out
    swapped : Swapped base wanted rest out

  pass_over :
      (fuel : ℕ) (seen rest before after : Text)
      → Boundary seen rest
      → find_sep rest ≡ some (before, after)
      → (l : LastRun before) → is_scheme l.run ≡ false
      → Outcome fuel ((seen ++ before) ++ sep) after
      → Outcome (suc fuel) seen rest
  unfolding swap_from
  pass_over fuel seen rest before after at_cursor found l bare o =
      let whole = find_sep-some rest found in
      let alone = scheme_len-Boundary before after at_cursor whole in
      let no_len : scheme_len (seen ++ before) ≡ 0 = alone ∙ l.len ∙ rw bare refl in
      let apart : (t : Text) → before ++ t ≡ l.front ++ (l.run ++ t) =
        λ t. ap (λ (b : Text). b ++ t) l.parts ∙ append_assoc l.front l.run t in
      record {
        out = l.front ++ (l.run ++ (sep ++ o.out));
        same = rw (swap_from, found, no_len, o.same) (ap some (apart (sep ++ o.out)));
        swapped =
            subst (λ (r : Text). Swapped base wanted r (l.front ++ (l.run ++ (sep ++ o.out))))
              (sym (whole ∙ apart (sep ++ after)))
              (no_scheme l.front l.run
                (ap clean (sym l.parts) ∙ clean-find_sep rest before after found) l.apart l.in_run
                bare o.swapped);
      }

  -- The part of a text up to the end of an authority, with the authority swapped if it is wanted.
  Swapped-link :
      (front scheme authority : Text) {left more : Text}
      → clean (front ++ scheme) ≡ true
      → is_open front ≡ true
      → is_scheme scheme ≡ true
      → all (λ b. not (ends_authority b)) authority ≡ true
      → is_ended left ≡ true
      → Swapped base wanted left more
      → Swapped base wanted
          (front ++ (scheme ++ (sep ++ (authority ++ left))))
          (front ++ ((if wanted authority then base else scheme ++ (sep ++ authority)) ++ more))
  Swapped-link front scheme authority {left} {more} c open_front s inside ended w =
      elim (Bool-cases (wanted authority)) [
        | inl is_wanted ↦
            rw is_wanted (replace front scheme authority c open_front s inside ended is_wanted w)
        | inr not_wanted ↦
            rw (not_wanted, append_assoc scheme (sep ++ authority) more)
              (keep front scheme authority c open_front s inside ended not_wanted w)
      ]

  swap_link :
      (fuel : ℕ) (seen rest before after : Text)
      → Boundary seen rest
      → find_sep rest ≡ some (before, after)
      → (l : LastRun before) → is_scheme l.run ≡ true
      → Outcome fuel
          ((seen ++ before) ++ (sep ++ (span in_authority after).0))
          (span in_authority after).1
      → Outcome (suc fuel) seen rest
  unfolding swap_from
  swap_link fuel seen rest before after at_cursor found l link o =
      let whole = find_sep-some rest found in
      let ends = span in_authority after in
      let alone = scheme_len-Boundary before after at_cursor whole in
      let (n, some_run) = length-is_scheme l.run link in
      let len : scheme_len (seen ++ before) ≡ suc n = alone ∙ l.len ∙ rw link some_run in
      let le : suc n ≤ length before =
        omega (arith, some_run, ap (λ (s : Text). length s) l.parts, length-append l.front l.run) in
      let cut : split_at (length before - suc n) before ≡ (l.front, l.run) =
        ap (λ (k : ℕ). split_at (length before - k) before) (sym some_run) ∙ split_at-LastRun l in
      let input : rest ≡ l.front ++ (l.run ++ (sep ++ (ends.0 ++ ends.1))) =
        whole
        ∙ ap (λ (b : Text). b ++ (sep ++ after)) l.parts
        ∙ append_assoc l.front l.run (sep ++ after)
        ∙ ap (λ (a : Text). l.front ++ (l.run ++ (sep ++ a)))
            (sym (span-append in_authority after)) in
      let out = l.front ++ ((if wanted ends.0 then base else l.run ++ (sep ++ ends.0)) ++ o.out) in
      record {
        out = out;
        same = rw (swap_from, found, len, le→leb (suc n) (length before) le, o.same, cut) refl;
        swapped =
            subst (λ (r : Text). Swapped base wanted r out) (sym input)
              (Swapped-link l.front l.run ends.0
                (ap clean (sym l.parts) ∙ clean-find_sep rest before after found) l.apart link
                (all-inside ends.0 (span-passes in_authority after))
                (is_ended-stops ends.1 ∙ span-stops in_authority after) o.swapped);
      }

  swap_from_lem :
      (fuel : ℕ) (seen rest : Text)
      → Boundary seen rest
      → length rest < fuel
      → Outcome fuel seen rest
  unfolding swap_from
  swap_from_lem zero seen rest at_cursor h = elim h [ ]
  swap_from_lem (suc fuel) seen rest at_cursor h = elim (Option-cases (find_sep rest)) [
    | inl missed ↦ record {
      out = rest;
      same = rw (swap_from, missed) refl;
      swapped = no_link (clean-none rest missed);
    }
    | inr ((before, after), found) ↦
        let ends = span in_authority after in
        let short = find_sep-length rest before after found in
        let l = last_run before in
        elim (Bool-cases (is_scheme l.run)) [
          | inr bare ↦ pass_over fuel seen rest before after at_cursor found l bare (
              swap_from_lem fuel ((seen ++ before) ++ sep) after
                (sep-Boundary (seen ++ before) after) (omega (arith, short)))
          | inl link ↦ swap_link fuel seen rest before after at_cursor found l link (
              swap_from_lem fuel ((seen ++ before) ++ (sep ++ ends.0)) ends.1
                (span-Boundary ((seen ++ before) ++ (sep ++ ends.0)) after)
                (omega (arith, short, span-rest_le after)))
        ]
  ]

-- `swap_authorities` slices within bounds and ends, for every text. What it returns is the text with
-- `scheme://authority` replaced by the base without its last slashes in every URL of an authority
-- that is wanted, and nothing else changed: URLs are read from left to right, each from the end of
-- the authority before it.
pub swap_authorities_lem :
    (base text : Text) (wanted : Text → Bool)
    → (out : Text) × (swap_authorities base text wanted ≡ some out)
      × Swapped (trim_end_slashes base) wanted text out
unfolding swap_authorities
swap_authorities_lem base text wanted =
    let o =
      swap_from_lem (trim_end_slashes base) wanted (suc (length text)) [] text at_start
        (omega arith) in
    (o.out, o.same, o.swapped)
