-- ===== src/Http/Swap/Scan/Steps.antt =====
-- One step of the reading of the URLs of a text that `swap_authorities` of src/http.rs rewrites.
use programmable_redfish_pro.Prelude.{
  ℕ, suc, ◌-◌, ◌≤◌, ◌≡◌, refl, Bool, true, not, [], ◌∷◌, ◌++◌, Text, all, length, arith,
}
use programmable_redfish_pro.Http.Swap.{sep, is_delimiter, scheme_len, split_at}
use programmable_redfish_pro.Http.Swap.Walk.{scheme_len-cut, delimiter_apart}
use programmable_redfish_pro.Http.Swap.Scan.{authorities_from, clean, find_sep-clean}
use programmable_redfish_pro.Http.Swap.Scan.Walked.{stops, span-front}

abbrev pub in_authority : ℕ → Bool
in_authority b = not (is_delimiter b)

-- One URL of a text, and those after it.
pub scan-link :
    (front authority more : Text) (fuel m : ℕ)
    → clean front ≡ true
    → scheme_len front ≡ suc m
    → all in_authority authority ≡ true
    → stops in_authority more ≡ true
    → authorities_from (suc fuel) (front ++ (sep ++ (authority ++ more)))
      ≡ authority ∷ authorities_from fuel more
unfolding authorities_from
scan-link front authority more fuel m c link a h =
    rw
      (
        authorities_from,
        find_sep-clean front (authority ++ more) c,
        link,
        span-front in_authority authority more a h,
      )
      refl

pub scan-bare :
    (front more : Text) (fuel : ℕ)
    → clean front ≡ true
    → scheme_len front ≡ 0
    → authorities_from (suc fuel) (front ++ (sep ++ more)) ≡ authorities_from fuel more
unfolding authorities_from
scan-bare front more fuel c bare = rw (authorities_from, find_sep-clean front more c, bare) refl

pub stops-front :
    (before s t : Text)
    → stops in_authority (before ++ (sep ++ s)) ≡ stops in_authority (before ++ (sep ++ t))
unfolding stops
stops-front [] s t = refl
stops-front (x ∷ before) s t = refl

-- The front of a text up to a scheme begins as the text does, where that is with a delimiter.
pub stops-kept :
    (seen before s t : Text) (n : ℕ)
    → scheme_len (seen ++ before) ≡ suc n
    → suc n ≤ length before
    → stops in_authority (before ++ s) ≡ true
    → stops in_authority ((split_at (length before - suc n) before).0 ++ t) ≡ true
unfolding stops
stops-kept seen [] s t n link le h = elim le [ ]
stops-kept seen (x ∷ before) s t n link le h =
    let delimiter : is_delimiter x ≡ true = ground arith in
    let short = scheme_len-cut seen before x (delimiter_apart x delimiter) in
    let some_kept : length (x ∷ before) - suc n ≡ suc (length before - suc n) =
      omega (arith, short, link) in
    rw (some_kept, delimiter) refl
