-- ===== src/Http/Body/Clipped.antt =====
-- What is logged of a body.
use programmable_redfish_pro.Prelude.{
  ℕ, zero, suc, ◌≤◌, ◌≡◌, refl, sym, ◌∙◌, ◌⊎◌, inl, inr, true, false, Bool-cases, none, some, [],
  ◌∷◌, ◌++◌, Text, length, length-append, leb, arith, ap, if◌then◌else◌,
}
use programmable_redfish_pro.Http.Swap.{split_at}
use programmable_redfish_pro.Http.Swap.Walk.{split_at-append}
use programmable_redfish_pro.Http.Body.{is_char_boundary, clip_at, truncate_at}
use mathlib.Core.List.{append-nil}

clip_at-le : (body : Text) (n : ℕ) → clip_at body n ≤ n
unfolding clip_at
clip_at-le body zero = omega arith
clip_at-le body (suc n) = elim (Bool-cases (is_char_boundary body (suc n))) [
  | inl here ↦ rw here (omega arith)
  | inr inside ↦ rw inside (omega (arith, clip_at-le body n))
]

clip_at-boundary :
    (body : Text) (n : ℕ) → (is_char_boundary body (clip_at body n) ≡ true) ⊎ (clip_at body n ≡ 0)
unfolding clip_at
clip_at-boundary body zero = inr refl
clip_at-boundary body (suc n) = elim (Bool-cases (is_char_boundary body (suc n))) [
  | inl here ↦ rw here (inl here)
  | inr inside ↦ rw inside (clip_at-boundary body n)
]

length-split_at : (k : ℕ) (s : Text) → k ≤ length s → length (split_at k s).0 ≡ k
length-split_at zero s h = refl
length-split_at (suc k) [] h = elim h [ ]
length-split_at (suc k) (x ∷ s) h = omega (arith, length-split_at k s (omega arith))

-- The part of a body that is logged, and the part that is not.
pub record Clipping (cap : ℕ) (body : Text) : Type 0 where
  pub rest : Text
  pub parts : body ≡ (truncate_at cap body).0 ++ rest
  pub short : length (truncate_at cap body).0 ≤ cap
  pub reported :
      (truncate_at cap body).1 ≡ (if leb (length body) cap then none else some (length rest))
  pub whole_characters :
      (is_char_boundary body (length (truncate_at cap body).0) ≡ true)
      ⊎ (((truncate_at cap body).0 ≡ []) ⊎ (rest ≡ []))

empty_of_length : (s : Text) → length s ≡ 0 → s ≡ []
empty_of_length [] h = refl
empty_of_length (x ∷ s) h = ground arith

clip_at-boundary_of :
    (body : Text) (cap : ℕ) (kept : Text)
    → length kept ≡ clip_at body cap
    → (is_char_boundary body (length kept) ≡ true) ⊎ (kept ≡ [])
clip_at-boundary_of body cap kept e = elim (clip_at-boundary body cap) [
  | inl here ↦ inl (ap (λ (k : ℕ). is_char_boundary body k) e ∙ here)
  | inr start ↦ inr (empty_of_length kept (e ∙ start))
]

clipped : (cap : ℕ) (body : Text) → leb (length body) cap ≡ false → Clipping cap body
unfolding truncate_at
clipped cap body long =
    let fits : clip_at body cap ≤ length body = ground (arith, clip_at-le body cap) in
    let cut = length-split_at (clip_at body cap) body fits in
    let kept = (split_at (clip_at body cap) body).0 in
    let rest = (split_at (clip_at body cap) body).1 in
    let both = split_at-append (clip_at body cap) body in
    record {
      rest = rest;
      parts = rw (truncate_at, long) (sym both);
      short = rw (truncate_at, long) (omega (arith, cut, clip_at-le body cap));
      reported =
          rw (truncate_at, long)
            (ap some (
              omega (arith, cut, ap (λ (t : Text). length t) both, length-append kept rest, fits)));
      whole_characters =
          rw (truncate_at, long)
            (elim (clip_at-boundary_of body cap kept cut) [
              | inl here ↦ inl here
              | inr e ↦ inr (inl e)
            ]);
    }

uncut : (cap : ℕ) (body : Text) → leb (length body) cap ≡ true → Clipping cap body
unfolding truncate_at
uncut cap body fits = record {
  rest = [];
  parts = rw (truncate_at, fits) (sym (append-nil body));
  short = rw (truncate_at, fits) (ground arith);
  reported = rw (truncate_at, fits) refl;
  whole_characters = inr (inr refl);
}

-- The logged part of a body is the front of it, no longer than the limit, and ends between
-- characters unless it is empty or all of the body; a body that is longer than the limit is
-- reported with the number of bytes left out, and no other is.
pub truncate_at_lem : (cap : ℕ) (body : Text) → Clipping cap body
truncate_at_lem cap body = elim (Bool-cases (leb (length body) cap)) [
  | inl fits ↦ uncut cap body fits
  | inr long ↦ clipped cap body long
]
