-- ===== src/Bmc/Segment.antt =====
-- What `last_segment` reads from a link.
use mathlib.Core.List.{reverse, reverse-append, reverse-reverse, reverse-cons}
use programmable_redfish_pro.Prelude.{
  ℕ, ◌≡◌, ◌≢◌, refl, sym, ap, ◌∙◌, ◌⊎◌, inl, inr, Bool, true, not, Bool-cases, Option-cases, Option,
  none, some, [], ◌∷◌, ◌++◌, Text, all, ◌==◌, ==_iff, arith,
}
use programmable_redfish_pro.Http.Swap.{span, trim_end_slashes}
use programmable_redfish_pro.Http.Swap.Walk.{span-append}
use programmable_redfish_pro.Http.Rewrite.{rsplit_once}
use programmable_redfish_pro.Bmc.{after_last_slash, filter_non_empty, last_segment}

abbrev pub is_slash : ℕ → Bool
is_slash b = b == b'/'

all-append : (p : ℕ → Bool) (s t : Text) → all p s ≡ true → all p t ≡ true → all p (s ++ t) ≡ true
all-append p [] t h k = k
all-append p (x ∷ s) t h k = ground (arith, all-append p s t)

all-reverse : (p : ℕ → Bool) (s : Text) → all p s ≡ true → all p (reverse s) ≡ true
all-reverse p [] h = refl
all-reverse p (x ∷ s) h =
    let both : (p x ≡ true) × (all p s ≡ true) = ground arith in
    let one : all p (x ∷ []) ≡ true = ground (arith, both.0) in
    rw (reverse-cons x s) (all-append p (reverse s) (x ∷ []) (all-reverse p s both.1) one)

span-all : (p : ℕ → Bool) (s : Text) → all p (span p s).0 ≡ true
unfolding span
span-all p [] = refl
span-all p (x ∷ s) = elim (Bool-cases (p x)) [
  | inl passes ↦ rw (passes, passes) (span-all p s)
  | inr fails ↦ rw fails refl
]

-- A text is what is left of it without its last slashes, and slashes.
record Trimmed (s : Text) : Type 0 where
  slashes : Text
  parts : s ≡ trim_end_slashes s ++ slashes
  only_slashes : all is_slash slashes ≡ true

trimmed : (s : Text) → Trimmed s
unfolding trim_end_slashes
trimmed s =
    let cut = span is_slash (reverse s) in
    record {
      slashes = reverse cut.0;
      parts =
          sym (reverse-reverse s)
          ∙ ap (λ (t : Text). reverse t) (sym (span-append is_slash (reverse s)))
          ∙ reverse-append cut.0 cut.1;
      only_slashes = all-reverse is_slash cut.0 (span-all is_slash (reverse s));
    }

-- A text is what stands before and in its last segment.
pub record LastPart (s last : Text) : Type 0 where
  pub front : Text
  pub parts : s ≡ front ++ last
  pub no_slash : all (λ b. not (is_slash b)) last ≡ true
  pub at_slash : (front ≡ []) ⊎ ((f : Text) × (front ≡ f ++ b'/' ∷ []))

no_last_slash : (s : Text) → rsplit_once b'/' s ≡ none → all (λ b. not (is_slash b)) s ≡ true
unfolding rsplit_once
no_last_slash [] h = refl
no_last_slash (x ∷ s) h = elim (Option-cases (rsplit_once b'/' s)) [
  | inl missed ↦ elim (Bool-cases (x == b'/')) [
    | inl slash ↦ cc (rw (rsplit_once, missed, slash) at h)
    | inr other ↦ rw other (no_last_slash s missed)
  ]
  | inr (found, e) ↦ cc (rw (rsplit_once, e) at h)
]

some_pair :
    {a b c d : Text}
    → ◌≡◌ {A = Option (Text × Text)} (some (a, b)) (some (c, d))
    → (a ≡ c) × (b ≡ d)
some_pair h = ground arith

split_at_last :
    (s f b : Text)
    → rsplit_once b'/' s ≡ some (f, b)
    → (s ≡ (f ++ b'/' ∷ []) ++ b) × (all (λ c. not (is_slash c)) b ≡ true)
unfolding rsplit_once
split_at_last [] f b h = cc
split_at_last (x ∷ s) f b h = elim (Option-cases (rsplit_once b'/' s)) [
  | inl missed ↦ elim (Bool-cases (x == b'/')) [
    | inl slash ↦
        let (no_front, back) = some_pair (rw (rsplit_once, missed, slash) at h) in
        let same : x ≡ b'/' = (==_iff x b'/').0 slash in
        rw (← no_front, ← back) (ap (λ (y : ℕ). y ∷ s) same, no_last_slash s missed)
    | inr other ↦ cc (rw (rsplit_once, missed, other) at h)
  ]
  | inr ((f', b'), e) ↦
      let (front, back) = some_pair (rw (rsplit_once, e) at h) in
      let (parts, clean) = split_at_last s f' b' e in rw (← front, ← back) (ap (◌∷◌ x) parts, clean)
]

after_last_slash_lem : (s : Text) → LastPart s (after_last_slash s)
unfolding after_last_slash
after_last_slash_lem s = elim (Option-cases (rsplit_once b'/' s)) [
  | inl missed ↦ record {
    front = [];
    parts = rw (after_last_slash, missed) refl;
    no_slash = rw (after_last_slash, missed) (no_last_slash s missed);
    at_slash = inl refl;
  }
  | inr ((f, b), found) ↦
      let (parts, clean) = split_at_last s f b found in
      record {
        front = f ++ b'/' ∷ [];
        parts = rw (after_last_slash, found) parts;
        no_slash = rw (after_last_slash, found) clean;
        at_slash = inr (f, refl);
      }
]

non_empty : (t : Text) {s : Text} → filter_non_empty t ≡ some s → (t ≡ s) × (s ≢ [])
non_empty [] h = cc
non_empty (x ∷ t) {s} h = let same : x ∷ t ≡ s = cc in (same, λ e. cc)

-- The segment of a link, with what stands before and after it.
pub record SegmentOf (id segment : Text) : Type 0 where
  pub front : Text
  pub slashes : Text
  pub parts : id ≡ (front ++ segment) ++ slashes
  pub some_bytes : segment ≢ []
  pub no_slash : all (λ b. not (is_slash b)) segment ≡ true
  pub at_slash : (front ≡ []) ⊎ ((f : Text) × (front ≡ f ++ b'/' ∷ []))
  pub only_slashes : all is_slash slashes ≡ true

-- What `last_segment` reads is not empty and has no slash; it stands at the start of the link or
-- after a slash, and nothing but slashes follow it.
pub last_segment_lem : (id segment : Text) → last_segment id ≡ some segment → SegmentOf id segment
unfolding last_segment
last_segment_lem id segment h =
    let t = trimmed id in
    let (same, full) = non_empty (after_last_slash (trim_end_slashes id)) h in
    let l = after_last_slash_lem (trim_end_slashes id) in
    record {
      front = l.front;
      slashes = t.slashes;
      parts =
          t.parts
          ∙ ap (λ (s : Text). s ++ t.slashes) (l.parts ∙ ap (λ (s : Text). l.front ++ s) same);
      some_bytes = full;
      no_slash = rw (← same) l.no_slash;
      at_slash = l.at_slash;
      only_slashes = t.only_slashes;
    }
