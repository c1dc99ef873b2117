-- ===== src/Routes/Best.antt =====
-- The route that a router resolves to: the most specific match, and of several the first declared.
use programmable_redfish_pro.Prelude.{
  ℕ, ◌≤◌, ◌≡◌, refl, ◌∙◌, Bool, true, Bool-cases, Option-cases, le→leb, sym, Option, none, some,
  List, [], ◌∷◌, Text, leb, inl, inr, arith, if◌then◌else◌, ok, >>=-eq-ok, ok_injective,
}
use programmable_redfish_pro.Routes.{
  Route, Router, RouteConfig, Globs, matches, insert_route, sort_routes, find_route, read_routes,
  build, resolve,
}

-- The better of a route and what was found among those declared after it.
abbrev pub better : Route → Option Route → Option Route
better r none = some r
better r (some s) = if leb s.specificity r.specificity then some r else some s

-- The best match, in the order of declaration.
pub best : (Route → Bool) → List Route → Option Route
best p [] = none
best p (r ∷ rest) = if p r then better r (best p rest) else best p rest

abbrev NoneAbove : ℕ → List Route → Type 0
NoneAbove n [] = Unit
NoneAbove n (r ∷ rest) = (r.specificity ≤ n) × NoneAbove n rest

abbrev IsSorted : List Route → Type 0
IsSorted [] = Unit
IsSorted (r ∷ rest) = NoneAbove r.specificity rest × IsSorted rest

NoneAbove-mono : (m n : ℕ) (l : List Route) → m ≤ n → NoneAbove m l → NoneAbove n l
NoneAbove-mono m n [] h a = tt
NoneAbove-mono m n (r ∷ rest) h a = (omega (arith, a.0), NoneAbove-mono m n rest h a.1)

insert-NoneAbove :
    (n : ℕ) (r : Route) (l : List Route)
    → r.specificity ≤ n
    → NoneAbove n l
    → NoneAbove n (insert_route r l)
unfolding insert_route
insert-NoneAbove n r [] h a = (h, tt)
insert-NoneAbove n r (s ∷ rest) h a = elim (Bool-cases (leb s.specificity r.specificity)) [
  | inl before ↦ rw before (h, a)
  | inr after ↦ rw after (a.0, insert-NoneAbove n r rest h a.1)
]

insert-IsSorted : (r : Route) (l : List Route) → IsSorted l → IsSorted (insert_route r l)
unfolding insert_route
insert-IsSorted r [] o = (tt, tt)
insert-IsSorted r (s ∷ rest) o = elim (Bool-cases (leb s.specificity r.specificity)) [
  | inl before ↦
      let le : s.specificity ≤ r.specificity = ground arith in
      rw before ((le, NoneAbove-mono s.specificity r.specificity rest le o.0), o)
  | inr after ↦
      rw after
        (insert-NoneAbove s.specificity r rest (ground arith) o.0, insert-IsSorted r rest o.1)
]

sort-IsSorted : (l : List Route) → IsSorted (sort_routes l)
unfolding sort_routes
sort-IsSorted [] = tt
sort-IsSorted (r ∷ rest) = insert-IsSorted r (sort_routes rest) (sort-IsSorted rest)

found_le :
    (p : Route → Bool) (n : ℕ) (l : List Route) (s : Route)
    → NoneAbove n l
    → find_route p l ≡ some s
    → s.specificity ≤ n
unfolding find_route
found_le p n [] s a h = cc
found_le p n (r ∷ rest) s a h = elim (Bool-cases (p r)) [
  | inl hit ↦ ground (arith, a.0)
  | inr miss ↦ found_le p n rest s a.1 (rw miss at h)
]

-- A route is no worse than what is found among routes that are not above it.
better-find_route :
    (p : Route → Bool) (r : Route) (l : List Route)
    → NoneAbove r.specificity l
    → better r (find_route p l) ≡ some r
better-find_route p r l a = elim (Option-cases (find_route p l)) [
  | inl nothing ↦ rw nothing refl
  | inr (s, found) ↦
      let le : leb s.specificity r.specificity ≡ true =
        le→leb s.specificity r.specificity (found_le p r.specificity l s a found) in
      rw (found, le) refl
]

-- Searching a sorted list that a route was put into.
find-insert_route :
    (p : Route → Bool) (r : Route) (l : List Route)
    → IsSorted l
    → find_route p (insert_route r l) ≡ (if p r then better r (find_route p l) else find_route p l)
unfolding find_route insert_route
find-insert_route p r [] o = refl
find-insert_route p r (s ∷ rest) o = elim (Bool-cases (leb s.specificity r.specificity)) [
  | inl before ↦ elim (Bool-cases (p r)) [
    | inl hit ↦
        let le : s.specificity ≤ r.specificity = ground arith in
        let above : NoneAbove r.specificity (s ∷ rest) =
          (le, NoneAbove-mono s.specificity r.specificity rest le o.0) in
        let whole = better-find_route p r (s ∷ rest) above in rw (before, hit) (sym whole)
    | inr miss ↦ rw (before, miss) refl
  ]
  | inr after ↦ elim (Bool-cases (p s)) [
    | inl found ↦ elim (Bool-cases (p r)) [
      | inl hit ↦ rw (after, found, hit, after) refl
      | inr miss ↦ rw (after, found, miss) refl
    ]
    | inr other ↦ rw (after, other) (find-insert_route p r rest o.1)
  ]
]

find-sort_routes : (p : Route → Bool) (l : List Route) → find_route p (sort_routes l) ≡ best p l
unfolding sort_routes best find_route
find-sort_routes p [] = refl
find-sort_routes p (r ∷ rest) =
    find-insert_route p r (sort_routes rest) (sort-IsSorted rest)
    ∙ rw (find-sort_routes p rest) refl

-- A router that was built resolves a request to the best match among the routes as they are declared:
-- the most specific, and of several such the first.
pub resolve-build :
    (globs : Globs) (configs : List RouteConfig) (router : Router) (method path : Text)
    → build globs configs ≡ ok router
    → (routes : List Route) × (read_routes globs configs ≡ ok routes)
      × (resolve router method path ≡ best (λ r. matches r method path) routes)
unfolding build resolve
resolve-build globs configs router method path h =
    let (routes, read, same) = >>=-eq-ok (read_routes globs configs) _ h in
    (routes, read, rw (← ok_injective same) (find-sort_routes (λ r. matches r method path) routes))
