-- ===== src/Routes/Choice.antt =====
-- Which script a request is given, in terms of the routes as they are declared: `choose_script`,
-- which is the middle of `handle` of src/proxy.rs.
use programmable_redfish_pro.Prelude.{
  ◌≡◌, refl, sym, ◌∙◌, ◌↔◌, Bool, true, false, ◌||◌, Bool-cases, Option-cases, Option, none, some,
  List, [], ◌∷◌, Text, any, leb, arith, inl, inr, Result, ok, err, err_ne_ok, ok_injective,
}
use programmable_redfish_pro.Routes.{
  Route, Router, RouteConfig, Globs, matches, matches_path, insert_route, sort_routes, find_route,
  read_routes, build, resolve, claims_path, ProxyError, method_not_allowed, choose_script,
}

any-insert_route :
    (p : Route → Bool) (r : Route) (l : List Route) → any p (insert_route r l) ≡ (p r || any p l)
unfolding insert_route
any-insert_route p r [] = refl
any-insert_route p r (s ∷ rest) = elim (Bool-cases (leb s.specificity r.specificity)) [
  | inl before ↦ rw before refl
  | inr after ↦ rw (after, any-insert_route p r rest) (ground arith)
]

any-sort_routes : (p : Route → Bool) (l : List Route) → any p (sort_routes l) ≡ any p l
unfolding sort_routes
any-sort_routes p [] = refl
any-sort_routes p (r ∷ rest) =
    any-insert_route p r (sort_routes rest) ∙ rw (any-sort_routes p rest) refl

find_route-none : (p : Route → Bool) (l : List Route) → any p l ≡ false → find_route p l ≡ none
unfolding find_route
find_route-none p [] h = refl
find_route-none p (r ∷ rest) h = elim (Bool-cases (p r)) [
  | inl hit ↦ cc (rw hit at h)
  | inr miss ↦ rw miss (find_route-none p rest (rw miss at h))
]

find_route-some :
    (p : Route → Bool) (l : List Route) → any p l ≡ true → (r : Route) × (find_route p l ≡ some r)
unfolding find_route
find_route-some p [] h = cc
find_route-some p (r ∷ rest) h = elim (Bool-cases (p r)) [
  | inl hit ↦ rw hit (r, refl)
  | inr miss ↦ rw miss (find_route-some p rest (rw miss at h))
]

-- The routes of a router that was built are those that were read, in another order.
any-build :
    (p : Route → Bool) (globs : Globs) (configs : List RouteConfig) {router : Router}
    (routes : List Route)
    → build globs configs ≡ ok router
    → read_routes globs configs ≡ ok routes
    → any p router.routes ≡ any p routes
unfolding build
any-build p globs configs routes built read =
    let same = ok_injective (rw read at built) in rw (← same) (any-sort_routes p routes)

-- What `choose_script` makes of a search and of the test whether a route claims the path.
abbrev pub chosen : Option Route → Bool → (default_script method : Text) → Result ProxyError Text
chosen (some route) claimed default_script method = ok route.script
chosen none true default_script method = err (method_not_allowed method)
chosen none false default_script method = ok default_script

pub choose_script-eq-chosen :
    (router : Router) (default_script method path : Text)
    → choose_script router default_script method path
      ≡ chosen
          (find_route (λ r. matches r method path) router.routes)
          (any (λ r. matches_path r path) router.routes)
          default_script
          method
unfolding choose_script resolve claims_path
choose_script-eq-chosen router default_script method path =
    elim (Option-cases (find_route (λ r. matches r method path) router.routes)) [
      | inl missed ↦ elim (Bool-cases (any (λ r. matches_path r path) router.routes)) [
        | inl claimed ↦ rw (choose_script, resolve, missed, claims_path, claimed) refl
        | inr unclaimed ↦ rw (choose_script, resolve, missed, claims_path, unclaimed) refl
      ]
      | inr (r, found) ↦ rw (choose_script, resolve, found) refl
    ]

chosen-refuses :
    (o : Option Route) (claimed : Bool) (default_script method : Text) (e : ProxyError)
    → chosen o claimed default_script method ≡ err e
    → (e ≡ method_not_allowed method) × (claimed ≡ true) × (o ≡ none)
chosen-refuses (some r) claimed default_script method e h = absurd (err_ne_ok (sym h))
chosen-refuses none true default_script method e h = (ground arith, refl, refl)
chosen-refuses none false default_script method e h = absurd (err_ne_ok (sym h))

module _ (globs : Globs) (configs : List RouteConfig) (router : Router) (routes : List Route)
    (default_script method path : Text) (built : build globs configs ≡ ok router)
    (read : read_routes globs configs ≡ ok routes) where
  refused :
      (e : ProxyError)
      → choose_script router default_script method path ≡ err e
      → (e ≡ method_not_allowed method)
        × (any (λ r. matches_path r path) routes ≡ true)
        × (any (λ r. matches r method path) routes ≡ false)
  refused e h =
      let matching = any-build (λ r. matches r method path) globs configs routes built read in
      let claiming = any-build (λ r. matches_path r path) globs configs routes built read in
      let whole = sym (choose_script-eq-chosen router default_script method path) ∙ h in
      let (same, claimed, missed) = chosen-refuses _ _ default_script method e whole in
      elim (Bool-cases (any (λ r. matches r method path) routes)) [
        | inl some_match ↦
            let (r, found) = find_route-some _ router.routes (matching ∙ some_match) in cc
        | inr no_match ↦ (same, sym claiming ∙ claimed, no_match)
      ]

  refuses :
      (e : ProxyError)
      → (e ≡ method_not_allowed method)
        × (any (λ r. matches_path r path) routes ≡ true)
        × (any (λ r. matches r method path) routes ≡ false)
      → choose_script router default_script method path ≡ err e
  refuses e (same, claimed, no_match) =
      let matching = any-build (λ r. matches r method path) globs configs routes built read in
      let claiming = any-build (λ r. matches_path r path) globs configs routes built read in
      let missed = find_route-none _ router.routes (matching ∙ no_match) in
      choose_script-eq-chosen router default_script method path
      ∙ rw (missed, claiming, claimed, same) refl

  -- Where the router was built from the declared routes, a request is refused a script exactly when
  -- some declared route has its path and none has its path and its method; the error then says that
  -- the method is not allowed.
  pub choose_script-eq-err_iff :
      (e : ProxyError)
      → (choose_script router default_script method path ≡ err e) ↔ (
          (e ≡ method_not_allowed method)
          × (any (λ r. matches_path r path) routes ≡ true)
          × (any (λ r. matches r method path) routes ≡ false))
  choose_script-eq-err_iff e = (refused e, refuses e)

matches-within :
    (r : Route) (method path : Text) → matches_path r path ≡ false → matches r method path ≡ false
unfolding matches
matches-within r method path h = rw h (ground arith)

none-matches :
    (method path : Text) (l : List Route)
    → any (λ r. matches_path r path) l ≡ false
    → any (λ r. matches r method path) l ≡ false
none-matches method path [] h = refl
none-matches method path (r ∷ rest) h = elim (Bool-cases (matches_path r path)) [
  | inl hit ↦ cc (rw hit at h)
  | inr miss ↦
      let rest_missed = rw miss at h in
      rw (matches-within r method path miss) (none-matches method path rest rest_missed)
]

-- A request whose path no declared route has is given the default script by a router that was built
-- from them.
pub choose_script-unclaimed :
    (globs : Globs) (configs : List RouteConfig) (router : Router) (routes : List Route)
    (default_script method path : Text)
    → build globs configs ≡ ok router
    → read_routes globs configs ≡ ok routes
    → any (λ r. matches_path r path) routes ≡ false
    → choose_script router default_script method path ≡ ok default_script
choose_script-unclaimed globs configs router routes default_script method path built read h =
    let matching = any-build (λ r. matches r method path) globs configs routes built read in
    let claiming = any-build (λ r. matches_path r path) globs configs routes built read in
    let missed = find_route-none _ router.routes (matching ∙ none-matches method path routes h) in
    choose_script-eq-chosen router default_script method path ∙ rw (missed, claiming, h) refl
