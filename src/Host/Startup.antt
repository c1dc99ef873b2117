-- ===== src/Host/Startup.antt =====
-- A proxy that has started has a script for every request.
use mathlib.Core.Path.{subst}
use programmable_redfish_pro.Prelude.{
  ◌≡◌, refl, sym, ap, ◌∙◌, Bool, true, false, Bool-cases, inl, inr, Option, none, some, List, [],
  ◌∷◌, Text, all, leb, arith, ok, err_ne_ok, ok_or, >>=-eq-ok, ok_injective,
}
use programmable_redfish_pro.Routes.{
  Globs, Route, Router, RouteConfig, insert_route, sort_routes, read_methods, read_route,
  read_routes, build, find_route, matches, choose_script,
}
use programmable_redfish_pro.Routes.Choice.{chosen, choose_script-eq-chosen}
use programmable_redfish_pro.Host.{
  Machine, Scripts, RuneConfig, has_unit, check_scripts, compile_dir, load_for,
}

all-insert_route :
    (p : Route → Bool) (r : Route) (l : List Route)
    → p r ≡ true
    → all p l ≡ true
    → all p (insert_route r l) ≡ true
unfolding insert_route
all-insert_route p r [] h k = ground (arith, h)
all-insert_route p r (s ∷ rest) h k = elim (Bool-cases (leb s.specificity r.specificity)) [
  | inl before ↦ rw (before, h) k
  | inr after ↦ rw after (ground (arith, all-insert_route p r rest h))
]

all-sort_routes :
    (p : Route → Bool) (l : List Route) → all p l ≡ true → all p (sort_routes l) ≡ true
unfolding sort_routes
all-sort_routes p [] h = refl
all-sort_routes p (r ∷ rest) h =
    let both : (p r ≡ true) × (all p rest ≡ true) = ground arith in
    all-insert_route p r (sort_routes rest) both.0 (all-sort_routes p rest both.1)

same_route : {r s : Route} → ◌≡◌ {A = Option Route} (some r) (some s) → r ≡ s
same_route h = cc

find_route-all :
    (p q : Route → Bool) (l : List Route) {r : Route}
    → all q l ≡ true
    → find_route p l ≡ some r
    → q r ≡ true
unfolding find_route
find_route-all p q [] a h = cc
find_route-all p q (s ∷ rest) {r} a h =
    let both : (q s ≡ true) × (all q rest ≡ true) = ground arith in
    elim (Bool-cases (p s)) [
      | inl hit ↦ subst (λ (t : Route). q t ≡ true) (same_route (rw (find_route, hit) at h)) both.0
      | inr miss ↦ find_route-all p q rest both.1 (rw (find_route, miss) at h)
    ]

read_route-script :
    (globs : Globs) (config : RouteConfig) {route : Route}
    → read_route globs config ≡ ok route
    → route.script ≡ config.script
unfolding read_route
read_route-script globs config h =
    let (matcher, compiled, h1) = >>=-eq-ok (ok_or _ (globs.compile_glob config.path)) _ h in
    let (methods, read, h2) = >>=-eq-ok (read_methods globs config.path config.method) _ h1 in
    sym (ap (λ (r : Route). r.script) (ok_injective h2))

all-read_routes :
    (globs : Globs) (p : Text → Bool) (configs : List RouteConfig) {routes : List Route}
    → all (λ c. p c.script) configs ≡ true
    → read_routes globs configs ≡ ok routes
    → all (λ r. p r.script) routes ≡ true
unfolding read_routes
all-read_routes globs p [] a h =
    subst (λ (l : List Route). all (λ r. p r.script) l ≡ true) (ok_injective h) refl
all-read_routes globs p (config ∷ configs) a h =
    let (route, one, h1) = >>=-eq-ok (read_route globs config) _ h in
    let (rest, more, h2) = >>=-eq-ok (read_routes globs configs) _ h1 in
    let both : (p config.script ≡ true) × (all (λ c. p c.script) configs ≡ true) = ground arith in
    let here : p route.script ≡ true = ap p (read_route-script globs config one) ∙ both.0 in
    let there = all-read_routes globs p configs both.1 more in
    subst (λ (l : List Route). all (λ r. p r.script) l ≡ true) (ok_injective h2) (rw here there)

module _ (machine : Machine) where
  checked :
      (scripts : Scripts machine) (routes : List RouteConfig)
      → check_scripts machine scripts routes ≡ ok tt
      → all (λ c. has_unit machine scripts c.script) routes ≡ true
  unfolding check_scripts
  checked scripts [] h = refl
  checked scripts (route ∷ routes) h = elim (Bool-cases (has_unit machine scripts route.script)) [
    | inl there ↦ rw there (checked scripts routes (rw (check_scripts, there) at h))
    | inr missing ↦ absurd (err_ne_ok (rw (check_scripts, missing) at h))
  ]

  record Loaded (rune : RuneConfig) (configs : List RouteConfig) (scripts : Scripts machine)
      : Type 0 where
    for_default : has_unit machine scripts rune.default_script ≡ true
    for_routes : all (λ c. has_unit machine scripts c.script) configs ≡ true

  loaded :
      (rune : RuneConfig) (configs : List RouteConfig) {dir : Option Text}
      {scripts : Scripts machine}
      → load_for machine rune configs ≡ ok (dir, scripts)
      → Loaded rune configs scripts
  unfolding load_for
  loaded rune configs {dir} {scripts} h = elim (Bool-cases (machine.is_dir rune.script_dir)) [
    | inr absent ↦ absurd (err_ne_ok (rw (load_for, absent) at h))
    | inl present ↦
        let (compiled, built, h1) =
          >>=-eq-ok (compile_dir machine rune.script_dir) _ (rw (load_for, present) at h) in
        elim (Bool-cases (has_unit machine compiled rune.default_script)) [
          | inr missing ↦ absurd (err_ne_ok (rw missing at h1))
          | inl found ↦
              let (u, all_there, h2) =
                >>=-eq-ok (check_scripts machine compiled configs) _ (rw found at h1) in
              let same : compiled ≡ scripts =
                ap (λ (p : Option Text × Scripts machine). p.1) (ok_injective h2) in
              subst (Loaded rune configs) same
                (record { for_default = found; for_routes = checked compiled configs all_there })
        ]
  ]

chosen-has :
    (p : Text → Bool) (o : Option Route) (claimed : Bool) (default_script method script : Text)
    → p default_script ≡ true
    → ((r : Route) → o ≡ some r → p r.script ≡ true)
    → chosen o claimed default_script method ≡ ok script
    → p script ≡ true
chosen-has p (some r) claimed default_script method script d each h =
    sym (ap p (ok_injective h)) ∙ each r refl
chosen-has p none true default_script method script d each h = absurd (err_ne_ok h)
chosen-has p none false default_script method script d each h = sym (ap p (ok_injective h)) ∙ d

-- Where the router was built and the scripts were loaded from one configuration, every script that
-- a request can be given is among the compiled ones.
pub load_for-choose_script :
    (machine : Machine) (globs : Globs) (rune : RuneConfig) (configs : List RouteConfig)
    (router : Router) (dir : Option Text) (scripts : Scripts machine) (method path script : Text)
    → build globs configs ≡ ok router
    → load_for machine rune configs ≡ ok (dir, scripts)
    → choose_script router rune.default_script method path ≡ ok script
    → has_unit machine scripts script ≡ true
unfolding build
load_for-choose_script machine globs rune configs router dir scripts method path script built load
      h =
    let l = loaded machine rune configs {dir = dir} {scripts = scripts} load in
    let (routes, read, same) = >>=-eq-ok (read_routes globs configs) _ built in
    let has = λ (s : Text). has_unit machine scripts s in
    let sorted =
      all-sort_routes (λ r. has r.script) routes
        (all-read_routes globs has configs l.for_routes read) in
    let each : all (λ r. has r.script) router.routes ≡ true =
      subst (λ (x : Router). all (λ r. has r.script) x.routes ≡ true) (ok_injective same) sorted in
    chosen-has has _ _ rune.default_script method script l.for_default
      (λ r found.
        find_route-all (λ x. matches x method path) (λ x. has x.script) router.routes each found)
      (sym (choose_script-eq-chosen router rune.default_script method path) ∙ h)
