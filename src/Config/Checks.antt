-- ===== src/Config/Checks.antt =====
-- Which configurations are accepted.
use programmable_redfish_pro.Prelude.{
  ℕ, suc, ◌+◌, ◌≤◌, ◌≡◌, refl, ap, ◌↔◌, ◌⊎◌, inl, inr, Bool-cases, Option-cases, Bool, true, false,
  Option, none, some, List, [], ◌∷◌, Text, text_eq, text_eq_iff, text_eq_refl, text_lt, ltb, arith,
  if◌then◌else◌, ok, >>=-eq-ok, err_ne_ok,
}
use programmable_redfish_pro.Routes.{RouteConfig}
use programmable_redfish_pro.Config.{
  Config, count_of, put_count, count_paths, find_repeated, check_routes, check_base, check_tls,
  validate,
}

-- How many routes have a path.
pub occurrences : Text → List RouteConfig → ℕ
occurrences path [] = 0
occurrences path (r ∷ routes) = (if text_eq r.path path then 1 else 0) + occurrences path routes

-- No path is given twice.
abbrev pub HasDistinctPaths : List RouteConfig → Type 0
HasDistinctPaths routes = (path : Text) → occurrences path routes ≤ 1

abbrev pub is_given : Option Text → Bool
is_given none = false
is_given (some path) = true

-- What a configuration must have to be accepted.
pub record IsAcceptable (config : Config) : Type 0 where
  pub distinct : HasDistinctPaths config.route
  pub bare : (config.base_path ≡ []) ⊎ (config.base_path ≡ b'/' ∷ [])
  pub paired : is_given config.tls.cert_path ≡ is_given config.tls.key_path

count_of-put_count :
    (p path : Text) (n : ℕ) (seen : List (Text × ℕ))
    → count_of p (put_count path n seen) ≡ (if text_eq path p then n else count_of p seen)
unfolding count_of put_count
count_of-put_count p path n [] = refl
count_of-put_count p path n ((q, k) ∷ seen) = elim (Bool-cases (text_eq q path)) [
  | inl same ↦
      let e = (text_eq_iff q path).0 same in
      rw (same, e) (elim (Bool-cases (text_eq path p)) [ inl h ↦ rw h refl | inr h ↦ rw h refl ])
  | inr other ↦ elim (Bool-cases (text_lt path q)) [
    | inl before ↦ rw (other, before) refl
    | inr after ↦
        rw (other, after, count_of-put_count p path n seen)
          (ground (arith, text_eq_iff q p, text_eq_iff path p, text_eq_iff q path))
  ]
]

count_of-count_paths :
    (p : Text) (seen : List (Text × ℕ)) (routes : List RouteConfig)
    → count_of p (count_paths seen routes) ≡ count_of p seen + occurrences p routes
unfolding count_paths occurrences
count_of-count_paths p seen [] = omega arith
count_of-count_paths p seen (r ∷ routes) =
    let rest = count_of-count_paths p (put_count r.path (suc (count_of r.path seen)) seen) routes in
    let put = count_of-put_count p r.path (suc (count_of r.path seen)) seen in
    elim (Bool-cases (text_eq r.path p)) [
      | inl same ↦
          let e : count_of r.path seen ≡ count_of p seen =
            ap (λ (q : Text). count_of q seen) ((text_eq_iff r.path p).0 same) in
          rw same (omega (arith, rest, rw same at put, e))
      | inr other ↦ rw other (omega (arith, rest, rw other at put))
    ]

abbrev AllSingle : List (Text × ℕ) → Type 0
AllSingle [] = Unit
AllSingle ((p, n) ∷ seen) = (n ≤ 1) × AllSingle seen

none-AllSingle : (seen : List (Text × ℕ)) → find_repeated seen ≡ none → AllSingle seen
unfolding find_repeated
none-AllSingle [] h = tt
none-AllSingle ((p, n) ∷ seen) h = elim (Bool-cases (ltb 1 n)) [
  | inl twice ↦ cc (rw twice at h)
  | inr once ↦ (ground arith, none-AllSingle seen (rw once at h))
]

AllSingle-none : (seen : List (Text × ℕ)) → AllSingle seen → find_repeated seen ≡ none
unfolding find_repeated
AllSingle-none [] a = refl
AllSingle-none ((p, n) ∷ seen) a =
    let once : ltb 1 n ≡ false = ground (arith, a.0) in rw once (AllSingle-none seen a.1)

count_of-le : (p : Text) (seen : List (Text × ℕ)) → AllSingle seen → count_of p seen ≤ 1
unfolding count_of
count_of-le p [] a = omega arith
count_of-le p ((q, n) ∷ seen) a = elim (Bool-cases (text_eq q p)) [
  | inl same ↦ rw same a.0
  | inr other ↦ rw other (count_of-le p seen a.1)
]

put_count-AllSingle :
    (path : Text) (n : ℕ) (seen : List (Text × ℕ))
    → n ≤ 1
    → AllSingle seen
    → AllSingle (put_count path n seen)
unfolding put_count
put_count-AllSingle path n [] h a = (h, tt)
put_count-AllSingle path n ((q, k) ∷ seen) h a = elim (Bool-cases (text_eq q path)) [
  | inl same ↦ rw same (h, a.1)
  | inr other ↦ elim (Bool-cases (text_lt path q)) [
    | inl before ↦ rw (other, before) (h, a)
    | inr after ↦ rw (other, after) (a.0, put_count-AllSingle path n seen h a.1)
  ]
]

count_paths-AllSingle :
    (seen : List (Text × ℕ)) (routes : List RouteConfig)
    → AllSingle seen
    → ((p : Text) → count_of p seen + occurrences p routes ≤ 1)
    → AllSingle (count_paths seen routes)
unfolding count_paths occurrences
count_paths-AllSingle seen [] a few = a
count_paths-AllSingle seen (r ∷ routes) a few =
    let one = few r.path in
    let here = rw (text_eq_refl r.path) at one in
    count_paths-AllSingle (put_count r.path (suc (count_of r.path seen)) seen) routes
      (put_count-AllSingle r.path (suc (count_of r.path seen)) seen (omega (arith, here)) a)
      λ p.
        let put = count_of-put_count p r.path (suc (count_of r.path seen)) seen in
        let left = few p in
        elim (Bool-cases (text_eq r.path p)) [
          | inl same ↦
              let e : count_of r.path seen ≡ count_of p seen =
                ap (λ (q : Text). count_of q seen) ((text_eq_iff r.path p).0 same) in
              omega (arith, rw same at put, e, rw same at left)
          | inr other ↦ omega (arith, rw other at put, rw other at left)
        ]

check_routes_lem :
    (routes : List RouteConfig) → (check_routes routes ≡ ok tt) ↔ HasDistinctPaths routes
unfolding check_routes count_of
check_routes_lem routes = (
  λ h p. elim (Option-cases (find_repeated (count_paths [] routes))) [
    | inl fine ↦
        let le = count_of-le p (count_paths [] routes) (none-AllSingle _ fine) in
        omega (arith, le, count_of-count_paths p [] routes)
    | inr (path, twice) ↦ absurd (err_ne_ok (rw (check_routes, twice) at h))
  ],
  λ distinct.
      rw
        (
          check_routes,
          AllSingle-none (count_paths [] routes)
              (count_paths-AllSingle [] routes tt (λ p. omega (arith, distinct p))),
        )
        refl,
)

check_base_lem : (base : Text) → (check_base base ≡ ok tt) ↔ ((base ≡ []) ⊎ (base ≡ b'/' ∷ []))
unfolding check_base
check_base_lem [] = (λ h. inl refl, λ h. refl)
check_base_lem (x ∷ base) = elim (Bool-cases (text_eq (x ∷ base) (b'/' ∷ []))) [
  | inl root ↦ (λ h. inr ((text_eq_iff (x ∷ base) (b'/' ∷ [])).0 root), λ h. rw root refl)
  | inr other ↦ (
    λ h. absurd (err_ne_ok (rw other at h)),
    λ h. elim h [ inl e ↦ cc e | inr e ↦ cc ((text_eq_iff (x ∷ base) (b'/' ∷ [])).1 e) ],
  )
]

check_tls_lem :
    (cert key : Option Text) → (check_tls cert key ≡ ok tt) ↔ (is_given cert ≡ is_given key)
unfolding check_tls
check_tls_lem none none = ground arith
check_tls_lem none (some k) = ground arith
check_tls_lem (some c) none = ground arith
check_tls_lem (some c) (some k) = ground arith

-- A configuration is accepted exactly when no two routes have one path, the external base has no
-- path but `/`, and a certificate and a key are both given or both not.
pub validate-eq-ok_iff : (config : Config) → (validate config ≡ ok tt) ↔ IsAcceptable config
unfolding validate
validate-eq-ok_iff config = (
  λ h.
      let (u, routes, h1) = >>=-eq-ok (check_routes config.route) _ h in
      let (v, base, tls) = >>=-eq-ok (check_base config.base_path) _ h1 in
      record {
        distinct = (check_routes_lem config.route).0 routes;
        bare = (check_base_lem config.base_path).0 base;
        paired = (check_tls_lem config.tls.cert_path config.tls.key_path).0 tls;
      },
  λ fine.
      rw
        (
          (check_routes_lem config.route).1 fine.distinct,
          (check_base_lem config.base_path).1 fine.bare,
          (check_tls_lem config.tls.cert_path config.tls.key_path).1 fine.paired,
        )
        refl,
)
