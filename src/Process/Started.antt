-- ===== src/Process/Started.antt =====
-- What starting the program comes to.
use mathlib.Core.Path.{subst}
use programmable_redfish_pro.Prelude.{
  ◌+◌, ◌≤◌, ◌≢◌, err_ne_ok, ◌≡◌, refl, sym, ◌∙◌, ap, ◌↔◌, true, false, ◌&&◌, not, any, text_eq_sym,
  text_eq_iff, Bool-cases, inl, inr, Option, none, some, List, [], ◌∷◌, ◌++◌, Text, lit, text_eq,
  if◌then◌else◌, arith, Result, ok, err, ◌>>=◌, Result-cases,
}
use programmable_redfish_pro.Http.Headers.{times}
use programmable_redfish_pro.Process.{
  Rustls, Listen, listen_names, certificate_names, loopback_names, RunError, tls_failed,
  build_failed, TlsError, not_configured, material, start, listen_and_serve, run,
}

err_injective : {E A : Type 0} {e f : E} → ◌≡◌ {A = Result E A} (err e) (err f) → e ≡ f
err_injective h = cc

true_ne_false : true ≢ false
true_ne_false h = cc

-- An error that comes before the socket.
pub data Early : RunError → Type 0 where
  early_tls : (error : TlsError) → Early (tls_failed error)
  early_build : (message : Text) → Early (build_failed message)

-- The first errors of a chain are those of its first step, where the rest cannot have them.
then_err :
    {E A B : Type 0} (first : Result E A) (next : A → Result E B) (error : E)
    → ((a : A) → next a ≢ err error)
    → ((first >>= next) ≡ err error) ↔ (first ≡ err error)
then_err (ok a) next error never = (λ h. absurd (never a h), λ h. absurd (err_ne_ok (sym h)))
then_err (err e) next error never = (λ h. cc, λ h. cc)

module _ (rustls : Rustls) {State Socket : Type 0} (build : Result Text State)
    (bind : Result Text Socket) (serve : Socket → rustls.Acceptor → State → Result Text Unit) where
  late :
      (ready : rustls.Acceptor × State) (error : RunError)
      → Early error
      → listen_and_serve rustls build bind serve ready ≢ err error
  unfolding listen_and_serve
  late (acceptor, state) error (early_tls e) h = elim (Result-cases bind) [
    | inr (message, f) ↦ ground (arith, rw (listen_and_serve, f) at h)
    | inl (socket, b) ↦ elim (Result-cases (serve socket acceptor state)) [
      | inr (message, f) ↦ ground (arith, rw (listen_and_serve, b, f) at h)
      | inl (u, f) ↦ absurd (err_ne_ok (sym (rw (listen_and_serve, b, f) at h)))
    ]
  ]
  late (acceptor, state) error (early_build e) h = elim (Result-cases bind) [
    | inr (message, f) ↦ ground (arith, rw (listen_and_serve, f) at h)
    | inl (socket, b) ↦ elim (Result-cases (serve socket acceptor state)) [
      | inr (message, f) ↦ ground (arith, rw (listen_and_serve, b, f) at h)
      | inl (u, f) ↦ absurd (err_ne_ok (sym (rw (listen_and_serve, b, f) at h)))
    ]
  ]

  -- Every error of the start comes before the socket.
  start-Early :
      (cert_path key_path : Option Text) (listen : Listen) (host : Option Text) (error : RunError)
      → start rustls build bind serve cert_path key_path listen host ≡ err error
      → Early error
  unfolding start
  start-Early cert_path key_path listen host error h =
      elim (Result-cases (material rustls cert_path key_path listen host)) [
        | inr (e, failed) ↦ subst Early (err_injective (rw (start, failed) at h)) (early_tls e)
        | inl (made, m) ↦ elim (Result-cases (rustls.acceptor made)) [
          | inr (e, failed) ↦
              subst Early (err_injective (rw (start, m, failed) at h))
                (early_tls (not_configured e))
          | inl (acceptor, a) ↦ elim (Result-cases build) [
            | inr (e, failed) ↦
                subst Early (err_injective (rw (start, m, a, failed) at h)) (early_build e)
            | inl (state, b) ↦ absurd (err_ne_ok (sym (rw (start, m, a, b) at h)))
          ]
        ]
      ]

  -- `--check` reports exactly the errors that come before the socket: the check fails with an error
  -- if and only if that is an error of TLS or of what is built, and a start without the check fails
  -- with it. So it reports none of binding or serving.
  pub run-check :
      (cert_path key_path : Option Text) (listen : Listen) (host : Option Text) (error : RunError)
      → (run rustls build bind serve cert_path key_path listen host true ≡ err error) ↔ (
          Early error
          × (run rustls build bind serve cert_path key_path listen host false ≡ err error))
  unfolding run
  run-check cert_path key_path listen host error =
      let first = start rustls build bind serve cert_path key_path listen host in
      let served = λ (early : Early error).
        then_err first (λ ready. listen_and_serve rustls build bind serve ready) error
          (λ ready. late ready error early) in
      let checked = then_err first (λ ready. ok tt) error (λ ready h. err_ne_ok (sym h)) in
      (
        λ h.
            let early = start-Early cert_path key_path listen host error (checked.0 h) in
            (early, (served early).1 (checked.0 h)),
        λ h. checked.1 ((served h.0).0 h.1),
      )

times-snoc :
    (n : Text) (names : List Text) (name : Text)
    → times n (names ++ name ∷ []) ≡ times n names + (if text_eq n name then 1 else 0)
unfolding times
times-snoc n [] name = ground arith
times-snoc n (other ∷ names) name = ground (arith, times-snoc n names name)

absent :
    (n : Text) (names : List Text) → any (λ name. text_eq name n) names ≡ false → times n names ≡ 0
unfolding times
absent n [] h = refl
absent n (name ∷ names) h =
    let other : text_eq name n ≡ false = ground arith in
    let rest : any (λ name. text_eq name n) names ≡ false = ground arith in
    rw (text_eq_sym n name, other) (absent n names rest)

-- A name that is not there yet can be added to names that stand there once each.
times-push :
    (n : Text) (names : List Text) (name : Text)
    → any (λ other. text_eq other name) names ≡ false
    → times n names ≤ 1
    → times n (names ++ name ∷ []) ≤ 1
times-push n names name new once = elim (Bool-cases (text_eq n name)) [
  | inr other ↦
      let same : times n (names ++ name ∷ []) ≡ times n names + 0 =
        rw other at (times-snoc n names name) in
      omega (arith, same, once)
  | inl same ↦
      let gone : times n names ≡ 0 =
        ap (λ (s : Text). times s names) ((text_eq_iff n name).0 same) ∙ absent name names new in
      let one : times n (names ++ name ∷ []) ≡ times n names + 1 =
        times-snoc n names name ∙ rw same refl in
      omega (arith, one, gone)
]

times-loopback_names : (n : Text) → times n loopback_names ≤ 1
unfolding times lit text_eq
times-loopback_names n =
    times-push n (lit "localhost" ∷ []) (lit "127.0.0.1") refl
      (times-push n [] (lit "localhost") refl (omega arith))

times-listen_names :
    (listen : Listen) (n : Text)
    → (any (λ name. text_eq name listen.ip) loopback_names ≡ true → listen.is_loopback ≡ true)
    → times n (listen_names listen) ≤ 1
unfolding listen_names
times-listen_names listen n loopback =
    elim (Bool-cases (not listen.is_unspecified && not listen.is_loopback)) [
      | inr plain ↦ rw (listen_names, plain) (times-loopback_names n)
      | inl named ↦ elim (Bool-cases (any (λ name. text_eq name listen.ip) loopback_names)) [
        | inr new ↦
            rw (listen_names, named)
              (times-push n loopback_names listen.ip new (times-loopback_names n))
        | inl old ↦ let is_loopback = loopback old in ground (arith, named, is_loopback)
      ]
    ]

-- The names of a generated certificate stand there once each, where the address to listen on is a
-- loopback address if its text is one of the two fixed names.
pub certificate_names-times :
    (listen : Listen) (host : Option Text) (n : Text)
    → (any (λ name. text_eq name listen.ip) loopback_names ≡ true → listen.is_loopback ≡ true)
    → times n (certificate_names listen host) ≤ 1
unfolding certificate_names
certificate_names-times listen none n loopback = times-listen_names listen n loopback
certificate_names-times listen (some host) n loopback =
    let listed = times-listen_names listen n loopback in
    elim (Bool-cases (any (λ name. text_eq name host) (listen_names listen))) [
      | inl there ↦ rw there listed
      | inr new ↦ rw new (times-push n (listen_names listen) host new listed)
    ]
