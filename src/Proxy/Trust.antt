-- ===== src/Proxy/Trust.antt =====
-- What the client to the BMC trusts.
use mathlib.Core.Path.{subst}
use programmable_redfish_pro.Prelude.{
  ◌≡◌, ◌≢◌, refl, sym, ◌∙◌, ap, Bool, true, false, ◌&&◌, Bool-cases, inl, inr, Option, none, some,
  List, [], ◌∷◌, Text, arith, Result, ok, map_err, >>=-eq-ok, map_err-eq-ok, err_ne_ok,
  ok_injective,
}
use programmable_redfish_pro.Routes.{Globs, RouteConfig, build, choose_script}
use programmable_redfish_pro.Host.{Machine, RuneConfig, Scripts, has_unit, load_for}
use programmable_redfish_pro.Host.Startup.{load_for-choose_script}
use programmable_redfish_pro.Files.{env_matcher}
use programmable_redfish_pro.Proxy.{
  TargetConfig, Tls, ClientBuilder, base_builder, has_path, add_ca, no_certificates,
  upstream_client, AppState, build_state,
}

module _ (tls : Tls) (build_client : ClientBuilder tls.Certificate → Result Text tls.Client) where
  open tls use {Certificate, Client, read, from_pem_bundle}

  -- The certificates that a client accepts: those that some public root vouches for, or any where
  -- the operator said so; or, where a CA is named, those of that CA's certificates and no other.
  pub data Trusts
      : (ca_path : Option Text) → (accept_any : Bool) → ClientBuilder Certificate → Type 0 where
    public_roots :
        {accept_any : Bool} {builder : ClientBuilder Certificate}
        → builder.danger_accept_invalid_certs ≡ accept_any
        → builder.tls_built_in_root_certs ≡ true
        → builder.root_certificates ≡ []
        → Trusts none accept_any builder
    site_ca :
        {path pem : Text} {accept_any : Bool} {builder : ClientBuilder Certificate}
        → accept_any ≡ false
        → builder.danger_accept_invalid_certs ≡ false
        → builder.tls_built_in_root_certs ≡ false
        → builder.root_certificates ≢ []
        → read path ≡ ok pem
        → from_pem_bundle pem ≡ ok builder.root_certificates
        → Trusts (some path) accept_any builder

  some_certificates :
      (certs : List Certificate) → no_certificates tls build_client certs ≡ false → certs ≢ []
  some_certificates [] h = ground arith
  some_certificates (cert ∷ certs) h = λ e. cc

  add_ca-Trusts :
      (ca_path : Option Text) (config : TargetConfig) {builder : ClientBuilder Certificate}
      → (has_path tls build_client ca_path && config.accept_invalid_certs) ≡ false
      → add_ca tls build_client ca_path (base_builder tls build_client config) ≡ ok builder
      → (builder.follows_redirects ≡ false)
        × (builder.timeout ≡ config.timeout)
        × Trusts ca_path config.accept_invalid_certs builder
  unfolding add_ca base_builder
  add_ca-Trusts none config h e =
      let same = ok_injective e in
      (
        sym (ap (λ (b : ClientBuilder Certificate). b.follows_redirects) same),
        sym (ap (λ (b : ClientBuilder Certificate). b.timeout) same),
        subst (Trusts none config.accept_invalid_certs) same (public_roots refl refl refl),
      )
  add_ca-Trusts (some path) config h e =
      let (pem, there, e1) = >>=-eq-ok (map_err _ (read path)) _ e in
      let (certs, parsed, e2) = >>=-eq-ok (map_err _ (from_pem_bundle pem)) _ e1 in
      elim (Bool-cases (no_certificates tls build_client certs)) [
        | inl empty ↦ absurd (err_ne_ok (rw empty at e2))
        | inr some_there ↦
            let same = ok_injective (rw some_there at e2) in
            (
              sym (ap (λ (b : ClientBuilder Certificate). b.follows_redirects) same),
              sym (ap (λ (b : ClientBuilder Certificate). b.timeout) same),
              subst (Trusts (some path) config.accept_invalid_certs) same (
                  site_ca h h refl (some_certificates certs some_there) (map_err-eq-ok _ _ there)
                    (map_err-eq-ok _ _ parsed)),
            )
      ]

  -- Where a client is built, it follows no redirect and bounds every request by the timeout, and it
  -- never accepts any certificate while a CA is named: it then trusts the certificates of that CA,
  -- of which there is one, and no public root.
  pub upstream_client-Trusts :
      (config : TargetConfig) (client : Client)
      → upstream_client tls build_client config ≡ ok client
      → (builder : ClientBuilder Certificate) × (build_client builder ≡ ok client)
        × (builder.follows_redirects ≡ false)
        × (builder.timeout ≡ config.timeout)
        × Trusts config.ca_path config.accept_invalid_certs builder
  unfolding upstream_client add_ca base_builder
  upstream_client-Trusts config client h =
      elim (Bool-cases (has_path tls build_client config.ca_path && config.accept_invalid_certs)) [
        | inl both ↦ absurd (err_ne_ok (rw (upstream_client, both) at h))
        | inr fine ↦
            let (builder, added, e1) =
              >>=-eq-ok
                (add_ca tls build_client config.ca_path (base_builder tls build_client config)) _
                (rw (upstream_client, fine) at h) in
            let (direct, bounded, trusts) = add_ca-Trusts config.ca_path config fine added in
            (builder, map_err-eq-ok _ _ e1, direct, bounded, trusts)
      ]

  -- A proxy that was built has a compiled script for every request that its router gives one.
  pub build_state-has_unit :
      (machine : Machine) (globs : Globs) (regex : Text → Result Text (Text → Bool))
      (target : TargetConfig) (rune_config : RuneConfig) (env_allow : Option Text)
      (routes : List RouteConfig) (state : AppState tls build_client machine)
      (method path script : Text)
      → build_state tls build_client machine globs regex target rune_config env_allow routes
        ≡ ok state
      → choose_script state.routes rune_config.default_script method path ≡ ok script
      → has_unit machine state.scripts.current script ≡ true
  unfolding build_state
  build_state-has_unit machine globs regex target rune_config env_allow routes state method path
        script built chosen =
      let (router, e1, h1) = >>=-eq-ok (map_err _ (build globs routes)) _ built in
      let (matcher, e2, h2) = >>=-eq-ok (map_err _ (env_matcher regex env_allow)) _ h1 in
      let (client, e3, h3) = >>=-eq-ok (map_err _ (upstream_client tls build_client target)) _ h2 in
      let ((dir, scripts), e4, h4) =
        >>=-eq-ok (map_err _ (load_for machine rune_config routes)) _ h3 in
      let same = ok_injective h4 in
      subst (λ (s : Scripts machine). has_unit machine s script ≡ true)
        (ap (λ (s : AppState tls build_client machine). s.scripts.current) same)
        (load_for-choose_script machine globs rune_config routes router dir scripts method path
          script (map_err-eq-ok _ _ e1) (map_err-eq-ok _ _ e4)
          (ap
              (λ (s : AppState tls build_client machine).
                choose_script s.routes rune_config.default_script method path)
              same
            ∙ chosen))
