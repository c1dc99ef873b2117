-- ===== src/Proxy.antt =====
-- What src/proxy.rs builds before any traffic arrives, `upstream_client` and `AppState::build`, and
-- how it renders an error.
pub mod Trust
use programmable_redfish_pro.Prelude.{
  ℕ, Bool, true, false, ◌&&◌, Option, none, some, List, [], ◌∷◌, Text, lit, if◌then◌else◌, Result,
  ok, err, map_err, ◌>>=◌, ◌>>◌,
}
use programmable_redfish_pro.Json.{Value}
use programmable_redfish_pro.Routes.{
  Globs, RouteConfig, RouteError, Router, build, ProxyError, status,
}
use programmable_redfish_pro.Http.Headers.{HeaderMaps}
use programmable_redfish_pro.Bmc.Forward.{failure_json}
use programmable_redfish_pro.Host.{Machine, Scripts, ScriptStore, RuneConfig, RuneError, load_for}
use programmable_redfish_pro.Files.{env_matcher}

pub record TargetConfig : Type 0 where
  pub address : Text
  pub accept_invalid_certs : Bool
  pub ca_path : Option Text
  -- In nanoseconds.
  pub timeout : ℕ

pub data UpstreamError : Type 0 where
  not_built : Text → UpstreamError
  read_ca : (path source : Text) → UpstreamError
  parse_ca : (path : Text) → (source : Option Text) → UpstreamError
  contradictory_tls : UpstreamError

-- What `reqwest` and the file system do: read a file, read its certificates, build a client.
pub record Tls : Type 1 where
  pub Certificate : Type 0
  pub Client : Type 0
  pub read : Text → Result Text Text
  pub from_pem_bundle : Text → Result Text (List Certificate)

-- The settings that the builder is given.
pub record ClientBuilder (Certificate : Type 0) : Type 0 where
  pub danger_accept_invalid_certs : Bool
  pub timeout : ℕ
  pub follows_redirects : Bool
  pub pool_max_idle_per_host : ℕ
  pub tls_built_in_root_certs : Bool
  pub root_certificates : List Certificate

module _ (tls : Tls) (build_client : ClientBuilder tls.Certificate → Result Text tls.Client) where
  open tls use {Certificate, Client, read, from_pem_bundle}

  abbrev pub no_certificates : List Certificate → Bool
  no_certificates [] = true
  no_certificates (cert ∷ certs) = false

  abbrev pub has_path : Option Text → Bool
  has_path none = false
  has_path (some path) = true

  -- The builder before a CA is added: the built-in roots are those of the crate's default.
  unfoldable pub base_builder : TargetConfig → ClientBuilder Certificate
  base_builder config = record {
    danger_accept_invalid_certs = config.accept_invalid_certs;
    timeout = config.timeout;
    follows_redirects = false;
    pool_max_idle_per_host = 4;
    tls_built_in_root_certs = true;
    root_certificates = [];
  }

  unfoldable pub add_ca :
      Option Text → ClientBuilder Certificate → Result UpstreamError (ClientBuilder Certificate)
  add_ca none builder = ok builder
  add_ca (some path) builder = do
    pem ← map_err (read_ca path) (read path)
    certs ← map_err (λ source. parse_ca path (some source)) (from_pem_bundle pem)
    if no_certificates certs
        then err (parse_ca path none)
        else ok (record builder { tls_built_in_root_certs = false; root_certificates = certs })

  unfoldable pub upstream_client : TargetConfig → Result UpstreamError Client
  unfolding base_builder add_ca
  upstream_client config =
      if has_path config.ca_path && config.accept_invalid_certs then err contradictory_tls else (do
        builder ← add_ca config.ca_path (base_builder config)
        map_err not_built (build_client builder))

  pub data BuildError : Type 0 where
    route : RouteError → BuildError
    config : Text → BuildError
    upstream : UpstreamError → BuildError
    rune : RuneError → BuildError

  module _ (machine : Machine) where
    pub record AppState : Type 0 where
      pub client : Client
      pub env_allow : Option (Text → Bool)
      pub routes : Router
      pub scripts : ScriptStore machine

    -- `AppState::build`, over the parts of the configuration that it reads.
    unfoldable pub build_state :
        Globs
        → (regex : Text → Result Text (Text → Bool)) → (target : TargetConfig)
        → (rune_config : RuneConfig) → (env_allow : Option Text) → (routes : List RouteConfig)
        → Result BuildError AppState
    unfolding build env_matcher upstream_client load_for
    build_state globs regex target rune_config env_allow routes = do
      router ← map_err route (build globs routes)
      matcher ← map_err config (env_matcher regex env_allow)
      client ← map_err upstream (upstream_client target)
      (dir, scripts) ← map_err rune (load_for machine rune_config routes)
      ok (record {
        client = client;
        env_allow = matcher;
        routes = router;
        scripts = record { dir = dir; current = scripts };
      })

-- The status and the document of an error response; `message` is the wording of the error.
unfoldable pub into_response : HeaderMaps → (message : ProxyError → Text) → ProxyError → ℕ × Value
unfolding status
into_response http message error = (status error, failure_json http (message error))
