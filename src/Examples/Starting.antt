-- ===== src/Examples/Starting.antt =====
-- Starting with a CA, in a script directory, with a generated certificate.
use programmable_redfish_pro.Prelude.{
  ◌≤◌, ◌≡◌, ◌↔◌, refl, Bool, true, false, none, some, [], ◌∷◌, ◌++◌, Text, lit, text_eq, Result, ok,
  err,
}
use programmable_redfish_pro.Json.{Value, str}
use programmable_redfish_pro.Files.{PathBuf, FileSystem, read_script_json, is_json_file, read_env}
use programmable_redfish_pro.Files.Contained.{read_script_json-contained}
use programmable_redfish_pro.Files.Allowed.{read_env-allowed}
use programmable_redfish_pro.Host.Collect.{
  Listing, listed, next, none_left, file, directory, collect_scripts,
}
use programmable_redfish_pro.Host.Collect.Located.{
  Walked, is_readable, scripts_of, collect_scripts-Walked,
}
use programmable_redfish_pro.Proxy.{TargetConfig, Tls, ClientBuilder, upstream_client}
use programmable_redfish_pro.Proxy.Trust.{Trusts, upstream_client-Trusts}
use programmable_redfish_pro.Http.Headers.{times}
use programmable_redfish_pro.Process.{Rustls, Listen, build_failed, run, certificate_names}
use programmable_redfish_pro.Process.Started.{Early, run-check, certificate_names-times}

-- A bundle is one certificate, and a client is what its builder trusts.
abbrev tls_at_hand : Tls
tls_at_hand = record {
  Certificate = Text;
  Client = ClientBuilder Text;
  read = λ path. ok path;
  from_pem_bundle = λ pem. ok (pem ∷ []);
}

abbrev verified : TargetConfig
verified = record {
  address = lit "10.0.0.1:443";
  accept_invalid_certs = false;
  ca_path = some (lit "ca.pem");
  timeout = 30;
}

abbrev trusting_ca : ClientBuilder Text
trusting_ca = record {
  danger_accept_invalid_certs = false;
  timeout = 30;
  follows_redirects = false;
  pool_max_idle_per_host = 4;
  tls_built_in_root_certs = false;
  root_certificates = lit "ca.pem" ∷ [];
}

upstream_client-Trusts_example :
    (builder : ClientBuilder Text) × (◌≡◌ {A = Result Text (ClientBuilder Text)}
      (ok builder)
      (ok trusting_ca))
    × (builder.follows_redirects ≡ false)
    × (builder.timeout ≡ 30)
    × Trusts tls_at_hand (λ b. ok b) (some (lit "ca.pem")) false builder
unfolding upstream_client
upstream_client-Trusts_example =
    upstream_client-Trusts tls_at_hand (λ b. ok b) verified trusting_ca refl

-- Every name is a file in the directory that it is read from, and every file is one string.
abbrev flat : FileSystem
flat = record {
  canonicalize = λ dir. ok (dir ∷ []);
  canonicalize_joined = λ root name. ok (root ++ name ∷ []);
  read_to_string = λ path. ok (lit "{}");
}

read_script_json-contained_example :
    (root : PathBuf) × (rest : PathBuf) × (text : Text) × (flat.canonicalize (lit "scripts")
      ≡ ok root)
    × (flat.canonicalize_joined root (lit "a.json") ≡ ok (root ++ rest))
    × (is_json_file (root ++ rest) ≡ true)
    × (flat.read_to_string (root ++ rest) ≡ ok text)
    × (◌≡◌ {A = Result Text Value} (ok (str text)) (ok (str (lit "{}"))))
unfolding read_script_json text_eq lit
read_script_json-contained_example =
    read_script_json-contained (λ text. ok (str text)) flat (lit "scripts") (lit "a.json")
      (str (lit "{}")) refl

abbrev only_path : Text → Bool
only_path name = text_eq name (lit "PATH")

read_env-allowed_example :
    read_env (some only_path) (λ name. some (lit "a")) (lit "HOME")
    ≡ read_env (some only_path) (λ name. none) (lit "HOME")
unfolding lit text_eq
read_env-allowed_example =
    read_env-allowed (some only_path) (λ name. some (lit "a")) (λ name. none) (lit "HOME") (λ h. cc)

abbrev two_files : Listing
two_files = listed (
    next (file (lit "readme.md") (err (lit "locked"))) (
      next (directory (lit "acme") (listed (next (file (lit "a.rn") (ok (lit "code"))) none_left)))
        none_left))

collect_scripts-Walked_example :
    Walked (is_readable two_files) ([] ++ scripts_of [] two_files) (collect_scripts [] two_files [])
collect_scripts-Walked_example = collect_scripts-Walked [] two_files []

abbrev rustls_at_hand : Rustls
rustls_at_hand = record {
  Certificate = Text;
  Key = Text;
  Acceptor = Unit;
  read = λ path. ok path;
  certs = λ pem. ok (pem ∷ []);
  private_key = λ pem. ok (some pem);
  self_signed = λ names. ok (names, []);
  acceptor = λ made. ok tt;
}

abbrev anywhere : Listen
anywhere = record { ip = lit "10.1.1.1"; is_unspecified = false; is_loopback = false }

-- The socket is in use, and the script is missing too: `--check` reports the latter.
run-check_example :
    (run rustls_at_hand {State = Unit} {Socket = Unit}
        (err (lit "no script"))
        (err (lit "in use"))
        (λ s a b. ok tt)
        none
        none
        anywhere
        none
        true
      ≡ err (build_failed (lit "no script")))
    ↔ (Early (build_failed (lit "no script"))
        × (run rustls_at_hand {State = Unit} {Socket = Unit}
              (err (lit "no script"))
              (err (lit "in use"))
              (λ s a b. ok tt)
              none
              none
              anywhere
              none
              false
            ≡ err (build_failed (lit "no script"))))
run-check_example =
    run-check rustls_at_hand {State = Unit} {Socket = Unit} (err (lit "no script"))
      (err (lit "in use")) (λ s a b. ok tt) none none anywhere none (build_failed (lit "no script"))

certificate_names-times_example :
    times (lit "proxy") (certificate_names anywhere (some (lit "proxy"))) ≤ 1
unfolding lit text_eq
certificate_names-times_example =
    certificate_names-times anywhere (some (lit "proxy")) (lit "proxy") (λ h. cc)
