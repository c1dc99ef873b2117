-- ===== src/Process.antt =====
-- How the program starts and ends, src/main.rs: the certificate and its names, `run`, `main`, and the
-- order of its steps. Sockets, TLS and the serving of connections are parameters.
pub mod Started
use programmable_redfish_pro.Prelude.{
  ℕ, suc, Bool, true, false, ◌&&◌, not, any, Option, none, some, List, [], ◌∷◌, ◌++◌, Text, lit,
  text_eq, if◌then◌else◌, Result, ok, err, ok_or, map_err, ◌>>=◌, ◌>>◌,
}

pub data TlsError : Type 0 where
  read_failed : (path source : Text) → TlsError
  no_certificates no_private_key : (path : Text) → TlsError
  not_configured not_generated : Text → TlsError

-- Files, `rustls_pemfile`, `rcgen` and `rustls`.
pub record Rustls : Type 1 where
  pub Certificate : Type 0
  pub Key : Type 0
  pub Acceptor : Type 0
  pub read : Text → Result Text Text
  pub certs : Text → Result Text (List Certificate)
  pub private_key : Text → Result Text (Option Key)
  -- `generate`, whose body only calls `rcgen`, and `acceptor`, whose body only calls `rustls`.
  pub self_signed : (names : List Text) → Result Text (List Certificate × Key)
  pub acceptor : List Certificate × Key → Result Text Acceptor

abbrev pub is_none_left : {A : Type 0} → List A → Bool
is_none_left [] = true
is_none_left (x ∷ xs) = false

-- The address to listen on: its text without the port, and the two tests of the standard library.
pub record Listen : Type 0 where
  pub ip : Text
  pub is_unspecified : Bool
  pub is_loopback : Bool

abbrev pub loopback_names : List Text
unfolding lit
loopback_names = lit "localhost" ∷ lit "127.0.0.1" ∷ []

unfoldable pub listen_names : Listen → List Text
listen_names listen =
    if not listen.is_unspecified && not listen.is_loopback
    then loopback_names ++ listen.ip ∷ []
    else loopback_names

-- The names of a generated certificate; `host` is that of the external base.
unfoldable pub certificate_names : Listen → (host : Option Text) → List Text
unfolding listen_names
certificate_names listen none = listen_names listen
certificate_names listen (some host) =
    if not (any (λ name. text_eq name host) (listen_names listen))
    then listen_names listen ++ host ∷ []
    else listen_names listen

module _ (rustls : Rustls) where
  open rustls use {Certificate, Key, Acceptor, read, certs, private_key, self_signed, acceptor}

  unfoldable pub load : (cert_path key_path : Text) → Result TlsError (List Certificate × Key)
  load cert_path key_path = do
    cert_bytes ← map_err (read_failed cert_path) (read cert_path)
    chain ← map_err (read_failed cert_path) (certs cert_bytes)
    if is_none_left chain then err (no_certificates cert_path) else (do
      key_bytes ← map_err (read_failed key_path) (read key_path)
      found ← map_err (read_failed key_path) (private_key key_bytes)
      key ← ok_or (no_private_key key_path) found
      ok (chain, key))

  -- The match over the two paths.
  unfoldable pub material :
      (cert_path key_path : Option Text)
      → Listen
      → (host : Option Text) → Result TlsError (List Certificate × Key)
  unfolding load certificate_names
  material (some cert) (some key) listen host = load cert key
  material _ _ listen host = map_err not_generated (self_signed (certificate_names listen host))

pub data RunError : Type 0 where
  tls_failed : TlsError → RunError
  build_failed : Text → RunError
  bind_failed serve_failed : Text → RunError

-- What `main` reports to the shell.
pub data ExitCode : Type 0 where
  success failure : ExitCode

module _ (rustls : Rustls) {State Socket : Type 0} (build : Result Text State)
    (bind : Result Text Socket) (serve : Socket → rustls.Acceptor → State → Result Text Unit) where
  -- What `run` does before it looks at `check`: `build` is the outcome of `AppState::build`.
  unfoldable pub start :
      (cert_path key_path : Option Text)
      → Listen
      → (host : Option Text) → Result RunError (rustls.Acceptor × State)
  unfolding material
  start cert_path key_path listen host = do
    made ← map_err tls_failed (material rustls cert_path key_path listen host)
    acceptor ← map_err (λ e. tls_failed (not_configured e)) (rustls.acceptor made)
    state ← map_err build_failed build
    ok (acceptor, state)

  -- Binding and serving, until the process is told to stop.
  unfoldable pub listen_and_serve : rustls.Acceptor × State → Result RunError Unit
  listen_and_serve (acceptor, state) = do
    socket ← map_err bind_failed bind
    map_err serve_failed (serve socket acceptor state)

  unfoldable pub run :
      (cert_path key_path : Option Text)
      → Listen
      → (host : Option Text) → (check : Bool) → Result RunError Unit
  unfolding start listen_and_serve
  run cert_path key_path listen host check = do
    ready ← start cert_path key_path listen host
    if check then ok tt else listen_and_serve ready

-- The four steps of `main`: the configuration, the log, the runtime, and `run`.
unfoldable pub main :
    {Config : Type 0}
    → (config : Result Text Config) → (init_tracing : Config → Result Text Unit)
    → (runtime : Result Text Unit) → (run : Config → Result RunError Unit) → ExitCode
main (err e) init_tracing runtime run = failure
main (ok config) init_tracing runtime run = elim (init_tracing config) [
  | err e ↦ failure
  | ok u ↦ elim runtime [
    | err e ↦ failure
    | ok u' ↦ elim (run config) [ ok u'' ↦ success | err e ↦ failure ]
  ]
]
