-- ===== src/Config.antt =====
-- What a configuration is refused for before any traffic arrives: `Config::validate`, in the first
-- half of src/config.rs.
pub mod Checks
use programmable_redfish_pro.Prelude.{
  ℕ, zero, suc, Bool, true, false, ◌&&◌, not, Option, none, some, List, [], ◌∷◌, Text, lit, text_eq,
  text_lt, is_empty, ltb, if◌then◌else◌, Result, ok, err, map_err, ◌>>=◌, ◌>>◌,
}
use programmable_redfish_pro.Routes.{RouteConfig}

pub record TlsConfig : Type 0 where
  pub cert_path : Option Text
  pub key_path : Option Text

-- The parts that `validate` looks at; `base_path` is the path of `rewrite.external_base_url`.
pub record Config : Type 0 where
  pub route : List RouteConfig
  pub base_path : Text
  pub tls : TlsConfig

pub data ConfigError : Type 0 where
  duplicate_route : (path : Text) → ConfigError
  base_has_path : (path : Text) → ConfigError
  key_path_missing cert_path_missing : ConfigError

-- A `BTreeMap` of counts, in the order of its keys; `or_default` makes an absent count 0.
unfoldable pub count_of : Text → List (Text × ℕ) → ℕ
count_of path [] = 0
count_of path ((p, n) ∷ seen) = if text_eq p path then n else count_of path seen

unfoldable pub put_count : Text → ℕ → List (Text × ℕ) → List (Text × ℕ)
put_count path n [] = (path, n) ∷ []
put_count path n ((p, k) ∷ seen) =
    let rest = put_count path n seen in
    if text_eq p path
    then (p, n) ∷ seen
    else if text_lt path p
    then (path, n) ∷ ((p, k) ∷ seen)
    else (p, k) ∷ rest

-- The loop over the routes.
unfoldable pub count_paths : List (Text × ℕ) → List RouteConfig → List (Text × ℕ)
unfolding count_of put_count
count_paths seen [] = seen
count_paths seen (r ∷ routes) =
    count_paths (put_count r.path (suc (count_of r.path seen)) seen) routes

unfoldable pub find_repeated : List (Text × ℕ) → Option Text
find_repeated [] = none
find_repeated ((p, n) ∷ seen) = if ltb 1 n then some p else find_repeated seen

unfoldable pub check_routes : List RouteConfig → Result ConfigError Unit
unfolding count_paths find_repeated
check_routes routes = elim (find_repeated (count_paths [] routes)) [
  | some path ↦ err (duplicate_route path)
  | none ↦ ok tt
]

unfoldable pub check_base : Text → Result ConfigError Unit
check_base base =
    if not (is_empty base) && not (text_eq base (b'/' ∷ []))
    then err (base_has_path base)
    else ok tt

-- The two paths are given together or not at all.
unfoldable pub check_tls : Option Text → Option Text → Result ConfigError Unit
check_tls (some cert) none = err key_path_missing
check_tls none (some key) = err cert_path_missing
check_tls _ _ = ok tt

unfoldable pub validate : Config → Result ConfigError Unit
unfolding check_routes check_base check_tls
validate config = do
  check_routes config.route
  check_base config.base_path
  check_tls config.tls.cert_path config.tls.key_path

-- What loading fails with, besides what `validate` refuses.
pub data LoadError : Type 0 where
  not_read not_parsed : Text → LoadError
  invalid : ConfigError → LoadError

-- `Config::parse` and `Config::load`; `from_str` is that of the `toml` crate.
unfoldable pub parse :
    (from_str : Text → Result Text Config) → (text : Text) → Result LoadError Config
unfolding validate
parse from_str text = do
  config ← map_err not_parsed (from_str text)
  valid ← map_err invalid (validate config)
  ok config

unfoldable pub load :
    (read_to_string : Text → Result Text Text)
    → (from_str : Text → Result Text Config) → (path : Text) → Result LoadError Config
unfolding parse
load read_to_string from_str path = do
  text ← map_err not_read (read_to_string path)
  parse from_str text
