-- ===== src/Routes.antt =====
-- Route matching, the second half of src/config.rs, and the choice of a script that `handle` of
-- src/proxy.rs makes.
pub mod Best
pub mod Choice
pub mod Prefix
use programmable_redfish_pro.Prelude.{
  ℕ, zero, suc, Bool, true, false, ◌&&◌, ◌||◌, Option, none, some, List, [], ◌∷◌, Text, text_eq,
  is_empty, length, any, ltb, leb, ◌==◌, if◌then◌else◌, Result, ok, err, ok_or, map_err, ◌>>=◌,
}

-- A glob, compiled by the `globset` crate.
abbrev pub Matcher : Type 0
Matcher = Text → Bool

-- What the program asks of two crates: to compile a path glob with literal separators, and to
-- read an HTTP method, which is known by its name.
pub record Globs : Type 0 where
  pub compile_glob : Text → Option Matcher
  pub parse_method : Text → Option Text

pub record RouteConfig : Type 0 where
  pub method : List Text
  pub path : Text
  pub script : Text

pub data RouteError : Type 0 where
  bad_glob : (path : Text) → RouteError
  bad_method : (path method : Text) → RouteError

pub record Route : Type 0 where
  pub matcher : Matcher
  pub methods : List Text
  pub specificity : ℕ
  pub script : Text

-- `Vec::contains` for methods.
abbrev pub holds : List Text → Text → Bool
holds methods method = any (λ m. text_eq m method) methods

abbrev pub none_given : List Text → Bool
none_given [] = true
none_given (m ∷ ms) = false

unfoldable pub matches_path : Route → Text → Bool
matches_path route path = route.matcher path

unfoldable pub allows : Route → Text → Bool
allows route method = none_given route.methods || holds route.methods method

unfoldable pub matches : Route → Text → Text → Bool
unfolding allows matches_path
matches route method path = allows route method && matches_path route path

abbrev pub is_wildcard : ℕ → Bool
is_wildcard b = b == b'*' || b == b'?' || b == b'[' || b == b'{'

-- `pattern.find([..]).unwrap_or(pattern.len())`
unfoldable pub literal_prefix_len : Text → ℕ
literal_prefix_len [] = 0
literal_prefix_len (b ∷ pattern) = if is_wildcard b then 0 else suc (literal_prefix_len pattern)

-- The routes, most specific first.
pub record Router : Type 0 where
  pub routes : List Route

-- `sort_by_key` with `Reverse(specificity)`: stable, so a route goes before those declared after it
-- that are no more specific.
unfoldable pub insert_route : Route → List Route → List Route
insert_route r [] = r ∷ []
insert_route r (s ∷ rest) =
    if leb s.specificity r.specificity then r ∷ (s ∷ rest) else s ∷ insert_route r rest

unfoldable pub sort_routes : List Route → List Route
unfolding insert_route
sort_routes [] = []
sort_routes (r ∷ rest) = insert_route r (sort_routes rest)

module _ (globs : Globs) where
  open globs use {compile_glob, parse_method}

  unfoldable pub read_methods : Text → List Text → Result RouteError (List Text)
  read_methods path [] = ok []
  read_methods path (raw ∷ more) = do
    method ← ok_or (bad_method path raw) (parse_method raw)
    methods ← read_methods path more
    ok (method ∷ methods)

  unfoldable pub read_route : RouteConfig → Result RouteError Route
  unfolding read_methods literal_prefix_len
  read_route config = do
    matcher ← ok_or (bad_glob config.path) (compile_glob config.path)
    methods ← read_methods config.path config.method
    ok (record {
      matcher = matcher;
      methods = methods;
      specificity = literal_prefix_len config.path;
      script = config.script;
    })

  unfoldable pub read_routes : List RouteConfig → Result RouteError (List Route)
  unfolding read_route
  read_routes [] = ok []
  read_routes (config ∷ configs) = do
    route ← read_route config
    routes ← read_routes configs
    ok (route ∷ routes)

  unfoldable pub build : List RouteConfig → Result RouteError Router
  unfolding read_routes sort_routes
  build configs = do routes ← read_routes configs; ok (record { routes = sort_routes routes })

-- `Iterator::find`
unfoldable pub find_route : (Route → Bool) → List Route → Option Route
find_route p [] = none
find_route p (r ∷ rest) = if p r then some r else find_route p rest

unfoldable pub resolve : Router → Text → Text → Option Route
unfolding find_route matches
resolve router method path = find_route (λ r. matches r method path) router.routes

unfoldable pub claims_path : Router → Text → Bool
unfolding matches_path
claims_path router path = any (λ r. matches_path r path) router.routes

pub data ProxyError : Type 0 where
  request_body : Text → ProxyError
  script_failed : (status : ℕ) → (message : Text) → ProxyError
  method_not_allowed : Text → ProxyError

unfoldable pub status : ProxyError → ℕ
status (request_body message) = 400
status (script_failed code message) = code
status (method_not_allowed method) = 405

-- The script that `handle` runs, with the body that it has read.
unfoldable pub choose_script : Router → Text → Text → Text → Result ProxyError Text
unfolding resolve claims_path
choose_script router default_script method path = elim (resolve router method path) [
  | some route ↦ ok route.script
  | none ↦ if claims_path router path then err (method_not_allowed method) else ok default_script
]

unfoldable pub handle :
    {Response : Type 0}
    → (run_script : Text → Text → Result ProxyError Response) → Router
    → (default_script method path : Text) → (body : Result Text Text) → Result ProxyError Response
unfolding choose_script
handle run_script router default_script method path body = do
  bytes ← map_err request_body body
  script ← choose_script router default_script method path
  run_script script bytes
