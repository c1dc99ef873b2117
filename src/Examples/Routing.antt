-- ===== src/Examples/Routing.antt =====
-- Two routes, one of them for one method.
use programmable_redfish_pro.Prelude.{
  ◌≡◌, refl, ◌↔◌, true, false, some, List, [], ◌∷◌, lit, Text, any, starts_with, ok, err,
}
use programmable_redfish_pro.Routes.{
  Globs, RouteConfig, Route, Router, matches, matches_path, read_routes, literal_prefix_len, build,
  resolve, choose_script, method_not_allowed,
}
use programmable_redfish_pro.Host.{Machine, Scripts, RuneConfig}
use programmable_redfish_pro.Routes.Best.{best, resolve-build}
use programmable_redfish_pro.Routes.Choice.{choose_script-eq-err_iff}

-- Globs that match what begins with them, and methods by name.
abbrev pub prefixes : Globs
prefixes = record { compile_glob = λ glob. some (starts_with glob); parse_method = some }

abbrev pub configs : List RouteConfig
configs =
    record { method = []; path = lit "/a"; script = lit "all.rn" }
    ∷ record { method = lit "GET" ∷ []; path = lit "/a/b"; script = lit "get.rn" }
    ∷ []

abbrev first : Route
first = record {
  matcher = starts_with (lit "/a");
  methods = [];
  specificity = 2;
  script = lit "all.rn";
}

abbrev second : Route
second = record {
  matcher = starts_with (lit "/a/b");
  methods = lit "GET" ∷ [];
  specificity = 4;
  script = lit "get.rn";
}

abbrev pub built_router : Router
built_router = record { routes = second ∷ first ∷ [] }

reads : read_routes prefixes configs ≡ ok (first ∷ second ∷ [])
unfolding read_routes literal_prefix_len lit
reads = refl

pub builds : build prefixes configs ≡ ok built_router
unfolding build literal_prefix_len lit
builds = refl

resolve-build_example :
    (routes : List Route) × (read_routes prefixes configs ≡ ok routes)
    × (resolve built_router (lit "GET") (lit "/a/b")
        ≡ best (λ r. matches r (lit "GET") (lit "/a/b")) routes)
resolve-build_example = resolve-build prefixes configs built_router (lit "GET") (lit "/a/b") builds

choose_script-eq-err_iff_example :
    (choose_script built_router (lit "default.rn") (lit "PUT") (lit "/x")
      ≡ err (method_not_allowed (lit "PUT")))
    ↔ ((method_not_allowed (lit "PUT") ≡ method_not_allowed (lit "PUT"))
        × (any (λ r. matches_path r (lit "/x")) (first ∷ second ∷ []) ≡ true)
        × (any (λ r. matches r (lit "PUT") (lit "/x")) (first ∷ second ∷ []) ≡ false))
choose_script-eq-err_iff_example =
    choose_script-eq-err_iff prefixes configs built_router (first ∷ second ∷ []) (lit "default.rn")
      (lit "PUT") (lit "/x") builds reads (method_not_allowed (lit "PUT"))

-- Three scripts in one directory, compiled to their own text.
abbrev pub scripts_at_hand : Machine
scripts_at_hand = record {
  Compiled = Text;
  is_dir = λ path. true;
  collect_scripts =
      λ path. ok ((lit "all.rn", []) ∷ (lit "get.rn", []) ∷ (lit "default.rn", []) ∷ []);
  compile_one = λ name text. ok text;
}

abbrev pub rune_config : RuneConfig
rune_config = record { script_dir = lit "scripts"; default_script = lit "default.rn" }

abbrev pub compiled : Scripts scripts_at_hand
compiled = record { units = (lit "default.rn", []) ∷ (lit "get.rn", []) ∷ (lit "all.rn", []) ∷ [] }
