-- ===== src/Host.antt =====
-- The compiled scripts of src/rune_host.rs: how they are loaded at the start, found for a request,
-- and swapped by a reload.
pub mod Startup
pub mod Collect
pub mod Response
pub mod Run
use programmable_redfish_pro.Prelude.{
  ℕ, Bool, true, false, ◌&&◌, not, ltb, leb, Option, none, some, List, [], ◌∷◌, Text, lit, text_eq,
  is_empty, split, ◌||◌, length, if◌then◌else◌, Result, ok, err, map_err, ◌>>=◌, ◌>>◌,
}
use programmable_redfish_pro.Routes.{RouteConfig}
use programmable_redfish_pro.DeepPath.{ℤ, pos, negsuc}

-- The Rune compiler and the file system: whether a path is a directory, the scripts under one, each
-- with its path relative to it, and one script compiled.
pub record Machine : Type 1 where
  pub Compiled : Type 0
  pub is_dir : Text → Bool
  pub collect_scripts : Text → Result Text (List (Text × Text))
  pub compile_one : (name text : Text) → Result Text Compiled

pub data RuneError : Type 0 where
  unreadable not_compiled : Text → RuneError
  no_script_dir no_default_script : Text → RuneError
  no_route_script : (path script : Text) → RuneError

pub record RuneConfig : Type 0 where
  pub script_dir : Text
  pub default_script : Text

-- The parts after a slash: neither an empty part nor a `.` counts.
unfoldable pub normal : List Text → List Text
unfolding lit
normal [] = []
normal (part ∷ parts) =
    let rest = normal parts in if is_empty part || text_eq part (lit ".") then rest else part ∷ rest

-- `Path::components`, by which two paths are compared: the root, a `.` only in the first place, and
-- the names.
unfoldable pub components : Text → List Text
unfolding normal split lit
components path = elim (split b'/' path) [
  | [] ↦ []
  | first ∷ parts ↦
      if is_empty path
      then []
      else (if is_empty first then lit "/" ∷ normal parts else first ∷ normal parts)
]

unfoldable pub same_parts : List Text → List Text → Bool
unfolding text_eq
same_parts [] [] = true
same_parts (part ∷ parts) (part' ∷ parts') = text_eq part part' && same_parts parts parts'
same_parts _ _ = false

unfoldable pub same_path : Text → Text → Bool
unfolding components same_parts
same_path path path' = same_parts (components path) (components path')

module _ (machine : Machine) where
  open machine use {Compiled, is_dir, collect_scripts, compile_one}

  -- A map from a script to what it was compiled to; the entry inserted last is found first.
  pub record Scripts : Type 0 where
    pub units : List (Text × Compiled)

  unfoldable pub find_unit : Text → List (Text × Compiled) → Option Compiled
  unfolding same_path
  find_unit script [] = none
  find_unit script ((key, unit) ∷ units) =
      if same_path key script then some unit else find_unit script units

  unfoldable pub unit_for : Scripts → Text → Option Compiled
  unfolding find_unit
  unit_for scripts script = find_unit script scripts.units

  unfoldable pub script_count : Scripts → ℕ
  script_count scripts = length scripts.units

  unfoldable pub compile_from :
      List (Text × Compiled) → List (Text × Text) → Result RuneError (List (Text × Compiled))
  compile_from units [] = ok units
  compile_from units ((key, text) ∷ sources) = do
    unit ← map_err not_compiled (compile_one key text)
    compile_from ((key, unit) ∷ units) sources

  unfoldable pub compile_dir : Text → Result RuneError Scripts
  unfolding compile_from
  compile_dir dir = do
    sources ← map_err unreadable (collect_scripts dir)
    units ← compile_from [] sources
    ok (record { units = units })

  abbrev pub has_unit : Scripts → Text → Bool
  has_unit scripts script = elim (unit_for scripts script) [ some unit ↦ true | none ↦ false ]

  unfoldable pub check_scripts : Scripts → List RouteConfig → Result RuneError Unit
  unfolding unit_for
  check_scripts scripts [] = ok tt
  check_scripts scripts (route ∷ routes) =
      let rest = check_scripts scripts routes in
      if has_unit scripts route.script then rest else err (no_route_script route.path route.script)

  unfoldable pub load_for : RuneConfig → List RouteConfig → Result RuneError (Option Text × Scripts)
  unfolding compile_dir check_scripts
  load_for rune route =
      if not (is_dir rune.script_dir) then err (no_script_dir rune.script_dir) else (do
        scripts ← compile_dir rune.script_dir
        if not (has_unit scripts rune.default_script)
            then err (no_default_script rune.default_script)
            else (do check_scripts scripts route; ok (some rune.script_dir, scripts)))

  -- `ScriptStore`, with what `ArcSwap` holds at the moment.
  pub record ScriptStore : Type 0 where
    pub dir : Option Text
    pub current : Scripts

  unfoldable pub reload : ScriptStore → ScriptStore
  unfolding compile_dir
  reload store = elim store.dir [
    | none ↦ store
    | some dir ↦ elim (compile_dir dir) [
      | ok scripts ↦ record store { current = scripts }
      | err error ↦ store
    ]
  ]

-- `u16::try_from(status)`, within 100 to 599, and else 500; what is over 65535 is over 599 too.
unfoldable pub clamp_status : ℤ → ℕ
clamp_status (negsuc n) = 500
clamp_status (pos code) = if leb 100 code && ltb code 600 then code else 500
