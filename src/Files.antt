-- ===== src/Files.antt =====
-- What a script reads of the machine that the proxy runs on, and the helpers around it, all of
-- src/script_util.rs: `read_script_json`, `read_json_file`, `json_patch_file`, `read_env`,
-- `rewrite_links`, `rewrite_links_text`, `b64_decode`, `json_encode`, `json_decode` and `unix_time`.
pub mod Contained
pub mod Allowed
use programmable_redfish_pro.Http.Address.{SocketAddrV4}
use programmable_redfish_pro.Prelude.{
  ℕ, ◌^◌, ◌-◌, Bool, true, false, ◌&&◌, not, leb, Option, none, some, List, [], ◌∷◌, ◌++◌, Text,
  lit, text_eq, is_empty, is_utf8, split_last, if◌then◌else◌, Result, ok, err, ok_or, map_err,
  ◌>>=◌,
}
use programmable_redfish_pro.Json.{Value}
use programmable_redfish_pro.Scripting.{Scripting}
use programmable_redfish_pro.JsonPatch.Apply.{PatchError, apply_patch}
use programmable_redfish_pro.Http.{eq_ignore_ascii_case}
use programmable_redfish_pro.Http.Rewrite.{rsplit_once, rewrite_value, rewrite_text}

-- A canonical path: its components, from the root of the file system on.
abbrev pub PathBuf : Type 0
PathBuf = List Text

-- The file system: `canonicalize` of a path, and of a name joined to one, with what is read there.
pub record FileSystem : Type 0 where
  pub canonicalize : Text → Result Text PathBuf
  pub canonicalize_joined : PathBuf → Text → Result Text PathBuf
  pub read_to_string : PathBuf → Result Text Text

-- `Path::starts_with`, which compares whole components.
unfoldable pub is_under : (root path : PathBuf) → Bool
is_under [] path = true
is_under (part ∷ root) [] = false
is_under (part ∷ root) (part' ∷ path) = text_eq part part' && is_under root path

-- `Path::extension`: what stands after the last dot of the file name, unless that is its first byte.
unfoldable pub extension_of : Text → Option Text
unfolding rsplit_once
extension_of file_name = elim (rsplit_once b'.' file_name) [
  | none ↦ none
  | some (stem, extension) ↦ if is_empty stem then none else some extension
]

unfoldable pub extension : PathBuf → Option Text
unfolding extension_of
extension path = elim (split_last path) [
  | none ↦ none
  | some (parents, file_name) ↦ extension_of file_name
]

unfoldable pub is_json_file : PathBuf → Bool
unfolding extension lit
is_json_file path = elim (extension path) [
  | none ↦ false
  | some ext ↦ eq_ignore_ascii_case ext (lit "json")
]

pub data FileError : Type 0 where
  not_resolved not_read not_parsed : Text → FileError
  outside not_json_file : Text → FileError
  not_convertible : Text → FileError
  not_patched : PatchError → FileError

module _ (from_str : Text → Result Text Value) (fs : FileSystem) (script_dir : Text) where
  unfoldable pub read_script_json : (name : Text) → Result FileError Value
  unfolding is_under is_json_file
  read_script_json name = do
    root ← map_err not_resolved (fs.canonicalize script_dir)
    path ← map_err not_resolved (fs.canonicalize_joined root name)
    if not (is_under root path)
        then err (outside name)
        else if not (is_json_file path)
        then err (not_json_file name)
        else (do
          text ← map_err not_read (fs.read_to_string path)
          map_err not_parsed (from_str text))

  module _ (scripting : Scripting) where
    open scripting use {Script, to_json, of_json}

    unfoldable pub read_json_file : (name : Text) → Result FileError Script
    unfolding read_script_json
    read_json_file name = do value ← read_script_json name; map_err not_convertible (of_json value)

    unfoldable pub json_patch_file : Script → (name : Text) → Result FileError Script
    unfolding read_script_json apply_patch
    json_patch_file target name = do
      patched ← map_err not_convertible (to_json target)
      ops ← read_script_json name
      patched' ← map_err not_patched (apply_patch patched ops)
      map_err not_convertible (of_json patched')

pub data EnvError : Type 0 where
  env_allow_unset denied : (name : Text) → EnvError

-- The compiled `rune.env_allow`, and the variables as `std::env::var(..).ok()` finds them.
unfoldable pub read_env :
    (env_allow : Option (Text → Bool))
    → (vars : Text → Option Text) → (name : Text) → Result EnvError (Option Text)
read_env none vars name = err (env_allow_unset name)
read_env (some is_match) vars name =
    if not (is_match name) then err (denied name) else ok (vars name)

-- A regular expression of a crate, and `env_matcher` of src/config.rs, which anchors the pattern.
unfoldable pub env_matcher :
    (regex : Text → Result Text (Text → Bool))
    → (env_allow : Option Text) → Result Text (Option (Text → Bool))
unfolding lit
env_matcher regex none = ok none
env_matcher regex (some pattern) = do
  matcher ← regex (lit "^(?:" ++ (pattern ++ lit ")$"))
  ok (some matcher)

module _ (scripting : Scripting) (target : SocketAddrV4) (base : Text) where
  open scripting use {Script, to_json, of_json}

  -- A panic of the rewrite, which never happens, is an error here.
  unfoldable pub rewrite_links : Script → Result Text Script
  unfolding rewrite_value lit
  rewrite_links value = do
    json ← to_json value
    rewritten ← ok_or (lit "panicked") (rewrite_value target base json)
    of_json rewritten

  unfoldable pub rewrite_links_text : Text → Result Text Text
  unfolding rewrite_text lit
  rewrite_links_text text = ok_or (lit "panicked") (rewrite_text target base text)

pub data DecodeError : Type 0 where
  no_base64 no_utf8 : DecodeError

unfoldable pub b64_decode : (decode : Text → Option Text) → Text → Result DecodeError Text
b64_decode decode data' = do
  bytes ← ok_or no_base64 (decode data')
  if is_utf8 bytes then ok bytes else err no_utf8

abbrev pub i64_max : ℕ
i64_max = 2 ^ 63 - 1

-- Seconds since the epoch, where the clock is not before it; the time is at most `i64::MAX`.
unfoldable pub unix_time : (since_epoch : Option ℕ) → ℕ
unix_time none = 0
unix_time (some seconds) = if leb seconds i64_max then seconds else i64_max
