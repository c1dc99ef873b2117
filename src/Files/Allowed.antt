-- ===== src/Files/Allowed.antt =====
-- Which variables a script can read, and what the helpers make of files and times.
use programmable_redfish_pro.Prelude.{
  ◌≡◌, refl, Bool, true, false, Bool-cases, inl, inr, Option, none, some, Text, Result, ok, map_err,
  Result-cases,
}
use programmable_redfish_pro.Json.{Value}
use programmable_redfish_pro.Scripting.{Scripting}
use programmable_redfish_pro.JsonPatch.Apply.{
  JsonPatchError, not_convertible as patch_not_convertible, patch_failed, json_patch, apply_patch,
}
use programmable_redfish_pro.Files.{
  FileSystem, FileError, not_convertible, not_patched, read_env, read_script_json, json_patch_file,
}

-- Whether `rune.env_allow` is set and matches a name.
abbrev pub allows_name : Option (Text → Bool) → Text → Bool
allows_name none name = false
allows_name (some is_match) name = is_match name

-- What `read_env` answers depends on no variable but one that `rune.env_allow` matches: where it is
-- unset, on none at all.
pub read_env-allowed :
    (env_allow : Option (Text → Bool)) (vars others : Text → Option Text) (name : Text)
    → (allows_name env_allow name ≡ true → vars name ≡ others name)
    → read_env env_allow vars name ≡ read_env env_allow others name
unfolding read_env
read_env-allowed none vars others name alike = refl
read_env-allowed (some is_match) vars others name alike = elim (Bool-cases (is_match name)) [
  | inl matched ↦ rw (matched, alike matched) refl
  | inr missed ↦ rw missed refl
]

-- The errors of a patch that a script brings, as those of a patch from a file.
abbrev pub of_patch : JsonPatchError → FileError
of_patch (patch_not_convertible message) = not_convertible message
of_patch (patch_failed error) = not_patched error

-- A patch from a file does what the same patch does that a script brings.
pub json_patch_file-eq-json_patch :
    (from_str : Text → Result Text Value) (fs : FileSystem) (script_dir : Text)
    (scripting : Scripting) (target ops : scripting.Script) (name : Text) (patch : Value)
    → read_script_json from_str fs script_dir name ≡ ok patch
    → scripting.to_json ops ≡ ok patch
    → json_patch_file from_str fs script_dir scripting target name
      ≡ map_err of_patch (json_patch scripting target ops)
unfolding json_patch_file json_patch
json_patch_file-eq-json_patch from_str fs script_dir scripting target ops name patch read same =
    elim (Result-cases (scripting.to_json target)) [
      | inr (error, e) ↦ rw (json_patch_file, json_patch, e) refl
      | inl (json, e) ↦ elim (Result-cases (apply_patch json patch)) [
        | inr (error, f) ↦ rw (json_patch_file, json_patch, e, read, same, f) refl
        | inl (patched, f) ↦ elim (Result-cases (scripting.of_json patched)) [
          | inr (error, g) ↦ rw (json_patch_file, json_patch, e, read, same, f, g) refl
          | inl (result, g) ↦ rw (json_patch_file, json_patch, e, read, same, f, g) refl
        ]
      ]
    ]
