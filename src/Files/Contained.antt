-- ===== src/Files/Contained.antt =====
-- Which files a script can read.
use programmable_redfish_pro.Prelude.{
  ◌≡◌, refl, sym, ◌∙◌, ap, true, Bool-cases, inl, inr, [], ◌∷◌, ◌++◌, Text, text_eq, text_eq_iff,
  arith, Result, ok, map_err, >>=-eq-ok, map_err-eq-ok, err_ne_ok,
}
use programmable_redfish_pro.Json.{Value}
use programmable_redfish_pro.Files.{PathBuf, FileSystem, is_under, is_json_file, read_script_json}

is_under-append :
    (root path : PathBuf) → is_under root path ≡ true → (rest : PathBuf) × (path ≡ root ++ rest)
unfolding is_under
is_under-append [] path h = (path, refl)
is_under-append (part ∷ root) [] h = ground arith
is_under-append (part ∷ root) (part' ∷ path) h =
    let same : text_eq part part' ≡ true = ground arith in
    let below : is_under root path ≡ true = ground arith in
    let (rest, e) = is_under-append root path below in
    (rest, rw (sym ((text_eq_iff part part').0 same), e) refl)

-- What a script reads is a `.json` file in the script directory, once links and `..` are resolved:
-- its path is that of the directory with more components, and it is there that the text is read.
pub read_script_json-contained :
    (from_str : Text → Result Text Value) (fs : FileSystem) (script_dir name : Text) (value : Value)
    → read_script_json from_str fs script_dir name ≡ ok value
    → (root : PathBuf) × (rest : PathBuf) × (text : Text) × (fs.canonicalize script_dir ≡ ok root)
      × (fs.canonicalize_joined root name ≡ ok (root ++ rest))
      × (is_json_file (root ++ rest) ≡ true)
      × (fs.read_to_string (root ++ rest) ≡ ok text)
      × (from_str text ≡ ok value)
unfolding read_script_json
read_script_json-contained from_str fs script_dir name value h =
    let (root, e1, h1) = >>=-eq-ok (map_err _ (fs.canonicalize script_dir)) _ h in
    let (path, e2, h2) = >>=-eq-ok (map_err _ (fs.canonicalize_joined root name)) _ h1 in
    elim (Bool-cases (is_under root path)) [
      | inr outside' ↦ absurd (err_ne_ok (rw outside' at h2))
      | inl inside ↦ elim (Bool-cases (is_json_file path)) [
        | inr other ↦ absurd (err_ne_ok (rw (inside, other) at h2))
        | inl json ↦
            let h3 = rw (inside, json) at h2 in
            let (text, e3, h4) = >>=-eq-ok (map_err _ (fs.read_to_string path)) _ h3 in
            let (rest, below) = is_under-append root path inside in
            (
              root,
              rest,
              text,
              map_err-eq-ok _ _ e1,
              map_err-eq-ok _ _ e2 ∙ ap (λ (p : PathBuf). ok p) below,
              sym (ap is_json_file below) ∙ json,
              sym (ap fs.read_to_string below) ∙ map_err-eq-ok _ _ e3,
              map_err-eq-ok _ _ h4,
            )
      ]
    ]
