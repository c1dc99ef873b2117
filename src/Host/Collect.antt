-- ===== src/Host/Collect.antt =====
-- `collect_scripts` of src/rune_host.rs: the walk over the script directory. What the file system
-- answers is a tree: a directory that can be listed or not, with its entries in the order of the
-- listing; a link is what it leads to, so a cycle of links, on which the walk would not end, is left out.
pub mod Located
use programmable_redfish_pro.Prelude.{
  Bool, true, false, Option, none, some, List, [], ◌∷◌, ◌++◌, Text, lit, text_eq, if◌then◌else◌,
  Result, ok, err, map_err, ◌>>=◌,
}
use programmable_redfish_pro.Files.{PathBuf, extension_of}
use programmable_redfish_pro.Host.{RuneError, unreadable}

mutual
  pub data Entry : Type 0 where
    -- An entry that could not be read from the listing.
    lost : (source : Text) → Entry
    file : (name : Text) → (content : Result Text Text) → Entry
    directory : (name : Text) → Listing → Entry

  pub data Listing : Type 0 where
    not_listed : (source : Text) → Listing
    listed : Entries → Listing

  pub data Entries : Type 0 where
    none_left : Entries
    next : Entry → Entries → Entries

unfoldable pub is_script : Text → Bool
unfolding extension_of lit
is_script name = elim (extension_of name) [ none ↦ false | some ext ↦ text_eq ext (lit "rn") ]

-- Each script with its path relative to the root; `dir` is the path of the directory, and `out` is
-- what was found before.
unfoldable mutual
  pub collect_scripts :
      (dir : PathBuf) → Listing → List (PathBuf × Text) → Result RuneError (List (PathBuf × Text))
  collect_scripts dir (not_listed source) out = err (unreadable source)
  collect_scripts dir (listed entries) out = collect_entries dir entries out

  pub collect_entries :
      (dir : PathBuf) → Entries → List (PathBuf × Text) → Result RuneError (List (PathBuf × Text))
  collect_entries dir none_left out = ok out
  collect_entries dir (next (lost source) entries) out = err (unreadable source)
  collect_entries dir (next (directory name listing) entries) out = do
    found ← collect_scripts (dir ++ name ∷ []) listing out
    collect_entries dir entries found
  collect_entries dir (next (file name content) entries) out =
      let passed = collect_entries dir entries out in
      if is_script name
      then (do
        text ← map_err unreadable content
        collect_entries dir entries (out ++ (dir ++ name ∷ [], text) ∷ []))
      else passed
