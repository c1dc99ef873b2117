-- ===== src/Host/Collect/Located.antt =====
-- Which scripts the walk finds.
use programmable_redfish_pro.Prelude.{
  ◌≡◌, refl, sym, inl, inr, Bool, true, false, ◌&&◌, not, Bool-cases, List, [], ◌∷◌, ◌++◌, Text,
  if◌then◌else◌, Result, ok, err, ◌>>=◌,
}
use mathlib.Core.Path.{subst}
use mathlib.Core.List.{append_assoc, append-nil}
use programmable_redfish_pro.Files.{PathBuf}
use programmable_redfish_pro.Host.{RuneError, unreadable}
use programmable_redfish_pro.Host.Collect.{
  Entry, lost, file, directory, Listing, not_listed, listed, Entries, none_left, next, is_script,
  collect_scripts, collect_entries,
}

-- The scripts of a tree, in the order of the walk: those whose content can be read.
unfoldable mutual
  pub scripts_of : PathBuf → Listing → List (PathBuf × Text)
  scripts_of dir (not_listed source) = []
  scripts_of dir (listed entries) = scripts_in dir entries

  pub scripts_in : PathBuf → Entries → List (PathBuf × Text)
  scripts_in dir none_left = []
  scripts_in dir (next entry entries) = script_at dir entry ++ scripts_in dir entries

  pub script_at : PathBuf → Entry → List (PathBuf × Text)
  script_at dir (lost source) = []
  script_at dir (directory name listing) = scripts_of (dir ++ name ∷ []) listing
  script_at dir (file name (ok text)) = if is_script name then (dir ++ name ∷ [], text) ∷ [] else []
  script_at dir (file name (err source)) = []

-- Everything that the walk must read can be read.
unfoldable mutual
  pub is_readable : Listing → Bool
  is_readable (not_listed source) = false
  is_readable (listed entries) = are_readable entries

  pub are_readable : Entries → Bool
  are_readable none_left = true
  are_readable (next entry entries) = entry_readable entry && are_readable entries

  pub entry_readable : Entry → Bool
  entry_readable (lost source) = false
  entry_readable (directory name listing) = is_readable listing
  entry_readable (file name (ok text)) = true
  entry_readable (file name (err source)) = not (is_script name)

-- What a walk comes to, by whether everything can be read.
abbrev pub Walked : Bool → List (PathBuf × Text) → Result RuneError (List (PathBuf × Text)) → Type 0
Walked true scripts result = result ≡ ok scripts
Walked false scripts result = (source : Text) × (result ≡ err (unreadable source))

then_Walked :
    (a b : Bool) (found rest : List (PathBuf × Text))
    (first : Result RuneError (List (PathBuf × Text)))
    (more : List (PathBuf × Text) → Result RuneError (List (PathBuf × Text)))
    → Walked a found first
    → Walked b rest (more found)
    → Walked (a && b) rest (first >>= more)
then_Walked true b found rest first more one two =
    subst (λ r. Walked b rest (r >>= more)) (sym one) two
then_Walked false b found rest first more (source, one) two = (source, rw one refl)

mutual
  unfolding collect_scripts collect_entries scripts_of scripts_in script_at is_readable are_readable
      entry_readable

  walk_listing :
      (dir : PathBuf) (listing : Listing) (out : List (PathBuf × Text))
      → Walked
          (is_readable listing)
          (out ++ scripts_of dir listing)
          (collect_scripts dir listing out)
  walk_listing dir (not_listed source) out = (source, refl)
  walk_listing dir (listed entries) out = walk_entries dir entries out

  walk_entries :
      (dir : PathBuf) (entries : Entries) (out : List (PathBuf × Text))
      → Walked
          (are_readable entries)
          (out ++ scripts_in dir entries)
          (collect_entries dir entries out)
  walk_entries dir none_left out = rw (append-nil out) refl
  walk_entries dir (next (lost source) entries) out = (source, refl)
  walk_entries dir (next (directory name listing) entries) out =
      let below = dir ++ name ∷ [] in
      then_Walked (is_readable listing) (are_readable entries) (out ++ scripts_of below listing) _ _
        _ (walk_listing below listing out)
        (subst
          (λ l.
            Walked (are_readable entries) l
              (collect_entries dir entries (out ++ scripts_of below listing)))
          (append_assoc out (scripts_of below listing) (scripts_in dir entries))
          (walk_entries dir entries (out ++ scripts_of below listing)))
  walk_entries dir (next (file name (ok text)) entries) out = elim (Bool-cases (is_script name)) [
    | inr other ↦ rw (collect_entries, other) (walk_entries dir entries out)
    | inl script ↦
        let found : PathBuf × Text = (dir ++ name ∷ [], text) in
        rw script (
          subst
            (λ l. Walked (are_readable entries) l (collect_entries dir entries (out ++ found ∷ [])))
            (append_assoc out (found ∷ []) (scripts_in dir entries))
            (walk_entries dir entries (out ++ found ∷ [])))
  ]
  walk_entries dir (next (file name (err source)) entries) out =
      elim (Bool-cases (is_script name)) [
        | inr other ↦ rw (collect_entries, other) (walk_entries dir entries out)
        | inl script ↦ rw (collect_entries, script) (source, refl)
      ]

-- The walk finds every `.rn` file of the tree, each once and under its path from the root, in the
-- order of the listings; it fails exactly where a directory, an entry or such a file cannot be read.
pub collect_scripts-Walked :
    (dir : PathBuf) (listing : Listing) (out : List (PathBuf × Text))
    → Walked (is_readable listing) (out ++ scripts_of dir listing) (collect_scripts dir listing out)
collect_scripts-Walked = walk_listing
