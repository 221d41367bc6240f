-- ===== src/Download/Unpack/Selection.antt =====
-- Which entries an archive is unpacked from.
use bundle_controller.Base.{
  String, Option, none, some, List, [], ◌∷◌, ◌≡◌, refl, if◌then◌else◌, has_prefix, Bool-cases, inl,
  inr,
}
use bundle_controller.Download.Host.{FileSystem, TarEntry, GitFile, Step, item, broken}
use bundle_controller.Download.Unpack.{untar_all, untar_entry, git_all, write_git_file, and_then}

-- What lies below the path, and the errors.
abbrev pub below_tar : String → List (Step TarEntry) → List (Step TarEntry)
below_tar subpath [] = []
below_tar subpath (broken message ∷ steps) = broken message ∷ below_tar subpath steps
below_tar subpath (item e ∷ steps) =
    let rest = below_tar subpath steps in if has_prefix e.name subpath then item e ∷ rest else rest

abbrev pub below_git : String → List GitFile → List GitFile
below_git subpath [] = []
below_git subpath (g ∷ files) =
    let rest = below_git subpath files in if has_prefix g.name subpath then g ∷ rest else rest

module _ {State : Type 0} (f : FileSystem State) (subpath into : String) where
  go_on :
      (r : Option String × State) (next other : State → Option String × State)
      → ((t : State) → next t ≡ other t)
      → and_then r next ≡ and_then r other
  go_on (some message, s) next other same = refl
  go_on (none, s) next other same = same s

  -- Unpacking an archive does to the files what unpacking the entries below the path does: no other
  -- entry has an effect, and an error of the archive ends it at the same place.
  pub untar_all-below :
      (steps : List (Step TarEntry)) (s : State)
      → untar_all f subpath into steps s ≡ untar_all f subpath into (below_tar subpath steps) s
  unfolding untar_all
  untar_all-below [] s = refl
  untar_all-below (broken message ∷ steps) s = refl
  untar_all-below (item e ∷ steps) s = elim (Bool-cases (has_prefix e.name subpath)) [
    | inl below ↦
        rw (below, untar_all, below)
          (go_on (untar_entry f subpath into e s) _ _ (untar_all-below steps))
    | inr above ↦ rw (above, untar_all) (untar_all-below steps s)
  ]

  -- Writing the files of a commit does what writing its files below the path does: no other file
  -- has an effect.
  pub git_all-below :
      (files : List GitFile) (s : State)
      → git_all f subpath into files s ≡ git_all f subpath into (below_git subpath files) s
  unfolding git_all
  git_all-below [] s = refl
  git_all-below (g ∷ files) s = elim (Bool-cases (has_prefix g.name subpath)) [
    | inl below ↦
        rw (below, git_all, below)
          (go_on (write_git_file f subpath into g s) _ _ (git_all-below files))
    | inr above ↦ rw (above, git_all) (git_all-below files s)
  ]
