-- ===== src/Template/Directory.antt =====
-- What `Load` takes from a directory.
use bundle_controller.Base.{
  String, ◌<>◌, Bool, true, false, ◌||◌, none, some, List, [], ◌∷◌, ◌++◌, ◌≡◌, refl, ◌∙◌, arith,
  ◌==◌, ==_iff, string_eq, if◌then◌else◌, Result, ok, err, trim_prefix, any, all, Bool-cases, inl,
  inr,
}
use mathlib.Core.List.{append_assoc, append-nil}
use bundle_controller.Template.Engine.{Visit, BufferedFile, Helm}
use bundle_controller.Template.{
  Collected, chart_file_name, version_or_default, visit, visit_all, visit_below, nothing_collected,
  load, with_chart_file,
}

abbrev pub is_root : String → Visit → Bool
is_root root v = trim_prefix v.name root == ""

abbrev is_ok {ℓ} : {A : Type ℓ} → Result A → Bool
is_ok (ok a) = true
is_ok (err message) = false

-- The visit met no error and, but for a directory, the file can be read.
abbrev pub is_readable : Visit → Bool
is_readable v = elim v.failure [ some message ↦ false | none ↦ v.is_dir || is_ok v.content ]

-- The files among what was visited.
abbrev file_of : String → Visit → List BufferedFile
file_of root v = elim v.content [
  | err message ↦ []
  | ok content ↦ record { name = trim_prefix v.name root; content = content } ∷ []
]

abbrev pub files_below : String → List Visit → List BufferedFile
files_below root [] = []
files_below root (v ∷ visits) =
    let rest = files_below root visits in
    if is_root root v || v.is_dir then rest else file_of root v ++ rest

abbrev pub is_chart_file : String → Visit → Bool
is_chart_file root v = trim_prefix v.name root == chart_file_name

abbrev from_visit : String → Visit → Collected → Collected
from_visit root v c = record {
  files = c.files ++ (if is_root root v || v.is_dir then [] else file_of root v);
  contains_chart_file = c.contains_chart_file || is_chart_file root v;
}

root-no_chart_file :
    (root : String) (v : Visit) → is_root root v ≡ true → is_chart_file root v ≡ false
root-no_chart_file root v at_root = rw ((==_iff (trim_prefix v.name root) "").0 at_root) refl

visit_below-readable :
    (root : String) (v : Visit) (c : Collected)
    → is_root root v ≡ false
    → is_readable v ≡ true
    → visit_below (trim_prefix v.name root) v c ≡ ok (from_visit root v c)
unfolding visit
visit_below-readable root v c below readable = ground (arith, append-nil c.files)

visit-readable :
    (root : String) (v : Visit) (c : Collected)
    → (is_root root v || is_readable v) ≡ true
    → visit root v c ≡ ok (from_visit root v c)
unfolding visit
visit-readable root v c readable = elim (Bool-cases (is_root root v)) [
  | inl at_root ↦ ground (arith, at_root, append-nil c.files, root-no_chart_file root v)
  | inr below ↦
      (λ i. if below i then ok c else visit_below (trim_prefix v.name root) v c)
      ∙ visit_below-readable root v c below (ground arith)
]

visit_all-readable :
    (root : String) (visits : List Visit) (c : Collected)
    → all (λ v. is_root root v || is_readable v) visits ≡ true
    → visit_all root visits c
      ≡ ok (record {
        files = c.files ++ files_below root visits;
        contains_chart_file = c.contains_chart_file || any (is_chart_file root) visits;
      })
unfolding visit_all
visit_all-readable root [] c readable = ground (arith, append-nil c.files)
visit_all-readable root (v ∷ visits) c readable =
    rw (visit-readable root v c (ground arith), visit_all)
      (visit_all-readable root visits (from_visit root v c) (ground arith)
        ∙ ground (
          arith,
          append-nil c.files,
          append_assoc c.files (file_of root v) (files_below root visits),
        ))

module _ {State Loaded : Type 0} (e : Helm State Loaded) where
  abbrev pub chart_file : String → BufferedFile
  chart_file content = record { name = chart_file_name; content = content }

  -- The chart is loaded from exactly the files below the directory, and a Chart.yaml with the name
  -- and the version of the bundle where there is none: if no visit below the root meets an error.
  -- An error at the root is passed over.
  pub load-readable :
      (name version path absdir content : String) (s : State)
      → e.abs path s ≡ ok absdir
      → all (λ v. is_root (absdir <> "/") v || is_readable v) (e.walk (absdir <> "/") s) ≡ true
      → e.marshal_metadata "v2" name (version_or_default version) ≡ ok content
      → load e name version path s
        ≡ e.load_files (
            files_below (absdir <> "/") (e.walk (absdir <> "/") s)
            ++ (if any (is_chart_file (absdir <> "/")) (e.walk (absdir <> "/") s)
                then []
                else chart_file content ∷ []))
  unfolding load
  load-readable name version path absdir content s located readable marshalled =
      let root : String = absdir <> "/" in
      let visited = visit_all-readable root (e.walk root s) nothing_collected readable in
      rw (located, load, visited)
        (with_chart_file_lem (files_below root (e.walk root s))
          (any (is_chart_file root) (e.walk root s)))
    where
      with_chart_file_lem :
          (files : List BufferedFile) (found : Bool)
          → with_chart_file e name
              (version_or_default version)
              (record { files = files; contains_chart_file = found })
            ≡ e.load_files (files ++ (if found then [] else chart_file content ∷ []))
      with_chart_file_lem files true = rw (append-nil files)
      with_chart_file_lem files false = rw marshalled

  -- A directory that cannot be opened is loaded as an empty one: where the walk ends with an error at
  -- the root, which is all that it visits, the chart is the Chart.yaml of the bundle's name and
  -- version alone, and there is no error.
  pub load-unopened :
      (name version path absdir content message : String) (v : Visit) (s : State)
      → e.abs path s ≡ ok absdir
      → e.walk (absdir <> "/") s ≡ v ∷ []
      → is_root (absdir <> "/") v ≡ true
      → v.failure ≡ some message
      → e.marshal_metadata "v2" name (version_or_default version) ≡ ok content
      → load e name version path s ≡ e.load_files (chart_file content ∷ [])
  load-unopened name version path absdir content message v s located walked at_root failed
        marshalled =
      load-readable name version path absdir content s located (rw walked (ground arith)) marshalled
      ∙ rw walked (ground (arith, root-no_chart_file (absdir <> "/") v))
