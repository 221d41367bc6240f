-- ===== src/Download/Unpack/Zip.antt =====
-- What the files contain after a zip archive or a directory was copied without an error.
use bundle_controller.Base.{
  ℕ, String, not, none, List, [], ◌∷◌, ◌≡◌, refl, ◌∙◌, ap, string_eq, if◌then◌else◌, has_prefix,
  trim_prefix, Result, ok, err, Bool-cases, Result-cases, inl, inr,
}
use bundle_controller.Download.Host.{FileSystem, FileEntry, Step, item, broken}
use bundle_controller.Download.Unpack.{
  unzip_all, walk_all, write_entry, copy_from, and_then, target,
}
use bundle_controller.Download.Unpack.Content.{
  Contents, put_file, IsDisk, Leaves, and_then-Leaves, made-Leaves, created-Leaves, empty-Leaves,
  text_of,
}

module _ {State : Type 0} (f : FileSystem State) (subpath into : String) where
  abbrev pub file_contents : String → FileEntry → Contents → Contents
  file_contents name e before =
      if not e.is_dir
      then put_file (target f subpath into name) (text_of e.content) before
      else before

  abbrev pub zip_contents : List FileEntry → Contents → Contents
  zip_contents [] before = before
  zip_contents (e ∷ entries) before =
      zip_contents entries
        (if has_prefix e.name subpath then file_contents e.name e before else before)

  -- By their names below `basedir`.
  abbrev pub walk_contents : String → List (Step FileEntry) → Contents → Contents
  walk_contents basedir [] before = before
  walk_contents basedir (broken message ∷ steps) before = before
  walk_contents basedir (item e ∷ steps) before = walk_contents basedir steps (
      if has_prefix (trim_prefix e.name basedir) subpath
      then file_contents (trim_prefix e.name basedir) e before
      else before)

  module _ (contents : State → Contents) (disk : IsDisk f contents) where
    file-Leaves :
        (path : String) (source : Result String) (mode : ℕ) (s : State)
        → Leaves f contents disk
            (put_file path (text_of source) (contents s))
            (and_then (f.create path mode s) (copy_from f subpath into path source))
    unfolding unzip_all
    file-Leaves path (ok text) mode s =
        created-Leaves f contents disk path text mode s (contents s) refl
    file-Leaves path (err message) mode s =
        and_then-Leaves f contents disk (put_file path "" (contents s)) _ _ _
          (empty-Leaves f contents disk path mode s (contents s) refl) (λ t same fine. cc)

    write_entry-Leaves :
        (name : String) (e : FileEntry) (s : State)
        → Leaves f contents disk
            (file_contents name e (contents s))
            (write_entry f subpath into name e s)
    unfolding unzip_all
    write_entry-Leaves name e s = elim (Result-cases e.mode) [
      | inl (message, unknown) ↦ rw unknown (λ fine. cc)
      | inr (mode, known) ↦ elim (Bool-cases e.is_dir) [
        | inl dir ↦ rw (known, dir) (made-Leaves f contents disk _ _ s)
        | inr file ↦ rw (known, file) (file-Leaves (target f subpath into name) e.content mode s)
      ]
    ]

    -- After a zip archive was unpacked without an error, each file contains what the last entry for it
    -- contains, if the entry is below the path, and all other files are as they were. The file system
    -- does what it documents, and takes all data.
    pub unzip_all-contents :
        (entries : List FileEntry) (s : State)
        → (unzip_all f subpath into entries s).0 ≡ none
        → contents (unzip_all f subpath into entries s).1 ≡ zip_contents entries (contents s)
    unfolding unzip_all
    unzip_all-contents [] s fine = refl
    unzip_all-contents (e ∷ entries) s fine = elim (Bool-cases (has_prefix e.name subpath)) [
      | inr above ↦
          rw (above, unzip_all) (unzip_all-contents entries s (rw (above, unzip_all) at fine))
      | inl below ↦
          rw (below, unzip_all)
            (and_then-Leaves f contents disk (file_contents e.name e (contents s))
              (zip_contents entries (file_contents e.name e (contents s)))
              (write_entry f subpath into e.name e s) (λ t. unzip_all f subpath into entries t)
              (write_entry-Leaves e.name e s)
              (λ t same rest. unzip_all-contents entries t rest ∙ ap (zip_contents entries) same)
              (rw (below, unzip_all) at fine))
    ]

    -- The same of a directory that was copied.
    pub walk_all-contents :
        (basedir : String) (steps : List (Step FileEntry)) (s : State)
        → (walk_all f subpath into basedir steps s).0 ≡ none
        → contents (walk_all f subpath into basedir steps s).1
          ≡ walk_contents basedir steps (contents s)
    unfolding walk_all
    walk_all-contents basedir [] s fine = refl
    walk_all-contents basedir (broken message ∷ steps) s fine = cc
    walk_all-contents basedir (item e ∷ steps) s fine =
        let name = trim_prefix e.name basedir in
        elim (Bool-cases (has_prefix name subpath)) [
          | inr above ↦
              rw (above, walk_all)
                (walk_all-contents basedir steps s (rw (above, walk_all) at fine))
          | inl below ↦
              rw (below, walk_all)
                (and_then-Leaves f contents disk (file_contents name e (contents s))
                  (walk_contents basedir steps (file_contents name e (contents s)))
                  (write_entry f subpath into name e s)
                  (λ t. walk_all f subpath into basedir steps t) (write_entry-Leaves name e s)
                  (λ t same rest.
                    walk_all-contents basedir steps t rest ∙ ap (walk_contents basedir steps) same)
                  (rw (below, walk_all) at fine))
        ]
