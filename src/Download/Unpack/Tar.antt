-- ===== src/Download/Unpack/Tar.antt =====
-- What the files contain after an archive was unpacked without an error.
use bundle_controller.Base.{
  String, not, ◌&&◌, none, List, [], ◌∷◌, ◌≡◌, refl, ◌∙◌, ap, string_eq, if◌then◌else◌, has_prefix,
  Bool-cases, inl, inr,
}
use bundle_controller.Download.Host.{FileSystem, TarEntry, Step, item, broken}
use bundle_controller.Download.Unpack.{untar_all, untar_entry, target}
use bundle_controller.Download.Unpack.Content.{
  Contents, put_file, IsDisk, Leaves, and_then-Leaves, made-Leaves, created-Leaves,
}

module _ {State : Type 0} (f : FileSystem State) (subpath into : String) where
  -- The files of an archive, one written over the other: those below the path, at their names below
  -- the directory.
  abbrev pub tar_contents : List (Step TarEntry) → Contents → Contents
  tar_contents [] before = before
  tar_contents (broken message ∷ steps) before = before
  tar_contents (item e ∷ steps) before = tar_contents steps (
      if has_prefix e.name subpath && not e.is_dir
      then put_file (target f subpath into e.name) e.content before
      else before)

  module _ (contents : State → Contents) (disk : IsDisk f contents) where
    abbrev entry_contents : TarEntry → Contents → Contents
    entry_contents e before =
        if not e.is_dir then put_file (target f subpath into e.name) e.content before else before

    untar_entry-Leaves :
        (e : TarEntry) (s : State)
        → Leaves f contents disk (entry_contents e (contents s)) (untar_entry f subpath into e s)
    unfolding untar_all
    untar_entry-Leaves e s = elim (Bool-cases e.is_dir) [
      | inl dir ↦ rw dir (made-Leaves f contents disk _ _ s)
      | inr file ↦ rw file (
          and_then-Leaves f contents disk (contents s) _ _ _ (made-Leaves f contents disk _ _ s)
            (λ t same.
              created-Leaves f contents disk (target f subpath into e.name) e.content e.mode t
                (contents s) same))
    ]

    -- After an archive was unpacked without an error, each file contains what the last entry for it
    -- contains, if the entry is below the path, and all other files are as they were. The file system
    -- does what it documents, and takes all data.
    pub untar_all-contents :
        (steps : List (Step TarEntry)) (s : State)
        → (untar_all f subpath into steps s).0 ≡ none
        → contents (untar_all f subpath into steps s).1 ≡ tar_contents steps (contents s)
    unfolding untar_all
    untar_all-contents [] s fine = refl
    untar_all-contents (broken message ∷ steps) s fine = cc
    untar_all-contents (item e ∷ steps) s fine = elim (Bool-cases (has_prefix e.name subpath)) [
      | inr above ↦
          rw (above, untar_all) (untar_all-contents steps s (rw (above, untar_all) at fine))
      | inl below ↦
          rw (below, untar_all)
            (and_then-Leaves f contents disk (entry_contents e (contents s))
              (tar_contents steps (entry_contents e (contents s))) (untar_entry f subpath into e s)
              (λ t. untar_all f subpath into steps t) (untar_entry-Leaves e s)
              (λ t same rest. untar_all-contents steps t rest ∙ ap (tar_contents steps) same)
              (rw (below, untar_all) at fine))
    ]
