-- ===== src/Download/Unpack/Git.antt =====
-- What the files contain after the files of a commit were written without an error.
use bundle_controller.Base.{
  ℕ, String, none, List, [], ◌∷◌, ◌≡◌, refl, ◌∙◌, ap, ◌==◌, string_eq, if◌then◌else◌, has_prefix,
  Bool-cases, Result-cases, inl, inr,
}
use bundle_controller.Download.Host.{FileSystem, GitFile}
use bundle_controller.Download.Unpack.{git_all, write_git_file, target}
use bundle_controller.Download.Unpack.Content.{
  Contents, put_file, IsDisk, Leaves, and_then-Leaves, made-Leaves, text_of,
}

module _ {State : Type 0} (f : FileSystem State) (subpath into : String) where
  abbrev pub git_contents : List GitFile → Contents → Contents
  git_contents [] before = before
  git_contents (g ∷ files) before = git_contents files (
      if has_prefix g.name subpath
      then put_file (target f subpath into g.name) (text_of g.content) before
      else before)

  module _ (contents : State → Contents) (disk : IsDisk f contents) where
    written-Leaves :
        (path text : String) (mode : ℕ) (s : State) (before : Contents)
        → contents s ≡ before
        → Leaves f contents disk (put_file path text before) (f.write_file path text mode s)
    written-Leaves path text mode s before same fine =
        disk.write_file-contents path text mode s _
          (λ i. (fine i, (f.write_file path text mode s).1))
        ∙ ap (put_file path text) same

    write_git_file-Leaves :
        (g : GitFile) (s : State)
        → Leaves f contents disk
            (put_file (target f subpath into g.name) (text_of g.content) (contents s))
            (write_git_file f subpath into g s)
    unfolding git_all
    write_git_file-Leaves g s =
        let path = target f subpath into g.name in
        elim (Result-cases g.content) [
          | inl (message, unread) ↦ rw unread (λ fine. cc)
          | inr (text, read) ↦ elim (Bool-cases (f.dir path == "")) [
            | inl nowhere ↦ rw (read, nowhere) (written-Leaves path text _ s (contents s) refl)
            | inr dir ↦
                rw (read, dir)
                  (and_then-Leaves f contents disk (contents s) _ _ _
                    (made-Leaves f contents disk _ _ s)
                    (λ t same. written-Leaves path text _ t (contents s) same))
          ]
        ]

    -- After the files of a commit were written without an error, each file contains what the last file
    -- of the commit for it contains, if that is below the path, and all other files are as they were.
    -- The file system does what it documents, and takes all data.
    pub git_all-contents :
        (files : List GitFile) (s : State)
        → (git_all f subpath into files s).0 ≡ none
        → contents (git_all f subpath into files s).1 ≡ git_contents files (contents s)
    unfolding git_all
    git_all-contents [] s fine = refl
    git_all-contents (g ∷ files) s fine = elim (Bool-cases (has_prefix g.name subpath)) [
      | inr above ↦ rw (above, git_all) (git_all-contents files s (rw (above, git_all) at fine))
      | inl below ↦
          let after = put_file (target f subpath into g.name) (text_of g.content) (contents s) in
          rw (below, git_all)
            (and_then-Leaves f contents disk after (git_contents files after)
              (write_git_file f subpath into g s) (λ t. git_all f subpath into files t)
              (write_git_file-Leaves g s)
              (λ t same rest. git_all-contents files t rest ∙ ap (git_contents files) same)
              (rw (below, git_all) at fine))
    ]
