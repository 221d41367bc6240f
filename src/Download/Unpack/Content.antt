-- ===== src/Download/Unpack/Content.antt =====
-- What the calls of the file system do to the content of the files.
use mathlib.Core.Path.{fun_ext}
use bundle_controller.Base.{
  ℕ, String, Option, none, some, ◌≡◌, refl, ◌∙◌, ap, arith, ◌==◌, ==_refl, string_eq, if◌then◌else◌,
  Result, ok, err,
}
use bundle_controller.Download.Host.{FileSystem}
use bundle_controller.Download.Unpack.{and_then}

-- The content of each file, by its path.
abbrev pub Contents : Type 0
Contents = String → Option String

abbrev pub put_file : String → String → Contents → Contents
put_file path text before q = if path == q then some text else before q

-- What the operating system documents of files, on a disk that takes all data: a directory that is
-- made changes no content, a file that is created is empty, and what is copied into an empty file is
-- its content; no call changes another file.
pub record IsDisk {State : Type 0} (f : FileSystem State) (contents : State → Contents)
    : Type 0 where
  pub mkdir_all-contents :
      (path : String) (mode : ℕ) (s t : State)
      → f.mkdir_all path mode s ≡ (none, t)
      → contents t ≡ contents s
  pub create-contents :
      (path : String) (mode : ℕ) (s t : State)
      → f.create path mode s ≡ (none, t)
      → contents t ≡ put_file path "" (contents s)
  pub copy-contents :
      (path text : String) (s : State)
      → contents s path ≡ some ""
      → contents (f.copy path text s) ≡ put_file path text (contents s)
  pub write_file-contents :
      (path text : String) (mode : ℕ) (s t : State)
      → f.write_file path text mode s ≡ (none, t)
      → contents t ≡ put_file path text (contents s)

-- A file that is written twice has its last content.
put_file-put_file :
    (path old text : String) (before : Contents)
    → put_file path text (put_file path old before) ≡ put_file path text before
put_file-put_file path old text before = fun_ext λ q. ground arith

-- Nothing is copied from a source that cannot be opened.
abbrev pub text_of : Result String → String
text_of (err message) = ""
text_of (ok text) = text

module _ {State : Type 0} (f : FileSystem State) (contents : State → Contents)
    (disk : IsDisk f contents) where
  -- The step writes what it should, if it reports no error.
  abbrev pub Leaves : Contents → Option String × State → Type 0
  Leaves after w = w.0 ≡ none → contents w.1 ≡ after

  pub and_then-Leaves :
      (middle after : Contents) (w : Option String × State) (next : State → Option String × State)
      → Leaves middle w
      → ((t : State) → contents t ≡ middle → Leaves after (next t))
      → Leaves after (and_then w next)
  and_then-Leaves middle after (some message, t) next first then_next fine = cc
  and_then-Leaves middle after (none, t) next first then_next fine = then_next t (first refl) fine

  pub made-Leaves :
      (path : String) (mode : ℕ) (s : State) → Leaves (contents s) (f.mkdir_all path mode s)
  made-Leaves path mode s fine =
      disk.mkdir_all-contents path mode s _ (λ i. (fine i, (f.mkdir_all path mode s).1))

  pub empty-Leaves :
      (path : String) (mode : ℕ) (s : State) (before : Contents)
      → contents s ≡ before
      → Leaves (put_file path "" before) (f.create path mode s)
  empty-Leaves path mode s before same fine =
      disk.create-contents path mode s _ (λ i. (fine i, (f.create path mode s).1))
      ∙ ap (put_file path "") same

  pub created-Leaves :
      (path text : String) (mode : ℕ) (s : State) (before : Contents)
      → contents s ≡ before
      → Leaves
          (put_file path text before)
          (and_then (f.create path mode s) (λ u. (none, f.copy path text u)))
  created-Leaves path text mode s before same =
      and_then-Leaves (put_file path "" before) (put_file path text before) (f.create path mode s) _
        (empty-Leaves path mode s before same)
        (λ u empty _.
          disk.copy-contents path text u
            (ap (λ (g : Contents). g path) empty ∙ ground (arith, ==_refl path))
          ∙ ap (put_file path text) empty
          ∙ put_file-put_file path "" text before)
