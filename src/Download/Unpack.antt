-- ===== src/Download/Unpack.antt =====
-- `UnTarGz`, `DownloadZip`, `DownloadFile` and `DownloadGit`: the entries below a path are written
-- below a directory.
pub mod Selection
pub mod Content
pub mod Tar
pub mod Zip
pub mod Git
pub mod Missing
pub mod Apart
use bundle_controller.Base.{
  ℕ, String, ◌<>◌, Bool, true, false, not, ◌&&◌, Option, none, some, List, [], ◌∷◌, ◌==◌, string_eq,
  if◌then◌else◌, Result, ok, err, has_prefix, has_suffix, trim_prefix,
}
use bundle_controller.Download.Host.{FileSystem, TarEntry, FileEntry, GitFile, Step, item, broken}

abbrev pub default_dir_mode : ℕ
default_dir_mode = 0o755

abbrev pub default_file_mode : ℕ
default_file_mode = 0o644

-- An error ends a function; otherwise it goes on.
abbrev pub and_then :
    {State : Type 0}
    → Option String × State
    → (State → Option String × State)
    → Option String × State
and_then (some message, s) next = (some message, s)
and_then (none, s) next = next s

-- The directory to make, if there is one beside the archive's.
abbrev with_slash : String → String
with_slash path = if has_suffix path "/" then path else path <> "/"

module _ {State : Type 0} (f : FileSystem State) (subpath into : String) where
  -- Where an entry is written.
  abbrev pub target : String → String
  target name = f.join into (trim_prefix name subpath)

  untar_entry : TarEntry → State → Option String × State
  untar_entry e s =
      if e.is_dir
      then f.mkdir_all (target e.name) default_dir_mode s
      else and_then (f.mkdir_all (f.dir (target e.name)) default_dir_mode s) (λ t.
        and_then (f.create (target e.name) e.mode t)
          (λ u. (none, f.copy (target e.name) e.content u)))

  -- The loop of `UnTarGz`.
  unfoldable pub untar_all : List (Step TarEntry) → State → Option String × State
  unfolding untar_entry
  untar_all [] s = (none, s)
  untar_all (broken message ∷ steps) s = (some message, s)
  untar_all (item e ∷ steps) s = elim (has_prefix e.name subpath) [
    | false ↦ untar_all steps s
    | true ↦ and_then (untar_entry e s) (λ t. untar_all steps t)
  ]

  -- Opening the source comes after the file is there.
  copy_from : String → Result String → State → Option String × State
  copy_from filename (err message) s = (some message, s)
  copy_from filename (ok content) s = (none, f.copy filename content s)

  write_entry : String → FileEntry → State → Option String × State
  write_entry name e s = elim e.mode [
    | err message ↦ (some message, s)
    | ok mode ↦
        if e.is_dir
        then f.mkdir_all (target name) mode s
        else and_then (f.create (target name) mode s) (copy_from (target name) e.content)
  ]

  -- The loop of `DownloadZip`.
  unfoldable pub unzip_all : List FileEntry → State → Option String × State
  unfolding write_entry copy_from
  unzip_all [] s = (none, s)
  unzip_all (e ∷ entries) s = elim (has_prefix e.name subpath) [
    | false ↦ unzip_all entries s
    | true ↦ and_then (write_entry e.name e s) (λ t. unzip_all entries t)
  ]

  -- The walk of `DownloadFile`, over the paths below `basedir`. They are listed once, before any file
  -- is written: the source writes while it walks, which is the same unless the target lies below
  -- `basedir`.
  unfoldable pub walk_all : String → List (Step FileEntry) → State → Option String × State
  unfolding write_entry copy_from
  walk_all basedir [] s = (none, s)
  walk_all basedir (broken message ∷ steps) s = (some message, s)
  walk_all basedir (item e ∷ steps) s = elim (has_prefix (trim_prefix e.name basedir) subpath) [
    | false ↦ walk_all basedir steps s
    | true ↦ and_then (write_entry (trim_prefix e.name basedir) e s) (λ t. walk_all basedir steps t)
  ]

  mode_or_default : Option ℕ → ℕ
  mode_or_default none = default_file_mode
  mode_or_default (some mode) = mode

  write_git_file : GitFile → State → Option String × State
  write_git_file g s = elim g.content [
    | err message ↦ (some message, s)
    | ok raw ↦
        let write = f.write_file (target g.name) raw (mode_or_default g.mode) in
        if f.dir (target g.name) == ""
        then write s
        else and_then (f.mkdir_all (f.dir (target g.name)) default_dir_mode s) write
  ]

  -- The files of a commit, of `DownloadGit`.
  unfoldable pub git_all : List GitFile → State → Option String × State
  unfolding write_git_file mode_or_default
  git_all [] s = (none, s)
  git_all (g ∷ files) s = elim (has_prefix g.name subpath) [
    | false ↦ git_all files s
    | true ↦ and_then (write_git_file g s) (λ t. git_all files t)
  ]

module _ {State : Type 0} (f : FileSystem State) where
  unpack_tgz : String → String → Result String × State → Option String × State
  unpack_tgz subpath into (err message, s) = (some message, s)
  unpack_tgz subpath into (ok body, s) = untar_all f subpath into (f.untar body) s

  unfoldable pub download_tgz : String → String → String → State → Option String × State
  unfolding unpack_tgz
  download_tgz uri subpath into s = unpack_tgz subpath into (f.http_get uri s)

  -- The path of a zip entry is compared with the path as a directory.
  abbrev pub zip_subpath : String → String
  zip_subpath subpath = if subpath == "" then "" else with_slash subpath

  unpack_zip : String → String → Result String × State → Option String × State
  unpack_zip subpath into (err message, s) = (some message, s)
  unpack_zip subpath into (ok raw, s) = elim (f.unzip raw) [
    | err message ↦ (some message, s)
    | ok entries ↦ unzip_all f (zip_subpath subpath) into entries s
  ]

  unfoldable pub download_zip : String → String → String → State → Option String × State
  unfolding unpack_zip
  download_zip uri subpath into s = unpack_zip subpath into (f.http_get uri s)

  unfoldable pub download_file : String → String → String → State → Option String × State
  download_file src subpath into s = elim (f.parse_request_uri src) [
    | err message ↦ (some message, s)
    | ok (host, path) ↦
        if not (host == "") && not (host == "localhost")
        then (some ("unsupported host: " <> host), s)
        else and_then (f.mkdir_all into default_dir_mode s)
            (λ t. walk_all f subpath into (with_slash path) (f.walk_dir (with_slash path) t) t)
  ]

  write_clone : String → String → Result (List GitFile) × State → Option String × State
  write_clone subpath into (err message, s) = (some message, s)
  write_clone subpath into (ok files, s) = git_all f subpath into files s

  unfoldable pub download_git : String → String → String → String → State → Option String × State
  unfolding write_clone
  download_git clone_url rev subpath into s =
      write_clone subpath into (f.clone clone_url (if rev == "" then "HEAD" else rev) s)
