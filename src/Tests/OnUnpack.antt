-- ===== src/Tests/OnUnpack.antt =====
-- Archives unpacked on a disk with contents.
use bundle_controller.Base.{
  ℕ, String, ◌<>◌, Bool, false, Option, none, some, List, [], ◌∷◌, ◌≡◌, ◌≢◌, refl, sym, ap, ◌==◌,
  string_eq, if◌then◌else◌, ok, err, has_prefix, has_suffix, trim_prefix, contains, Bool-cases, inl,
  inr,
}
use bundle_controller.Download.Host.{FileSystem, TarEntry, FileEntry, GitFile, Step, item}
use bundle_controller.Download.Unpack.{untar_all, git_all, download_zip}
use bundle_controller.Download.Unpack.Content.{Contents, put_file, IsDisk}
use bundle_controller.Download.Unpack.Tar.{tar_contents, untar_all-contents}
use bundle_controller.Download.Unpack.Git.{git_contents, git_all-contents}
use bundle_controller.Download.Unpack.Missing.{NeedsDirectory, download_zip-missing}

record Files : Type 0 where
  dirs : List String
  files : Contents

-- All files of a version stand in one directory.
abbrev dir_of : String → String
dir_of path = if has_prefix path "/cache/web-v1/" then "/cache/web-v1" else "/cache"

abbrev is_dir : String → Files → Bool
is_dir path s = contains s.dirs path

abbrev zip_entry : FileEntry
zip_entry = record { name = "deploy/a.yaml"; is_dir = false; mode = ok 0; content = ok "a" }

abbrev disk : FileSystem Files
disk = record {
  join = λ dir path. if path == "" then dir else dir <> "/" <> path;
  dir = dir_of;
  base = λ path. path;
  user_home_dir = λ s. "/root";
  stat = λ path s. false;
  read_dir = λ path s. none;
  mkdir_all = λ path mode s. (none, record s { dirs = path ∷ s.dirs });
  rename = λ path other s. (some "not supported", s);
  create = λ path mode s.
      if is_dir (dir_of path) s
      then (none, record s { files = put_file path "" s.files })
      else (some "no such file or directory", s);
  copy = λ path text s. record s { files = put_file path text s.files };
  write_file = λ path text mode s. (none, record s { files = put_file path text s.files });
  http_get = λ uri s. (ok "body", s);
  untar = λ body. [];
  unzip = λ raw. ok (zip_entry ∷ []);
  parse_request_uri = λ uri. err "invalid URI for request";
  walk_dir = λ path s. [];
  clone = λ uri rev s. (err "repository not found", s);
}

abbrev contents : Files → Contents
contents s = s.files

disk-IsDisk : IsDisk disk contents
disk-IsDisk = record {
  mkdir_all-contents =
      λ path mode s t made. ap (λ (w : Option String × Files). w.1.files) (sym made);
  create-contents = create_lem;
  copy-contents = λ path text s empty. refl;
  write_file-contents =
      λ path text mode s t written. ap (λ (w : Option String × Files). w.1.files) (sym written);
}
  where
    create_lem :
        (path : String) (mode : ℕ) (s t : Files)
        → disk.create path mode s ≡ (none, t)
        → t.files ≡ put_file path "" s.files
    create_lem path mode s t created = elim (Bool-cases (is_dir (dir_of path) s)) [
      | inl there ↦ ap (λ (w : Option String × Files). w.1.files) (sym (rw there at created))
      | inr missing ↦ absurd (cc (rw missing at created))
    ]

disk-NeedsDirectory : NeedsDirectory disk is_dir
disk-NeedsDirectory path mode s missing = rw missing (λ e. cc)

abbrev empty_disk : Files
empty_disk = record { dirs = []; files = λ path. none }

abbrev entries : List (Step TarEntry)
entries =
    item (record { name = "docs/a.md"; is_dir = false; mode = 0; content = "docs" })
    ∷ item (record { name = "deploy/a.yaml"; is_dir = false; mode = 0; content = "old" })
    ∷ item (record { name = "deploy/a.yaml"; is_dir = false; mode = 0; content = "new" })
    ∷ item (record { name = "deploy/../b.yaml"; is_dir = false; mode = 0; content = "b" })
    ∷ []

-- The last entry for a file is the one that stays, and a name with dots leads out of the directory.
unpacked :
    (contents (untar_all disk "deploy/" "/cache/web-v1" entries empty_disk).1 "/cache/web-v1/a.yaml"
      ≡ some "new")
    × (contents
          (untar_all disk "deploy/" "/cache/web-v1" entries empty_disk).1
          "/cache/web-v1/../b.yaml"
        ≡ some "b")
unfolding untar_all has_prefix trim_prefix
unpacked = (refl, refl)

unpacked_fine : (untar_all disk "deploy/" "/cache/web-v1" entries empty_disk).0 ≡ none
unfolding untar_all has_prefix trim_prefix
unpacked_fine = refl

untar_all-contents_example :
    contents (untar_all disk "deploy/" "/cache/web-v1" entries empty_disk).1
    ≡ tar_contents disk "deploy/" "/cache/web-v1" entries empty_disk.files
untar_all-contents_example =
    untar_all-contents disk "deploy/" "/cache/web-v1" contents disk-IsDisk entries empty_disk
      unpacked_fine

abbrev git_files : List GitFile
git_files =
    record { name = "docs/a.md"; mode = some 0; content = ok "a" }
    ∷ record { name = "deploy/b.yaml"; mode = none; content = ok "b" }
    ∷ []

git_fine : (git_all disk "deploy/" "/cache/web-v1" git_files empty_disk).0 ≡ none
unfolding git_all has_prefix trim_prefix
git_fine = refl

git_all-contents_example :
    contents (git_all disk "deploy/" "/cache/web-v1" git_files empty_disk).1
    ≡ git_contents disk "deploy/" "/cache/web-v1" git_files empty_disk.files
git_all-contents_example =
    git_all-contents disk "deploy/" "/cache/web-v1" contents disk-IsDisk git_files empty_disk
      git_fine

download_zip-missing_example :
    (download_zip disk "https://example.com/web.zip" "deploy" "/cache/web-v1" empty_disk).0 ≢ none
unfolding has_prefix trim_prefix has_suffix
download_zip-missing_example =
    download_zip-missing disk is_dir "https://example.com/web.zip" "deploy" "/cache/web-v1" "body"
      [] [] zip_entry empty_disk empty_disk disk-NeedsDirectory refl refl tt refl refl refl
