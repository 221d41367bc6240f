-- ===== src/Download/Unpack/Apart.antt =====
-- What unpacking leaves alone.
use bundle_controller.Base.{
  ℕ, String, not, ◌&&◌, Option, none, some, List, [], ◌∷◌, ◌≡◌, refl, ◌∙◌, ◌==◌, string_eq,
  has_prefix, trim_prefix, Result, ok, err, Bool-cases, Result-cases, inl, inr,
}
use bundle_controller.Download.Host.{FileSystem, TarEntry, FileEntry, GitFile, Step, item, broken}
use bundle_controller.Download.Unpack.{
  and_then, target, default_dir_mode, untar_entry, untar_all, copy_from, write_entry, unzip_all,
  walk_all, write_git_file, git_all, unpack_tgz, download_tgz, unpack_zip, download_zip,
  download_file, write_clone, download_git,
}

-- The file system and the network, none of whose calls changes a part of what the state keeps.
pub record IsHostApart {State A : Type 0} (f : FileSystem State) (view : State → A) : Type 0 where
  pub mkdir_all-view :
      (path : String) (mode : ℕ) (s : State) → view (f.mkdir_all path mode s).1 ≡ view s
  pub rename-view : (path other : String) (s : State) → view (f.rename path other s).1 ≡ view s
  pub create-view : (path : String) (mode : ℕ) (s : State) → view (f.create path mode s).1 ≡ view s
  pub copy-view : (path content : String) (s : State) → view (f.copy path content s) ≡ view s
  pub write_file-view :
      (path content : String) (mode : ℕ) (s : State)
      → view (f.write_file path content mode s).1 ≡ view s
  pub http_get-view : (uri : String) (s : State) → view (f.http_get uri s).1 ≡ view s
  pub clone-view : (uri rev : String) (s : State) → view (f.clone uri rev s).1 ≡ view s

module _ {State A : Type 0} (f : FileSystem State) (view : State → A)
    (apart : IsHostApart f view) where
  and_then-view :
      (w : Option String × State) (next : State → Option String × State)
      → ((t : State) → view (next t).1 ≡ view t)
      → view (and_then w next).1 ≡ view w.1
  and_then-view (some message, s) next same = refl
  and_then-view (none, s) next same = same s

  module _ (subpath into : String) where
    write-view :
        (path content : String) (mode : ℕ) (s : State)
        → view (and_then (f.create path mode s) (λ u. (none, f.copy path content u))).1 ≡ view s
    write-view path content mode s =
        and_then-view (f.create path mode s) (λ u. (none, f.copy path content u))
          (λ u. apart.copy-view path content u)
        ∙ apart.create-view path mode s

    untar_entry-view : (e : TarEntry) (s : State) → view (untar_entry f subpath into e s).1 ≡ view s
    unfolding untar_entry
    untar_entry-view e s =
        let path = target f subpath into e.name in
        elim (Bool-cases e.is_dir) [
          | inl dir ↦ rw (dir, untar_entry) (apart.mkdir_all-view path default_dir_mode s)
          | inr file ↦
              rw (file, untar_entry)
                (and_then-view (f.mkdir_all (f.dir path) default_dir_mode s) _
                    (write-view path e.content e.mode)
                  ∙ apart.mkdir_all-view (f.dir path) default_dir_mode s)
        ]

    untar_all-view :
        (steps : List (Step TarEntry)) (s : State)
        → view (untar_all f subpath into steps s).1 ≡ view s
    unfolding untar_all
    untar_all-view [] s = refl
    untar_all-view (broken message ∷ steps) s = refl
    untar_all-view (item e ∷ steps) s = elim (Bool-cases (has_prefix e.name subpath)) [
      | inr above ↦ rw (above, untar_all) (untar_all-view steps s)
      | inl below ↦
          rw (below, untar_all)
            (and_then-view (untar_entry f subpath into e s) (λ t. untar_all f subpath into steps t)
                (untar_all-view steps)
              ∙ untar_entry-view e s)
    ]

    copy_from-view :
        (path : String) (source : Result String) (s : State)
        → view (copy_from f subpath into path source s).1 ≡ view s
    unfolding copy_from
    copy_from-view path (err message) s = refl
    copy_from-view path (ok content) s = apart.copy-view path content s

    write_entry-view :
        (name : String) (e : FileEntry) (s : State)
        → view (write_entry f subpath into name e s).1 ≡ view s
    unfolding write_entry
    write_entry-view name e s = elim (Result-cases e.mode) [
      | inl (message, unknown) ↦ rw (unknown, write_entry) refl
      | inr (mode, known) ↦ elim (Bool-cases e.is_dir) [
        | inl dir ↦ rw (known, write_entry, dir) (apart.mkdir_all-view _ mode s)
        | inr file ↦
            rw (known, write_entry, file)
              (and_then-view _ _ (copy_from-view _ e.content) ∙ apart.create-view _ mode s)
      ]
    ]

    unzip_all-view :
        (entries : List FileEntry) (s : State)
        → view (unzip_all f subpath into entries s).1 ≡ view s
    unfolding unzip_all
    unzip_all-view [] s = refl
    unzip_all-view (e ∷ entries) s = elim (Bool-cases (has_prefix e.name subpath)) [
      | inr above ↦ rw (above, unzip_all) (unzip_all-view entries s)
      | inl below ↦
          rw (below, unzip_all)
            (and_then-view _ _ (unzip_all-view entries) ∙ write_entry-view e.name e s)
    ]

    walk_all-view :
        (basedir : String) (steps : List (Step FileEntry)) (s : State)
        → view (walk_all f subpath into basedir steps s).1 ≡ view s
    unfolding walk_all
    walk_all-view basedir [] s = refl
    walk_all-view basedir (broken message ∷ steps) s = refl
    walk_all-view basedir (item e ∷ steps) s =
        elim (Bool-cases (has_prefix (trim_prefix e.name basedir) subpath)) [
          | inr above ↦ rw (above, walk_all) (walk_all-view basedir steps s)
          | inl below ↦
              rw (below, walk_all)
                (and_then-view _ _ (walk_all-view basedir steps)
                  ∙ write_entry-view (trim_prefix e.name basedir) e s)
        ]

    write_git_file-view :
        (g : GitFile) (s : State) → view (write_git_file f subpath into g s).1 ≡ view s
    unfolding write_git_file
    write_git_file-view g s = elim (Result-cases g.content) [
      | inl (message, unread) ↦ rw (unread, write_git_file) refl
      | inr (raw, read) ↦ elim (Bool-cases (f.dir (target f subpath into g.name) == "")) [
        | inl nowhere ↦ rw (read, write_git_file, nowhere) (apart.write_file-view _ raw _ s)
        | inr dir ↦
            rw (read, write_git_file, dir)
              (and_then-view _ _ (λ t. apart.write_file-view _ raw _ t)
                ∙ apart.mkdir_all-view _ _ s)
      ]
    ]

    git_all-view :
        (files : List GitFile) (s : State) → view (git_all f subpath into files s).1 ≡ view s
    unfolding git_all
    git_all-view [] s = refl
    git_all-view (g ∷ files) s = elim (Bool-cases (has_prefix g.name subpath)) [
      | inr above ↦ rw (above, git_all) (git_all-view files s)
      | inl below ↦
          rw (below, git_all) (and_then-view _ _ (git_all-view files) ∙ write_git_file-view g s)
    ]

  unpack_tgz-view :
      (subpath into : String) (w : Result String × State)
      → view (unpack_tgz f subpath into w).1 ≡ view w.1
  unfolding unpack_tgz
  unpack_tgz-view subpath into (err message, s) = refl
  unpack_tgz-view subpath into (ok body, s) = untar_all-view subpath into (f.untar body) s

  pub download_tgz-view :
      (uri subpath into : String) (s : State) → view (download_tgz f uri subpath into s).1 ≡ view s
  unfolding download_tgz
  download_tgz-view uri subpath into s =
      unpack_tgz-view subpath into (f.http_get uri s) ∙ apart.http_get-view uri s

  unpack_zip-view :
      (subpath into : String) (w : Result String × State)
      → view (unpack_zip f subpath into w).1 ≡ view w.1
  unfolding unpack_zip
  unpack_zip-view subpath into (err message, s) = refl
  unpack_zip-view subpath into (ok raw, s) = elim (Result-cases (f.unzip raw)) [
    | inl (message, failed) ↦ rw (failed, unpack_zip) refl
    | inr (entries, unzipped) ↦ rw (unzipped, unpack_zip) (unzip_all-view _ into entries s)
  ]

  pub download_zip-view :
      (uri subpath into : String) (s : State) → view (download_zip f uri subpath into s).1 ≡ view s
  unfolding download_zip
  download_zip-view uri subpath into s =
      unpack_zip-view subpath into (f.http_get uri s) ∙ apart.http_get-view uri s

  pub download_file-view :
      (src subpath into : String) (s : State) → view (download_file f src subpath into s).1 ≡ view s
  unfolding download_file
  download_file-view src subpath into s = elim (Result-cases (f.parse_request_uri src)) [
    | inl (message, failed) ↦ rw (failed, download_file) refl
    | inr ((host, path), parsed) ↦
        elim (Bool-cases (not (host == "") && not (host == "localhost"))) [
          | inl foreign ↦ rw (parsed, download_file, foreign) refl
          | inr local ↦
              rw (parsed, download_file, local)
                (and_then-view _ _ (λ t. walk_all-view subpath into _ _ t)
                  ∙ apart.mkdir_all-view into default_dir_mode s)
        ]
  ]

  write_clone-view :
      (subpath into : String) (w : Result (List GitFile) × State)
      → view (write_clone f subpath into w).1 ≡ view w.1
  unfolding write_clone
  write_clone-view subpath into (err message, s) = refl
  write_clone-view subpath into (ok files, s) = git_all-view subpath into files s

  pub download_git-view :
      (uri rev subpath into : String) (s : State)
      → view (download_git f uri rev subpath into s).1 ≡ view s
  unfolding download_git
  download_git-view uri rev subpath into s =
      write_clone-view subpath into (f.clone uri _ s) ∙ apart.clone-view uri _ s
