-- ===== src/Download/Unpack/Missing.antt =====
-- `DownloadZip` where no entry makes the directory of a file.
use bundle_controller.Base.{
  ℕ, String, Bool, true, false, Option, none, some, List, [], ◌∷◌, ◌++◌, ◌≡◌, ◌≢◌, refl, All, ok,
  has_prefix, Result-cases, inl, inr,
}
use bundle_controller.Download.Host.{FileSystem, FileEntry}
use bundle_controller.Download.Unpack.{
  download_zip, unpack_zip, unzip_all, write_entry, and_then, target, zip_subpath,
}

-- What the operating system documents: a file is not created in a directory that is not there.
abbrev pub NeedsDirectory : {State : Type 0} → FileSystem State → (String → State → Bool) → Type 0
NeedsDirectory {State} f is_dir =
    (path : String) (mode : ℕ) (s : State)
    → is_dir (f.dir path) s ≡ false
    → (f.create path mode s).0 ≢ none

module _ {State : Type 0} (f : FileSystem State) (is_dir : String → State → Bool) where
  and_then-failed :
      (w : Option String × State) (next : State → Option String × State)
      → w.0 ≢ none
      → (and_then w next).0 ≢ none
  and_then-failed (some message, s) next failed fine = failed fine
  and_then-failed (none, s) next failed fine = failed refl

  write_entry-failed :
      (subpath into : String) (e : FileEntry) (s : State)
      → NeedsDirectory f is_dir
      → e.is_dir ≡ false
      → is_dir (f.dir (target f subpath into e.name)) s ≡ false
      → (write_entry f subpath into e.name e s).0 ≢ none
  unfolding unzip_all
  write_entry-failed subpath into e s needs file missing = elim (Result-cases e.mode) [
    | inl (message, unknown) ↦ rw unknown (λ fine. cc)
    | inr (mode, known) ↦
        rw (known, file) (and_then-failed _ _ (needs (target f subpath into e.name) mode s missing))
  ]

  unzip_all-failed :
      (subpath into : String) (above rest : List FileEntry) (e : FileEntry) (s : State)
      → NeedsDirectory f is_dir
      → All (λ x. has_prefix x.name subpath ≡ false) above
      → has_prefix e.name subpath ≡ true
      → e.is_dir ≡ false
      → is_dir (f.dir (target f subpath into e.name)) s ≡ false
      → (unzip_all f subpath into (above ++ (e ∷ rest)) s).0 ≢ none
  unfolding unzip_all
  unzip_all-failed subpath into [] rest e s needs passed below file missing =
      rw (below, unzip_all)
        (and_then-failed _ _ (write_entry-failed subpath into e s needs file missing))
  unzip_all-failed subpath into (x ∷ above) rest e s needs (passed, all) below file missing =
      rw (passed, unzip_all)
        (unzip_all-failed subpath into above rest e s needs all below file missing)

  -- A zip archive is not unpacked if the first of its entries below the path is a file in a directory
  -- that is not there yet: the download fails, since no directory is made but for an entry of its own.
  -- The archive is fetched and read, and the file system does what it documents.
  pub download_zip-missing :
      (uri subpath into raw : String) (above rest : List FileEntry) (e : FileEntry) (s t : State)
      → NeedsDirectory f is_dir
      → f.http_get uri s ≡ (ok raw, t)
      → f.unzip raw ≡ ok (above ++ (e ∷ rest))
      → All (λ x. has_prefix x.name (zip_subpath f subpath) ≡ false) above
      → has_prefix e.name (zip_subpath f subpath) ≡ true
      → e.is_dir ≡ false
      → is_dir (f.dir (target f (zip_subpath f subpath) into e.name)) t ≡ false
      → (download_zip f uri subpath into s).0 ≢ none
  unfolding download_zip
  download_zip-missing uri subpath into raw above rest e s t needs fetched unzipped passed below
        file missing =
      rw (fetched, unpack_zip, unzipped)
        (unzip_all-failed (zip_subpath f subpath) into above rest e t needs passed below file
          missing)
