-- ===== src/Download/Again.antt =====
-- What a second download finds.
use bundle_controller.Base.{
  String, Bool, true, false, not, ◌||◌, Option, none, some, List, [], ◌≡◌, refl, ◌∙◌, arith, ◌==◌,
  string_eq, if◌then◌else◌, Result, ok, err, has_prefix, has_suffix, sym,
}
use mathlib.Core.Path.{subst}
use bundle_controller.Types.{Bundle, bundle_kind_helm}
use bundle_controller.Helm.Sdk.{Chart, Sdk}
use bundle_controller.Download.Host.{FileSystem}
use bundle_controller.Download.{
  Downloaded, search_name, find_at, has_tgz, is_not_empty, from_cache, download_url, move_chart,
  fetched, download,
}

module _ {State : Type 0} (f : FileSystem State) (h : Sdk State) where
  -- The bundle but for its status.
  KeepsSpec : Bundle → Downloaded f → Type 0
  KeepsSpec bundle d = d.1 ≡ record bundle { status = d.1.status }

  fetched-KeepsSpec :
      (into : String) (bundle : Bundle) (r : Option String × State)
      → KeepsSpec bundle (fetched f into bundle r)
  unfolding KeepsSpec
  fetched-KeepsSpec into bundle (some message, s) = refl
  fetched-KeepsSpec into bundle (none, s) = refl

  move_chart-KeepsSpec :
      (into : String) (bundle : Bundle) (r : Result (String × Chart) × State)
      → KeepsSpec bundle (move_chart f h into bundle r)
  unfolding download KeepsSpec
  move_chart-KeepsSpec into bundle (err message, s) = refl
  move_chart-KeepsSpec into bundle (ok (path, chart), s) = ground arith

  left_alone : (bundle : Bundle) (r : Result String) (s : State) → KeepsSpec bundle (r, bundle, s)
  unfolding KeepsSpec
  left_alone bundle r s = refl

  if-KeepsSpec :
      (bundle : Bundle) (test : Bool) (x y : Downloaded f)
      → KeepsSpec bundle x
      → KeepsSpec bundle y
      → KeepsSpec bundle (if test then x else y)
  if-KeepsSpec bundle true x y hx hy = hx
  if-KeepsSpec bundle false x y hx hy = hy

  download_url-KeepsSpec :
      (into : String) (bundle : Bundle) (s : State)
      → KeepsSpec bundle (download_url f h into bundle s)
  unfolding download
  download_url-KeepsSpec into bundle s =
      let repo = bundle.spec.url in
      if-KeepsSpec bundle (has_prefix repo "file://") _ _ (fetched-KeepsSpec into bundle _) (
        if-KeepsSpec bundle (has_suffix repo ".git") _ _ (fetched-KeepsSpec into bundle _) (
          if-KeepsSpec bundle (has_suffix repo ".zip") _ _ (fetched-KeepsSpec into bundle _) (
            if-KeepsSpec bundle (has_suffix repo ".tar.gz" || has_suffix repo ".tgz") _ _
              (fetched-KeepsSpec into bundle _)
              (if-KeepsSpec bundle (bundle.spec.kind == bundle_kind_helm) _ _
                (move_chart-KeepsSpec into bundle _) (left_alone bundle _ _)))))

  from_cache-KeepsSpec :
      (cache_dir : String) (bundle : Bundle) (s : State)
      → KeepsSpec bundle (from_cache f h cache_dir bundle s)
  unfolding download
  from_cache-KeepsSpec cache_dir bundle s =
      let into = f.join cache_dir (search_name bundle) in
      if-KeepsSpec bundle (bundle.spec.version == "") _ _ (left_alone bundle _ _) (
        if-KeepsSpec bundle (not (find_at f into s == "")) _ _ (left_alone bundle _ _) (
          if-KeepsSpec bundle (bundle.spec.url == "") _ _
            (if-KeepsSpec bundle (is_not_empty f bundle.spec.path s) _ _ (left_alone bundle _ _)
              (left_alone bundle _ _))
            (download_url-KeepsSpec into bundle s)))

  -- Where the path of the version stands, if no search directory is given.
  abbrev pub cache_path : String → Bundle → String
  cache_path cache_dir bundle = f.join cache_dir (search_name bundle)

  from_cache_hit :
      (cache_dir : String) (bundle : Bundle) (s : State) (entries : List String)
      → (bundle.spec.version == "") ≡ false
      → (cache_path cache_dir bundle == "") ≡ false
      → has_tgz f (cache_path cache_dir bundle) s ≡ none
      → f.read_dir (cache_path cache_dir bundle) s ≡ some entries
      → from_cache f h cache_dir bundle s ≡ (ok (cache_path cache_dir bundle), bundle, s)
  unfolding download find_at is_not_empty
  from_cache_hit cache_dir bundle s entries versioned path no_archive there = ground arith

  download_cached :
      (cache_dir : String)
      → (cache_dir == "") ≡ false
      → (bundle : Bundle) (s : State)
      → download f h bundle cache_dir [] s ≡ from_cache f h cache_dir bundle s
  unfolding download
  download_cached cache_dir given bundle s = rw given refl

  -- A bundle keeps all but its status.
  pub spec-download :
      (cache_dir : String)
      → (cache_dir == "") ≡ false
      → (bundle : Bundle) (s : State)
      → (download f h bundle cache_dir [] s).1
        ≡ record bundle { status = (download f h bundle cache_dir [] s).1.status }
  unfolding KeepsSpec
  spec-download cache_dir given bundle s =
      subst (KeepsSpec bundle) (sym (download_cached cache_dir given bundle s))
        (from_cache-KeepsSpec cache_dir bundle s)

  -- A version whose directory is in the cache, with no archive beside it, is found there.
  pub download-cached :
      (cache_dir : String) (bundle : Bundle) (s : State) (entries : List String)
      → (bundle.spec.version == "") ≡ false
      → (cache_dir == "") ≡ false
      → (cache_path cache_dir bundle == "") ≡ false
      → has_tgz f (cache_path cache_dir bundle) s ≡ none
      → f.read_dir (cache_path cache_dir bundle) s ≡ some entries
      → download f h bundle cache_dir [] s ≡ (ok (cache_path cache_dir bundle), bundle, s)
  download-cached cache_dir bundle s entries versioned given path no_archive there =
      download_cached cache_dir given bundle s
      ∙ from_cache_hit cache_dir bundle s entries versioned path no_archive there

  -- A cache directory that can be read is taken for the bundle, whatever it holds: once a download
  -- has made it, the next download succeeds with it and does nothing, even if the first failed.
  -- A version and a cache directory are given, and no search directory.
  pub download_again :
      (bundle : Bundle) (cache_dir : String) (s : State) (entries : List String)
      → (bundle.spec.version == "") ≡ false
      → (cache_dir == "") ≡ false
      → (cache_path cache_dir bundle == "") ≡ false
      → has_tgz f (cache_path cache_dir bundle) (download f h bundle cache_dir [] s).2 ≡ none
      → f.read_dir (cache_path cache_dir bundle) (download f h bundle cache_dir [] s).2
        ≡ some entries
      → let d = download f h bundle cache_dir [] s in
        download f h d.1 cache_dir [] d.2 ≡ (ok (cache_path cache_dir bundle), d.1, d.2)
  download_again bundle cache_dir s entries versioned given path no_archive there =
      let d = download f h bundle cache_dir [] s in
      subst (λ b. download f h b cache_dir [] d.2 ≡ (ok (cache_path cache_dir bundle), b, d.2))
        (sym (spec-download cache_dir given bundle s))
        (download-cached cache_dir (record bundle { status = d.1.status }) d.2 entries versioned
          given path no_archive there)
