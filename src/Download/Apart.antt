-- ===== src/Download/Apart.antt =====
-- What a download leaves alone.
use bundle_controller.Base.{
  String, ◌<>◌, Bool, true, false, not, ◌||◌, Option, none, some, List, [], ◌∷◌, ◌≡◌, refl, ◌∙◌,
  ◌==◌, string_eq, if◌then◌else◌, has_prefix, has_suffix, Result, ok, err, Bool-cases, Option-cases,
  inl, inr,
}
use bundle_controller.Types.{Bundle, bundle_kind_helm, bundle_kind_template}
use bundle_controller.Helm.Sdk.{Chart, Sdk}
use bundle_controller.Helm.Cli.{load_chart}
use bundle_controller.Helm.Cli.Apart.{IsSdkApart, load_chart-view}
use bundle_controller.Download.Host.{FileSystem}
use bundle_controller.Download.Unpack.{default_dir_mode}
use bundle_controller.Download.Unpack.Apart.{
  IsHostApart, download_tgz-view, download_zip-view, download_file-view, download_git-view,
}
use bundle_controller.Download.{
  Downloaded, cache_name, search_name, find_at, is_not_empty, fetched, found_chart, take_found,
  move_chart, download_url, from_cache, search, download, cache_dir_or_default,
}

module _ {State A : Type 0} (f : FileSystem State) (h : Sdk State) (view : State → A)
    (host : IsHostApart f view) (sdk : IsSdkApart h view) where
  fetched-state :
      (into : String) (bundle : Bundle) (w : Option String × State)
      → (fetched f into bundle w).2 ≡ w.1
  fetched-state into bundle (some message, s) = refl
  fetched-state into bundle (none, s) = refl

  found_chart-state :
      (path : String) (bundle : Bundle) (w : Result (String × Chart) × State)
      → (found_chart f h path bundle w).2 ≡ w.1
  unfolding found_chart
  found_chart-state path bundle (err message, s) = refl
  found_chart-state path bundle (ok (_, chart), s) = refl

  -- A view that both branches leave alone.
  if-view :
      (test : Bool) (x y : Downloaded f) (before : A)
      → view x.2 ≡ before
      → view y.2 ≡ before
      → view (if test then x else y).2 ≡ before
  if-view true x y before hx hy = hx
  if-view false x y before hx hy = hy

  take_found-view :
      (path : String) (bundle : Bundle) (s : State) → view (take_found f h path bundle s).2 ≡ view s
  unfolding take_found
  take_found-view path bundle s =
      if-view (bundle.spec.kind == bundle_kind_helm || bundle.spec.kind == bundle_kind_template) _ _
        (view s) (rw found_chart-state (load_chart-view h view sdk path "" "" s)) refl

  move_chart-view :
      (into : String) (bundle : Bundle) (w : Result (String × Chart) × State)
      → view (move_chart f h into bundle w).2 ≡ view w.1
  unfolding move_chart
  move_chart-view into bundle (err message, s) = refl
  move_chart-view into bundle (ok (path, chart), s) =
      let file = f.join (f.dir into) (f.base into <> ".tgz") in
      let made = (f.mkdir_all (f.dir file) default_dir_mode s).1 in
      let (failure, t) = f.rename path file made in
      let moved : view t ≡ view s =
        host.rename-view path file made ∙ host.mkdir_all-view (f.dir file) default_dir_mode s in
      elim (Option-cases failure) [
        | inl fine ↦ rw (fine, move_chart) moved
        | inr (message, failed) ↦ rw (failed, move_chart) moved
      ]

  download_url-view :
      (into : String) (bundle : Bundle) (s : State)
      → view (download_url f h into bundle s).2 ≡ view s
  unfolding download_url
  download_url-view into bundle s =
      let repo = bundle.spec.url in
      let path = bundle.spec.path in
      if-view (has_prefix repo "file://") _ _ (view s)
        (rw fetched-state (download_file-view f view host repo path into s))
        (if-view (has_suffix repo ".git") _ _ (view s)
          (rw fetched-state (download_git-view f view host repo bundle.spec.version path into s))
          (if-view (has_suffix repo ".zip") _ _ (view s)
            (rw fetched-state (download_zip-view f view host repo path into s))
            (if-view (has_suffix repo ".tar.gz" || has_suffix repo ".tgz") _ _ (view s)
              (rw fetched-state (download_tgz-view f view host repo path into s))
              (if-view (bundle.spec.kind == bundle_kind_helm) _ _ (view s)
                (move_chart-view into bundle
                    (load_chart h (cache_name bundle) repo bundle.spec.version s)
                  ∙ load_chart-view h view sdk (cache_name bundle) repo bundle.spec.version s)
                refl))))

  from_cache-view :
      (cache_dir : String) (bundle : Bundle) (s : State)
      → view (from_cache f h cache_dir bundle s).2 ≡ view s
  unfolding from_cache
  from_cache-view cache_dir bundle s =
      let into = f.join cache_dir (search_name bundle) in
      if-view (bundle.spec.version == "") _ _ (view s) refl (
        if-view (not (find_at f into s == "")) _ _ (view s) refl (
          if-view (bundle.spec.url == "") _ _ (view s)
            (if-view (is_not_empty f bundle.spec.path s) _ _ (view s) refl refl)
            (download_url-view into bundle s)))

  search-view :
      (cache_dir : String) (dirs : List String) (bundle : Bundle) (s : State)
      → view (search f h cache_dir dirs bundle s).2 ≡ view s
  unfolding search
  search-view cache_dir [] bundle s = from_cache-view cache_dir bundle s
  search-view cache_dir (dir ∷ dirs) bundle s =
      let found = find_at f (f.join dir (search_name bundle)) s in
      elim (Bool-cases (found == "")) [
        | inl nothing ↦ rw (nothing, search) (search-view cache_dir dirs bundle s)
        | inr something ↦ rw (something, search) (take_found-view found bundle s)
      ]

  pub download-view :
      (bundle : Bundle) (cache_dir : String) (search_dirs : List String) (s : State)
      → view (download f h bundle cache_dir search_dirs s).2 ≡ view s
  unfolding download
  download-view bundle cache_dir search_dirs s =
      search-view (cache_dir_or_default f cache_dir s) search_dirs bundle s
