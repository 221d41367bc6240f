-- ===== src/Download/Search.antt =====
-- The search directories and their order.
use bundle_controller.Base.{
  String, true, false, ◌||◌, List, [], ◌∷◌, ◌++◌, ◌≡◌, refl, ◌==◌, string_eq, ok, All,
}
use bundle_controller.Types.{Bundle, bundle_kind_helm, bundle_kind_template}
use bundle_controller.Helm.Sdk.{Sdk}
use bundle_controller.Download.Host.{FileSystem}
use bundle_controller.Download.{
  search_name, find_at, download, search, take_found, cache_dir_or_default,
}

module _ {State : Type 0} (f : FileSystem State) (h : Sdk State) (bundle : Bundle) (s : State) where
  -- What a search directory has of the bundle.
  abbrev pub found_in : String → String
  found_in dir = find_at f (f.join dir (search_name bundle)) s

  search-first :
      (cache_dir : String) (before after : List String) (dir : String)
      → All (λ other. (found_in other == "") ≡ true) before
      → (found_in dir == "") ≡ false
      → search f h cache_dir (before ++ dir ∷ after) bundle s
        ≡ take_found f h (found_in dir) bundle s
  unfolding download
  search-first cache_dir [] after dir misses hit = rw (hit, search)
  search-first cache_dir (other ∷ before) after dir (miss, misses) hit =
      rw (miss, search) (search-first cache_dir before after dir misses hit)

  -- The first search directory that has the bundle decides: for a kind that needs no chart, the
  -- download succeeds with what that directory has, whatever the cache and the later directories
  -- hold, and changes neither the bundle nor the files.
  pub download-first :
      (cache_dir : String) (before after : List String) (dir : String)
      → (bundle.spec.kind == bundle_kind_helm || bundle.spec.kind == bundle_kind_template) ≡ false
      → All (λ other. (found_in other == "") ≡ true) before
      → (found_in dir == "") ≡ false
      → download f h bundle cache_dir (before ++ dir ∷ after) s ≡ (ok (found_in dir), bundle, s)
  unfolding download
  download-first cache_dir before after dir chartless misses hit =
      rw
        (
          search-first (cache_dir_or_default f cache_dir s) before after dir misses hit,
          take_found,
          chartless,
        )
        refl
