-- ===== src/Helm/Cli/Apart.antt =====
-- What loading, applying and removing charts leaves alone.
use bundle_controller.Base.{
  ℕ, String, Option, none, some, List, [], ◌∷◌, ◌≡◌, refl, ◌∙◌, string_eq, Result, ok, err,
  Bool-cases, Option-cases, Result-cases, inl, inr,
}
use bundle_controller.Values.Data.{Fields}
use bundle_controller.Helm.Sdk.{Chart, Release, Found, found, not_found, broken, Sdk}
use bundle_controller.Helm.History.{delete_all, remove_histories, revisions_to_delete, newer}
use bundle_controller.Helm.Cli.{
  ApplyOptions, load_chart, load_located, load_updated, is_current, upgrade_or_install,
  apply_loaded, apply_chart, remove_chart, uninstalled, histories_limit,
}

-- The helm library, whose releases do not hold a part of what the state keeps.
pub record IsSdkApart {State A : Type 0} (h : Sdk State) (view : State → A) : Type 0 where
  pub locate-view :
      (name repo version : String) (s : State)
      → view (h.locate_chart name repo version s).1 ≡ view s
  pub update-view : (path : String) (s : State) → view (h.update path s).1 ≡ view s
  pub install-view :
      (namespace name : String) (chart : Chart) (values : Option Fields) (s : State)
      → view (h.install namespace name chart values s).1 ≡ view s
  pub upgrade-view :
      (namespace name : String) (chart : Chart) (values : Option Fields) (s : State)
      → view (h.upgrade namespace name chart values s).1 ≡ view s
  pub uninstall-view :
      (namespace name : String) (s : State) → view (h.uninstall namespace name s).1 ≡ view s
  pub delete-view :
      (namespace name : String) (version : ℕ) (s : State)
      → view (h.delete namespace name version s).1 ≡ view s

module _ {State A : Type 0} (h : Sdk State) (view : State → A) (apart : IsSdkApart h view) where
  load_updated-view :
      (path : String) (w : Option String × State) → view (load_updated h path w).1 ≡ view w.1
  unfolding load_updated
  load_updated-view path (some message, s) = refl
  load_updated-view path (none, s) = elim (Result-cases (h.load path s)) [
    | inl (message, failed) ↦ rw (failed, load_updated) refl
    | inr (chart, loaded) ↦ rw (loaded, load_updated) refl
  ]

  load_located-view : (w : Result String × State) → view (load_located h w).1 ≡ view w.1
  unfolding load_located
  load_located-view (err message, s) = refl
  load_located-view (ok path, s) = elim (Result-cases (h.load path s)) [
    | inl (message, failed) ↦ rw (failed, load_located) refl
    | inr (chart, loaded) ↦ elim (Option-cases (h.check_dependencies chart s)) [
      | inl whole ↦ rw (loaded, load_located, whole) refl
      | inr (message, lacking) ↦
          rw (loaded, load_located, lacking)
            (load_updated-view path (h.update path s) ∙ apart.update-view path s)
    ]
  ]

  pub load_chart-view :
      (name repo version : String) (s : State) → view (load_chart h name repo version s).1 ≡ view s
  unfolding load_chart
  load_chart-view name repo version s =
      load_located-view (h.locate_chart name repo version s) ∙ apart.locate-view name repo version s

  delete_all-view :
      (namespace : String) (rlss : List Release) (s : State)
      → view (delete_all h namespace rlss s).1 ≡ view s
  unfolding delete_all
  delete_all-view namespace [] s = refl
  delete_all-view namespace (rls ∷ rest) s =
      let (failure, t) = h.delete namespace rls.name rls.version s in
      elim (Option-cases failure) [
        | inl fine ↦
            rw (fine, delete_all)
              (delete_all-view namespace rest t
                ∙ apart.delete-view namespace rls.name rls.version s)
        | inr (message, failed) ↦
            rw (failed, delete_all) (apart.delete-view namespace rls.name rls.version s)
      ]

  remove_histories-view :
      (namespace name : String) (max : ℕ) (s : State)
      → view (remove_histories h namespace name max s).1 ≡ view s
  unfolding remove_histories delete_all
  remove_histories-view namespace name max s = elim (Result-cases (h.history namespace name s)) [
    | inl (message, failed) ↦ rw (failed, remove_histories) refl
    | inr (rlss, read) ↦
        rw (read, remove_histories)
          (delete_all-view namespace (revisions_to_delete max (h.sort_func newer rlss)) s)
  ]

  upgrade_or_install-view :
      (existing : Found) (name namespace : String) (chart : Chart) (values : Option Fields)
      (s : State)
      → view (upgrade_or_install h existing name namespace chart values s).1 ≡ view s
  unfolding upgrade_or_install
  upgrade_or_install-view (broken message) name namespace chart values s = refl
  upgrade_or_install-view not_found name namespace chart values s =
      apart.install-view namespace name chart values s
  upgrade_or_install-view (found exist) name namespace chart values s =
      elim (Bool-cases (is_current h exist values)) [
        | inl current ↦ rw current refl
        | inr changed ↦ rw changed (
            apart.upgrade-view namespace name chart values _
            ∙ remove_histories-view namespace name histories_limit s)
      ]

  apply_loaded-view :
      (name namespace : String) (values : Option Fields) (options : ApplyOptions)
      (w : Result (String × Chart) × State)
      → view (apply_loaded h name namespace values options w).1 ≡ view w.1
  unfolding apply_loaded
  apply_loaded-view name namespace values options (err message, s) = refl
  apply_loaded-view name namespace values options (ok (path, chart), s) =
      elim (Bool-cases options.dry_run) [
        | inl dry ↦ rw dry refl
        | inr real ↦ rw real (upgrade_or_install-view _ _ namespace chart values s)
      ]

  pub apply_chart-view :
      (name namespace path : String) (values : Option Fields) (options : ApplyOptions) (s : State)
      → view (apply_chart h name namespace path values options s).1 ≡ view s
  unfolding apply_chart
  apply_chart-view name namespace path values options s =
      apply_loaded-view name namespace values options _
      ∙ load_chart-view _ options.repo options.version s

  uninstalled-state : (w : Result Release × State) → (uninstalled h w).1 ≡ w.1
  uninstalled-state (err message, s) = refl
  uninstalled-state (ok rls, s) = refl

  pub remove_chart-view :
      (name namespace : String) (s : State) → view (remove_chart h name namespace s).1 ≡ view s
  unfolding remove_chart
  remove_chart-view name namespace s = by_get (h.get namespace name s)
    where
      by_get :
          (existing : Found)
          → view
              (elim existing as (λ _. Result (Option Release) × State) [
                | broken message ↦ (err message, s)
                | not_found ↦ (ok none, s)
                | found exist ↦ uninstalled h (h.uninstall namespace exist.name s)
              ]).1
            ≡ view s
      by_get (broken message) = refl
      by_get not_found = refl
      by_get (found exist) = rw uninstalled-state (apart.uninstall-view namespace exist.name s)
