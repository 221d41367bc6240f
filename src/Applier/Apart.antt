-- ===== src/Applier/Apart.antt =====
-- What the default appliers leave alone.
use bundle_controller.Base.{
  String, false, List, ◌≡◌, refl, ◌∙◌, ◌==◌, string_eq, if◌then◌else◌, All, contains, Result, ok,
  err, lookup, Bool-cases, inl, inr,
}
use bundle_controller.Types.{
  Bundle, ObjectReference, reference_eq, bundle_kind_helm, bundle_kind_kustomize,
  bundle_kind_template,
}
use bundle_controller.Cluster.{Client, Platform, IsFaithful}
use bundle_controller.Diff.Removes.{IsPlain}
use bundle_controller.Sync.Apart.{IsApart}
use bundle_controller.Native.{TemplateFun, Tools, kustomize_build_func}
use bundle_controller.Native.Apart as NativeApart
use bundle_controller.Helm.Sdk.{Sdk}
use bundle_controller.Helm.Cli.Apart.{IsSdkApart}
use bundle_controller.Helm.Apply.Apart as HelmApart
use bundle_controller.Download.{download}
use bundle_controller.Download.Host.{FileSystem}
use bundle_controller.Download.Unpack.Apart.{IsHostApart}
use bundle_controller.Download.Apart.{download-view}
use bundle_controller.Applier.{BundleApplier, apply, apply_in, remove, new_default_appliers}
use bundle_controller.Applier.Default.{new_default_apply, native_methods, helm_methods}
use bundle_controller.Applier.Removal.{default_applier}

module _ (p : Platform) (c : Client) (t : Tools) (h : Sdk c.State) (f : FileSystem c.State)
    (build : String → c.State → Result String) (template_fun : TemplateFun c.State)
    (cache_dir : String) (search_dirs : List String) {A : Type 0} (view : c.State → A)
    (self : ObjectReference) (cluster : IsApart c view self) (sdk : IsSdkApart h view)
    (host : IsHostApart f view) (faithful : IsFaithful p) where
  abbrev a : BundleApplier c.State
  a = default_applier p c t h f build template_fun cache_dir search_dirs

  -- What is rendered by the kind of the bundle, if it is not a chart, and what it manages, are other
  -- objects.
  abbrev pub RendersElsewhere : Bundle → String → c.State → Type 0
  RendersElsewhere bundle into s =
      if bundle_kind_kustomize == bundle.spec.kind
      then NativeApart.Elsewhere p c t view self cluster faithful
          (kustomize_build_func build bundle into s)
      else if bundle_kind_template == bundle.spec.kind
      then NativeApart.Elsewhere p c t view self cluster faithful (template_fun bundle into s)
      else Unit

  pub remove-view :
      (bundle : Bundle) (s : c.State)
      → All IsPlain bundle.status.resources
      → contains bundle.status.resources self ≡ false
      → view (remove a bundle s).state ≡ view s
  unfolding remove new_default_apply new_default_appliers lookup native_methods helm_methods
  remove-view bundle s plain unmanaged =
      let removed =
        NativeApart.remove-view p c t view self cluster faithful bundle s plain unmanaged in
      elim (Bool-cases (bundle_kind_helm == bundle.spec.kind)) [
        | inl chart ↦ rw (chart, remove) (HelmApart.remove-view h view sdk t.decode bundle s)
        | inr no_chart ↦ elim (Bool-cases (bundle_kind_kustomize == bundle.spec.kind)) [
          | inl kustomized ↦ rw (no_chart, remove, kustomized) removed
          | inr neither ↦ elim (Bool-cases (bundle_kind_template == bundle.spec.kind)) [
            | inl templated ↦ rw (no_chart, remove, neither, templated) removed
            | inr unknown ↦ rw (no_chart, remove, neither, unknown) refl
          ]
        ]
      ]

  apply_in-view :
      (got : Bundle) (into : String) (s : c.State)
      → RendersElsewhere got into s
      → view (apply_in a (ok into, got, s)).state ≡ view s
  unfolding apply new_default_apply new_default_appliers lookup native_methods helm_methods
  apply_in-view got into s elsewhere = elim (Bool-cases (bundle_kind_helm == got.spec.kind)) [
    | inl chart ↦ rw (chart, apply_in) (HelmApart.apply-view h view sdk t.decode got into s)
    | inr no_chart ↦ elim (Bool-cases (bundle_kind_kustomize == got.spec.kind)) [
      | inl kustomized ↦
          rw (no_chart, apply_in, kustomized)
            (NativeApart.apply-view p c t view self cluster faithful (kustomize_build_func build)
              got into s (rw kustomized at elsewhere))
      | inr neither ↦ elim (Bool-cases (bundle_kind_template == got.spec.kind)) [
        | inl templated ↦
            rw (no_chart, apply_in, neither, templated)
              (NativeApart.apply-view p c t view self cluster faithful template_fun got into s
                (rw (neither, templated) at elsewhere))
        | inr unknown ↦ rw (no_chart, apply_in, neither, unknown) refl
      ]
    ]
  ]

  -- Of what was downloaded.
  abbrev pub GotElsewhere : Result String × Bundle × c.State → Type 0
  GotElsewhere (err message, got, s) = Unit
  GotElsewhere (ok into, got, s) = RendersElsewhere got into s

  apply_downloaded-view :
      (d : Result String × Bundle × c.State) → GotElsewhere d → view (apply_in a d).state ≡ view d.2
  unfolding apply
  apply_downloaded-view (err message, got, s) elsewhere = refl
  apply_downloaded-view (ok into, got, s) elsewhere = apply_in-view got into s elsewhere

  pub apply-view :
      (bundle : Bundle) (s : c.State)
      → GotElsewhere (download f h bundle cache_dir search_dirs s)
      → view (apply a bundle s).state ≡ view s
  unfolding apply new_default_apply
  apply-view bundle s elsewhere =
      apply_downloaded-view (download f h bundle cache_dir search_dirs s) elsewhere
      ∙ download-view f h view host sdk bundle cache_dir search_dirs s
