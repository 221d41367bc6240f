-- ===== src/Applier/Twice.antt =====
-- The download, the choice by kind and the native applier together, called twice.
use mathlib.Core.Path.{subst}
use bundle_controller.Base.{
  String, false, none, some, List, [], refl, ◌≡◌, ◌∙◌, sym, ap, ◌==◌, string_eq, Result, ok, All,
  lookup,
}
use bundle_controller.Types.{Bundle, BundleStatus, bundle_kind_kustomize}
use bundle_controller.Values.Data.{Fields, IsMap}
use bundle_controller.Cluster.{IsStorable, Client, Platform, IsFaithful, KeepsReferences}
use bundle_controller.Manifest.{split_yaml}
use bundle_controller.Outcome.{Outcome}
use bundle_controller.Native
use bundle_controller.Native.{
  set_namespace_if_not_set, target_namespace, TemplateFun, Tools, kustomize_build_func,
}
use bundle_controller.Native.Settled.{apply_later, spec-apply}
use bundle_controller.Native.Recorded.{Agrees, unchanged, unchanged_lem}
use bundle_controller.Helm.Sdk.{Sdk}
use bundle_controller.Download.{download, has_tgz}
use bundle_controller.Download.Again.{cache_path, spec-download, download-cached}
use bundle_controller.Download.Host.{FileSystem}
use bundle_controller.Applier.{apply, apply_in, new_default_appliers, BundleApplier}
use bundle_controller.Applier.Default.{new_default_apply, native_methods}

module _ (p : Platform) (c : Client) (t : Tools) (h : Sdk c.State) (f : FileSystem c.State)
    (build : String → c.State → Result String) (template_fun : TemplateFun c.State)
    (cache_dir : String) where
  -- The appliers with no search directory, as the default options have none.
  abbrev pub applier : BundleApplier c.State
  applier = new_default_apply p c t h f build template_fun cache_dir []

  abbrev pub kustomized : Bundle → String → c.State → Outcome c.State
  kustomized bundle into s = Native.apply p c t (kustomize_build_func build) bundle into s

  pub apply-kustomize :
      (bundle got : Bundle) (into : String) (s after : c.State)
      → download f h bundle cache_dir [] s ≡ (ok into, got, after)
      → got.spec.kind ≡ bundle_kind_kustomize
      → apply applier bundle s ≡ kustomized got into after
  unfolding apply new_default_apply new_default_appliers lookup native_methods
  apply-kustomize bundle got into s after downloaded kind = rw downloaded (simp (apply_in, kind))

  module _ (bundle got : Bundle) (text : String) (entries : List String) (s after : c.State)
      (faithful : IsFaithful p) (keeps : KeepsReferences c)
      (kind : bundle.spec.kind ≡ bundle_kind_kustomize)
      (versioned : (bundle.spec.version == "") ≡ false) (given : (cache_dir == "") ≡ false)
      (path : (cache_path f h cache_dir bundle == "") ≡ false)
      (downloaded : download f h bundle cache_dir [] s
        ≡ (ok (cache_path f h cache_dir bundle), got, after))
      (built : build (cache_path f h cache_dir bundle) after ≡ ok text)
      (named : All
        (IsStorable c)
        (set_namespace_if_not_set t (target_namespace got) (split_yaml t.decode text).objs))
      (maps : (m : Fields) → bundle.spec.values.object ≡ some m → IsMap m)
      (fine : (apply applier bundle s).failure ≡ none) where
    abbrev into : String
    into = cache_path f h cache_dir bundle

    abbrev o : Outcome c.State
    o = kustomized got into after

    spec-got : got ≡ record bundle { status = got.status }
    spec-got =
        subst (λ (d : Bundle). d ≡ record bundle { status = d.status }) (ap (λ d. d.1) downloaded)
          (spec-download f h cache_dir given bundle s)

    applied : apply applier bundle s ≡ o
    applied =
        apply-kustomize bundle got into s after downloaded
          (ap (λ (b : Bundle). b.spec.kind) spec-got ∙ kind)

    -- But for its status, the bundle is left as it was.
    pub spec-applied :
        (apply applier bundle s).bundle
        ≡ record bundle { status = (apply applier bundle s).bundle.status }
    spec-applied = rw applied (
        spec-apply p c t build got into after
        ∙ ap (λ (b : Bundle). record b { status = o.bundle.status }) spec-got)

    -- Whatever has become of the rest, the bundle is up to date with any status that agrees, as long
    -- as its directory is there, with no archive beside it, and builds to the same text.
    pub applier_later :
        (u : c.State) (status : BundleStatus)
        → Agrees (apply applier bundle s).bundle.status status
        → has_tgz f into u ≡ none
        → f.read_dir into u ≡ some entries
        → build into u ≡ ok text
        → apply applier (record (apply applier bundle s).bundle { status = status }) u
          ≡ unchanged (record (apply applier bundle s).bundle { status = status }) u
    applier_later u status agrees no_archive there again =
        let spec-o : o.bundle ≡ record bundle { status = o.bundle.status } =
          rw applied at spec-applied in
        let left : Bundle = record o.bundle { status = status } in
        let spec-left : left ≡ record bundle { status = status } =
          ap (λ (b : Bundle). record b { status = status }) spec-o in
        let hit : download f h left cache_dir [] u ≡ (ok into, left, u) =
          subst (λ b. download f h b cache_dir [] u ≡ (ok into, b, u)) (sym spec-left)
            (download-cached f h cache_dir (record bundle { status = status }) u entries versioned
              given path no_archive there) in
        rw applied (
          apply-kustomize left left into u u hit (ap (λ (b : Bundle). b.spec.kind) spec-o ∙ kind)
          ∙ apply_later p c t build text into got after u status (rw applied at agrees) faithful
              keeps built named
              (λ m e. maps m (sym (ap (λ (b : Bundle). b.spec.values.object) spec-got) ∙ e))
              (rw applied at fine) again)

  -- The whole applier is settled after one successful run on a kustomize bundle: the next run, which
  -- downloads, renders and compares again, succeeds and changes neither the bundle nor the cluster
  -- nor the files. The version and a cache directory are given and no search directory; the first
  -- download ends with the directory of the version, which is still there, with no archive beside
  -- it, after the run; the directory builds to the same text both times; the rendered objects are
  -- storable and the values have unique keys; the server and the runtime keep to their documentation.
  pub applier_settled :
      (bundle got : Bundle) (text : String) (entries : List String) (s after : c.State)
      → IsFaithful p
      → KeepsReferences c
      → bundle.spec.kind ≡ bundle_kind_kustomize
      → (bundle.spec.version == "") ≡ false
      → (cache_dir == "") ≡ false
      → (cache_path f h cache_dir bundle == "") ≡ false
      → download f h bundle cache_dir [] s ≡ (ok (cache_path f h cache_dir bundle), got, after)
      → build (cache_path f h cache_dir bundle) after ≡ ok text
      → All
          (IsStorable c)
          (set_namespace_if_not_set t (target_namespace got) (split_yaml t.decode text).objs)
      → ((m : Fields) → bundle.spec.values.object ≡ some m → IsMap m)
      → (apply applier bundle s).failure ≡ none
      → has_tgz f (cache_path f h cache_dir bundle) (apply applier bundle s).state ≡ none
      → f.read_dir (cache_path f h cache_dir bundle) (apply applier bundle s).state ≡ some entries
      → build (cache_path f h cache_dir bundle) (apply applier bundle s).state ≡ ok text
      → apply applier (apply applier bundle s).bundle (apply applier bundle s).state
        ≡ apply applier bundle s
  applier_settled bundle got text entries s after faithful keeps kind versioned given path
        downloaded built named maps fine no_archive there again =
      let o = apply applier bundle s in
      applier_later bundle got text entries s after faithful keeps kind versioned given path
        downloaded built named maps fine o.state o.bundle.status (refl, refl, refl) no_archive there
        again
      ∙ unchanged_lem o fine
