-- ===== src/Native/Settled.antt =====
-- A kustomize bundle that was applied is found up to date by the next `Apply`.

use bundle_controller.Base.{
  String, none, some, List, ◌≡◌, ◌∙◌, refl, arith, Result, ok, Option-cases, inl, inr, All,
}
use bundle_controller.Values.Data.{Fields, IsMap}
use bundle_controller.Types.{Bundle, BundleStatus}
use bundle_controller.Resource.{Unstructured}
use bundle_controller.Cluster.{IsStorable, Client, Platform, IsFaithful, KeepsReferences}
use bundle_controller.Manifest.{Split, split_yaml}
use bundle_controller.Outcome.{Outcome}
use bundle_controller.Native.Recorded.{
  Agrees, is_up_to_date-Agrees, unchanged, unchanged_lem, first, recorded-settled, first-cases,
}
use bundle_controller.Native.{
  TemplateFun, kustomize_build_func, Tools, apply, apply_split, apply_resources,
  set_namespace_if_not_set, target_namespace,
}

module _ (p : Platform) (c : Client) (t : Tools) where
  target_namespace-apply_resources :
      (resources : List Unstructured) (ns : String) (bundle : Bundle) (s : c.State)
      → target_namespace (apply_resources p c t resources ns bundle s).bundle
        ≡ target_namespace bundle
  unfolding apply_resources
  target_namespace-apply_resources resources ns bundle s = ground arith

  module _ (resources : List Unstructured) (ns : String) (bundle : Bundle) (s : c.State) where
    abbrev o : Outcome c.State
    o = first p c t resources ns bundle s

    apply_resources_later :
        (u : c.State) (status : BundleStatus)
        → Agrees o.bundle.status status
        → IsFaithful p
        → KeepsReferences c
        → All (IsStorable c) resources
        → ((m : Fields) → bundle.spec.values.object ≡ some m → IsMap m)
        → o.failure ≡ none
        → apply_resources p c t resources ns (record o.bundle { status = status }) u
          ≡ unchanged (record o.bundle { status = status }) u
    unfolding apply_resources
    apply_resources_later u status agrees faithful keeps named maps fine =
        elim (first-cases p c t resources ns bundle s fine) [
          | inl same ↦ rw same (
              rw (is_up_to_date-Agrees p c t resources bundle status (rw same at agrees) same) refl)
          | inr (fine_sync, eq) ↦ rw eq (
              recorded-settled p c t resources ns bundle s u status (rw eq at agrees) faithful keeps
                named maps fine_sync)
        ]

  apply_split_later :
      (split : Split) (bundle : Bundle) (s u : c.State) (status : BundleStatus)
      → Agrees (apply_split p c t split bundle s).bundle.status status
      → IsFaithful p
      → KeepsReferences c
      → All (IsStorable c) (set_namespace_if_not_set t (target_namespace bundle) split.objs)
      → ((m : Fields) → bundle.spec.values.object ≡ some m → IsMap m)
      → (apply_split p c t split bundle s).failure ≡ none
      → apply_split p c t split
          (record (apply_split p c t split bundle s).bundle { status = status })
          u
        ≡ unchanged (record (apply_split p c t split bundle s).bundle { status = status }) u
  unfolding apply
  apply_split_later split bundle s u status agrees faithful keeps named maps fine =
      elim (Option-cases split.failure) [
        | inl none_failed ↦
            let ns = target_namespace bundle in
            let placed = set_namespace_if_not_set t ns split.objs in
            rw none_failed (
              rw (target_namespace-apply_resources placed ns bundle s) (
                apply_resources_later placed ns bundle s u status (rw none_failed at agrees)
                  faithful keeps named maps (rw none_failed at fine)))
        | inr (message, failed) ↦ absurd (cc (rw failed at fine))
      ]

  abbrev pub applied_with : TemplateFun c.State → Bundle → String → c.State → Outcome c.State
  applied_with template_fun bundle into s = apply p c t template_fun bundle into s

  -- The same for whatever template function gives the same text again and leaves the bundle as it
  -- is then.
  pub apply_template_later :
      (template_fun : TemplateFun c.State) (text into : String) (bundle rendered : Bundle)
      (s u : c.State) (status : BundleStatus)
      → Agrees (applied_with template_fun bundle into s).bundle.status status
      → IsFaithful p
      → KeepsReferences c
      → template_fun bundle into s ≡ (ok text, rendered)
      → All
          (IsStorable c)
          (set_namespace_if_not_set t (target_namespace rendered) (split_yaml t.decode text).objs)
      → ((m : Fields) → rendered.spec.values.object ≡ some m → IsMap m)
      → (applied_with template_fun bundle into s).failure ≡ none
      → template_fun
          (record (applied_with template_fun bundle into s).bundle { status = status })
          into
          u
        ≡ (ok text, record (applied_with template_fun bundle into s).bundle { status = status })
      → applied_with template_fun
          (record (applied_with template_fun bundle into s).bundle { status = status })
          into
          u
        ≡ unchanged (record (applied_with template_fun bundle into s).bundle { status = status }) u
  unfolding apply
  apply_template_later template_fun text into bundle rendered s u status agrees faithful keeps first
        named maps fine again =
      rw again (
        rw first (
          apply_split_later (split_yaml t.decode text) rendered s u status (rw first at agrees)
            faithful keeps named maps (rw first at fine)))

  -- But for its status, a kustomize bundle is left as it was.
  pub spec-apply :
      (build : String → c.State → Result String) (bundle : Bundle) (into : String) (s : c.State)
      → (apply p c t (kustomize_build_func build) bundle into s).bundle ≡ record bundle {
        status = (apply p c t (kustomize_build_func build) bundle into s).bundle.status;
      }
  unfolding apply apply_resources
  spec-apply build bundle into s = ground arith

  abbrev pub kustomized :
      (String → c.State → Result String) → Bundle → String → c.State → Outcome c.State
  kustomized build bundle into s = apply p c t (kustomize_build_func build) bundle into s

  -- A kustomize bundle that `Apply` has applied is up to date for every later `Apply`, whatever has
  -- become of the cluster, and with any status that agrees with what `Apply` left: that one succeeds, and leaves the bundle and the cluster as they are. The
  -- rendered objects are storable, the values have unique keys, the directory builds to the same text
  -- both times, and the server and the runtime keep to their documented behaviour.
  pub apply_later :
      (build : String → c.State → Result String) (text into : String) (bundle : Bundle)
      (s u : c.State) (status : BundleStatus)
      → Agrees (kustomized build bundle into s).bundle.status status
      → IsFaithful p
      → KeepsReferences c
      → build into s ≡ ok text
      → All
          (IsStorable c)
          (set_namespace_if_not_set t (target_namespace bundle) (split_yaml t.decode text).objs)
      → ((m : Fields) → bundle.spec.values.object ≡ some m → IsMap m)
      → (kustomized build bundle into s).failure ≡ none
      → build into u ≡ ok text
      → kustomized build (record (kustomized build bundle into s).bundle { status = status }) into u
        ≡ unchanged (record (kustomized build bundle into s).bundle { status = status }) u
  apply_later build text into bundle s u status agrees faithful keeps built named maps fine again =
      apply_template_later (kustomize_build_func build) text into bundle bundle s u status agrees
        faithful keeps (rw built) named maps fine (rw again)

  -- A kustomize bundle that `Apply` has applied is up to date for the next `Apply`: that one
  -- succeeds, and leaves the bundle and the cluster as they are. The rendered objects are storable,
  -- the values have unique keys, the directory builds to the same text both times, and the server
  -- and the runtime keep to their documented behaviour.
  pub apply_twice :
      (build : String → c.State → Result String) (text into : String) (bundle : Bundle)
      (s : c.State)
      → IsFaithful p
      → KeepsReferences c
      → build into s ≡ ok text
      → All
          (IsStorable c)
          (set_namespace_if_not_set t (target_namespace bundle) (split_yaml t.decode text).objs)
      → ((m : Fields) → bundle.spec.values.object ≡ some m → IsMap m)
      → (kustomized build bundle into s).failure ≡ none
      → build into (kustomized build bundle into s).state ≡ ok text
      → kustomized build
          (kustomized build bundle into s).bundle
          into
          (kustomized build bundle into s).state
        ≡ kustomized build bundle into s
  apply_twice build text into bundle s faithful keeps built named maps fine again =
      let o = kustomized build bundle into s in
      apply_later build text into bundle s o.state o.bundle.status (refl, refl, refl) faithful keeps
        built named maps fine again
      ∙ unchanged_lem o fine
