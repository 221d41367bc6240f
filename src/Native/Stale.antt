-- ===== src/Native/Stale.antt =====
-- What `Apply` does with a changed rendering of the same objects.
use bundle_controller.Base.{String, none, some, ◌≡◌, ok, Perm}
use bundle_controller.Values.Data.{Fields, IsMap}
use bundle_controller.Types.{Bundle, phase_installed}
use bundle_controller.Cluster.{Client, Platform, IsFaithful}
use bundle_controller.Manifest.{split_yaml}
use bundle_controller.Diff.Partition.{references}
use bundle_controller.Native.{TemplateFun, Tools, apply, set_namespace_if_not_set, target_namespace}
use bundle_controller.Native.Recorded.{unchanged, apply_resources-up_to_date}

module _ (p : Platform) (c : Client) (t : Tools) where
  -- A changed rendering of the same objects is not applied. Let the bundle be installed with its
  -- values, which have unique keys, and let the rendered objects be those that it manages, up to
  -- their order: whatever they contain now, and whatever version the spec asks for, `Apply` succeeds
  -- and changes neither the bundle nor the cluster, so the status keeps the old version. The text is
  -- read without an error and the runtime keeps to its documentation.
  pub apply-stale :
      (template_fun : TemplateFun c.State) (bundle rendered : Bundle) (into text : String)
      (s : c.State)
      → IsFaithful p
      → template_fun bundle into s ≡ (ok text, rendered)
      → (split_yaml t.decode text).failure ≡ none
      → rendered.status.phase ≡ phase_installed
      → rendered.status.values.object ≡ rendered.spec.values.object
      → ((m : Fields) → rendered.spec.values.object ≡ some m → IsMap m)
      → Perm rendered.status.resources (
          references (
            set_namespace_if_not_set t (target_namespace rendered) (split_yaml t.decode text).objs))
      → apply p c t template_fun bundle into s ≡ unchanged rendered s
  unfolding apply
  apply-stale template_fun bundle rendered into text s faithful templated readable installed same
        maps settled =
      let ns = target_namespace rendered in
      rw (templated, readable)
        (apply_resources-up_to_date p c t
          (set_namespace_if_not_set t ns (split_yaml t.decode text).objs) ns rendered s faithful
          maps installed same settled)
