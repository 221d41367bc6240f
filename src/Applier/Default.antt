-- ===== src/Applier/Default.antt =====
-- `NewDefaultApply`: the appliers over one state, which holds the cluster and the files.
use bundle_controller.Base.{String, List, Result}
use bundle_controller.Cluster.{Client, Platform}
use bundle_controller.Native
use bundle_controller.Native.{TemplateFun, Tools, kustomize_build_func}
use bundle_controller.Helm.Sdk.{Sdk}
use bundle_controller.Helm.Apply
use bundle_controller.Download.{download}
use bundle_controller.Download.Host.{FileSystem}
use bundle_controller.Applier.{Methods, BundleApplier, new_default_appliers}

module _ (p : Platform) (c : Client) (t : Tools) where
  -- `native.Apply`
  unfoldable pub native_methods : TemplateFun c.State → Methods c.State
  native_methods template_fun = record {
    apply = λ bundle into s. Native.apply p c t template_fun bundle into s;
    remove = λ bundle s. Native.remove p c t bundle s;
    template = λ bundle into s. let (rendered, b) = template_fun bundle into s in (rendered, b, s);
  }

  module _ (h : Sdk c.State) where
    -- `helm.Apply`
    unfoldable pub helm_methods : Methods c.State
    helm_methods = record {
      apply = λ bundle into s. Apply.apply h t.decode bundle into s;
      remove = λ bundle s. Apply.remove h t.decode bundle s;
      template = λ bundle into s.
          let (rendered, after) = Apply.template h t.decode bundle into s in
          (rendered, bundle, after);
    }

    -- With the build of a kustomize directory, the template function, and the options.
    unfoldable pub new_default_apply :
        FileSystem c.State
        → (String → c.State → Result String)
        → TemplateFun c.State
        → String
        → List String
        → BundleApplier c.State
    new_default_apply f build template_fun cache_dir search_dirs = record {
      appliers =
          new_default_appliers helm_methods (native_methods (kustomize_build_func build))
            (native_methods template_fun);
      download = λ bundle s. download f h bundle cache_dir search_dirs s;
    }
