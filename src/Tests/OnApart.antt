-- ===== src/Tests/OnApart.antt =====
-- The stored bundle while its objects are applied.
use bundle_controller.Base.{[], ◌≡◌, refl, string_eq, Bool-cases, inl, inr}
use bundle_controller.Types.{ObjectReference, reference_eq}
use bundle_controller.Resource.{get_reference}
use bundle_controller.Manifest.{split_yaml, split_documents}
use bundle_controller.Sync.Apart.{IsApart}
use bundle_controller.Native.{place, set_namespace_if_not_set, is_namespaced_scope}
use bundle_controller.Helm.Cli.Apart.{IsSdkApart}
use bundle_controller.Download.Unpack.Apart.{IsHostApart}
use bundle_controller.Reconciler.Values.{resolve_values_ref}
use bundle_controller.Reconciler.Loop.{sync}
use bundle_controller.Reconciler.Loop.Apart.{ResolvedElsewhere, sync-view}
use bundle_controller.Types.{Bundle}
use bundle_controller.Tests.OnApplier.{remote, before, default_apply, no_template}
use bundle_controller.Tests.OnSettled.{resolving, fetched}
use bundle_controller.Tests.Servers.{libraries, platform, platform-IsFaithful, tools}
use bundle_controller.Tests.World.{World, world, disk, no_helm, build, world_api, is_there}

abbrev stored : World → Bundle
stored w = w.stored

abbrev self : ObjectReference
self = record {
  api_version = "bundle.kubegems.io/v1beta1";
  kind = "Bundle";
  namespace = "shop";
  name = "web";
  other = "";
}

world-IsApart : IsApart world stored self
world-IsApart = record {
  create-view = λ obj s other. refl;
  patch-view = λ patch obj s other. refl;
  delete-view = λ obj s other. elim (Bool-cases (is_there obj s)) [
    | inl there ↦ rw there refl
    | inr absent ↦ rw absent refl
  ];
  namespace-view = λ name s. refl;
}

no_helm-IsSdkApart : IsSdkApart no_helm stored
no_helm-IsSdkApart = record {
  locate-view = λ name repo version s. refl;
  update-view = λ path s. refl;
  install-view = λ namespace name chart values s. refl;
  upgrade-view = λ namespace name chart values s. refl;
  uninstall-view = λ namespace name s. refl;
  delete-view = λ namespace name version s. refl;
}

disk-IsHostApart : IsHostApart disk stored
disk-IsHostApart = record {
  mkdir_all-view = λ path mode s. refl;
  rename-view = λ path other s. refl;
  create-view = λ path mode s. refl;
  copy-view = λ path content s. refl;
  write_file-view = λ path content mode s. refl;
  http_get-view = λ uri s. refl;
  clone-view = λ uri rev s. refl;
}

elsewhere :
    ResolvedElsewhere platform world tools no_helm disk build no_template "/cache" [] stored self
      world-IsApart no_helm-IsSdkApart disk-IsHostApart platform-IsFaithful libraries world_api
      before
      (resolve_values_ref libraries world_api remote before)
unfolding split_yaml split_documents set_namespace_if_not_set place is_namespaced_scope
    get_reference reference_eq
elsewhere = rw (resolving, fetched) (tt, refl, (refl, tt))

sync-view_example : (sync libraries world_api default_apply remote before).state.stored ≡ remote
sync-view_example =
    sync-view platform world tools no_helm disk build no_template "/cache" [] stored self
      world-IsApart no_helm-IsSdkApart disk-IsHostApart platform-IsFaithful libraries world_api
      remote before tt refl elsewhere
