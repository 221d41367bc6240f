-- ===== src/Tests/Samples.antt =====
-- Sample objects, values and bundles.
use bundle_controller.Base.{String, none, some, [], ◌∷◌, false, refl}
use bundle_controller.Values.Data.{Fields, end, field, text, null, object, number, get, IsMap}
use bundle_controller.Types.{
  ObjectReference, Bundle, BundleSpec, BundleStatus, bundle_kind_kustomize, phase_installed,
}
use bundle_controller.Resource.{Unstructured}

abbrev pub config_map_named : String → Unstructured
config_map_named name = record {
  api_version = "v1";
  kind = "ConfigMap";
  namespace = "shop";
  name = name;
  annotations = none;
  managed_fields = none;
  content = end;
}

abbrev pub reference_to : String → ObjectReference
reference_to name = record {
  api_version = "v1";
  kind = "ConfigMap";
  namespace = "shop";
  name = name;
  other = "";
}

-- { image: { tag: "1.2" } }
abbrev pub image_values : Fields
image_values = field "image" (object (field "tag" (text "1.2") end)) end

pub image_values-IsMap : IsMap image_values
unfolding get
image_values-IsMap = (refl, (refl, tt, tt), tt)

-- { image: { tag: "1.2" }, gone: null }
abbrev pub null_values : Fields
null_values = field "image" (object (field "tag" (text "1.2") end)) (field "gone" null end)

pub null_values-IsMap : IsMap null_values
unfolding get
null_values-IsMap = (refl, (refl, tt, tt), (refl, tt, tt))

-- { image: { tag: "1.0", pull: "Always" }, replicas: 2 }
abbrev pub default_values : Fields
default_values =
    field "image" (object (field "tag" (text "1.0") (field "pull" (text "Always") end)))
      (field "replicas" (number "float64" "2") end)

abbrev pub empty_status : BundleStatus
empty_status = record {
  phase = "";
  message = "";
  values = record { raw = some "{}"; object = some end };
  version = "";
  app_version = "";
  namespace = "";
  creation_timestamp = 0;
  upgrade_timestamp = 0;
  resources = [];
}

abbrev pub kustomize_spec : BundleSpec
kustomize_spec = record {
  disabled = false;
  kind = bundle_kind_kustomize;
  url = "";
  version = "v1";
  chart = "";
  path = "";
  install_namespace = "";
  dependencies = [];
  values = record { raw = none; object = some image_values };
  values_from = [];
}

-- Not registered yet.
abbrev pub new_bundle : Bundle
new_bundle = record {
  api_version = "bundle.kubegems.io/v1beta1";
  kind = "Bundle";
  name = "web";
  namespace = "shop";
  finalizers = [];
  deletion_timestamp = none;
  spec = kustomize_spec;
  status = empty_status;
}

abbrev pub registered_bundle : Bundle
registered_bundle = record new_bundle { finalizers = "bundle.kubegems.io/finalizer" ∷ [] }

abbrev pub installed_bundle : Bundle
installed_bundle = record registered_bundle {
  status = record empty_status { phase = phase_installed; resources = reference_to "web" ∷ [] };
}

abbrev pub deleted_bundle : Bundle
deleted_bundle = record installed_bundle { deletion_timestamp = some 7 }
