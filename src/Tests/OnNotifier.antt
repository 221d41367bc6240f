-- ===== src/Tests/OnNotifier.antt =====
-- A secret that one bundle refers to.
use bundle_controller.Base.{true, [], ◌∷◌, ◌≡◌, refl, any, contains}
use bundle_controller.Types.{Bundle}
use bundle_controller.Notifier.{
  Object, secret, config_map_or_secret_trigger, request_eq, object_key_from_object, is_concerned,
  contains-config_map_or_secret_trigger,
}
use bundle_controller.Tests.Samples.{registered_bundle, kustomize_spec}
use bundle_controller.Tests.Servers.{one_bundle}

abbrev concerned : Bundle
concerned = record registered_bundle {
  spec = record kustomize_spec {
    values_from = record { kind = "Secret"; name = "auth"; prefix = ""; optional = true } ∷ [];
  };
}

abbrev auth : Object
auth = record { watched = secret; namespace = "shop"; name = "auth" }

request_of_secret :
    config_map_or_secret_trigger one_bundle auth concerned ≡ object_key_from_object concerned ∷ []
unfolding config_map_or_secret_trigger
request_of_secret = refl

contains-config_map_or_secret_trigger_example :
    contains
      (config_map_or_secret_trigger one_bundle auth concerned)
      (object_key_from_object concerned)
    ≡ any (is_concerned "Secret" "auth" (object_key_from_object concerned)) (concerned ∷ [])
contains-config_map_or_secret_trigger_example =
    contains-config_map_or_secret_trigger one_bundle auth "Secret"
      (object_key_from_object concerned) concerned refl
