-- ===== src/Tests/OnStale.antt =====
-- An installed bundle whose spec asks for the next version.
use mathlib.Core.List.Perm
use bundle_controller.Base.{String, none, List, [], ◌∷◌, ◌≡◌, refl, Result, ok}
use bundle_controller.Types.{Bundle}
use bundle_controller.Values.Data.{end, field, text}
use bundle_controller.Resource.{Unstructured, get_reference}
use bundle_controller.Manifest.{split_yaml, split_documents, content}
use bundle_controller.Native.{Tools, kustomize_build_func, apply, set_namespace_if_not_set, place}
use bundle_controller.Native.Recorded.{unchanged}
use bundle_controller.Native.Stale.{apply-stale}
use bundle_controller.Tests.OnSettled.{installed, resolved-IsMap}
use bundle_controller.Tests.Samples.{config_map_named}
use bundle_controller.Tests.Servers.{platform, platform-IsFaithful, memory, tools}

-- The same config map with the text in it.
abbrev versioned_tools : Tools
versioned_tools = record tools {
  decode = λ raw.
      content (record (config_map_named "web") { content = field "version" (text raw) end }) ∷ [];
}

abbrev upgraded : Bundle
upgraded = record installed { spec = record installed.spec { version = "v2" } }

abbrev build : String → List Unstructured → Result String
build into s = ok "2.0"

abbrev cluster : List Unstructured
cluster = record (config_map_named "web") { content = field "version" (text "1.0") end } ∷ []

readable : (split_yaml versioned_tools.decode "2.0").failure ≡ none
unfolding split_yaml split_documents
readable = refl

apply-stale_example :
    apply platform memory versioned_tools
      (kustomize_build_func build)
      upgraded
      "/cache/web-v2"
      cluster
    ≡ unchanged upgraded cluster
unfolding split_yaml split_documents set_namespace_if_not_set place get_reference
apply-stale_example =
    apply-stale platform memory versioned_tools (kustomize_build_func build) upgraded upgraded
      "/cache/web-v2" "2.0" cluster platform-IsFaithful refl readable refl refl resolved-IsMap
      (Perm.refl _)
