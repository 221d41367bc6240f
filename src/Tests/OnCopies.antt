-- ===== src/Tests/OnCopies.antt =====
-- Copies through a gob that takes two maps, and fails on all that holds a list.
use bundle_controller.Base.{none, some, ◌≡◌, refl, ◌==◌, string_eq, if◌then◌else◌, ok}
use bundle_controller.Types.{Bundle}
use bundle_controller.Values.Data.{Fields, end, field, text, array, cons, nil, get}
use bundle_controller.Values.Codec.{full_fill}
use bundle_controller.Values.Copy.{Gob}
use bundle_controller.Copies.{copy_bundle, copy_spec, resolve_values_ref-copy_bundle}
use bundle_controller.Reconciler.Values.{resolve_values_ref, add_references}
use bundle_controller.Tests.Samples.{registered_bundle, kustomize_spec, image_values}
use bundle_controller.Tests.Servers.{libraries, one_bundle}

abbrev gob : Gob
gob = record {
  encode = λ m. elim (get "hosts" m) [
    | some v ↦ ""
    | none ↦ elim (get "image" m) [ none ↦ "empty" | some v ↦ "image" ]
  ];
  decode = λ raw.
      if raw == "image" then some image_values else if raw == "empty" then some end else none;
}

-- { hosts: ["a"] }
abbrev hosts : Fields
hosts = field "hosts" (array (cons (text "a") nil)) end

abbrev with_hosts : Bundle
with_hosts = record registered_bundle {
  spec = record kustomize_spec { values = record { raw = none; object = some hosts } };
}

copied_whole : copy_bundle gob registered_bundle ≡ registered_bundle
unfolding get
copied_whole = refl

resolve_values_ref-copy_bundle_example :
    resolve_values_ref libraries one_bundle (copy_bundle gob with_hosts) with_hosts
    ≡ ok (record (copy_bundle gob with_hosts) {
      spec = record (copy_spec gob with_hosts.spec) {
        values = full_fill libraries.json (record { raw = none; object = some end });
      };
    })
unfolding get add_references
resolve_values_ref-copy_bundle_example =
    resolve_values_ref-copy_bundle gob libraries one_bundle with_hosts hosts end with_hosts refl
      refl refl
