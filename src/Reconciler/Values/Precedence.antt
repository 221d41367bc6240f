-- ===== src/Reconciler/Values/Precedence.antt =====
-- What the resolved values hold.
use mathlib.Core.Path.{subst}
use bundle_controller.Base.{
  String, Bool, true, false, ◌&&◌, ◌||◌, some, List, [], ◌∷◌, ◌++◌, ◌≡◌, refl, ap, arith,
  if◌then◌else◌, Result, ok, err, lower_equals,
}
use bundle_controller.Types.{Bundle, ValuesFrom}
use bundle_controller.Values.Data.{Value, object, Fields, end, IsMap, get_path, is_object}
use bundle_controller.Values.Codec.{full_fill}
use bundle_controller.Values.Merge.Precedence.{get_path-merge_maps_override}
use bundle_controller.Cluster.{Reply, reply, failed}
use bundle_controller.Reconciler.Api.{Api, Libraries}
use bundle_controller.Reconciler.Values.{
  add_reference, add_references, with_values, resolve_values_ref,
}

abbrev is_missing {ℓ} : {A : Type ℓ} → Reply A → Bool
is_missing (reply x) = false
is_missing (failed e) = e.not_found

module _ (l : Libraries) {State : Type 0} (api : Api State) where
  module _ (update : Bundle → State → Reply Bundle × State) where
    add_references-update :
        (namespace : String) (s : State) (refs : List ValuesFrom) (base : Fields)
        → add_references l (record api { update = update }) namespace s refs base
          ≡ add_references l api namespace s refs base
    unfolding add_references add_reference
    add_references-update namespace s [] base = refl
    add_references-update namespace s (ref ∷ refs) base = λ i.
        elim (add_reference l api namespace s ref base) [
          | err message ↦ err message
          | ok m ↦ add_references-update namespace s refs m i
        ]

    -- Resolving reads and does not update.
    pub resolve_values_ref-update :
        (b : Bundle) (s : State)
        → resolve_values_ref l (record api { update = update }) b s ≡ resolve_values_ref l api b s
    unfolding resolve_values_ref
    resolve_values_ref-update b s =
        ap (with_values l api b) (add_references-update b.namespace s b.spec.values_from end)

  with_values-get_path :
      (b resolved : Bundle) (r : Result Fields) (m own : Fields) (path : List String) (v : Value)
      → b.spec.values.object ≡ some own
      → IsMap own
      → is_object v ≡ false
      → get_path path (some (object own)) ≡ some v
      → with_values l api b r ≡ ok resolved
      → resolved.spec.values.object ≡ some m
      → get_path path (some (object m)) ≡ some v
  unfolding resolve_values_ref full_fill
  with_values-get_path b resolved (err message) m own path v given maps leaf there fine found = cc
  with_values-get_path b resolved (ok base) m own path v given maps leaf there fine found =
      subst (λ n. get_path path (some (object n)) ≡ some v) (ground arith)
        (get_path-merge_maps_override path base own v maps leaf there)

  -- The values that stand in the bundle override those from secrets and config maps, at every
  -- depth: if the resolution succeeds, whatever they hold at the end of a path of keys, other than
  -- a map, the resolved values hold there. The bundle's values have unique keys.
  pub resolve_values_ref-get_path :
      (b resolved : Bundle) (s : State) (m own : Fields) (path : List String) (v : Value)
      → b.spec.values.object ≡ some own
      → IsMap own
      → is_object v ≡ false
      → get_path path (some (object own)) ≡ some v
      → resolve_values_ref l api b s ≡ ok resolved
      → resolved.spec.values.object ≡ some m
      → get_path path (some (object m)) ≡ some v
  unfolding resolve_values_ref
  resolve_values_ref-get_path b resolved s m own path v given maps leaf there fine found =
      with_values-get_path b resolved (add_references l api b.namespace s b.spec.values_from end) m
        own path v given maps leaf there fine found

  -- What the reference names is not there.
  abbrev pub names_nothing : String → State → ValuesFrom → Bool
  names_nothing namespace s ref =
      if lower_equals ref.kind "secret" || lower_equals ref.kind "secrets"
      then is_missing (api.get_secret namespace ref.name s)
      else (lower_equals ref.kind "configmap" || lower_equals ref.kind "configmaps")
        && is_missing (api.get_config_map namespace ref.name s)

  add_reference-optional :
      (namespace : String) (s : State) (ref : ValuesFrom) (base : Fields)
      → ref.optional ≡ true
      → names_nothing namespace s ref ≡ true
      → add_reference l api namespace s ref base ≡ ok base
  unfolding add_reference
  add_reference-optional namespace s ref base optional absent = ground arith

  -- An optional reference to a secret or a config map that is not there has no effect, wherever it
  -- stands among the references.
  pub add_references-optional :
      (namespace : String) (s : State) (refs more : List ValuesFrom) (ref : ValuesFrom)
      (base : Fields)
      → ref.optional ≡ true
      → names_nothing namespace s ref ≡ true
      → add_references l api namespace s (refs ++ ref ∷ more) base
        ≡ add_references l api namespace s (refs ++ more) base
  unfolding add_references
  add_references-optional namespace s [] more ref base optional absent =
      rw (add_reference-optional namespace s ref base optional absent, add_references)
  add_references-optional namespace s (r ∷ refs) more ref base optional absent = λ i.
      elim (add_reference l api namespace s r base) [
        | err message ↦ err message
        | ok m ↦ add_references-optional namespace s refs more ref m optional absent i
      ]
