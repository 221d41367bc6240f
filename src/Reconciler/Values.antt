-- ===== src/Reconciler/Values.antt =====
-- `resolveValuesRef` and `mergeInto`: the values of a bundle from secrets and config maps.
pub mod Precedence
use bundle_controller.Base.{
  String, ◌<>◌, Bool, true, false, ◌&&◌, ◌||◌, Option, none, some, List, [], ◌∷◌, ◌≡◌, refl, sym,
  ap, if◌then◌else◌, Dict, Result, ok, err, lower_equals,
}
use mathlib.Core.Path.{subst}
use bundle_controller.Types.{Bundle, BundleStatus, ValuesFrom}
use bundle_controller.Values.Data.{Fields, end}
use bundle_controller.Values.Codec.{full_fill}
use bundle_controller.Values.Merge.{merge_maps}
use bundle_controller.Cluster.{ApiError, Reply, reply, failed}
use bundle_controller.Reconciler.Api.{Api, ConfigMap, Libraries}

-- `range` over a nil map visits nothing.
abbrev or_empty : Option Fields → Fields
or_empty none = end
or_empty (some m) = m

module _ (l : Libraries) where
  merge_into : String → String → Fields → Option String × Fields
  merge_into k v base =
      let (failure, m) = l.parse_into (k <> "=" <> v) base in
      (
        elim failure [
          | none ↦ none
          | some message ↦ some ("parse " <> l.show_string k <> " key[" <> v <> "]: " <> message)
        ],
        m,
      )

  abbrev parse_error : ValuesFrom → String → String → String
  parse_error ref k message = "parse " <> l.show_values_from ref <> " key[" <> k <> "]: " <> message

  -- `--set`, for each entry of the data.
  set_values : ValuesFrom → Dict String String → Fields → Result Fields
  set_values ref [] base = ok base
  set_values ref ((k, v) ∷ rest) base =
      let (failure, m) = merge_into (ref.prefix <> k) v base in
      elim failure [ none ↦ set_values ref rest m | some message ↦ err (parse_error ref k message) ]

  -- `--values`, for each entry of the binary data.
  load_values : ValuesFrom → Dict String String → Fields → Result Fields
  load_values ref [] base = ok base
  load_values ref ((k, v) ∷ rest) base = elim (l.unmarshal_yaml v) [
    | err message ↦ err (parse_error ref k message)
    | ok current ↦ load_values ref rest (merge_maps base current)
  ]

  set_after : ValuesFrom → Dict String String → Result Fields → Result Fields
  set_after ref entries (err message) = err message
  set_after ref entries (ok base) = set_values ref entries base

  -- The error of a read, unless the object is missing and need not be there.
  missing : ValuesFrom → ApiError → Fields → Result Fields
  missing ref e base = if ref.optional && e.not_found then ok base else err e.message

  add_secret : ValuesFrom → Reply (Dict String String) → Fields → Result Fields
  add_secret ref (failed e) base = missing ref e base
  add_secret ref (reply entries) base = set_values ref entries base

  add_config_map : ValuesFrom → Reply ConfigMap → Fields → Result Fields
  add_config_map ref (failed e) base = missing ref e base
  add_config_map ref (reply m) base = set_after ref m.text_data (load_values ref m.binary_data base)

  module _ {State : Type 0} (api : Api State) where
    -- One turn of the loop over `ValuesFrom`.
    unfoldable pub add_reference : String → State → ValuesFrom → Fields → Result Fields
    unfolding add_secret add_config_map missing set_values load_values merge_into set_after
    add_reference namespace s ref base =
        if lower_equals ref.kind "secret" || lower_equals ref.kind "secrets"
        then add_secret ref (api.get_secret namespace ref.name s) base
        else if lower_equals ref.kind "configmap" || lower_equals ref.kind "configmaps"
        then add_config_map ref (api.get_config_map namespace ref.name s) base
        else err ("valuesRef kind [" <> ref.kind <> "] is not supported")

    unfoldable pub add_references : String → State → List ValuesFrom → Fields → Result Fields
    add_references namespace s [] base = ok base
    add_references namespace s (ref ∷ refs) base = elim (add_reference namespace s ref base) [
      | err message ↦ err message
      | ok m ↦ add_references namespace s refs m
    ]

    with_values : Bundle → Result Fields → Result Bundle
    with_values b (err message) = err message
    with_values b (ok base) =
        let m = merge_maps base (or_empty b.spec.values.object) in
        ok (record b {
          spec = record b.spec {
            values = full_fill l.json (record { raw = none; object = some m });
          };
        })

    -- The bundle with its resolved values; an error leaves the bundle as it was.
    unfoldable pub resolve_values_ref : Bundle → State → Result Bundle
    unfolding with_values
    resolve_values_ref b s = with_values b (add_references b.namespace s b.spec.values_from end)

    with_values-status :
        (b r : Bundle) (status : BundleStatus) (base : Result Fields)
        → with_values b base ≡ ok r
        → with_values (record b { status = status }) base ≡ ok (record r { status = status })
    unfolding with_values
    with_values-status b r status (err message) resolved = cc
    with_values-status b r status (ok base) resolved =
        ap (λ (x : Result Bundle). status_in x) resolved
      where
        status_in : Result Bundle → Result Bundle
        status_in (err message) = err message
        status_in (ok c) = ok (record c { status = status })

    -- The values do not depend on the status, which stays.
    pub resolve_values_ref-status :
        (b r : Bundle) (status : BundleStatus) (s : State)
        → resolve_values_ref b s ≡ ok r
        → resolve_values_ref (record b { status = status }) s ≡ ok (record r { status = status })
    unfolding resolve_values_ref
    resolve_values_ref-status b r status s resolved =
        with_values-status b r status (add_references b.namespace s b.spec.values_from end) resolved

    -- The values stand in the spec, and all else stays.
    pub spec-resolve_values_ref :
        (b r : Bundle) (s : State)
        → resolve_values_ref b s ≡ ok r
        → r ≡ record b { spec = record b.spec { values = r.spec.values } }
    unfolding resolve_values_ref
    spec-resolve_values_ref b r s resolved =
        by_base (add_references b.namespace s b.spec.values_from end) resolved
      where
        KeepsRest : Result Bundle → Type 0
        KeepsRest (err message) = Unit
        KeepsRest (ok c) = c ≡ record b { spec = record b.spec { values = c.spec.values } }

        by_base : (base : Result Fields) → with_values b base ≡ ok r → KeepsRest (ok r)
        by_base (err message) e = cc
        by_base (ok base) e = subst KeepsRest e refl
