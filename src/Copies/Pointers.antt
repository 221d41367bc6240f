-- ===== src/Copies/Pointers.antt =====
-- pkg/apis/bundle/v1beta1/zz_generated.deepcopy.go: the copies behind pointers, where `none` is nil.
use bundle_controller.Base.{Option, none, some}
use bundle_controller.Types.{
  Bundle, BundleSpec, BundleStatus, BundleList, ManagedResource, ValuesFrom,
}
use bundle_controller.Values.Copy.{Gob}
use bundle_controller.Copies.{copy_spec, copy_status, copy_bundle, copy_list}

-- `runtime.Object`, of the two types that implement it here.
data Object : Type 0 where
  bundle : Bundle → Object
  list : BundleList → Object

abbrev copy_managed_resource : ManagedResource → ManagedResource
copy_managed_resource resource = resource

abbrev copy_values_from : ValuesFrom → ValuesFrom
copy_values_from ref = ref

module _ (gob : Gob) where
  abbrev deep_copy_bundle : Option Bundle → Option Bundle
  deep_copy_bundle none = none
  deep_copy_bundle (some b) = some (copy_bundle gob b)

  abbrev deep_copy_bundle_object : Option Bundle → Option Object
  deep_copy_bundle_object b = elim (deep_copy_bundle b) [ none ↦ none | some c ↦ some (bundle c) ]

  abbrev deep_copy_list : Option BundleList → Option BundleList
  deep_copy_list none = none
  deep_copy_list (some l) = some (copy_list gob l)

  abbrev deep_copy_list_object : Option BundleList → Option Object
  deep_copy_list_object l = elim (deep_copy_list l) [ none ↦ none | some c ↦ some (list c) ]

  abbrev deep_copy_spec : Option BundleSpec → Option BundleSpec
  deep_copy_spec none = none
  deep_copy_spec (some spec) = some (copy_spec gob spec)

  abbrev deep_copy_status : Option BundleStatus → Option BundleStatus
  deep_copy_status none = none
  deep_copy_status (some status) = some (copy_status gob status)

abbrev deep_copy_managed_resource : Option ManagedResource → Option ManagedResource
deep_copy_managed_resource none = none
deep_copy_managed_resource (some resource) = some (copy_managed_resource resource)

abbrev deep_copy_values_from : Option ValuesFrom → Option ValuesFrom
deep_copy_values_from none = none
deep_copy_values_from (some ref) = some (copy_values_from ref)
