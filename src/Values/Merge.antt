-- ===== src/Values/Merge.antt =====
-- `mergeMaps`: a copy of the first map, with the second merged into it at every depth.
pub mod Precedence
use bundle_controller.Base.{
  String, Option, none, some, ◌≡◌, refl, arith, ◌==◌, ==_iff, string_eq, if◌then◌else◌,
}
use bundle_controller.Values.Data.{Value, object, Fields, end, field, get, put, IsMap, get-put}

unfoldable mutual
  -- The loop over `b`, from what `out` holds so far.
  pub merge_maps : Fields → Fields → Fields
  merge_maps out end = out
  merge_maps out (field k v b) = merge_maps (put k (merge_value v (get k out)) out) b

  -- The new value of `out[k]`: two maps are merged, and any other value of `b` replaces the old one.
  pub merge_value : Value → Option Value → Value
  merge_value (object n) (some (object m)) = object (merge_maps m n)
  merge_value v old = v

-- What a key holds after a merge, from what it holds in the two maps.
abbrev pub merged : Option Value → Option Value → Option Value
merged old none = old
merged old (some v) = some (merge_value v old)
