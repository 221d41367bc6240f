-- ===== src/Tests/OnValues.antt =====
-- The merge, the removal of nulls, the comparison and the codec at small maps.
use bundle_controller.Base.{String, none, some, List, [], ◌∷◌, ◌≡◌, refl, ok}
use bundle_controller.Values.Data.{
  Fields, end, field, text, null, object, number, get, put, get_path,
}
use bundle_controller.Values.Merge.{merge_maps}
use bundle_controller.Values.Merge.Precedence.{get_path-merge_maps_override}
use bundle_controller.Values.Nulls.{remove_null_fields, IsClean, remove_null_fields-IsClean}
use bundle_controller.Values.Codec.{
  unmarshal_json, marshal_json, unmarshal_json-marshal_json, Values, empty_values,
}
use bundle_controller.Tests.Samples.{null_values, null_values-IsMap, default_values}
use bundle_controller.Tests.Servers.{json}

abbrev tag : List String
tag = "image" ∷ "tag" ∷ []

abbrev pull : List String
pull = "image" ∷ "pull" ∷ []

merge_images :
    merge_maps default_values null_values
    ≡ field "image"
        (object (field "tag" (text "1.2") (field "pull" (text "Always") end)))
        (field "replicas" (number "float64" "2") (field "gone" null end))
unfolding merge_maps put get
merge_images = refl

get_path-merge_maps_override_example :
    get_path tag (some (object (merge_maps default_values null_values))) ≡ some (text "1.2")
unfolding get_path get
get_path-merge_maps_override_example =
    get_path-merge_maps_override tag default_values null_values (text "1.2") null_values-IsMap refl
      refl

remove_null_fields-IsClean_example : IsClean (remove_null_fields null_values)
remove_null_fields-IsClean_example = remove_null_fields-IsClean null_values

abbrev inline : Values
inline = record { raw = none; object = some null_values }

decoded_fine : (unmarshal_json json empty_values (marshal_json json inline)).0 ≡ ok tt
unfolding unmarshal_json marshal_json
decoded_fine = refl

unmarshal_json-marshal_json_example :
    (unmarshal_json json empty_values
        (marshal_json json (unmarshal_json json empty_values (marshal_json json inline)).1)
      ≡ unmarshal_json json empty_values (marshal_json json inline))
    × ((m : Fields)
        → (unmarshal_json json empty_values (marshal_json json inline)).1.object ≡ some m
        → IsClean m)
unfolding marshal_json
unmarshal_json-marshal_json_example = unmarshal_json-marshal_json json inline refl decoded_fine
