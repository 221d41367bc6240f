-- ===== src/Values/Codec.antt =====
-- The type `Values` of type_values.go: the raw JSON beside the decoded map, and its methods.
use bundle_controller.Base.{
  String, false, Option, none, some, refl, ◌≡◌, arith, ◌==◌, string_eq, if◌then◌else◌, Result, ok,
  err, ap,
}
use bundle_controller.Values.Data.{Fields}
use bundle_controller.Values.Nulls.{remove_null_fields, IsClean, remove_null_fields-IsClean}
use mathlib.Core.Path.{subst}
use mathlib.Core.Option.{some-injective}

-- `encoding/json` on maps: `unmarshal` gives the map, which is nil for a JSON null, or its error.
pub record Json : Type 0 where
  pub unmarshal : String → Result (Option Fields)
  pub marshal : Fields → String

-- A nil slice and a nil map are `none`.
pub record Values : Type 0 where
  pub raw : Option String
  pub object : Option Fields

abbrev remove_nulls_in : Option Fields → Option Fields
remove_nulls_in none = none
remove_nulls_in (some m) = some (remove_null_fields m)

abbrev pub empty_values : Values
empty_values = record { raw = none; object = none }

module _ (json : Json) where
  -- `RemoveNulls` of what was decoded, or the error with the raw text already stored.
  decoded : Values → Result (Option Fields) → Result (Unit {0}) × Values
  decoded v (ok val) = (ok tt, record v { object = remove_nulls_in val })
  decoded v (err message) = (err message, v)

  -- The receiver of the real method is never nil where the code calls it.
  unfoldable pub unmarshal_json : Values → String → Result (Unit {0}) × Values
  unfolding decoded
  unmarshal_json v input =
      if input == "null"
      then (ok tt, v)
      else decoded (record v { raw = some input }) (json.unmarshal input)

  marshal_object : Option Fields → String
  marshal_object none = "{}"
  marshal_object (some m) = json.marshal m

  unfoldable pub marshal_json : Values → String
  unfolding marshal_object
  marshal_json v = elim v.raw [ none ↦ marshal_object v.object | some raw ↦ raw ]

  fill_object : Option Fields → Option String → Values → Values
  fill_object none (some raw) v = (unmarshal_json v raw).1
  fill_object _ _ v = v

  fill_raw : Option String → Option Fields → Values → Values
  fill_raw none (some m) v = record v { raw = some (marshal_json v) }
  fill_raw _ _ v = v

  unfoldable pub full_fill : Values → Values
  unfolding fill_object fill_raw unmarshal_json marshal_json
  full_fill v = let w = fill_object v.object v.raw v in fill_raw w.raw w.object w

  -- A second call of `FullFill` changes nothing.
  pub full_fill_idem : (v : Values) → full_fill (full_fill v) ≡ full_fill v
  unfolding full_fill
  full_fill_idem v = ground arith

  -- Whatever text other than "null" is decoded without an error, no map of the result, at any depth
  -- of maps, has an entry that is null or an empty map.
  pub unmarshal_json-IsClean :
      (v : Values) (input : String) (m : Fields)
      → (input == "null") ≡ false
      → (unmarshal_json v input).0 ≡ ok tt
      → (unmarshal_json v input).1.object ≡ some m
      → IsClean m
  unfolding unmarshal_json
  unmarshal_json-IsClean v input m not_null fine found =
      IsClean-decoded (record v { raw = some input }) (json.unmarshal input) m (rw not_null at fine)
        (rw not_null at found)
    where
      IsClean-decoded :
          (w : Values) (r : Result (Option Fields)) (n : Fields)
          → (decoded w r).0 ≡ ok tt
          → (decoded w r).1.object ≡ some n
          → IsClean n
      IsClean-decoded w (err message) n fine found = absurd (cc)
      IsClean-decoded w (ok none) n fine found = absurd (cc)
      IsClean-decoded w (ok (some val)) n fine found =
          subst IsClean (some-injective _ _ found) (remove_null_fields-IsClean val)

  decoded-raw : (v : Values) (r : Result (Option Fields)) → (decoded v r).1.raw ≡ v.raw
  unfolding decoded
  decoded-raw v (ok val) = refl
  decoded-raw v (err message) = refl

  marshal_json-raw : (w : Values) (raw : String) → w.raw ≡ some raw → marshal_json w ≡ raw
  unfolding marshal_json
  marshal_json-raw w raw kept = rw kept refl

  unmarshal_json-raw :
      (w : Values) (input : String)
      → (input == "null") ≡ false
      → (unmarshal_json w input).1.raw ≡ some input
  unfolding unmarshal_json
  unmarshal_json-raw w input given =
      rw given (decoded-raw (record w { raw = some input }) (json.unmarshal input))

  -- Values that `MarshalJSON` encodes to a text other than "null", which decodes without an error, go
  -- through the codec again unchanged, since the raw text is kept and encoded in place of the map;
  -- the decoded map, which need not be the one that was encoded, holds no null and no empty map at any
  -- depth of maps.
  pub unmarshal_json-marshal_json :
      (v : Values)
      → (marshal_json v == "null") ≡ false
      → (unmarshal_json empty_values (marshal_json v)).0 ≡ ok tt
      → (unmarshal_json empty_values (marshal_json (unmarshal_json empty_values (marshal_json v)).1)
          ≡ unmarshal_json empty_values (marshal_json v))
        × ((m : Fields)
            → (unmarshal_json empty_values (marshal_json v)).1.object ≡ some m
            → IsClean m)
  unmarshal_json-marshal_json v not_null fine = (
    ap (unmarshal_json empty_values) (
        marshal_json-raw (unmarshal_json empty_values (marshal_json v)).1 (marshal_json v)
          (unmarshal_json-raw empty_values (marshal_json v) not_null)),
    λ m found. unmarshal_json-IsClean empty_values (marshal_json v) m not_null fine found,
  )
