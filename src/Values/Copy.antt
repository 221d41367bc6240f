-- ===== src/Values/Copy.antt =====
-- type_values.go: `DeepCopy`, which goes through encoding/gob.
use bundle_controller.Base.{String, Option, none, some}
use bundle_controller.Values.Data.{Fields}
use bundle_controller.Values.Codec.{Values}

-- `encode` gives what is in the buffer afterwards, also where the encoder fails, and `decode` the map
-- that a nil map has become, which is nil where the decoder fails. Both errors are dropped.
pub record Gob : Type 0 where
  pub encode : Fields → String
  pub decode : String → Option Fields

abbrev pub copy_object : Gob → Option Fields → Option Fields
copy_object gob none = none
copy_object gob (some m) = gob.decode (gob.encode m)

-- The receiver of the real method is nil nowhere in the code.
abbrev pub deep_copy : Gob → Values → Values
deep_copy gob v = record { raw = v.raw; object = copy_object gob v.object }
