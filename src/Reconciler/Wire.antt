-- ===== src/Reconciler/Wire.antt =====
-- What becomes of a status between a write and the next read: the methods of type_values.go run on
-- its values, and the cached client hands out a copy.
use bundle_controller.Base.{String, ℕ, ◌≡◌}
use bundle_controller.Types.{Bundle, BundleStatus}
use bundle_controller.Values.Codec.{Json, Values, empty_values, marshal_json, unmarshal_json}
use bundle_controller.Values.Copy.{Gob, deep_copy}
use bundle_controller.Cluster.{reply}
use bundle_controller.Reconciler.Api.{Api}

-- The libraries on the way. The server sends a JSON text and a time back in its own form: `resent`
-- is the text that it gives for one that it took, `resent_time` the time, in whole seconds.
pub record Wire : Type 0 where
  pub json : Json
  pub gob : Gob
  pub resent : String → String
  pub resent_time : ℕ → ℕ

abbrev pub carried_values : Wire → Values → Values
carried_values w v =
    deep_copy w.gob (unmarshal_json w.json empty_values (w.resent (marshal_json w.json v))).1

abbrev pub carried : Wire → BundleStatus → BundleStatus
carried w status = record status {
  values = carried_values w status.values;
  creation_timestamp = w.resent_time status.creation_timestamp;
  upgrade_timestamp = w.resent_time status.upgrade_timestamp;
}

-- What the API server documents of a write of the status: the stored object gets the status, as it is
-- carried, and keeps all else. It takes only values that decode.
abbrev pub KeepsAllElse : Wire → {State : Type 0} → Api State → Type 0
KeepsAllElse w {State} api =
    (b stored answer : Bundle) (s t : State)
    → api.get_bundle b.namespace b.name s ≡ reply stored
    → api.update_status b s ≡ (reply answer, t)
    → api.get_bundle b.namespace b.name t ≡ reply (record stored { status = carried w b.status })
