-- ===== src/Copies.antt =====
-- pkg/apis/bundle/v1beta1/zz_generated.deepcopy.go: the copies that a cached client hands out. What
-- holds no values is copied field by field, so the copy is equal.
pub mod Pointers
use bundle_controller.Base.{Option, none, some, List, [], ◌∷◌, ◌≡◌, ◌↔◌, refl, ap, ok}
use bundle_controller.Types.{Bundle, BundleSpec, BundleStatus, BundleList}
use bundle_controller.Values.Data.{Fields, end}
use bundle_controller.Values.Codec.{full_fill}
use bundle_controller.Values.Merge.{merge_maps}
use bundle_controller.Values.Copy.{Gob, copy_object, deep_copy}
use bundle_controller.Reconciler.Api.{Api, Libraries}
use bundle_controller.Reconciler.Values.{add_references, resolve_values_ref}

module _ (gob : Gob) where
  abbrev pub copy_spec : BundleSpec → BundleSpec
  copy_spec spec = record spec { values = deep_copy gob spec.values }

  abbrev pub copy_status : BundleStatus → BundleStatus
  copy_status status = record status { values = deep_copy gob status.values }

  abbrev pub copy_bundle : Bundle → Bundle
  copy_bundle b = record b { spec = copy_spec b.spec; status = copy_status b.status }

  copy_items : List Bundle → List Bundle
  copy_items [] = []
  copy_items (b ∷ items) = copy_bundle b ∷ copy_items items

  unfoldable pub copy_list : BundleList → BundleList
  unfolding copy_items
  copy_list list = record { items = copy_items list.items }

  -- A map comes back from gob as it was.
  abbrev pub Survives : Option Fields → Type 0
  Survives none = Unit
  Survives (some m) = gob.decode (gob.encode m) ≡ some m

  Survives-copy_object :
      (object : Option Fields) → copy_object gob object ≡ object → Survives object
  Survives-copy_object none same = tt
  Survives-copy_object (some m) same = same

  copy_object-Survives :
      (object : Option Fields) → Survives object → copy_object gob object ≡ object
  copy_object-Survives none survives = refl
  copy_object-Survives (some m) survives = survives

  -- The copy of a bundle is the bundle exactly if gob gives the values of its spec and of its status
  -- back as they were.
  pub copy_bundle_iff :
      (b : Bundle)
      → (copy_bundle b ≡ b) ↔ (Survives b.spec.values.object × Survives b.status.values.object)
  copy_bundle_iff b = (
    λ same. (
      Survives-copy_object b.spec.values.object (ap (λ (x : Bundle). x.spec.values.object) same),
      Survives-copy_object b.status.values.object
          (ap (λ (x : Bundle). x.status.values.object) same),
    ),
    λ survive.
        rw
          (
            copy_object-Survives b.spec.values.object survive.0,
            copy_object-Survives b.status.values.object survive.1,
          )
          refl,
  )

  -- Values that gob does not give back are lost without an error: the copy of such a bundle is
  -- resolved to the values of its references alone, whatever its spec says.
  pub resolve_values_ref-copy_bundle :
      {State : Type 0} (l : Libraries) (api : Api State) (b : Bundle) (m base : Fields) (s : State)
      → b.spec.values.object ≡ some m
      → gob.decode (gob.encode m) ≡ none
      → add_references l api b.namespace s b.spec.values_from end ≡ ok base
      → resolve_values_ref l api (copy_bundle b) s
        ≡ ok (record (copy_bundle b) {
          spec = record (copy_spec b.spec) {
            values = full_fill l.json (record { raw = none; object = some base });
          };
        })
  unfolding resolve_values_ref merge_maps
  resolve_values_ref-copy_bundle l api b m base s inlined lost referred =
      rw (inlined, lost, referred) refl
