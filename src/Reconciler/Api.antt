-- ===== src/Reconciler/Api.antt =====
-- The API server as the reconciler sees it, and the libraries that it calls.
use bundle_controller.Base.{String, Bool, true, false, Option, List, ◌≡◌, Dict, Result}
use bundle_controller.Types.{Bundle, BundleList, ObjectReference, ValuesFrom}
use bundle_controller.Values.Data.{Fields}
use bundle_controller.Values.Codec.{Json}
use bundle_controller.Cluster.{Reply}

-- The two maps of a config map, in the order in which they are visited.
pub record ConfigMap : Type 0 where
  pub binary_data : Dict String String
  pub text_data : Dict String String

-- The object that a dependency refers to, as the scheme types it.
pub data Dependency : Type 0 where
  bundle : Bundle → Dependency
  other : Dependency

pub record Api (State : Type 0) : Type 0 where
  -- By namespace and name.
  pub get_bundle : String → String → State → Reply Bundle
  pub get_secret : String → String → State → Reply (Dict String String)
  pub get_config_map : String → String → State → Reply ConfigMap
  pub get_dependency : ObjectReference → State → Reply Dependency
  -- Both store the server's answer into the bundle; the second writes the status alone.
  pub update : Bundle → State → Reply Bundle × State
  pub update_status : Bundle → State → Reply Bundle × State
  -- The bundles of a namespace; an error leaves the list empty.
  pub list : String → State → BundleList

pub record Libraries : Type 0 where
  -- `controllerutil` on the list of finalizers.
  pub contains_finalizer : List String → String → Bool
  pub add_finalizer : List String → String → List String
  pub remove_finalizer : List String → String → List String
  -- `strvals.ParseInto`, which changes the map also where it fails.
  pub parse_into : String → Fields → Option String × Fields
  -- `yaml.Unmarshal` into an empty map.
  pub unmarshal_yaml : String → Result Fields
  pub json : Json
  -- `%#v` of a reference to values and of a text.
  pub show_values_from : ValuesFrom → String
  pub show_string : String → String

-- What `controllerutil` documents.
pub record IsLawful (l : Libraries) : Type 0 where
  pub contains-add :
      (fs : List String) (f : String) → l.contains_finalizer (l.add_finalizer fs f) f ≡ true
  pub contains-remove :
      (fs : List String) (f : String) → l.contains_finalizer (l.remove_finalizer fs f) f ≡ false
