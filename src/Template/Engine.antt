-- ===== src/Template/Engine.antt =====
-- The parts of helm, of the file system and of the discovery client that the templates call.
use bundle_controller.Base.{String, Bool, Option, List, Dict, Result}
use bundle_controller.Values.Data.{Fields}

-- A call of the function that `filepath.Walk` is given, and what `os.ReadFile` would give then.
pub record Visit : Type 0 where
  pub name : String
  pub failure : Option String
  pub is_dir : Bool
  pub content : Result String

pub record BufferedFile : Type 0 where
  pub name : String
  pub content : String

-- A manifest or a custom resource definition, with the file it is from.
pub record Source : Type 0 where
  pub name : String
  pub content : String

pub record Capabilities : Type 0 where
  pub api_versions : List String
  pub kube_version : String

pub record ReleaseOptions : Type 0 where
  pub name : String
  pub namespace : String
  pub is_install : Bool

-- `action.GetVersionSet`, which may give versions beside an error.
pub record VersionSet : Type 0 where
  pub api_versions : List String
  pub failure : Option String
  pub is_group_discovery_failed : Bool

-- `default_capabilities` is what `chartutil.DefaultCapabilities` starts as: a call with a
-- configuration writes both of its fields before it uses them, and no other call follows it in
-- one process.
pub record Helm (State Loaded : Type 0) : Type 0 where
  pub abs : String → State → Result String
  pub walk : String → State → List Visit
  -- `yaml.Marshal` of a chart's API version, name and version.
  pub marshal_metadata : String → String → String → Result String
  pub load_files : List BufferedFile → Result Loaded
  pub version_of : Loaded → String
  pub crd_objects : Loaded → List Source
  pub default_capabilities : Capabilities
  -- The client of the configuration, and the version that the server tells.
  pub server_version : State → Result String
  pub version_set : State → VersionSet
  pub to_render_values : Loaded → Option Fields → ReleaseOptions → Capabilities → Result Fields
  pub render_with_client : Loaded → Fields → State → Result (Dict String String)
  pub render : Loaded → Fields → Result (Dict String String)
  -- The manifests, without the hooks, in the order of installation.
  pub sort_manifests : Dict String String → List String → Result (List Source)
