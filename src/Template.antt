-- ===== src/Template.antt =====
-- pkg/bundle/template/templater.go: renders a chart, or a directory of templates, with helm's engine.
pub mod Engine
pub mod Directory
pub mod Version
use bundle_controller.Base.{
  String, ◌<>◌, Bool, true, false, not, ◌&&◌, ◌||◌, Option, none, some, List, [], ◌∷◌, ◌++◌, ◌==◌,
  string_eq, if◌then◌else◌, Dict, Result, ok, err, trim_prefix,
}
use bundle_controller.Types.{Bundle}
use bundle_controller.Native.{TemplateFun, target_namespace}
use bundle_controller.Template.Engine.{
  Visit, BufferedFile, Source, Capabilities, ReleaseOptions, VersionSet, Helm,
}

-- The files so far, and whether there is a Chart.yaml among what was visited.
pub record Collected : Type 0 where
  pub files : List BufferedFile
  pub contains_chart_file : Bool

abbrev pub chart_file_name : String
chart_file_name = "Chart.yaml"

abbrev pub version_or_default : String → String
version_or_default version = if version == "" then "0.0.0" else version

-- What the walk does with what it visits other than the root.
pub visit_below : String → Visit → Collected → Result Collected
visit_below relfilename v c =
    let noted : Collected = record c {
      contains_chart_file = c.contains_chart_file || relfilename == chart_file_name;
    } in
    elim v.failure [
      | some message ↦ err message
      | none ↦ if v.is_dir then ok noted else elim v.content [
        | err message ↦ err message
        | ok content ↦ ok (record noted {
          files = noted.files ++ (record { name = relfilename; content = content } ∷ []);
        })
      ]
    ]

-- The function `walk`; the root itself is passed over before its error is looked at.
unfoldable pub visit : String → Visit → Collected → Result Collected
unfolding visit_below
visit absdir v c =
    let relfilename = trim_prefix v.name absdir in
    if relfilename == "" then ok c else visit_below relfilename v c

unfoldable pub visit_all : String → List Visit → Collected → Result Collected
visit_all absdir [] c = ok c
visit_all absdir (v ∷ visits) c = elim (visit absdir v c) [
  | err message ↦ err message
  | ok collected ↦ visit_all absdir visits collected
]

abbrev pub nothing_collected : Collected
nothing_collected = record { files = []; contains_chart_file = false }

-- One document of the output.
abbrev pub document : Source → String
document source = "---\n# Source: " <> source.name <> "\n" <> source.content <> "\n"

unfoldable pub documents : List Source → String
documents [] = ""
documents (source ∷ sources) = document source <> documents sources

module _ {State Loaded : Type 0} (e : Helm State Loaded) where
  pub with_chart_file : String → String → Collected → Result Loaded
  with_chart_file name version c =
      if c.contains_chart_file
      then e.load_files c.files
      else elim (e.marshal_metadata "v2" name version) [
        | err message ↦ err message
        | ok content ↦
            e.load_files (c.files ++ (record { name = chart_file_name; content = content } ∷ []))
      ]

  pub load_from : String → String → Result Collected → Result Loaded
  load_from name version (err message) = err message
  load_from name version (ok c) = with_chart_file name version c

  -- `Load`
  unfoldable pub load : String → String → String → State → Result Loaded
  unfolding load_from with_chart_file
  load name version path s = elim (e.abs path s) [
    | err message ↦ err message
    | ok absdir ↦
        load_from name (version_or_default version)
          (visit_all (absdir <> "/") (e.walk (absdir <> "/") s) nothing_collected)
  ]

  -- The capabilities of the cluster, where there is a configuration.
  cluster_capabilities : State → Result Capabilities
  cluster_capabilities s = elim (e.server_version s) [
    | err message ↦ err message
    | ok version ↦
        let versions = e.version_set s in
        let found : Result Capabilities = ok (record e.default_capabilities {
          api_versions = versions.api_versions;
          kube_version = version;
        }) in
        elim versions.failure [
          | none ↦ found
          | some message ↦
              if versions.is_group_discovery_failed
              then found
              else err ("could not get apiVersions from Kubernetes: " <> message)
        ]
  ]

  capabilities : Bool → State → Result Capabilities
  capabilities configured s =
      if configured then cluster_capabilities s else ok e.default_capabilities

  rendered : Loaded → Capabilities → Result (Dict String String) → Result String
  rendered chart caps (err message) = err message
  rendered chart caps (ok files) = elim (e.sort_manifests files caps.api_versions) [
    | err message ↦ err message
    | ok manifests ↦ ok (documents (e.crd_objects chart) <> documents manifests)
  ]

  release_options : Bundle → ReleaseOptions
  release_options plugin = record {
    name = plugin.name;
    namespace = target_namespace plugin;
    is_install = true;
  }

  -- `t.Config` is set or not; without one the chart is rendered without a cluster.
  render_with : Bool → Bundle → Loaded → Result Capabilities → State → Result String
  render_with configured plugin chart (err message) s = err message
  render_with configured plugin chart (ok caps) s =
      elim (e.to_render_values chart plugin.spec.values.object (release_options plugin) caps) [
        | err message ↦ err message
        | ok values ↦
            rendered chart caps
              (if configured then e.render_with_client chart values s else e.render chart values)
      ]

  -- What follows the loading: the chart's version goes into the spec.
  template_chart : Bool → Bundle → State → Result Loaded → Result String × Bundle
  template_chart configured plugin s (err message) = (err message, plugin)
  template_chart configured plugin s (ok chart) =
      let b : Bundle = record plugin {
        spec = record plugin.spec { version = e.version_of chart };
      } in
      (render_with configured b chart (capabilities configured s) s, b)

  -- `Template`
  unfoldable pub template : Bool → TemplateFun State
  unfolding template_chart render_with rendered capabilities cluster_capabilities release_options
  template configured plugin dir s =
      template_chart configured plugin s (load plugin.name plugin.spec.version dir s)
