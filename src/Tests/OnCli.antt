-- ===== src/Tests/OnCli.antt =====
-- The loop of the commands on three files.
use bundle_controller.Base.{
  String, ◌<>◌, false, Option, none, some, [], ◌∷◌, ◌≡◌, refl, ◌==◌, string_eq, if◌then◌else◌, ok,
  err, trim_space,
}
use bundle_controller.Types.{Bundle}
use bundle_controller.Manifest.Filtered.{
  Scheme, extension, read_objects_from_file, split_yaml_filterd, split_filterd, typed,
}
use bundle_controller.Cli.{Console, for_objects, for_read, for_pathes, bundle_from_dir}
use bundle_controller.Tests.Samples.{registered_bundle}
use bundle_controller.Tests.World.{World}

-- One document for each text; an object is its name, and those that are no bundle are "other".
abbrev pub scheme : Scheme String Bundle
scheme = record {
  documents = λ text. extension text ∷ extension " " ∷ extension "other" ∷ [];
  decode = λ raw. record { object = ok raw; gvk = none };
  unmarshal_unstructured = λ raw. ok raw;
  set_group_version_kind = λ gvk obj. obj;
  as_type = λ obj. if obj == "other" then none else some (record registered_bundle { name = obj });
  from_unstructured = λ us. us.name;
  marshal = λ us. ok us.name;
}

abbrev pub console : Console World
console = record {
  lstat = λ path w. ok (path == "charts");
  read_file = λ path w. if path == "lost.yaml" then err "permission denied" else ok path;
  stdin = λ w. "";
  print = λ text w. w;
  stat = λ path w. false;
  join = λ dir path. dir <> "/" <> path;
  base = λ path. path;
  abs = λ path w. path;
}

abbrev pub empty_world : World
empty_world = record { objects = []; paths = []; stored = registered_bundle }

abbrev note : Bundle → World → Option String × World
note b w = (none, record w { paths = b.name ∷ w.paths })

-- The second file cannot be read, and the third is not looked at.
stop_at_lost :
    for_pathes note scheme console
      (bundle_from_dir console)
      ("a" ∷ "lost.yaml" ∷ "b" ∷ [])
      empty_world
    ≡ (some "permission denied", record empty_world { paths = "a" ∷ [] })
unfolding for_pathes for_objects for_read read_objects_from_file split_yaml_filterd split_filterd
    typed trim_space
stop_at_lost = refl
