-- ===== src/Version.antt =====
-- pkg/version/version.go: what a build says of itself.
use bundle_controller.Base.{String, ◌<>◌, Result, ok, err}

-- The variables that the linker may set.
record Build : Type 0 where
  git_version : String
  git_commit : String
  build_date : String

abbrev default_build : Build
default_build = record {
  git_version = "v0.0.0-master+$Format:%H$";
  git_commit = "$Format:%H$";
  build_date = "1970-01-01T00:00:00Z";
}

-- The package runtime.
record Runtime : Type 0 where
  version : String
  compiler : String
  goos : String
  goarch : String

record Version : Type 0 where
  git_version : String
  git_commit : String
  build_date : String
  go_version : String
  compiler : String
  platform : String

abbrev get : Build → Runtime → Version
get build runtime = record {
  git_version = build.git_version;
  git_commit = build.git_commit;
  build_date = build.build_date;
  go_version = runtime.version;
  compiler = runtime.compiler;
  platform = runtime.goos <> "/" <> runtime.goarch;
}

-- `Version.String`, with `json.MarshalIndent`, whose error is dropped.
abbrev string : (Version → Result String) → Version → String
string marshal_indent v = elim (marshal_indent v) [ ok bts ↦ bts | err message ↦ "" ]
