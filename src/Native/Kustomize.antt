-- ===== src/Native/Kustomize.antt =====
-- pkg/bundle/kustomize/kustomize.go: `KustomizeBuild`.
use bundle_controller.Base.{String, Result, ok, err}

-- `krusty.Kustomizer.Run` on a directory of the disk, and `resmap.ResMap.AsYaml`.
pub record Kustomizer (State Resources : Type 0) : Type 0 where
  pub run : String → State → Result Resources
  pub as_yaml : Resources → Result String

abbrev pub kustomize_build :
    {State Resources : Type 0} → Kustomizer State Resources → String → State → Result String
kustomize_build k dir s = elim (k.run dir s) [
  | err message ↦ err message
  | ok m ↦ elim (k.as_yaml m) [ err message ↦ err message | ok yml ↦ ok yml ]
]
