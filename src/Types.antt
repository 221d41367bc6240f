-- ===== src/Types.antt =====
-- The Bundle resource of pkg/apis/bundle/v1beta1/bundle_types.go and the annotation names of
-- pkg/apis/bundle/common.go. `TypeMeta` and `ObjectMeta` are inlined, with the fields that the
-- controller reads. A time is a number, and 0 is the zero time.
use bundle_controller.Base.{
  ℕ, String, Bool, Option, List, ◌≡◌, ◌↔◌, true, ◌&&◌, arith, ◌==◌, ==_iff, string_eq, Eq,
}
use bundle_controller.Values.Codec.{Values}

-- corev1.ObjectReference. `other` stands for UID, ResourceVersion and FieldPath, which the code
-- never sets; it is "" where all three are unset.
pub record ObjectReference : Type 0 where
  pub api_version : String
  pub kind : String
  pub namespace : String
  pub name : String
  pub other : String

-- Go's `==` on the struct, as a map with such keys uses it.
abbrev pub reference_beq : ObjectReference → ObjectReference → Bool
reference_beq a b =
    a.api_version == b.api_version
    && a.kind == b.kind
    && a.namespace == b.namespace
    && a.name == b.name
    && a.other == b.other

pub reference_beq_iff : (a b : ObjectReference) → (reference_beq a b ≡ true) ↔ (a ≡ b)
reference_beq_iff a b = ground (
  arith,
  ==_iff a.api_version b.api_version,
  ==_iff a.kind b.kind,
  ==_iff a.namespace b.namespace,
  ==_iff a.name b.name,
  ==_iff a.other b.other,
)

instance unfoldable pub reference_eq : Eq ObjectReference
reference_eq = record { same = reference_beq; same_iff = reference_beq_iff }

abbrev pub BundleKind : Type 0
BundleKind = String

abbrev pub bundle_kind_helm : BundleKind
bundle_kind_helm = "helm"

abbrev pub bundle_kind_kustomize : BundleKind
bundle_kind_kustomize = "kustomize"

abbrev pub bundle_kind_template : BundleKind
bundle_kind_template = "template"

abbrev pub Phase : Type 0
Phase = String

abbrev pub phase_disabled : Phase
phase_disabled = "Disabled"

abbrev pub phase_failed : Phase
phase_failed = "Failed"

abbrev pub phase_installed : Phase
phase_installed = "Installed"

pub record ValuesFrom : Type 0 where
  pub kind : String
  pub name : String
  pub prefix : String
  pub optional : Bool

pub record BundleSpec : Type 0 where
  pub disabled : Bool
  pub kind : BundleKind
  pub url : String
  pub version : String
  pub chart : String
  pub path : String
  pub install_namespace : String
  pub dependencies : List ObjectReference
  pub values : Values
  pub values_from : List ValuesFrom

pub record BundleStatus : Type 0 where
  pub phase : Phase
  pub message : String
  pub values : Values
  pub version : String
  pub app_version : String
  pub namespace : String
  pub creation_timestamp : ℕ
  pub upgrade_timestamp : ℕ
  pub resources : List ObjectReference

pub record Bundle : Type 0 where
  pub api_version : String
  pub kind : String
  pub name : String
  pub namespace : String
  pub finalizers : List String
  pub deletion_timestamp : Option ℕ
  pub spec : BundleSpec
  pub status : BundleStatus

pub record ManagedResource : Type 0 where
  api_version : String
  kind : String
  namespace : String
  name : String

pub record BundleList : Type 0 where
  pub items : List Bundle

abbrev pub annotation_ignore_options : String
annotation_ignore_options = "bundle.kubegems.io/ignore-options"

abbrev pub annotation_ignore_option_on_update : String
annotation_ignore_option_on_update = "OnUpdate"

abbrev pub annotation_ignore_option_on_delete : String
annotation_ignore_option_on_delete = "OnDelete"
