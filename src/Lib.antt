-- ===== src/Lib.antt =====
-- bundle-controller: a Kubernetes controller that installs bundles, which are helm charts, kustomize
-- directories or templates.
--
-- The reconciler (pkg/controllers) reads a Bundle, keeps a finalizer on it, checks its dependencies,
-- resolves its values from secrets and config maps, and calls the applier of its kind (pkg/bundle).
-- The native applier renders manifests and brings the cluster to them by a difference of references
-- (pkg/utils); the helm applier drives releases of the helm library. The result goes into the status.
--
-- Which file models what:
--   Types              pkg/apis/bundle/v1beta1/bundle_types.go and pkg/apis/bundle/common.go
--   Values/Data        nested values, map[string]interface{}
--   Values/Codec       pkg/apis/bundle/v1beta1/type_values.go: FullFill, UnmarshalJSON, MarshalJSON
--   Values/Nulls       the same file: RemoveNulls
--   Values/Copy        the same file: DeepCopy
--   Copies             pkg/apis/bundle/v1beta1/zz_generated.deepcopy.go: the copies of values;
--                      Copies/Pointers: the copies behind pointers
--   Values/Merge       pkg/controllers/bundle.go: mergeMaps; Values/Merge/Precedence proves
--   Values/Equal       pkg/utils/values.go: EqualMapValues
--   Resource, Cluster  pkg/utils/reference.go: GetReference, pkg/utils/apply.go: IsSkipedOn; the API
--                      server and the runtime as parameters
--   Diff               pkg/utils/apply.go: Diff; Diff/Partition, Diff/Members and Diff/Removes prove
--   Sync               pkg/utils/apply.go: Sync, SyncDiff, ApplyResource, createNsIfNotExists;
--                      Sync/References, Sync/Managed, Sync/Kept, Sync/Convergence, Sync/Store,
--                      Sync/Writes, Sync/Desired, Sync/Moves, Sync/Order and Sync/Apart prove
--   Manifest           pkg/utils/yaml.go: SplitYAML; Manifest/Filtered: SplitYAMLFilterd,
--                      ReadObjectsFromFile and ConvertToTyped
--   Native             pkg/bundle/native/native.go: Apply, Remove, SetNamespaceIfNotSet, and
--                      KustomizeBuildFunc; Native/Kustomize is KustomizeBuild, of
--                      pkg/bundle/kustomize/kustomize.go; Native/Recorded, Native/Settled,
--                      Native/Stale, Native/Contents, Native/Failures and Native/Apart prove
--   Helm/Sdk           the helm library as a parameter
--   Helm/History       pkg/bundle/helm/helm-cli.go: removeHistories; Helm/History/Limit proves
--   Helm/Cli           pkg/bundle/helm/helm-cli.go: LoadChart, ApplyChart, RemoveChart; Helm/Cli/Apart
--                      proves
--   Helm/Apply         pkg/bundle/helm/helm.go: Template, Apply, Remove and getPreRelease;
--                      Helm/Apply/Phases and Helm/Apply/Apart prove
--   Download           pkg/bundle/download.go: Download, findAt, hasTgz, isNotEmpty, DownloadHelmChart;
--                      Download/Host is the file system, the network and the archive libraries as a
--                      parameter; Download/Unpack the loops of UnTarGz, DownloadZip, DownloadFile and
--                      DownloadGit; Download/Again, Download/Search, Download/Apart and the
--                      children of Download/Unpack prove
--   Template           pkg/bundle/template/templater.go: Load and Template; Template/Engine is helm
--                      and the discovery client as a parameter; Template/Directory and
--                      Template/Version prove
--   Outcome, Applier   pkg/bundle/bundle.go: the Apply interface and BundleApplier; Applier/Default:
--                      NewDefaultApply; Applier/Twice, Applier/Removal and Applier/Apart prove
--   Reconciler/Api     what the reconciler calls; Reconciler/Wire: what becomes of a bundle between
--                      a write of its status and the next read
--   Reconciler/Dependencies, Reconciler/Values, Reconciler/Loop
--                      pkg/controllers/bundle.go: checkDepenency; resolveValuesRef and mergeInto;
--                      Reconcile and Sync. Reconciler/Values/Precedence, Reconciler/Loop/Finalizers,
--                      Reconciler/Loop/Failures, Reconciler/Loop/Deletion,
--                      Reconciler/Loop/Installs, Reconciler/Loop/Cleanup,
--                      Reconciler/Loop/Settled and Reconciler/Loop/Apart prove;
--                      Reconciler/Loop/Lifecycle is a step relation, of calls of Reconcile and of
--                      changes of the bundle by others, and its children prove
--   Notifier           pkg/controllers/notifier.go: ConfigMapOrSecretTrigger
--   Startup            pkg/controllers/controller.go: Run, and pkg/controllers/bundle.go: Setup
--   Cli                cmd/bundle/apps/download.go and cmd/bundle/apps/template.go: ForBundleInPathes,
--                      BundleFromDir and the two commands; Cli/Sequence and Cli/Directories prove
--   Cli/Main           cmd/bundle/main.go, cmd/bundle/apps/apps.go and cmd/bundle/apps/run.go: the
--                      program with its exit code, over cobra as a parameter; Cli/Main/Refusal and
--                      Cli/Main/Append prove
--   Version            pkg/version/version.go
--   Base, Tests        shared helpers; concrete runs
--
-- State and errors. A method that changes a bundle through a pointer returns the bundle, its error
-- as an optional text, and the state of what it works on (Outcome). The API server is a record of
-- functions over a state of its own; what the proofs need of it is a named law (KeepsReferences,
-- KeepsAllElse, KeepsContents, IsStore, IsServer, IsApart), and so for the file system and the helm
-- library (IsDisk, NeedsDirectory, IsHostApart, IsSdkApart). The laws on writes are for objects with
-- a name, and with a namespace exactly if their kind has one (IsStorable). An object that a DELETE
-- was accepted for may stay for its finalizers, and references that differ in the version may denote
-- one object (IsStore). The values of a status go through MarshalJSON, UnmarshalJSON and DeepCopy
-- between a write and a read (Wire). The default appliers work on one
-- state, which holds the cluster and the files; a template function reads that state. A copy of an
-- object is the object but for values, which go through gob. A Go map is a list of entries; the
-- order of iteration and the unstable sort are parameters that rearrange (IsFaithful). All loops
-- are structural recursion on what they range over, so no fuel is needed. Times and revisions are
-- natural numbers; the only subtraction, of deleted from all revisions, stops at 0 where the source
-- has none below 0.
--
-- Not modelled: signals, which end a run from outside; logging; NewHelmConfig, which only configures
-- the helm library; the registration of types with client-go. Text printed to the standard error is
-- left out.
pub mod Base
pub mod Values
pub mod Types
pub mod Cluster
pub mod Resource
pub mod Diff
pub mod Sync
pub mod Manifest
pub mod Outcome
pub mod Native
pub mod Helm
pub mod Template
pub mod Download
pub mod Applier
pub mod Reconciler
pub mod Notifier
pub mod Copies
pub mod Startup
pub mod Cli
pub mod Version
pub mod Tests
