-- ===== src/Tests/World.antt =====
-- A world of a cluster, a disk and a stored bundle, for runs of several components together.
use mathlib.Core.Path.{subst}
use bundle_controller.Base.{
  String, ◌<>◌, Bool, true, false, not, ◌&&◌, Option, none, some, List, [], ◌∷◌, ◌≡◌, refl, ap, sym,
  ◌∙◌, arith, ◌==◌, ==_iff, string_eq, if◌then◌else◌, Result, ok, err, contains, any, Bool-cases,
  inl, inr,
}
use bundle_controller.Types.{ObjectReference, reference_eq, Bundle, BundleStatus}
use bundle_controller.Resource.{Unstructured, get_reference}
use bundle_controller.Cluster.{ApiError, Reply, reply, failed, Client, KeepsReferences}
use bundle_controller.Diff.Partition.{references}
use bundle_controller.Sync.Store.{Contents, IsStore}
use bundle_controller.Helm.Sdk.{Sdk, not_found}
use bundle_controller.Download.Host.{FileSystem, item}
use bundle_controller.Reconciler.Api.{Api, other}
use bundle_controller.Reconciler.Wire.{carried, KeepsAllElse}
use bundle_controller.Reconciler.Loop.Cleanup.{KeepsContents}
use bundle_controller.Tests.Servers.{
  missing_error, wire, one_object, versionless, find, without, names, answered,
}

pub record World : Type 0 where
  pub objects : List Unstructured
  pub paths : List String
  pub stored : Bundle

abbrev pub is_there : Unstructured → World → Bool
is_there obj w = any (λ k. one_object k (get_reference obj)) (references w.objects)

abbrev pub world : Client
world = record {
  State = World;
  is_namespaced = λ api_version kind. true;
  get = λ obj w. find obj w.objects;
  create = λ obj w. (reply obj, record w { objects = obj ∷ w.objects });
  patch = λ patch obj w. (reply obj, record w { objects = obj ∷ without obj w.objects });
  delete = λ obj w.
      if is_there obj w
      then (none, record w { objects = without obj w.objects })
      else (some missing_error, w);
  create_or_update_namespace = λ name w. (none, w);
}

pub world-KeepsReferences : KeepsReferences world
world-KeepsReferences = record {
  create-get_reference =
      λ obj answer s t storable e. ap (λ r. get_reference (answered r.0 answer)) (sym e);
  patch-get_reference =
      λ patch obj answer s t storable e. ap (λ r. get_reference (answered r.0 answer)) (sym e);
}

abbrev pub lives : World → Contents
lives w r = any (λ k. one_object k r) (references w.objects)

-- There are no finalizers.
abbrev pub fades : World → Contents
fades w r = false

any-without :
    (obj : Unstructured) (os : List Unstructured) (r : ObjectReference)
    → any (λ k. one_object k r) (references (without obj os))
      ≡ (any (λ k. one_object k r) (references os) && not (one_object (get_reference obj) r))
any-without obj [] r = refl
any-without obj (o ∷ os) r = ground (
  arith,
  any-without obj os r,
  ==_iff (versionless (get_reference obj)) (versionless (get_reference o)),
  ==_iff (versionless (get_reference obj)) (versionless r),
  ==_iff (versionless (get_reference o)) (versionless r),
)

absent :
    (obj : Unstructured) (os : List Unstructured) (r : ObjectReference)
    → any (λ k. one_object k (get_reference obj)) (references os) ≡ false
    → any (λ k. one_object k r) (references os)
      ≡ (any (λ k. one_object k r) (references os) && not (one_object (get_reference obj) r))
absent obj [] r none_there = refl
absent obj (o ∷ os) r none_there = ground (
  arith,
  absent obj os r (ground arith),
  ==_iff (versionless (get_reference o)) (versionless (get_reference obj)),
  ==_iff (versionless (get_reference obj)) (versionless r),
  ==_iff (versionless (get_reference o)) (versionless r),
)

lives-delete :
    (obj : Unstructured) (s t : World) (r : ObjectReference) (failure : Option ApiError)
    → world.delete obj s ≡ (failure, t)
    → lives t r ≡ (lives s r && not (one_object (get_reference obj) r))
lives-delete obj s t r failure e = elim (Bool-cases (is_there obj s)) [
  | inl there ↦ ap (λ w. lives w.1 r) (sym (rw there at e)) ∙ any-without obj s.objects r
  | inr gone ↦ ap (λ w. lives w.1 r) (sym (rw gone at e)) ∙ absent obj s.objects r gone
]

pub world-IsStore : IsStore world one_object lives fades
world-IsStore = record {
  create-lives = λ obj answer s t r storable e. ap (λ w. lives w.1 r) (sym e);
  create-fades = λ obj answer s t r storable e before. refl;
  patch-lives = λ patch obj answer s t r storable calm e.
      ap (λ w. lives w.1 r) (sym e) ∙ rw (any-without obj s.objects r) (ground arith);
  patch-fades = λ patch obj answer s t r storable e before. refl;
  delete-lives = λ obj s t r e. lives-delete obj s t r none e;
  absent-lives = λ obj e s t r deleted gone. lives-delete obj s t r (some e) deleted;
  namespace-lives = λ name s r h. refl;
  namespace-fades = λ name s r before. refl;
}

-- An archive with one directory is what every URL gives.
abbrev pub disk : FileSystem World
disk = record {
  join = λ dir path. if path == "" then dir else dir <> "/" <> path;
  dir = λ path. path;
  base = λ path. path;
  user_home_dir = λ w. "/root";
  stat = λ path w. false;
  read_dir = λ path w. if contains w.paths path then some [] else none;
  mkdir_all = λ path mode w. (none, record w { paths = path ∷ w.paths });
  rename = λ path other w. (none, w);
  create = λ path mode w. (none, w);
  copy = λ path content w. w;
  write_file = λ path content mode w. (none, w);
  http_get = λ uri w. (ok "body", w);
  untar = λ body. item (record { name = "deploy/"; is_dir = true; mode = 0; content = "" }) ∷ [];
  unzip = λ raw. err "zip: not a valid zip file";
  parse_request_uri = λ uri. err "invalid URI for request";
  walk_dir = λ path w. [];
  clone = λ uri rev w. (err "repository not found", w);
}

abbrev pub no_helm : Sdk World
no_helm = record {
  locate_chart = λ name repo version s. (err "no chart", s);
  load = λ path s. err "no chart";
  check_dependencies = λ c s. none;
  update = λ path s. (none, s);
  render = λ name namespace c values s. err "no release";
  get = λ namespace name s. not_found;
  install = λ namespace name c values s. (err "no release", s);
  upgrade = λ namespace name c values s. (err "no release", s);
  uninstall = λ namespace name s. (err "no release", s);
  history = λ namespace name s. err "no release";
  delete = λ namespace name version s. (none, s);
  sort_func = λ less l. l;
}

abbrev pub build : String → World → Result String
build dir w = if contains w.paths dir then ok "web" else err "no such directory"

abbrev pub world_api : Api World
world_api = record {
  get_bundle = λ namespace name w.
      if names w.stored namespace name then reply w.stored else failed missing_error;
  get_secret = λ namespace name w. failed missing_error;
  get_config_map = λ namespace name w. failed missing_error;
  get_dependency = λ dep w. reply other;
  update = λ b w. (reply b, record w { stored = b });
  update_status = λ b w.
      if names w.stored b.namespace b.name
      then (
        reply (record w.stored { status = carried wire b.status }),
        record w { stored = record w.stored { status = carried wire b.status } },
      )
      else (failed missing_error, w);
  list = λ namespace w. record { items = w.stored ∷ [] };
}

abbrev with_status : BundleStatus → Reply Bundle → Reply Bundle
with_status status (failed e) = failed e
with_status status (reply b) = reply (record b { status = status })

pub world_api-KeepsAllElse : KeepsAllElse wire world_api
world_api-KeepsAllElse b stored answer s t read written =
    elim (Bool-cases (names s.stored b.namespace b.name)) [
      | inr away ↦ absurd (cc (simp away at read))
      | inl same ↦
          subst
            (λ x.
              world_api.get_bundle b.namespace b.name x
              ≡ reply (record stored { status = carried wire b.status }))
            (ap (λ w. w.1) (simp same at written))
            (simp same (ap (with_status (carried wire b.status)) (simp same at read)))
    ]

pub world_api-KeepsContents : KeepsContents world_api lives
world_api-KeepsContents b s r = ground arith
