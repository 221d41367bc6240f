-- ===== src/Startup.antt =====
-- pkg/controllers/controller.go, `Run`, and pkg/controllers/bundle.go, `Setup`: the manager and the
-- controller that it runs.
use bundle_controller.Base.{
  String, ℕ, Bool, true, false, Option, none, some, List, [], ◌∷◌, Result, ok, err,
}
use bundle_controller.Cluster.{Client, Platform}
use bundle_controller.Native.{Tools}
use bundle_controller.Helm.Sdk.{Sdk}
use bundle_controller.Template
use bundle_controller.Template.Engine.{Helm}
use bundle_controller.Download.Host.{FileSystem}
use bundle_controller.Applier.Default.{new_default_apply}
use bundle_controller.Reconciler.Api.{Api, Libraries}
use bundle_controller.Reconciler.Loop.{Reconciled, reconcile}
use bundle_controller.Notifier.{
  Watched, config_map, secret, Object, Request, config_map_or_secret_trigger,
}

-- The options of the manager.
pub record Options : Type 0 where
  pub metrics_addr : String
  pub probe_addr : String
  pub enable_leader_election : Bool
  pub search_dir : String

abbrev pub new_default_options : Options
new_default_options = record {
  metrics_addr = ":9090";
  probe_addr = ":8081";
  enable_leader_election = false;
  search_dir = "bundles";
}

-- The options of the appliers.
pub record BundleOptions : Type 0 where
  pub cache_dir : String
  pub search_dirs : List String

-- What the manager is made with; the times are in seconds.
pub record ManagerOptions : Type 0 where
  pub metrics_bind_address : String
  pub health_probe_bind_address : String
  pub lease_duration : ℕ
  pub renew_deadline : ℕ
  pub leader_election : Bool
  pub leader_election_id : String

abbrev pub manager_options : Options → ManagerOptions
manager_options options = record {
  metrics_bind_address = options.metrics_addr;
  health_probe_bind_address = options.probe_addr;
  lease_duration = 30;
  renew_deadline = 20;
  leader_election = options.enable_leader_election;
  leader_election_id = "bundle.kubegems.io";
}

-- What controller-runtime is told to call: for a request, and for an object of a kind that it watches.
pub record Controller (State : Type 0) : Type 0 where
  pub max_concurrent_reconciles : ℕ
  pub watches : List Watched
  pub handler : Object → State → List Request
  pub reconciler : Request → State → Reconciled × State

-- controller-runtime, on its manager.
pub record Runtime (State Manager : Type 0) : Type 0 where
  pub new_manager : ManagerOptions → State → Result Manager × State
  pub add_healthz_check : String → Manager → State → Option String × State
  pub add_readyz_check : String → Manager → State → Option String × State
  pub complete : Controller State → Manager → State → Option String × State
  pub start : Manager → State → Option String × State

abbrev pub max_concurrent_reconciles : ℕ
max_concurrent_reconciles = 5

module _ (p : Platform) (c : Client) (t : Tools) (h : Sdk c.State) (f : FileSystem c.State)
    (l : Libraries) (api : Api c.State) (build : String → c.State → Result String) {Loaded : Type 0}
    (e : Helm c.State Loaded) {Manager : Type 0} (r : Runtime c.State Manager) where
  -- What `Setup` builds.
  abbrev pub controller : BundleOptions → Controller c.State
  controller options = record {
    max_concurrent_reconciles = max_concurrent_reconciles;
    watches = config_map ∷ secret ∷ [];
    handler = config_map_or_secret_trigger api;
    reconciler = λ request s.
        reconcile l api
          (new_default_apply p c t h f build (Template.template e true) options.cache_dir
            options.search_dirs)
          request.namespace request.name s;
  }

  -- `Setup`
  unfoldable pub set_up : BundleOptions → Manager → c.State → Option String × c.State
  set_up options m s = r.complete (controller options) m s

  -- The error of `Setup` is logged.
  abbrev set_up_and_start : BundleOptions → Manager → c.State → Option String × c.State
  set_up_and_start options m s = let (failure, u) = set_up options m s in r.start m u

  unless_failed :
      Option String × c.State → (c.State → Option String × c.State) → Option String × c.State
  unless_failed (some message, s) then_do = (some message, s)
  unless_failed (none, s) then_do = then_do s

  run_with : BundleOptions → Result Manager × c.State → Option String × c.State
  run_with options (err message, s) = (some message, s)
  run_with options (ok m, s) =
      unless_failed (r.add_healthz_check "healthz" m s)
        (λ u. unless_failed (r.add_readyz_check "readyz" m u) (λ v. set_up_and_start options m v))

  -- `Run`
  unfoldable pub run : Options → BundleOptions → c.State → Option String × c.State
  unfolding run_with unless_failed
  run options bundle_options s = run_with bundle_options (r.new_manager (manager_options options) s)
