-- ===== src/Tests/OnStartup.antt =====
-- A start whose controller cannot be set up, and one whose manager cannot be made.
use bundle_controller.Base.{String, none, some, [], ◌∷◌, ◌≡◌, refl, ok, err}
use bundle_controller.Startup.{Runtime, new_default_options, run, set_up}
use bundle_controller.Tests.Samples.{registered_bundle}
use bundle_controller.Tests.Servers.{platform, tools, libraries}
use bundle_controller.Tests.World.{World, world, disk, no_helm, build, world_api}
use bundle_controller.Tests.OnTemplate.{engine}

-- The manager is the address of its metrics; a start is noted.
abbrev pub refusing : Runtime World String
refusing = record {
  new_manager = λ options w. (ok options.metrics_bind_address, w);
  add_healthz_check = λ name m w. (none, w);
  add_readyz_check = λ name m w. (none, w);
  complete = λ c m w. (some "no matches for kind Bundle", w);
  start = λ m w. (none, record w { paths = m ∷ w.paths });
}

abbrev unmade : Runtime World String
unmade = record refusing { new_manager = λ options w. (err "address in use", w) }

abbrev empty_world : World
empty_world = record { objects = []; paths = []; stored = registered_bundle }

no_manager :
    run platform world tools no_helm disk libraries world_api build engine unmade
      new_default_options
      (record { cache_dir = ""; search_dirs = [] })
      empty_world
    ≡ (some "address in use", empty_world)
unfolding run
no_manager = refl

-- The manager is started without a controller.
started_without :
    run platform world tools no_helm disk libraries world_api build engine refusing
      new_default_options
      (record { cache_dir = ""; search_dirs = [] })
      empty_world
    ≡ (none, record empty_world { paths = ":9090" ∷ [] })
unfolding run set_up
started_without = refl
