-- ===== src/Tests/OnMain.antt =====
-- The program on a directory, and on one file after another.
use bundle_controller.Base.{
  String, ◌<>◌, ℕ, List, [], ◌∷◌, ◌≡◌, refl, ◌==◌, string_eq, if◌then◌else◌, ok, inl,
}
use bundle_controller.Cli.{Console}
use bundle_controller.Native.Kustomize.{Kustomizer}
use bundle_controller.Cli.Main.{Cobra, called, download, template, run, help, refused, main}
use bundle_controller.Cli.Main.Refusal.{main-directory_refused}
use bundle_controller.Cli.Main.Append.{main-append, and_main}
use bundle_controller.Tests.Servers.{platform, tools, libraries}
use bundle_controller.Tests.World.{World, world, disk, no_helm, build, world_api}
use bundle_controller.Tests.OnTemplate.{engine}
use bundle_controller.Tests.OnCli.{scheme, console, empty_world}
use bundle_controller.Tests.OnStartup.{refusing}

abbrev kustomizer : Kustomizer World String
kustomizer = record { run = build; as_yaml = λ text. ok text }

-- No flags.
abbrev cobra : Cobra
cobra options flags [] = help "commands of bundle"
cobra options flags (name ∷ args) =
    if name == "run"
    then called options (run flags)
    else if name == "download"
    then called options (download args)
    else if name == "template"
    then called options (template args)
    else refused ("unknown command \"" <> name <> "\" for \"bundle\"")

-- What is printed is noted.
abbrev noting : Console World
noting = record console { print = λ text w. record w { paths = text ∷ w.paths } }

abbrev bundle : List String → World → ℕ × World
bundle args w =
    main platform world tools no_helm disk libraries world_api kustomizer engine refusing scheme
      noting cobra args w

unknown_command :
    bundle ("remove" ∷ []) empty_world
    ≡ (1, record empty_world { paths = "unknown command \"remove\" for \"bundle\"\n" ∷ [] })
unfolding main
unknown_command = refl

helped : bundle [] empty_world ≡ (0, record empty_world { paths = "commands of bundle" ∷ [] })
unfolding main
helped = refl

main-directory_refused_example :
    (bundle ("download" ∷ "charts" ∷ []) empty_world ≡ (
      1,
      record empty_world { paths = "not found in search pathes and no version specified\n" ∷ [] },
    ))
    × (bundle ("template" ∷ "charts" ∷ []) empty_world ≡ (
      1,
      record empty_world {
        paths = "download: not found in search pathes and no version specified\n" ∷ [];
      },
    ))
main-directory_refused_example =
    main-directory_refused platform world tools no_helm disk libraries world_api kustomizer engine
      refusing scheme noting cobra ("download" ∷ "charts" ∷ []) ("template" ∷ "charts" ∷ []) ""
      "charts" [] empty_world refl refl refl refl

main-append_example :
    bundle ("download" ∷ "a.yaml" ∷ "lost.yaml" ∷ []) empty_world
    ≡ and_main platform world tools no_helm disk libraries world_api kustomizer engine refusing
        scheme noting cobra
        ("download" ∷ "lost.yaml" ∷ [])
        (bundle ("download" ∷ "a.yaml" ∷ []) empty_world)
main-append_example =
    main-append platform world tools no_helm disk libraries world_api kustomizer engine refusing
      scheme noting cobra (λ args. download args) (record { cache_dir = ""; search_dirs = [] })
      ("download" ∷ "a.yaml" ∷ []) ("download" ∷ "lost.yaml" ∷ [])
      ("download" ∷ "a.yaml" ∷ "lost.yaml" ∷ []) ("a.yaml" ∷ []) ("lost.yaml" ∷ []) empty_world
      (inl refl) refl refl refl refl refl
