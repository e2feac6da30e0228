-- ===== src/Package/Tests/Managers.antt =====
-- The package manager on a sample world.
use sonic_utility.Package.Manager.{get_installed_packages}
use sonic_utility.Package.Tree.{validate_package_cli_can_be_skipped}
use sonic_utility.Package.Tree.{implicit_constraints}
use sonic_utility.Package.Tree.{validate_package_tree}
use sonic_utility.Package.Tree.{validate_package_base_os_constraints}
use sonic_utility.Base.{none, some, [], ◌∷◌, ◌≡◌, refl, true, false}
use sonic_utility.Base.Dict.{Dict, lookup, insert}
use sonic_utility.Base.Result.{ok}
use sonic_utility.Package.Model.{Package}
use sonic_utility.Package.ConfigDb.{persistent_connector}
use sonic_utility.Package.World.{World}
use sonic_utility.Package.Source.{tarball}
use sonic_utility.Package.Manager.Operations.{install_from_source}
use sonic_utility.Package.Manager.Install.{Installed}
use sonic_utility.Package.Manager.Success.{Installable}
use sonic_utility.Package.Manager.Installs.{install_succeeds}
use sonic_utility.Package.Tests.Samples.{
  releases, environment, world, database, agent, router, base_entry, metadata_of, first, next,
  constraint_on, any, entry_of,
}

abbrev base : Package releases
base = record { entry = base_entry; metadata = metadata_of "base" first [] [] [] }

abbrev new_base : Package releases
new_base = record { entry = base_entry; metadata = metadata_of "base" next [] [] [] }

abbrev orphan : Package releases
orphan = record {
  entry = record (entry_of "orphan" none) {
    repository = none;
    default_reference = none;
    description = some "a package";
  };
  metadata = metadata_of "orphan" first (constraint_on "parent" any ∷ []) [] [];
}

abbrev with_orphan : Dict (Package releases)
with_orphan = ("agent", agent) ∷ ("router", router) ∷ ("base", base) ∷ ("orphan", orphan) ∷ []

abbrev monitor : Package releases
monitor = record {
  entry = entry_of "monitor" none;
  metadata = metadata_of "monitor" first [] [] [];
}

abbrev installed : Dict (Package releases)
installed = ("agent", agent) ∷ ("router", router) ∷ ("base", base) ∷ []

monitor-Installable :
    Installable releases environment database monitor installed (entry_of "monitor" none) false
unfolding lookup validate_package_base_os_constraints validate_package_tree insert
    implicit_constraints validate_package_cli_can_be_skipped
monitor-Installable = record {
  known = refl;
  not_installed = refl;
  base_os = refl;
  tree = refl;
  cli = refl;
}

install_succeeds_example :
    ((install_from_source releases persistent_connector environment
        (tarball "/monitor.gz")
        false
        true
        "local"
        false
        world).0
      ≡ ok tt)
    × Installed releases persistent_connector environment database
        (tarball "/monitor.gz")
        (install_from_source releases persistent_connector environment
          (tarball "/monitor.gz")
          false
          true
          "local"
          false
          world).1
unfolding get_installed_packages lookup insert
install_succeeds_example =
    install_succeeds releases persistent_connector environment (λ n. refl) (tarball "/monitor.gz")
      false true "local" false world monitor installed (entry_of "monitor" none) refl tt refl
      monitor-Installable
