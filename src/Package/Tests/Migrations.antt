-- ===== src/Package/Tests/Migrations.antt =====
-- The migration of packages on a sample.
use mathlib.Core.Option
use sonic_utility.Base.{true, none, some, [], ◌∷◌, ◌≡◌, refl, or_else, inl, inr, All}
use sonic_utility.Base.Dict.{lookup, insert}
use sonic_utility.Base.Result.{ok}
use sonic_utility.Package.Database.{Database, iterate}
use sonic_utility.Package.Database.Invariant.{IsValid}
use sonic_utility.Package.Database.Refinement.{view}
use sonic_utility.Package.ConfigDb.{persistent_connector}
use sonic_utility.Package.Manager.Migrate.{migrate_packages, migrate_package_database, version_gt}
use sonic_utility.Package.Manager.Migrate.Registered.{migrated, view-migrate_package_database}
use sonic_utility.Package.Manager.Migrate.UpToDate.{
  IsUpToDate, any_to_migrate, Quiet, migrate_packages_up_to_date,
}
use sonic_utility.Package.Tests.Samples.{releases, environment, world, database, entry_of, first}

-- The old image has `agent`, installed at the same release, and two packages that are not.
abbrev old : Database releases
old = record {
  packages =
      ("agent", entry_of "agent" (some first))
      ∷ ("probe", entry_of "probe" none)
      ∷ ("monitor", entry_of "monitor" none)
      ∷ [];
  file = none;
}

old-IsValid : IsValid releases old
unfolding lookup
old-IsValid = record { keyed = (refl, (refl, (refl, tt))); unique = (refl, (refl, (refl, tt))) }

view-migrate_package_database_example :
    view releases (migrate_package_database releases old database) "probe"
    ≡ or_else
        (view releases database "probe")
        (Option.map (migrated releases) (view releases old "probe"))
view-migrate_package_database_example =
    view-migrate_package_database releases old database "probe" old-IsValid

old-IsUpToDate :
    All
      (IsUpToDate releases persistent_connector environment
        (migrate_package_database releases old database))
      (iterate releases old)
unfolding migrate_package_database iterate lookup insert version_gt
old-IsUpToDate =
    (inr (inr (entry_of "agent" (some first), refl, refl, refl)), (inl refl, (inl refl, tt)))

migrate_packages_up_to_date_example :
    ((migrate_packages releases persistent_connector environment old true world).0 ≡ ok tt)
    × Quiet releases persistent_connector environment
        (any_to_migrate releases persistent_connector environment (iterate releases old))
        (record world { database = migrate_package_database releases old database })
        (migrate_packages releases persistent_connector environment old true world).1
migrate_packages_up_to_date_example =
    migrate_packages_up_to_date releases persistent_connector environment (λ n. refl) old true world
      old-IsUpToDate
