-- ===== src/Package/Tests/Databases.antt =====
-- The package database on a sample.
use sonic_utility.Base.{true, String, none, some, [], ◌≡◌, refl}
use sonic_utility.Base.Dict.{Dict, lookup}
use sonic_utility.Base.Result.{ok, err}
use sonic_utility.Base.Exec.{◌>>=◌}
use sonic_utility.Package.Errors.{package_manager_error}
use sonic_utility.Package.Database.{PackageInfo, json, done, remove_package, commit}
use sonic_utility.Package.Database.Invariant.{IsValid, delete, add, perform, perform-IsValid}
use sonic_utility.Package.Database.Refinement.{view, contract, perform-refines}
use sonic_utility.Package.Database.File.{from_file, from_file-commit}
use sonic_utility.Package.Tests.Samples.{releases, database}

database-IsValid : IsValid releases database
unfolding lookup
database-IsValid = record {
  keyed = (refl, (refl, (refl, (refl, tt))));
  unique = (refl, (refl, (refl, (refl, tt))));
}

perform-IsValid_example : IsValid releases (perform releases (add "new" none none none) database).1
perform-IsValid_example =
    perform-IsValid releases (add "new" none none none) database database-IsValid

perform-refines_example :
    ((perform releases (delete "agent") database).0
      ≡ (contract releases true (delete "agent") (view releases database)).0)
    × ((j : String)
        → view releases (perform releases (delete "agent") database).1 j
          ≡ (contract releases true (delete "agent") (view releases database)).1 j)
perform-refines_example = perform-refines releases (delete "agent") database

-- An installed package is not removed from the database.
delete_installed : remove_package releases "agent" database ≡ (err package_manager_error, database)
unfolding remove_package ◌>>=◌ lookup
delete_installed = refl

from_file-commit_example :
    (content : Dict PackageInfo) × ((commit releases done database).1.file ≡ some (json content))
    × (from_file releases content ≡ ok (commit releases done database).1)
from_file-commit_example =
    from_file-commit releases database (json []) refl (refl, (refl, (refl, (refl, tt))))
      ((refl, refl), ((refl, refl), ((refl, refl), (tt, tt))))
