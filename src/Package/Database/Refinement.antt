-- ===== src/Package/Database/Refinement.antt =====
-- database.py against its contract: a partial map from names to entries.
use sonic_utility.Base.{
  String, Bool, true, false, ap, Option, none, some, ◌≡◌, if◌then◌else◌, is_some, arith, ◌==◌,
}
use sonic_utility.Base.Dict.{lookup, lookup-insert, lookup-remove}
use sonic_utility.Base.Result.{Result, ok, err}
use sonic_utility.Base.Exec.{◌>>=◌}
use sonic_utility.Package.Semver.{Semver}
use sonic_utility.Package.Model.{PackageEntry}
use sonic_utility.Package.Errors.{
  Error, package_manager_error, package_not_found, package_already_exists, system_error,
}
use sonic_utility.Package.Database.{
  Database, Writing, done, not_opened, cut_short, new_entry, add_package, remove_package,
  update_package, commit,
}
use sonic_utility.Package.Database.Invariant.{
  Operation, add, delete, update, save, perform, saved-packages,
}

module _ (sv : Semver) where
  abbrev pub View : Type 0
  View = String → Option (PackageEntry sv)

  abbrev pub view : Database sv → View
  view db name = lookup name db.packages

  abbrev pub put : String → Option (PackageEntry sv) → View → View
  put name o m j = if name == j then o else m j

  -- What an operation promises of the map, and its result.
  abbrev removal : String → Option (PackageEntry sv) → View → Result (Error sv) (Unit {0}) × View
  removal name none m = (err (package_not_found name), m)
  removal name (some p) m =
      if p.built_in
      then (err package_manager_error, m)
      else if p.installed
      then (err package_manager_error, m)
      else (ok tt, put name none m)

  -- A commit of a database with a file raises where the writing does.
  abbrev saving : Bool → Writing → Result (Error sv) (Unit {0})
  saving false writing = ok tt
  saving true done = ok tt
  saving true not_opened = err system_error
  saving true cut_short = err system_error

  -- `kept` tells whether the database has a file.
  abbrev pub contract : Bool → Operation sv → View → Result (Error sv) (Unit {0}) × View
  contract kept (add name repository description default_reference) m =
      if is_some (m name)
      then (err (package_already_exists name), m)
      else (ok tt, put name (some (new_entry sv name repository description default_reference)) m)
  contract kept (delete name) m = removal name (m name) m
  contract kept (update p) m =
      if is_some (m p.name)
      then (ok tt, put p.name (some p) m)
      else (err (package_not_found p.name), m)
  contract kept (save writing) m = (saving kept writing, m)

  save-refines :
      (writing : Writing) (db : Database sv)
      → (commit sv writing db).0 ≡ saving (is_some db.file) writing
  unfolding commit
  save-refines done db = ground arith
  save-refines not_opened db = ground arith
  save-refines cut_short db = ground arith

  -- Each operation returns or raises what its contract says, and changes the map as it says: an
  -- addition fails on a known name, an update on an unknown one, a removal on an unknown, a
  -- built-in or an installed package, a commit where a file is kept and its writing raises, and no
  -- failing operation changes the map.
  pub perform-refines :
      (o : Operation sv) (db : Database sv)
      → ((perform sv o db).0 ≡ (contract (is_some db.file) o (view db)).0)
        × ((j : String) → view (perform sv o db).1 j ≡ (contract (is_some db.file) o (view db)).1 j)
  unfolding add_package remove_package update_package commit ◌>>=◌
  perform-refines (add name repository description default_reference) db = (
    ground arith,
    λ j. ground (
      arith,
      lookup-insert name j (new_entry sv name repository description default_reference) db.packages,
    ),
  )
  perform-refines (delete name) db =
      (ground arith, λ j. ground (arith, lookup-remove name j db.packages))
  perform-refines (update p) db =
      (ground arith, λ j. ground (arith, lookup-insert p.name j p db.packages))
  perform-refines (save writing) db =
      (save-refines writing db, λ j. ap (lookup j) (saved-packages sv writing db))
