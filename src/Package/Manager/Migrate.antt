-- ===== src/Package/Manager/Migrate.antt =====
-- migrate_packages of PackageManager in sonic_package_manager/manager.py.
pub mod Registered
pub mod UpToDate
use Prim.Native.String.{◌++◌ as str_append}
use sonic_utility.Base.{
  String, Bool, true, false, ◌||◌, not, Option, none, some, List, [], ◌∷◌, ◌≡◌, refl, if◌then◌else◌,
}
use sonic_utility.Base.Result
use sonic_utility.Base.Result.{Result, ok, err}
use sonic_utility.Base.Exec.{Exec, pure, raise, lift, gets, query, ◌>>=◌, ◌>>◌}
use sonic_utility.Package.Semver.{Semver}
use sonic_utility.Package.Model.{PackageEntry, Package}
use sonic_utility.Package.Errors.{Error, attribute_error, type_error}
use sonic_utility.Package.Database.{Database, get_package, has_package, add_package, iterate}
use sonic_utility.Package.ConfigDb.{Connector}
use sonic_utility.Package.World.{World, Act, Environment, perform, save_image}
use sonic_utility.Package.Source.{source_package}
use sonic_utility.Package.Manager.{commit_database}
use sonic_utility.Package.Manager.Operations.{Method, read}
use sonic_utility.Package.Manager.Upgrade.{
  SourceRequest, expression, tarball_path, package_ref, Options, install, get_package_source,
}

module _ (sv : Semver) where
  -- One round of the loop of _migrate_package_database.
  unfoldable pub add_missing : PackageEntry sv → Database sv → Database sv
  unfolding has_package add_package
  add_missing p db =
      if has_package sv p.name db
      then db
      else (add_package sv p.name p.repository p.description p.default_reference db).1

  abbrev pub add_all : List (PackageEntry sv) → Database sv → Database sv
  add_all [] db = db
  add_all (p ∷ ps) db = add_all ps (add_missing p db)

  unfoldable pub migrate_package_database : Database sv → Database sv → Database sv
  unfolding add_missing iterate
  migrate_package_database old db = add_all (iterate sv old) db

module _ (sv : Semver) (cn : Connector) (env : Environment sv) where
  open sv use {Version}

  -- Version.__gt__; one of two versions that is `None` has no `_version`, and two of them have no
  -- order.
  unfoldable pub version_gt : Option Version → Option Version → Result (Error sv) Bool
  version_gt (some v) (some w) = ok (sv.version_lt w v)
  version_gt (some v) none = err attribute_error
  version_gt none (some w) = err attribute_error
  version_gt none none = err type_error

  abbrev no_options : Options sv cn env
  no_options = record {
    force = none;
    enable = none;
    default_owner = none;
    skip_host_plugins = none;
    allow_downgrade = none;
  }

  -- f'{version}'
  abbrev version_or_none : Option Version → String
  version_or_none none = "None"
  version_or_none (some v) = sv.version_text v

  abbrev pub exact_expression : String → Option Version → SourceRequest sv cn env
  exact_expression name version =
      expression (str_append name (str_append "=" (version_or_none version)))

  -- The routine inside migrate_packages; `version` is what the caller stores in the new entry. With
  -- a docker socket the image is saved to a temporary file and installed from there.
  unfoldable pub migrate_package :
      Bool → PackageEntry sv → String → Option Version → Method sv cn env (Unit {0})
  unfolding perform install
  migrate_package dockerd_sock old name version =
      if dockerd_sock
      then (do
        file ← gets (λ w. env.temporary_file w.calls)
        perform sv cn env (save_image old.image_id file)
        install sv cn env (tarball_path file) no_options)
      else install sv cn env (exact_expression name version) no_options

  -- A package that is not installed in the new image, but has a default reference there.
  unfoldable pub migrate_default :
      Bool → PackageEntry sv → PackageEntry sv → String → Method sv cn env (Unit {0})
  unfolding get_package_source source_package version_gt migrate_package install
  migrate_default dockerd_sock old new reference = do
    source ← read sv cn env (
        get_package_source sv cn env
          (package_ref (record { name = new.name; reference = some reference })))
    p ← read sv cn env (λ db. source_package sv env db source)
    let default_version = some p.metadata.manifest.package_table.version
    newer ← lift (version_gt old.version default_version)
    if newer
        then migrate_package dockerd_sock old new.name old.version
        else install sv cn env (exact_expression new.name default_version) no_options

  unfoldable pub migrate_entry :
      Bool → PackageEntry sv → PackageEntry sv → Method sv cn env (Unit {0})
  unfolding version_gt migrate_package migrate_default
  migrate_entry dockerd_sock old new =
      if new.installed
      then (do
        newer ← lift (version_gt old.version new.version)
        if newer then migrate_package dockerd_sock old new.name old.version else pure tt)
      else elim new.default_reference [
        | some reference ↦ migrate_default dockerd_sock old new reference
        | none ↦ migrate_package dockerd_sock old new.name old.version
      ]

  -- One round of the loop over the old database.
  unfoldable pub migrate_one : Bool → PackageEntry sv → Method sv cn env (Unit {0})
  unfolding get_package migrate_entry commit_database
  migrate_one dockerd_sock old = if not old.installed || old.built_in then pure tt else (do
    new ← read sv cn env (λ db. (get_package sv old.name db).0)
    migrate_entry dockerd_sock old new
    commit_database sv cn env)

  unfoldable pub migrate_all : Bool → List (PackageEntry sv) → Method sv cn env (Unit {0})
  unfolding migrate_one
  migrate_all dockerd_sock [] = pure tt
  migrate_all dockerd_sock (old ∷ rest) =
      migrate_one dockerd_sock old >> migrate_all dockerd_sock rest

  unfoldable pub migrate_packages : Database sv → Bool → Method sv cn env (Unit {0})
  unfolding migrate_package_database migrate_all iterate
  migrate_packages old dockerd_sock w =
      migrate_all dockerd_sock (iterate sv old)
        (record w { database = migrate_package_database sv old w.database })
