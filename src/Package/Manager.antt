-- ===== src/Package/Manager.antt =====
-- The helpers of PackageManager in sonic_package_manager/manager.py. The lock and the check of
-- option names around the public methods are not modelled.
pub mod Operations
pub mod Upgrade
pub mod Actions
pub mod Names
pub mod Commits
pub mod Changes
pub mod Install
pub mod Outcomes
pub mod BuiltIn
pub mod Success
pub mod Installs
pub mod Migrate
use mathlib.Core.Option
use sonic_utility.Base.{
  ℕ, suc, String, Bool, true, false, ◌&&◌, not, Option, none, some, List, [], ◌∷◌, ◌≡◌, refl,
  if◌then◌else◌, ◌==◌, is_nil,
}
use sonic_utility.Base.Dict.{Dict, lookup, insert}
use sonic_utility.Base.Dict
use sonic_utility.Base.Result.{Result, ok, err}
use sonic_utility.Base.Result
use sonic_utility.Base.Exec.{Exec, pure, raise, lift, gets, ◌>>=◌, ◌>>◌}
use sonic_utility.Base.Text.{is_empty}
use sonic_utility.Package.Semver.{Semver}
use sonic_utility.Package.Model.{Package, PackageEntry, Metadata}
use sonic_utility.Package.Errors.{
  Error, package_manager_error, attribute_error, key_error, system_error,
}
use sonic_utility.Package.Database
use sonic_utility.Package.Database.{
  Writing, done, not_opened, cut_short, commit, Database, get_package, has_package, iterate,
}
use sonic_utility.Package.ConfigDb.{Connector, Fields}
use sonic_utility.Package.Feature.{feature_table}
use sonic_utility.Package.World.{
  World, Act, Environment, perform, CliCommand, show, config, clear, install_plugin,
  uninstall_plugin, wait_feature_state,
}
use sonic_utility.Package.Source.{PackageSource, local, source_package}

module _ (sv : Semver) (cn : Connector) (env : Environment sv) where
  -- A call of the package database.
  unfoldable pub with_database : {A : Type 0} → Database.Action sv A → Act sv cn A
  with_database m w = let (r, db) = m w.database in (r, record w { database = db })

  -- How a writing of packages.json goes that is so many calls into the run.
  abbrev pub writing : ℕ → Writing
  writing n = if env.fails n then if env.empties n then cut_short else not_opened else done

  -- self.database.commit(), an external call where the database has a file.
  unfoldable pub commit_database : Act sv cn (Unit {0})
  unfolding commit with_database
  commit_database w = elim w.database.file [
    | none ↦ (ok tt, w)
    | some _ ↦ with_database (commit sv (writing w.calls)) (record w { calls = suc w.calls })
  ]

  unfoldable pub is_installed : String → Database sv → Bool
  unfolding get_package
  is_installed name db = elim (get_package sv name db).0 [
    | ok entry ↦ entry.installed
    | err e ↦ false
  ]

  -- get_installed_package: the package of an entry, whether it is installed or not.
  unfoldable pub get_installed_package : String → Database sv → Result (Error sv) (Package sv)
  unfolding get_package source_package
  get_installed_package name db = elim (get_package sv name db).0 [
    | ok entry ↦ source_package sv env db (local entry)
    | err e ↦ err e
  ]

  -- get_installed_packages_list, over the entries of the database.
  unfoldable pub installed_packages_of :
      Database sv → List (PackageEntry sv) → Result (Error sv) (List (Package sv))
  unfolding get_installed_package
  installed_packages_of db [] = ok []
  installed_packages_of db (entry ∷ rest) =
      let others = installed_packages_of db rest in
      if entry.installed
      then Result.◌>>=◌ (get_installed_package entry.name db)
          (λ p. Result.◌>>=◌ others (λ ps. ok (p ∷ ps)))
      else others

  abbrev by_name : List (Package sv) → Dict (Package sv) → Dict (Package sv)
  by_name [] d = d
  by_name (p ∷ ps) d = by_name ps (insert p.entry.name p d)

  unfoldable pub get_installed_packages : Database sv → Result (Error sv) (Dict (Package sv))
  unfolding installed_packages_of iterate
  get_installed_packages db =
      Result.◌>>=◌ (installed_packages_of db (iterate sv db)) (λ ps. ok (by_name ps []))

  -- _get_installed_packages_and
  unfoldable pub get_installed_packages_and :
      Package sv → Database sv → Result (Error sv) (Dict (Package sv))
  unfolding get_installed_packages
  get_installed_packages_and p db =
      Result.◌>>=◌ (get_installed_packages db) (λ d. ok (insert p.entry.name p d))

  -- packages.pop(name): a KeyError where it is not there.
  abbrev pop : String → Dict (Package sv) → Result (Error sv) (Dict (Package sv))
  pop name d = if Dict.has_key name d then ok (Dict.remove name d) else err key_error

  -- _get_installed_packages_except
  unfoldable pub get_installed_packages_except :
      Package sv → Database sv → Result (Error sv) (Dict (Package sv))
  unfolding get_installed_packages
  get_installed_packages_except p db = Result.◌>>=◌ (get_installed_packages db) (pop p.entry.name)

  -- The part of config.feature.set_feature_state before the write: the feature must be there, with
  -- a state that may be changed. The result is its entry.
  unfoldable pub changeable_feature : String → World sv cn → Result (Error sv) (cn.Db × Fields)
  changeable_feature name w = elim w.features.running [
    | none ↦ err attribute_error
    | some db ↦
        let entry = cn.get_entry feature_table name db in
        if is_nil entry then err system_error else elim (lookup "state" entry) [
          | none ↦ err key_error
          | some state ↦ if state == "always_enabled" then err system_error else ok (db, entry)
        ]
  ]

  -- _set_feature_state, with its call of config.feature.set_feature_state: the state is written to
  -- the running configuration, and then awaited.
  unfoldable pub set_feature_state : Package sv → String → Act sv cn (Unit {0})
  unfolding changeable_feature perform
  set_feature_state p state w =
      let name = p.metadata.manifest.service.name in
      if env.in_chroot then (ok tt, w) else elim (changeable_feature name w) [
        | err e ↦ (err e, w)
        | ok (db, entry) ↦ perform sv cn env (wait_feature_state name state) (record w {
          features = record w.features {
            running = some (cn.set_entry feature_table name (some (insert "state" state entry)) db);
          };
        })
      ]

  abbrev pub start_feature : Package sv → Act sv cn (Unit {0})
  start_feature p = set_feature_state p "enabled"

  abbrev pub stop_feature : Package sv → Act sv cn (Unit {0})
  stop_feature p = set_feature_state p "disabled"

  -- manifest['cli'][command]
  abbrev plugin_path : Package sv → CliCommand → String
  plugin_path p show = p.metadata.manifest.cli.show
  plugin_path p config = p.metadata.manifest.cli.config
  plugin_path p clear = p.metadata.manifest.cli.clear

  -- _install_cli_plugin
  unfoldable pub install_cli_plugin : Package sv → CliCommand → Act sv cn (Unit {0})
  unfolding perform
  install_cli_plugin p command =
      if is_empty (plugin_path p command)
      then pure tt
      else perform sv cn env (install_plugin p.entry.name command)

  -- _uninstall_cli_plugin
  unfoldable pub uninstall_cli_plugin : Package sv → CliCommand → Act sv cn (Unit {0})
  unfolding perform
  uninstall_cli_plugin p command =
      if is_empty (plugin_path p command)
      then pure tt
      else perform sv cn env (uninstall_plugin p.entry.name command)

  -- for command in SONIC_CLI_COMMANDS
  unfoldable pub install_cli_plugins : Package sv → Act sv cn (Unit {0})
  unfolding install_cli_plugin
  install_cli_plugins p = do
    install_cli_plugin p show
    install_cli_plugin p config
    install_cli_plugin p clear

  unfoldable pub uninstall_cli_plugins : Package sv → Act sv cn (Unit {0})
  unfolding uninstall_cli_plugin
  uninstall_cli_plugins p = do
    uninstall_cli_plugin p show
    uninstall_cli_plugin p config
    uninstall_cli_plugin p clear
