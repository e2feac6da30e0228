-- ===== src/Package/Manager/Operations.antt =====
-- The public methods of PackageManager in sonic_package_manager/manager.py that install, remove and
-- change packages.
use sonic_utility.Base.{String, Bool, true, false, not, Option, none, some, if◌then◌else◌}
use sonic_utility.Base.Dict.{Dict}
use sonic_utility.Base.Result.{Result, ok}
use sonic_utility.Base.Exec.{
  pure, raise, lift, gets, query, failure_ignore, with_rollback, reraise_as, ◌>>=◌, ◌>>◌,
}
use sonic_utility.Package.Semver.{Semver}
use sonic_utility.Package.Model.{Package, PackageEntry}
use sonic_utility.Package.Errors.{Error, installation_error, uninstallation_error}
use sonic_utility.Package.Database.{
  Database, has_package, add_package, remove_package, update_package,
}
use sonic_utility.Package.ConfigDb.{Connector}
use sonic_utility.Package.Feature
use sonic_utility.Package.Tree.{
  validate_package_base_os_constraints, validate_package_tree, validate_package_cli_can_be_skipped,
}
use sonic_utility.Package.World.{Act, Environment, perform, remove_containers, remove_image}
use sonic_utility.Package.Source.{PackageSource, source_package, source_install, source_uninstall}
use sonic_utility.Package.Creator
use sonic_utility.Package.Manager.{
  with_database, commit_database, is_installed, get_installed_package, get_installed_packages,
  get_installed_packages_and, get_installed_packages_except, stop_feature, set_feature_state,
  install_cli_plugins, uninstall_cli_plugins,
}

module _ (sv : Semver) (cn : Connector) (env : Environment sv) where
  abbrev pub Method : Type 0 → Type 0
  Method A = Act sv cn A

  -- self.database.update_package(entry); self.database.commit()
  unfoldable pub save_entry : PackageEntry sv → Method (Unit {0})
  unfolding update_package commit_database
  save_entry entry = do with_database sv cn env (update_package sv entry); commit_database sv cn env

  -- A query of the database.
  abbrev pub read : {A : Type 0} → (Database sv → Result (Error sv) A) → Method A
  read f = query (λ w. f w.database)

  abbrev pub raise_unless : Bool → Error sv → Method (Unit {0})
  raise_unless b e = if b then pure tt else raise e

  -- add_repository and remove_repository
  unfoldable pub add_repository :
      String → Option String → Option String → Option String → Method (Unit {0})
  unfolding add_package commit_database
  add_repository name repository description default_reference = do
    with_database sv cn env (add_package sv name repository description default_reference)
    commit_database sv cn env

  unfoldable pub remove_repository : String → Method (Unit {0})
  unfolding remove_package commit_database
  remove_repository name = do
    with_database sv cn env (remove_package sv name)
    commit_database sv cn env

  -- The three checks of a new package among the installed ones.
  unfoldable pub validate_new : Package sv → Dict (Package sv) → Bool → Method (Unit {0})
  unfolding validate_package_base_os_constraints validate_package_tree
      validate_package_cli_can_be_skipped
  validate_new p packages skip_host_plugins = do
    lift (validate_package_base_os_constraints sv p env.version_info)
    lift (validate_package_tree sv packages)
    lift (validate_package_cli_can_be_skipped sv p skip_host_plugins)

  -- The `try` block of install_from_source; the result is the package as the source changed it.
  unfoldable pub install_steps :
      PackageSource sv → Package sv → String → String → Bool → Method (Package sv)
  unfolding source_install source_uninstall Creator.create Creator.remove
      Creator.generate_shutdown_sequence_files install_cli_plugins with_rollback
      get_installed_packages get_installed_packages_and
  install_steps source package_ state owner skip_host_plugins = do
    p ← source_install sv cn env source package_
    with_rollback (source_uninstall sv cn env p >> pure tt) do
      Creator.create sv cn env p true state owner
      with_rollback (Creator.remove sv cn env p true false) do
        packages ← read (get_installed_packages_and sv cn env p)
        Creator.generate_shutdown_sequence_files sv cn env packages
        before ← read (get_installed_packages sv cn env)
        with_rollback (Creator.generate_shutdown_sequence_files sv cn env before)
            do if skip_host_plugins then pure tt else install_cli_plugins sv cn env p; pure p

  unfoldable pub register_unknown : Package sv → Method (Unit {0})
  unfolding has_package add_package
  register_unknown p w =
      if has_package sv p.entry.name w.database
      then (ok tt, w)
      else with_database sv cn env (add_package sv p.entry.name p.entry.repository none none) w

  unfoldable pub install_from_source :
      PackageSource sv → Bool → Bool → String → Bool → Method (Unit {0})
  unfolding source_package failure_ignore is_installed get_installed_packages_and validate_new
      register_unknown reraise_as install_steps save_entry
  install_from_source source force enable default_owner skip_host_plugins = do
    p ← read (λ db. source_package sv env db source)
    installed ← gets (λ w. is_installed sv cn env p.entry.name w.database)
    failure_ignore force (raise_unless (not installed) installation_error)
    packages ← read (get_installed_packages_and sv cn env p)
    failure_ignore force (validate_new p packages skip_host_plugins)
    register_unknown p
    p' ← reraise_as installation_error (
        install_steps source p (if enable then "enabled" else "disabled") default_owner
          skip_host_plugins)
    save_entry (record p'.entry {
      installed = true;
      version = some p.metadata.manifest.package_table.version;
    })

  -- The `try` block of uninstall.
  unfoldable pub uninstall_steps : Package sv → Bool → Method (Unit {0})
  unfolding set_feature_state uninstall_cli_plugins Creator.remove get_installed_packages_except
      Creator.generate_shutdown_sequence_files perform
  uninstall_steps p keep_config = do
    stop_feature sv cn env p
    uninstall_cli_plugins sv cn env p
    Creator.remove sv cn env p true keep_config
    packages ← read (get_installed_packages_except sv cn env p)
    Creator.generate_shutdown_sequence_files sv cn env packages
    perform sv cn env (remove_containers p.entry.image_id)
    perform sv cn env (remove_image p.entry.image_id)

  unfoldable pub uninstall : String → Bool → Bool → Method (Unit {0})
  unfolding failure_ignore is_installed get_installed_package get_installed_packages_except
      validate_package_tree reraise_as uninstall_steps save_entry
  uninstall name force keep_config = do
    installed ← gets (λ w. is_installed sv cn env name w.database)
    failure_ignore force (raise_unless installed uninstallation_error)
    p ← read (get_installed_package sv cn env name)
    enabled ← gets (λ w. Feature.is_feature_enabled cn p.metadata.manifest.service.name w.features)
    failure_ignore force (raise_unless (not enabled) uninstallation_error)
    raise_unless (not p.entry.built_in) uninstallation_error
    packages ← read (get_installed_packages_except sv cn env p)
    failure_ignore force (lift (validate_package_tree sv packages))
    reraise_as uninstallation_error (uninstall_steps p keep_config)
    save_entry (record p.entry { image_id = none; installed = false; version = none })
