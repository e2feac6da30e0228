-- ===== src/Package/Manager/Upgrade.antt =====
-- upgrade_from_source, get_package_source, reset and install of PackageManager in
-- sonic_package_manager/manager.py.
use sonic_utility.Base.{
  String, Bool, true, false, ◌&&◌, ◌||◌, not, Option, none, some, if◌then◌else◌, is_some, get_or,
  or_else,
}
use sonic_utility.Base.Result
use sonic_utility.Base.Result.{Result, ok, err}
use sonic_utility.Base.Exec.{
  pure, raise, gets, failure_ignore, with_rollback, reraise_as, ◌>>=◌, ◌>>◌,
}
use sonic_utility.Base.Text.{is_empty}
use sonic_utility.Package.Semver.{Semver}
use sonic_utility.Package.Model.{Package}
use sonic_utility.Package.Errors.{
  Error, package_manager_error, upgrade_error, type_error, value_error,
}
use sonic_utility.Package.Reference.{PackageReference, parse_reference_expression}
use sonic_utility.Package.Database.{Database, get_package}
use sonic_utility.Package.ConfigDb.{Connector}
use sonic_utility.Package.Feature
use sonic_utility.Package.World.{Environment, perform, remove_containers, remove_image}
use sonic_utility.Package.Source.{
  PackageSource, tarball, registry, local, source_package, source_install, source_uninstall,
}
use sonic_utility.Package.Creator
use sonic_utility.Package.Manager.{
  is_installed, get_installed_package, get_installed_packages_and, start_feature, stop_feature,
  set_feature_state, install_cli_plugins, uninstall_cli_plugins,
}
use sonic_utility.Package.Manager.Operations.{
  Method, read, raise_unless, save_entry, validate_new, install_from_source,
}

module _ (sv : Semver) (cn : Connector) (env : Environment sv) where
  -- A step with its callback, where the step is taken at all.
  abbrev pub step_if :
      {A : Type 0}
      → Bool
      → Method sv cn env (Unit {0})
      → Method sv cn env (Unit {0})
      → Method sv cn env A
      → Method sv cn env A
  step_if b step callback rest = if b then (step >> with_rollback callback rest) else rest

  -- The `try` block of upgrade_from_source behind the removal of the old service. The callback
  -- for the new plugins calls `_uninstall_cli_plugin` without its second argument.
  unfoldable pub replace_service :
      Package sv → Package sv → Bool → Bool → Method sv cn env (Package sv)
  unfolding perform with_rollback Creator.create Creator.remove
      Creator.generate_shutdown_sequence_files get_installed_packages_and set_feature_state
      install_cli_plugins Feature.update
  replace_service old p feature_enabled skip_host_plugins =
      let old_service = old.metadata.manifest.service in
      let new_service = p.metadata.manifest.service in
      do
        perform sv cn env (remove_containers old.entry.image_id)
        Creator.create sv cn env p false "enabled" "local"
        with_rollback (Creator.remove sv cn env p false false) do
          packages ← read sv cn env (get_installed_packages_and sv cn env p)
          Creator.generate_shutdown_sequence_files sv cn env packages
          before ← read sv cn env (get_installed_packages_and sv cn env old)
          with_rollback (Creator.generate_shutdown_sequence_files sv cn env before) do
            Creator.with_features sv cn env (Feature.update cn old_service new_service)
            with_rollback
                (Creator.with_features sv cn env (Feature.update cn new_service old_service))
                (step_if feature_enabled (start_feature sv cn env p) (stop_feature sv cn env p) (
                  step_if (not skip_host_plugins) (install_cli_plugins sv cn env p)
                    (raise type_error)
                    (perform sv cn env (remove_image old.entry.image_id) >> pure p)))

  unfoldable pub upgrade_steps :
      PackageSource sv → Package sv → Package sv → Bool → Method sv cn env (Package sv)
  unfolding replace_service uninstall_cli_plugins install_cli_plugins source_install
      source_uninstall with_rollback Feature.is_feature_enabled set_feature_state Creator.create
      Creator.remove
  upgrade_steps source old new skip_host_plugins = do
    uninstall_cli_plugins sv cn env old
    with_rollback (install_cli_plugins sv cn env old) do
      p ← source_install sv cn env source new
      with_rollback (source_uninstall sv cn env p >> pure tt) do
        enabled ←
            gets (λ w. Feature.is_feature_enabled cn old.metadata.manifest.service.name w.features)
        step_if enabled (stop_feature sv cn env old) (start_feature sv cn env old) do
          Creator.remove sv cn env old false false
          with_rollback (Creator.create sv cn env old false "enabled" "local")
              (replace_service old p enabled skip_host_plugins)

  -- The checks on the two versions.
  unfoldable pub check_versions : sv.Version → sv.Version → Bool → Method sv cn env (Unit {0})
  check_versions old_version new_version allow_downgrade = do
    raise_unless sv cn env (not (sv.version_eq old_version new_version)) upgrade_error
    raise_unless sv cn env (not (sv.version_lt new_version old_version && not allow_downgrade))
        upgrade_error

  unfoldable pub upgrade_from_source :
      PackageSource sv → Bool → Bool → Bool → Method sv cn env (Unit {0})
  unfolding source_package failure_ignore is_installed get_installed_package check_versions
      get_installed_packages_and validate_new reraise_as upgrade_steps save_entry
  upgrade_from_source source force skip_host_plugins allow_downgrade = do
    new ← read sv cn env (λ db. source_package sv env db source)
    installed ← gets (λ w. is_installed sv cn env new.entry.name w.database)
    failure_ignore force (raise_unless sv cn env installed upgrade_error)
    old ← read sv cn env (get_installed_package sv cn env new.entry.name)
    raise_unless sv cn env (not old.entry.built_in) upgrade_error
    failure_ignore force (
        check_versions old.metadata.manifest.package_table.version
          new.metadata.manifest.package_table.version allow_downgrade)
    packages ← read sv cn env (get_installed_packages_and sv cn env new)
    failure_ignore force (validate_new sv cn env new packages skip_host_plugins)
    p ← reraise_as upgrade_error (upgrade_steps source old new skip_host_plugins)
    save_entry sv cn env (record p.entry {
      installed = true;
      version = some new.metadata.manifest.package_table.version;
    })

  -- get_package_source for a reference: one with no reference means the installed package, or else
  -- the default reference.
  unfoldable pub source_of_reference :
      PackageReference → Database sv → Result (Error sv) (PackageSource sv)
  unfolding get_package
  source_of_reference ref db = elim (get_package sv ref.name db).0 [
    | err e ↦ err e
    | ok entry ↦ elim ref.reference [
      | some reference ↦ ok (registry entry.repository reference)
      | none ↦ if entry.installed then ok (local entry) else elim entry.default_reference [
        | some reference ↦ ok (registry entry.repository reference)
        | none ↦ err package_manager_error
      ]
    ]
  ]

  -- A docker reference as the docker_image package parses it.
  pub record DockerReference : Type 0 where
    pub name : String
    pub tag : Option String
    pub digest : Option String

  pub data SourceRequest : Type 0 where
    expression : String → SourceRequest
    repotag : DockerReference → SourceRequest
    tarball_path : String → SourceRequest
    package_ref : PackageReference → SourceRequest
    nothing : SourceRequest

  -- x or y
  abbrev truthy : Option String → Option String
  truthy none = none
  truthy (some text) = if is_empty text then none else some text

  unfoldable pub get_package_source :
      SourceRequest → Database sv → Result (Error sv) (PackageSource sv)
  unfolding source_of_reference parse_reference_expression
  get_package_source (expression text) db =
      Result.◌>>=◌ (parse_reference_expression sv text) (λ ref. source_of_reference ref db)
  get_package_source (repotag r) db =
      ok (registry (some r.name) (get_or (or_else (truthy r.tag) (truthy r.digest)) "latest"))
  get_package_source (tarball_path path) db = ok (tarball path)
  get_package_source (package_ref ref) db = source_of_reference ref db
  get_package_source nothing db = err value_error

  unfoldable pub reset : String → Bool → Bool → Method sv cn env (Unit {0})
  unfolding failure_ignore is_installed get_installed_package get_package_source upgrade_from_source
  reset name force skip_host_plugins = do
    installed ← gets (λ w. is_installed sv cn env name w.database)
    failure_ignore force (raise_unless sv cn env installed package_manager_error)
    p ← read sv cn env (get_installed_package sv cn env name)
    raise_unless sv cn env (is_some p.entry.default_reference) package_manager_error
    source ← read sv cn env (
        get_package_source
          (package_ref (record { name = name; reference = p.entry.default_reference })))
    upgrade_from_source source force skip_host_plugins true

  -- The options of `install`; `none` is one that was not given.
  pub record Options : Type 0 where
    pub force : Option Bool
    pub enable : Option Bool
    pub default_owner : Option String
    pub skip_host_plugins : Option Bool
    pub allow_downgrade : Option Bool

  -- opt_check refuses an option that the method does not have.
  unfoldable pub install : SourceRequest → Options → Method sv cn env (Unit {0})
  unfolding get_package_source source_package is_installed upgrade_from_source install_from_source
  install request o = do
    source ← read sv cn env (get_package_source request)
    p ← read sv cn env (λ db. source_package sv env db source)
    installed ← gets (λ w. is_installed sv cn env p.entry.name w.database)
    if installed
        then (do
          raise_unless sv cn env (not (is_some o.enable || is_some o.default_owner))
              package_manager_error
          upgrade_from_source source (get_or o.force false) (get_or o.skip_host_plugins false)
              (get_or o.allow_downgrade false))
        else (do
          raise_unless sv cn env (not (is_some o.allow_downgrade)) package_manager_error
          install_from_source sv cn env source (get_or o.force false) (get_or o.enable false)
              (get_or o.default_owner "local") (get_or o.skip_host_plugins false))
