-- ===== src/Package/Creator.antt =====
-- sonic_package_manager/service_creator/creator.py: the order of the steps that create and remove
-- a package's service. What a step writes is not modelled; a step with nothing to do counts as a
-- call too.
use sonic_utility.Base.{String, Bool, false, ◌&&◌, not, some, List, [], ◌∷◌, if◌then◌else◌}
use sonic_utility.Base.Dict.{Dict}
use sonic_utility.Base.Result.{ok}
use sonic_utility.Base.Exec.{pure, handle_and_raise, ◌>>◌}
use sonic_utility.Package.Semver.{Semver}
use sonic_utility.Package.Model.{Package}
use sonic_utility.Package.ConfigDb.{Connector}
use sonic_utility.Package.Feature
use sonic_utility.Package.World.{
  Act, Environment, perform, ServiceStep, container_mgmt, service_mgmt, dependent_list,
  systemd_service, dump_script, reconciliation, yang_module, initial_config, autogen_cli,
  daemon_reload, RemovedFile, service_unit, instance_unit, mgmt_script, ctl_script, dump_plugin,
  reconcile_file, create_step, remove_file, remove_step, remove_config, shutdown_order, fast, warm,
}

module _ (sv : Semver) (cn : Connector) (env : Environment sv) where
  -- A step for each of a list, in order.
  abbrev pub each {ℓ} : {A : Type ℓ} → (A → Act sv cn (Unit {0})) → List A → Act sv cn (Unit {0})
  each f [] = pure tt
  each f (x ∷ xs) = f x >> each f xs

  -- _post_operation_hook
  unfoldable pub post_operation_hook : (ServiceStep → Act sv cn (Unit {0})) → Act sv cn (Unit {0})
  post_operation_hook step = if env.in_chroot then pure tt else step daemon_reload

  abbrev create_steps : List ServiceStep
  create_steps =
      container_mgmt ∷ service_mgmt ∷ dependent_list ∷ systemd_service ∷ dump_script
      ∷ reconciliation ∷ yang_module ∷ initial_config ∷ autogen_cli ∷ []

  abbrev removed_files : List RemovedFile
  removed_files =
      service_unit ∷ instance_unit ∷ mgmt_script ∷ ctl_script ∷ dump_plugin ∷ reconcile_file ∷ []

  unfoldable pub with_features :
      (Feature.SonicDb cn.Db → Feature.SonicDb cn.Db) → Act sv cn (Unit {0})
  with_features f w = (ok tt, record w { features = f w.features })

  -- ServiceCreator.remove(package, deregister_feature, keep_config)
  unfoldable pub remove : Package sv → Bool → Bool → Act sv cn (Unit {0})
  unfolding perform post_operation_hook
  remove p deregister_feature keep_config =
      let name = p.metadata.manifest.service.name in
      let step = λ (s : ServiceStep). perform sv cn env (remove_step name s) in
      do
        each (λ (f : RemovedFile). perform sv cn env (remove_file name f)) removed_files
        step dependent_list
        if deregister_feature && not keep_config
            then perform sv cn env (remove_config name)
            else pure tt
        step autogen_cli
        step yang_module
        post_operation_hook step
        if deregister_feature then with_features (Feature.deregister cn name) else pure tt

  -- ServiceCreator.create(package, register_feature, state, owner)
  unfoldable pub create : Package sv → Bool → String → String → Act sv cn (Unit {0})
  unfolding perform post_operation_hook remove
  create p register_feature state owner =
      let service = p.metadata.manifest.service in
      let step = λ (s : ServiceStep). perform sv cn env (create_step service.name s) in
      handle_and_raise
        (do
          each step create_steps
          post_operation_hook step
          if register_feature
              then with_features (Feature.register cn service (some state) (some owner))
              else pure tt)
        (remove p register_feature false)

  abbrev service_names : Dict (Package sv) → List String
  service_names [] = []
  service_names ((name, p) ∷ rest) = p.metadata.manifest.service.name ∷ service_names rest

  -- generate_shutdown_sequence_files: a file for each type of reboot, from the services of the
  -- packages.
  unfoldable pub generate_shutdown_sequence_files : Dict (Package sv) → Act sv cn (Unit {0})
  unfolding perform
  generate_shutdown_sequence_files packages = do
    perform sv cn env (shutdown_order fast (service_names packages))
    perform sv cn env (shutdown_order warm (service_names packages))
