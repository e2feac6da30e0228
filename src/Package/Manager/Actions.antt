-- ===== src/Package/Manager/Actions.antt =====
-- manager.py: the package database under the actions that the methods of PackageManager are made of.
use sonic_utility.Base.{String, Bool, false, List, [], ◌∷◌, ◌≡◌, refl, arith}
use sonic_utility.Base.Dict.{Dict}
use sonic_utility.Base.Keeps.{
  Keeps, keeps_rules, Keeps-pure, Keeps-bind, Keeps-if, Keeps-handle_and_raise,
}
use sonic_utility.Package.Semver.{Semver}
use sonic_utility.Package.Model.{Package}
use sonic_utility.Package.ConfigDb.{Connector}
use sonic_utility.Package.Feature
use sonic_utility.Package.World.{
  World, Act, Environment, Effect, perform, CliCommand, ServiceStep, daemon_reload,
}
use sonic_utility.Package.Source.{
  PackageSource, tarball, registry, local, install_image, source_install, source_uninstall,
}
use sonic_utility.Package.Creator
use sonic_utility.Package.Manager.{
  set_feature_state, install_cli_plugin, uninstall_cli_plugin, install_cli_plugins,
  uninstall_cli_plugins,
}

-- `P` speaks of nothing but the package database.
abbrev pub OnlyDatabase : (sv : Semver) (cn : Connector) → (World sv cn → Type 0) → Type 0
OnlyDatabase sv cn P = (w w' : World sv cn) → w'.database ≡ w.database → P w → P w'

module _ (sv : Semver) (cn : Connector) (env : Environment sv) (P : World sv cn → Type 0)
    (only : OnlyDatabase sv cn P) where
  abbrev Safe : {A : Type 0} → Act sv cn A → Type 0
  Safe m = Keeps P m

  pub same-Safe :
      {A : Type 0} (m : Act sv cn A) → ((w : World sv cn) → (m w).1.database ≡ w.database) → Safe m
  same-Safe m same = record { at = λ w h. only w (m w).1 (same w) h }

  pub perform-Safe : (e : Effect) → Safe (perform sv cn env e)
  unfolding perform
  perform-Safe e = same-Safe (perform sv cn env e) (λ w. ground arith)

  pub with_features-Safe :
      (f : Feature.SonicDb cn.Db → Feature.SonicDb cn.Db) → Safe (Creator.with_features sv cn env f)
  unfolding Creator.with_features
  with_features-Safe f = same-Safe (Creator.with_features sv cn env f) (λ w. refl)

  each-Safe :
      {A : Type 0} (f : A → Act sv cn (Unit {0})) (xs : List A)
      → ((x : A) → Safe (f x))
      → Safe (Creator.each sv cn env f xs)
  each-Safe f [] k = Keeps-pure tt
  each-Safe f (x ∷ xs) k = Keeps-bind _ _ (k x) (λ _. each-Safe f xs k)

  pub ruleset safe_steps = (keeps_rules, perform-Safe, with_features-Safe)

  hook-Safe :
      (step : ServiceStep → Act sv cn (Unit {0}))
      → ((s : ServiceStep) → Safe (step s))
      → Safe (Creator.post_operation_hook sv cn env step)
  unfolding Creator.post_operation_hook
  hook-Safe step k = Keeps-if env.in_chroot _ _ (Keeps-pure tt) (k daemon_reload)

  pub remove-Safe :
      (p : Package sv) (deregister keep : Bool) → Safe (Creator.remove sv cn env p deregister keep)
  unfolding Creator.remove
  remove-Safe p deregister keep = search (safe_steps, each-Safe, hook-Safe) depth 20

  pub create-Safe :
      (p : Package sv) (register : Bool) (state owner : String)
      → Safe (Creator.create sv cn env p register state owner)
  unfolding Creator.create
  create-Safe p register state owner =
      Keeps-handle_and_raise _ _ (search (safe_steps, each-Safe, hook-Safe) depth 20)
        (remove-Safe p register false)

  pub shutdown-Safe :
      (packages : Dict (Package sv))
      → Safe (Creator.generate_shutdown_sequence_files sv cn env packages)
  unfolding Creator.generate_shutdown_sequence_files
  shutdown-Safe packages = search safe_steps depth 10

  install_image-Safe :
      (source : PackageSource sv) (p : Package sv) → Safe (install_image sv cn env source p)
  unfolding install_image
  install_image-Safe (tarball path) p = search safe_steps depth 10
  install_image-Safe (registry repository reference) p = search safe_steps depth 10
  install_image-Safe (local e) p = search safe_steps

  pub source_install-Safe :
      (source : PackageSource sv) (p : Package sv) → Safe (source_install sv cn env source p)
  unfolding source_install
  source_install-Safe source p = search (keeps_rules, install_image-Safe)

  pub source_uninstall-Safe : (p : Package sv) → Safe (source_uninstall sv cn env p)
  unfolding source_uninstall
  source_uninstall-Safe p = search safe_steps

  pub set_feature_state-Safe :
      (p : Package sv) (state : String) → Safe (set_feature_state sv cn env p state)
  unfolding set_feature_state perform
  set_feature_state-Safe p state =
      same-Safe (set_feature_state sv cn env p state) (λ w. ground arith)

  plugin-Safe :
      (p : Package sv) (c : CliCommand)
      → Safe (install_cli_plugin sv cn env p c) × Safe (uninstall_cli_plugin sv cn env p c)
  unfolding install_cli_plugin uninstall_cli_plugin
  plugin-Safe p c = (search safe_steps, search safe_steps)

  install_plugin-Safe : (p : Package sv) (c : CliCommand) → Safe (install_cli_plugin sv cn env p c)
  install_plugin-Safe p c = (plugin-Safe p c).0

  uninstall_plugin-Safe :
      (p : Package sv) (c : CliCommand) → Safe (uninstall_cli_plugin sv cn env p c)
  uninstall_plugin-Safe p c = (plugin-Safe p c).1

  pub install_plugins-Safe : (p : Package sv) → Safe (install_cli_plugins sv cn env p)
  unfolding install_cli_plugins
  install_plugins-Safe p = search (keeps_rules, install_plugin-Safe) depth 10

  pub uninstall_plugins-Safe : (p : Package sv) → Safe (uninstall_cli_plugins sv cn env p)
  unfolding uninstall_cli_plugins
  uninstall_plugins-Safe p = search (keeps_rules, uninstall_plugin-Safe) depth 10

  -- Every action of the methods' `try` blocks.
  pub ruleset safe_actions = (
    safe_steps, remove-Safe, create-Safe, shutdown-Safe, source_install-Safe, source_uninstall-Safe,
    set_feature_state-Safe, install_plugins-Safe, uninstall_plugins-Safe,
  )
