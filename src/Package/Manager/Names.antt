-- ===== src/Package/Manager/Names.antt =====
-- manager.py: the name of the package that the steps of an installation or upgrade hand on.
use sonic_utility.Base.{String, Bool, ◌≡◌, arith}
use sonic_utility.Base.Exec.{◌>>=◌}
use sonic_utility.Base.Gives.{
  Gives, gives_rules, Gives-pure, Gives-bind, Gives-bind_given, Gives-with_rollback,
}
use sonic_utility.Package.Semver.{Semver}
use sonic_utility.Package.Model.{Package}
use sonic_utility.Package.ConfigDb.{Connector}
use sonic_utility.Package.World.{Environment, perform}
use sonic_utility.Package.Source.{
  PackageSource, tarball, registry, local, install_image, source_install,
}
use sonic_utility.Package.Manager.{install_cli_plugins}
use sonic_utility.Package.Manager.Operations.{install_steps}
use sonic_utility.Package.Manager.Upgrade.{replace_service, upgrade_steps}

module _ (sv : Semver) (cn : Connector) (env : Environment sv) where
  -- The name of the returned package.
  abbrev pub Named : String → Package sv → Type 0
  Named name p = p.entry.name ≡ name

  source_install-Named :
      (source : PackageSource sv) (p : Package sv)
      → Gives (Named p.entry.name) (source_install sv cn env source p)
  unfolding source_install install_image perform ◌>>=◌
  source_install-Named (tarball path) p = record { value = λ w q e. ground arith }
  source_install-Named (registry repository reference) p = record { value = λ w q e. ground arith }
  source_install-Named (local entry) p = record { value = λ w q e. ground arith }

  replace_service-Named :
      (name : String) (old p : Package sv) (enabled skip : Bool)
      → Named name p
      → Gives (Named name) (replace_service sv cn env old p enabled skip)
  unfolding replace_service
  replace_service-Named name old p enabled skip named = search (gives_rules, Gives-pure) depth 25

  pub install_steps-Named :
      (source : PackageSource sv) (p : Package sv) (state owner : String) (skip : Bool)
      → Gives (Named p.entry.name) (install_steps sv cn env source p state owner skip)
  unfolding install_steps
  install_steps-Named source p state owner skip =
      Gives-bind_given _ _ (source_install-Named source p)
        (λ q named. search (gives_rules, Gives-pure) depth 25)

  pub upgrade_steps-Named :
      (source : PackageSource sv) (old new : Package sv) (skip : Bool)
      → Gives (Named new.entry.name) (upgrade_steps sv cn env source old new skip)
  unfolding upgrade_steps
  upgrade_steps-Named source old new skip = Gives-bind _ _ λ _.
      Gives-with_rollback (install_cli_plugins sv cn env old) _ (
        Gives-bind_given _ _ (source_install-Named source new)
          (λ q named. search (gives_rules, replace_service-Named) depth 25))
