-- ===== src/Package/Manager/BuiltIn.antt =====
-- manager.py: built-in packages, and packages that do not validate.
use sonic_utility.Base.{String, Bool, true, false, ◌≡◌, arith}
use sonic_utility.Base.Dict.{Dict}
use sonic_utility.Base.Result.{ok, err}
use sonic_utility.Base.Exec.{failure_ignore, ◌>>=◌}
use sonic_utility.Package.Semver.{Semver}
use sonic_utility.Package.Model.{Package}
use sonic_utility.Package.Errors.{Error, uninstallation_error, upgrade_error}
use sonic_utility.Package.ConfigDb.{Connector}
use sonic_utility.Package.World.{World, Environment}
use sonic_utility.Package.Source.{PackageSource, source_package}
use sonic_utility.Package.Tree.{validate_package_base_os_constraints, validate_package_tree}
use sonic_utility.Package.Manager.{get_installed_package, is_installed, get_installed_packages_and}
use sonic_utility.Package.Manager.Operations.{uninstall, install_from_source, validate_new}
use sonic_utility.Package.Manager.Upgrade.{upgrade_from_source}

module _ (sv : Semver) (cn : Connector) (env : Environment sv) where
  -- A package that is built in is not uninstalled, forced or not: the method raises, and neither the
  -- database nor the features change, nor is any external call made.
  pub uninstall_built_in :
      (name : String) (force keep : Bool) (w : World sv cn) (p : Package sv)
      → get_installed_package sv cn env name w.database ≡ ok p
      → p.entry.built_in ≡ true
      → uninstall sv cn env name force keep w ≡ (err uninstallation_error, w)
  unfolding uninstall failure_ignore ◌>>=◌
  uninstall_built_in name force keep w p e built = ground arith

  -- An upgrade to the package of a source raises, forced or not, and changes nothing and calls
  -- nothing outside, if the package that is there under its name is built in.
  pub upgrade_built_in :
      (source : PackageSource sv) (force skip downgrade : Bool) (w : World sv cn)
      (new old : Package sv)
      → source_package sv env w.database source ≡ ok new
      → get_installed_package sv cn env new.entry.name w.database ≡ ok old
      → old.entry.built_in ≡ true
      → upgrade_from_source sv cn env source force skip downgrade w ≡ (err upgrade_error, w)
  unfolding upgrade_from_source failure_ignore ◌>>=◌
  upgrade_built_in source force skip downgrade w new old e e' built = ground arith

  -- Unless it is forced, an installation whose package tree does not validate raises what the
  -- validation raised, and changes nothing and calls nothing outside, if the package is not
  -- installed, meets its base OS constraints and the installed packages can be read.
  install_invalid_tree :
      (source : PackageSource sv) (enable : Bool) (owner : String) (skip : Bool) (w : World sv cn)
      (p : Package sv) (packages : Dict (Package sv)) (x : Error sv)
      → source_package sv env w.database source ≡ ok p
      → is_installed sv cn env p.entry.name w.database ≡ false
      → get_installed_packages_and sv cn env p w.database ≡ ok packages
      → validate_package_base_os_constraints sv p env.version_info ≡ ok tt
      → validate_package_tree sv packages ≡ err x
      → install_from_source sv cn env source false enable owner skip w ≡ (err x, w)
  unfolding install_from_source validate_new failure_ignore ◌>>=◌
  install_invalid_tree source enable owner skip w p packages x e ni ps base bad = ground arith
