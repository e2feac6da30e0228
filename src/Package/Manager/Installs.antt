-- ===== src/Package/Manager/Installs.antt =====
-- An installation whose checks pass, in a world without failures.
use sonic_utility.Base.{ℕ, String, Bool, false, ◌≡◌, refl, subst, ◌⊎◌}
use sonic_utility.Base.Dict.{Dict}
use sonic_utility.Base.Result.{Result, ok}
use sonic_utility.Base.Keeps.{Closed}
use sonic_utility.Base.Yields.{Ends-ok}
use sonic_utility.Package.Semver.{Semver}
use sonic_utility.Package.Model.{Package, PackageEntry}
use sonic_utility.Package.Errors.{Error}
use sonic_utility.Package.ConfigDb.{Connector}
use sonic_utility.Package.World.{World, Environment}
use sonic_utility.Package.Source.{PackageSource, source_package}
use sonic_utility.Package.Manager.{get_installed_packages}
use sonic_utility.Package.Manager.Operations.{install_from_source}
use sonic_utility.Package.Manager.Install.{Uncommitted, Installed, InstalledUnwritten}
use sonic_utility.Package.Manager.Outcomes.{install_outcome}
use sonic_utility.Package.Manager.Success.{HasImage, Installable, install-Ends}

module _ (sv : Semver) (cn : Connector) (env : Environment sv) where
  -- Where no external call fails, install_from_source returns and stores the package as installed,
  -- forced or not, if the source is not the local one, its package is known to the database, is not
  -- installed and passes the three validations, and the installed packages can be read.
  pub install_succeeds :
      (never : (n : ℕ) → env.fails n ≡ false) (source : PackageSource sv) (force enable : Bool)
      (owner : String) (skip : Bool) (w : World sv cn) (p : Package sv)
      (packages : Dict (Package sv)) (entry : PackageEntry sv)
      (readable : get_installed_packages sv cn env w.database ≡ ok packages)
      → HasImage sv source
      → source_package sv env w.database source ≡ ok p
      → Installable sv env w.database p packages entry skip
      → ((install_from_source sv cn env source force enable owner skip w).0 ≡ ok tt)
        × Installed sv cn env w.database source
            (install_from_source sv cn env source force enable owner skip w).1
  install_succeeds never source force enable owner skip w p packages entry readable image from
        able =
      let returned =
        Ends-ok _
          (install-Ends sv cn env never w.database p packages readable entry skip able source force
            enable owner image from)
          w refl in
      (
        returned,
        subst
            (λ (r : Result (Error sv) (Unit {0})).
              Closed
                (λ w'.
                  Uncommitted sv cn env w.database w'
                  ⊎ InstalledUnwritten sv cn env w.database source w')
                (λ (_ : Unit {0}) w'. Installed sv cn env w.database source w') r
                (install_from_source sv cn env source force enable owner skip w).1)
            returned (install_outcome sv cn env source force enable owner skip w),
      )
