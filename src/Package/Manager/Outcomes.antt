-- ===== src/Package/Manager/Outcomes.antt =====
-- The outcome of each method of PackageManager that changes packages, for the database and its file.
use sonic_utility.Base.{String, Bool, refl, ◌⊎◌}
use sonic_utility.Base.Keeps.{Closed}
use sonic_utility.Package.Semver.{Semver}
use sonic_utility.Package.ConfigDb.{Connector}
use sonic_utility.Package.World.{World, Environment}
use sonic_utility.Package.Source.{PackageSource}
use sonic_utility.Package.Manager.Operations.{install_from_source}
use sonic_utility.Package.Manager.Install.{
  Uncommitted, Installed, InstalledUnwritten, install-Closed,
}

module _ (sv : Semver) (cn : Connector) (env : Environment sv) where
  pub install_outcome :
      (source : PackageSource sv) (force enable : Bool) (owner : String) (skip : Bool)
      (w : World sv cn)
      → Closed
          (λ w'.
            Uncommitted sv cn env w.database w' ⊎ InstalledUnwritten sv cn env w.database source w')
          (λ (_ : Unit {0}) w'. Installed sv cn env w.database source w')
          (install_from_source sv cn env source force enable owner skip w).0
          (install_from_source sv cn env source force enable owner skip w).1
  install_outcome source force enable owner skip w =
      install-Closed sv cn env w.database source force enable owner skip w refl
