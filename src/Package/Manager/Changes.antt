-- ===== src/Package/Manager/Changes.antt =====
-- What uninstall and upgrade_from_source of PackageManager do to the package database and its file.
use sonic_utility.Base.{String, Bool, true, false, none, ◌≡◌, refl, arith, ◌∙◌, sym, ap, inl}
use sonic_utility.Base.Result.{Result, ok}
use sonic_utility.Base.Exec.{reraise_as, failure_ignore, lift, ◌>>=◌, ◌>>◌}
use sonic_utility.Base.Gives.{Gives-reraise_as}
use sonic_utility.Base.Keeps.{
  given-run, Closes-map, Keeps-gets, Closes, keeps_rules, Closes-bind, Closes-bind_given,
}
use sonic_utility.Package.Semver.{Semver}
use sonic_utility.Package.Model.{Package, PackageEntry}
use sonic_utility.Package.Errors.{Error, uninstallation_error, upgrade_error}
use sonic_utility.Package.Database.{Database}
use sonic_utility.Package.ConfigDb.{Connector}
use sonic_utility.Package.World.{World, Act, Environment}
use sonic_utility.Package.Source.{PackageSource, source_package}
use sonic_utility.Package.Tree.{validate_package_tree}
use sonic_utility.Package.Manager.{
  get_installed_package, get_installed_packages_and, get_installed_packages_except,
}
use sonic_utility.Package.Manager.Actions.{OnlyDatabase}
use sonic_utility.Package.Manager.Names.{upgrade_steps-Named}
use sonic_utility.Package.Manager.Operations.{
  read, raise_unless, save_entry, validate_new, uninstall_steps, uninstall,
}
use sonic_utility.Package.Manager.Upgrade.{upgrade_steps, check_versions, upgrade_from_source}
use sonic_utility.Package.Manager.Commits.{
  Committed, Unwritten, closing, installed_entry, save_entry-Closes,
}

module _ (sv : Semver) (cn : Connector) (env : Environment sv) (before : Database sv) where
  abbrev pub Same : World sv cn → Type 0
  Same w = w.database ≡ before

  Same-OnlyDatabase : OnlyDatabase sv cn Same
  Same-OnlyDatabase w w' e h = e ∙ h

  -- The actions behind a query may use its result in the database that it was made in.
  Closes-read :
      {A : Type 0} {X : World sv cn → Type 0} {Q : Unit {0} → World sv cn → Type 0}
      (f : Database sv → Result (Error sv) A) (g : A → Act sv cn (Unit {0}))
      → ((a : A) → f before ≡ ok a → Closes Same X Q (g a))
      → Closes Same X Q (read sv cn env f >>= g)
  unfolding ◌>>=◌
  Closes-read f g k = record {
    run = λ w h.
        given-run {R = λ a. f before ≡ ok a} g k (f w.database) w (λ a e. sym (ap f h) ∙ e) h;
  }

  abbrev pub removed_entry : PackageEntry sv → PackageEntry sv
  removed_entry e = record e { image_id = none; installed = false; version = none }

  -- The package that the database had under the name is stored as not installed.
  abbrev pub Removed : String → World sv cn → Type 0
  Removed name w =
      (p : Package sv) × (get_installed_package sv cn env name before ≡ ok p)
      × (p.entry.built_in ≡ false)
      × Committed sv cn env (removed_entry p.entry) w

  -- The entry is the same, but the writing of the file raised: the entry is in memory only.
  abbrev pub RemovedUnwritten : String → World sv cn → Type 0
  RemovedUnwritten name w =
      (p : Package sv) × (get_installed_package sv cn env name before ≡ ok p)
      × Unwritten sv cn env Same (removed_entry p.entry) w

  pub Closes-guard :
      {X : World sv cn → Type 0} {Q : Unit {0} → World sv cn → Type 0} (b : Bool) (e : Error sv)
      (rest : Act sv cn (Unit {0}))
      → (b ≡ true → Closes Same X Q rest)
      → Closes Same X Q (raise_unless sv cn env b e >> rest)
  unfolding ◌>>=◌
  Closes-guard true e rest k = record { run = λ w h. (k refl).run w h }
  Closes-guard false e rest k = record { run = λ w h. inl h }

  uninstall_end :
      (p : Package sv) (force keep : Bool)
      → Closes Same
          (Unwritten sv cn env Same (removed_entry p.entry))
          (λ _ w. Committed sv cn env (removed_entry p.entry) w)
          (do
            packages ← read sv cn env (get_installed_packages_except sv cn env p)
            failure_ignore force (lift (validate_package_tree sv packages))
            reraise_as uninstallation_error (uninstall_steps sv cn env p keep)
            save_entry sv cn env (removed_entry p.entry))
  uninstall_end p force keep = search (closing, Same-OnlyDatabase) depth 20

  pub uninstall-Closes :
      (name : String) (force keep : Bool)
      → Closes Same
          (RemovedUnwritten name)
          (λ _ w. Removed name w)
          (uninstall sv cn env name force keep)
  unfolding uninstall
  uninstall-Closes name force keep = Closes-bind _ _ (Keeps-gets _) λ installed.
      Closes-bind _ _ (search keeps_rules) λ _. Closes-read _ _ λ p e.
        Closes-bind _ _ (Keeps-gets _) λ enabled. Closes-bind _ _ (search keeps_rules) λ _.
          Closes-guard _ _ _ λ free.
            Closes-map _ (λ w x. (p, e, x)) (λ _ w c. (p, e, ground arith, c))
              (uninstall_end p force keep)

  -- The entry of the new package is stored as installed, at the version of its manifest; the old
  -- one was not built in.
  abbrev pub Upgraded : PackageSource sv → World sv cn → Type 0
  Upgraded source w =
      (new : Package sv) × (old : Package sv) × (e : PackageEntry sv) × (source_package sv env
          before source
        ≡ ok new)
      × (get_installed_package sv cn env new.entry.name before ≡ ok old)
      × (old.entry.built_in ≡ false)
      × (e.name ≡ new.entry.name)
      × Committed sv cn env
          (installed_entry sv cn env e new.metadata.manifest.package_table.version) w

  abbrev pub UpgradedUnwritten : PackageSource sv → World sv cn → Type 0
  UpgradedUnwritten source w =
      (new : Package sv) × (e : PackageEntry sv) × (source_package sv env before source ≡ ok new)
      × (e.name ≡ new.entry.name)
      × Unwritten sv cn env Same
          (installed_entry sv cn env e new.metadata.manifest.package_table.version) w

  upgrade_end :
      (source : PackageSource sv) (old new : Package sv) (force skip downgrade : Bool)
      → Closes Same
          (λ w.
            (e : PackageEntry sv) × (e.name ≡ new.entry.name)
            × Unwritten sv cn env Same
                (installed_entry sv cn env e new.metadata.manifest.package_table.version)
                w)
          (λ _ w.
            (e : PackageEntry sv) × (e.name ≡ new.entry.name)
            × Committed sv cn env
                (installed_entry sv cn env e new.metadata.manifest.package_table.version)
                w)
          (do
            failure_ignore force (
                check_versions sv cn env old.metadata.manifest.package_table.version
                  new.metadata.manifest.package_table.version downgrade)
            packages ← read sv cn env (get_installed_packages_and sv cn env new)
            failure_ignore force (validate_new sv cn env new packages skip)
            p ← reraise_as upgrade_error (upgrade_steps sv cn env source old new skip)
            save_entry sv cn env
                (installed_entry sv cn env p.entry new.metadata.manifest.package_table.version))
  upgrade_end source old new force skip downgrade =
      Closes-bind _ _ (search (closing, Same-OnlyDatabase) depth 10) λ _.
        Closes-bind _ _ (search keeps_rules) λ packages.
          Closes-bind _ _ (search (closing, Same-OnlyDatabase) depth 10) λ _.
            Closes-bind_given _ _ (search (closing, Same-OnlyDatabase) depth 10)
              (Gives-reraise_as _ _ (upgrade_steps-Named sv cn env source old new skip))
              λ p named.
                Closes-map _ (λ w x. (p.entry, named, x)) (λ _ w c. (p.entry, named, c))
                  (save_entry-Closes sv cn env Same Same-OnlyDatabase _)

  pub upgrade-Closes :
      (source : PackageSource sv) (force skip downgrade : Bool)
      → Closes Same
          (UpgradedUnwritten source)
          (λ _ w. Upgraded source w)
          (upgrade_from_source sv cn env source force skip downgrade)
  unfolding upgrade_from_source
  upgrade-Closes source force skip downgrade = Closes-read _ _ λ new e.
      Closes-bind _ _ (Keeps-gets _) λ installed. Closes-bind _ _ (search keeps_rules) λ _.
        Closes-read _ _ λ old e'. Closes-guard _ _ _ λ free.
          Closes-map _ (λ w (x, n, c). (new, x, e, n, c))
            (λ _ w (x, n, c). (new, old, x, e, e', ground arith, n, c))
            (upgrade_end source old new force skip downgrade)
