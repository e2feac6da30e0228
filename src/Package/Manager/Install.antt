-- ===== src/Package/Manager/Install.antt =====
-- What install_from_source of PackageManager does to the package database and its file.
use sonic_utility.Base.{
  ◌∙◌, String, Bool, false, not, none, some, ◌≡◌, ◌⊎◌, inl, inr, refl, if◌then◌else◌, arith, eq_iff,
  sym, ap, Option-cases,
}
use sonic_utility.Base.Dict.{lookup, insert, lookup-insert}
use sonic_utility.Base.Result.{ok}
use sonic_utility.Base.Exec.{gets, reraise_as, failure_ignore, ◌>>=◌, ◌>>◌}
use sonic_utility.Base.Gives.{Gives-reraise_as}
use sonic_utility.Base.Keeps.{
  Keeps, Closes, Closed, keeps_rules, given-run, Closes-map, Closes-bind, Closes-bind_given,
}
use sonic_utility.Package.Semver.{Semver}
use sonic_utility.Package.Model.{Package, PackageEntry}
use sonic_utility.Package.Errors.{installation_error}
use sonic_utility.Package.Database.{Database, new_entry}
use sonic_utility.Package.ConfigDb.{Connector}
use sonic_utility.Package.World.{World, Environment}
use sonic_utility.Package.Source.{PackageSource, source_package}
use sonic_utility.Package.Manager.{with_database, is_installed, get_installed_packages_and}
use sonic_utility.Package.Manager.Actions.{OnlyDatabase}
use sonic_utility.Package.Manager.Names.{install_steps-Named}
use sonic_utility.Package.Manager.Operations.{
  read, raise_unless, save_entry, validate_new, install_steps, register_unknown,
  install_from_source,
}
use sonic_utility.Package.Manager.Commits.{
  Committed, Unwritten, installed_entry, save_entry-Closes, install_steps-Safe, validate_new-Safe,
}

module _ (sv : Semver) (cn : Connector) (env : Environment sv) (before : Database sv) where
  -- The file is as it was, every entry is still there, and an entry that was not there is one of a
  -- package that is not installed.
  pub record Uncommitted (w : World sv cn) : Type 0 where
    pub file : w.database.file ≡ before.file
    pub kept :
        (name : String) (e : PackageEntry sv)
        → lookup name before.packages ≡ some e
        → lookup name w.database.packages ≡ some e
    pub fresh :
        (name : String) (e : PackageEntry sv)
        → lookup name w.database.packages ≡ some e
        → (lookup name before.packages ≡ some e) ⊎ (e.installed ≡ false)

  Uncommitted-OnlyDatabase : OnlyDatabase sv cn Uncommitted
  Uncommitted-OnlyDatabase w w' e u = record {
    file = ap (λ (d : Database sv). d.file) e ∙ u.file;
    kept = λ name p h. ap (λ (d : Database sv). lookup name d.packages) e ∙ u.kept name p h;
    fresh =
        λ name p h. u.fresh name p (sym (ap (λ (d : Database sv). lookup name d.packages) e) ∙ h);
  }

  added-Uncommitted :
      (p : Package sv) (w w' : World sv cn) (fresh : PackageEntry sv)
      → fresh.installed ≡ false
      → lookup p.entry.name w.database.packages ≡ none
      → w'.database ≡ record w.database { packages = insert p.entry.name fresh w.database.packages }
      → Uncommitted w
      → Uncommitted w'
  added-Uncommitted p w w' fresh new unknown e u = record {
    file = ap (λ (d : Database sv). d.file) e ∙ u.file;
    kept = λ name q h.
        ap (λ (d : Database sv). lookup name d.packages) e
        ∙ ground (
          arith,
          lookup-insert p.entry.name name fresh w.database.packages,
          eq_iff p.entry.name name,
          u.kept name q h,
        );
    fresh = λ name q h.
        let there = sym (ap (λ (d : Database sv). lookup name d.packages) e) ∙ h in
        ground (
          arith,
          there,
          lookup-insert p.entry.name name fresh w.database.packages,
          eq_iff p.entry.name name,
          u.fresh name q,
        );
  }

  known_or_added :
      (p : Package sv) (w : World sv cn)
      → ((register_unknown sv cn env p w).1.database ≡ w.database)
        ⊎ ((lookup p.entry.name w.database.packages ≡ none)
            × ((register_unknown sv cn env p w).1.database ≡ record w.database {
              packages =
                  insert p.entry.name
                    (new_entry sv p.entry.name p.entry.repository none none)
                    w.database.packages;
            }))
  unfolding register_unknown with_database
  known_or_added p w = elim (Option-cases (lookup p.entry.name w.database.packages)) [
    | inl e ↦ inr (e, ground arith)
    | inr (q, e) ↦ inl (ground arith)
  ]

  register_unknown-Keeps : (p : Package sv) → Keeps Uncommitted (register_unknown sv cn env p)
  register_unknown-Keeps p = record {
    at = λ w u. elim (known_or_added p w) [
      | inl same ↦ Uncommitted-OnlyDatabase w _ same u
      | inr (unknown, added) ↦ added-Uncommitted p w _ _ refl unknown added u
    ];
  }

  -- The entry of the source's package is stored as installed, at the version of its manifest, and
  -- the file is up to date.
  abbrev pub Installed : PackageSource sv → World sv cn → Type 0
  Installed source w =
      (p : Package sv) × (e : PackageEntry sv) × (source_package sv env before source ≡ ok p)
      × (e.name ≡ p.entry.name)
      × Committed sv cn env (installed_entry sv cn env e p.metadata.manifest.package_table.version)
          w

  -- The entry is the same, but the writing of the file raised: the entry is in memory only.
  abbrev pub InstalledUnwritten : PackageSource sv → World sv cn → Type 0
  InstalledUnwritten source w =
      (p : Package sv) × (e : PackageEntry sv) × (source_package sv env before source ≡ ok p)
      × (e.name ≡ p.entry.name)
      × Unwritten sv cn env Uncommitted
          (installed_entry sv cn env e p.metadata.manifest.package_table.version) w

  ruleset installing = (keeps_rules, validate_new-Safe, register_unknown-Keeps)

  install_rest :
      (source : PackageSource sv) (force enable : Bool) (owner : String) (skip : Bool)
      (p : Package sv)
      → source_package sv env before source ≡ ok p
      → Closes Uncommitted
          (InstalledUnwritten source)
          (λ _ w. Installed source w)
          (do
            installed ← gets (λ w. is_installed sv cn env p.entry.name w.database)
            failure_ignore force (raise_unless sv cn env (not installed) installation_error)
            packages ← read sv cn env (get_installed_packages_and sv cn env p)
            failure_ignore force (validate_new sv cn env p packages skip)
            register_unknown sv cn env p
            p' ← reraise_as installation_error (
                install_steps sv cn env source p
                  (if enable then "enabled" else "disabled")
                  owner
                  skip)
            save_entry sv cn env
                (installed_entry sv cn env p'.entry p.metadata.manifest.package_table.version))
  install_rest source force enable owner skip p e =
      Closes-bind _ _ (search keeps_rules) λ installed. Closes-bind _ _ (search keeps_rules) λ _.
        Closes-bind _ _ (search keeps_rules) λ packages.
          Closes-bind _ _
            (search (keeps_rules, validate_new-Safe, Uncommitted-OnlyDatabase) depth 10)
            λ _. Closes-bind _ _ (register_unknown-Keeps p) λ _.
              Closes-bind_given _ _
                (search (keeps_rules, install_steps-Safe, Uncommitted-OnlyDatabase) depth 10)
                (Gives-reraise_as _ _ (install_steps-Named sv cn env source p _ owner skip))
                λ q named.
                  Closes-map _ (λ w x. (p, q.entry, e, named, x))
                    (λ _ w c. (p, q.entry, e, named, c))
                    (save_entry-Closes sv cn env Uncommitted Uncommitted-OnlyDatabase _)

  start-Uncommitted : (w : World sv cn) → w.database ≡ before → Uncommitted w
  start-Uncommitted w e = record {
    file = ap (λ (d : Database sv). d.file) e;
    kept = λ name p h. ap (λ (d : Database sv). lookup name d.packages) e ∙ h;
    fresh = λ name p h. inl (sym (ap (λ (d : Database sv). lookup name d.packages) e) ∙ h);
  }

  pub install-Closed :
      (source : PackageSource sv) (force enable : Bool) (owner : String) (skip : Bool)
      (w : World sv cn)
      → w.database ≡ before
      → Closed
          (λ w'. Uncommitted w' ⊎ InstalledUnwritten source w')
          (λ (_ : Unit {0}) w'. Installed source w')
          (install_from_source sv cn env source force enable owner skip w).0
          (install_from_source sv cn env source force enable owner skip w).1
  unfolding install_from_source ◌>>=◌
  install-Closed source force enable owner skip w e =
      given-run {R = λ p. source_package sv env before source ≡ ok p} _
        (λ p h. install_rest source force enable owner skip p h)
        (source_package sv env w.database source) w
        (λ p h. sym (ap (λ d. source_package sv env d source) e) ∙ h) (start-Uncommitted w e)
