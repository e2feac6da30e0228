-- ===== src/Package/Manager/Success.antt =====
-- manager.py: the steps of an installation, one by one, in a world without failures.
use sonic_utility.Base.{
  ℕ, String, Bool, false, not, some, List, [], ◌∷◌, ◌≡◌, refl, if◌then◌else◌, arith, ap, ◌∙◌,
  Option-cases, inl, inr,
}
use sonic_utility.Base.Dict.{Dict, lookup, insert}
use sonic_utility.Base.Result.{ok}
use sonic_utility.Base.Exec.{}
use sonic_utility.Base.Gives.{Gives-reraise_as}
use sonic_utility.Package.Manager.Names.{install_steps-Named}
use sonic_utility.Base.Yields.{
  Returned, Ends-gets, Ends-query, Ends, Ends-bind, Ends-bind_given, Yields, yields_rules,
  Yields-pure, Yields-bind, Yields-lift, Yields-query, Yields-then, Yields-if, Yields-reraise_as,
  Yields-failure_ignore, Yields-handle_and_raise,
}
use sonic_utility.Package.Semver.{Semver}
use sonic_utility.Package.Model.{Package, PackageEntry}
use sonic_utility.Package.Errors.{installation_error}
use sonic_utility.Package.Database.{Database}
use sonic_utility.Package.ConfigDb.{Connector}
use sonic_utility.Package.Feature
use sonic_utility.Package.World.{
  World, Act, Environment, Effect, perform, CliCommand, ServiceStep, daemon_reload,
}
use sonic_utility.Package.Source.{
  PackageSource, tarball, registry, local, source_package, install_image, source_install,
}
use sonic_utility.Package.Creator
use sonic_utility.Package.Tree.{
  validate_package_base_os_constraints, validate_package_tree, validate_package_cli_can_be_skipped,
}
use sonic_utility.Package.Manager.{
  commit_database, is_installed, get_installed_packages, get_installed_packages_and,
  install_cli_plugin, install_cli_plugins,
}
use sonic_utility.Package.Manager.Commits.{
  save_entry_known, stored_entry, commit_missing, commit_done,
}
use sonic_utility.Package.Manager.Operations.{
  read, raise_unless, save_entry, validate_new, install_steps, register_unknown,
  install_from_source,
}

module _ (sv : Semver) where
  -- A source that has an image to install.
  abbrev pub HasImage : PackageSource sv → Type 0
  HasImage (tarball path) = Unit
  HasImage (registry repository reference) = Unit
  HasImage (local e) = ⊥

  -- What the checks of an installation ask for: the package is known to the database, is not
  -- installed, and passes the three validations among the installed packages.
  pub record Installable (env : Environment sv) (before : Database sv) (p : Package sv)
      (packages : Dict (Package sv)) (entry : PackageEntry sv) (skip : Bool) : Type 0 where
    pub known : lookup p.entry.name before.packages ≡ some entry
    pub not_installed : entry.installed ≡ false
    pub base_os : validate_package_base_os_constraints sv p env.version_info ≡ ok tt
    pub tree : validate_package_tree sv (insert p.entry.name p packages) ≡ ok tt
    pub cli : validate_package_cli_can_be_skipped sv p skip ≡ ok tt

module _ (sv : Semver) (cn : Connector) (env : Environment sv)
    (never : (n : ℕ) → env.fails n ≡ false) (before : Database sv) where
  -- The database is as it was.
  abbrev Same : World sv cn → Type 0
  Same w = w.database ≡ before

  abbrev Sure : {A : Type 0} → Act sv cn A → Type 0
  Sure m = Yields Same m

  perform-Sure : (e : Effect) → Sure (perform sv cn env e)
  unfolding perform
  perform-Sure e = record { returns = λ w h. rw (never w.calls) h }

  with_features-Sure :
      (f : Feature.SonicDb cn.Db → Feature.SonicDb cn.Db) → Sure (Creator.with_features sv cn env f)
  unfolding Creator.with_features
  with_features-Sure f = record { returns = λ w h. h }

  each-Sure :
      {A : Type 0} (f : A → Act sv cn (Unit {0})) (xs : List A)
      → ((x : A) → Sure (f x))
      → Sure (Creator.each sv cn env f xs)
  each-Sure f [] k = Yields-pure tt
  each-Sure f (x ∷ xs) k = Yields-bind _ _ (k x) (λ _. each-Sure f xs k)

  ruleset sure_steps = (yields_rules, perform-Sure, with_features-Sure, each-Sure)

  hook-Sure :
      (step : ServiceStep → Act sv cn (Unit {0}))
      → ((s : ServiceStep) → Sure (step s))
      → Sure (Creator.post_operation_hook sv cn env step)
  unfolding Creator.post_operation_hook
  hook-Sure step k = Yields-if env.in_chroot _ _ (Yields-pure tt) (k daemon_reload)

  create-Sure :
      (p : Package sv) (register : Bool) (state owner : String)
      → Sure (Creator.create sv cn env p register state owner)
  unfolding Creator.create
  create-Sure p register state owner =
      Yields-handle_and_raise _ _ (search (sure_steps, hook-Sure) depth 20)

  shutdown-Sure :
      (packages : Dict (Package sv))
      → Sure (Creator.generate_shutdown_sequence_files sv cn env packages)
  unfolding Creator.generate_shutdown_sequence_files
  shutdown-Sure packages = search sure_steps depth 10

  plugin-Sure : (p : Package sv) (c : CliCommand) → Sure (install_cli_plugin sv cn env p c)
  unfolding install_cli_plugin
  plugin-Sure p c = search sure_steps

  plugins-Sure : (p : Package sv) → Sure (install_cli_plugins sv cn env p)
  unfolding install_cli_plugins
  plugins-Sure p = search (yields_rules, plugin-Sure) depth 10

  install_image-Sure :
      (source : PackageSource sv) (p : Package sv)
      → HasImage sv source
      → Sure (install_image sv cn env source p)
  unfolding install_image
  install_image-Sure (tarball path) p h = search sure_steps depth 10
  install_image-Sure (registry repository reference) p h = search sure_steps depth 10
  install_image-Sure (local e) p h = absurd h

  source_install-Sure :
      (source : PackageSource sv) (p : Package sv)
      → HasImage sv source
      → Sure (source_install sv cn env source p)
  unfolding source_install
  source_install-Sure source p h =
      Yields-bind _ _ (install_image-Sure source p h) (λ i. Yields-pure _)

  commit_ends :
      (w : World sv cn)
      → Returned
          (λ (_ : World sv cn). Unit {0})
          (commit_database sv cn env w).0
          (commit_database sv cn env w).1
  commit_ends w = elim (Option-cases w.database.file) [
    | inl missing ↦ rw (commit_missing sv cn env w missing) tt
    | inr (c, there) ↦ rw (commit_done sv cn env w there (never w.calls)) tt
  ]

  save_entry-Ends :
      (entry old : PackageEntry sv)
      → lookup entry.name before.packages ≡ some old
      → Ends Same (save_entry sv cn env entry)
  save_entry-Ends entry old known = record {
    ends = λ w h.
        rw
          (save_entry_known sv cn env entry old w
            (ap (λ (d : Database sv). lookup entry.name d.packages) h ∙ known))
          (commit_ends (stored_entry sv cn env entry w));
  }

  module _ (p : Package sv) (packages : Dict (Package sv))
      (readable : get_installed_packages sv cn env before ≡ ok packages) where
    and-ok :
        (q : Package sv)
        → get_installed_packages_and sv cn env q before ≡ ok (insert q.entry.name q packages)
    unfolding get_installed_packages_and
    and-ok q = rw readable refl

    read_and-Sure :
        (q : Package sv) → Sure (read sv cn env (get_installed_packages_and sv cn env q))
    read_and-Sure q = Yields-query _ (insert q.entry.name q packages) (λ w h. rw h (and-ok q))

    read_all-Sure : Sure (read sv cn env (get_installed_packages sv cn env))
    read_all-Sure = Yields-query _ packages (λ w h. rw h readable)

    install_steps-Sure :
        (source : PackageSource sv) (state owner : String) (skip : Bool)
        → HasImage sv source
        → Sure (install_steps sv cn env source p state owner skip)
    unfolding install_steps
    install_steps-Sure source state owner skip image =
        Yields-bind _ _ (source_install-Sure source p image) λ q.
          search
            (yields_rules, create-Sure, read_and-Sure, read_all-Sure, shutdown-Sure, plugins-Sure)
            depth 30

    module _ (entry : PackageEntry sv) (skip : Bool)
        (able : Installable sv env before p packages entry skip) where
      validate_new-Sure : Sure (validate_new sv cn env p (insert p.entry.name p packages) skip)
      unfolding validate_new
      validate_new-Sure =
          Yields-bind _ _ (Yields-lift _ tt able.base_os)
            λ _. Yields-bind _ _ (Yields-lift _ tt able.tree) λ _. Yields-lift _ tt able.cli

      register_known :
          (w : World sv cn)
          → lookup p.entry.name w.database.packages ≡ some entry
          → register_unknown sv cn env p w ≡ (ok tt, w)
      unfolding register_unknown
      register_known w e = ground arith

      register_unknown-Sure : Sure (register_unknown sv cn env p)
      register_unknown-Sure = record {
        returns = λ w h.
            rw
              (register_known w
                (ap (λ (d : Database sv). lookup p.entry.name d.packages) h ∙ able.known))
              h;
      }

      not_yet : is_installed sv cn env p.entry.name before ≡ false
      unfolding is_installed
      not_yet = let e = able.known in let n = able.not_installed in ground arith

      not_installed-Sure :
          Yields
            (λ w. (w.database ≡ before))
            (raise_unless sv cn env
              (not (is_installed sv cn env p.entry.name before))
              installation_error)
      not_installed-Sure = Yields-then _ _ _ (ap not not_yet) (Yields-pure tt)

      pub install-Ends :
          (source : PackageSource sv) (force enable : Bool) (owner : String)
          → HasImage sv source
          → source_package sv env before source ≡ ok p
          → Ends Same (install_from_source sv cn env source force enable owner skip)
      unfolding install_from_source
      install-Ends source force enable owner image from =
          Ends-query _ p _ (λ w h. rw h from)
            (Ends-gets _ _ _ (λ w h. ap (is_installed sv cn env p.entry.name) h)
              (Ends-bind _ _ (Yields-failure_ignore force _ not_installed-Sure) λ _.
                Ends-query _ (insert p.entry.name p packages) _ (λ w h. rw h (and-ok p))
                  (Ends-bind _ _ (Yields-failure_ignore force _ validate_new-Sure) λ _.
                    Ends-bind _ _ register_unknown-Sure λ _.
                      Ends-bind_given _ _
                        (Yields-reraise_as _ _ (
                          install_steps-Sure source (if enable then "enabled" else "disabled") owner
                            skip image))
                        (Gives-reraise_as _ _ (install_steps-Named sv cn env source p _ owner skip))
                        λ q named.
                          save_entry-Ends _ entry
                            (ap (λ k. lookup k before.packages) named ∙ able.known))))
