-- ===== src/Package/Manager/Commits.antt =====
-- What the methods of PackageManager do to the package database and its file.
use mathlib.Core.Option
use sonic_utility.Base.{
  suc, sym, false, Option, String, Bool, true, none, some, ◌≡◌, refl, ap, ◌∙◌, ◌⊎◌, arith, inl, inr,
  eq_refl, Option-cases, Bool-cases,
}
use sonic_utility.Base.Dict.{Dict, lookup, insert, lookup-insert}
use sonic_utility.Base.Result.{Result, ok, err}
use sonic_utility.Base.Exec.{◌>>=◌}
use sonic_utility.Base.Keeps.{
  given-run, Closes-map, Keeps-gets, Keeps, Closes, Closed, keeps_rules, Closes-bind,
  Closes-bind_given,
}
use sonic_utility.Package.Semver.{Semver}
use sonic_utility.Package.Model.{Package, PackageEntry}
use sonic_utility.Package.Errors.{Error, system_error, package_not_found}
use sonic_utility.Package.Database.{Content, json, broken, database_to_dict, update_package, commit}
use sonic_utility.Package.ConfigDb.{Connector}
use sonic_utility.Package.World.{World, Environment}
use sonic_utility.Package.Source.{PackageSource}
use sonic_utility.Package.Manager.{with_database, commit_database}
use sonic_utility.Package.Manager.Actions.{OnlyDatabase, safe_actions}
use sonic_utility.Package.Manager.Operations.{
  save_entry, validate_new, install_steps, uninstall_steps,
}
use sonic_utility.Package.Manager.Upgrade.{replace_service, upgrade_steps, check_versions}

module _ (sv : Semver) (cn : Connector) (env : Environment sv) where
  -- The entry is stored, and the file holds what the database holds.
  pub record Committed (entry : PackageEntry sv) (w : World sv cn) : Type 0 where
    pub stored : lookup entry.name w.database.packages ≡ some entry
    pub written :
        w.database.file
        ≡ Option.map (λ _. json (database_to_dict sv w.database.packages)) w.database.file

  -- The writing of the file raised: the entry is stored in memory, and the file is as it was or has
  -- lost its content. Before the writing, `P` held.
  pub record Unwritten (P : World sv cn → Type 0) (entry : PackageEntry sv) (w : World sv cn)
      : Type 0 where
    pub prior : World sv cn
    pub held : P prior
    pub stored : w.database.packages ≡ insert entry.name entry prior.database.packages
    pub file : (w.database.file ≡ prior.database.file) ⊎ (w.database.file ≡ some broken)

  pub stored_entry : PackageEntry sv → World sv cn → World sv cn
  stored_entry entry w = record w {
    database = record w.database { packages = insert entry.name entry w.database.packages };
  }

  pub save_entry_known :
      (entry old : PackageEntry sv) (w : World sv cn)
      → lookup entry.name w.database.packages ≡ some old
      → save_entry sv cn env entry w ≡ commit_database sv cn env (stored_entry entry w)
  unfolding save_entry with_database update_package ◌>>=◌ stored_entry
  save_entry_known entry old w e = ground arith

  save_entry_unknown :
      (entry : PackageEntry sv) (w : World sv cn)
      → lookup entry.name w.database.packages ≡ none
      → save_entry sv cn env entry w ≡ (err (package_not_found entry.name), w)
  unfolding save_entry with_database update_package ◌>>=◌
  save_entry_unknown entry w e = ground arith

  module _ (w : World sv cn) where
    abbrev called : Option Content → World sv cn
    called file = record w { calls = suc w.calls; database = record w.database { file = file } }

    pub commit_missing : w.database.file ≡ none → commit_database sv cn env w ≡ (ok tt, w)
    unfolding commit_database
    commit_missing e = ground arith

    pub commit_done :
        {c : Content}
        → w.database.file ≡ some c
        → env.fails w.calls ≡ false
        → commit_database sv cn env w
          ≡ (ok tt, called (some (json (database_to_dict sv w.database.packages))))
    unfolding commit_database with_database commit
    commit_done e goes = ground arith

    commit_cut_short :
        {c : Content}
        → w.database.file ≡ some c
        → env.fails w.calls ≡ true
        → env.empties w.calls ≡ true
        → commit_database sv cn env w ≡ (err system_error, called (some broken))
    unfolding commit_database with_database commit
    commit_cut_short e fails empties = ground arith

    commit_not_opened :
        {c : Content}
        → w.database.file ≡ some c
        → env.fails w.calls ≡ true
        → env.empties w.calls ≡ false
        → commit_database sv cn env w ≡ (err system_error, called w.database.file)
    unfolding commit_database with_database commit
    commit_not_opened e fails keeps = ground arith

  -- Where a commit returns, the file holds the entries; where it raises, they are in memory.
  pub commit_database_outcome :
      (w : World sv cn)
      → Closed
          (λ (w' : World sv cn).
            (w'.database.packages ≡ w.database.packages)
            × ((w'.database.file ≡ w.database.file) ⊎ (w'.database.file ≡ some broken)))
          (λ (_ : Unit {0}) w'.
            (w'.database.packages ≡ w.database.packages)
            × (w'.database.file
                ≡ Option.map (λ _. json (database_to_dict sv w.database.packages)) w.database.file))
          (commit_database sv cn env w).0
          (commit_database sv cn env w).1
  commit_database_outcome w = elim (Option-cases w.database.file) [
    | inl missing ↦ rw (commit_missing w missing) (refl, missing ∙ sym (ap (Option.map _) missing))
    | inr (c, there) ↦ elim (Bool-cases (env.fails w.calls)) [
      | inr goes ↦ rw (commit_done w there goes) (refl, sym (ap (Option.map _) there))
      | inl fails ↦ elim (Bool-cases (env.empties w.calls)) [
        | inl empties ↦ rw (commit_cut_short w there fails empties) (refl, inr refl)
        | inr keeps ↦ rw (commit_not_opened w there fails keeps) (refl, inl refl)
      ]
    ]
  ]

  module _ (P : World sv cn → Type 0) (only : OnlyDatabase sv cn P) where
    saved :
        (entry : PackageEntry sv) (w : World sv cn)
        → P w
        → (r : Result (Error sv) (Unit {0})) (w' : World sv cn)
        → Closed
            (λ (w' : World sv cn).
              (w'.database.packages ≡ (stored_entry entry w).database.packages)
              × ((w'.database.file ≡ w.database.file) ⊎ (w'.database.file ≡ some broken)))
            (λ (_ : Unit {0}) w'.
              (w'.database.packages ≡ (stored_entry entry w).database.packages)
              × (w'.database.file
                  ≡ Option.map
                      (λ _. json (database_to_dict sv (stored_entry entry w).database.packages))
                      w.database.file))
            r
            w'
        → Closed (λ t. P t ⊎ Unwritten P entry t) (λ _ t. Committed entry t) r w'
    unfolding stored_entry
    saved entry w h (ok u) w' (packages, file) = record {
      stored =
          ap (lookup entry.name) packages
          ∙ ground (
            arith,
            lookup-insert entry.name entry.name entry w.database.packages,
            eq_refl entry.name,
          );
      written = ground (arith, Option-cases w.database.file);
    }
    saved entry w h (err e) w' (packages, file) =
        inr record { prior = w; held = h; stored = packages; file = file }

    pub save_entry-Closes :
        (entry : PackageEntry sv)
        → Closes P (Unwritten P entry) (λ _ w. Committed entry w) (save_entry sv cn env entry)
    unfolding stored_entry
    save_entry-Closes entry = record {
      run = λ w h. elim (Option-cases (lookup entry.name w.database.packages)) [
        | inl e ↦ rw (save_entry_unknown entry w e) (inl h)
        | inr (old, e) ↦
            rw (save_entry_known entry old w e)
              (saved entry w h _ _ (commit_database_outcome (stored_entry entry w)))
      ];
    }

    pub uninstall_steps-Safe :
        (p : Package sv) (keep : Bool) → Keeps P (uninstall_steps sv cn env p keep)
    unfolding uninstall_steps
    uninstall_steps-Safe p keep = search safe_actions depth 20

    pub install_steps-Safe :
        (source : PackageSource sv) (p : Package sv) (state owner : String) (skip : Bool)
        → Keeps P (install_steps sv cn env source p state owner skip)
    unfolding install_steps
    install_steps-Safe source p state owner skip = search safe_actions depth 25

    pub replace_service-Safe :
        (old p : Package sv) (enabled skip : Bool)
        → Keeps P (replace_service sv cn env old p enabled skip)
    unfolding replace_service
    replace_service-Safe old p enabled skip = search safe_actions depth 25

    pub upgrade_steps-Safe :
        (source : PackageSource sv) (old new : Package sv) (skip : Bool)
        → Keeps P (upgrade_steps sv cn env source old new skip)
    unfolding upgrade_steps
    upgrade_steps-Safe source old new skip = search (safe_actions, replace_service-Safe) depth 25

    pub validate_new-Safe :
        (p : Package sv) (packages : Dict (Package sv)) (skip : Bool)
        → Keeps P (validate_new sv cn env p packages skip)
    unfolding validate_new
    validate_new-Safe p packages skip = search keeps_rules

    pub check_versions-Safe :
        (a b : sv.Version) (downgrade : Bool) → Keeps P (check_versions sv cn env a b downgrade)
    unfolding check_versions
    check_versions-Safe a b downgrade = search keeps_rules

    pub ruleset closing = (
      Closes-bind, keeps_rules, validate_new-Safe, check_versions-Safe, uninstall_steps-Safe,
      install_steps-Safe, upgrade_steps-Safe, save_entry-Closes,
    )

  abbrev pub installed_entry : PackageEntry sv → sv.Version → PackageEntry sv
  installed_entry e v = record e { installed = true; version = some v }
