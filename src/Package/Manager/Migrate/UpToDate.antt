-- ===== src/Package/Manager/Migrate/UpToDate.antt =====
-- manager.py: a migration to an image that has everything.
use mathlib.Core.Option
use sonic_utility.Base.{
  ℕ, false, not, sym, ◌&&◌, ◌||◌, if◌then◌else◌, Option, Option-cases, Bool-cases, Bool, true, some,
  List, [], ◌∷◌, ◌≡◌, refl, arith, ◌⊎◌, inl, inr, ◌∙◌, ap, All,
}
use sonic_utility.Base.Dict.{lookup}
use sonic_utility.Base.Result.{ok}
use sonic_utility.Base.Exec.{◌>>=◌}
use sonic_utility.Package.Semver.{Semver}
use sonic_utility.Package.Model.{PackageEntry}
use sonic_utility.Package.Database.{Database, Content, json, database_to_dict, iterate}
use sonic_utility.Package.ConfigDb.{Connector}
use sonic_utility.Package.World.{World, Environment}
use sonic_utility.Package.Manager.{commit_database}
use sonic_utility.Package.Manager.Commits.{commit_missing, commit_done}
use sonic_utility.Package.Manager.Migrate.{
  migrate_one, migrate_all, migrate_packages, migrate_package_database, version_gt,
}

module _ (sv : Semver) (cn : Connector) (env : Environment sv) where
  -- There is nothing to migrate for an old entry: it is of no installed package, or of one that is
  -- built in, or the package is installed at a version that is not lower.
  abbrev pub IsUpToDate : Database sv → PackageEntry sv → Type 0
  IsUpToDate db old =
      (old.installed ≡ false)
      ⊎ ((old.built_in ≡ true)
          ⊎ ((new : PackageEntry sv) × (lookup old.name db.packages ≡ some new)
              × (new.installed ≡ true)
              × (version_gt sv cn env old.version new.version ≡ ok false)))

  -- An old package that is installed and not built in is one to be migrated.
  abbrev pub to_migrate : PackageEntry sv → Bool
  to_migrate old = old.installed && not old.built_in

  abbrev pub any_to_migrate : List (PackageEntry sv) → Bool
  any_to_migrate [] = false
  any_to_migrate (old ∷ rest) = to_migrate old || any_to_migrate rest

  -- What the file holds, if there is one, after the entries were written to it.
  abbrev pub rewritten : Database sv → Option Content
  rewritten db = Option.map (λ _. json (database_to_dict sv db.packages)) db.file

  -- Only the file changes, and this if it is written.
  pub record Quiet (writes : Bool) (w w' : World sv cn) : Type 0 where
    pub packages : w'.database.packages ≡ w.database.packages
    pub file : w'.database.file ≡ (if writes then rewritten w.database else w.database.file)
    pub features : w'.features ≡ w.features
    pub effects : w'.effects ≡ w.effects

  module _ (never : (n : ℕ) → env.fails n ≡ false) where
    commit-Quiet :
        (w : World sv cn)
        → ((commit_database sv cn env w).0 ≡ ok tt) × Quiet true w (commit_database sv cn env w).1
    commit-Quiet w = elim (Option-cases w.database.file) [
      | inl missing ↦ rw (commit_missing sv cn env w missing) (
        refl,
        record {
          packages = refl;
          file = missing ∙ sym (ap (Option.map _) missing);
          features = refl;
          effects = refl;
        },
      )
      | inr (c, there) ↦ rw (commit_done sv cn env w there (never w.calls)) (
        refl,
        record {
          packages = refl;
          file = sym (ap (Option.map _) there);
          features = refl;
          effects = refl;
        },
      )
    ]

    migrate_one_known :
        (sock : Bool) (old : PackageEntry sv) (w : World sv cn)
        → IsUpToDate w.database old
        → to_migrate old ≡ true
        → migrate_one sv cn env sock old w ≡ commit_database sv cn env w
    unfolding migrate_one ◌>>=◌
    migrate_one_known sock old w (inl not_installed) m = ground arith
    migrate_one_known sock old w (inr (inl built_in)) m = ground arith
    migrate_one_known sock old w (inr (inr (new, known, installed, newer))) m = ground arith

    migrate_one_skipped :
        (sock : Bool) (old : PackageEntry sv) (w : World sv cn)
        → to_migrate old ≡ false
        → migrate_one sv cn env sock old w ≡ (ok tt, w)
    unfolding migrate_one ◌>>=◌
    migrate_one_skipped sock old w m = ground arith

    migrate_one-Quiet :
        (sock : Bool) (old : PackageEntry sv) (w : World sv cn)
        → IsUpToDate w.database old
        → ((migrate_one sv cn env sock old w).0 ≡ ok tt)
          × Quiet (to_migrate old) w (migrate_one sv cn env sock old w).1
    migrate_one-Quiet sock old w h = elim (Bool-cases (to_migrate old)) [
      | inl m ↦ rw (m) (rw (migrate_one_known sock old w h m) (commit-Quiet w))
      | inr m ↦ rw (m) (
          rw (migrate_one_skipped sock old w m)
            (refl, record { packages = refl; file = refl; features = refl; effects = refl }))
    ]

  kept-IsUpToDate :
      (db db' : Database sv) (ps : List (PackageEntry sv))
      → db'.packages ≡ db.packages
      → All (IsUpToDate db) ps
      → All (IsUpToDate db') ps
  kept-IsUpToDate db db' [] e h = tt
  kept-IsUpToDate db db' (p ∷ ps) e (inl a, h) = (inl a, kept-IsUpToDate db db' ps e h)
  kept-IsUpToDate db db' (p ∷ ps) e (inr (inl a), h) = (inr (inl a), kept-IsUpToDate db db' ps e h)
  kept-IsUpToDate db db' (p ∷ ps) e (inr (inr (new, known, i, v)), h) =
      (inr (inr (new, ap (lookup p.name) e ∙ known, i, v)), kept-IsUpToDate db db' ps e h)

  file_then :
      (b c : Bool) (w_1 w_2 w_3 : World sv cn)
      → Quiet b w_1 w_2
      → Quiet c w_2 w_3
      → w_3.database.file ≡ (if b || c then rewritten w_1.database else w_1.database.file)
  file_then b c w_1 w_2 w_3 q r = ground (
    arith,
    q.packages,
    q.file,
    r.file,
    Option-cases w_1.database.file,
    Option-cases w_2.database.file,
    Bool-cases b,
    Bool-cases c,
  )

  -- Two parts of a migration: the file holds the entries if either of them writes.
  Quiet-then :
      (b c : Bool) (w_1 w_2 w_3 : World sv cn)
      → Quiet b w_1 w_2
      → Quiet c w_2 w_3
      → Quiet (b || c) w_1 w_3
  Quiet-then b c w_1 w_2 w_3 q r = record {
    packages = r.packages ∙ q.packages;
    file = file_then b c w_1 w_2 w_3 q r;
    features = r.features ∙ q.features;
    effects = r.effects ∙ q.effects;
  }

  migrate_all-Quiet :
      (never : (n : ℕ) → env.fails n ≡ false) (sock : Bool) (ps : List (PackageEntry sv))
      (w : World sv cn)
      → All (IsUpToDate w.database) ps
      → ((migrate_all sv cn env sock ps w).0 ≡ ok tt)
        × Quiet (any_to_migrate ps) w (migrate_all sv cn env sock ps w).1
  unfolding migrate_all ◌>>=◌
  migrate_all-Quiet never sock [] w h =
      (refl, record { packages = refl; file = refl; features = refl; effects = refl })
  migrate_all-Quiet never sock (p ∷ ps) w (h, hs) =
      let (done, same) = migrate_one-Quiet never sock p w h in
      let w' = (migrate_one sv cn env sock p w).1 in
      let (rest, same') =
        migrate_all-Quiet never sock ps w'
          (kept-IsUpToDate w.database w'.database ps same.packages hs) in
      rw done (rest, Quiet-then (to_migrate p) (any_to_migrate ps) w w' _ same same')

  -- Where every old package is not installed, built in, or installed in the new image at a version
  -- that is not lower, and no external call fails, the migration returns and adds the unknown
  -- packages, and changes nothing else: no package is installed, upgraded or downgraded, no feature
  -- changes, and nothing outside the program changes but the file. The file, if there is one, is
  -- written with the new entries where some old package is installed and not built in, and else it
  -- is left as it was, without them.
  pub migrate_packages_up_to_date :
      (never : (n : ℕ) → env.fails n ≡ false) (old : Database sv) (sock : Bool) (w : World sv cn)
      → All (IsUpToDate (migrate_package_database sv old w.database)) (iterate sv old)
      → ((migrate_packages sv cn env old sock w).0 ≡ ok tt)
        × Quiet
            (any_to_migrate (iterate sv old))
            (record w { database = migrate_package_database sv old w.database })
            (migrate_packages sv cn env old sock w).1
  unfolding migrate_packages
  migrate_packages_up_to_date never old sock w h =
      migrate_all-Quiet never sock (iterate sv old)
        (record w { database = migrate_package_database sv old w.database }) h
