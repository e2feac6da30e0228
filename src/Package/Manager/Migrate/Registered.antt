-- ===== src/Package/Manager/Migrate/Registered.antt =====
-- manager.py: the first part of a migration, the packages that the new image does not know.
use sonic_utility.Base.{
  String, Option, none, some, List, [], ◌∷◌, ◌≡◌, refl, if◌then◌else◌, or_else, arith, ◌==◌, eq_iff,
  eq_refl,
}
use mathlib.Core.Option
use sonic_utility.Base.Dict.{Dict, lookup, lookup-insert, IsUnique}
use sonic_utility.Package.Semver.{Semver}
use sonic_utility.Package.Model.{PackageEntry}
use sonic_utility.Package.Database.{Database, new_entry, iterate, found}
use sonic_utility.Package.Database.Invariant.{Keyed, IsValid}
use sonic_utility.Package.Database.Refinement.{view}
use sonic_utility.Package.Manager.Migrate.{add_missing, add_all, migrate_package_database}

module _ (sv : Semver) where
  -- The entry that a migration adds for one of the old image: not installed, with no version.
  abbrev pub migrated : PackageEntry sv → PackageEntry sv
  migrated p = new_entry sv p.name p.repository p.description p.default_reference

  -- The first entry with the name in a list of entries.
  abbrev entry_named : String → List (PackageEntry sv) → Option (PackageEntry sv)
  entry_named name [] = none
  entry_named name (p ∷ ps) = if p.name == name then some p else entry_named name ps

  view-add_missing :
      (p : PackageEntry sv) (db : Database sv) (name : String)
      → view sv (add_missing sv p db) name
        ≡ or_else (view sv db name) (if p.name == name then some (migrated p) else none)
  unfolding add_missing
  view-add_missing p db name =
      ground (arith, eq_iff p.name name, lookup-insert p.name name (migrated p) db.packages)

  view-add_all :
      (ps : List (PackageEntry sv)) (db : Database sv) (name : String)
      → view sv (add_all sv ps db) name
        ≡ or_else (view sv db name) (Option.map migrated (entry_named name ps))
  view-add_all [] db name = ground arith
  view-add_all (p ∷ ps) db name =
      ground (arith, view-add_all ps (add_missing sv p db) name, view-add_missing p db name)

  -- Iteration over a database that is valid finds its entries in order, so the first entry with a
  -- name is the one that is stored under it.
  entry_named-found :
      (d rest : Dict (PackageEntry sv)) (name : String)
      → ((k : String) (p : PackageEntry sv) → lookup k rest ≡ some p → lookup k d ≡ some p)
      → Keyed sv rest
      → IsUnique rest
      → entry_named name (found sv d rest) ≡ lookup name rest
  unfolding lookup
  entry_named-found d [] name sub keyed unique = refl
  entry_named-found d ((k, p) ∷ rest) name sub keyed unique =
      let here = sub k p (rw (eq_refl k) refl) in
      let others =
        entry_named-found d rest name (λ j q e. sub j q (ground (arith, eq_iff k j, e, unique.0)))
          keyed.1 unique.1 in
      ground (arith, here, others, keyed.0, eq_iff k name)

  -- Adding the packages of the old image keeps every entry of the new one, and adds one for each
  -- package that only the old image knows: not installed, with the repository, the description and
  -- the default reference that it had, if the old database has each entry under its own name and
  -- each name once.
  pub view-migrate_package_database :
      (old db : Database sv) (name : String)
      → IsValid sv old
      → view sv (migrate_package_database sv old db) name
        ≡ or_else (view sv db name) (Option.map migrated (view sv old name))
  unfolding migrate_package_database iterate
  view-migrate_package_database old db name valid =
      rw (entry_named-found old.packages old.packages name (λ k p e. e) valid.keyed valid.unique) at
        (view-add_all (found sv old.packages old.packages) db name)
