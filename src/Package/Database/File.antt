-- ===== src/Package/Database/File.antt =====
-- database.py: packages.json, written by `commit` and read by `from_file`.
use sonic_utility.Base.{false, Option, none, some, [], ◌∷◌, ◌≡◌, refl, arith}
use sonic_utility.Base.Dict.{Dict, Entries}
use sonic_utility.Base.Result.{Result, ok, ◌>>=◌}
use sonic_utility.Base.Text.{is_empty}
use sonic_utility.Package.Semver.{Semver}
use sonic_utility.Package.Model.{PackageEntry}
use sonic_utility.Package.Errors.{Error}
use sonic_utility.Package.Database.{
  Database, PackageInfo, Content, json, done, package_from_dict, package_to_dict, database_to_dict,
  commit,
}
use sonic_utility.Package.Database.Invariant.{Keyed}

module _ (sv : Semver) where
  -- The loop of `from_file`; `json.load` gives each key once, in the order of the file.
  unfoldable pub read_packages : Dict PackageInfo → Result (Error sv) (Dict (PackageEntry sv))
  unfolding package_from_dict
  read_packages [] = ok []
  read_packages ((key, info) ∷ rest) = do
    pkg ← package_from_dict sv key info
    database ← read_packages rest
    ok ((key, pkg) ∷ database)

  unfoldable pub from_file : Dict PackageInfo → Result (Error sv) (Database sv)
  unfolding read_packages
  from_file content = do
    database ← read_packages content
    ok (record { packages = database; file = some (json content) })

  -- The texts of the installed versions are not empty and read back.
  abbrev pub VersionReads : Option sv.Version → Type 0
  VersionReads none = Unit
  VersionReads (some v) =
      (is_empty (sv.version_text v) ≡ false) × (sv.parse_version (sv.version_text v) ≡ some v)

  abbrev pub Reads : Dict (PackageEntry sv) → Type 0
  Reads = Entries (λ k p. VersionReads p.version)

  entry_reads :
      (v : Option sv.Version) (p : PackageEntry sv)
      → p.version ≡ v
      → VersionReads v
      → package_from_dict sv p.name (package_to_dict sv p) ≡ ok p
  unfolding package_from_dict package_to_dict
  entry_reads none p e r = ground arith
  entry_reads (some v) p e r = ground arith

  packages_read :
      (d : Dict (PackageEntry sv))
      → Keyed sv d
      → Reads d
      → read_packages (database_to_dict sv d) ≡ ok d
  unfolding read_packages database_to_dict
  packages_read [] k r = refl
  packages_read ((name, p) ∷ d) k r =
      ground (arith, entry_reads p.version p refl r.0, packages_read d k.1 r.1)

  -- After a commit that was written to the file, reading the file gives the database again, if its entries stand
  -- under their names and the texts of their versions read back.
  pub from_file-commit :
      (db : Database sv) (old : Content)
      → db.file ≡ some old
      → Keyed sv db.packages
      → Reads db.packages
      → (content : Dict PackageInfo) × ((commit sv done db).1.file ≡ some (json content))
        × (from_file content ≡ ok (commit sv done db).1)
  unfolding from_file commit
  from_file-commit db old saving k r =
      (database_to_dict sv db.packages, ground arith, ground (arith, packages_read db.packages k r))
