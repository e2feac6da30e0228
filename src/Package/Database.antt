-- ===== src/Package/Database.antt =====
-- sonic_package_manager/database.py
pub mod Invariant
pub mod Refinement
pub mod File
use mathlib.Core.Option
use sonic_utility.Base.{
  String, Bool, true, false, Option, none, some, List, [], ◌∷◌, ◌≡◌, refl, if◌then◌else◌, is_some,
  get_or,
}
use sonic_utility.Base.Dict.{Dict, lookup, insert, remove}
use sonic_utility.Base.Result.{Result, ok, err}
use sonic_utility.Base.Exec.{Exec, pure, raise, ◌>>=◌, ◌>>◌}
use sonic_utility.Base.Text.{is_empty}
use sonic_utility.Package.Semver.{Semver}
use sonic_utility.Package.Model.{PackageEntry}
use sonic_utility.Package.Errors.{
  Error, package_manager_error, package_not_found, package_already_exists, value_error,
  system_error,
}

-- One package of packages.json. A key that is missing, or null, is `none`.
pub record PackageInfo : Type 0 where
  pub repository : Option String
  pub description : Option String
  pub default_reference : Option String
  pub installed_version : Option String
  pub installed : Option Bool
  pub built_in : Option Bool
  pub image_id : Option String

-- What packages.json holds: the entries, or what a writing that raised has left of the file.
pub data Content : Type 0 where
  json : Dict PackageInfo → Content
  broken : Content

-- How a writing goes: to the end; the file cannot be opened and stays as it is; or it raises after
-- the file was opened, and so emptied.
pub data Writing : Type 0 where
  done not_opened cut_short : Writing

module _ (sv : Semver) where
  open sv use {Version, parse_version, version_text}

  -- `if version: version = Version.parse(version)`. The empty text, which the program never
  -- writes, is read as no version.
  abbrev pub parse_installed : Option String → Result (Error sv) (Option Version)
  parse_installed none = ok none
  parse_installed (some text) =
      if is_empty text
      then ok none
      else elim (parse_version text) [ none ↦ err value_error | some v ↦ ok (some v) ]

  abbrev entry_of :
      String
      → PackageInfo
      → Result (Error sv) (Option Version)
      → Result (Error sv) (PackageEntry sv)
  entry_of name info (err e) = err e
  entry_of name info (ok version) = ok (record {
    name = name;
    repository = info.repository;
    description = info.description;
    default_reference = info.default_reference;
    version = version;
    installed = get_or info.installed false;
    built_in = get_or info.built_in false;
    image_id = info.image_id;
  })

  unfoldable pub package_from_dict : String → PackageInfo → Result (Error sv) (PackageEntry sv)
  package_from_dict name info = entry_of name info (parse_installed info.installed_version)

  unfoldable pub package_to_dict : PackageEntry sv → PackageInfo
  package_to_dict p = record {
    repository = p.repository;
    description = p.description;
    default_reference = p.default_reference;
    installed_version = Option.map version_text p.version;
    installed = some p.installed;
    built_in = some p.built_in;
    image_id = p.image_id;
  }

  -- `file` is what packages.json holds after the last commit; `none` means that the database
  -- was made with no `on_save`.
  pub record Database : Type 0 where
    pub packages : Dict (PackageEntry sv)
    pub file : Option Content

  abbrev pub Action : Type 0 → Type 0
  Action A = Exec Database (Error sv) A

  unfoldable pub get_package : String → Action (PackageEntry sv)
  get_package name db = elim (lookup name db.packages) [
    | none ↦ (err (package_not_found name), db)
    | some pkg ↦ (ok pkg, db)
  ]

  -- The only exception of `get_package` is the one that is caught.
  unfoldable pub has_package : String → Database → Bool
  has_package name db = elim (get_package name db).0 [ ok pkg ↦ true | err e ↦ false ]

  abbrev pub new_entry : String → Option String → Option String → Option String → PackageEntry sv
  new_entry name repository description default_reference = record {
    name = name;
    repository = repository;
    description = description;
    default_reference = default_reference;
    version = none;
    installed = false;
    built_in = false;
    image_id = none;
  }

  -- self._database[name] = package
  abbrev pub store : String → PackageEntry sv → Action Unit
  store name p db = (ok tt, record db { packages = insert name p db.packages })

  unfoldable pub add_package : String → Option String → Option String → Option String → Action Unit
  unfolding has_package get_package
  add_package name repository description default_reference db =
      if has_package name db
      then (err (package_already_exists name), db)
      else store name (new_entry name repository description default_reference) db

  unfoldable pub remove_package : String → Action Unit
  unfolding get_package
  remove_package name = do
    pkg ← get_package name
    if pkg.built_in
        then raise package_manager_error
        else if pkg.installed
        then raise package_manager_error
        else λ db. (ok tt, record db { packages = remove name db.packages })

  unfoldable pub update_package : PackageEntry sv → Action Unit
  unfolding has_package get_package
  update_package pkg db =
      if has_package pkg.name db
      then store pkg.name pkg db
      else (err (package_not_found pkg.name), db)

  -- `__iter__`: a lookup for each key, in order.
  abbrev pub found : Dict (PackageEntry sv) → Dict (PackageEntry sv) → List (PackageEntry sv)
  found d [] = []
  found d ((name, _) ∷ rest) = elim (lookup name d) [
    | none ↦ found d rest
    | some pkg ↦ pkg ∷ found d rest
  ]

  unfoldable pub iterate : Database → List (PackageEntry sv)
  iterate db = found db.packages db.packages

  -- The dictionary that `on_save` writes.
  unfoldable pub database_to_dict : Dict (PackageEntry sv) → Dict PackageInfo
  unfolding package_to_dict
  database_to_dict [] = []
  database_to_dict ((name, p) ∷ rest) = (name, package_to_dict p) ∷ database_to_dict rest

  abbrev on_save : Writing → Database → Result (Error sv) (Unit {0}) × Database
  on_save done db = (ok tt, record db { file = some (json (database_to_dict db.packages)) })
  on_save not_opened db = (err system_error, db)
  on_save cut_short db = (err system_error, record db { file = some broken })

  unfoldable pub commit : Writing → Action Unit
  unfolding database_to_dict
  commit writing db = elim db.file [ none ↦ (ok tt, db) | some _ ↦ on_save writing db ]
