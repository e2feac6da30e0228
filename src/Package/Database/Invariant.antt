-- ===== src/Package/Database/Invariant.antt =====
-- database.py: the well-formedness of a database, and the calls that change one.
use sonic_utility.Base.{String, Option, ◌≡◌, refl, sym, subst, arith}
use sonic_utility.Base.Dict.{
  Dict, insert, remove, IsUnique, IsUnique-insert, IsUnique-remove, Entries, Entries-insert,
  Entries-remove, Entries-lookup,
}
use sonic_utility.Base.Result.{ok}
use sonic_utility.Base.Exec.{◌>>=◌}
use sonic_utility.Package.Semver.{Semver}
use sonic_utility.Package.Model.{PackageEntry}
use sonic_utility.Package.Database.{
  Database, Writing, done, not_opened, cut_short, Action, new_entry, get_package, add_package,
  remove_package, update_package, commit,
}

module _ (sv : Semver) where
  abbrev pub Keyed : Dict (PackageEntry sv) → Type 0
  Keyed = Entries (λ k p. p.name ≡ k)

  pub record IsValid (db : Database sv) : Type 0 where
    pub keyed : Keyed db.packages
    pub unique : IsUnique db.packages

  -- The calls that change a database.
  pub data Operation : Type 0 where
    add : String → Option String → Option String → Option String → Operation
    delete : String → Operation
    update : PackageEntry sv → Operation
    save : Writing → Operation

  abbrev pub perform : Operation → Action sv Unit
  perform (add name repository description default_reference) =
      add_package sv name repository description default_reference
  perform (delete name) = remove_package sv name
  perform (update pkg) = update_package sv pkg
  perform (save writing) = commit sv writing

  insert-IsValid :
      (p : PackageEntry sv) (db : Database sv)
      → IsValid db
      → IsValid (record db { packages = insert p.name p db.packages })
  insert-IsValid p db v = record {
    keyed =
        Entries-insert (λ k (q : PackageEntry sv). q.name ≡ k) p.name p db.packages refl v.keyed;
    unique = IsUnique-insert p.name p db.packages v.unique;
  }

  remove-IsValid :
      (name : String) (db : Database sv)
      → IsValid db
      → IsValid (record db { packages = remove name db.packages })
  remove-IsValid name db v = record {
    keyed = Entries-remove (λ k (q : PackageEntry sv). q.name ≡ k) name db.packages v.keyed;
    unique = IsUnique-remove name db.packages v.unique;
  }

  -- A commit leaves the entries, whether it is written or raises.
  pub saved-packages :
      (writing : Writing) (db : Database sv) → (commit sv writing db).1.packages ≡ db.packages
  unfolding commit
  saved-packages done db = ground arith
  saved-packages not_opened db = ground arith
  saved-packages cut_short db = ground arith

  -- Every operation, also one that raises, leaves each entry under its own name and no name twice.
  pub perform-IsValid : (o : Operation) (db : Database sv) → IsValid db → IsValid (perform o db).1
  unfolding add_package remove_package update_package commit ◌>>=◌
  perform-IsValid (add name repository description default_reference) db v =
      ground
        (arith, insert-IsValid (new_entry sv name repository description default_reference) db v)
  perform-IsValid (delete name) db v = ground (arith, remove-IsValid name db v)
  perform-IsValid (update pkg) db v = ground (arith, insert-IsValid pkg db v)
  perform-IsValid (save writing) db v =
      let same = saved-packages writing db in
      record { keyed = subst Keyed (sym same) v.keyed; unique = subst IsUnique (sym same) v.unique }

  -- What `get_package` returns has the name that was asked for.
  pub name-get_package :
      (name : String) (db : Database sv) (p : PackageEntry sv)
      → IsValid db
      → (get_package sv name db).0 ≡ ok p
      → p.name ≡ name
  unfolding get_package
  name-get_package name db p v e =
      Entries-lookup (λ k (q : PackageEntry sv). q.name ≡ k) name db.packages {v = p} v.keyed
        (ground arith)
