-- ===== src/Package/Tree/Versions.antt =====
-- manager.py: which version of a package `validate_package_tree` looks at.
use mathlib.Core.Option
use sonic_utility.Base.{eq_iff, String, List, [], ◌∷◌, ◌≡◌, refl, arith}
use sonic_utility.Base.Dict.{Dict, lookup}
use sonic_utility.Package.Semver.{Semver}
use sonic_utility.Package.Model.{Package, PackageConstraint}
use sonic_utility.Package.Tree.{
  check_dependency, check_depends, check_conflict, check_breaks, check_package, check_each,
  validate_package_tree,
}

module _ (sv : Semver) where
  open sv use {Version}

  -- The package with another version in its manifest.
  abbrev pub reversion : Version → Package sv → Package sv
  reversion v p = record p {
    metadata = record p.metadata {
      manifest = record p.metadata.manifest {
        package_table = record p.metadata.manifest.package_table { version = v };
      };
    };
  }

  abbrev pub reversion_all : (String → Version) → Dict (Package sv) → Dict (Package sv)
  reversion_all vs [] = []
  reversion_all vs ((name, p) ∷ d) = (name, reversion (vs name) p) ∷ reversion_all vs d

  lookup-reversion_all :
      (vs : String → Version) (name : String) (d : Dict (Package sv))
      → lookup name (reversion_all vs d) ≡ Option.map (reversion (vs name)) (lookup name d)
  unfolding lookup
  lookup-reversion_all vs name [] = refl
  lookup-reversion_all vs name ((k, p) ∷ d) =
      let rest = lookup-reversion_all vs name d in ground (arith, eq_iff k name, rest)

  check_dependency-reversion :
      (vs : String → Version) (v : Version) (d : Dict (Package sv)) (p : Package sv)
      (c : PackageConstraint sv)
      → check_dependency sv (reversion_all vs d) (reversion v p) c ≡ check_dependency sv d p c
  unfolding check_dependency
  check_dependency-reversion vs v d p c = ground (arith, lookup-reversion_all vs c.name d)

  check_conflict-reversion :
      (vs : String → Version) (v : Version) (d : Dict (Package sv)) (p : Package sv)
      (c : PackageConstraint sv)
      → check_conflict sv (reversion_all vs d) (reversion v p) c ≡ check_conflict sv d p c
  unfolding check_conflict
  check_conflict-reversion vs v d p c = ground (arith, lookup-reversion_all vs c.name d)

  check_depends-reversion :
      (vs : String → Version) (v : Version) (d : Dict (Package sv)) (p : Package sv)
      (cs : List (PackageConstraint sv))
      → check_depends sv (reversion_all vs d) (reversion v p) cs ≡ check_depends sv d p cs
  unfolding check_depends
  check_depends-reversion vs v d p [] = refl
  check_depends-reversion vs v d p (c ∷ cs) =
      rw (check_dependency-reversion vs v d p c, check_depends-reversion vs v d p cs) refl

  check_breaks-reversion :
      (vs : String → Version) (v : Version) (d : Dict (Package sv)) (p : Package sv)
      (cs : List (PackageConstraint sv))
      → check_breaks sv (reversion_all vs d) (reversion v p) cs ≡ check_breaks sv d p cs
  unfolding check_breaks
  check_breaks-reversion vs v d p [] = refl
  check_breaks-reversion vs v d p (c ∷ cs) =
      rw (check_conflict-reversion vs v d p c, check_breaks-reversion vs v d p cs) refl

  check_package-reversion :
      (vs : String → Version) (v : Version) (d : Dict (Package sv)) (p : Package sv)
      → check_package sv (reversion_all vs d) (reversion v p) ≡ check_package sv d p
  unfolding check_package
  check_package-reversion vs v d p =
      rw
        (
          check_depends-reversion vs v d p p.metadata.manifest.package_table.depends,
          check_breaks-reversion vs v d p p.metadata.manifest.package_table.breaks,
        )
        refl

  check_each-reversion :
      (vs : String → Version) (d rest : Dict (Package sv))
      → check_each sv (reversion_all vs d) (reversion_all vs rest) ≡ check_each sv d rest
  unfolding check_each
  check_each-reversion vs d [] = refl
  check_each-reversion vs d ((name, p) ∷ rest) =
      rw (check_package-reversion vs (vs name) d p, check_each-reversion vs d rest) refl

  -- The result of the validation does not depend on the versions in the manifests of the packages:
  -- whatever versions they are given there, validate_package_tree gives the same result.
  pub validate_package_tree-reversion_all :
      (vs : String → Version) (d : Dict (Package sv))
      → validate_package_tree sv (reversion_all vs d) ≡ validate_package_tree sv d
  unfolding validate_package_tree
  validate_package_tree-reversion_all vs d = check_each-reversion vs d d
