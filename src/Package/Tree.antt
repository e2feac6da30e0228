-- ===== src/Package/Tree.antt =====
-- The validation of packages in sonic_package_manager/manager.py.
pub mod Consistent
pub mod Versions
use Prim.Native.String.{◌++◌ as str_append}
use sonic_utility.Base.{
  String, Bool, true, false, ◌&&◌, not, Option, none, some, List, [], ◌∷◌, ◌≡◌, refl, if◌then◌else◌,
  is_nil,
}
use sonic_utility.Base.Dict.{Dict, lookup, has_key}
use sonic_utility.Base.Result.{Result, ok, err, guard, ◌>>=◌, ◌>>◌}
use sonic_utility.Base.Text.{show_nat}
use sonic_utility.Package.Semver.{Semver}
use sonic_utility.Package.Model.{Package, PackageConstraint}
use sonic_utility.Package.Errors.{
  Error, sonic_requirement_error, dependency_error, component_dependency_error, conflict_error,
  component_conflict_error, package_manager_error, value_error, attribute_error,
}
use sonic_utility.Package.Constraint.{parse_constraint}

module _ (sv : Semver) where
  open sv use {Version, Spec, major, minor, parse_version, match_spec}

  abbrev pub Check : Type 0
  Check = Result (Error sv) (Unit {0})

  -- VersionConstraint.allows reads `version._version`, which `None` does not have.
  unfoldable pub allows : Spec → Option Version → Result (Error sv) Bool
  allows c none = err attribute_error
  allows c (some v) = ok (match_spec c v)

  abbrev check_base_os_version : String → String → Spec → Version → Check
  check_base_os_version name component c v =
      guard (match_spec c v) (sonic_requirement_error name component c (some v))

  -- One round of the loop: the component must be there, and its version must be allowed.
  unfoldable pub check_base_os : String → Dict String → String → Spec → Check
  check_base_os name info component c = elim (lookup component info) [
    | none ↦ err (sonic_requirement_error name component c none)
    | some text ↦ elim (parse_version text) [
      | none ↦ err value_error
      | some v ↦ check_base_os_version name component c v
    ]
  ]

  unfoldable pub check_base_os_all : String → Dict String → Dict Spec → Check
  unfolding check_base_os
  check_base_os_all name info [] = ok tt
  check_base_os_all name info ((component, c) ∷ rest) =
      check_base_os name info component c >> check_base_os_all name info rest

  unfoldable pub validate_package_base_os_constraints : Package sv → Dict String → Check
  unfolding check_base_os_all
  validate_package_base_os_constraints p info =
      check_base_os_all p.entry.name info p.metadata.manifest.package_table.base_os

  -- VersionConstraint.parse(f'^{version.major}.{version.minor}.0')
  unfoldable pub implicit_constraint : Version → Result (Error sv) Spec
  unfolding show_nat parse_constraint
  implicit_constraint v = parse_constraint sv (
      str_append "^"
        (str_append (show_nat (major v)) (str_append "." (str_append (show_nat (minor v)) ".0"))))

  unfoldable pub implicit_constraints : Dict Version → Result (Error sv) (Dict Spec)
  implicit_constraints [] = ok []
  implicit_constraints ((component, v) ∷ rest) = do
    c ← implicit_constraint v
    cs ← implicit_constraints rest
    ok ((component, c) ∷ cs)

  -- The component constraints of a dependency; a dependency with none requires the components of
  -- the depending package, at versions compatible with its own.
  unfoldable pub required_components :
      Package sv → PackageConstraint sv → Result (Error sv) (Dict Spec)
  required_components p d =
      if is_nil d.components then implicit_constraints p.metadata.components else ok d.components

  unfoldable pub check_components :
      Package sv → PackageConstraint sv → Dict Version → Dict Spec → Check
  check_components p d installed [] = ok tt
  check_components p d installed ((component, c) ∷ rest) = elim (lookup component installed) [
    | none ↦ err (component_dependency_error p.entry.name d component c none)
    | some v ↦
        guard (match_spec c v) (component_dependency_error p.entry.name d component c (some v))
        >> check_components p d installed rest
  ]

  -- One round of the loop over `depends`.
  unfoldable pub check_dependency : Dict (Package sv) → Package sv → PackageConstraint sv → Check
  unfolding allows check_components required_components
  check_dependency packages p d = elim (lookup d.name packages) [
    | none ↦ err (dependency_error p.entry.name d none)
    | some q ↦ do
      allowed ← allows d.constraint q.entry.version
      guard allowed (dependency_error p.entry.name d q.entry.version)
      required ← required_components p d
      check_components p d q.metadata.components required
  ]

  unfoldable pub check_depends :
      Dict (Package sv) → Package sv → List (PackageConstraint sv) → Check
  unfolding check_dependency
  check_depends packages p [] = ok tt
  check_depends packages p (d ∷ ds) = check_dependency packages p d >> check_depends packages p ds

  -- `constraint.allows(…)` on a `Version`, a class that has no `allows`.
  unfoldable pub version_allows : Version → Version → Result (Error sv) Bool
  version_allows c v = err attribute_error

  -- The loop over the components of the conflicting package: what it calls `constraint` is a
  -- version. The error that would follow names the `dependency` of the loop above.
  unfoldable pub check_conflict_components :
      Package sv → PackageConstraint sv → Dict Version → Dict Version → Check
  unfolding version_allows
  check_conflict_components p b installed [] = ok tt
  check_conflict_components p b installed ((component, c) ∷ rest) =
      elim (lookup component installed) [
        | none ↦ check_conflict_components p b installed rest
        | some v ↦ do
          allowed ← version_allows c v
          guard (not allowed) (component_conflict_error p.entry.name b component v)
          check_conflict_components p b installed rest
      ]

  -- One round of the loop over `breaks`.
  unfoldable pub check_conflict : Dict (Package sv) → Package sv → PackageConstraint sv → Check
  unfolding allows check_conflict_components
  check_conflict packages p b = elim (lookup b.name packages) [
    | none ↦ ok tt
    | some q ↦ do
      allowed ← allows b.constraint q.entry.version
      guard (not allowed) (conflict_error p.entry.name b q.entry.version)
      check_conflict_components p b q.metadata.components q.metadata.components
  ]

  unfoldable pub check_breaks : Dict (Package sv) → Package sv → List (PackageConstraint sv) → Check
  unfolding check_conflict
  check_breaks packages p [] = ok tt
  check_breaks packages p (b ∷ bs) = check_conflict packages p b >> check_breaks packages p bs

  unfoldable pub check_package : Dict (Package sv) → Package sv → Check
  unfolding check_depends check_breaks
  check_package packages p =
      check_depends packages p p.metadata.manifest.package_table.depends
      >> check_breaks packages p p.metadata.manifest.package_table.breaks

  unfoldable pub check_each : Dict (Package sv) → Dict (Package sv) → Check
  unfolding check_package
  check_each packages [] = ok tt
  check_each packages ((name, p) ∷ rest) = check_package packages p >> check_each packages rest

  unfoldable pub validate_package_tree : Dict (Package sv) → Check
  unfolding check_each
  validate_package_tree packages = check_each packages packages

  unfoldable pub validate_package_cli_can_be_skipped : Package sv → Bool → Check
  validate_package_cli_can_be_skipped p skip =
      if p.metadata.manifest.cli.mandatory && skip then err package_manager_error else ok tt
