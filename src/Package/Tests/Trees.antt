-- ===== src/Package/Tests/Trees.antt =====
-- The validation of sample packages.
use sonic_utility.Base.{String, none, [], ◌∷◌, ◌≡◌, ◌↔◌, refl}
use sonic_utility.Base.Dict.{Dict, lookup, Entries}
use sonic_utility.Base.Result.{ok, err}
use sonic_utility.Package.Errors.{dependency_error, attribute_error}
use sonic_utility.Package.Model.{Package}
use sonic_utility.Package.Tree.{check_conflict, implicit_constraints, validate_package_tree}
use sonic_utility.Package.Tree.Consistent.{IsConsistent, validate_package_tree_iff}
use sonic_utility.Package.Tree.Versions.{reversion_all, validate_package_tree-reversion_all}
use sonic_utility.Package.Tests.Samples.{
  releases, first, next, exactly, compatible, constraint_on, agent, router, metadata_of, Release,
}

abbrev installed : Dict (Package releases)
installed = ("agent", agent) ∷ ("router", router) ∷ []

installed_validates : validate_package_tree releases installed ≡ ok tt
unfolding validate_package_tree lookup implicit_constraints
installed_validates = refl

router_alone :
    validate_package_tree releases (("router", router) ∷ [])
    ≡ err (dependency_error "router" (constraint_on "agent" (compatible first)) none)
unfolding validate_package_tree lookup
router_alone = refl

validate_package_tree_iff_example :
    (validate_package_tree releases installed ≡ ok tt)
    ↔ Entries (λ _ p. IsConsistent releases installed p) installed
validate_package_tree_iff_example = validate_package_tree_iff releases installed

-- The new manifest of `agent`, an incompatible release, passes in place of the old one.
abbrev upgraded : String → Release
upgraded name = next

validate_package_tree-reversion_all_example :
    validate_package_tree releases (reversion_all releases upgraded installed)
    ≡ validate_package_tree releases installed
validate_package_tree-reversion_all_example =
    validate_package_tree-reversion_all releases upgraded installed

-- `agent` with a component.
abbrev with_component : Package releases
with_component = record {
  entry = agent.entry;
  metadata = metadata_of "agent" first [] [] (("libagent", first) ∷ []);
}

-- A conflict with a package that has a component raises, whatever the versions.
check_conflict_raises :
    check_conflict releases
      (("agent", with_component) ∷ [])
      router
      (constraint_on "agent" (exactly next))
    ≡ err attribute_error
unfolding check_conflict lookup
check_conflict_raises = refl
