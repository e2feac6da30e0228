-- ===== src/Package/Tree/Consistent.antt =====
-- `validate_package_tree` against the declarative meaning of `depends` and `breaks`.
use sonic_utility.Base.{
  if◌then◌else◌, is_nil, true, false, none, some, List, [], ◌∷◌, ◌≡◌, ◌⊎◌, ◌↔◌, inl, inr, refl,
  arith, eq_refl, All, Option-cases,
}
use sonic_utility.Base.Dict.{Dict, lookup, Entries}
use sonic_utility.Base.Result.{ok, Result-cases}
use sonic_utility.Package.Semver.{Semver}
use sonic_utility.Package.Model.{Package, PackageConstraint}
use sonic_utility.Package.Tree.{
  required_components, implicit_constraints, check_components, check_dependency, check_depends,
  check_conflict_components, check_conflict, check_breaks, check_package, check_each,
  validate_package_tree, version_allows,
}

module _ (sv : Semver) where
  open sv use {Version, Spec, match_spec}

  -- Each required component is there, at a version that its constraint allows.
  abbrev pub HasComponents : Dict Version → Dict Spec → Type 0
  HasComponents installed = Entries (λ component c.
      (v : Version) × (lookup component installed ≡ some v) × (match_spec c v ≡ true))

  -- The package of the dependency is there, with a version that is allowed and the components that
  -- are required.
  pub record IsMet (packages : Dict (Package sv)) (p : Package sv) (d : PackageConstraint sv)
      : Type 0 where
    pub found : Package sv
    pub found_at : lookup d.name packages ≡ some found
    pub version : Version
    pub version_of : found.entry.version ≡ some version
    pub allowed : match_spec d.constraint version ≡ true
    pub required : Dict Spec
    -- the constraints of the dependency; where it has none, one for each component of `p`
    pub required_of :
        (if is_nil d.components
          then implicit_constraints sv p.metadata.components
          else ok d.components)
        ≡ ok required
    pub components : HasComponents found.metadata.components required

  -- The package of the conflict is not there, or it has a version outside the conflict and no
  -- components.
  abbrev pub IsAvoided : Dict (Package sv) → PackageConstraint sv → Type 0
  IsAvoided packages b =
      (lookup b.name packages ≡ none)
      ⊎ ((q : Package sv) × (lookup b.name packages ≡ some q)
          × ((v : Version) × (q.entry.version ≡ some v) × (match_spec b.constraint v ≡ false))
          × (q.metadata.components ≡ []))

  pub record IsConsistent (packages : Dict (Package sv)) (p : Package sv) : Type 0 where
    pub depends : All (IsMet packages p) p.metadata.manifest.package_table.depends
    pub breaks : All (IsAvoided packages) p.metadata.manifest.package_table.breaks

  components_sound :
      (p : Package sv) (d : PackageConstraint sv) (installed : Dict Version) (cs : Dict Spec)
      → check_components sv p d installed cs ≡ ok tt
      → HasComponents installed cs
  unfolding check_components
  components_sound p d installed [] h = tt
  components_sound p d installed ((component, c) ∷ cs) h =
      elim (Option-cases (lookup component installed)) [
        | inl e ↦ ground arith
        | inr (v, e) ↦ ((v, e, ground arith), components_sound p d installed cs (ground arith))
      ]

  components_complete :
      (p : Package sv) (d : PackageConstraint sv) (installed : Dict Version) (cs : Dict Spec)
      → HasComponents installed cs
      → check_components sv p d installed cs ≡ ok tt
  unfolding check_components
  components_complete p d installed [] h = refl
  components_complete p d installed ((component, c) ∷ cs) h =
      ground (arith, components_complete p d installed cs h.1)

  dependency_sound :
      (packages : Dict (Package sv)) (p : Package sv) (d : PackageConstraint sv)
      → check_dependency sv packages p d ≡ ok tt
      → IsMet packages p d
  unfolding check_dependency required_components
  dependency_sound packages p d h = elim (Option-cases (lookup d.name packages)) [
    | inl e ↦ ground arith
    | inr (q, e) ↦ elim (Option-cases q.entry.version) [
      | inl ev ↦ ground arith
      | inr (v, ev) ↦ elim (Result-cases (required_components sv p d)) [
        | inr (x, er) ↦ ground arith
        | inl (cs, er) ↦ record {
          found = q;
          found_at = e;
          version = v;
          version_of = ev;
          allowed = ground arith;
          required = cs;
          required_of = er;
          components = components_sound p d q.metadata.components cs (ground arith);
        }
      ]
    ]
  ]

  dependency_complete :
      (packages : Dict (Package sv)) (p : Package sv) (d : PackageConstraint sv)
      → IsMet packages p d
      → check_dependency sv packages p d ≡ ok tt
  unfolding check_dependency required_components
  dependency_complete packages p d m =
      ground (arith, components_complete p d m.found.metadata.components m.required)

  depends_iff :
      (packages : Dict (Package sv)) (p : Package sv) (ds : List (PackageConstraint sv))
      → (check_depends sv packages p ds ≡ ok tt) ↔ All (IsMet packages p) ds
  unfolding check_depends
  depends_iff packages p [] = (λ _. tt, λ _. refl)
  depends_iff packages p (d ∷ ds) = (
    λ h. (
      dependency_sound packages p d (ground arith),
      (depends_iff packages p ds).0 (ground arith),
    ),
    λ m. ground (arith, dependency_complete packages p d m.0, (depends_iff packages p ds).1 m.1),
  )

  -- A component that stands among the components raises, so none may be there.
  conflict_components_nil :
      (p : Package sv) (b : PackageConstraint sv) (cs : Dict Version)
      → check_conflict_components sv p b cs cs ≡ ok tt
      → cs ≡ []
  unfolding check_conflict_components version_allows lookup
  conflict_components_nil p b [] h = refl
  conflict_components_nil p b ((component, c) ∷ cs) h = ground (arith, eq_refl component)

  conflict_sound :
      (packages : Dict (Package sv)) (p : Package sv) (b : PackageConstraint sv)
      → check_conflict sv packages p b ≡ ok tt
      → IsAvoided packages b
  unfolding check_conflict
  conflict_sound packages p b h = elim (Option-cases (lookup b.name packages)) [
    | inl e ↦ inl e
    | inr (q, e) ↦ elim (Option-cases q.entry.version) [
      | inl ev ↦ ground arith
      | inr (v, ev) ↦ inr (
        q,
        e,
        (v, ev, ground arith),
        conflict_components_nil p b q.metadata.components (ground arith),
      )
    ]
  ]

  conflict_complete :
      (packages : Dict (Package sv)) (p : Package sv) (b : PackageConstraint sv)
      → IsAvoided packages b
      → check_conflict sv packages p b ≡ ok tt
  unfolding check_conflict
  conflict_complete packages p b (inl e) = ground arith
  conflict_complete packages p b (inr (q, e, (v, ev, outside), bare)) = ground arith

  breaks_iff :
      (packages : Dict (Package sv)) (p : Package sv) (bs : List (PackageConstraint sv))
      → (check_breaks sv packages p bs ≡ ok tt) ↔ All (IsAvoided packages) bs
  unfolding check_breaks
  breaks_iff packages p [] = (λ _. tt, λ _. refl)
  breaks_iff packages p (b ∷ bs) = (
    λ h. (conflict_sound packages p b (ground arith), (breaks_iff packages p bs).0 (ground arith)),
    λ m. ground (arith, conflict_complete packages p b m.0, (breaks_iff packages p bs).1 m.1),
  )

  package_iff :
      (packages : Dict (Package sv)) (p : Package sv)
      → (check_package sv packages p ≡ ok tt) ↔ IsConsistent packages p
  unfolding check_package
  package_iff packages p = (
    λ h. record {
      depends = (depends_iff packages p p.metadata.manifest.package_table.depends).0 (ground arith);
      breaks = (breaks_iff packages p p.metadata.manifest.package_table.breaks).0 (ground arith);
    },
    λ c. ground (
      arith,
      (depends_iff packages p p.metadata.manifest.package_table.depends).1 c.depends,
      (breaks_iff packages p p.metadata.manifest.package_table.breaks).1 c.breaks,
    ),
  )

  each_iff :
      (packages ps : Dict (Package sv))
      → (check_each sv packages ps ≡ ok tt) ↔ Entries (λ _ p. IsConsistent packages p) ps
  unfolding check_each
  each_iff packages [] = (λ _. tt, λ _. refl)
  each_iff packages ((name, p) ∷ ps) = (
    λ h. ((package_iff packages p).0 (ground arith), (each_iff packages ps).0 (ground arith)),
    λ c. ground (arith, (package_iff packages p).1 c.0, (each_iff packages ps).1 c.1),
  )

  -- The validation passes exactly when every package has each of its dependencies, at an allowed
  -- version and with the required components, and none of its conflicts, where a conflicting
  -- package that is there must have another version and no components at all.
  pub validate_package_tree_iff :
      (packages : Dict (Package sv))
      → (validate_package_tree sv packages ≡ ok tt)
        ↔ Entries (λ _ p. IsConsistent packages p) packages
  unfolding validate_package_tree
  validate_package_tree_iff packages = each_iff packages packages
