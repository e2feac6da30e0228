-- ===== src/Package/Constraint.antt =====
-- sonic_package_manager/constraint.py
pub mod RoundTrip
use sonic_utility.Base.{
  String, Bool, true, false, ◌&&◌, Option, none, some, List, [], ◌∷◌, ◌≡◌, refl, if◌then◌else◌,
  is_some, arith,
}
use sonic_utility.Base.Dict.{Dict, lookup}
use sonic_utility.Base.Result.{Result, ok, err, ◌>>=◌}
use sonic_utility.Base.Text.{is_empty, span_name, first_line}
use sonic_utility.Package.Semver.{Semver}
use sonic_utility.Package.Model.{PackageConstraint}
use sonic_utility.Package.Errors.{Error, value_error, attribute_error, key_error}

module _ (sv : Semver) where
  open sv use {Version, Spec, parse_spec, target, is_equality, spec_text}

  -- VersionConstraint.parse
  unfoldable pub parse_constraint : String → Result (Error sv) Spec
  parse_constraint text = elim (parse_spec text) [ none ↦ err value_error | some c ↦ ok c ]

  -- VersionConstraint.is_exact
  unfoldable pub is_exact : Spec → Bool
  is_exact c = is_some (target c) && is_equality c

  -- VersionConstraint.get_exact_version, which does not look at the operator
  unfoldable pub get_exact_version : Spec → Result (Error sv) Version
  get_exact_version c = elim (target c) [ none ↦ err attribute_error | some v ↦ ok v ]

  -- ComponentConstraints.parse
  unfoldable pub parse_components : Dict String → Result (Error sv) (Dict Spec)
  unfolding parse_constraint
  parse_components [] = ok []
  parse_components ((component, version) ∷ rest) = do
    c ← parse_constraint version
    cs ← parse_components rest
    ok ((component, c) ∷ cs)

  -- ComponentConstraints.deparse
  unfoldable pub deparse_components : Dict Spec → Dict String
  deparse_components [] = []
  deparse_components ((component, c) ∷ rest) = (component, spec_text c) ∷ deparse_components rest

  -- `x or '*'`
  abbrev or_any : String → String
  or_any text = if is_empty text then "*" else text

  -- PackageConstraint.from_string: the regular expression matches a name of at least one
  -- character and then the rest of the line.
  unfoldable pub from_string : String → Result (Error sv) (PackageConstraint sv)
  unfolding parse_constraint span_name first_line
  from_string text =
      let (name, rest) = span_name text in
      if is_empty name then err value_error else do
        c ← parse_constraint (or_any (first_line rest))
        ok (record { name = name; constraint = c; components = [] })

  -- The dictionary form of a constraint, as JSON gives it; a missing key is `none`.
  pub record ConstraintDict : Type 0 where
    pub name : Option String
    pub version : Option String
    pub components : Option (Dict String)

  abbrev version_or_any : Option String → String
  version_or_any none = "*"
  version_or_any (some text) = or_any text

  abbrev components_or_empty : Option (Dict String) → Dict String
  components_or_empty none = []
  components_or_empty (some d) = d

  abbrev required_name : Option String → Result (Error sv) String
  required_name none = err key_error
  required_name (some name) = ok name

  -- PackageConstraint.from_dict
  unfoldable pub from_dict : ConstraintDict → Result (Error sv) (PackageConstraint sv)
  unfolding parse_constraint parse_components
  from_dict d = do
    name ← required_name d.name
    version ← parse_constraint (version_or_any d.version)
    components ← parse_components (components_or_empty d.components)
    ok (record { name = name; constraint = version; components = components })

  -- PackageConstraint.parse: a `str`, a `dict`, or a value of another type.
  pub data ConstraintSource : Type 0 where
    text : String → ConstraintSource
    dict : ConstraintDict → ConstraintSource
    other : ConstraintSource

  unfoldable pub parse : ConstraintSource → Result (Error sv) (PackageConstraint sv)
  unfolding from_string from_dict
  parse (text s) = from_string s
  parse (dict d) = from_dict d
  parse other = err value_error

  -- PackageConstraint.deparse
  unfoldable pub deparse : PackageConstraint sv → ConstraintDict
  unfolding deparse_components
  deparse p = record {
    name = some p.name;
    version = some (spec_text p.constraint);
    components = some (deparse_components p.components);
  }
