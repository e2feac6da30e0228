-- ===== src/Package/Reference.antt =====
-- sonic_package_manager/reference.py, and the parsing of package expressions in manager.py.
use Prim.Native.Char.{code}
use Prim.Native.String.{◌++◌ as str_append}
use text.Mathlib.TextLemmas.{nil-append, cons-append}
use sonic_utility.Base.{
  String, false, not, Option, none, some, ◌≡◌, refl, ap, ◌∙◌, ◌==◌, if◌then◌else◌, nat_eq, arith,
}
use sonic_utility.Base.Result.{Result, ok, err, ◌>>=◌}
use sonic_utility.Base.Text.{is_empty, span_name, first_line, is_name_char}
use sonic_utility.Package.Semver.{Semver}
use sonic_utility.Package.Version.{version_to_tag}
use sonic_utility.Package.Model.{PackageConstraint}
use sonic_utility.Package.Errors.{Error, package_manager_error, value_error}
use sonic_utility.Package.Constraint.{from_string, is_exact, get_exact_version, parse_constraint}
use sonic_utility.Package.Constraint.RoundTrip.{IsName, span_name-append}

pub record PackageReference : Type 0 where
  pub name : String
  pub reference : Option String

module _ (sv : Semver) where
  -- The part of the regular expression behind the name: `@` and the rest of the line.
  unfoldable pub parse_at : String → String → Result (Error sv) PackageReference
  unfolding first_line
  parse_at name String.[] = err value_error
  parse_at name (String.◌∷◌ c rest) =
      if nat_eq (code c) b'@'
      then ok (record { name = name; reference = some (first_line rest) })
      else err value_error

  -- PackageReference.parse
  unfoldable pub parse_reference : String → Result (Error sv) PackageReference
  unfolding span_name parse_at
  parse_reference expression =
      let (name, rest) = span_name expression in
      if is_empty name then err value_error else parse_at name rest

  unfoldable pub package_constraint_to_reference :
      PackageConstraint sv → Result (Error sv) PackageReference
  unfolding is_exact get_exact_version version_to_tag
  package_constraint_to_reference p =
      if sv.expression p.constraint == "*"
      then ok (record { name = p.name; reference = none })
      else if not (is_exact sv p.constraint)
      then err package_manager_error
      else do
        version ← get_exact_version sv p.constraint
        ok (record { name = p.name; reference = some (version_to_tag sv version) })

  -- `except ValueError`: the expression is read as a reference instead.
  abbrev on_value_error :
      Result (Error sv) PackageReference
      → Result (Error sv) PackageReference
      → Result (Error sv) PackageReference
  on_value_error (err value_error) handler = handler
  on_value_error (err e) handler = err e
  on_value_error (ok r) handler = ok r

  unfoldable pub parse_reference_expression : String → Result (Error sv) PackageReference
  unfolding parse_reference package_constraint_to_reference from_string
  parse_reference_expression expression =
      let constrained = from_string sv expression >>= package_constraint_to_reference in
      on_value_error constrained (parse_reference expression)

  at_text : (reference : String) → str_append "@" reference ≡ String.◌∷◌ "@" reference
  at_text reference = cons-append "@" "" reference ∙ ap (String.◌∷◌ "@") (nil-append reference)

  at_expression :
      (name reference : String)
      → is_empty name ≡ false
      → IsName name
      → first_line reference ≡ reference
      → sv.parse_spec (String.◌∷◌ "@" reference) ≡ none
      → parse_reference_expression (str_append name (String.◌∷◌ "@" reference))
        ≡ ok (record { name = name; reference = some reference })
  unfolding parse_reference_expression is_name_char parse_constraint
  at_expression name reference named n line bad =
      rw (span_name-append name (String.◌∷◌ "@" reference) n refl) (ground arith)

  -- `name@reference` is read as that reference, if the name is proper, the reference is one line,
  -- and `@reference` is no version constraint.
  pub parse_reference_expression_at :
      (name reference : String)
      → is_empty name ≡ false
      → IsName name
      → first_line reference ≡ reference
      → sv.parse_spec (str_append "@" reference) ≡ none
      → parse_reference_expression (str_append name (str_append "@" reference))
        ≡ ok (record { name = name; reference = some reference })
  parse_reference_expression_at name reference named n line bad =
      rw (at_text reference)
        (at_expression name reference named n line (rw (at_text reference) at bad))

  -- A name with an exact version is read as the name with the version's docker tag; a name with
  -- another version constraint is refused, except for `*`, which asks for no reference.
  pub package_constraint_to_reference_lem :
      (p : PackageConstraint sv)
      → package_constraint_to_reference p ≡ (
          if sv.expression p.constraint == "*"
          then ok (record { name = p.name; reference = none })
          else elim (sv.target p.constraint) [
            | none ↦ err package_manager_error
            | some v ↦
                if sv.is_equality p.constraint
                then ok (record { name = p.name; reference = some (version_to_tag sv v) })
                else err package_manager_error
          ])
  unfolding package_constraint_to_reference
  package_constraint_to_reference_lem p = ground arith
