-- ===== src/Package/Constraint/RoundTrip.antt =====
-- constraint.py: writing constraints as text or as dictionaries, and reading them back.
use Prim.Native.String.{◌++◌ as str_append}
use text.Mathlib.TextLemmas.{nil-append, cons-append}
use sonic_utility.Base.{String, true, false, some, [], ◌∷◌, ◌≡◌, refl, arith}
use sonic_utility.Base.Dict.{Dict}
use sonic_utility.Base.Result.{ok}
use sonic_utility.Base.Text.{is_empty, span_name, first_line, is_name_char}
use sonic_utility.Package.Semver.{Semver}
use sonic_utility.Package.Model.{PackageConstraint}
use sonic_utility.Package.Constraint.{
  dict, parse_constraint, parse_components, deparse_components, from_string, parse, deparse,
}

-- Every character may stand in a package's name.
abbrev pub IsName : String → Type 0
IsName String.[] = Unit
IsName (String.◌∷◌ c s) = (is_name_char c ≡ true) × IsName s

-- The text does not go on with a name's character.
abbrev pub EndsName : String → Type 0
EndsName String.[] = Unit
EndsName (String.◌∷◌ c s) = is_name_char c ≡ false

span_name-rest : (rest : String) → EndsName rest → span_name rest ≡ ("", rest)
unfolding span_name
span_name-rest String.[] e = refl
span_name-rest (String.◌∷◌ c s) e = ground arith

pub span_name-append :
    (name rest : String)
    → IsName name
    → EndsName rest
    → span_name (str_append name rest) ≡ (name, rest)
unfolding span_name
span_name-append String.[] rest n e = rw nil-append (span_name-rest rest e)
span_name-append (String.◌∷◌ c s) rest n e =
    rw (cons-append c s rest) (ground (arith, span_name-append s rest n.1 e))

module _ (sv : Semver) where
  open sv use {parse_spec, spec_text}

  -- str(package_constraint)
  unfoldable pub constraint_text : PackageConstraint sv → String
  constraint_text p = str_append p.name (spec_text p.constraint)

  -- The text of a constraint with a proper name and no component constraints is read back, if the
  -- text of its version constraint is one line that is not empty, does not go on with a character
  -- of names, and reads back itself.
  pub from_string-constraint_text :
      (p : PackageConstraint sv)
      → is_empty p.name ≡ false
      → IsName p.name
      → EndsName (spec_text p.constraint)
      → is_empty (spec_text p.constraint) ≡ false
      → first_line (spec_text p.constraint) ≡ spec_text p.constraint
      → parse_spec (spec_text p.constraint) ≡ some p.constraint
      → p.components ≡ []
      → from_string sv (constraint_text p) ≡ ok p
  unfolding from_string constraint_text parse_constraint
  from_string-constraint_text p named n ends texted line reads plain =
      rw (span_name-append p.name (spec_text p.constraint) n ends) (ground arith)

  -- Every text of a constraint reads back as that constraint.
  abbrev pub ReadsBack : Dict sv.Spec → Type 0
  ReadsBack [] = Unit
  ReadsBack ((component, c) ∷ rest) = (parse_spec (spec_text c) ≡ some c) × ReadsBack rest

  parse_components-deparse_components :
      (cs : Dict sv.Spec) → ReadsBack cs → parse_components sv (deparse_components sv cs) ≡ ok cs
  unfolding parse_components deparse_components
  parse_components-deparse_components [] r = refl
  parse_components-deparse_components ((component, c) ∷ rest) r =
      ground (arith, parse_components-deparse_components rest r.1)

  -- The dictionary that `deparse` writes for the manifest is parsed to the same constraint, if the
  -- texts of its version constraints read back and the first of them is not empty.
  pub parse-deparse :
      (p : PackageConstraint sv)
      → is_empty (spec_text p.constraint) ≡ false
      → parse_spec (spec_text p.constraint) ≡ some p.constraint
      → ReadsBack p.components
      → parse sv (dict (deparse sv p)) ≡ ok p
  unfolding parse deparse parse_constraint
  parse-deparse p texted reads comps =
      ground (arith, parse_components-deparse_components p.components comps)
