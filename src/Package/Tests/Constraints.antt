-- ===== src/Package/Tests/Constraints.antt =====
-- Versions, tags, constraints and references on sample texts.
use sonic_utility.Base.{some, [], ◌∷◌, ◌≡◌, refl}
use sonic_utility.Base.Result.{ok}
use sonic_utility.Base.Text.{replace, is_name_char, first_line}
use sonic_utility.Package.Version.{version_to_tag}
use sonic_utility.Package.Model.{PackageConstraint}
use sonic_utility.Package.Constraint.{from_string}
use sonic_utility.Package.Constraint.RoundTrip.{constraint_text, from_string-constraint_text}
use sonic_utility.Package.Reference.{parse_reference_expression}
use sonic_utility.Package.Tests.Samples.{
  releases, minor_update, first, next, exactly, compatible, constraint_on, any,
}

tag_of_minor_update : version_to_tag releases minor_update ≡ "1.1.0_4"
unfolding version_to_tag replace
tag_of_minor_update = refl

from_string-constraint_text_example :
    from_string releases (constraint_text releases (constraint_on "data-base" (compatible first)))
    ≡ ok (constraint_on "data-base" (compatible first))
unfolding is_name_char first_line
from_string-constraint_text_example =
    from_string-constraint_text releases (constraint_on "data-base" (compatible first)) refl
      (refl, (refl, (refl, (refl, (refl, (refl, (refl, (refl, (refl, tt))))))))) refl refl refl refl
      refl

abbrev with_components : PackageConstraint releases
with_components = record {
  name = "router";
  constraint = exactly next;
  components = ("libswsscommon", compatible first) ∷ ("libsairedis", any) ∷ [];
}

reference_of_tag :
    parse_reference_expression releases "router==1.1.0+4"
    ≡ ok (record { name = "router"; reference = some "1.1.0_4" })
unfolding parse_reference_expression replace
reference_of_tag = refl
