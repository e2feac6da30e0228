-- ===== src/Package/Version.antt =====
-- sonic_package_manager/version.py
use sonic_utility.Base.{String, false, Option, some, ◌≡◌, ap, ◌∙◌}
use sonic_utility.Base.Text.{replace, has_char, replace-replace}
use sonic_utility.Package.Semver.{Semver}

module _ (sv : Semver) where
  open sv use {Version, parse_version, version_text}

  -- A docker tag may not hold `+`.
  unfoldable pub version_to_tag : Version → String
  version_to_tag ver = replace "+" "_" (version_text ver)

  -- `none` is the ValueError.
  unfoldable pub tag_to_version : String → Option Version
  tag_to_version tag = parse_version (replace "_" "+" tag)

  -- A version whose text reads back as itself and holds no underscore, as no SemVer text does, is
  -- recovered from its docker tag.
  pub tag_to_version-version_to_tag :
      (ver : Version)
      → parse_version (version_text ver) ≡ some ver
      → has_char "_" (version_text ver) ≡ false
      → tag_to_version (version_to_tag ver) ≡ some ver
  unfolding tag_to_version version_to_tag
  tag_to_version-version_to_tag ver parses plain =
      ap parse_version (replace-replace "+" "_" (version_text ver) plain) ∙ parses
