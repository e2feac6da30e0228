-- ===== src/Package/Semver.antt =====
-- What sonic_package_manager relies on in the third-party package `semantic_version`.
use sonic_utility.Base.{ℕ, String, Bool, Option}

-- `Version` and `SimpleSpec`. `none` stands for the ValueError of a constructor; `target` is
-- the version of a clause that has one, and `is_equality` tells that its operator is `==`.
pub record Semver : Type 1 where
  pub Version : Type 0
  pub Spec : Type 0
  pub parse_version : String → Option Version
  pub version_text : Version → String
  pub major : Version → ℕ
  pub minor : Version → ℕ
  pub patch : Version → ℕ
  pub version_eq : Version → Version → Bool
  pub version_lt : Version → Version → Bool
  pub parse_spec : String → Option Spec
  pub spec_text : Spec → String
  pub expression : Spec → String
  pub match_spec : Spec → Version → Bool
  pub target : Spec → Option Version
  pub is_equality : Spec → Bool
