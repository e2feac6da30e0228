-- ===== src/Package/Model.antt =====
-- The data of sonic_package_manager: constraint.py, database.py, manifest.py, metadata.py and
-- package.py.
use sonic_utility.Base.{String, Bool, Option, List}
use sonic_utility.Base.Dict.{Dict}
use sonic_utility.Package.Semver.{Semver}

-- The `service` and `cli` tables of a manifest, as far as the manager reads them.
pub record ServiceTable : Type 0 where
  pub name : String
  pub asic_service : Bool
  pub host_service : Bool
  pub delayed : Bool
  pub check_up_status : Bool
  pub support_rate_limit : Bool

-- An empty path stands for no plugin.
pub record CliTable : Type 0 where
  pub mandatory : Bool
  pub show : String
  pub config : String
  pub clear : String

module _ (sv : Semver) where
  open sv use {Version, Spec}

  pub record PackageConstraint : Type 0 where
    pub name : String
    pub constraint : Spec
    pub components : Dict Spec

  pub record PackageEntry : Type 0 where
    pub name : String
    pub repository : Option String
    pub description : Option String
    pub default_reference : Option String
    pub version : Option Version
    pub installed : Bool
    pub built_in : Bool
    pub image_id : Option String

  -- The `package` table of a manifest, as far as the manager reads it.
  pub record PackageTable : Type 0 where
    pub version : Version
    pub name : String
    pub description : String
    pub base_os : Dict Spec
    pub depends : List PackageConstraint
    pub breaks : List PackageConstraint

  pub record Manifest : Type 0 where
    pub package_table : PackageTable
    pub service : ServiceTable
    pub cli : CliTable

  pub record Metadata : Type 0 where
    pub manifest : Manifest
    pub components : Dict Version

  pub record Package : Type 0 where
    pub entry : PackageEntry
    pub metadata : Metadata
