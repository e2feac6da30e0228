-- ===== src/Package/Errors.antt =====
-- sonic_package_manager/errors.py, and the built-in exceptions that its code meets.
use sonic_utility.Base.{String, Option}
use sonic_utility.Package.Semver.{Semver}
use sonic_utility.Package.Model.{PackageConstraint}

module _ (sv : Semver) where
  pub data Error : Type 0 where
    -- PackageManagerError and its subclasses; messages are left out
    package_manager_error : Error
    package_not_found : String → Error
    package_already_exists : String → Error
    installation_error : Error
    uninstallation_error : Error
    upgrade_error : Error
    sonic_requirement_error : String → String → sv.Spec → Option sv.Version → Error
    dependency_error : String → PackageConstraint sv → Option sv.Version → Error
    component_dependency_error :
        String → PackageConstraint sv → String → sv.Spec → Option sv.Version → Error
    conflict_error : String → PackageConstraint sv → Option sv.Version → Error
    component_conflict_error : String → PackageConstraint sv → String → sv.Version → Error
    manifest_error : Error
    metadata_error : Error
    -- built-in: ValueError, KeyError, AttributeError, TypeError, and what docker, the file system
    -- or a command raises
    value_error : Error
    key_error : Error
    attribute_error : Error
    type_error : Error
    system_error : Error
    not_implemented_error : Error
