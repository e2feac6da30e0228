-- ===== src/Package.antt =====
-- sonic_package_manager: installs, upgrades and removes packages that come as docker images.
pub mod Semver
pub mod Version
pub mod Model
pub mod Errors
pub mod Constraint
pub mod Database
pub mod Tree
pub mod ConfigDb
pub mod Feature
pub mod World
pub mod Source
pub mod Creator
pub mod Manager
mod Tests
pub mod Reference
