-- ===== src/Package/Tests.antt =====
-- Tests of the package manager on small concrete inputs.
pub mod Samples
mod Constraints
mod Databases
mod Trees
mod Features
mod Managers
mod Migrations
