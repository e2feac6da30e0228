-- ===== src/DbMigrator.antt =====
-- scripts/db_migrator.py: bringing the databases to the layout of the present version.
pub mod Databases
pub mod Tables
pub mod Missing
pub mod Warm
pub mod Names
pub mod References
pub mod Versions
pub mod Tests
