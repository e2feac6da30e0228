-- ===== src/AclLoader.antt =====
-- acl_loader/main.py: bringing the ACL rules of the configuration to those of a file.
pub mod Values
pub mod Tables
pub mod Convert
pub mod Actions
pub mod Rules
pub mod Update
mod Tests
