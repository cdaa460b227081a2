-- ===== src/Security.antt =====
-- src/security: access control lists.
pub mod Acl
