-- ===== src/Bootstrap.antt =====
-- scripts/bootstrap-platform-admin.ts: the script that provisions the first organization and its owner.
pub mod Slugify
pub mod Provision
