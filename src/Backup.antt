-- ===== src/Backup.antt =====
-- src/backup/: the backups of the database.
pub mod Config
pub mod Naming
pub mod Vault
pub mod Run
pub mod Verify
pub mod Retention
mod Tests
