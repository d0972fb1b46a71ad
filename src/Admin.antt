-- ===== src/Admin.antt =====
-- src/web/admin.rs: the logic of the forms.
pub mod Forms
pub mod Seeds
pub mod Answers
pub mod Owners
mod Tests
