-- ===== src/Db.antt =====
-- src/db/queries.rs over the tables and triggers of migrations/: the periods, the people and the
-- apartments.
pub mod Period
pub mod Store
pub mod Reads
pub mod People
pub mod Periods
pub mod Owners
pub mod Apartments
pub mod Rows
pub mod Buildings
pub mod Tenancies
pub mod Samples
mod Tests
