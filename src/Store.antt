-- ===== src/Store.antt =====
-- internal/store: the persistence of definitions, instances, activities and jobs.
pub mod Memory
pub mod File
pub mod Database
mod Tests
