-- ===== src/Store.antt =====
-- internal/store.
pub mod Key
pub mod Migrate
pub mod Open
pub mod Entries
