-- ===== src/Store.antt =====
-- The database of app/models, as the services and the worker see it: one record of tables, the
-- JSON values and errors that pass through it, and the sequencing of operations that may raise.
pub mod Json
pub mod Rows
pub mod Errors
pub mod Exec
