-- ===== src/Store.antt =====
-- The state behind the service: the rows of app/db/models, the process-wide objects of app/core,
-- and the errors and actions of the code that works on them.
pub mod Rows
pub mod State
pub mod Action
pub mod Keeps
pub mod Env
