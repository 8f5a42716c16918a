-- ===== src/Excep.antt =====
-- Exception handlers and line numbers of src/excep.c.
pub mod Handlers
pub mod Search
pub mod Lines
mod Tests
