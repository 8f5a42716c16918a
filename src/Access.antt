-- ===== src/Access.antt =====
-- The access checks of src/access.c.
pub mod Check
pub mod Package
mod Tests
