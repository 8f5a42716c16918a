-- ===== src/Class.antt =====
-- The initialisation of a class in src/class.c.
pub mod Init
pub mod Once
mod Tests
