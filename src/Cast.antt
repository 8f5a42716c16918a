-- ===== src/Cast.antt =====
-- The subclass, interface and cast tests of src/cast.c.
pub mod Classes
pub mod Instance
pub mod Hierarchy
pub mod Arrays
mod Tests
