-- ===== src/Lock.antt =====
-- Object locks of src/lock.c: thin locks in the lock word of an object, monitors, and the inflation
-- and deflation between them.
pub mod Word
pub mod Monitor
pub mod Object
mod Tests
