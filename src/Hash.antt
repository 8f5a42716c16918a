-- ===== src/Hash.antt =====
-- The hash table of src/hash.h and src/hash.c: open addressing with linear probing.
pub mod Table
pub mod Walk
pub mod Slots
pub mod Resize
pub mod Find
pub mod Scavenge
pub mod Add
pub mod Delete
mod Tests
