-- ===== src/Interp.antt =====
-- The interpreter of src/interp/engine/interp.c: the opcodes on the operand stack and the local
-- variables, with the cache of the top of the stack (USE_CACHE) and without it.
pub mod Words
pub mod State
pub mod Plain
pub mod Cached
pub mod Refine
pub mod Checks
pub mod Run
pub mod Switches
pub mod References
pub mod Division
pub mod Arrays
pub mod Effect
mod Tests
