-- ===== src/Heap.antt =====
-- The garbage-collected heap of src/alloc.c and src/alloc.h: block headers, mark bits, allocation
-- from the free list, the sweep, and heap expansion.
pub mod Block
pub mod Sweep
pub mod Malloc
pub mod Marks
pub mod MarkPhase
pub mod Expand
pub mod Collect
mod Tests
