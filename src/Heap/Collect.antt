-- ===== src/Heap/Collect.antt =====
-- The failure states of gcMalloc in src/alloc.c: collect, run the finalizers, compact, expand the heap,
-- clear the soft references, throw OutOfMemoryError. gc0 and runFinalizers0 are the interface
-- `Collector`; while finalizers run the heap lock is free, so other threads may change the heap and
-- the static `state`.
pub mod Total
pub mod Sweeping
use jamiga_jamvm.Base.{
  ℕ, zero, suc, ◌+◌, ◌-◌, ◌*◌, ◌/◌, ◌%◌, ◌^◌, ◌≤◌, ◌<◌, max, ◌≡◌, ◌≢◌, refl, ap, ◌∙◌, sym, subst,
  Bool, true, false, ◌++◌, ◌&&◌, Option, none, some, List, [], ◌∷◌, ltb, leb, ◌==◌, if◌then◌else◌,
  All, arith, Bool-cases, inl, inr, ◌⊎◌, append_assoc, append-nil,
}
use jamiga_jamvm.Heap.Block.{
  Block, extent, span, listing, free_bytes, objects, header_size, min_object_size, object_grain,
  hdr_alloced, alloced_header, IsFormed, hdr_size, listing-append, objects-append,
}
use jamiga_jamvm.Heap.Malloc.{Heap, find_block}
use jamiga_jamvm.Heap.Expand.{expand_heap}

-- `enum { gc, run_finalizers, throw_oom }`.
pub data State : Type 0 where
  gc run_finalizers throw_oom : State

-- gc0(mark_soft_refs, compact), which returns the size of the largest chunk, and runFinalizers0.
pub record Collector : Type 0 where
  pub gc0 : Bool → Bool → Heap → Heap × ℕ
  pub run_finalizers0 : State → Heap → State × Heap

-- A new object's block, or NULL with a new or the prepared OutOfMemoryError pending.
pub data Answer : Type 0 where
  block : ℕ → Answer
  out_of_memory prepared_oom : Answer

-- A `break` out of the switch, to search again, or the end of gcMalloc.
pub data Next : Type 0 where
  retry : State → Heap → Next
  finish : Answer → State → Heap → Next

-- `heapfree * 4 >= (heaplimit - heapbase)`: at least 25% of the heap is free.
abbrev pub quarter_free : Heap → Bool
quarter_free h = leb (h.limit - h.base) (h.heapfree * 4)

module _ (c : Collector) (n : ℕ) where
  -- gc0(FALSE, TRUE), the last attempt.
  pub clear_soft_refs : Heap → Next
  clear_soft_refs h =
      let (h', largest) = c.gc0 false true h in
      if leb n largest then retry gc h' else finish out_of_memory throw_oom h'

  -- gc0(TRUE, TRUE), and the expansion of the heap.
  pub compact_heap : Heap → Next
  unfolding clear_soft_refs
  compact_heap h =
      let (h', largest) = c.gc0 true true h in
      if leb n largest && quarter_free h'
      then retry gc h'
      else if ltb h'.limit h'.top
      then retry gc (expand_heap n h')
      else clear_soft_refs h'

  -- The case `run_finalizers`; `if(state != run_finalizers) break`.
  pub after_finalizers : State → Heap → Next
  unfolding compact_heap
  after_finalizers run_finalizers h = compact_heap h
  after_finalizers st h = retry st h

  pub finalize_heap : Heap → Next
  unfolding after_finalizers
  finalize_heap h = let (st, h') = c.run_finalizers0 run_finalizers h in after_finalizers st h'

  -- The switch, after a search that failed.
  pub on_failure : State → Heap → Next
  unfolding finalize_heap
  on_failure gc h =
      let (h', largest) = c.gc0 true false h in
      if leb n largest && quarter_free h' then retry gc h' else finalize_heap h'
  on_failure run_finalizers h = finalize_heap h
  on_failure throw_oom h = finish prepared_oom gc h

  -- `for(;;)`, at most so many times; none where they run out.
  pub gc_malloc : ℕ → State → Heap → Option (Answer × State × Heap)
  unfolding on_failure
  gc_malloc zero st h = none
  gc_malloc (suc f) st h = elim (find_block n h).0 [
    | some a ↦ some (block a, st, (find_block n h).1)
    | none ↦ elim (on_failure st (find_block n h).1) [
      | retry st' h' ↦ gc_malloc f st' h'
      | finish answer st' h' ↦ some (answer, st', h')
    ]
  ]
