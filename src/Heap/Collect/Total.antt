-- ===== src/Heap/Collect/Total.antt =====
-- gcMalloc of src/alloc.c on a fully expanded heap: it always answers, with a block if one can be had.
use jamiga_jamvm.Base.{ℕ, ◌+◌, ◌≤◌, ◌<◌, ◌≡◌, Bool, true, false, none, some, [], ◌⊎◌}
use jamiga_jamvm.Heap.Block.{objects, header_size, min_object_size, alloced_header, largest_chunk}
use jamiga_jamvm.Heap.Malloc.{Heap, IsValid, find_block}
use jamiga_jamvm.Heap.Malloc.Carve.{IsSize, insert_object}
use jamiga_jamvm.Heap.Malloc.Search.{SameBounds}
use jamiga_jamvm.Heap.Collect.{
  State, throw_oom, Collector, Answer, block, out_of_memory, prepared_oom, Next, retry, finish,
  gc_malloc,
}

-- What gcMalloc relies on: a collection leaves a well-formed heap within the same bounds, resets
-- `chunkpp` and returns the size of the largest chunk; finalizers leave a well-formed heap; and no
-- other thread changes `state` meanwhile.
pub record IsLawful (c : Collector) : Type 0 where
  pub gc0_valid : (m k : Bool) (h : Heap) → IsValid h → IsValid (c.gc0 m k h).0
  pub gc0_bounds : (m k : Bool) (h : Heap) → SameBounds h (c.gc0 m k h).0
  pub gc0_cursor : (m k : Bool) (h : Heap) → (c.gc0 m k h).0.passed ≡ []
  pub gc0_largest : (m k : Bool) (h : Heap) → (c.gc0 m k h).1 ≡ largest_chunk (c.gc0 m k h).0.blocks
  pub finalizers_valid : (st : State) (h : Heap) → IsValid h → IsValid (c.run_finalizers0 st h).1
  pub finalizers_bounds : (st : State) (h : Heap) → SameBounds h (c.run_finalizers0 st h).1
  pub undisturbed : (st : State) (h : Heap) → (c.run_finalizers0 st h).0 ≡ st

-- The heap that a collection leaves.
abbrev pub IsCollected : Collector → Heap → Type 0
IsCollected c h = (m : Bool) × (k : Bool) × (h₀ : Heap) × (h ≡ (c.gc0 m k h₀).0)

-- What an answer means, for a request that found the state `st` and the heap `start`. A block is a new
-- object of the heap that was found or of one that a collection left. OutOfMemoryError is thrown where no
-- chunk is large enough after a compacting collection that marks no soft references. The prepared error
-- is thrown where the state was throw_oom and the search of the heap that was found failed.
abbrev pub Delivered : Collector → ℕ → State → Heap → Answer → Heap → Type 0
Delivered c n st start (block a) h' =
    (h : Heap) × IsValid h
    × ((h ≡ start) ⊎ IsCollected c h)
    × (objects h'.base h'.blocks
        ≡ insert_object (a + header_size) (alloced_header n) (objects h.base h.blocks))
    × (h'.heapfree + n ≡ h.heapfree)
Delivered c n st start out_of_memory h' =
    (largest_chunk h'.blocks < n) × ((h : Heap) × (h' ≡ (c.gc0 false true h).0))
Delivered c n st start prepared_oom h' =
    (st ≡ throw_oom) × ((find_block n start).0 ≡ none) × (h' ≡ (find_block n start).1)

module _ (c : Collector) (lawful : IsLawful c) (n : ℕ) (z : IsSize n)
    (m : min_object_size ≤ n) where
  -- An answer without a block, for a request whose search left the heap `h`.
  abbrev Refused : State → Heap → Answer → Heap → Type 0
  Refused st h (block a) h' = ⊥
  Refused st h out_of_memory h' =
      (largest_chunk h'.blocks < n) × ((h₀ : Heap) × (h' ≡ (c.gc0 false true h₀).0))
  Refused st h prepared_oom h' = (st ≡ throw_oom) × (h' ≡ h)

  -- After a failed search the code either goes back to a heap on which the search will succeed,
  -- or gives up.
  abbrev Handled : State → Heap → Next → Type 0
  Handled st h (retry st' h') =
      IsValid h' × (h'.passed ≡ []) × (n ≤ largest_chunk h'.blocks) × IsCollected c h'
  Handled st h (finish answer st' h') = IsValid h' × Refused st h answer h'

  -- gcMalloc ends within `f` rounds, and its answer is right.
  abbrev Answers : ℕ → State → Heap → State → Heap → Type 0
  Answers f st start st' h =
      (out : Answer × State × Heap) × (gc_malloc c n f st' h ≡ some out)
      × IsValid out.2
      × Delivered c n st start out.0 out.2
