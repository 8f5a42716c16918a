-- ===== src/Heap/Malloc.antt =====
-- Allocation in src/alloc.c: the search of the free list in gcMalloc with the split of a chunk, the
-- states of gcMalloc on failure, and expandHeap. Addresses and sizes are words of 64 bits.
pub mod Carve
pub mod Search
pub mod Largest
use jamiga_jamvm.Base.{
  ℕ, ◌+◌, ◌-◌, ◌*◌, ◌/◌, ◌%◌, ◌^◌, ◌≤◌, ◌<◌, max, ◌≡◌, Bool, true, false, ◌++◌, ◌&&◌, Option, none,
  some, List, [], ◌∷◌, ltb, leb, ◌==◌, if◌then◌else◌, All,
}
use jamiga_jamvm.Heap.Block.{
  Block, extent, span, listing, free_bytes, header_size, min_object_size, object_grain,
  alloced_header, IsFormed,
}

-- The heap between `base` and `limit`. The free list is `passed ++ ahead`: `chunkpp` is the link
-- behind `passed`, the one that leads to `ahead`.
pub record Heap : Type 0 where
  pub base : ℕ
  pub limit : ℕ
  pub top : ℕ
  pub blocks : List Block
  pub passed : List ℕ
  pub ahead : List ℕ
  pub heapfree : ℕ

-- An int that is widened to a uintptr_t: negative values are at the top of the range.
abbrev pub sign_extend : ℕ → ℕ
sign_extend x = if ltb (x % 2 ^ 32) (2 ^ 31) then x % 2 ^ 32 else x % 2 ^ 32 + 2 ^ 64 - 2 ^ 32

-- `int n = (len+HEADER_SIZE+OBJECT_GRAIN-1)&~(OBJECT_GRAIN-1)`, as it is compared with a uintptr_t.
unfoldable pub block_size : ℕ → ℕ
block_size len = sign_extend ((len + header_size + object_grain - 1) / object_grain * object_grain)

-- The header word at an address, for the start of a block.
pub header_at : ℕ → List Block → ℕ → ℕ
header_at p [] a = 0
header_at p (b ∷ bs) a = if p == a then b.header else header_at (p + extent b) bs a

-- The chunk `b` with its first `n` bytes allocated and cleared, and the header of the remainder.
pub split_block : Block → ℕ → List Block
split_block b n =
    let found : Block = record { header = alloced_header n; class = none } in
    if b.header == n
    then found ∷ []
    else found ∷ record { header = b.header - n; class = none } ∷ []

-- The writes to the found chunk at `a`.
pub carve : ℕ → List Block → ℕ → ℕ → List Block
unfolding split_block
carve p [] a n = []
carve p (b ∷ bs) a n = if p == a then split_block b n ++ bs else b ∷ carve (p + extent b) bs a n

-- The label `got_it`. The found chunk, of n bytes at least, is part of `heapfree`.
pub got_it : ℕ → ℕ → Heap → Heap
unfolding carve
got_it n a h = record h { blocks = carve h.base h.blocks a n; heapfree = h.heapfree - n }

-- The `while` loop of gcMalloc with what follows when a chunk is found; its address, or none where
-- the end of the list is reached.
pub search : ℕ → Heap → List ℕ → List ℕ → Option ℕ × Heap
unfolding got_it header_at
search n h passed [] = (none, record h { passed = passed; ahead = [] })
search n h passed (a ∷ cs) =
    let len = header_at h.base h.blocks a in
    let rest = search n h (passed ++ a ∷ []) cs in
    if len == n
    then (some a, got_it n a (record h { passed = passed; ahead = cs }))
    else if ltb n len
    then (
      some a,
      got_it n a (record h {
        passed = passed;
        ahead = if leb min_object_size (len - n) then (a + n) ∷ cs else cs;
      }),
    )
    else rest

-- The search goes on from `chunkpp`.
pub find_block : ℕ → Heap → Option ℕ × Heap
unfolding search
find_block n h = search n h h.passed h.ahead

-- The heap is tiled by its blocks, the free list names the chunks that can hold an object in
-- address order, and `heapfree` counts the bytes of all the chunks.
pub record IsValid (h : Heap) : Type 0 where
  pub formed : All IsFormed h.blocks
  pub tiled : h.base + span h.blocks ≡ h.limit
  pub listed : h.passed ++ h.ahead ≡ listing h.base h.blocks
  pub counted : h.heapfree ≡ free_bytes h.blocks
  pub bounded : h.limit ≤ h.top
