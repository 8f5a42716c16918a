-- ===== src/Heap/Expand.antt =====
-- expandHeap and the size computations in front of it (gcMalloc and allocArray) of src/alloc.c.
use jamiga_jamvm.Base.{
  ℕ, ◌+◌, ◌-◌, ◌*◌, ◌/◌, ◌%◌, ◌^◌, ◌≤◌, ◌<◌, ◌≡◌, false, ◌++◌, Option, none, some, List, [], ◌∷◌,
  ltb, if◌then◌else◌, arith, ◌⊎◌, append_assoc, append-nil, All-append,
}
use jamiga_jamvm.Heap.Block.{
  Block, extent, span, free_bytes, objects, min_object_size, object_grain, hdr_alloced, IsFormed,
  listing-append, span-append, free_bytes-append, objects-append,
}
use jamiga_jamvm.Heap.Malloc.{Heap, IsValid, block_size}

abbrev pub int_max : ℕ
int_max = 2 ^ 31 - 1

-- The size that allocArray asks gcMalloc for (its `int` argument), or none where it throws
-- OutOfMemoryError. sizeof(uintptr_t) is 8 and sizeof(Object) is 16; `size` is not negative.
pub array_bytes : ℕ → ℕ → Option ℕ
array_bytes size el_size =
    if ltb ((int_max - 8 - 16) / el_size) size then none else some (size * el_size + 8 + 16)

-- How far expandHeap moves the heap limit. The sum is that of pointers, of 64 bits.
pub growth : ℕ → Heap → ℕ
growth least h =
    let half = (h.limit - h.base) / 2 in
    let wanted = if ltb half least then least else half in
    let delta = if ltb h.top ((h.limit + wanted) % 2 ^ 64) then h.top - h.limit else wanted in
    delta / object_grain * object_grain

-- expandHeap: the new area is one chunk, and goes to the end of the free list.
pub expand_heap : ℕ → Heap → Heap
expand_heap least h =
    let delta = growth least h in
    record h {
      blocks = h.blocks ++ record { header = delta; class = none } ∷ [];
      ahead = h.ahead ++ h.limit ∷ [];
      limit = (h.limit + delta) % 2 ^ 64;
      heapfree = (h.heapfree + delta) % 2 ^ 64;
    }

-- The request and the heap are such that no pointer wraps and a whole object fits in what is added.
pub record CanGrow (least : ℕ) (h : Heap) : Type 0 where
  pub grain : least % object_grain ≡ 0
  pub object : min_object_size ≤ least
  pub room : h.limit + min_object_size ≤ h.top
  pub even : (h.top - h.limit) % object_grain ≡ 0
  pub word : h.top < 2 ^ 63
  pub request : least < 2 ^ 63

free_bytes-le-span : (bs : List Block) → free_bytes bs ≤ span bs
free_bytes-le-span [] = omega arith
free_bytes-le-span (b ∷ bs) = ground (arith, free_bytes-le-span bs)

-- What expandHeap adds is a whole number of grains that can hold an object, and it is either at
-- least what was asked for or all that is left.
growth_lem :
    (least : ℕ) (h : Heap)
    → CanGrow least h
    → (growth least h % object_grain ≡ 0)
      × (min_object_size ≤ growth least h)
      × (h.limit + growth least h ≤ h.top)
      × ((least ≤ growth least h) ⊎ (h.limit + growth least h ≡ h.top))
unfolding growth
growth_lem least h g = (ground arith, ground arith, ground arith, ground arith)

-- Expanding a well-formed heap keeps it well-formed, its objects stay, and it grows by what was
-- asked for at least, unless it reaches its maximum.
pub expand_heap-IsValid :
    (least : ℕ) (h : Heap)
    → IsValid h
    → CanGrow least h
    → let h' = expand_heap least h in
      IsValid h'
      × (objects h'.base h'.blocks ≡ objects h.base h.blocks)
      × (h.limit < h'.limit)
      × ((h.limit + least ≤ h'.limit) ⊎ (h'.limit ≡ h'.top))
unfolding expand_heap
expand_heap-IsValid least h v g =
    let (whole, object, fits, enough) = growth_lem least h g in
    let d = growth least h in
    let b : Block = record { header = d; class = none } in
    let bound = free_bytes-le-span h.blocks in
    let moved : (h.limit + d) % 2 ^ 64 ≡ h.limit + d = omega arith in
    let even : hdr_alloced d ≡ false = ground arith in
    let ext : extent b ≡ d = rw even in
    (
      record {
        formed = All-append IsFormed h.blocks (b ∷ []) v.formed (ground arith);
        tiled = rw moved (omega (arith, span-append h.blocks (b ∷ []), v.tiled, ext));
        listed = rw (← append_assoc, v.listed, listing-append, v.tiled, even) (ground arith);
        counted = rw free_bytes-append (ground arith);
        bounded = rw moved fits;
      },
      rw (objects-append, even) (append-nil _),
      rw moved (omega arith),
      ground (arith, enough),
    )

-- A request that is a negative `int` wraps the limit of the heap.
shrinks :
    (n : ℕ) (h : Heap)
    → IsValid h
    → h.top < 2 ^ 64
    → 2 ^ 31 ≤ h.limit
    → (2 ^ 64 - 2 ^ 31 ≤ n) × (n ≤ 2 ^ 64 - 2 ^ 31 + 8) × (n % 8 ≡ 0)
    → (expand_heap n h).limit < h.limit
unfolding expand_heap growth
shrinks n h v w l big = ground arith

-- The length of the largest byte arrays passes the check of allocArray, and gcMalloc's block size
-- for it does not fit an `int`: expandHeap then moves the limit of the heap down.
pub expand_heap_shrinks :
    (size : ℕ) (h : Heap)
    → 2 ^ 31 - 39 ≤ size
    → size ≤ 2 ^ 31 - 25
    → IsValid h
    → h.top < 2 ^ 64
    → 2 ^ 31 ≤ h.limit
    → (len : ℕ) × (array_bytes size 1 ≡ some len)
      × ((expand_heap (block_size len) h).limit < h.limit)
unfolding block_size array_bytes
expand_heap_shrinks size h lo hi v w l =
    let n = block_size (size + 24) in
    let big : (2 ^ 64 - 2 ^ 31 ≤ n) × (n ≤ 2 ^ 64 - 2 ^ 31 + 8) × (n % 8 ≡ 0) = ground arith in
    (size + 24, ground arith, shrinks n h v w l big)
