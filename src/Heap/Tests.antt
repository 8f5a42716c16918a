-- ===== src/Heap/Tests.antt =====
-- The heap of src/alloc.c at a small example: a dead object, a chunk, a marked weak reference to the
-- dead object, and another dead object.
use jamiga_jamvm.Base.{
  ℕ, ◌+◌, ◌-◌, ◌^◌, ◌≤◌, ◌<◌, ◌≡◌, refl, true, false, List, [], ◌∷◌, none, some, arith, ◌==◌,
  if◌then◌else◌, All, ◌⊎◌,
}
use jamiga_jamvm.Heap.Block.{
  Block, plain, reference, Reference, span, listing, free_bytes, largest_chunk, objects, IsFormed,
}
use jamiga_jamvm.Heap.MarkPhase.ObjectList.{ObjectList, add_to_object_list, no_references}
use jamiga_jamvm.Heap.Sweep.{do_sweep}
use jamiga_jamvm.Heap.Sweep.Correct.{do_sweep-free_list}
use jamiga_jamvm.Heap.Sweep.Survivors.{do_sweep-survivors}
use jamiga_jamvm.Heap.Sweep.References.{references_ok, do_sweep-references}
use jamiga_jamvm.Heap.Malloc.{Heap, IsValid, find_block, block_size}
use jamiga_jamvm.Heap.Malloc.Search.{Outcome, SameBounds, find_block_lem}
use jamiga_jamvm.Heap.Expand.{expand_heap, array_bytes, expand_heap-IsValid, expand_heap_shrinks}
use jamiga_jamvm.Heap.Marks.{Marks, MarkStack}

abbrev weak : Reference
weak = record { is_phantom = false; referent = 4104; queue = 1 }

abbrev sample_blocks : List Block
sample_blocks =
    record { header = 25; class = some plain }
    ∷ record { header = 40; class = none }
    ∷ record { header = 37; class = some (reference weak) }
    ∷ record { header = 25; class = some plain }
    ∷ []

abbrev sample_marks : ℕ → ℕ
sample_marks a = if a == 4168 then 3 else 0

sample_blocks-IsFormed : All IsFormed sample_blocks
sample_blocks-IsFormed = omega arith

-- The list `reference` with one entry.
abbrev one_reference : ObjectList
one_reference = record { list = λ i. 8; start = 100; end = 1; size = 100 }

do_sweep-free_list_example :
    let s = do_sweep sample_marks 4096 no_references false sample_blocks in
    (span s.blocks ≡ span sample_blocks)
    × All IsFormed s.blocks
    × (s.freelist ≡ listing 4096 s.blocks)
    × (s.heapfree ≡ free_bytes s.blocks)
    × (s.largest ≡ largest_chunk s.blocks)
do_sweep-free_list_example =
    do_sweep-free_list sample_marks 4096 no_references false sample_blocks sample_blocks-IsFormed

do_sweep-survivors_example :
    objects 4096 (do_sweep sample_marks 4096 no_references false sample_blocks).blocks
    ≡ (4168, 37) ∷ []
do_sweep-survivors_example =
    do_sweep-survivors sample_marks 4096 no_references false sample_blocks sample_blocks-IsFormed

do_sweep-references_example :
    let s = do_sweep sample_marks 4096 one_reference false sample_blocks in
    (references_ok sample_marks s.blocks ≡ true)
    × (s.reference ≡ add_to_object_list 4168 one_reference)
do_sweep-references_example =
    do_sweep-references sample_marks 4096 one_reference false sample_blocks

-- The result of the sweep, and that of a search for 24 bytes in it.
do_sweep_run :
    let s = do_sweep sample_marks 4096 no_references false sample_blocks in
    (s.freelist ≡ 4096 ∷ 4192 ∷ []) × (s.largest ≡ 64) × (s.unmarked ≡ 2) × (s.cleared ≡ 1)
unfolding do_sweep
do_sweep_run = (refl, refl, refl, refl)

abbrev sample_heap : Heap
sample_heap = record {
  base = 4096;
  limit = 4216;
  top = 4216;
  blocks = sample_blocks;
  passed = [];
  ahead = 4120 ∷ [];
  heapfree = 40;
}

sample_heap-IsValid : IsValid sample_heap
sample_heap-IsValid = record {
  formed = sample_blocks-IsFormed;
  tiled = refl;
  listed = refl;
  counted = refl;
  bounded = omega arith;
}

find_block_lem_example :
    let (r, h) = find_block 40 sample_heap in
    IsValid h × SameBounds sample_heap h × Outcome 40 sample_heap (4120 ∷ []) r h
find_block_lem_example = find_block_lem 40 sample_heap (omega arith) sample_heap-IsValid

abbrev growing_heap : Heap
growing_heap = record sample_heap { top = 4600 }

growing_heap-IsValid : IsValid growing_heap
growing_heap-IsValid = record {
  formed = sample_blocks-IsFormed;
  tiled = refl;
  listed = refl;
  counted = refl;
  bounded = omega arith;
}

expand_heap-IsValid_example :
    let h' = expand_heap 80 growing_heap in
    IsValid h'
    × (objects h'.base h'.blocks ≡ objects 4096 sample_blocks)
    × (4216 < h'.limit)
    × ((4296 ≤ h'.limit) ⊎ (h'.limit ≡ h'.top))
expand_heap-IsValid_example = expand_heap-IsValid 80 growing_heap growing_heap-IsValid (omega arith)

-- The same blocks at a high address.
abbrev high_heap : Heap
high_heap = record {
  base = 2 ^ 32;
  limit = 2 ^ 32 + 120;
  top = 2 ^ 32 + 4096;
  blocks = sample_blocks;
  passed = [];
  ahead = (2 ^ 32 + 24) ∷ [];
  heapfree = 40;
}

high_heap-IsValid : IsValid high_heap
high_heap-IsValid = record {
  formed = sample_blocks-IsFormed;
  tiled = refl;
  listed = refl;
  counted = refl;
  bounded = omega arith;
}

expand_heap_shrinks_example :
    (len : ℕ) × (array_bytes (2 ^ 31 - 25) 1 ≡ some len)
    × ((expand_heap (block_size len) high_heap).limit < high_heap.limit)
expand_heap_shrinks_example =
    expand_heap_shrinks (2 ^ 31 - 25) high_heap (omega arith) (omega arith) high_heap-IsValid
      (omega arith) (omega arith)

abbrev sample_bits : Marks
sample_bits = record { heapbase = 4096; heaplimit = 4216; markbits = λ i. 0 }

abbrev sample_stack : MarkStack
sample_stack = record {
  marks = sample_bits;
  mark_scan_ptr = 4200;
  mark_stack = [];
  mark_stack_count = 0;
  mark_stack_overflow = 0;
}
