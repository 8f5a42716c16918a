-- ===== src/Heap/Sweep.antt =====
-- The sweep phase of src/alloc.c: doSweep, handleMarkedSpecial and handleUnmarkedSpecial. It rebuilds
-- the free list from the unmarked objects and the free chunks, merging neighbours. The loops walk
-- the blocks from heapbase to heaplimit; `marks` is IS_MARKED of an object's address.
pub mod Rule
pub mod Correct
pub mod Survivors
pub mod Accounting
pub mod Merged
pub mod References
use jamiga_jamvm.Base.{
  ℕ, zero, suc, ◌+◌, max, Bool, true, false, ◌++◌, ◌&&◌, Option, none, some, List, [], ◌∷◌, leb,
  ◌==◌, if◌then◌else◌,
}
use jamiga_jamvm.Heap.Block.{
  Block, Kind, Reference, plain, class_object, class_loader, classlib_special, reference, extent,
  hdr_size, hdr_alloced, hdr_special_obj, header_size, min_object_size,
}
use jamiga_jamvm.Heap.MarkPhase.ObjectList.{ObjectList, add_to_object_list}

abbrev pub hard_mark : ℕ
hard_mark = 3

abbrev pub phantom_mark : ℕ
phantom_mark = 1

-- What handleUnmarkedSpecial does for a dead special object, with the object's address.
pub data Release : Type 0 where
  free_class_data : ℕ → Release
  unload_class_loader : ℕ → Release
  classlib_handle : ℕ → Release

pub handle_unmarked_special : ℕ → Kind → List Release
handle_unmarked_special ob class_object = free_class_data ob ∷ []
handle_unmarked_special ob class_loader = unload_class_loader ob ∷ []
handle_unmarked_special ob classlib_special = classlib_handle ob ∷ []
handle_unmarked_special ob _ = []

-- The state of doSweep: `blocks` is the heap below `ptr` as the sweep leaves it.
pub record Sweep : Type 0 where
  pub blocks : List Block
  pub freelist : List ℕ
  pub heapfree : ℕ
  pub largest : ℕ
  pub marked : ℕ
  pub unmarked : ℕ
  pub freed : ℕ
  pub cleared : ℕ
  pub released : List Release
  pub reference : ObjectList
  pub notify_reference_thread : Bool

pub start : ObjectList → Bool → Sweep
start references notify = record {
  blocks = [];
  freelist = [];
  heapfree = 0;
  largest = 0;
  marked = 0;
  unmarked = 0;
  freed = 0;
  cleared = 0;
  released = [];
  reference = references;
  notify_reference_thread = notify;
}

-- The `if(queue != NULL)` of handleMarkedSpecial, with its ADD_TO_OBJECT_LIST(reference, ob).
pub enqueue : ℕ → Reference → Sweep → Sweep
enqueue ob r s =
    if r.queue == 0
    then s
    else record s { reference = add_to_object_list ob s.reference; notify_reference_thread = true }

unfoldable pub handle_marked_reference : (ℕ → ℕ) → ℕ → Reference → Sweep → Reference × Bool × Sweep
unfolding enqueue
handle_marked_reference marks ob r s =
    let ref_mark = marks r.referent in
    if r.referent == 0
    then (r, false, s)
    else if r.is_phantom
    then if ref_mark == phantom_mark then (r, false, enqueue ob r s) else (r, false, s)
    else if ref_mark == hard_mark
    then (r, false, s)
    else (record r { referent = 0 }, true, enqueue ob r s)

pub handle_marked_special : (ℕ → ℕ) → ℕ → Kind → Sweep → Kind × Bool × Sweep
unfolding handle_marked_reference
handle_marked_special marks ob (reference r) s =
    let (r', cleared, s') = handle_marked_reference marks ob r s in (reference r', cleared, s')
handle_marked_special marks ob k s = (k, false, s)

-- `freed += size; unmarked++`, and the special object's native data.
pub drop_object : ℕ → Block → Sweep → Sweep
unfolding handle_unmarked_special
drop_object ptr b s =
    let s' = record s { freed = s.freed + hdr_size b.header; unmarked = s.unmarked + 1 } in
    elim b.class [
      | none ↦ s'
      | some k ↦
          if hdr_special_obj b.header
          then record s' { released = s.released ++ handle_unmarked_special (ptr + header_size) k }
          else s'
    ]

-- The end of a run of free chunks: `curr` goes onto the free list if it can hold an object.
pub close_chunk : ℕ → ℕ → Sweep → Sweep
close_chunk curr header s = record s {
  blocks = s.blocks ++ record { header = header; class = none } ∷ [];
  largest = max s.largest header;
  heapfree = s.heapfree + header;
  freelist = if leb min_object_size header then s.freelist ++ curr ∷ [] else s.freelist;
}

-- A marked object's block, appended as it is.
abbrev pub keep_block : Block → Sweep → Sweep
keep_block b s = record s { blocks = s.blocks ++ b ∷ []; marked = s.marked + 1 }

-- The marked special object with class `k`, and its block.
keep_special : (ℕ → ℕ) → ℕ → Block → Kind → Sweep → Sweep
unfolding handle_marked_special
keep_special marks ptr b k s =
    let (k', is_cleared, s') = handle_marked_special marks (ptr + header_size) k s in
    keep_block (record b { class = some k' })
      (if is_cleared then record s' { cleared = s'.cleared + 1 } else s')

-- The test `HDR_SPECIAL_OBJ(hdr) && ob->class != NULL` at the label `marked`.
keep_class : (ℕ → ℕ) → ℕ → Block → Sweep → Option Kind → Sweep
unfolding keep_special
keep_class marks ptr b s none = keep_block b s
keep_class marks ptr b s (some k) =
    if hdr_special_obj b.header then keep_special marks ptr b k s else keep_block b s

-- The label `marked`.
pub keep_marked : (ℕ → ℕ) → ℕ → Block → Sweep → Sweep
unfolding keep_class
keep_marked marks ptr b s = keep_class marks ptr b s b.class

mutual
  unfolding drop_object close_chunk keep_marked

  -- The outer loop, at `ptr`.
  pub scan : (ℕ → ℕ) → ℕ → Sweep → List Block → Sweep
  scan marks ptr s [] = s
  scan marks ptr s (b ∷ bs) = elim (hdr_alloced b.header) [
    | false ↦ merge marks ptr b.header (ptr + b.header) s bs
    | true ↦ elim (marks (ptr + header_size)) [
      | suc _ ↦ scan marks (ptr + hdr_size b.header) (keep_marked marks ptr b s) bs
      | zero ↦
          merge marks ptr (hdr_size b.header) (ptr + hdr_size b.header) (drop_object ptr b s) bs
    ]
  ]

  -- The inner loop: `header` is that of the chunk `curr`, and `ptr` is past it.
  pub merge : (ℕ → ℕ) → ℕ → ℕ → ℕ → Sweep → List Block → Sweep
  merge marks curr header ptr s [] = close_chunk curr header s
  merge marks curr header ptr s (b ∷ bs) = elim (hdr_alloced b.header) [
    | false ↦ merge marks curr (header + b.header) (ptr + b.header) s bs
    | true ↦ elim (marks (ptr + header_size)) [
      | suc _ ↦
          scan marks (ptr + hdr_size b.header) (keep_marked marks ptr b (close_chunk curr header s))
            bs
      | zero ↦
          merge marks curr (header + hdr_size b.header) (ptr + hdr_size b.header)
            (drop_object ptr b s) bs
    ]
  ]

-- doSweep, over the blocks of [heapbase, heaplimit); the list `reference` is carried in.
unfoldable pub do_sweep : (ℕ → ℕ) → ℕ → ObjectList → Bool → List Block → Sweep
unfolding scan merge start
do_sweep marks heapbase references notify blocks =
    scan marks heapbase (start references notify) blocks
