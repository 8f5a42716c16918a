-- ===== src/Heap/MarkPhase.antt =====
-- The mark phase of src/alloc.c: markStack, scanHeap and scanHeapAndMark. The mark stack is of fixed
-- size; where it overflows the heap is scanned again. The loops take fuel, and answer none without it.
pub mod Objects
pub mod Edges
pub mod Raise
pub mod Drain
pub mod Pass
pub mod Reach
pub mod Roots
pub mod RootMarks
pub mod ObjectList
pub mod RingLaws
pub mod DoMark
pub mod WeakRefs
pub mod Placeholders
pub mod Whole
pub mod Finalizing
pub mod Marked
pub mod Kept
mod Tests
use jamiga_jamvm.Base.{
  ℕ, zero, suc, ◌+◌, ◌-◌, Bool, Option, none, some, ◌>>=◌, List, [], ◌∷◌, ◌==◌, if◌then◌else◌,
}
use jamiga_jamvm.Heap.Block.{Block, hdr_alloced, hdr_size, header_size}
use jamiga_jamvm.Heap.Marks.{MarkStack, is_marked}
use jamiga_jamvm.Heap.MarkPhase.Objects.{Memory, mark_children}

module _ (mem : Memory) (mark_soft_refs : Bool) where
  -- `object = mark_stack[--mark_stack_count]`, and its children.
  unfoldable pub mark_popped : ℕ → List ℕ → MarkStack → MarkStack
  mark_popped object rest s =
      mark_children mem object (is_marked s.marks object) mark_soft_refs
        (record s { mark_stack = rest; mark_stack_count = s.mark_stack_count - 1 })

  -- markStack.
  unfoldable pub empty_mark_stack : ℕ → MarkStack → Option MarkStack
  unfolding mark_popped
  empty_mark_stack zero s = elim s.mark_stack [ [] ↦ some s | _ ∷ _ ↦ none ]
  empty_mark_stack (suc fuel) s = elim s.mark_stack [
    | [] ↦ some s
    | object ∷ rest ↦ empty_mark_stack fuel (mark_popped object rest s)
  ]

  -- The body of scanHeap's loop, at an allocated block.
  unfoldable pub scan_object : ℕ → ℕ → MarkStack → Option MarkStack
  unfolding empty_mark_stack
  scan_object fuel ob s =
      let mark = is_marked s.marks ob in
      if mark == 0
      then some s
      else empty_mark_stack fuel (mark_children mem ob mark mark_soft_refs s)

  -- scanHeap, from `ptr` on.
  unfoldable pub scan_heap : ℕ → ℕ → List Block → MarkStack → Option MarkStack
  unfolding scan_object
  scan_heap fuel ptr [] s = some (record s { mark_scan_ptr = ptr })
  scan_heap fuel ptr (b ∷ bs) s =
      let s' = record s { mark_scan_ptr = ptr } in
      if hdr_alloced b.header
      then scan_object fuel (ptr + header_size) s' >>= scan_heap fuel (ptr + hdr_size b.header) bs
      else scan_heap fuel (ptr + b.header) bs s'

  -- scanHeapAndMark: at most so many rounds.
  unfoldable pub scan_heap_and_mark : ℕ → ℕ → ℕ → List Block → MarkStack → Option MarkStack
  unfolding scan_heap
  scan_heap_and_mark zero fuel heapbase blocks s = none
  scan_heap_and_mark (suc rounds) fuel heapbase blocks s = do
    t ← scan_heap fuel heapbase blocks (record s { mark_stack_overflow = 0 })
    if t.mark_stack_overflow == 0 then some t else scan_heap_and_mark rounds fuel heapbase blocks t
