-- ===== src/Heap/MarkPhase/DoMark.antt =====
-- doMark of src/alloc.c up to the list of references to be enqueued: the roots, the heap scan, and the
-- objects with finalizers.
use jamiga_jamvm.Base.{
  ℕ, Bool, true, false, not, Option, some, ◌>>=◌, List, [], ◌∷◌, ◌==◌, ◌&&◌, ◌||◌, ltb, leb,
  if◌then◌else◌, length,
}
use jamiga_jamvm.Heap.Block.{Block}
use jamiga_jamvm.Heap.Sweep.{hard_mark}
use jamiga_jamvm.Heap.Marks.{Marks, MarkStack, is_marked, mark_and_push}
use jamiga_jamvm.Heap.MarkPhase.Objects.{Memory}
use jamiga_jamvm.Heap.MarkPhase.{empty_mark_stack, scan_heap_and_mark}
use jamiga_jamvm.Heap.MarkPhase.Roots.{RootSet, mark_all_roots, Roots}
use jamiga_jamvm.Heap.MarkPhase.ObjectList.{ObjectList, add_to_object_list, contents}

abbrev pub finalizer_mark : ℕ
finalizer_mark = 2

-- The variables of the collector that doMark changes.
pub record Collection : Type 0 where
  pub stack : MarkStack
  pub has_finaliser_list : List ℕ
  pub run_finaliser : ObjectList
  pub reference : ObjectList
  pub conservative_roots : List ℕ
  pub notify_finaliser_thread : Bool

-- `if(!IS_HARD_MARKED(ob)) ADD_TO_OBJECT_LIST(run_finaliser, ob); else has_finaliser_list[j++] = ob`,
-- over the list: what is left of it, and the objects to be finalized.
unfoldable pub move_unmarked : Marks → List ℕ → ObjectList → List ℕ × ObjectList
move_unmarked marks [] l = ([], l)
move_unmarked marks (ob ∷ obs) l = elim (is_marked marks ob == hard_mark) [
  | true ↦ let (kept, l') = move_unmarked marks obs l in (ob ∷ kept, l')
  | false ↦ move_unmarked marks obs (add_to_object_list ob l)
]

-- CLEAR_UNMARKED, on an array's entry.
unfoldable pub clear_unmarked : Marks → ℕ → ℕ
clear_unmarked marks element =
    if not (element == 0) && is_marked marks element == 0 then 0 else element

-- The indices that ITERATE_OBJECT_LIST goes through.
abbrev pub iterates : ObjectList → ℕ → Bool
iterates l i =
    if ltb l.start l.end
    then leb l.start i && ltb i l.end
    else (leb l.start i && ltb i l.size) || ltb i l.end

-- `ITERATE_OBJECT_LIST(reference, CLEAR_UNMARKED)`.
unfoldable pub clear_references : Marks → ObjectList → ObjectList
unfolding clear_unmarked
clear_references marks l = record l {
  list = λ i. if iterates l i then clear_unmarked marks (l.list i) else l.list i;
}

-- The variables at the end: what is left of has_finaliser_list, and whether the finalizer thread is to be
-- woken up.
unfoldable pub end_mark : Roots → List ℕ × ObjectList → MarkStack → Collection → Collection
unfolding clear_references
end_mark roots moved s c = record c {
  stack = s;
  has_finaliser_list = moved.0;
  run_finaliser = moved.1;
  reference = clear_references s.marks c.reference;
  conservative_roots = roots.conservative_roots;
  notify_finaliser_thread =
      if length moved.0 == length c.has_finaliser_list then c.notify_finaliser_thread else true;
}

module _ (mem : Memory) (mark_soft_refs : Bool) (fuel : ℕ) where
  -- RUN_MARK.
  unfoldable pub run_mark : ℕ → MarkStack → Option MarkStack
  run_mark element s =
      empty_mark_stack mem mark_soft_refs fuel (mark_and_push element finalizer_mark s)

  -- `ITERATE_OBJECT_LIST(run_finaliser, RUN_MARK)`.
  unfoldable pub run_marks : List ℕ → MarkStack → Option MarkStack
  unfolding run_mark
  run_marks [] s = some s
  run_marks (element ∷ elements) s = run_mark element s >>= run_marks elements

  -- The `if(mark_stack_overflow)` after it.
  unfoldable pub rescan : ℕ → ℕ → List Block → MarkStack → Option MarkStack
  rescan rounds heapbase blocks s =
      if s.mark_stack_overflow == 0
      then some s
      else scan_heap_and_mark mem mark_soft_refs rounds fuel heapbase blocks s

  -- doMark up to the list of references. The mark stack is empty and the scan pointer anywhere when it begins.
  unfoldable pub mark_live : ℕ → ℕ → List Block → RootSet → Collection → Option Collection
  unfolding run_marks rescan end_mark
  mark_live rounds heapbase blocks rs c = do
    let roots = mark_all_roots rs c.stack.marks
    s ←
        scan_heap_and_mark mem mark_soft_refs rounds fuel heapbase blocks
          (record c.stack { marks = roots.marks })
    let moved = move_unmarked s.marks c.has_finaliser_list c.run_finaliser
    t ← run_marks (contents moved.1) s
    u ← rescan rounds heapbase blocks t
    some (end_mark roots moved u c)
