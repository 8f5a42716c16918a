-- ===== src/Heap/MarkPhase/Tests.antt =====
-- Runs and witnesses of the mark phase of src/alloc.c.
use mathlib.Core.List.{Memᴰ}
use mathlib.Core.List.Memᴰ
use jamiga_jamvm.Base.{
  ℕ, ◌≤◌, ◌≡◌, ◌≢◌, refl, sym, subst, ap, ◌∙◌, ◌⊎◌, inl, inr, ◌↔◌, true, false, some, none, List,
  [], ◌∷◌, arith, ◌==◌, if◌then◌else◌, All,
}
use jamiga_jamvm.Heap.Block.{Block, Reference, objects, IsFormed}
use jamiga_jamvm.Heap.Marks.{
  Marks, MarkStack, is_marked, get_bits, put_bits, set_mark, mark_slot, mark_entry,
}
use jamiga_jamvm.Heap.Marks.Laws.{IsObject}
use jamiga_jamvm.Heap.Sweep.{start, do_sweep, handle_marked_reference, hard_mark}
use jamiga_jamvm.Heap.MarkPhase.{scan_heap_and_mark}
use jamiga_jamvm.Heap.MarkPhase.Objects.{Memory, ClassBlock}
use jamiga_jamvm.Heap.MarkPhase.Edges.{edges, array_edges, instance_edges}
use jamiga_jamvm.Heap.MarkPhase.Drain.{IsClosedHeap}
use jamiga_jamvm.Heap.MarkPhase.Pass.{addresses, HoldsObject}
use jamiga_jamvm.Heap.MarkPhase.Reach.{Reach, IsTraceable, scan_heap_and_mark-Reach}
use jamiga_jamvm.Heap.MarkPhase.Roots.{RootSet, mark_all_roots}
use jamiga_jamvm.Heap.MarkPhase.RootMarks.{all_roots, mark_all_roots_lem}
use jamiga_jamvm.Heap.MarkPhase.ObjectList.{
  ObjectList, add_to_object_list, contents, entries, no_references, begin_process, next_process,
}
use jamiga_jamvm.Heap.MarkPhase.RingLaws.{IsRing, object_list_lost}
use jamiga_jamvm.Heap.MarkPhase.DoMark.{finalizer_mark, Collection, run_mark}
use jamiga_jamvm.Heap.MarkPhase.Finalizing.{Quiet}
use jamiga_jamvm.Heap.MarkPhase.WeakRefs.{Marked, do_mark, convert_to_placeholder, mark_weak_refs}
use jamiga_jamvm.Heap.MarkPhase.Marked.{IsReady, IsMarkRoot}
use jamiga_jamvm.Heap.MarkPhase.Whole.{IsTable, IsCleared, do_mark-Reach}
use jamiga_jamvm.Heap.MarkPhase.Kept.{do_mark-do_sweep_keeps, run_mark_clears}

-- The class java.lang.Class at 4128, which is its own class, and two instances of it that stand for
-- other objects, at 4104 and 4152.
abbrev sample_class : ClassBlock
sample_class = record {
  name = 67 ∷ [];
  flags = 1;
  is_classlib_special = false;
  state = 2;
  class_loader = 0;
  classlib_refs = [];
  fields = [];
  constant_pool = [];
  refs_offsets_table = [];
}

abbrev sample_memory : Memory
sample_memory = record {
  object_at = λ a. record { class = 4128; inst_data = λ i. 0; elements = [] };
  class_cb = λ a. sample_class;
  loader_table = λ a. [];
  classlib_special = λ a. [];
  ref_referent_offset = 16;
}

abbrev sample_heap : List Block
sample_heap =
    record { header = 25; class = none }
    ∷ record { header = 25; class = none }
    ∷ record { header = 25; class = none }
    ∷ []

abbrev sample_places : List ℕ
sample_places = 4104 ∷ 4128 ∷ 4152 ∷ []

abbrev sample_marks : Marks
sample_marks = record { heapbase = 4096; heaplimit = 4168; markbits = λ i. 0 }

abbrev sample_stack : MarkStack
sample_stack = record {
  marks = sample_marks;
  mark_scan_ptr = 4168;
  mark_stack = [];
  mark_stack_count = 0;
  mark_stack_overflow = 0;
}

All-Memᴰ : {A : Type 0} (P : A → Type 0) (xs : List A) (x : A) → All P xs → Memᴰ x xs → P x
All-Memᴰ P [] x h m = absurd (Memᴰ.not-nil m)
All-Memᴰ P (y ∷ ys) x (h, hs) m = elim (Memᴰ.cases_cons m) [
  | inl e ↦ subst P (sym e) h
  | inr m' ↦ All-Memᴰ P ys x hs m'
]

sample_places-IsObject : (q : ℕ) → Memᴰ q sample_places → IsObject sample_marks q
sample_places-IsObject q =
    All-Memᴰ (IsObject sample_marks) sample_places q (omega arith, (omega arith, (omega arith, tt)))

sample_edges : (q : ℕ) → edges sample_memory true q ≡ (4128, 3) ∷ []
unfolding edges instance_edges array_edges
sample_edges q = refl

sample_closed : IsClosedHeap sample_memory true sample_places
sample_closed q x c i m n =
    let only = Memᴰ.eq_of_singleton (subst (Memᴰ (x, c)) (sample_edges q) m) in
    subst (λ y. Memᴰ y sample_places) (sym (ap (λ (e : ℕ × ℕ). e.0) only))
      (Memᴰ.tail (Memᴰ.head refl))

sample_heap-HoldsObject : All HoldsObject sample_heap
sample_heap-HoldsObject = (inr (omega arith), (inr (omega arith), (inr (omega arith), tt)))

sample-IsTraceable : IsTraceable sample_memory true 4096 sample_heap sample_marks
sample-IsTraceable = record {
  places = sample_places-IsObject;
  holds = sample_heap-HoldsObject;
  closed = sample_closed;
}

scan_heap_and_mark-Reach_example :
    (t : MarkStack) × (scan_heap_and_mark sample_memory true 10 9 4096 sample_heap sample_stack
      ≡ some t)
    × ((3 ≤ is_marked t.marks 4152)
        ↔ Reach sample_memory true sample_places (λ m q. m ≤ is_marked sample_marks q) 3 4152)
    × (t.mark_stack ≡ [])
    × (t.mark_stack_overflow ≡ 0)
scan_heap_and_mark-Reach_example =
    scan_heap_and_mark-Reach sample_memory true 4096 sample_heap sample_stack 4152 3
      sample-IsTraceable refl refl (Memᴰ.tail (Memᴰ.tail (Memᴰ.head refl))) (omega arith)
      (omega arith)

-- A list of two entries, of which the second is used.
abbrev sample_ring : ObjectList
sample_ring = record { list = λ i. if i == 1 then 4104 else 0; start = 1; end = 2; size = 2 }

sample_ring-IsRing : IsRing sample_ring
sample_ring-IsRing = record {
  starts = omega arith;
  ends = omega arith;
  empty = λ e. omega (arith, e);
}

-- A list of two entries, both used.
abbrev full_ring : ObjectList
full_ring = record { list = λ i. if i == 0 then 4104 else 4152; start = 2; end = 2; size = 2 }

object_list_lost_example :
    let processing = record full_ring { start = 0 } in
    let (entry, left) = next_process (add_to_object_list 4128 processing) in
    (begin_process full_ring ≡ some (4104, processing))
    × (contents processing ≡ entries full_ring.list 0 2)
    × (entry ≡ none)
    × (contents left ≡ [])
object_list_lost_example = object_list_lost 4128 full_ring (omega arith) refl refl

-- The class is the only root.
abbrev sample_roots : RootSet
sample_roots = record {
  oom = 0;
  boot_classes = 4128 ∷ [];
  prim_classes = [];
  jni_global_refs = [];
  threads = [];
}

sample_roots-IsObject :
    (x : ℕ) → Memᴰ x (all_roots sample_roots sample_marks) → x ≢ 0 → IsObject sample_marks x
sample_roots-IsObject x m n = elim (Memᴰ.cases_cons m) [
  | inl e ↦ absurd (n e)
  | inr m' ↦ subst (IsObject sample_marks) (sym (Memᴰ.eq_of_singleton m')) (omega arith)
]

-- A thread whose only object is on its operand stack, at the greatest depth that its method allows.
abbrev thread_roots_only : RootSet
thread_roots_only = record {
  oom = 0;
  boot_classes = [];
  prim_classes = [];
  jni_global_refs = [];
  threads =
      record {
        thread = 0;
        exception = 0;
        c_stack = [];
        stack = λ i. if i == 9 then 4104 else 0;
        frames = record { method_class = 0; max_stack = 2; ostack = 7 } ∷ [];
      }
      ∷ [];
}

thread_roots_only-IsObject :
    (x : ℕ) → Memᴰ x (all_roots thread_roots_only sample_marks) → x ≢ 0 → IsObject sample_marks x
thread_roots_only-IsObject x =
    All-Memᴰ (λ y. y ≢ 0 → IsObject sample_marks y) (all_roots thread_roots_only sample_marks) x
      (
        λ n. absurd (n refl),
        (
          λ n. absurd (n refl),
          (λ n. absurd (n refl), (λ n. absurd (n refl), (λ n. omega arith, tt))),
        ),
      )

mark_all_roots_lem_example :
    let n = (mark_all_roots thread_roots_only sample_marks).marks in
    ((is_marked n 4104 ≡ hard_mark) ↔ Memᴰ 4104 (all_roots thread_roots_only sample_marks))
    × ((is_marked n 4104 ≡ hard_mark) ⊎ (is_marked n 4104 ≡ 0))
mark_all_roots_lem_example =
    mark_all_roots_lem thread_roots_only sample_marks 4104 thread_roots_only-IsObject (omega arith)

-- The object at 4152 waits to be finalized.
abbrev sample_collection : Collection
sample_collection = record {
  stack = sample_stack;
  has_finaliser_list = 4152 ∷ [];
  run_finaliser = sample_ring;
  reference = sample_ring;
  conservative_roots = [];
  notify_finaliser_thread = false;
}

sample_ring-contents : contents sample_ring ≡ 4104 ∷ []
unfolding contents
sample_ring-contents = refl

sample-IsReady : IsReady sample_memory true 4096 sample_heap sample_roots sample_collection
sample-IsReady = record {
  traceable = sample-IsTraceable;
  empty = refl;
  counted = refl;
  roots = sample_roots-IsObject;
  finalizable = λ x m.
      subst (λ y. Memᴰ y sample_places) (sym (Memᴰ.eq_of_singleton m))
        (Memᴰ.tail (Memᴰ.tail (Memᴰ.head refl)));
  waiting = λ x m.
      subst (λ y. Memᴰ y sample_places)
        (sym (Memᴰ.eq_of_singleton (subst (Memᴰ x) sample_ring-contents m))) (Memᴰ.head refl);
  ring = sample_ring-IsRing;
}

-- A table of weak references with a deleted entry and the object at 4104.
abbrev sample_weak_refs : List ℕ
sample_weak_refs = 0 ∷ 4104 ∷ []

sample_weak_refs-IsTable : IsTable sample_places sample_weak_refs
sample_weak_refs-IsTable x =
    All-Memᴰ (λ y. y ≢ 0 → Memᴰ y sample_places) sample_weak_refs x
      (λ n. absurd (n refl), (λ n. Memᴰ.head refl, tt))

no_refs-IsTable : IsTable sample_places []
no_refs-IsTable x m = absurd (Memᴰ.not-nil m)

sample_heap-IsFormed : All IsFormed sample_heap
sample_heap-IsFormed =
    let one : IsFormed (record { header = 25; class = none }) = record {
      whole = refl;
      positive = omega arith;
    } in
    (one, (one, (one, tt)))

-- A block of 48 bytes becomes a placeholder of 24 and a free chunk.
placeholder_run :
    convert_to_placeholder 4104 4096 (record { header = 49; class = none } ∷ [])
    ≡ (record { header = 25; class = none } ∷ record { header = 24; class = none } ∷ [], [])
unfolding convert_to_placeholder
placeholder_run = refl

-- The weak reference to the unmarked object at 4104 is cleared, and the object gets the finalizer mark.
weak_refs_run :
    let m =
      mark_weak_refs 4096 sample_heap sample_weak_refs []
        (record sample_collection { has_finaliser_list = [] }) in
    (m.weak_refs ≡ 0 ∷ 0 ∷ [])
    × (m.held.cleared_refs ≡ 4104 ∷ [])
    × (is_marked m.collection.stack.marks 4104 ≡ finalizer_mark)
unfolding mark_weak_refs is_marked set_mark mark_entry mark_slot get_bits put_bits
weak_refs_run = (refl, refl, refl)

do_mark-Reach_example :
    (t : Marked) × (do_mark sample_memory true 10 10 4096 sample_heap sample_roots sample_weak_refs
        [] sample_collection
      ≡ some t)
    × (let R =
          Reach sample_memory true sample_places
            (IsMarkRoot sample_roots sample_marks (contents t.collection.run_finaliser)) in
        (2 ≤ is_marked t.collection.stack.marks 4152)
        ↔ (R 2 4152 ⊎ IsCleared R sample_weak_refs [] 4152))
do_mark-Reach_example =
    do_mark-Reach sample_memory true 4096 sample_heap sample_roots sample_weak_refs []
      sample_collection 4152 2 sample-IsReady sample_heap-IsFormed sample_weak_refs-IsTable
      no_refs-IsTable (Memᴰ.tail (Memᴰ.tail (Memᴰ.head refl))) (omega arith) (omega arith)

do_mark-do_sweep_keeps_example :
    (t : Marked) × (do_mark sample_memory true 10 10 4096 sample_heap sample_roots sample_weak_refs
        [] sample_collection
      ≡ some t)
    × (let R =
          Reach sample_memory true sample_places
            (IsMarkRoot sample_roots sample_marks (contents t.collection.run_finaliser)) in
        let marks = λ (ob : ℕ). is_marked t.collection.stack.marks ob in
        let s = do_sweep marks 4096 t.collection.reference false t.held.blocks in
        Memᴰ 4152 (addresses (objects 4096 s.blocks))
        ↔ (R 1 4152 ⊎ IsCleared R sample_weak_refs [] 4152))
do_mark-do_sweep_keeps_example =
    do_mark-do_sweep_keeps sample_memory true 4096 sample_heap sample_roots sample_weak_refs []
      sample_collection 4152 false sample-IsReady sample_heap-IsFormed sample_weak_refs-IsTable
      no_refs-IsTable (Memᴰ.tail (Memᴰ.tail (Memᴰ.head refl)))

-- All three objects have the hard mark.
abbrev marked_stack : MarkStack
marked_stack = record sample_stack { marks = record sample_marks { markbits = λ i. 4294967295 } }

marked_class : is_marked marked_stack.marks 4128 ≡ 3
unfolding is_marked get_bits mark_slot mark_entry
marked_class = refl

marked_stack-Quiet :
    Quiet sample_memory true sample_places
      (λ _ _. Unit)
      sample_closed
      (λ _ _ _ _ _ _ _ _ _ _. tt)
      marked_stack
marked_stack-Quiet = record {
  stack = record {
    objects = λ q i.
        let o = sample_places-IsObject q i in
        record { above = o.above; below = o.below; grain = o.grain };
    counted = refl;
    bounded = omega arith;
  };
  empty = refl;
  behind = λ q i. (sample_places-IsObject q i).below;
  region = λ q i. inl (λ x c m n.
      let only = Memᴰ.eq_of_singleton (subst (Memᴰ (x, c)) (sample_edges q) m) in
      let target : x ≡ 4128 = ap (λ (e : ℕ × ℕ). e.0) only in
      let hard = ap (λ a. is_marked marked_stack.marks a) target ∙ marked_class in
      omega (arith, hard));
  sound = λ q m i pos l. tt;
}

abbrev sample_reference : Reference
sample_reference = record { is_phantom = false; referent = 4104; queue = 0 }

run_mark_clears_example :
    (t : MarkStack) × (run_mark sample_memory true 10 4104 marked_stack ≡ some t)
    × (is_marked t.marks 4104 ≡ finalizer_mark)
    × ((handle_marked_reference
          (λ q. is_marked t.marks q)
          4152
          sample_reference
          (start no_references false)).0.referent
        ≡ 0)
    × ((handle_marked_reference
          (λ q. is_marked t.marks q)
          4152
          sample_reference
          (start no_references false)).1
        ≡ true)
run_mark_clears_example =
    run_mark_clears sample_memory true sample_places 10 4104 4152 marked_stack sample_reference
      (start no_references false) sample_closed (omega arith) marked_stack-Quiet (Memᴰ.head refl)
      refl refl
