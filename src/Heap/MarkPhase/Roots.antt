-- ===== src/Heap/MarkPhase/Roots.antt =====
-- The roots of the mark phase: markRoot, markConservativeRoot and scanThread of src/alloc.c,
-- markBootClasses of src/class.c and scanThreads of src/thread.c.
use jamiga_jamvm.Base.{ℕ, zero, suc, ◌+◌, ◌-◌, List, [], ◌∷◌, ◌++◌, ◌==◌, if◌then◌else◌}
use jamiga_jamvm.Heap.Sweep.{hard_mark}
use jamiga_jamvm.Heap.Marks.{Marks, set_mark, is_object, clear_mark_bits}

-- The mark bits and the list of conservative roots.
pub record Roots : Type 0 where
  pub marks : Marks
  pub conservative_roots : List ℕ

-- A frame of a Java stack: its operand stack's first word, by number, and of its method the class and
-- the size of the operand stack. The class is NULL where the frame has no method.
pub record Frame : Type 0 where
  pub method_class : ℕ
  pub max_stack : ℕ
  pub ostack : ℕ

-- A thread: its java.lang.Thread, its pending exception, the words of its C stack and of its Java
-- stack, and its frames from the last one on. The first frame of all, which has no frame before it, is
-- not listed.
pub record Thread : Type 0 where
  pub thread : ℕ
  pub exception : ℕ
  pub c_stack : List ℕ
  pub stack : ℕ → ℕ
  pub frames : List Frame

-- What the virtual machine holds on to.
pub record RootSet : Type 0 where
  pub oom : ℕ
  pub boot_classes : List ℕ
  pub prim_classes : List ℕ
  pub jni_global_refs : List ℕ
  pub threads : List Thread

-- markRoot: `MARK(object, HARD_MARK)` sets both bits of the mark, whatever they were.
unfoldable pub mark_root : ℕ → Roots → Roots
mark_root object r =
    if object == 0 then r else record r { marks = set_mark r.marks object hard_mark }

abbrev pub mark_roots : List ℕ → Roots → Roots
mark_roots [] r = r
mark_roots (ob ∷ obs) r = mark_roots obs (mark_root ob r)

-- addConservativeRoot.
unfoldable pub add_conservative_root : ℕ → Roots → Roots
add_conservative_root object r = record r {
  conservative_roots = r.conservative_roots ++ object ∷ [];
}

-- markConservativeRoot.
unfoldable pub mark_conservative_root : ℕ → Roots → Roots
unfolding add_conservative_root
mark_conservative_root object r =
    if object == 0
    then r
    else add_conservative_root object (record r { marks = set_mark r.marks object hard_mark })

-- markJNIGlobalRef of each global reference.
abbrev pub mark_conservative_roots : List ℕ → Roots → Roots
mark_conservative_roots [] r = r
mark_conservative_roots (ob ∷ obs) r = mark_conservative_roots obs (mark_conservative_root ob r)

-- `if(IS_OBJECT(*slot)) markConservativeRoot(ob)`.
unfoldable pub scan_slot : ℕ → Roots → Roots
scan_slot word r = if is_object r.marks word then mark_conservative_root word r else r

-- The loop over the C stack.
unfoldable pub scan_c_stack : List ℕ → Roots → Roots
scan_c_stack [] r = r
scan_c_stack (w ∷ ws) r = scan_c_stack ws (scan_slot w r)

-- `for(; slot >= end; slot--)`: so many words from `slot` down.
unfoldable pub scan_slots : (ℕ → ℕ) → ℕ → ℕ → Roots → Roots
scan_slots stack zero slot r = r
scan_slots stack (suc n) slot r = scan_slots stack n (slot - 1) (scan_slot (stack slot) r)

-- The words of a struct frame.
abbrev pub frame_words : ℕ
frame_words = 5

-- `while(frame->prev != NULL)`, with the slot from which the frame's words are scanned.
unfoldable pub scan_frames : (ℕ → ℕ) → ℕ → List Frame → Roots → Roots
scan_frames stack slot [] r = r
scan_frames stack slot (f ∷ fs) r =
    scan_frames stack (f.ostack - 1 - frame_words) fs
      (scan_slots stack (slot + 1 - f.ostack) slot (mark_conservative_root f.method_class r))

-- The first slot: `frame->ostack + frame->mb->max_stack`.
abbrev pub top_slot : List Frame → ℕ
top_slot [] = 0
top_slot (f ∷ fs) = f.ostack + f.max_stack

-- scanThread.
unfoldable pub scan_thread : Thread → Roots → Roots
unfolding scan_frames
scan_thread t r = scan_frames t.stack (top_slot t.frames) t.frames (
    scan_c_stack t.c_stack (mark_conservative_root t.exception (mark_conservative_root t.thread r)))

-- scanThreads.
unfoldable pub scan_threads : List Thread → Roots → Roots
scan_threads [] r = r
scan_threads (t ∷ ts) r = scan_threads ts (scan_thread t r)

-- The start of doMark, up to the first heap scan.
unfoldable pub mark_all_roots : RootSet → Marks → Roots
mark_all_roots rs marks =
    let cleared : Roots = record { marks = clear_mark_bits marks; conservative_roots = [] } in
    let booted =
      mark_roots rs.prim_classes (mark_roots rs.boot_classes (mark_root rs.oom cleared)) in
    scan_threads rs.threads (mark_conservative_roots rs.jni_global_refs booted)
