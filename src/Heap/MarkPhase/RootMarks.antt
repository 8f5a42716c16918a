-- ===== src/Heap/MarkPhase/RootMarks.antt =====
-- After the roots of src/alloc.c's doMark are marked, exactly they are marked, and hard.
use mathlib.Core.List.{Memᴰ}
use mathlib.Core.List.Memᴰ
use jamiga_jamvm.Base.{
  ℕ, zero, suc, ◌+◌, ◌-◌, ◌%◌, ◌≡◌, ◌≢◌, refl, sym, subst, ap, ap₂, ◌∙◌, ◌⊎◌, inl, inr, ◌↔◌, Bool,
  ◌&&◌, List, [], ◌∷◌, ◌++◌, arith, ◌==◌, ltb, ==_iff, if◌then◌else◌, Bool-cases,
}
use jamiga_jamvm.Heap.Sweep.{hard_mark}
use jamiga_jamvm.Heap.Marks.{
  Marks, is_marked, set_mark, is_object, clear_mark_bits, get_bits, mark_slot,
}
use jamiga_jamvm.Heap.Marks.Laws.{IsObject, is_marked-set_mark}
use jamiga_jamvm.Heap.MarkPhase.Raise.{Memᴰ-cons}
use jamiga_jamvm.Heap.MarkPhase.Roots.{
  Roots, Frame, Thread, RootSet, mark_root, mark_roots, add_conservative_root,
  mark_conservative_root, mark_conservative_roots, scan_slot, scan_c_stack, scan_slots, frame_words,
  scan_frames, top_slot, scan_thread, scan_threads, mark_all_roots,
}

-- The words among `ws` that look like objects of a heap.
abbrev pub in_heap : Marks → ℕ → Bool
in_heap m w = ltb m.heapbase w && ltb w m.heaplimit && w % 8 == 0

abbrev pub object_words : Marks → List ℕ → List ℕ
object_words m [] = []
object_words m (w ∷ ws) = let rest = object_words m ws in if in_heap m w then w ∷ rest else rest

-- So many words of a Java stack, from `slot` down.
abbrev pub slot_words : (ℕ → ℕ) → ℕ → ℕ → List ℕ
slot_words stack zero slot = []
slot_words stack (suc n) slot = stack slot ∷ slot_words stack n (slot - 1)

-- The words of the frames whose operand stacks end at `last` and below: those of a caller end before the
-- frame of its callee, a struct of five words that stands before the callee's operand stack.
abbrev pub frame_roots : Marks → (ℕ → ℕ) → ℕ → List Frame → List ℕ
frame_roots m stack last [] = []
frame_roots m stack last (f ∷ fs) =
    (f.method_class ∷ object_words m (slot_words stack (last + 1 - f.ostack) last))
    ++ frame_roots m stack (f.ostack - 1 - 5) fs

-- The operand stack of the last frame is taken to be as large as its method allows.
abbrev pub stack_roots : Marks → (ℕ → ℕ) → List Frame → List ℕ
stack_roots m stack [] = []
stack_roots m stack (f ∷ fs) = frame_roots m stack (f.ostack + f.max_stack) (f ∷ fs)

-- What a thread holds on to: its own objects, and whatever on its stacks looks like an object.
abbrev pub thread_roots : Marks → Thread → List ℕ
thread_roots m t =
    t.thread ∷ t.exception ∷ (object_words m t.c_stack ++ stack_roots m t.stack t.frames)

abbrev pub threads_roots : Marks → List Thread → List ℕ
threads_roots m [] = []
threads_roots m (t ∷ ts) = thread_roots m t ++ threads_roots m ts

-- The roots; NULL may be among them.
abbrev pub all_roots : RootSet → Marks → List ℕ
all_roots rs m =
    (rs.oom ∷ rs.boot_classes)
    ++ rs.prim_classes
    ++ rs.jni_global_refs
    ++ threads_roots m rs.threads

-- The same heap limits.
record SameHeap (m n : Marks) : Type 0 where
  base : n.heapbase ≡ m.heapbase
  limit : n.heaplimit ≡ m.heaplimit

mark_conservative_root-SameHeap :
    (ob : ℕ) (r : Roots) → SameHeap r.marks (mark_conservative_root ob r).marks
unfolding mark_conservative_root set_mark add_conservative_root
mark_conservative_root-SameHeap ob r = record { base = ground arith; limit = ground arith }

mark_conservative_roots-SameHeap :
    (obs : List ℕ) (r : Roots) → SameHeap r.marks (mark_conservative_roots obs r).marks
mark_conservative_roots-SameHeap [] r = record { base = refl; limit = refl }
mark_conservative_roots-SameHeap (ob ∷ obs) r =
    let one = mark_conservative_root-SameHeap ob r in
    let rest = mark_conservative_roots-SameHeap obs (mark_conservative_root ob r) in
    record { base = rest.base ∙ one.base; limit = rest.limit ∙ one.limit }

object_words-eq : (m n : Marks) (ws : List ℕ) → SameHeap m n → object_words n ws ≡ object_words m ws
object_words-eq m n [] h = refl
object_words-eq m n (w ∷ ws) h = rw (h.base, h.limit) (ground (arith, object_words-eq m n ws h))

mark_conservative_roots-append :
    (xs ys : List ℕ) (r : Roots)
    → mark_conservative_roots (xs ++ ys) r
      ≡ mark_conservative_roots ys (mark_conservative_roots xs r)
mark_conservative_roots-append [] ys r = refl
mark_conservative_roots-append (x ∷ xs) ys r = mark_conservative_roots-append xs ys _

scan_c_stack-roots :
    (ws : List ℕ) (r : Roots)
    → scan_c_stack ws r ≡ mark_conservative_roots (object_words r.marks ws) r
unfolding scan_c_stack scan_slot is_object
scan_c_stack-roots [] r = refl
scan_c_stack-roots (w ∷ ws) r = elim (Bool-cases (in_heap r.marks w)) [
  | inr n ↦ rw (n, scan_c_stack) (scan_c_stack-roots ws r)
  | inl y ↦
      rw (y, scan_c_stack)
        (scan_c_stack-roots ws (mark_conservative_root w r)
          ∙ ap (λ zs. mark_conservative_roots zs (mark_conservative_root w r))
              (object_words-eq r.marks (mark_conservative_root w r).marks ws
                (mark_conservative_root-SameHeap w r)))
]

scan_slots-words :
    (stack : ℕ → ℕ) (n slot : ℕ) (r : Roots)
    → scan_slots stack n slot r ≡ scan_c_stack (slot_words stack n slot) r
unfolding scan_slots scan_c_stack
scan_slots-words stack zero slot r = refl
scan_slots-words stack (suc n) slot r = scan_slots-words stack n (slot - 1) _

frame_roots-eq :
    (m n : Marks) (stack : ℕ → ℕ) (slot : ℕ) (fs : List Frame)
    → SameHeap m n
    → frame_roots n stack slot fs ≡ frame_roots m stack slot fs
frame_roots-eq m n stack slot [] h = refl
frame_roots-eq m n stack slot (f ∷ fs) h =
    ap₂ (λ xs ys. (f.method_class ∷ xs) ++ ys)
      (object_words-eq m n (slot_words stack (slot + 1 - f.ostack) slot) h)
      (frame_roots-eq m n stack (f.ostack - 1 - frame_words) fs h)

scan_frames-roots :
    (stack : ℕ → ℕ) (slot : ℕ) (fs : List Frame) (r : Roots)
    → scan_frames stack slot fs r ≡ mark_conservative_roots (frame_roots r.marks stack slot fs) r
unfolding scan_frames
scan_frames-roots stack slot [] r = refl
scan_frames-roots stack slot (f ∷ fs) r =
    let ws = slot_words stack (slot + 1 - f.ostack) slot in
    let r₁ = mark_conservative_root f.method_class r in
    let same₁ = mark_conservative_root-SameHeap f.method_class r in
    let words : scan_slots stack (slot + 1 - f.ostack) slot r₁
        ≡ mark_conservative_roots (object_words r.marks ws) r₁ =
      scan_slots-words stack (slot + 1 - f.ostack) slot r₁
      ∙ scan_c_stack-roots ws r₁
      ∙ ap (λ zs. mark_conservative_roots zs r₁) (object_words-eq r.marks r₁.marks ws same₁) in
    let r₂ = mark_conservative_roots (f.method_class ∷ object_words r.marks ws) r in
    let same₂ = mark_conservative_roots-SameHeap (f.method_class ∷ object_words r.marks ws) r in
    ap (scan_frames stack (f.ostack - 1 - frame_words) fs) words
    ∙ scan_frames-roots stack (f.ostack - 1 - frame_words) fs r₂
    ∙ ap (λ zs. mark_conservative_roots zs r₂)
        (frame_roots-eq r.marks r₂.marks stack (f.ostack - 1 - frame_words) fs same₂)
    ∙ sym (
        mark_conservative_roots-append (f.method_class ∷ object_words r.marks ws)
          (frame_roots r.marks stack (f.ostack - 1 - frame_words) fs) r)

stack_roots-top_slot :
    (m : Marks) (stack : ℕ → ℕ) (fs : List Frame)
    → stack_roots m stack fs ≡ frame_roots m stack (top_slot fs) fs
stack_roots-top_slot m stack [] = refl
stack_roots-top_slot m stack (f ∷ fs) = refl

scan_thread-roots :
    (t : Thread) (r : Roots) → scan_thread t r ≡ mark_conservative_roots (thread_roots r.marks t) r
unfolding scan_thread
scan_thread-roots t r =
    let r₁ = mark_conservative_root t.exception (mark_conservative_root t.thread r) in
    let same₁ = mark_conservative_roots-SameHeap (t.thread ∷ t.exception ∷ []) r in
    let words : scan_c_stack t.c_stack r₁
        ≡ mark_conservative_roots (object_words r.marks t.c_stack) r₁ =
      scan_c_stack-roots t.c_stack r₁
      ∙ ap (λ zs. mark_conservative_roots zs r₁)
          (object_words-eq r.marks r₁.marks t.c_stack same₁) in
    let front = t.thread ∷ t.exception ∷ object_words r.marks t.c_stack in
    let r₂ = mark_conservative_roots front r in
    ap (scan_frames t.stack (top_slot t.frames) t.frames) words
    ∙ scan_frames-roots t.stack (top_slot t.frames) t.frames r₂
    ∙ ap (λ zs. mark_conservative_roots zs r₂)
        (frame_roots-eq r.marks r₂.marks t.stack (top_slot t.frames) t.frames
          (mark_conservative_roots-SameHeap front r))
    ∙ sym (
        mark_conservative_roots-append front
          (frame_roots r.marks t.stack (top_slot t.frames) t.frames) r)
    ∙ ap (λ zs. mark_conservative_roots (front ++ zs) r)
        (sym (stack_roots-top_slot r.marks t.stack t.frames))

stack_roots-eq :
    (m n : Marks) (stack : ℕ → ℕ) (fs : List Frame)
    → SameHeap m n
    → stack_roots n stack fs ≡ stack_roots m stack fs
stack_roots-eq m n stack [] h = refl
stack_roots-eq m n stack (f ∷ fs) h = frame_roots-eq m n stack (f.ostack + f.max_stack) (f ∷ fs) h

threads_roots-eq :
    (m n : Marks) (ts : List Thread) → SameHeap m n → threads_roots n ts ≡ threads_roots m ts
threads_roots-eq m n [] h = refl
threads_roots-eq m n (t ∷ ts) h =
    ap₂ ◌++◌
      (ap₂ (λ xs ys. t.thread ∷ t.exception ∷ (xs ++ ys)) (object_words-eq m n t.c_stack h)
        (stack_roots-eq m n t.stack t.frames h))
      (threads_roots-eq m n ts h)

scan_threads-roots :
    (ts : List Thread) (r : Roots)
    → scan_threads ts r ≡ mark_conservative_roots (threads_roots r.marks ts) r
unfolding scan_threads
scan_threads-roots [] r = refl
scan_threads-roots (t ∷ ts) r =
    let front = thread_roots r.marks t in
    let r₁ = mark_conservative_roots front r in
    ap (scan_threads ts) (scan_thread-roots t r)
    ∙ scan_threads-roots ts r₁
    ∙ ap (λ zs. mark_conservative_roots zs r₁)
        (threads_roots-eq r.marks r₁.marks ts (mark_conservative_roots-SameHeap front r))
    ∙ sym (mark_conservative_roots-append front (threads_roots r.marks ts) r)

mark_root-marks :
    (ob : ℕ) (r s : Roots)
    → r.marks ≡ s.marks
    → (mark_root ob r).marks ≡ (mark_conservative_root ob s).marks
unfolding mark_root mark_conservative_root add_conservative_root
mark_root-marks ob r s e = elim (Bool-cases (ob == 0)) [
  | inl z ↦ rw z e
  | inr n ↦ rw n (ap (λ m. set_mark m ob hard_mark) e)
]

-- Marking a list of roots, conservative or not, has the same effect on the marks.
mark_roots-marks :
    (obs : List ℕ) (r s : Roots)
    → r.marks ≡ s.marks
    → (mark_roots obs r).marks ≡ (mark_conservative_roots obs s).marks
mark_roots-marks [] r s e = e
mark_roots-marks (ob ∷ obs) r s e =
    mark_roots-marks obs (mark_root ob r) (mark_conservative_root ob s) (mark_root-marks ob r s e)

-- The marks after a list of roots.
record Rooted (obs : List ℕ) (m n : Marks) : Type 0 where
  same : SameHeap m n
  hit : (q : ℕ) → IsObject m q → Memᴰ q obs → is_marked n q ≡ hard_mark
  miss : (q : ℕ) → IsObject m q → (is_marked n q ≡ is_marked m q) ⊎ Memᴰ q obs

IsObject-SameHeap : (m n : Marks) (q : ℕ) → SameHeap m n → IsObject m q → IsObject n q
IsObject-SameHeap m n q h o = record {
  above = rw h.base o.above;
  below = rw h.limit o.below;
  grain = rw h.base o.grain;
}

mark_conservative_root-marked :
    (ob q : ℕ) (r : Roots)
    → IsObject r.marks q
    → (ob ≢ 0 → IsObject r.marks ob)
    → is_marked (mark_conservative_root ob r).marks q
      ≡ (if ob == q then hard_mark else is_marked r.marks q)
unfolding mark_conservative_root add_conservative_root
mark_conservative_root-marked ob q r hq h = elim (Bool-cases (ob == 0)) [
  | inl z ↦ let above = hq.above in rw z (ground arith)
  | inr n ↦ rw n (is_marked-set_mark r.marks ob q hard_mark (h (ground arith)) hq (omega arith))
]

mark_conservative_roots-Rooted :
    (obs : List ℕ) (r : Roots)
    → ((q : ℕ) → Memᴰ q obs → q ≢ 0 → IsObject r.marks q)
    → Rooted obs r.marks (mark_conservative_roots obs r).marks
mark_conservative_roots-Rooted [] r h = record {
  same = record { base = refl; limit = refl };
  hit = λ q i m. absurd (Memᴰ.not-nil m);
  miss = λ q i. inl refl;
}
mark_conservative_roots-Rooted (ob ∷ obs) r h =
    let s = mark_conservative_root ob r in
    let same = mark_conservative_root-SameHeap ob r in
    let rest =
      mark_conservative_roots-Rooted obs s
        (λ q m n. IsObject-SameHeap r.marks s.marks q same (h q (Memᴰ.tail m) n)) in
    let there = λ (q : ℕ) (i : IsObject r.marks q). IsObject-SameHeap r.marks s.marks q same i in
    let one = λ (q : ℕ) (i : IsObject r.marks q).
      mark_conservative_root-marked ob q r i (h ob (Memᴰ.head refl)) in
    record {
      same = mark_conservative_roots-SameHeap (ob ∷ obs) r;
      hit = λ q i m. elim (rest.miss q (there q i)) [
        | inr later ↦ rest.hit q (there q i) later
        | inl keep ↦ elim ((Memᴰ-cons q ob obs).0 m) [
          | inr later ↦ rest.hit q (there q i) later
          | inl e ↦ ground (arith, keep, one q i, e)
        ]
      ];
      miss = λ q i. elim (rest.miss q (there q i)) [
        | inr later ↦ inr (Memᴰ.tail later)
        | inl keep ↦ elim (Bool-cases (ob == q)) [
          | inl e ↦ inr (Memᴰ.head (sym ((==_iff ob q).0 e)))
          | inr n ↦ inl (ground (arith, keep, one q i, n))
        ]
      ];
    }

get_bits_zero : (k : ℕ) → get_bits k 0 ≡ 0
unfolding get_bits
get_bits_zero zero = refl
get_bits_zero (suc k) = get_bits_zero k

is_marked-clear_mark_bits : (m : Marks) (q : ℕ) → is_marked (clear_mark_bits m) q ≡ 0
unfolding is_marked clear_mark_bits
is_marked-clear_mark_bits m q = get_bits_zero (mark_slot (clear_mark_bits m) q)

abbrev cleared : Marks → Roots
cleared m = record { marks = clear_mark_bits m; conservative_roots = [] }

cleared-SameHeap : (m : Marks) → SameHeap m (clear_mark_bits m)
unfolding clear_mark_bits
cleared-SameHeap m = record { base = refl; limit = refl }

SameHeap-cleared :
    (obs : List ℕ) (m : Marks) → SameHeap m (mark_conservative_roots obs (cleared m)).marks
SameHeap-cleared obs m =
    let same = mark_conservative_roots-SameHeap obs (cleared m) in
    let clear = cleared-SameHeap m in
    record { base = same.base ∙ clear.base; limit = same.limit ∙ clear.limit }

conservative-marks :
    (obs : List ℕ) (r s : Roots)
    → r.marks ≡ s.marks
    → (mark_conservative_roots obs r).marks ≡ (mark_conservative_roots obs s).marks
conservative-marks obs r s e = sym (mark_roots-marks obs r r refl) ∙ mark_roots-marks obs r s e

mark_all_roots-marks :
    (rs : RootSet) (m : Marks)
    → (mark_all_roots rs m).marks ≡ (mark_conservative_roots (all_roots rs m) (cleared m)).marks
unfolding mark_all_roots clear_mark_bits
mark_all_roots-marks rs m =
    let front = (rs.oom ∷ rs.boot_classes) ++ rs.prim_classes ++ rs.jni_global_refs in
    let booted =
      mark_roots rs.prim_classes (mark_roots rs.boot_classes (mark_root rs.oom (cleared m))) in
    let a = mark_conservative_roots rs.jni_global_refs booted in
    let b = mark_conservative_roots front (cleared m) in
    let b₁ = mark_conservative_roots (rs.oom ∷ rs.boot_classes) (cleared m) in
    let e₁ =
      mark_roots-marks rs.boot_classes _ _ (mark_root-marks rs.oom (cleared m) (cleared m) refl) in
    let e₂ =
      mark_roots-marks rs.prim_classes (mark_roots rs.boot_classes (mark_root rs.oom (cleared m)))
        b₁ e₁ in
    let e₃ =
      conservative-marks rs.jni_global_refs booted (mark_conservative_roots rs.prim_classes b₁)
        e₂ in
    let join : b
        ≡ mark_conservative_roots rs.jni_global_refs (mark_conservative_roots rs.prim_classes b₁) =
      mark_conservative_roots-append ((rs.oom ∷ rs.boot_classes) ++ rs.prim_classes)
        rs.jni_global_refs (cleared m)
      ∙ ap (mark_conservative_roots rs.jni_global_refs)
          (mark_conservative_roots-append (rs.oom ∷ rs.boot_classes) rs.prim_classes (cleared m)) in
    let e : a.marks ≡ b.marks = e₃ ∙ sym (ap (λ (r : Roots). r.marks) join) in
    let same : SameHeap m a.marks = subst (SameHeap m) (sym e) (SameHeap-cleared front m) in
    ap (λ (r : Roots). r.marks) (scan_threads-roots rs.threads a)
    ∙ ap (λ zs. (mark_conservative_roots zs a).marks) (threads_roots-eq m a.marks rs.threads same)
    ∙ conservative-marks (threads_roots m rs.threads) a b e
    ∙ sym (
        ap (λ (r : Roots). r.marks)
          (mark_conservative_roots-append front (threads_roots m rs.threads) (cleared m)))

-- After clearMarkBits and the marking of the roots, an object of the heap has the hard mark exactly
-- where it is a root, and otherwise no mark.
pub mark_all_roots_lem :
    (rs : RootSet) (m : Marks) (q : ℕ)
    → ((x : ℕ) → Memᴰ x (all_roots rs m) → x ≢ 0 → IsObject m x)
    → IsObject m q
    → let n = (mark_all_roots rs m).marks in
      ((is_marked n q ≡ hard_mark) ↔ Memᴰ q (all_roots rs m))
      × ((is_marked n q ≡ hard_mark) ⊎ (is_marked n q ≡ 0))
mark_all_roots_lem rs m q h i =
    let r =
      mark_conservative_roots-Rooted (all_roots rs m) (cleared m)
        (λ x w n. IsObject-SameHeap m (clear_mark_bits m) x (cleared-SameHeap m) (h x w n)) in
    let i' = IsObject-SameHeap m (clear_mark_bits m) q (cleared-SameHeap m) i in
    let zero_mark = is_marked-clear_mark_bits m q in
    rw (mark_all_roots-marks rs m) (elim (r.miss q i') [
      | inl e ↦ ((λ x. absurd (omega (arith, x, e, zero_mark)), r.hit q i'), inr (e ∙ zero_mark))
      | inr w ↦ ((λ _. w, r.hit q i'), inl (r.hit q i' w))
    ])

pub mark_all_roots-IsObject :
    (rs : RootSet) (m : Marks) (q : ℕ) → IsObject m q → IsObject (mark_all_roots rs m).marks q
mark_all_roots-IsObject rs m q i =
    rw (mark_all_roots-marks rs m) (IsObject-SameHeap m _ q (SameHeap-cleared (all_roots rs m) m) i)
