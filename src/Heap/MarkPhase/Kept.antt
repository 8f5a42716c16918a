-- ===== src/Heap/MarkPhase/Kept.antt =====
-- doMark and doSweep of src/alloc.c together: what a collection keeps, and which references to objects
-- with finalizers it clears.
use mathlib.Core.List.{Memᴰ}
use mathlib.Core.List.Memᴰ
use jamiga_jamvm.Base.{
  ℕ, suc, ◌*◌, ◌≤◌, ◌<◌, ◌≡◌, ◌≢◌, refl, sym, subst, ap, ◌∙◌, ◌⊎◌, inl, inr, ◌↔◌, Bool, true, false,
  some, List, [], ◌∷◌, length, arith, ◌==◌, Bool-cases, All,
}
use jamiga_jamvm.Heap.Block.{Block, Reference, objects, IsFormed}
use jamiga_jamvm.Heap.Marks.{MarkStack, is_marked}
use jamiga_jamvm.Heap.Sweep.{Sweep, do_sweep, handle_marked_reference}
use jamiga_jamvm.Heap.Sweep.Survivors.{live, do_sweep-survivors}
use jamiga_jamvm.Heap.MarkPhase.Objects.{Memory}
use jamiga_jamvm.Heap.MarkPhase.Raise.{Memᴰ-cons}
use jamiga_jamvm.Heap.MarkPhase.Drain.{IsClosedHeap}
use jamiga_jamvm.Heap.MarkPhase.Pass.{addresses}
use jamiga_jamvm.Heap.MarkPhase.Reach.{Reach}
use jamiga_jamvm.Heap.MarkPhase.Roots.{RootSet}
use jamiga_jamvm.Heap.MarkPhase.ObjectList.{contents}
use jamiga_jamvm.Heap.MarkPhase.DoMark.{finalizer_mark, Collection, run_mark}
use jamiga_jamvm.Heap.MarkPhase.Finalizing.{Quiet, run_mark-Quiet}
use jamiga_jamvm.Heap.MarkPhase.WeakRefs.{Marked, do_mark}
use jamiga_jamvm.Heap.MarkPhase.Marked.{IsReady, IsMarkRoot}
use jamiga_jamvm.Heap.MarkPhase.Whole.{IsTable, IsCleared, do_mark-Collected}

-- The live objects are those that have a mark.
mem-live :
    (marks : ℕ → ℕ) (os : List (ℕ × ℕ)) (q : ℕ)
    → Memᴰ q (addresses (live marks os)) ↔ (Memᴰ q (addresses os) × (1 ≤ marks q))
mem-live marks [] q = (λ m. absurd (Memᴰ.not-nil m), λ m. absurd (Memᴰ.not-nil m.0))
mem-live marks ((a, h) ∷ os) q =
    let rest = mem-live marks os q in
    elim (Bool-cases (marks a == 0)) [
      | inl z ↦ rw z (
        λ m. (Memᴰ.tail (rest.0 m).0, (rest.0 m).1),
        λ (m, l). elim ((Memᴰ-cons q a (addresses os)).0 m) [
          | inl e ↦ absurd (ground (arith, z, subst (λ x. 1 ≤ marks x) e l))
          | inr m' ↦ rest.1 (m', l)
        ],
      )
      | inr n ↦ rw n (
        λ m. elim ((Memᴰ-cons q a (addresses (live marks os))).0 m) [
          | inl e ↦ (Memᴰ.head e, subst (λ x. 1 ≤ marks x) (sym e) (ground (arith, n)))
          | inr m' ↦ (Memᴰ.tail (rest.0 m').0, (rest.0 m').1)
        ],
        λ (m, l). elim ((Memᴰ-cons q a (addresses os)).0 m) [
          | inl e ↦ Memᴰ.head e
          | inr m' ↦ Memᴰ.tail (rest.1 (m', l))
        ],
      )
    ]

-- A collection without compaction keeps an object exactly where references, other than weak ones and those
-- soft ones that are to be cleared, reach it from a root or from an object that waits to be finalized, or,
-- as a placeholder, where native code has a cleared weak reference to it or a weak one while nothing reaches it.
pub do_mark-do_sweep_keeps :
    (mem : Memory) (mark_soft_refs : Bool) (heapbase : ℕ) (blocks : List Block) (rs : RootSet)
    (weak_refs cleared_refs : List ℕ) (c : Collection) (q : ℕ) (notify : Bool)
    → IsReady mem mark_soft_refs heapbase blocks rs c
    → All IsFormed blocks
    → IsTable (addresses (objects heapbase blocks)) weak_refs
    → IsTable (addresses (objects heapbase blocks)) cleared_refs
    → Memᴰ q (addresses (objects heapbase blocks))
    → let places = addresses (objects heapbase blocks) in
      let n = suc (3 * length places) in
      (t : Marked) × (do_mark mem mark_soft_refs n n heapbase blocks rs weak_refs cleared_refs c
        ≡ some t)
      × (let R =
            Reach mem mark_soft_refs places
              (IsMarkRoot rs c.stack.marks (contents t.collection.run_finaliser)) in
          let marks = λ (ob : ℕ). is_marked t.collection.stack.marks ob in
          let s = do_sweep marks heapbase t.collection.reference notify t.held.blocks in
          Memᴰ q (addresses (objects heapbase s.blocks))
          ↔ (R 1 q ⊎ IsCleared R weak_refs cleared_refs q))
do_mark-do_sweep_keeps mem mark_soft_refs heapbase blocks rs weak_refs cleared_refs c q notify h
      formed weak cleared i =
    let (t, runs, after) =
      do_mark-Collected mem mark_soft_refs heapbase blocks rs weak_refs cleared_refs c h formed weak
        cleared in
    let marked = after.marks q 1 i (omega arith) (omega arith) in
    let marks = λ (ob : ℕ). is_marked t.collection.stack.marks ob in
    let kept = mem-live marks (objects heapbase t.held.blocks) q in
    let i' = subst (λ l. Memᴰ q l) (sym after.same) i in
    (
      t,
      runs,
      rw
          (do_sweep-survivors marks heapbase t.collection.reference notify t.held.blocks
            after.formed)
          (λ m. marked.0 (kept.0 m).1, λ r. kept.1 (i', marked.1 r)),
    )

clears :
    (ob : ℕ) (r : Reference) (sweep : Sweep) (marks : ℕ → ℕ)
    → r.referent ≢ 0
    → r.is_phantom ≡ false
    → marks r.referent ≡ finalizer_mark
    → ((handle_marked_reference marks ob r sweep).0.referent ≡ 0)
      × ((handle_marked_reference marks ob r sweep).1 ≡ true)
unfolding handle_marked_reference
clears ob r sweep marks n weak m =
    let some_referent : (r.referent == 0) ≡ false = ground (arith, n) in
    let not_hard : (marks r.referent == 3) ≡ false = ground (arith, m) in
    (rw (some_referent, weak, not_hard) refl, rw (some_referent, weak, not_hard) refl)

-- RUN_MARK gives its object the finalizer mark whatever mark it had, the hard one included, so that the
-- marks that it leaves, unless later marking raises them again, are ones with which handleMarkedSpecial
-- clears a Reference to the object that is not a phantom reference.
pub run_mark_clears :
    (mem : Memory) (mark_soft_refs : Bool) (places : List ℕ) (fuel e ob : ℕ) (s : MarkStack)
    (r : Reference) (sweep : Sweep) (heap : IsClosedHeap mem mark_soft_refs places)
    → 3 * length places < fuel
    → Quiet mem mark_soft_refs places (λ _ _. Unit) heap (λ _ _ _ _ _ _ _ _ _ _. tt) s
    → Memᴰ e places
    → r.referent ≡ e
    → r.is_phantom ≡ false
    → (t : MarkStack) × (run_mark mem mark_soft_refs fuel e s ≡ some t)
      × (is_marked t.marks e ≡ finalizer_mark)
      × ((handle_marked_reference (λ q. is_marked t.marks q) ob r sweep).0.referent ≡ 0)
      × ((handle_marked_reference (λ q. is_marked t.marks q) ob r sweep).1 ≡ true)
run_mark_clears mem mark_soft_refs places fuel e ob s r sweep heap big quiet i target weak =
    let (t, runs, after, top, _) =
      run_mark-Quiet mem mark_soft_refs places (λ _ _. Unit) heap (λ _ _ _ _ _ _ _ _ _ _. tt) fuel e
        s big quiet i (λ _ _ _. tt) in
    let above = (quiet.stack.objects e i).above in
    let marks = λ (q : ℕ). is_marked t.marks q in
    let (null, cleared) =
      clears ob r sweep marks (ground (arith, above, target)) weak (ap marks target ∙ top) in
    (t, runs, top, null, cleared)
