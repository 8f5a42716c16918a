-- ===== src/Heap/MarkPhase/Whole.antt =====
-- doMark of src/alloc.c as a whole: what the roots and the objects to be finalized reach, and the placeholders
-- of weak references of native code.
use mathlib.Core.List.{Memᴰ}
use jamiga_jamvm.Base.{
  ℕ, suc, ◌*◌, ◌≤◌, ◌≡◌, ◌≢◌, refl, ◌⊎◌, inl, inr, ◌↔◌, Bool, some, List, [], length, arith, ◌==◌,
  Bool-cases, All,
}
use jamiga_jamvm.Heap.Block.{Block, objects, IsFormed}
use jamiga_jamvm.Heap.Marks.{is_marked}
use jamiga_jamvm.Heap.MarkPhase.Objects.{Memory}
use jamiga_jamvm.Heap.MarkPhase.Pass.{addresses}
use jamiga_jamvm.Heap.MarkPhase.Reach.{Reach}
use jamiga_jamvm.Heap.MarkPhase.Roots.{RootSet}
use jamiga_jamvm.Heap.MarkPhase.ObjectList.{contents}
use jamiga_jamvm.Heap.MarkPhase.DoMark.{finalizer_mark, Collection}
use jamiga_jamvm.Heap.MarkPhase.WeakRefs.{Marked, Held, scan_weak_refs, mark_weak_refs, do_mark}
use jamiga_jamvm.Heap.MarkPhase.Marked.{IsReady, IsMarkRoot, mark_live-marks}
use jamiga_jamvm.Heap.MarkPhase.Placeholders.{
  scan_weak_refs-Keeps, scan_weak_refs-cleared, mark_cleared_refs_lem,
}

-- The entries of a table are NULL or objects of the heap.
abbrev pub IsTable : List ℕ → List ℕ → Type 0
IsTable places refs = (x : ℕ) → Memᴰ x refs → x ≢ 0 → Memᴰ x places

-- An object is in the table of cleared references, or in that of the weak ones and not reached.
abbrev pub IsCleared : (ℕ → ℕ → Type 0) → List ℕ → List ℕ → ℕ → Type 0
IsCleared R weak_refs cleared_refs q = Memᴰ q cleared_refs ⊎ (Memᴰ q weak_refs × (¬ (R 1 q)))

module _ (mem : Memory) (mark_soft_refs : Bool) (heapbase : ℕ) (blocks : List Block) (rs : RootSet)
    (weak_refs cleared_refs : List ℕ) (c : Collection) where
  abbrev places : List ℕ
  places = addresses (objects heapbase blocks)

  abbrev fuel : ℕ
  fuel = suc (3 * length places)

  -- What doMark leaves.
  pub record Collected (t : Marked) : Type 0 where
    pub same : addresses (objects heapbase t.held.blocks) ≡ places
    pub formed : All IsFormed t.held.blocks
    pub marks :
        (q m : ℕ)
        → Memᴰ q places
        → 1 ≤ m
        → m ≤ finalizer_mark
        → let R =
            Reach mem mark_soft_refs places
              (IsMarkRoot rs c.stack.marks (contents t.collection.run_finaliser)) in
          (m ≤ is_marked t.collection.stack.marks q)
          ↔ (R m q ⊎ IsCleared R weak_refs cleared_refs q)

  module _ (h : IsReady mem mark_soft_refs heapbase blocks rs c) (formed : All IsFormed blocks)
      (weak : IsTable places weak_refs) (cleared : IsTable places cleared_refs) where
    pub do_mark-Collected :
        (t : Marked) × (do_mark mem mark_soft_refs fuel fuel heapbase blocks rs weak_refs
            cleared_refs c
          ≡ some t)
        × Collected t
    unfolding do_mark mark_weak_refs
    do_mark-Collected =
        let (u, runs, stack, marks) = mark_live-marks mem mark_soft_refs heapbase blocks rs c h in
        let start : Held = record {
          blocks = blocks;
          released = [];
          cleared_refs = cleared_refs;
          conservative_roots = u.conservative_roots;
        } in
        let scanned = scan_weak_refs u.stack.marks heapbase weak_refs start in
        let in_order =
          scan_weak_refs-Keeps u.stack.marks heapbase weak_refs start (formed, h.traceable.holds) in
        let entries = scan_weak_refs-cleared u.stack.marks heapbase weak_refs start in
        (
          mark_weak_refs heapbase blocks weak_refs cleared_refs u,
          rw runs refl,
          record {
            same = in_order.same;
            formed = in_order.formed;
            marks = λ q m i pos l.
                let o = stack.objects q i in
                let above = o.above in
                let entry = entries q (omega (arith, above)) in
                let raised =
                  mark_cleared_refs_lem scanned.1.cleared_refs u.stack.marks
                    scanned.1.conservative_roots q m
                    (λ x j nz. elim ((entries x nz).0 j) [
                      | inl old ↦ stack.objects x (cleared x old nz)
                      | inr new ↦ stack.objects x (weak x new.0 nz)
                    ])
                    o pos l in
                let reached = marks q m i pos l in
                let reached₁ = marks q 1 i (omega arith) (omega arith) in
                (
                  λ k. elim (raised.0 k) [
                    | inr k' ↦ inl (reached.0 k')
                    | inl n ↦ elim (entry.0 n) [
                      | inl old ↦ inr (inl old)
                      | inr new ↦
                          let unmarked = new.1 in
                          inr (
                            inr
                              (new.0, λ r. let one = reached₁.1 r in omega (arith, one, unmarked)))
                    ]
                  ],
                  λ k. elim k [
                    | inl r ↦ raised.1 (inr (reached.1 r))
                    | inr (inl old) ↦ raised.1 (inl (entry.1 (inl old)))
                    | inr (inr new) ↦ raised.1 (
                        inl (
                          entry.1 (
                            inr (
                              new.0,
                              elim (Bool-cases (is_marked u.stack.marks q == 0)) [
                                | inl z ↦ ground (arith, z)
                                | inr k₀ ↦ absurd (new.1 (reached₁.0 (ground (arith, k₀))))
                              ],
                            ))))
                  ],
                );
          },
        )

-- doMark returns, with three rounds and one more for every object. An object has a mark of at least `m`
-- then, where `m` is at most the finalizer mark, exactly where references that pass on `m` reach it from
-- a root or from an object that waits to be finalized, or where it is in the table of cleared weak
-- references of native code, or in that of the weak ones while nothing reaches it.
pub do_mark-Reach :
    (mem : Memory) (mark_soft_refs : Bool) (heapbase : ℕ) (blocks : List Block) (rs : RootSet)
    (weak_refs cleared_refs : List ℕ) (c : Collection) (q m : ℕ)
    → IsReady mem mark_soft_refs heapbase blocks rs c
    → All IsFormed blocks
    → IsTable (addresses (objects heapbase blocks)) weak_refs
    → IsTable (addresses (objects heapbase blocks)) cleared_refs
    → Memᴰ q (addresses (objects heapbase blocks))
    → 1 ≤ m
    → m ≤ finalizer_mark
    → let places = addresses (objects heapbase blocks) in
      let n = suc (3 * length places) in
      (t : Marked) × (do_mark mem mark_soft_refs n n heapbase blocks rs weak_refs cleared_refs c
        ≡ some t)
      × (let R =
            Reach mem mark_soft_refs places
              (IsMarkRoot rs c.stack.marks (contents t.collection.run_finaliser)) in
          (m ≤ is_marked t.collection.stack.marks q)
          ↔ (R m q ⊎ IsCleared R weak_refs cleared_refs q))
do_mark-Reach mem mark_soft_refs heapbase blocks rs weak_refs cleared_refs c q m h formed weak
      cleared i pos l =
    let (t, runs, after) =
      do_mark-Collected mem mark_soft_refs heapbase blocks rs weak_refs cleared_refs c h formed weak
        cleared in
    (t, runs, after.marks q m i pos l)
