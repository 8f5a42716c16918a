-- ===== src/Heap/MarkPhase/Reach.antt =====
-- scanHeapAndMark of src/alloc.c marks what is reachable, each object with the strongest mark that
-- reaches it, and it ends however often the mark stack overflows.
use mathlib.Core.List.{Memᴰ}
use jamiga_jamvm.Base.{
  ℕ, zero, suc, ◌+◌, ◌*◌, ◌≤◌, ◌<◌, ◌≡◌, ◌≢◌, refl, ap, ◌∙◌, inl, inr, ◌↔◌, Bool, true, false, some,
  List, [], ◌∷◌, length, arith, ◌==◌, Bool-cases, ==_iff, All,
}
use jamiga_jamvm.Heap.Block.{Block, objects, span}
use jamiga_jamvm.Heap.Marks.{Marks, MarkStack, is_marked}
use jamiga_jamvm.Heap.Marks.Laws.{IsObject}
use jamiga_jamvm.Heap.MarkPhase.Objects.{Memory}
use jamiga_jamvm.Heap.MarkPhase.Edges.{edges}
use jamiga_jamvm.Heap.MarkPhase.Raise.{level, room, IsStack}
use jamiga_jamvm.Heap.MarkPhase.Drain.{IsClosedHeap, Closed, IsPassedOn, Sound}
use jamiga_jamvm.Heap.MarkPhase.Pass.{
  addresses, HoldsObject, Between, scan_heap-Between, scan_heap_pointer,
}
use jamiga_jamvm.Heap.MarkPhase.{scan_heap_and_mark}

-- The heap's objects: each is an object's place, in a block that is large enough, and refers to NULL
-- and to objects of the heap only.
pub record IsTraceable (mem : Memory) (mark_soft_refs : Bool) (heapbase : ℕ) (blocks : List Block)
    (marks : Marks) : Type 0 where
  pub places : (q : ℕ) → Memᴰ q (addresses (objects heapbase blocks)) → IsObject marks q
  pub holds : All HoldsObject blocks
  pub closed : IsClosedHeap mem mark_soft_refs (addresses (objects heapbase blocks))

-- An object that is a root for the mark `m`, or reached from one along references that pass on `m`.
pub data Reach (mem : Memory) (mark_soft_refs : Bool) (places : List ℕ) (IsRoot : ℕ → ℕ → Type 0)
    (m : ℕ) : ℕ → Type 0 where
  root : {q : ℕ} → Memᴰ q places → IsRoot m q → Reach mem mark_soft_refs places IsRoot m q
  step :
      {p q : ℕ} (c : ℕ)
      → Reach mem mark_soft_refs places IsRoot m p
      → Memᴰ (q, c) (edges mem mark_soft_refs p)
      → q ≢ 0
      → m ≤ c
      → Reach mem mark_soft_refs places IsRoot m q

pub room_bound : (ps : List ℕ) (marks : Marks) → room ps marks ≤ 3 * length ps
room_bound [] marks = omega arith
room_bound (p ∷ ps) marks = omega (arith, room_bound ps marks)

module _ (mem : Memory) (mark_soft_refs : Bool) (places : List ℕ) (IsRoot : ℕ → ℕ → Type 0)
    (heap : IsClosedHeap mem mark_soft_refs places) where
  pub Reach-inside : (m q : ℕ) → Reach mem mark_soft_refs places IsRoot m q → Memᴰ q places
  Reach-inside m q (root i l) = i
  Reach-inside m q (step {p} c r e n l) = heap p q c (Reach-inside m p r) e n

  pub Reach-passed :
      IsPassedOn mem mark_soft_refs places (λ m q. Reach mem mark_soft_refs places IsRoot m q)
  Reach-passed q x c m i e n pos l r = step c r e n l

  -- Marks that are closed and have not fallen reach as far as they should.
  pub Reach-level :
      (t : MarkStack)
      → (top : ℕ) → ((q m : ℕ) → m ≤ top → Memᴰ q places → IsRoot m q → m ≤ level t q)
      → ((q : ℕ) → Memᴰ q places → Closed mem mark_soft_refs places top t q)
      → (m q : ℕ) → m ≤ top
      → Reach mem mark_soft_refs places IsRoot m q
      → m ≤ level t q
  Reach-level t top grows closed m q small (root i l) = grows q m small i l
  Reach-level t top grows closed m q small (step {p} c r e n l) =
      let before = Reach-level t top grows closed m p small r in
      omega (arith, before, l, closed p (Reach-inside m p r) q c e n)

module _ (mem : Memory) (mark_soft_refs : Bool) (heapbase : ℕ) (blocks : List Block) where
  abbrev places_of : List ℕ
  places_of = addresses (objects heapbase blocks)

  -- The end of the mark phase's scans: no overflow, everything closed, nothing marked in vain.
  pub record Scanned (P : ℕ → ℕ → Type 0) (s t : MarkStack) : Type 0 where
    pub stack : IsStack places_of t
    pub empty : t.mark_stack ≡ []
    pub pointer : t.mark_scan_ptr ≡ heapbase + span blocks
    pub settled : t.mark_stack_overflow ≡ 0
    pub closed : (q : ℕ) → Memᴰ q places_of → Closed mem mark_soft_refs places_of 3 t q
    pub sound : Sound mem mark_soft_refs places_of P t
    pub grows : (q : ℕ) → Memᴰ q places_of → level s q ≤ level t q

  pub scan_heap_and_mark-Scanned :
      (P : ℕ → ℕ → Type 0) (rounds fuel : ℕ) (s : MarkStack)
      → All HoldsObject blocks
      → IsClosedHeap mem mark_soft_refs places_of
      → IsPassedOn mem mark_soft_refs places_of P
      → IsStack places_of s
      → s.mark_stack ≡ []
      → Sound mem mark_soft_refs places_of P s
      → room places_of s.marks < rounds
      → room places_of s.marks ≤ fuel
      → (t : MarkStack) × (scan_heap_and_mark mem mark_soft_refs rounds fuel heapbase blocks s
          ≡ some t)
        × Scanned P s t
  unfolding scan_heap_and_mark
  scan_heap_and_mark-Scanned P zero fuel s holds heap passed k e sound l f = absurd (omega arith)
  scan_heap_and_mark-Scanned P (suc rounds) fuel s holds heap passed k e sound l f =
      let s₀ = record s { mark_stack_overflow = 0 } in
      let none_waiting : s.mark_stack_count ≡ 0 = k.counted ∙ ap length e in
      let start : Between mem mark_soft_refs places_of P 3 heap passed (λ _. false ≡ true) s₀ =
        record {
          stack = record { objects = k.objects; counted = k.counted; bounded = k.bounded };
          empty = e;
          region = λ q i d. absurd (ground (arith, d));
          sound = sound;
        } in
      let (t, q₁, h, on) =
        scan_heap-Between mem mark_soft_refs places_of P 3 heap passed (λ _. false ≡ true) fuel
          heapbase blocks s₀ holds (λ q i. i) (λ q d. absurd (ground (arith, d)))
          (omega (arith, none_waiting, f)) start in
      elim (Bool-cases (t.mark_stack_overflow == 0)) [
        | inl z ↦ (
          t,
          rw (q₁, z) refl,
          record {
            stack = h.stack;
            empty = h.empty;
            pointer =
                scan_heap_pointer mem mark_soft_refs places_of P 3 heap passed fuel heapbase blocks
                  s₀ t q₁;
            settled = (==_iff t.mark_stack_overflow 0).0 z;
            closed = λ q i. elim (h.region q i (inr i)) [
              | inl c ↦ c
              | inr o ↦ absurd (ground (arith, o, z))
            ];
            sound = h.sound;
            grows = on.grows;
          },
        )
        | inr n ↦
            let less : room places_of t.marks < room places_of s.marks =
              ground (arith, on.less, none_waiting) in
            let (u, q₂, r) =
              scan_heap_and_mark-Scanned P rounds fuel t holds heap passed h.stack h.empty h.sound
                (omega (arith, less, l)) (omega (arith, less, f)) in
            (
              u,
              rw (q₁, n) q₂,
              record {
                stack = r.stack;
                empty = r.empty;
                pointer = r.pointer;
                settled = r.settled;
                closed = r.closed;
                sound = r.sound;
                grows = λ q i. omega (arith, on.grows q i, r.grows q i);
              },
            )
      ]

-- With three rounds for every object and one more, scanHeapAndMark returns with an empty mark stack
-- that did not overflow in the last pass. An object has a mark of at least `m` then exactly where it had
-- it at first or is reached from an object that had, along references that pass on `m`: every one, but
-- for phantom references, that pass on the phantom mark only, weak ones, and soft ones where soft
-- references are to be cleared.
pub scan_heap_and_mark-Reach :
    (mem : Memory) (mark_soft_refs : Bool) (heapbase : ℕ) (blocks : List Block) (s : MarkStack)
    (q m : ℕ)
    → IsTraceable mem mark_soft_refs heapbase blocks s.marks
    → s.mark_stack ≡ []
    → s.mark_stack_count ≡ 0
    → Memᴰ q (addresses (objects heapbase blocks))
    → 1 ≤ m
    → m ≤ 3
    → let places = addresses (objects heapbase blocks) in
      let n = 3 * length places in
      (t : MarkStack) × (scan_heap_and_mark mem mark_soft_refs (suc n) n heapbase blocks s ≡ some t)
      × ((m ≤ is_marked t.marks q)
          ↔ Reach mem mark_soft_refs places (λ m q. m ≤ is_marked s.marks q) m q)
      × (t.mark_stack ≡ [])
      × (t.mark_stack_overflow ≡ 0)
scan_heap_and_mark-Reach mem mark_soft_refs heapbase blocks s q m h e c i pos small =
    let places = addresses (objects heapbase blocks) in
    let bound = room_bound places s.marks in
    let (t, runs, r) =
      scan_heap_and_mark-Scanned mem mark_soft_refs heapbase blocks
        (λ m q. Reach mem mark_soft_refs places (λ m q. m ≤ is_marked s.marks q) m q)
        (suc (3 * length places)) (3 * length places) s h.holds h.closed
        (Reach-passed mem mark_soft_refs places _ h.closed)
        (record { objects = h.places; counted = rw (c, e) refl; bounded = omega (arith, c) }) e
        (λ q m i pos l. root i l) (omega (arith, bound)) bound in
    (
      t,
      runs,
      (
        λ l. r.sound q m i pos l,
        Reach-level mem mark_soft_refs places _ h.closed t 3
            (λ q m _ i l. omega (arith, l, r.grows q i)) r.closed m q small,
      ),
      r.empty,
      r.settled,
    )
