-- ===== src/Heap/MarkPhase/Marked.antt =====
-- What doMark of src/alloc.c has marked when it is through with the objects to be finalized.
use mathlib.Core.List.{Memᴰ}
use jamiga_jamvm.Base.{
  ℕ, suc, ◌*◌, ◌≤◌, ◌≡◌, ◌≢◌, refl, ◌⊎◌, inl, inr, ◌↔◌, Bool, some, List, [], ◌∷◌, length, arith,
  ◌==◌, Bool-cases, All,
}
use jamiga_jamvm.Heap.Block.{Block, objects}
use jamiga_jamvm.Heap.Sweep.{hard_mark}
use jamiga_jamvm.Heap.Marks.{Marks, MarkStack, is_marked}
use jamiga_jamvm.Heap.Marks.Laws.{IsObject}
use jamiga_jamvm.Heap.MarkPhase.{scan_heap_and_mark}
use jamiga_jamvm.Heap.MarkPhase.Objects.{Memory}
use jamiga_jamvm.Heap.MarkPhase.Raise.{level, IsStack}
use jamiga_jamvm.Heap.MarkPhase.Drain.{IsClosedHeap, Closed, IsPassedOn, Sound}
use jamiga_jamvm.Heap.MarkPhase.Pass.{addresses, HoldsObject}
use jamiga_jamvm.Heap.MarkPhase.Reach.{
  IsTraceable, Reach, root, step, room_bound, Reach-passed, Reach-level, Scanned,
  scan_heap_and_mark-Scanned,
}
use jamiga_jamvm.Heap.MarkPhase.Roots.{RootSet, mark_all_roots}
use jamiga_jamvm.Heap.MarkPhase.RootMarks.{all_roots, mark_all_roots_lem, mark_all_roots-IsObject}
use jamiga_jamvm.Heap.MarkPhase.ObjectList.{ObjectList, add_to_object_list, contents}
use jamiga_jamvm.Heap.MarkPhase.RingLaws.{IsRing, add_to_object_list-IsRing, contents-added}
use jamiga_jamvm.Heap.MarkPhase.DoMark.{
  finalizer_mark, Collection, move_unmarked, rescan, mark_live, end_mark,
}
use jamiga_jamvm.Heap.MarkPhase.Finalizing.{addresses-lt, Quiet, run_marks-Quiet}

-- A root for the mark `m`: one of the virtual machine's, or, for the finalizer mark and below, an object
-- that waits to be finalized.
abbrev pub IsMarkRoot : RootSet → Marks → List ℕ → ℕ → ℕ → Type 0
IsMarkRoot rs marks waiting m q =
    Memᴰ q (all_roots rs marks) ⊎ (Memᴰ q waiting × (m ≤ finalizer_mark))

-- The objects that are moved to the list of those to be finalized were on one of the two lists.
move_unmarked-contents :
    (marks : Marks) (obs : List ℕ) (l : ObjectList) (x : ℕ)
    → IsRing l
    → Memᴰ x (contents (move_unmarked marks obs l).1)
    → Memᴰ x (contents l) ⊎ Memᴰ x obs
unfolding move_unmarked
move_unmarked-contents marks [] l x h m = inl m
move_unmarked-contents marks (ob ∷ obs) l x h m =
    elim (Bool-cases (is_marked marks ob == hard_mark)) [
      | inl k ↦ elim (move_unmarked-contents marks obs l x h (rw (k, move_unmarked) at m)) [
        | inl a ↦ inl a
        | inr a ↦ inr (Memᴰ.tail a)
      ]
      | inr k ↦
          let h' = add_to_object_list-IsRing ob l h in
          elim (move_unmarked-contents marks obs (add_to_object_list ob l) x h'
            (rw (k, move_unmarked) at m)) [
              | inr a ↦ inr (Memᴰ.tail a)
              | inl a ↦ elim (contents-added ob l x h a) [
                | inl b ↦ inl b
                | inr e ↦ inr (Memᴰ.head e)
              ]
            ]
    ]

Reach-mono :
    (mem : Memory) (mark_soft_refs : Bool) (places : List ℕ) (P Q : ℕ → ℕ → Type 0)
    → ((q m : ℕ) → P m q → Q m q)
    → (m q : ℕ) → Reach mem mark_soft_refs places P m q
    → Reach mem mark_soft_refs places Q m q
Reach-mono mem mark_soft_refs places P Q f m q (root i r) = root i (f q m r)
Reach-mono mem mark_soft_refs places P Q f m q (step {p} c r e n l) =
    step c (Reach-mono mem mark_soft_refs places P Q f m p r) e n l

module _ (mem : Memory) (mark_soft_refs : Bool) (heapbase : ℕ) (blocks : List Block) where
  abbrev places : List ℕ
  places = addresses (objects heapbase blocks)

  abbrev fuel : ℕ
  fuel = suc (3 * length places)

  module _ (holds : All HoldsObject blocks) (heap : IsClosedHeap mem mark_soft_refs places)
      (P : ℕ → ℕ → Type 0) (passed : IsPassedOn mem mark_soft_refs places P) where
    Closed-below :
        (t : MarkStack) (q : ℕ)
        → Closed mem mark_soft_refs places 3 t q
        → Closed mem mark_soft_refs places finalizer_mark t q
    Closed-below t q h x c m n = omega (arith, h x c m n)

    Scanned-Quiet :
        (P₀ : ℕ → ℕ → Type 0) (s t : MarkStack)
        → Sound mem mark_soft_refs places P t
        → Scanned mem mark_soft_refs heapbase blocks P₀ s t
        → Quiet mem mark_soft_refs places P heap passed t
    Scanned-Quiet P₀ s t sound h = record {
      stack = h.stack;
      empty = h.empty;
      behind = λ q i. omega (arith, addresses-lt heapbase blocks q holds i, h.pointer);
      region = λ q i. inl (Closed-below t q (h.closed q i));
      sound = sound;
    }

    -- The end of doMark's marking.
    record Final (s t : MarkStack) : Type 0 where
      stack : IsStack places t
      empty : t.mark_stack ≡ []
      closed : (q : ℕ) → Memᴰ q places → Closed mem mark_soft_refs places finalizer_mark t q
      sound : Sound mem mark_soft_refs places P t
      grows : (q : ℕ) → Memᴰ q places → level s q ≤ level t q

    rescan-Final :
        (s : MarkStack)
        → Quiet mem mark_soft_refs places P heap passed s
        → (t : MarkStack) × (rescan mem mark_soft_refs fuel fuel heapbase blocks s ≡ some t)
          × Final s t
    unfolding rescan
    rescan-Final s h = elim (Bool-cases (s.mark_stack_overflow == 0)) [
      | inl z ↦ (
        s,
        rw z refl,
        record {
          stack = h.stack;
          empty = h.empty;
          closed = λ q i. elim (h.region q i) [ inl c ↦ c | inr o ↦ absurd (ground (arith, o, z)) ];
          sound = h.sound;
          grows = λ q i. omega arith;
        },
      )
      | inr n ↦
          let bound = room_bound places s.marks in
          let (t, runs, r) =
            scan_heap_and_mark-Scanned mem mark_soft_refs heapbase blocks P fuel fuel s holds heap
              passed h.stack h.empty h.sound (omega (arith, bound)) (omega (arith, bound)) in
          (
            t,
            rw n runs,
            record {
              stack = r.stack;
              empty = r.empty;
              closed = λ q i. Closed-below t q (r.closed q i);
              sound = r.sound;
              grows = r.grows;
            },
          )
    ]

  -- What is assumed of the collector's state when doMark begins.
  pub record IsReady (rs : RootSet) (c : Collection) : Type 0 where
    pub traceable : IsTraceable mem mark_soft_refs heapbase blocks c.stack.marks
    pub empty : c.stack.mark_stack ≡ []
    pub counted : c.stack.mark_stack_count ≡ 0
    pub roots : (x : ℕ) → Memᴰ x (all_roots rs c.stack.marks) → x ≢ 0 → IsObject c.stack.marks x
    pub finalizable : (x : ℕ) → Memᴰ x c.has_finaliser_list → Memᴰ x places
    pub waiting : (x : ℕ) → Memᴰ x (contents c.run_finaliser) → Memᴰ x places
    pub ring : IsRing c.run_finaliser

  module _ (rs : RootSet) (c : Collection) (h : IsReady rs c) where
    abbrev IsRooted : ℕ → ℕ → Type 0
    IsRooted m q = Memᴰ q (all_roots rs c.stack.marks)

    -- The first heap scan, from the roots.
    scan_roots :
        let start = record c.stack { marks = (mark_all_roots rs c.stack.marks).marks } in
        (s : MarkStack) × (scan_heap_and_mark mem mark_soft_refs fuel fuel heapbase blocks start
          ≡ some s)
        × Scanned mem mark_soft_refs heapbase blocks
            (λ m q. Reach mem mark_soft_refs places IsRooted m q)
            start
            s
    scan_roots =
        let marks = (mark_all_roots rs c.stack.marks).marks in
        let start = record c.stack { marks = marks } in
        let bound = room_bound places marks in
        scan_heap_and_mark-Scanned mem mark_soft_refs heapbase blocks
          (λ m q. Reach mem mark_soft_refs places IsRooted m q) fuel fuel start h.traceable.holds
          h.traceable.closed (Reach-passed mem mark_soft_refs places IsRooted h.traceable.closed)
          (record {
            objects = λ q i. mark_all_roots-IsObject rs c.stack.marks q (h.traceable.places q i);
            counted = rw (h.counted, h.empty) refl;
            bounded = omega (arith, h.counted);
          })
          h.empty
          (λ q m i pos l.
            let (is_root, or_none) =
              mark_all_roots_lem rs c.stack.marks q h.roots (h.traceable.places q i) in
            elim or_none [
              | inl hard ↦ root i (is_root.0 hard)
              | inr zero_mark ↦ absurd (omega (arith, zero_mark, pos, l))
            ])
          (omega (arith, bound)) (omega (arith, bound))

    root_level :
        (s : MarkStack) (q : ℕ)
        → ((q : ℕ)
            → Memᴰ q places
            → is_marked (mark_all_roots rs c.stack.marks).marks q ≤ level s q)
        → Memᴰ q places
        → Memᴰ q (all_roots rs c.stack.marks)
        → hard_mark ≤ level s q
    root_level s q grows i r =
        let (is_root, _) = mark_all_roots_lem rs c.stack.marks q h.roots (h.traceable.places q i) in
        omega (arith, is_root.1 r, grows q i)

    -- doMark reaches the list of references, in a state in which the marks up to the finalizer mark are those of reachability.
    pub mark_live-marks :
        (t : Collection) × (mark_live mem mark_soft_refs fuel fuel heapbase blocks rs c ≡ some t)
        × IsStack places t.stack
        × ((q m : ℕ)
            → Memᴰ q places
            → 1 ≤ m
            → m ≤ finalizer_mark
            → (m ≤ is_marked t.stack.marks q)
              ↔ Reach mem mark_soft_refs places
                  (IsMarkRoot rs c.stack.marks (contents t.run_finaliser))
                  m
                  q)
    unfolding mark_live end_mark
    mark_live-marks =
        let (s, runs₁, scanned) = scan_roots in
        let moved = move_unmarked s.marks c.has_finaliser_list c.run_finaliser in
        let waiting = contents moved.1 in
        let IsR = IsMarkRoot rs c.stack.marks waiting in
        let P = λ (m q : ℕ). Reach mem mark_soft_refs places IsR m q in
        let passed = Reach-passed mem mark_soft_refs places IsR h.traceable.closed in
        let inside : (x : ℕ) → Memᴰ x waiting → Memᴰ x places = λ x w.
          elim (move_unmarked-contents s.marks c.has_finaliser_list c.run_finaliser x h.ring w) [
            | inl a ↦ h.waiting x a
            | inr a ↦ h.finalizable x a
          ] in
        let sound₁ : Sound mem mark_soft_refs places P s = λ q m i pos l.
          Reach-mono mem mark_soft_refs places IsRooted IsR (λ q m r. inl r) m q
            (scanned.sound q m i pos l) in
        let quiet =
          Scanned-Quiet h.traceable.holds h.traceable.closed P passed _ _ s sound₁ scanned in
        let (t, runs₂, quiet₂, keeps, finals) =
          run_marks-Quiet mem mark_soft_refs places P h.traceable.closed passed fuel waiting s
            (omega arith) quiet inside (λ e m w pos l. root (inside e w) (inr (w, l))) in
        let (u, runs₃, final) =
          rescan-Final h.traceable.holds h.traceable.closed P passed t quiet₂ in
        (
          end_mark (mark_all_roots rs c.stack.marks) moved u c,
          rw (runs₁, runs₂, runs₃) refl,
          final.stack,
          λ q m i pos l. (
            λ le. final.sound q m i pos le,
            Reach-level mem mark_soft_refs places IsR h.traceable.closed u finalizer_mark
                (λ x k small j r. elim r [
                  | inl a ↦
                      let top = root_level s x scanned.grows j a in
                      omega (arith, top, keeps x j, final.grows x j, small)
                  | inr (a, b) ↦ omega (arith, finals x a, final.grows x j, b)
                ])
                final.closed m q l,
          ),
        )
