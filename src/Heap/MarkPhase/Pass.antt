-- ===== src/Heap/MarkPhase/Pass.antt =====
-- scanHeap of src/alloc.c: one pass over the heap closes every object under references, unless the
-- mark stack overflowed.
use mathlib.Core.List.{Memᴰ}
use mathlib.Core.List.Memᴰ
use jamiga_jamvm.Base.{
  ℕ, ◌+◌, ◌≤◌, ◌<◌, ◌≡◌, refl, sym, subst, ap, ◌∙◌, ◌⊎◌, inl, inr, Bool, true, false, some, List,
  [], ◌∷◌, arith, ◌==◌, Bool-cases, Option-cases, ==_iff, All,
}
use jamiga_jamvm.Heap.Block.{
  Block, hdr_alloced, hdr_size, header_size, min_object_size, objects, extent, span,
}
use jamiga_jamvm.Heap.Marks.{MarkStack}
use jamiga_jamvm.Heap.MarkPhase.Objects.{Memory, mark_children}
use jamiga_jamvm.Heap.MarkPhase.Raise.{level, room, Memᴰ-cons, IsStack}
use jamiga_jamvm.Heap.MarkPhase.{scan_object, scan_heap}
use jamiga_jamvm.Heap.MarkPhase.Drain.{
  work, IsClosedHeap, Closed, IsPassedOn, Sound, Draining, Sound-Raised, children-Raised,
  children-Closed, region-grows, empty_mark_stack-Draining,
}

abbrev pub addresses : List (ℕ × ℕ) → List ℕ
addresses [] = []
addresses ((a, h) ∷ os) = a ∷ addresses os

pub addresses_free :
    (ptr : ℕ) (b : Block) (bs : List Block)
    → hdr_alloced b.header ≡ false
    → addresses (objects ptr (b ∷ bs)) ≡ addresses (objects (ptr + b.header) bs)
addresses_free ptr b bs h = rw h refl

pub addresses_used :
    (ptr : ℕ) (b : Block) (bs : List Block)
    → hdr_alloced b.header ≡ true
    → addresses (objects ptr (b ∷ bs))
      ≡ (ptr + header_size) ∷ addresses (objects (ptr + hdr_size b.header) bs)
addresses_used ptr b bs h = rw h refl

-- An allocated block is large enough for an object.
abbrev pub HoldsObject : Block → Type 0
HoldsObject b = (hdr_alloced b.header ≡ false) ⊎ (min_object_size ≤ hdr_size b.header)

module _ (mem : Memory) (mark_soft_refs : Bool) (places : List ℕ) (P : ℕ → ℕ → Type 0) (top : ℕ)
    (heap : IsClosedHeap mem mark_soft_refs places)
    (passed : IsPassedOn mem mark_soft_refs places P) where
  -- Between two rounds of scanHeap: the objects in `D` are behind the scan pointer and closed.
  pub record Between (D : ℕ → Type 0) (s : MarkStack) : Type 0 where
    pub stack : IsStack places s
    pub empty : s.mark_stack ≡ []
    pub region :
        (q : ℕ)
        → Memᴰ q places
        → D q
        → Closed mem mark_soft_refs places top s q ⊎ (0 < s.mark_stack_overflow)
    pub sound : Sound mem mark_soft_refs places P s

  -- What a part of the pass does to the state.
  pub record Onward (s t : MarkStack) : Type 0 where
    pub less : work places t ≤ work places s
    pub overflows : s.mark_stack_overflow ≤ t.mark_stack_overflow
    pub grows : (q : ℕ) → Memᴰ q places → level s q ≤ level t q

  abbrev Also : (ℕ → Type 0) → ℕ → ℕ → Type 0
  Also D ob q = D q ⊎ (q ≡ ob)

  -- The state after the children of the scanned object, before markStack.
  children-Draining :
      (D : ℕ → Type 0) (s : MarkStack) (ob : ℕ)
      → Memᴰ ob places
      → 1 ≤ level s ob
      → ((q : ℕ) → D q → q < s.mark_scan_ptr)
      → Between D s
      → Draining mem mark_soft_refs places P top
          (Also D ob)
          (level s ob)
          (mark_children mem ob (level s ob) mark_soft_refs s)
  children-Draining D s ob p pos behind h =
      let r = children-Raised mem mark_soft_refs places P top heap passed s ob h.stack p pos in
      let t = mark_children mem ob (level s ob) mark_soft_refs s in
      record {
        stack = r.stack;
        waiting = λ q i. elim (r.fresh q i) [
          | inl m ↦ absurd (Memᴰ.not-nil (subst (Memᴰ q) h.empty m))
          | inr (a, l) ↦ (a, omega (arith, l), omega (arith, l, r.capped q a))
        ];
        region = λ q i d. elim d [
          | inr y ↦ inl (
              subst (Closed mem mark_soft_refs places top t) (sym y)
                (children-Closed mem mark_soft_refs places P top heap passed s t ob p r))
          | inl d' ↦ elim (h.region q i d') [
            | inr o ↦ inr (inr (omega (arith, o, r.overflows)))
            | inl c ↦
                region-grows mem mark_soft_refs places P top heap passed D (level s ob) s t ob q r
                  (omega arith) i (inl (behind q d')) c
          ]
        ];
        shut = λ q i d. elim d [
          | inl d' ↦ inl (rw r.pointer (behind q d'))
          | inr y ↦ inr (subst (λ z. level s ob ≤ level t z) (sym y) (r.grows ob p))
        ];
        sound =
            Sound-Raised mem mark_soft_refs places P top heap passed s t ob (level s ob) p
              (omega arith) r h.sound;
      }

  Between-unmarked :
      (D : ℕ → Type 0) (s : MarkStack) (ob : ℕ)
      → level s ob ≡ 0
      → Between D s
      → Between (Also D ob) s
  Between-unmarked D s ob z h = record {
    stack = h.stack;
    empty = h.empty;
    region = λ q i d. elim d [
      | inl d' ↦ h.region q i d'
      | inr y ↦ inl (λ x c m n. omega (arith, z, ap (level s) y))
    ];
    sound = h.sound;
  }

  -- One round of scanHeap.
  pub scan_object-Between :
      (D : ℕ → Type 0) (fuel : ℕ) (s : MarkStack) (ob : ℕ)
      → Memᴰ ob places
      → s.mark_stack_count + room places s.marks ≤ fuel
      → ((q : ℕ) → D q → q < s.mark_scan_ptr)
      → Between D s
      → (t : MarkStack) × (scan_object mem mark_soft_refs fuel ob s ≡ some t)
        × Between (Also D ob) t
        × Onward s t
  unfolding scan_object
  scan_object-Between D fuel s ob p l behind h = elim (Bool-cases (level s ob == 0)) [
    | inl z ↦
        let zero_mark : level s ob ≡ 0 = (==_iff (level s ob) 0).0 z in
        (
          s,
          rw z refl,
          Between-unmarked D s ob zero_mark h,
          record { less = omega arith; overflows = omega arith; grows = λ q i. omega arith },
        )
    | inr n ↦
        let pos : 1 ≤ level s ob = ground arith in
        let r = children-Raised mem mark_soft_refs places P top heap passed s ob h.stack p pos in
        let d = children-Draining D s ob p pos behind h in
        let (t, q, h', empty, w, g, ptr, o, _) =
          empty_mark_stack-Draining mem mark_soft_refs places P top heap passed (Also D ob)
            (level s ob) fuel (mark_children mem ob (level s ob) mark_soft_refs s)
            (omega (arith, r.work, r.overflows, l)) d in
        (
          t,
          rw n q,
          record {
            stack = h'.stack;
            empty = empty;
            region = λ q i d. elim (h'.region q i d) [
              | inl c ↦ inl c
              | inr (inl m) ↦ absurd (Memᴰ.not-nil (subst (Memᴰ q) empty m))
              | inr (inr o) ↦ inr o
            ];
            sound = h'.sound;
          },
          record {
            less = omega (arith, w, r.work);
            overflows = omega (arith, o, r.overflows);
            grows = λ q i. omega (arith, g q i, r.grows q i);
          },
        )
  ]

  Between-at :
      (D : ℕ → Type 0) (s : MarkStack) (ptr : ℕ)
      → Between D s
      → Between D (record s { mark_scan_ptr = ptr })
  Between-at D s ptr h = record {
    stack = record {
      objects = h.stack.objects;
      counted = h.stack.counted;
      bounded = h.stack.bounded;
    };
    empty = h.empty;
    region = h.region;
    sound = h.sound;
  }

  Between-more :
      (D E : ℕ → Type 0) (s : MarkStack) → ((q : ℕ) → E q → D q) → Between D s → Between E s
  Between-more D E s f h = record {
    stack = h.stack;
    empty = h.empty;
    region = λ q i e. h.region q i (f q e);
    sound = h.sound;
  }

  -- scanHeap ends with the scan pointer at the end of the heap.
  pub scan_heap_pointer :
      (fuel ptr : ℕ) (bs : List Block) (s t : MarkStack)
      → scan_heap mem mark_soft_refs fuel ptr bs s ≡ some t
      → t.mark_scan_ptr ≡ ptr + span bs
  unfolding scan_heap
  scan_heap_pointer fuel ptr [] s t h = ground (arith, h)
  scan_heap_pointer fuel ptr (b ∷ bs) s t h = elim (Bool-cases (hdr_alloced b.header)) [
    | inr free ↦
        let size : extent b ≡ b.header = rw free refl in
        let rest =
          scan_heap_pointer fuel (ptr + b.header) bs (record s { mark_scan_ptr = ptr }) t
            (rw (free, scan_heap) at h) in
        omega (arith, rest, size)
    | inl used ↦
        let size : extent b ≡ hdr_size b.header = rw used refl in
        elim (Option-cases (
          scan_object mem mark_soft_refs fuel (ptr + header_size)
            (record s { mark_scan_ptr = ptr }))) [
              | inl e ↦ absurd (ground (arith, rw (used, e) at h))
              | inr (u, e) ↦
                  let rest =
                    scan_heap_pointer fuel (ptr + hdr_size b.header) bs u t (rw (used, e) at h) in
                  omega (arith, rest, size)
            ]
  ]

  Also-behind :
      (D : ℕ → Type 0) (ptr : ℕ) (b : Block)
      → hdr_alloced b.header ≡ true
      → HoldsObject b
      → ((q : ℕ) → D q → q < ptr)
      → (q : ℕ) → Also D (ptr + header_size) q
      → q < ptr + hdr_size b.header
  Also-behind D ptr b used f behind q d = elim f [
    | inl free ↦ absurd (ground (arith, used, free))
    | inr big ↦ elim d [ inl d' ↦ omega (arith, behind q d', big) | inr y ↦ omega (arith, y, big) ]
  ]

  scan_heap_free :
      (fuel ptr : ℕ) (b : Block) (bs : List Block) (s : MarkStack)
      → hdr_alloced b.header ≡ false
      → scan_heap mem mark_soft_refs fuel ptr (b ∷ bs) s
        ≡ scan_heap mem mark_soft_refs fuel (ptr + b.header) bs (record s { mark_scan_ptr = ptr })
  unfolding scan_heap
  scan_heap_free fuel ptr b bs s h = rw h refl

  scan_heap_used :
      (fuel ptr : ℕ) (b : Block) (bs : List Block) (s u t : MarkStack)
      → hdr_alloced b.header ≡ true
      → scan_object mem mark_soft_refs fuel (ptr + header_size) (record s { mark_scan_ptr = ptr })
        ≡ some u
      → scan_heap mem mark_soft_refs fuel (ptr + hdr_size b.header) bs u ≡ some t
      → scan_heap mem mark_soft_refs fuel ptr (b ∷ bs) s ≡ some t
  unfolding scan_heap
  scan_heap_used fuel ptr b bs s u t h q₁ q₂ = rw (h, q₁) q₂

  -- scanHeap from `ptr` on, with the objects before `ptr` behind it.
  pub scan_heap-Between :
      (D : ℕ → Type 0) (fuel ptr : ℕ) (bs : List Block) (s : MarkStack)
      → All HoldsObject bs
      → ((q : ℕ) → Memᴰ q (addresses (objects ptr bs)) → Memᴰ q places)
      → ((q : ℕ) → D q → q < ptr)
      → s.mark_stack_count + room places s.marks ≤ fuel
      → Between D s
      → (t : MarkStack) × (scan_heap mem mark_soft_refs fuel ptr bs s ≡ some t)
        × Between (λ q. D q ⊎ Memᴰ q (addresses (objects ptr bs))) t
        × Onward s t
  unfolding scan_heap
  scan_heap-Between D fuel ptr [] s f inside behind l h = (
    record s { mark_scan_ptr = ptr },
    refl,
    Between-more D _ _ (λ q d. elim d [ inl d' ↦ d' | inr m ↦ absurd (Memᴰ.not-nil m) ])
        (Between-at D s ptr h),
    record { less = omega arith; overflows = omega arith; grows = λ q i. omega arith },
  )
  scan_heap-Between D fuel ptr (b ∷ bs) s (f, fs) inside behind l h =
      let s' = record s { mark_scan_ptr = ptr } in
      elim (Bool-cases (hdr_alloced b.header)) [
        | inr free ↦
            let same = addresses_free ptr b bs free in
            let (t, q₁, h', on) =
              scan_heap-Between D fuel (ptr + b.header) bs s' fs
                (λ q m. inside q (subst (Memᴰ q) (sym same) m)) (λ q d. omega (arith, behind q d)) l
                (Between-at D s ptr h) in
            (
              t,
              scan_heap_free fuel ptr b bs s free ∙ q₁,
              Between-more _ _ t
                  (λ q d. elim d [ inl d' ↦ inl d' | inr m ↦ inr (subst (Memᴰ q) same m) ]) h',
              record { less = on.less; overflows = on.overflows; grows = on.grows },
            )
        | inl used ↦
            let ob = ptr + header_size in
            let same = addresses_used ptr b bs used in
            let (u, q₁, h₁, on₁) =
              scan_object-Between D fuel s' ob
                (inside ob (subst (Memᴰ ob) (sym same) (Memᴰ.head refl))) l behind
                (Between-at D s ptr h) in
            let (t, q₂, h₂, on₂) =
              scan_heap-Between (Also D ob) fuel (ptr + hdr_size b.header) bs u fs
                (λ q m. inside q (subst (Memᴰ q) (sym same) (Memᴰ.tail m)))
                (Also-behind D ptr b used f behind) (omega (arith, on₁.less, on₁.overflows, l))
                h₁ in
            (
              t,
              scan_heap_used fuel ptr b bs s u t used q₁ q₂,
              Between-more _ _ t
                  (λ q d. elim d [
                    | inl d' ↦ inl (inl d')
                    | inr m ↦ elim ((Memᴰ-cons q ob _).0 (subst (Memᴰ q) same m)) [
                      | inl y ↦ inl (inr y)
                      | inr m' ↦ inr m'
                    ]
                  ])
                  h₂,
              record {
                less = omega (arith, on₁.less, on₂.less);
                overflows = omega (arith, on₁.overflows, on₂.overflows);
                grows = λ q i. omega (arith, on₁.grows q i, on₂.grows q i);
              },
            )
      ]
