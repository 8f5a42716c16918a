-- ===== src/Heap/MarkPhase/Drain.antt =====
-- markStack of src/alloc.c ends, with every object that it is responsible for closed under references.
use mathlib.Core.List.{Memᴰ}
use jamiga_jamvm.Base.{
  ℕ, zero, suc, ◌+◌, ◌-◌, ◌≤◌, ◌<◌, min, max, ◌≡◌, ◌≢◌, refl, sym, subst, ap, ◌∙◌, ◌⊎◌, inl, inr,
  Bool, some, List, [], ◌∷◌, length, arith, ◌==◌, Bool-cases, List-cases,
}
use jamiga_jamvm.Heap.Marks.{MarkStack}
use jamiga_jamvm.Heap.Marks.Laws.{is_marked-lt}
use jamiga_jamvm.Heap.MarkPhase.Objects.{Memory, mark_children}
use jamiga_jamvm.Heap.MarkPhase.Edges.{edges, mark_children-edges}
use jamiga_jamvm.Heap.MarkPhase.Raise.{level, room, Memᴰ-cons, IsStack, Raised, mark_edges-Raised}
use jamiga_jamvm.Heap.MarkPhase.{mark_popped, empty_mark_stack}

-- The work that is left: each overflow and each entry of the stack took a mark that rose.
abbrev pub work : List ℕ → MarkStack → ℕ
work places s = s.mark_stack_count + s.mark_stack_overflow + room places s.marks

module _ (mem : Memory) (mark_soft_refs : Bool) (places : List ℕ) where
  -- References lead to objects of the heap.
  abbrev pub IsClosedHeap : Type 0
  IsClosedHeap =
      (q x c : ℕ) → Memᴰ q places → Memᴰ (x, c) (edges mem mark_soft_refs q) → x ≢ 0 → Memᴰ x places

  -- What a reference passes on, up to the mark `top`, has arrived.
  abbrev pub Closed : ℕ → MarkStack → ℕ → Type 0
  Closed top s q =
      (x c : ℕ)
      → Memᴰ (x, c) (edges mem mark_soft_refs q)
      → x ≢ 0
      → min (min (level s q) c) top ≤ level s x

  -- A property of marks and objects that references pass on.
  abbrev pub IsPassedOn : (ℕ → ℕ → Type 0) → Type 0
  IsPassedOn P =
      (q x c m : ℕ)
      → Memᴰ q places
      → Memᴰ (x, c) (edges mem mark_soft_refs q)
      → x ≢ 0
      → 1 ≤ m
      → m ≤ c
      → P m q
      → P m x

  abbrev pub Sound : (ℕ → ℕ → Type 0) → MarkStack → Type 0
  Sound P s = (q m : ℕ) → Memᴰ q places → 1 ≤ m → m ≤ level s q → P m q

  module _ (P : ℕ → ℕ → Type 0) (top : ℕ) where
    -- The loop of markStack, which answers for the objects in `D`: those that are not closed wait on
    -- the stack, unless it overflowed. No mark on the stack is above `bound`, and the objects of `D`
    -- that would not be pushed have at least that mark.
    pub record Draining (D : ℕ → Type 0) (bound : ℕ) (s : MarkStack) : Type 0 where
      pub stack : IsStack places s
      pub waiting :
          (q : ℕ) → Memᴰ q s.mark_stack → Memᴰ q places × (1 ≤ level s q) × (level s q ≤ bound)
      pub region :
          (q : ℕ)
          → Memᴰ q places
          → D q
          → Closed top s q ⊎ (Memᴰ q s.mark_stack ⊎ (0 < s.mark_stack_overflow))
      pub shut : (q : ℕ) → Memᴰ q places → D q → (q < s.mark_scan_ptr) ⊎ (bound ≤ level s q)
      pub sound : Sound P s

    module _ (heap : IsClosedHeap) (passed : IsPassedOn P) where
      pub Closed-grows :
          (s t : MarkStack) (q : ℕ)
          → ((x : ℕ) → Memᴰ x places → level s x ≤ level t x)
          → Memᴰ q places
          → level t q ≡ level s q
          → Closed top s q
          → Closed top t q
      Closed-grows s t q grows i e h x c m n =
          omega (arith, e, h x c m n, grows x (heap q x c i m n))

      pub Sound-Raised :
          (s t : MarkStack) (ob mark : ℕ)
          → Memᴰ ob places
          → mark ≤ level s ob
          → Raised places mark (edges mem mark_soft_refs ob) s t
          → Sound P s
          → Sound P t
      Sound-Raised s t ob mark p l r h q m i pos le = elim (r.caused q i) [
        | inl e ↦ h q m i pos (omega (arith, e))
        | inr (c, edge, k) ↦ elim (Bool-cases (q == 0)) [
          | inl z ↦ let above = (r.stack.objects q i).above in absurd (ground (arith, above))
          | inr n ↦
              passed ob q c m p edge (ground arith) pos (omega arith) (h ob m p pos (omega arith))
        ]
      ]

      -- The children of an object get what is to be passed on.
      pub children-Raised :
          (s : MarkStack) (ob : ℕ)
          → IsStack places s
          → Memᴰ ob places
          → 1 ≤ level s ob
          → Raised places
              (level s ob)
              (edges mem mark_soft_refs ob)
              s
              (mark_children mem ob (level s ob) mark_soft_refs s)
      children-Raised s ob h p pos =
          let small : level s ob ≤ 3 = omega (arith, is_marked-lt s.marks ob) in
          rw (mark_children-edges (level s ob) small mem mark_soft_refs pos ob s) (
            mark_edges-Raised places (level s ob) small (edges mem mark_soft_refs ob) s
              (λ x c m n. heap ob x c p m n) h)

      pub children-Closed :
          (s t : MarkStack) (ob : ℕ)
          → Memᴰ ob places
          → Raised places (level s ob) (edges mem mark_soft_refs ob) s t
          → Closed top t ob
      children-Closed s t ob p r x c m n =
          omega (arith, r.reached x c m n, r.capped ob p, r.grows ob p)

      -- An object that waits no more and whose mark did not rise is as closed as before.
      pub region-grows :
          (D : ℕ → Type 0) (bound : ℕ) (s t : MarkStack) (ob q : ℕ)
          → Raised places (level s ob) (edges mem mark_soft_refs ob) s t
          → level s ob ≤ bound
          → Memᴰ q places
          → (q < s.mark_scan_ptr) ⊎ (bound ≤ level s q)
          → Closed top s q
          → Closed top t q ⊎ (Memᴰ q t.mark_stack ⊎ (0 < t.mark_stack_overflow))
      region-grows D bound s t ob q r l i shut h =
          let keep = λ (e : level t q ≡ level s q). Closed-grows s t q r.grows i e h in
          elim shut [
            | inl below ↦ elim (r.pushed q i below) [ inl e ↦ inl (keep e) | inr w ↦ inr w ]
            | inr high ↦ inl (keep (omega (arith, high, r.capped q i, r.grows q i)))
          ]

      module _ (D : ℕ → Type 0) (bound : ℕ) where
        -- One round of markStack.
        mark_popped-Draining :
            (s : MarkStack) (ob : ℕ) (rest : List ℕ)
            → s.mark_stack ≡ ob ∷ rest
            → Draining D bound s
            → let t = mark_popped mem mark_soft_refs ob rest s in
              Draining D bound t
              × (work places t < work places s)
              × ((q : ℕ) → Memᴰ q places → level s q ≤ level t q)
              × (t.mark_scan_ptr ≡ s.mark_scan_ptr)
              × (s.mark_stack_overflow ≤ t.mark_stack_overflow)
              × ((q : ℕ) → Memᴰ q places → level t q ≤ max (level s q) bound)
        unfolding mark_popped
        mark_popped-Draining s ob rest e h =
            let s' = record s { mark_stack = rest; mark_stack_count = s.mark_stack_count - 1 } in
            let counted : s.mark_stack_count ≡ suc (length rest) = h.stack.counted ∙ ap length e in
            let stack' : IsStack places s' = record {
              objects = h.stack.objects;
              counted = omega (arith, counted);
              bounded = omega (arith, h.stack.bounded);
            } in
            let (p, pos, le) = h.waiting ob (rw e (Memᴰ.head refl)) in
            let r = children-Raised s' ob stack' p pos in
            let t = mark_children mem ob (level s ob) mark_soft_refs s' in
            (
              record {
                stack = r.stack;
                waiting = λ q i. elim (r.fresh q i) [
                  | inl m ↦
                      let (a, pos', le') = h.waiting q (rw e (Memᴰ.tail m)) in
                      (a, omega (arith, pos', r.grows q a), omega (arith, r.capped q a, le', le))
                  | inr (a, l) ↦ (a, omega (arith, l), omega (arith, l, r.capped q a, le))
                ];
                region = λ q i d. elim (h.region q i d) [
                  | inl c ↦ region-grows D bound s' t ob q r le i (h.shut q i d) c
                  | inr (inr o) ↦ inr (inr (omega (arith, o, r.overflows)))
                  | inr (inl m) ↦ elim ((Memᴰ-cons q ob rest).0 (subst (Memᴰ q) e m)) [
                    | inl y ↦ inl (subst (Closed top t) (sym y) (children-Closed s' t ob p r))
                    | inr m' ↦ inr (inl (r.kept q m'))
                  ]
                ];
                shut = λ q i d. elim (h.shut q i d) [
                  | inl below ↦ inl (rw r.pointer below)
                  | inr high ↦ inr (omega (arith, high, r.grows q i))
                ];
                sound = Sound-Raised s' t ob (level s ob) p (omega arith) r h.sound;
              },
              omega (arith, r.work, counted),
              r.grows,
              r.pointer,
              r.overflows,
              λ q i. omega (arith, r.capped q i, le),
            )

        -- markStack returns within as much fuel as there is work, and closes what it answers for
        -- unless the stack overflowed.
        pub empty_mark_stack-Draining :
            (fuel : ℕ) (s : MarkStack)
            → s.mark_stack_count + room places s.marks ≤ fuel
            → Draining D bound s
            → (t : MarkStack) × (empty_mark_stack mem mark_soft_refs fuel s ≡ some t)
              × Draining D bound t
              × (t.mark_stack ≡ [])
              × (work places t ≤ work places s)
              × ((q : ℕ) → Memᴰ q places → level s q ≤ level t q)
              × (t.mark_scan_ptr ≡ s.mark_scan_ptr)
              × (s.mark_stack_overflow ≤ t.mark_stack_overflow)
              × ((q : ℕ) → Memᴰ q places → level t q ≤ max (level s q) bound)
        unfolding empty_mark_stack
        empty_mark_stack-Draining zero s l h = elim (List-cases s.mark_stack) [
          | inl e ↦ (
            s,
            simp (e, empty_mark_stack),
            h,
            e,
            omega arith,
            λ q i. omega arith,
            refl,
            omega arith,
            λ q i. omega arith,
          )
          | inr (ob, rest, e) ↦
              let counted : s.mark_stack_count ≡ suc (length rest) =
                h.stack.counted ∙ ap length e in
              absurd (omega (arith, counted, l))
        ]
        empty_mark_stack-Draining (suc fuel) s l h = elim (List-cases s.mark_stack) [
          | inl e ↦ (
            s,
            simp (e, empty_mark_stack),
            h,
            e,
            omega arith,
            λ q i. omega arith,
            refl,
            omega arith,
            λ q i. omega arith,
          )
          | inr (ob, rest, e) ↦
              let (h', less, grows, ptr, over, cap₁) = mark_popped-Draining s ob rest e h in
              let (t, q₀, h'', empty, w, g, p, o, cap₂) =
                empty_mark_stack-Draining fuel (mark_popped mem mark_soft_refs ob rest s)
                  (omega (arith, l, less, over)) h' in
              (
                t,
                simp (e, empty_mark_stack) q₀,
                h'',
                empty,
                omega (arith, w, less),
                λ q i. omega (arith, grows q i, g q i),
                p ∙ ptr,
                omega (arith, over, o),
                λ q i. omega (arith, cap₁ q i, cap₂ q i),
              )
        ]
