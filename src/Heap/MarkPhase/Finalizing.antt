-- ===== src/Heap/MarkPhase/Finalizing.antt =====
-- The marking of the objects that wait to be finalized, in doMark of src/alloc.c.
use mathlib.Core.List.{Memᴰ}
use mathlib.Core.List.Memᴰ
use jamiga_jamvm.Base.{
  ℕ, ◌+◌, ◌*◌, ◌≤◌, ◌<◌, min, ◌≡◌, refl, sym, subst, ap, ◌∙◌, ◌⊎◌, inl, inr, Bool, true, some, List,
  [], ◌∷◌, length, arith, ◌==◌, if◌then◌else◌, Bool-cases, ==_iff, All,
}
use jamiga_jamvm.Heap.Block.{Block, objects, span, hdr_alloced, hdr_size, extent}
use jamiga_jamvm.Heap.Marks.{MarkStack, is_marked, set_mark, mark_and_push}
use jamiga_jamvm.Heap.Marks.Laws.{IsObject, is_marked-set_mark}
use jamiga_jamvm.Heap.MarkPhase.Objects.{Memory}
use jamiga_jamvm.Heap.MarkPhase.Raise.{level, Memᴰ-cons, IsStack}
use jamiga_jamvm.Heap.MarkPhase.Drain.{
  IsClosedHeap, Closed, IsPassedOn, Sound, Draining, empty_mark_stack-Draining,
}
use jamiga_jamvm.Heap.MarkPhase.Pass.{addresses, HoldsObject, addresses_used, addresses_free}
use jamiga_jamvm.Heap.MarkPhase.Reach.{room_bound}
use jamiga_jamvm.Heap.MarkPhase.DoMark.{finalizer_mark, run_mark, run_marks}

-- The objects of a heap lie before its end.
pub addresses-lt :
    (ptr : ℕ) (bs : List Block) (q : ℕ)
    → All HoldsObject bs
    → Memᴰ q (addresses (objects ptr bs))
    → q < ptr + span bs
addresses-lt ptr [] q f m = absurd (Memᴰ.not-nil m)
addresses-lt ptr (b ∷ bs) q (f, fs) m = elim (Bool-cases (hdr_alloced b.header)) [
  | inr free ↦
      let rest =
        addresses-lt (ptr + b.header) bs q fs (subst (Memᴰ q) (addresses_free ptr b bs free) m) in
      let size : extent b ≡ b.header = rw free refl in omega (arith, rest, size)
  | inl used ↦
      let size : extent b ≡ hdr_size b.header = rw used refl in
      elim ((Memᴰ-cons q _ _).0 (subst (Memᴰ q) (addresses_used ptr b bs used) m)) [
        | inr m' ↦ omega (arith, addresses-lt (ptr + hdr_size b.header) bs q fs m', size)
        | inl e ↦ elim f [
          | inl free ↦ absurd (ground (arith, used, free))
          | inr big ↦ omega (arith, e, big, size)
        ]
      ]
]

module _ (mem : Memory) (mark_soft_refs : Bool) (places : List ℕ) (P : ℕ → ℕ → Type 0)
    (heap : IsClosedHeap mem mark_soft_refs places)
    (passed : IsPassedOn mem mark_soft_refs places P) where
  -- Between two objects to be finalized: the scan pointer is behind the heap, so that every object whose
  -- mark rises is pushed, and all is closed under the finalizer mark unless the stack overflowed.
  pub record Quiet (s : MarkStack) : Type 0 where
    pub stack : IsStack places s
    pub empty : s.mark_stack ≡ []
    pub behind : (q : ℕ) → Memᴰ q places → q < s.mark_scan_ptr
    pub region :
        (q : ℕ)
        → Memᴰ q places
        → Closed mem mark_soft_refs places finalizer_mark s q ⊎ (0 < s.mark_stack_overflow)
    pub sound : Sound mem mark_soft_refs places P s

  -- MARK_AND_PUSH with the finalizer mark.
  push_lem :
      (e : ℕ) (s : MarkStack)
      → Quiet s
      → Memᴰ e places
      → let t = mark_and_push e finalizer_mark s in
        ((q : ℕ) → Memᴰ q places → level t q ≡ (if e == q then finalizer_mark else level s q))
        × (t.mark_stack ≡ e ∷ [])
        × (t.mark_stack_count ≡ 1)
        × (t.mark_scan_ptr ≡ s.mark_scan_ptr)
        × (t.mark_stack_overflow ≡ s.mark_stack_overflow)
        × IsStack places t
  unfolding mark_and_push set_mark
  push_lem e s h p =
      let below = h.behind e p in
      let none_waiting : s.mark_stack_count ≡ 0 = h.stack.counted ∙ ap length h.empty in
      let t = mark_and_push e finalizer_mark s in
      let pushed : t.mark_stack ≡ e ∷ [] = ground (arith, h.empty) in
      let marks : t.marks ≡ set_mark s.marks e finalizer_mark = ground arith in
      let count : t.mark_stack_count ≡ 1 = ground arith in
      (
        λ q i.
            ap (λ m. is_marked m q) marks
            ∙ is_marked-set_mark s.marks e q finalizer_mark (h.stack.objects e p)
                (h.stack.objects q i) (omega arith),
        pushed,
        count,
        ground arith,
        ground arith,
        record {
          objects = λ q i.
              let o = h.stack.objects q i in
              subst (λ m. IsObject m q) (sym marks)
                (record { above = o.above; below = o.below; grain = o.grain });
          counted = rw pushed count;
          bounded = omega (arith, count);
        },
      )

  push-Draining :
      (e : ℕ) (s : MarkStack)
      → Quiet s
      → Memᴰ e places
      → ((m : ℕ) → 1 ≤ m → m ≤ finalizer_mark → P m e)
      → Draining mem mark_soft_refs places P finalizer_mark
          (λ _. true ≡ true)
          finalizer_mark
          (mark_and_push e finalizer_mark s)
  push-Draining e s h p root =
      let (levels, pushed, count, ptr, over, stack) = push_lem e s h p in
      let t = mark_and_push e finalizer_mark s in
      record {
        stack = stack;
        waiting = λ q m. elim ((Memᴰ-cons q e []).0 (subst (Memᴰ q) pushed m)) [
          | inr m' ↦ absurd (Memᴰ.not-nil m')
          | inl y ↦
              let top : level t e ≡ finalizer_mark = ground (arith, levels e p) in
              subst (λ z. Memᴰ z places × (1 ≤ level t z) × (level t z ≤ finalizer_mark)) (sym y)
                (p, omega (arith, top), omega (arith, top))
        ];
        region = λ q i d. elim (Bool-cases (e == q)) [
          | inl y ↦ inr (
              inl (
                subst (λ z. Memᴰ z t.mark_stack) ((==_iff e q).0 y)
                  (subst (Memᴰ e) (sym pushed) (Memᴰ.head refl))))
          | inr n ↦ elim (h.region q i) [
            | inr o ↦ inr (inr (omega (arith, over, o)))
            | inl c ↦ inl (λ x cap' m nz.
                let x_in = heap q x cap' i m nz in
                ground (arith, levels q i, levels x x_in, c x cap' m nz, n))
          ]
        ];
        shut = λ q i d. inl (rw ptr (h.behind q i));
        sound = λ q m i pos l. elim (Bool-cases (e == q)) [
          | inr n ↦ h.sound q m i pos (ground (arith, levels q i, l, n))
          | inl y ↦ subst (P m) ((==_iff e q).0 y) (root m pos (ground (arith, levels q i, l, y)))
        ];
      }

  -- RUN_MARK returns, and leaves its object with the finalizer mark, whatever mark it had.
  pub run_mark-Quiet :
      (fuel e : ℕ) (s : MarkStack)
      → 3 * length places < fuel
      → Quiet s
      → Memᴰ e places
      → ((m : ℕ) → 1 ≤ m → m ≤ finalizer_mark → P m e)
      → (t : MarkStack) × (run_mark mem mark_soft_refs fuel e s ≡ some t)
        × Quiet t
        × (level t e ≡ finalizer_mark)
        × ((q : ℕ) → Memᴰ q places → min (level s q) finalizer_mark ≤ level t q)
  unfolding run_mark
  run_mark-Quiet fuel e s big h p root =
      let (levels, pushed, count, ptr, over, stack) = push_lem e s h p in
      let start = mark_and_push e finalizer_mark s in
      let d = push-Draining e s h p root in
      let (t, runs, r, empty, w, grows, ptr', over', cap') =
        empty_mark_stack-Draining mem mark_soft_refs places P finalizer_mark heap passed
          (λ _. true ≡ true) finalizer_mark fuel start
          (omega (arith, count, room_bound places start.marks, big)) d in
      (
        t,
        runs,
        record {
          stack = r.stack;
          empty = empty;
          behind = λ q i. omega (arith, h.behind q i, ptr, ptr');
          region = λ q i. elim (r.region q i refl) [
            | inl c ↦ inl c
            | inr (inl m) ↦ absurd (Memᴰ.not-nil (subst (Memᴰ q) empty m))
            | inr (inr o) ↦ inr o
          ];
          sound = r.sound;
        },
        ground (arith, levels e p, grows e p, cap' e p),
        λ q i. ground (arith, levels q i, grows q i),
      )

  -- The iteration over the list of objects to be finalized.
  pub run_marks-Quiet :
      (fuel : ℕ) (es : List ℕ) (s : MarkStack)
      → 3 * length places < fuel
      → Quiet s
      → ((e : ℕ) → Memᴰ e es → Memᴰ e places)
      → ((e m : ℕ) → Memᴰ e es → 1 ≤ m → m ≤ finalizer_mark → P m e)
      → (t : MarkStack) × (run_marks mem mark_soft_refs fuel es s ≡ some t)
        × Quiet t
        × ((q : ℕ) → Memᴰ q places → min (level s q) finalizer_mark ≤ level t q)
        × ((e : ℕ) → Memᴰ e es → finalizer_mark ≤ level t e)
  unfolding run_marks
  run_marks-Quiet fuel [] s big h inside root =
      (s, refl, h, λ q i. omega arith, λ e m. absurd (Memᴰ.not-nil m))
  run_marks-Quiet fuel (e ∷ es) s big h inside root =
      let p = inside e (Memᴰ.head refl) in
      let (u, q₁, h₁, top, g₁) =
        run_mark-Quiet fuel e s big h p (λ m pos l. root e m (Memᴰ.head refl) pos l) in
      let (t, q₂, h₂, g₂, r₂) =
        run_marks-Quiet fuel es u big h₁ (λ x m. inside x (Memᴰ.tail m))
          (λ x m i pos l. root x m (Memᴰ.tail i) pos l) in
      (
        t,
        rw q₁ q₂,
        h₂,
        λ q i. omega (arith, g₁ q i, g₂ q i),
        λ x m. elim ((Memᴰ-cons x e es).0 m) [
          | inr m' ↦ r₂ x m'
          | inl y ↦ subst (λ z. finalizer_mark ≤ level t z) (sym y) (omega (arith, top, g₂ e p))
        ],
      )
