-- ===== src/Heap/MarkPhase/Raise.antt =====
-- What a walk along edges does to the marks and to the mark stack of src/alloc.c.
use mathlib.Core.List.{Memᴰ}
use mathlib.Core.List.Memᴰ
use jamiga_jamvm.Base.{
  ℕ, ◌+◌, ◌-◌, ◌≤◌, ◌<◌, min, max, ◌≡◌, ◌≢◌, refl, sym, subst, ap, ◌∙◌, ◌⊎◌, inl, inr, ◌↔◌, List,
  [], ◌∷◌, length, leb, ◌==◌, arith, ==_iff, if◌then◌else◌, Bool-cases,
}
use jamiga_jamvm.Heap.Marks.{Marks, MarkStack, is_marked, mark_object, mark_stack_size}
use jamiga_jamvm.Heap.Marks.Laws.{IsObject, mark_object_lem, is_marked-lt, mark_object_frame}
use jamiga_jamvm.Heap.MarkPhase.Edges.{mark_edges}

-- The mark of an object.
abbrev pub level : MarkStack → ℕ → ℕ
level s q = is_marked s.marks q

-- How far the marks of these objects can still rise.
abbrev pub room : List ℕ → Marks → ℕ
room [] marks = 0
room (p ∷ ps) marks = (3 - is_marked marks p) + room ps marks

pub Memᴰ-cons {ℓ} : {A : Type ℓ} (a x : A) (xs : List A) → Memᴰ a (x ∷ xs) ↔ ((a ≡ x) ⊎ Memᴰ a xs)
Memᴰ-cons a x xs = (Memᴰ.cases_cons, λ h. elim h [ inl e ↦ Memᴰ.head e | inr m ↦ Memᴰ.tail m ])

pub room-le :
    (ps : List ℕ) (s t : MarkStack)
    → ((q : ℕ) → Memᴰ q ps → level s q ≤ level t q)
    → room ps t.marks ≤ room ps s.marks
room-le [] s t h = omega arith
room-le (p ∷ ps) s t h =
    omega (arith, h p (Memᴰ.head refl), room-le ps s t (λ q m. h q (Memᴰ.tail m)))

-- A mark that rises takes room away.
pub room-lt :
    (ps : List ℕ) (s t : MarkStack) (q : ℕ)
    → ((q : ℕ) → Memᴰ q ps → level s q ≤ level t q)
    → Memᴰ q ps
    → level s q < level t q
    → room ps t.marks < room ps s.marks
room-lt [] s t q h m l = absurd (Memᴰ.not-nil m)
room-lt (p ∷ ps) s t q h m l = elim (Memᴰ.cases_cons m) [
  | inl e ↦
      let rest = room-le ps s t (λ q m. h q (Memᴰ.tail m)) in
      let top : level s p < level t p = rw (← e) l in
      omega (arith, rest, top, is_marked-lt t.marks p)
  | inr m' ↦ omega (arith, h p (Memᴰ.head refl), room-lt ps s t q (λ q m. h q (Memᴰ.tail m)) m' l)
]

-- The mark stack is counted and within its capacity, and the places are objects of the heap.
pub record IsStack (places : List ℕ) (s : MarkStack) : Type 0 where
  pub objects : (q : ℕ) → Memᴰ q places → IsObject s.marks q
  pub counted : s.mark_stack_count ≡ length s.mark_stack
  pub bounded : s.mark_stack_count ≤ mark_stack_size

-- What changes from `s` to `t` when a mark is passed on along edges.
pub record Raised (places : List ℕ) (mark : ℕ) (es : List (ℕ × ℕ)) (s t : MarkStack) : Type 0 where
  pub stack : IsStack places t
  pub pointer : t.mark_scan_ptr ≡ s.mark_scan_ptr
  pub grows : (q : ℕ) → Memᴰ q places → level s q ≤ level t q
  pub capped : (q : ℕ) → Memᴰ q places → level t q ≤ max (level s q) mark
  pub reached : (x c : ℕ) → Memᴰ (x, c) es → x ≢ 0 → min mark c ≤ level t x
  pub caused :
      (q : ℕ)
      → Memᴰ q places
      → (level t q ≡ level s q) ⊎ ((c : ℕ) × Memᴰ (q, c) es × (level t q ≤ min mark c))
  pub pushed :
      (q : ℕ)
      → Memᴰ q places
      → q < s.mark_scan_ptr
      → (level t q ≡ level s q) ⊎ (Memᴰ q t.mark_stack ⊎ (0 < t.mark_stack_overflow))
  pub kept : (q : ℕ) → Memᴰ q s.mark_stack → Memᴰ q t.mark_stack
  pub fresh :
      (q : ℕ)
      → Memᴰ q t.mark_stack
      → Memᴰ q s.mark_stack ⊎ (Memᴰ q places × (level s q < level t q))
  pub overflows : s.mark_stack_overflow ≤ t.mark_stack_overflow
  pub work :
      t.mark_stack_count + t.mark_stack_overflow + room places t.marks
      ≤ s.mark_stack_count + s.mark_stack_overflow + room places s.marks

module _ (places : List ℕ) (mark : ℕ) (small : mark ≤ 3) where
  -- The step of one edge, in equations.
  record Step (x m : ℕ) (s t : MarkStack) : Type 0 where
    stack : IsStack places t
    pointer : t.mark_scan_ptr ≡ s.mark_scan_ptr
    levels : (q : ℕ) → Memᴰ q places → level t q ≡ (if x == q then max (level s q) m else level s q)
    stacked :
        ((level t x ≡ level s x ⊎ (s.mark_scan_ptr ≤ x))
          × (t.mark_stack ≡ s.mark_stack)
          × (t.mark_stack_overflow ≡ s.mark_stack_overflow)
          × (t.mark_stack_count ≡ s.mark_stack_count))
        ⊎ (((level s x < level t x)
              × (t.mark_stack ≡ x ∷ s.mark_stack)
              × (t.mark_stack_overflow ≡ s.mark_stack_overflow)
              × (t.mark_stack_count ≡ s.mark_stack_count + 1))
            ⊎ ((level s x < level t x)
                × (t.mark_stack ≡ s.mark_stack)
                × (t.mark_stack_overflow ≡ s.mark_stack_overflow + 1)
                × (t.mark_stack_count ≡ s.mark_stack_count)))

  mark_object-Step :
      (x m : ℕ) (s : MarkStack)
      → m ≤ 3
      → IsStack places s
      → Memᴰ x places
      → x ≢ 0
      → Step x m s (mark_object x m s)
  mark_object-Step x m s l h p n =
      let (base, limit, ptr) = mark_object_frame s x m in
      let facts = λ (q : ℕ) (i : Memᴰ q places).
        mark_object_lem s x q m (h.objects x p) (h.objects q i) (omega arith) h.counted h.bounded in
      record {
        stack = record {
          objects = λ q i.
              let o = h.objects q i in
              record { above = rw base o.above; below = rw limit o.below; grain = rw base o.grain };
          counted = (facts x p).1;
          bounded = (facts x p).2;
        };
        pointer = ptr;
        levels = λ q i. ground (arith, facts q i, ==_iff x q);
        stacked = ground (arith, facts x p);
      }

  Step-grows :
      (x m : ℕ) (s t : MarkStack) → Step x m s t → (q : ℕ) → Memᴰ q places → level s q ≤ level t q
  Step-grows x m s t h q i = ground (arith, h.levels q i)

  Step-work :
      (x m : ℕ) (s t : MarkStack)
      → Step x m s t
      → Memᴰ x places
      → t.mark_stack_count + t.mark_stack_overflow + room places t.marks
        ≤ s.mark_stack_count + s.mark_stack_overflow + room places s.marks
  Step-work x m s t h p =
      let grows = Step-grows x m s t h in
      let weak = room-le places s t grows in
      elim h.stacked [
        | inl (_, _, o, c) ↦ omega (arith, weak, o, c)
        | inr (inl (l, _, o, c)) ↦ omega (arith, room-lt places s t x grows p l, o, c)
        | inr (inr (l, _, o, c)) ↦ omega (arith, room-lt places s t x grows p l, o, c)
      ]

  Raised-refl : (s : MarkStack) → IsStack places s → Raised places mark [] s s
  Raised-refl s h = record {
    stack = h;
    pointer = refl;
    grows = λ q i. omega arith;
    capped = λ q i. omega arith;
    reached = λ x c m n. absurd (Memᴰ.not-nil m);
    caused = λ q i. inl refl;
    pushed = λ q i l. inl refl;
    kept = λ q i. i;
    fresh = λ q i. inl i;
    overflows = omega arith;
    work = omega arith;
  }

  Step-kept :
      (x m : ℕ) (s t : MarkStack) (q : ℕ) → Step x m s t → Memᴰ q s.mark_stack → Memᴰ q t.mark_stack
  Step-kept x m s t q h i = elim h.stacked [
    | inl (_, e, _, _) ↦ rw e i
    | inr (inl (_, e, _, _)) ↦ rw e (Memᴰ.tail i)
    | inr (inr (_, e, _, _)) ↦ rw e i
  ]

  module _ (x cap : ℕ) (es : List (ℕ × ℕ)) (s u t : MarkStack) (h : Step x (min mark cap) s u)
      (p : Memᴰ x places) (r : Raised places mark es u t) where
    Step-caused :
        (q : ℕ)
        → Memᴰ q places
        → (level t q ≡ level s q)
          ⊎ ((c : ℕ) × Memᴰ (q, c) ((x, cap) ∷ es) × (level t q ≤ min mark c))
    Step-caused q i = elim (r.caused q i) [
      | inr (c, m, l) ↦ inr (c, Memᴰ.tail m, l)
      | inl e ↦ elim (Bool-cases (x == q)) [
        | inr n ↦ inl (ground (arith, h.levels q i))
        | inl y ↦ elim (Bool-cases (leb (min mark cap) (level s q))) [
          | inl l ↦ inl (ground (arith, h.levels q i))
          | inr l ↦
              let same : x ≡ q = (==_iff x q).0 y in
              inr (cap, Memᴰ.head (ap (λ z. (z, cap)) (sym same)), ground (arith, h.levels q i))
        ]
      ]
    ]

    Step-pushed :
        (q : ℕ)
        → Memᴰ q places
        → q < s.mark_scan_ptr
        → (level t q ≡ level s q) ⊎ (Memᴰ q t.mark_stack ⊎ (0 < t.mark_stack_overflow))
    Step-pushed q i l =
        let on : Memᴰ x u.mark_stack → Memᴰ x t.mark_stack = r.kept x in
        elim (Bool-cases (x == q)) [
          | inr n ↦ ground (arith, h.levels q i, r.pushed q i, h.pointer)
          | inl y ↦
              let same : x ≡ q = (==_iff x q).0 y in
              elim h.stacked [
                | inl (a, _, _, _) ↦
                    let below : x < s.mark_scan_ptr = rw same l in
                    subst
                      (λ z.
                        (level t z ≡ level s z)
                        ⊎ (Memᴰ z t.mark_stack ⊎ (0 < t.mark_stack_overflow)))
                      same (ground (arith, a, r.pushed x p, h.pointer, below))
                | inr (inl (_, e, _, _)) ↦ inr (inl (rw (sym same) (on (rw e (Memᴰ.head refl)))))
                | inr (inr (_, _, o, _)) ↦ inr (inr (omega (arith, o, r.overflows)))
              ]
        ]

    Step-fresh :
        (q : ℕ)
        → Memᴰ q t.mark_stack
        → Memᴰ q s.mark_stack ⊎ (Memᴰ q places × (level s q < level t q))
    Step-fresh q i = elim (r.fresh q i) [
      | inr (a, l) ↦ inr (a, omega (arith, l, Step-grows x (min mark cap) s u h q a))
      | inl m ↦ elim h.stacked [
        | inl (_, e, _, _) ↦ inl (rw (sym e) m)
        | inr (inr (_, e, _, _)) ↦ inl (rw (sym e) m)
        | inr (inl (l, e, _, _)) ↦ elim ((Memᴰ-cons q x s.mark_stack).0 (subst (Memᴰ q) e m)) [
          | inr m' ↦ inl m'
          | inl y ↦ inr (
              subst (λ z. Memᴰ z places × (level s z < level t z)) (sym y)
                (p, omega (arith, l, r.grows x p)))
        ]
      ]
    ]

  -- One more edge in front.
  Raised-Step :
      (x cap : ℕ) (es : List (ℕ × ℕ)) (s u t : MarkStack)
      → Step x (min mark cap) s u
      → Memᴰ x places
      → Raised places mark es u t
      → Raised places mark ((x, cap) ∷ es) s t
  Raised-Step x cap es s u t h p r =
      let grows = Step-grows x (min mark cap) s u h in
      let work = Step-work x (min mark cap) s u h p in
      record {
        stack = r.stack;
        pointer = r.pointer ∙ h.pointer;
        grows = λ q i. omega (arith, grows q i, r.grows q i);
        capped = λ q i. ground (arith, h.levels q i, r.capped q i);
        reached = λ y c m n. elim (Memᴰ.cases_cons m) [
          | inl e ↦
              let top : min mark cap ≤ level t x = ground (arith, h.levels x p, r.grows x p) in
              rw (ap (λ (e : ℕ × ℕ). e.0) e, ap (λ (e : ℕ × ℕ). e.1) e) top
          | inr m' ↦ r.reached y c m' n
        ];
        caused = λ q i. Step-caused x cap es s u t h p r q i;
        pushed = λ q i l. Step-pushed x cap es s u t h p r q i l;
        kept = λ q i. r.kept q (Step-kept x (min mark cap) s u q h i);
        fresh = λ q i. Step-fresh x cap es s u t h p r q i;
        overflows = ground (arith, h.stacked, r.overflows);
        work = omega (arith, work, r.work);
      }

  Raised-null :
      (limit : ℕ) (es : List (ℕ × ℕ)) (s t : MarkStack)
      → Raised places mark es s t
      → Raised places mark ((0, limit) ∷ es) s t
  Raised-null limit es s t r = record {
    stack = r.stack;
    pointer = r.pointer;
    grows = r.grows;
    capped = r.capped;
    pushed = r.pushed;
    kept = r.kept;
    fresh = r.fresh;
    overflows = r.overflows;
    work = r.work;
    reached = λ x c m n. elim (Memᴰ.cases_cons m) [
      | inl e ↦ absurd (n (ap (λ (e : ℕ × ℕ). e.0) e))
      | inr m' ↦ r.reached x c m' n
    ];
    caused = λ q i. elim (r.caused q i) [ inl e ↦ inl e | inr (c, m, l) ↦ inr (c, Memᴰ.tail m, l) ];
  }

  -- A walk along edges, none of which leads out of the heap.
  pub mark_edges-Raised :
      (es : List (ℕ × ℕ)) (s : MarkStack)
      → ((x c : ℕ) → Memᴰ (x, c) es → x ≢ 0 → Memᴰ x places)
      → IsStack places s
      → Raised places mark es s (mark_edges mark es s)
  unfolding mark_edges mark_object
  mark_edges-Raised [] s to h = Raised-refl s h
  mark_edges-Raised ((x, limit) ∷ es) s to h = elim (Bool-cases (x == 0)) [
    | inl z ↦
        let null : x ≡ 0 = (==_iff x 0).0 z in
        rw null (
          Raised-null limit es s (mark_edges mark es s)
            (mark_edges-Raised es s (λ y c m. to y c (Memᴰ.tail m)) h))
    | inr n ↦
        let p = to x limit (Memᴰ.head refl) (ground arith) in
        let step = mark_object-Step x (min mark limit) s (omega arith) h p (ground arith) in
        Raised-Step x limit es s _ _ step p
          (mark_edges-Raised es _ (λ y c m. to y c (Memᴰ.tail m)) step.stack)
  ]
