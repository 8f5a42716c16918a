-- ===== src/Heap/MarkPhase/Placeholders.antt =====
-- The weak references of native code in doMark of src/alloc.c: what becomes of the heap's blocks and of the
-- marks, and doMark as a whole.
use mathlib.Core.List.{Memᴰ}
use mathlib.Core.List.Memᴰ
use jamiga_jamvm.Base.{
  ℕ, ◌+◌, ◌-◌, ◌%◌, ◌≤◌, ◌≡◌, ◌≢◌, refl, sym, subst, ap, ◌∙◌, ◌⊎◌, inl, inr, ◌↔◌, Bool, true, false,
  none, List, [], ◌∷◌, ◌++◌, arith, ◌==◌, ◌&&◌, ltb, if◌then◌else◌, Bool-cases, All,
}
use jamiga_jamvm.Heap.Block.{
  Block, objects, IsFormed, extent, hdr_alloced, hdr_size, header_size, min_object_size,
}
use jamiga_jamvm.Heap.Marks.{Marks, is_marked, set_mark}
use jamiga_jamvm.Heap.Marks.Laws.{IsObject, is_marked-set_mark}
use jamiga_jamvm.Heap.MarkPhase.Raise.{Memᴰ-cons}
use jamiga_jamvm.Heap.MarkPhase.Pass.{addresses, HoldsObject}
use jamiga_jamvm.Heap.MarkPhase.DoMark.{finalizer_mark}
use jamiga_jamvm.Heap.MarkPhase.WeakRefs.{
  Held, placeholder, convert_to_placeholder, clear_weak_ref, scan_weak_refs, mark_finalizer,
  mark_cleared_refs,
}

-- The blocks of a heap in order: of whole grains, and with room for an object where they are allocated.
abbrev pub InOrder : List Block → Type 0
InOrder bs = All IsFormed bs × All HoldsObject bs

-- The same objects, at the same addresses.
pub record Keeps (ptr : ℕ) (bs bs' : List Block) : Type 0 where
  pub formed : All IsFormed bs'
  pub holds : All HoldsObject bs'
  pub same : addresses (objects ptr bs') ≡ addresses (objects ptr bs)

placeholder-Keeps :
    (ptr : ℕ) (b : Block) (bs : List Block)
    → InOrder (b ∷ bs)
    → hdr_alloced b.header ≡ true
    → Keeps ptr (b ∷ bs) (placeholder b ++ bs)
placeholder-Keeps ptr b bs ((f, fs), (o, os)) used =
    let whole : hdr_size b.header % 8 ≡ 0 = ground (arith, f.whole, used) in
    let big : min_object_size ≤ hdr_size b.header = elim o [
      | inl free ↦ absurd (ground (arith, free, used))
      | inr l ↦ l
    ] in
    let small_formed : IsFormed (record { header = 25; class = none }) = record {
      whole = refl;
      positive = omega arith;
    } in
    elim (Bool-cases (ltb min_object_size (hdr_size b.header))) [
      | inl more ↦
          let free : hdr_alloced (hdr_size b.header - min_object_size) ≡ false =
            ground (arith, whole, big) in
          rw more (record {
            formed = (
              small_formed,
              (
                record {
                  whole = rw free (omega (arith, whole, big));
                  positive = rw free (ground (arith, more));
                },
                fs,
              ),
            );
            holds = (inr (omega arith), (inl free, os));
            same =
                rw (free, used)
                  (ap (λ p. (ptr + header_size) ∷ addresses (objects p bs)) (omega (arith, big)));
          })
      | inr less ↦
          let exact : hdr_size b.header ≡ min_object_size = ground (arith, less, big) in
          rw less (record {
            formed = (small_formed, fs);
            holds = (inr (omega arith), os);
            same =
                rw used
                  (ap (λ p. (ptr + header_size) ∷ addresses (objects p bs)) (omega (arith, exact)));
          })
    ]

addresses_with :
    (c : Bool) (o : ℕ × ℕ) (xs ys : List (ℕ × ℕ))
    → addresses xs ≡ addresses ys
    → addresses (if c then o ∷ xs else xs) ≡ addresses (if c then o ∷ ys else ys)
addresses_with true (p, h) xs ys e = ap (λ l. p ∷ l) e
addresses_with false o xs ys e = e

-- A converted heap has the same objects.
convert_to_placeholder-Keeps :
    (object ptr : ℕ) (bs : List Block)
    → InOrder bs
    → Keeps ptr bs (convert_to_placeholder object ptr bs).0
unfolding convert_to_placeholder
convert_to_placeholder-Keeps object ptr [] o = record { formed = tt; holds = tt; same = refl }
convert_to_placeholder-Keeps object ptr (b ∷ bs) ((f, fs), (o, os)) =
    let rest = convert_to_placeholder-Keeps object (ptr + extent b) bs (fs, os) in
    elim (Bool-cases (hdr_alloced b.header && ptr + header_size == object)) [
      | inl here ↦
          let used : hdr_alloced b.header ≡ true = ground (arith, here) in
          rw here (placeholder-Keeps ptr b bs ((f, fs), (o, os)) used)
      | inr there ↦ rw there (record {
        formed = (f, rest.formed);
        holds = (o, rest.holds);
        same = addresses_with (hdr_alloced b.header) (ptr + header_size, b.header) _ _ rest.same;
      })
    ]

-- The scan of the weak references keeps the objects of the heap.
pub scan_weak_refs-Keeps :
    (marks : Marks) (heapbase : ℕ) (refs : List ℕ) (h : Held)
    → InOrder h.blocks
    → Keeps heapbase h.blocks (scan_weak_refs marks heapbase refs h).1.blocks
unfolding scan_weak_refs
scan_weak_refs-Keeps marks heapbase [] h o = record { formed = o.0; holds = o.1; same = refl }
scan_weak_refs-Keeps marks heapbase (ref ∷ refs) h o = elim (Bool-cases (ref == 0)) [
  | inl z ↦ rw (z, scan_weak_refs) (scan_weak_refs-Keeps marks heapbase refs h o)
  | inr n ↦ elim (Bool-cases (is_marked marks ref == 0)) [
    | inr m ↦
        rw (n, m, scan_weak_refs)
          (scan_weak_refs-Keeps marks heapbase refs
            (record h { conservative_roots = h.conservative_roots ++ ref ∷ [] }) o)
    | inl u ↦
        let one = convert_to_placeholder-Keeps ref heapbase h.blocks o in
        let rest =
          scan_weak_refs-Keeps marks heapbase refs (clear_weak_ref heapbase ref h)
            (one.formed, one.holds) in
        rw (n, u, scan_weak_refs)
          (record { formed = rest.formed; holds = rest.holds; same = rest.same ∙ one.same })
  ]
]

-- The two marks of a reference, 0 for NULL.
abbrev pub AreObjects : Marks → List ℕ → Type 0
AreObjects s refs = (x : ℕ) → Memᴰ x refs → x ≢ 0 → IsObject s x

mark_finalizer_lem :
    (s : Marks) (p q m : ℕ)
    → IsObject s p
    → IsObject s q
    → 1 ≤ m
    → m ≤ finalizer_mark
    → (m ≤ is_marked (mark_finalizer p s) q) ↔ ((q ≡ p) ⊎ (m ≤ is_marked s q))
unfolding mark_finalizer
mark_finalizer_lem s p q m hp hq pos l =
    let e = is_marked-set_mark s p q (is_marked s p % 2 + finalizer_mark) hp hq (omega arith) in
    elim (Bool-cases (p == q)) [
      | inl same ↦ (λ _. inl (ground (arith, same)), λ _. ground (arith, e, same, l))
      | inr other ↦ (
        λ k. inr (ground (arith, e, other, k)),
        λ k. elim k [
          | inl i ↦ absurd (ground (arith, i, other))
          | inr k' ↦ ground (arith, e, other, k')
        ],
      )
    ]

Memᴰ-snoc : (x a : ℕ) (xs : List ℕ) → Memᴰ x (xs ++ a ∷ []) ↔ (Memᴰ x xs ⊎ (x ≡ a))
Memᴰ-snoc x a [] = (
  λ m. inr (Memᴰ.eq_of_singleton m),
  λ m. elim m [ inl n ↦ absurd (Memᴰ.not-nil n) | inr e ↦ Memᴰ.head e ],
)
Memᴰ-snoc x a (y ∷ ys) =
    let rest = Memᴰ-snoc x a ys in
    (
      λ m. elim ((Memᴰ-cons x y (ys ++ a ∷ [])).0 m) [
        | inl e ↦ inl (Memᴰ.head e)
        | inr m' ↦ elim (rest.0 m') [ inl n ↦ inl (Memᴰ.tail n) | inr e ↦ inr e ]
      ],
      λ m. elim m [
        | inl n ↦ elim ((Memᴰ-cons x y ys).0 n) [
          | inl e ↦ Memᴰ.head e
          | inr n' ↦ Memᴰ.tail (rest.1 (inl n'))
        ]
        | inr e ↦ Memᴰ.tail (rest.1 (inr e))
      ],
    )

-- A reference is in the table of the cleared ones where it was, or where it is weak and its object has no
-- mark.
pub scan_weak_refs-cleared :
    (marks : Marks) (heapbase : ℕ) (refs : List ℕ) (h : Held) (x : ℕ)
    → x ≢ 0
    → Memᴰ x (scan_weak_refs marks heapbase refs h).1.cleared_refs
      ↔ (Memᴰ x h.cleared_refs ⊎ (Memᴰ x refs × (is_marked marks x ≡ 0)))
unfolding scan_weak_refs
scan_weak_refs-cleared marks heapbase [] h x nz =
    (λ m. inl m, λ m. elim m [ inl n ↦ n | inr n ↦ absurd (Memᴰ.not-nil n.0) ])
scan_weak_refs-cleared marks heapbase (ref ∷ refs) h x nz = elim (Bool-cases (ref == 0)) [
  | inl z ↦
      let rest = scan_weak_refs-cleared marks heapbase refs h x nz in
      rw (z, scan_weak_refs)
        (
          λ m. elim (rest.0 m) [ inl n ↦ inl n | inr n ↦ inr (Memᴰ.tail n.0, n.1) ],
          λ m. elim m [
            | inl n ↦ rest.1 (inl n)
            | inr n ↦ elim ((Memᴰ-cons x ref refs).0 n.0) [
              | inl e ↦ absurd (nz (ground (arith, e, z)))
              | inr n' ↦ rest.1 (inr (n', n.1))
            ]
          ],
        )
  | inr n₀ ↦ elim (Bool-cases (is_marked marks ref == 0)) [
    | inr marked ↦
        let h' = record h { conservative_roots = h.conservative_roots ++ ref ∷ [] } in
        let rest = scan_weak_refs-cleared marks heapbase refs h' x nz in
        rw (n₀, marked, scan_weak_refs)
          (
            λ m. elim (rest.0 m) [ inl n ↦ inl n | inr n ↦ inr (Memᴰ.tail n.0, n.1) ],
            λ m. elim m [
              | inl n ↦ rest.1 (inl n)
              | inr n ↦ elim ((Memᴰ-cons x ref refs).0 n.0) [
                | inl e ↦
                    let unmarked : is_marked marks ref ≡ 0 =
                      subst (λ y. is_marked marks y ≡ 0) e n.1 in
                    absurd (ground (arith, unmarked, marked))
                | inr n' ↦ rest.1 (inr (n', n.1))
              ]
            ],
          )
    | inl unmarked ↦
        let rest =
          scan_weak_refs-cleared marks heapbase refs (clear_weak_ref heapbase ref h) x nz in
        let snoc = Memᴰ-snoc x ref h.cleared_refs in
        let zero_mark : is_marked marks ref ≡ 0 = ground (arith, unmarked) in
        rw (n₀, unmarked, scan_weak_refs)
          (
            λ m. elim (rest.0 m) [
              | inl n ↦ elim (snoc.0 n) [
                | inl old ↦ inl old
                | inr e ↦ inr (Memᴰ.head e, subst (λ y. is_marked marks y ≡ 0) (sym e) zero_mark)
              ]
              | inr n ↦ inr (Memᴰ.tail n.0, n.1)
            ],
            λ m. elim m [
              | inl n ↦ rest.1 (inl (snoc.1 (inl n)))
              | inr n ↦ elim ((Memᴰ-cons x ref refs).0 n.0) [
                | inl e ↦ rest.1 (inl (snoc.1 (inr e)))
                | inr n' ↦ rest.1 (inr (n', n.1))
              ]
            ],
          )
  ]
]

mark_finalizer-IsObject : (s : Marks) (p q : ℕ) → IsObject s q → IsObject (mark_finalizer p s) q
unfolding mark_finalizer set_mark
mark_finalizer-IsObject s p q o = record { above = o.above; below = o.below; grain = o.grain }

-- The marks of the cleared references rise to the finalizer mark, and the others stay.
pub mark_cleared_refs_lem :
    (refs : List ℕ) (s : Marks) (roots : List ℕ) (q m : ℕ)
    → AreObjects s refs
    → IsObject s q
    → 1 ≤ m
    → m ≤ finalizer_mark
    → (m ≤ is_marked (mark_cleared_refs refs s roots).0 q) ↔ (Memᴰ q refs ⊎ (m ≤ is_marked s q))
unfolding mark_cleared_refs
mark_cleared_refs_lem [] s roots q m a o pos l =
    (λ k. inr k, λ k. elim k [ inl n ↦ absurd (Memᴰ.not-nil n) | inr k' ↦ k' ])
mark_cleared_refs_lem (ref ∷ refs) s roots q m a o pos l = elim (Bool-cases (ref == 0)) [
  | inl z ↦
      let rest = mark_cleared_refs_lem refs s roots q m (λ x i. a x (Memᴰ.tail i)) o pos l in
      let above = o.above in
      rw (z, mark_cleared_refs)
        (
          λ k. elim (rest.0 k) [ inl n ↦ inl (Memᴰ.tail n) | inr k' ↦ inr k' ],
          λ k. elim k [
            | inr k' ↦ rest.1 (inr k')
            | inl n ↦ elim ((Memᴰ-cons q ref refs).0 n) [
              | inl e ↦ absurd (ground (arith, e, z, above))
              | inr n' ↦ rest.1 (inl n')
            ]
          ],
        )
  | inr n₀ ↦
      let here = a ref (Memᴰ.head refl) (ground (arith, n₀)) in
      let one = mark_finalizer_lem s ref q m here o pos l in
      let rest =
        mark_cleared_refs_lem refs (mark_finalizer ref s) (roots ++ ref ∷ []) q m
          (λ x i nz. mark_finalizer-IsObject s ref x (a x (Memᴰ.tail i) nz))
          (mark_finalizer-IsObject s ref q o) pos l in
      rw (n₀, mark_cleared_refs)
        (
          λ k. elim (rest.0 k) [
            | inl n ↦ inl (Memᴰ.tail n)
            | inr k' ↦ elim (one.0 k') [ inl e ↦ inl (Memᴰ.head e) | inr k'' ↦ inr k'' ]
          ],
          λ k. elim k [
            | inr k' ↦ rest.1 (inr (one.1 (inr k')))
            | inl n ↦ elim ((Memᴰ-cons q ref refs).0 n) [
              | inl e ↦ rest.1 (inr (one.1 (inl e)))
              | inr n' ↦ rest.1 (inl n')
            ]
          ],
        )
]
