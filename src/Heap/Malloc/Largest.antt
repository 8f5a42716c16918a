-- ===== src/Heap/Malloc/Largest.antt =====
-- A request that the largest chunk can hold is found from the head of the free list (src/alloc.c).
use jamiga_jamvm.Base.{
  ℕ, ◌+◌, ◌≤◌, ◌<◌, ◌≡◌, ◌≢◌, subst, none, List, [], ◌∷◌, leb, All, arith, Bool-cases, inl, inr,
}
use jamiga_jamvm.Heap.Block.{
  Block, extent, listing, min_object_size, hdr_alloced, IsFormed, hdr_size, largest_chunk,
}
use jamiga_jamvm.Heap.Malloc.{Heap, IsValid, header_at, find_block}
use jamiga_jamvm.Heap.Malloc.Carve.{IsSize}
use jamiga_jamvm.Heap.Malloc.Search.{Outcome, find_block_lem}

listing-above : (q p : ℕ) (bs : List Block) → q ≤ p → All (λ a. q ≤ a) (listing p bs)
listing-above q p [] l = tt
listing-above q p (b ∷ bs) l = elim (Bool-cases (hdr_alloced b.header)) [
  | inl h ↦ rw h (listing-above q (p + hdr_size b.header) bs (omega arith))
  | inr h ↦ elim (Bool-cases (leb min_object_size b.header)) [
    | inl k ↦ rw (h, k) (l, listing-above q (p + b.header) bs (omega arith))
    | inr k ↦ rw (h, k) (listing-above q (p + b.header) bs (omega arith))
  ]
]

-- Entries behind the first block have their headers behind it.
small-tail :
    (p n : ℕ) (b : Block) (bs : List Block) (l : List ℕ)
    → IsFormed b
    → All (λ a. p + extent b ≤ a) l
    → All (λ a. header_at p (b ∷ bs) a < n) l
    → All (λ a. header_at (p + extent b) bs a < n) l
unfolding header_at
small-tail p n b bs [] f u s = tt
small-tail p n b bs (a ∷ l) f u s = (ground arith, small-tail p n b bs l f u.1 s.1)

h_at : (p : ℕ) (b : Block) (bs : List Block) → header_at p (b ∷ bs) p ≡ b.header
unfolding header_at
h_at p b bs = ground arith

listed-ahead : (h : Heap) → IsValid h → h.passed ≡ [] → h.ahead ≡ listing h.base h.blocks
listed-ahead h v e = ground (arith, v.listed)

largest_chunk-lt :
    (p n : ℕ) (bs : List Block)
    → min_object_size ≤ n
    → All IsFormed bs
    → All (λ a. header_at p bs a < n) (listing p bs)
    → largest_chunk bs < n
largest_chunk-lt p n [] m f s = omega arith
largest_chunk-lt p n (b ∷ bs) m f s =
    let q = p + extent b in
    let up = listing-above q q bs (omega arith) in
    let step = λ (t : All (λ a. header_at p (b ∷ bs) a < n) (listing q bs)).
      largest_chunk-lt q n bs m f.1 (small-tail p n b bs _ f.0 up t) in
    elim (Bool-cases (hdr_alloced b.header)) [
      | inl h ↦
          let e : listing p (b ∷ bs) ≡ listing q bs = ground arith in
          let r = step (subst (All (λ a. header_at p (b ∷ bs) a < n)) e s) in ground arith
      | inr h ↦ elim (Bool-cases (leb min_object_size b.header)) [
        | inl k ↦
            let e : listing p (b ∷ bs) ≡ p ∷ listing q bs = ground arith in
            let t = subst (All (λ a. header_at p (b ∷ bs) a < n)) e s in
            let first : b.header < n = rw (h_at p b bs) at t.0 in let r = step t.1 in ground arith
        | inr k ↦
            let e : listing p (b ∷ bs) ≡ listing q bs = ground arith in
            let r = step (subst (All (λ a. header_at p (b ∷ bs) a < n)) e s) in ground arith
      ]
    ]

-- From the head of the free list, a request that the largest chunk can hold is found.
pub find_block-largest :
    (n : ℕ) (h : Heap)
    → IsSize n
    → min_object_size ≤ n
    → IsValid h
    → h.passed ≡ []
    → n ≤ largest_chunk h.blocks
    → (find_block n h).0 ≢ none
find_block-largest n h z m v e l none_found =
    let (_, _, out) = find_block_lem n h z v in
    let o = subst (λ r. Outcome n h h.ahead r (find_block n h).1) none_found out in
    let all : All (λ a. header_at h.base h.blocks a < n) (listing h.base h.blocks) =
      subst (All (λ a. header_at h.base h.blocks a < n)) (listed-ahead h v e) o.2 in
    absurd (omega (arith, largest_chunk-lt h.base n h.blocks m v.formed all))
