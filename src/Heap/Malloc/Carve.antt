-- ===== src/Heap/Malloc/Carve.antt =====
-- Carving an allocated block out of a free chunk of the heap (gcMalloc of src/alloc.c).
use jamiga_jamvm.Base.{
  ℕ, ◌+◌, ◌-◌, ◌%◌, ◌^◌, ◌≤◌, ◌<◌, ◌≡◌, refl, subst, true, false, ◌++◌, List, [], ◌∷◌, ltb, leb,
  if◌then◌else◌, All, arith, inl, inr, List-cases,
}
use jamiga_jamvm.Heap.Block.{
  Block, extent, span, listing, free_bytes, objects, header_size, min_object_size, object_grain,
  hdr_alloced, alloced_header, IsFormed, hdr_size,
}
use jamiga_jamvm.Heap.Malloc.{header_at, carve}

-- A size that fits the size field of a header.
pub record IsSize (n : ℕ) : Type 0 where
  pub whole : n % object_grain ≡ 0
  pub positive : 0 < n
  pub fits : n < 2 ^ 30

-- An object among those at other addresses, in address order.
abbrev pub insert_object : ℕ → ℕ → List (ℕ × ℕ) → List (ℕ × ℕ)
insert_object c h [] = (c, h) ∷ []
insert_object c h ((d, k) ∷ os) =
    if ltb c d then (c, h) ∷ (d, k) ∷ os else (d, k) ∷ insert_object c h os

-- The free list's entry for what is left of a chunk of `len` bytes at `a`.
abbrev pub remainder : ℕ → ℕ → ℕ → List ℕ
remainder a len n = if leb min_object_size (len - n) then (a + n) ∷ [] else []

listing-lower :
    (p : ℕ) (bs : List Block) (xs ys : List ℕ) (a : ℕ) → listing p bs ≡ xs ++ a ∷ ys → p ≤ a
listing-lower p [] [] ys a e = cc
listing-lower p [] (x ∷ xs) ys a e = cc
listing-lower p (b ∷ bs) [] ys a e = ground (arith, listing-lower (p + extent b) bs [] ys a)
listing-lower p (b ∷ bs) (x ∷ xs) ys a e =
    ground (
      arith,
      listing-lower (p + extent b) bs xs ys a,
      listing-lower (p + extent b) bs (x ∷ xs) ys a,
    )

objects-lower :
    (p : ℕ) (bs : List Block) (c h : ℕ) (os : List (ℕ × ℕ))
    → objects p bs ≡ (c, h) ∷ os
    → p + header_size ≤ c
objects-lower p [] c h os e = cc
objects-lower p (b ∷ bs) c h os e = ground (arith, objects-lower (p + extent b) bs c h os)

-- What carving `n` bytes at `a` does to the blocks.
pub record Carved (p : ℕ) (bs : List Block) (a n : ℕ) (xs ys : List ℕ) : Type 0 where
  pub formed : All IsFormed (carve p bs a n)
  pub same_span : span (carve p bs a n) ≡ span bs
  pub relisted : listing p (carve p bs a n) ≡ xs ++ (remainder a (header_at p bs a) n ++ ys)
  pub counted : free_bytes (carve p bs a n) + n ≡ free_bytes bs
  pub allocated :
      objects p (carve p bs a n) ≡ insert_object (a + header_size) (alloced_header n) (objects p bs)

pub header_at-roomy :
    (p : ℕ) (bs : List Block) (xs ys : List ℕ) (a : ℕ)
    → All IsFormed bs
    → listing p bs ≡ xs ++ a ∷ ys
    → (min_object_size ≤ header_at p bs a) × (header_at p bs a ≤ free_bytes bs)
unfolding header_at
header_at-roomy p [] [] ys a f e = cc
header_at-roomy p [] (x ∷ xs) ys a f e = cc
header_at-roomy p (b ∷ bs) [] ys a f e =
    ground (
      arith,
      header_at-roomy (p + extent b) bs [] ys a f.1,
      listing-lower (p + extent b) bs [] ys a,
    )
header_at-roomy p (b ∷ bs) (x ∷ xs) ys a f e = ground (
  arith,
  header_at-roomy (p + extent b) bs (x ∷ xs) ys a f.1,
  header_at-roomy (p + extent b) bs xs ys a f.1,
  listing-lower (p + extent b) bs (x ∷ xs) ys a,
  listing-lower (p + extent b) bs xs ys a,
)

alloced_header-fields :
    {n : ℕ} → IsSize n → (hdr_alloced (alloced_header n) ≡ true) × (hdr_size (alloced_header n) ≡ n)
alloced_header-fields z = ground arith

insert_first_of :
    (c h q : ℕ) (bs : List Block) (os : List (ℕ × ℕ))
    → c < q + header_size
    → objects q bs ≡ os
    → insert_object c h os ≡ (c, h) ∷ os
insert_first_of c h q bs [] l e = refl
insert_first_of c h q bs ((d, k) ∷ os) l e = ground (arith, objects-lower q bs d k os)

insert_first :
    (c h q : ℕ) (bs : List Block)
    → c < q + header_size
    → insert_object c h (objects q bs) ≡ (c, h) ∷ objects q bs
insert_first c h q bs l = insert_first_of c h q bs (objects q bs) l refl

-- The carved chunk is the first block.
module _ (p : ℕ) (b : Block) (bs : List Block) (n : ℕ) (ys : List ℕ) (z : IsSize n) (f : IsFormed b)
    (fs : All IsFormed bs) (free : hdr_alloced b.header ≡ false) (small : n ≤ b.header) where
  here-IsFormed : All IsFormed (carve p (b ∷ bs) p n)
  unfolding carve
  here-IsFormed = ground (arith, alloced_header-fields z)

  here-span : span (carve p (b ∷ bs) p n) ≡ span (b ∷ bs)
  unfolding carve
  here-span = ground (arith, alloced_header-fields z)

  here-counted : free_bytes (carve p (b ∷ bs) p n) + n ≡ free_bytes (b ∷ bs)
  unfolding carve
  here-counted = ground (arith, alloced_header-fields z)

  here-listing :
      listing (p + extent b) bs ≡ ys
      → listing p (carve p (b ∷ bs) p n) ≡ remainder p (header_at p (b ∷ bs) p) n ++ ys
  unfolding carve header_at
  here-listing e = ground (arith, alloced_header-fields z, rest, exact)
    where
      rest : p + n + (b.header - n) ≡ p + extent b
      rest = ground arith

      exact : b.header ≡ n → p + n ≡ p + extent b
      exact e = ground arith

  here-objects :
      objects p (carve p (b ∷ bs) p n)
      ≡ insert_object (p + header_size) (alloced_header n) (objects p (b ∷ bs))
  unfolding carve
  here-objects = ground (
    arith,
    alloced_header-fields z,
    rest,
    exact,
    insert_first (p + header_size) (alloced_header n) (p + extent b) bs (ground arith),
  )
    where
      rest : p + n + (b.header - n) ≡ p + extent b
      rest = ground arith

      exact : b.header ≡ n → p + n ≡ p + extent b
      exact e = ground arith

-- The carved chunk is a later block.
there :
    (p : ℕ) (b : Block) (bs : List Block) (a n : ℕ) (xs zs ys : List ℕ)
    → IsFormed b
    → p < a
    → (listing p (b ∷ []) ++ xs ≡ zs)
    → Carved (p + extent b) bs a n xs ys
    → Carved p (b ∷ bs) a n zs ys
unfolding carve header_at
there p b bs a n xs zs ys f lt e c = record {
  formed = ground arith;
  same_span = ground arith;
  relisted = ground arith;
  counted = ground arith;
  allocated = ground arith;
}

here :
    (p : ℕ) (b : Block) (bs : List Block) (a n : ℕ) (ys : List ℕ)
    → IsSize n
    → IsFormed b
    → All IsFormed bs
    → hdr_alloced b.header ≡ false
    → n ≤ b.header
    → p ≡ a
    → listing (p + extent b) bs ≡ ys
    → Carved p (b ∷ bs) a n [] ys
here p b bs a n ys z f fs free small e l =
    subst (λ q. Carved p (b ∷ bs) q n [] ys) e
      (record {
        formed = here-IsFormed p b bs n ys z f fs free small;
        same_span = here-span p b bs n ys z f fs free small;
        relisted = here-listing p b bs n ys z f fs free small l;
        counted = here-counted p b bs n ys z f fs free small;
        allocated = here-objects p b bs n ys z f fs free small;
      })

-- Carving at any entry of the free list.
pub carve-Carved :
    (p : ℕ) (bs : List Block) (a n : ℕ) (xs ys : List ℕ)
    → IsSize n
    → All IsFormed bs
    → listing p bs ≡ xs ++ a ∷ ys
    → n ≤ header_at p bs a
    → Carved p bs a n xs ys
unfolding header_at
carve-Carved p [] a n [] ys z f e l = cc
carve-Carved p [] a n (x ∷ xs) ys z f e l = cc
carve-Carved p (b ∷ bs) a n [] ys z f e l = elim (List-cases (listing p (b ∷ []))) [
  | inl u ↦
      let tail : listing (p + extent b) bs ≡ a ∷ ys = ground arith in
      let low = listing-lower (p + extent b) bs [] ys a tail in
      there p b bs a n [] [] ys f.0 (ground arith) (rw u)
        (carve-Carved (p + extent b) bs a n [] ys z f.1 tail (ground arith))
  | inr (y, r, u) ↦
      here p b bs a n ys z f.0 f.1 (ground arith) (ground arith) (ground arith) (ground arith)
]
carve-Carved p (b ∷ bs) a n (x ∷ xs) ys z f e l = elim (List-cases (listing p (b ∷ []))) [
  | inl u ↦
      let tail : listing (p + extent b) bs ≡ x ∷ (xs ++ a ∷ ys) = ground arith in
      let low = listing-lower (p + extent b) bs (x ∷ xs) ys a tail in
      there p b bs a n (x ∷ xs) (x ∷ xs) ys f.0 (ground arith) (rw u)
        (carve-Carved (p + extent b) bs a n (x ∷ xs) ys z f.1 tail (ground arith))
  | inr (y, r, u) ↦
      let tail : listing (p + extent b) bs ≡ xs ++ a ∷ ys = ground arith in
      let low = listing-lower (p + extent b) bs xs ys a tail in
      there p b bs a n xs (x ∷ xs) ys f.0 (ground arith) (ground arith)
        (carve-Carved (p + extent b) bs a n xs ys z f.1 tail (ground arith))
]
