-- ===== src/Heap/Malloc/Search.antt =====
-- The search of gcMalloc (src/alloc.c): what is allocated, and that the heap stays well-formed.
use jamiga_jamvm.Base.{
  ℕ, ◌+◌, ◌-◌, ◌≤◌, ◌<◌, ◌≡◌, refl, ◌∙◌, sym, ◌++◌, Option, none, some, List, [], ◌∷◌, ltb, leb,
  ◌==◌, if◌then◌else◌, All, arith, Bool-cases, inl, inr, append_assoc,
}
use jamiga_jamvm.Heap.Block.{listing, objects, header_size, min_object_size, alloced_header}
use jamiga_jamvm.Heap.Malloc.{Heap, header_at, IsValid, got_it, search, find_block}
use jamiga_jamvm.Heap.Malloc.Carve.{IsSize, insert_object, remainder, carve-Carved, header_at-roomy}

-- The outcome of a search for `n` bytes from the heap `h` on, whose free list was `l` from there.
abbrev pub Outcome : ℕ → Heap → List ℕ → Option ℕ → Heap → Type 0
Outcome n h l (some a) h' =
    (objects h'.base h'.blocks
      ≡ insert_object (a + header_size) (alloced_header n) (objects h.base h.blocks))
    × (h'.heapfree + n ≡ h.heapfree)
Outcome n h l none h' =
    (h'.blocks ≡ h.blocks)
    × (h'.heapfree ≡ h.heapfree)
    × All (λ a. header_at h.base h.blocks a < n) l

-- The bounds of the heap, which allocation leaves alone.
pub record SameBounds (h h' : Heap) : Type 0 where
  pub base : h'.base ≡ h.base
  pub limit : h'.limit ≡ h.limit
  pub top : h'.top ≡ h.top

-- The chunk at `a` is taken, and the free list goes on with what is left of it.
got_it-IsValid :
    (n : ℕ) (h : Heap) (a : ℕ) (passed cs ahead : List ℕ)
    → IsSize n
    → IsValid h
    → passed ++ a ∷ cs ≡ listing h.base h.blocks
    → n ≤ header_at h.base h.blocks a
    → ahead ≡ remainder a (header_at h.base h.blocks a) n ++ cs
    → let h' = got_it n a (record h { passed = passed; ahead = ahead }) in
      IsValid h' × Outcome n h (a ∷ cs) (some a) h'
unfolding got_it
got_it-IsValid n h a passed cs ahead z v e l r =
    let c = carve-Carved h.base h.blocks a n passed cs z v.formed (sym e) l in
    let room = header_at-roomy h.base h.blocks passed cs a v.formed (sym e) in
    (
      record {
        formed = c.formed;
        tiled = rw c.same_span v.tiled;
        listed = rw r (sym c.relisted);
        counted = omega (arith, c.counted, v.counted);
        bounded = v.bounded;
      },
      (c.allocated, omega (arith, c.counted, v.counted)),
    )

widen :
    (n : ℕ) (h h' : Heap) (a : ℕ) (cs : List ℕ) (r : Option ℕ)
    → header_at h.base h.blocks a < n
    → Outcome n h cs r h'
    → Outcome n h (a ∷ cs) r h'
widen n h h' a cs (some c) l o = o
widen n h h' a cs none l o = (o.0, o.1, (l, o.2))

search_lem :
    (n : ℕ) (h : Heap) (passed ahead : List ℕ)
    → IsSize n
    → IsValid h
    → passed ++ ahead ≡ listing h.base h.blocks
    → let (r, h') = search n h passed ahead in IsValid h' × SameBounds h h' × Outcome n h ahead r h'
unfolding search
search_lem n h passed [] z v e = (
  record {
    formed = v.formed;
    tiled = v.tiled;
    listed = e;
    counted = v.counted;
    bounded = v.bounded;
  },
  record { base = refl; limit = refl; top = refl },
  (refl, refl, tt),
)
search_lem n h passed (a ∷ cs) z v e =
    let len = header_at h.base h.blocks a in
    elim (Bool-cases (len == n)) [
      | inl same ↦
          let g = got_it-IsValid n h a passed cs cs z v e (ground arith) (ground arith) in
          rw same (g.0, unfold got_it in record { base = refl; limit = refl; top = refl }, g.1)
      | inr ne ↦ elim (Bool-cases (ltb n len)) [
        | inl lt ↦
            let ahead = if leb min_object_size (len - n) then (a + n) ∷ cs else cs in
            let g = got_it-IsValid n h a passed cs ahead z v e (ground arith) (ground arith) in
            rw (ne, lt)
              (g.0, unfold got_it in record { base = refl; limit = refl; top = refl }, g.1)
        | inr ge ↦
            let g =
              search_lem n h (passed ++ a ∷ []) cs z v (append_assoc passed (a ∷ []) cs ∙ e) in
            rw (ne, ge) (g.0, g.1, widen n h _ a cs _ (ground arith) g.2)
      ]
    ]

-- On a well-formed heap the search keeps it well-formed, and its bounds. If it returns an address,
-- exactly one object is new: one of `n` bytes there, and `heapfree` is less by `n`. If it returns
-- none, the blocks are as before and no chunk from `chunkpp` on has `n` bytes.
pub find_block_lem :
    (n : ℕ) (h : Heap)
    → IsSize n
    → IsValid h
    → let (r, h') = find_block n h in IsValid h' × SameBounds h h' × Outcome n h h.ahead r h'
unfolding find_block
find_block_lem n h z v = search_lem n h h.passed h.ahead z v v.listed
