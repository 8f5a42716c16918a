-- ===== src/Heap/Sweep/Correct.antt =====
-- doSweep of src/alloc.c leaves the heap tiled by blocks, with a free list that names its chunks.
use jamiga_jamvm.Base.{
  ℕ, ◌+◌, ◌%◌, ◌≡◌, refl, max, Bool, true, false, ◌++◌, Option, none, some, List, [], ◌∷◌, arith,
  All, sym, ◌<◌, Bool-cases, inl, inr, append-nil, subst,
}
use jamiga_jamvm.Heap.Block.{
  Block, Kind, reference, Reference, extent, hdr_size, hdr_alloced, hdr_special_obj, header_size,
  span, listing, free_bytes, largest_chunk, span-append, listing-append, free_bytes-append,
  largest_chunk-append, IsFormed,
}
use jamiga_jamvm.Heap.Sweep.Rule.{Rule, scan_rule}
use jamiga_jamvm.Heap.MarkPhase.ObjectList.{ObjectList}
use jamiga_jamvm.Heap.Sweep.{
  Sweep, start, handle_marked_reference, handle_marked_special, drop_object, close_chunk,
  keep_block, keep_special, keep_class, keep_marked, do_sweep,
}

-- What the loops keep: the heap below `ptr` is tiled, and the counters describe its chunks.
pub record Swept (base ptr : ℕ) (s : Sweep) : Type 0 where
  pub reached : base + span s.blocks ≡ ptr
  pub formed : All IsFormed s.blocks
  pub listed : listing base s.blocks ≡ s.freelist
  pub counted : free_bytes s.blocks ≡ s.heapfree
  pub biggest : largest_chunk s.blocks ≡ s.largest

-- A marked object's block is appended with its header, and the free chunks stay as they are.
pub record Kept (b : Block) (s t : Sweep) : Type 0 where
  pub class : Option Kind
  pub blocks : t.blocks ≡ s.blocks ++ record { header = b.header; class = class } ∷ []
  pub freelist : t.freelist ≡ s.freelist
  pub heapfree : t.heapfree ≡ s.heapfree
  pub largest : t.largest ≡ s.largest

keep_block-Kept :
    (c : Option Kind) (b : Block) (s : Sweep) → Kept b s (keep_block (record b { class = c }) s)
keep_block-Kept c b s = record {
  class = c;
  blocks = refl;
  freelist = refl;
  heapfree = refl;
  largest = refl;
}

-- The fields of the sweep that special objects do not touch.
pub record SameChunks (s t : Sweep) : Type 0 where
  pub blocks : t.blocks ≡ s.blocks
  pub freelist : t.freelist ≡ s.freelist
  pub heapfree : t.heapfree ≡ s.heapfree
  pub largest : t.largest ≡ s.largest

handle_marked_reference-SameChunks :
    (marks : ℕ → ℕ) (ob : ℕ) (r : Reference) (s : Sweep)
    → SameChunks s (handle_marked_reference marks ob r s).2
unfolding handle_marked_reference
handle_marked_reference-SameChunks marks ob r s = ground arith

handle_marked_special-SameChunks :
    (marks : ℕ → ℕ) (ob : ℕ) (k : Kind) (s : Sweep)
    → SameChunks s (handle_marked_special marks ob k s).2
unfolding handle_marked_special
handle_marked_special-SameChunks marks ob (reference r) s =
    handle_marked_reference-SameChunks marks ob r s
handle_marked_special-SameChunks marks ob _ s = record {
  blocks = refl;
  freelist = refl;
  heapfree = refl;
  largest = refl;
}

pub drop_object-SameChunks : (p : ℕ) (b : Block) (s : Sweep) → SameChunks s (drop_object p b s)
unfolding drop_object
drop_object-SameChunks p b s = ground arith

keep_special-Kept :
    (marks : ℕ → ℕ) (p : ℕ) (b : Block) (k : Kind) (s : Sweep)
    → Kept b s (keep_special marks p b k s)
unfolding keep_special
keep_special-Kept marks p b k s =
    let same = handle_marked_special-SameChunks marks (p + header_size) k s in
    record {
      class = some (handle_marked_special marks (p + header_size) k s).0;
      blocks = ground arith;
      freelist = ground arith;
      heapfree = ground arith;
      largest = ground arith;
    }

keep_class-Kept :
    (marks : ℕ → ℕ) (p : ℕ) (b : Block) (s : Sweep) (c : Option Kind)
    → c ≡ b.class
    → Kept b s (keep_class marks p b s c)
unfolding keep_class
keep_class-Kept marks p b s none e = record {
  class = b.class;
  blocks = refl;
  freelist = refl;
  heapfree = refl;
  largest = refl;
}
keep_class-Kept marks p b s (some k) e = elim (Bool-cases (hdr_special_obj b.header)) [
  | inl h ↦ rw h (keep_special-Kept marks p b k s)
  | inr h ↦
      rw h (record {
        class = b.class;
        blocks = refl;
        freelist = refl;
        heapfree = refl;
        largest = refl;
      })
]

pub keep_marked-Kept :
    (marks : ℕ → ℕ) (p : ℕ) (b : Block) (s : Sweep) → Kept b s (keep_marked marks p b s)
unfolding keep_marked
keep_marked-Kept marks p b s = keep_class-Kept marks p b s b.class refl

All-snoc :
    (b : Block) (bs : List Block) → All IsFormed bs → IsFormed b → All IsFormed (bs ++ b ∷ [])
All-snoc b [] h f = (f, tt)
All-snoc b (x ∷ bs) h f = (h.0, All-snoc b bs h.1 f)

module _ (base : ℕ) where
  -- Appending a block to the swept part of the heap.
  snoc-Swept :
      (s t : Sweep) (p q : ℕ) (b : Block)
      → Swept base p s
      → IsFormed b
      → t.blocks ≡ s.blocks ++ b ∷ []
      → t.freelist ≡ s.freelist ++ listing p (b ∷ [])
      → t.heapfree ≡ s.heapfree + free_bytes (b ∷ [])
      → t.largest ≡ max s.largest (largest_chunk (b ∷ []))
      → p + extent b ≡ q
      → Swept base q t
  snoc-Swept s t p q b w f eb el eh em eq = record {
    reached = rw eb (omega (arith, span-append s.blocks (b ∷ []), w.reached));
    formed = rw eb (All-snoc b s.blocks w.formed f);
    listed = rw (eb, el, listing-append, w.reached, w.listed);
    counted = rw (eb, eh) (omega (arith, free_bytes-append s.blocks (b ∷ []), w.counted));
    biggest = rw (eb, em) (omega (arith, largest_chunk-append s.blocks (b ∷ []), w.biggest));
  }

  close_chunk-Swept :
      (c header p : ℕ) (s : Sweep)
      → Swept base c s
      → header % 8 ≡ 0
      → 0 < header
      → c + header ≡ p
      → Swept base p (close_chunk c header s)
  unfolding close_chunk
  close_chunk-Swept c header p s w h pos e =
      let b : Block = record { header = header; class = none } in
      let even : hdr_alloced header ≡ false = ground arith in
      snoc-Swept s (close_chunk c header s) c p b w (ground arith) refl
        (ground (arith, append-nil s.freelist)) (ground arith) (ground arith) (ground arith)

  keep_marked-Swept :
      (marks : ℕ → ℕ) (p q : ℕ) (b : Block) (s : Sweep)
      → Swept base p s
      → IsFormed b
      → hdr_alloced b.header ≡ true
      → p + hdr_size b.header ≡ q
      → Swept base q (keep_marked marks p b s)
  keep_marked-Swept marks p q b s w f a e =
      let k = keep_marked-Kept marks p b s in
      let b' : Block = record { header = b.header; class = k.class } in
      snoc-Swept s (keep_marked marks p b s) p q b' w (ground arith) k.blocks
        (ground (arith, append-nil s.freelist)) (ground arith) (ground arith) (ground arith)

  drop_object-Swept :
      (p c : ℕ) (b : Block) (s : Sweep) → Swept base c s → Swept base c (drop_object p b s)
  drop_object-Swept p c b s w =
      let same = drop_object-SameChunks p b s in
      record {
        reached = rw same.blocks w.reached;
        formed = rw same.blocks w.formed;
        listed = rw (same.blocks, same.freelist) w.listed;
        counted = rw (same.blocks, same.heapfree) w.counted;
        biggest = rw (same.blocks, same.largest) w.biggest;
      }

  pub start-Swept :
      (references : ObjectList) (notify : Bool) → Swept base base (start references notify)
  unfolding start
  start-Swept references notify = record {
    reached = omega arith;
    formed = tt;
    listed = refl;
    counted = refl;
    biggest = refl;
  }

  -- The invariants of the outer and of the inner loop.
  abbrev pub Outer : ℕ → ℕ → Sweep → List Block → Type 0
  Outer q p s bs = Swept base p s × All IsFormed bs × (p + span bs ≡ q)

  abbrev pub Inner : ℕ → ℕ → ℕ → ℕ → Sweep → List Block → Type 0
  Inner q c header p s bs =
      Swept base c s
      × All IsFormed bs
      × (p + span bs ≡ q)
      × (header % 8 ≡ 0)
      × (0 < header)
      × (c + header ≡ p)

  pub Swept-rule : (marks : ℕ → ℕ) (q : ℕ) → Rule marks (Outer q) (Inner q) (λ s. Swept base q s)
  Swept-rule marks q = record {
    done = λ p s w. subst (λ r. Swept base r s) (omega arith) w.0;
    open_free = λ p s b bs h w. (w.0, w.1.1, ground arith, ground arith, ground arith, refl);
    open_dead = λ p s b bs h m w.
        (drop_object-Swept p p b s w.0, w.1.1, ground arith, ground arith, ground arith, refl);
    keep = λ p s b bs m h e w. (
      keep_marked-Swept marks p (p + hdr_size b.header) b s w.0 w.1.0 h refl,
      w.1.1,
      ground arith,
    );
    join_free =
        λ c hd p s b bs h w. (w.0, w.1.1, ground arith, ground arith, omega arith, omega arith);
    join_dead = λ c hd p s b bs h m w.
        (drop_object-Swept p c b s w.0, w.1.1, ground arith, omega arith, omega arith, omega arith);
    close = λ c hd p s bs stop w. (close_chunk-Swept c hd p s w.0 w.3 w.4 w.5, w.1, w.2);
  }

-- The sweep leaves a well-formed heap of the same size. Its free list names, in address order, the
-- chunks that can hold an object; `heapfree` is the size of all chunks, and the result of doSweep
-- that of the largest.
pub do_sweep-free_list :
    (marks : ℕ → ℕ) (base : ℕ) (references : ObjectList) (notify : Bool) (bs : List Block)
    → All IsFormed bs
    → let s = do_sweep marks base references notify bs in
      (span s.blocks ≡ span bs)
      × All IsFormed s.blocks
      × (s.freelist ≡ listing base s.blocks)
      × (s.heapfree ≡ free_bytes s.blocks)
      × (s.largest ≡ largest_chunk s.blocks)
unfolding do_sweep
do_sweep-free_list marks base references notify bs f =
    let w =
      scan_rule marks _ _ _ (Swept-rule base marks (base + span bs)) base (start references notify)
        bs ((start-Swept base references notify, f, refl)) in
    (omega (arith, w.reached), w.formed, sym w.listed, sym w.counted, sym w.biggest)
