-- ===== src/Heap/Sweep/Merged.antt =====
-- After doSweep of src/alloc.c no two free chunks are neighbours.
use jamiga_jamvm.Base.{
  ℕ, ◌+◌, ◌≡◌, refl, Bool, true, false, ◌++◌, none, List, [], ◌∷◌, arith, ◌⊎◌, inl, inr, not, ◌&&◌,
}
use jamiga_jamvm.Heap.Block.{Block, hdr_alloced, header_size}
use jamiga_jamvm.Heap.Sweep.Rule.{Rule, scan_rule}
use jamiga_jamvm.Heap.MarkPhase.ObjectList.{ObjectList}
use jamiga_jamvm.Heap.Sweep.{Sweep, start, close_chunk, keep_marked, do_sweep}
use jamiga_jamvm.Heap.Sweep.Correct.{keep_marked-Kept, drop_object-SameChunks}
use jamiga_jamvm.Heap.Sweep.Rule.{Stops}

abbrev pub is_free : Block → Bool
is_free b = not (hdr_alloced b.header)

-- Whether the last block is free.
abbrev pub ends_free : List Block → Bool
ends_free [] = false
ends_free (b ∷ []) = is_free b
ends_free (b ∷ c ∷ bs) = ends_free (c ∷ bs)

-- No free chunk is followed by another.
abbrev pub is_merged : List Block → Bool
is_merged [] = true
is_merged (b ∷ []) = true
is_merged (b ∷ c ∷ bs) = not (is_free b && is_free c) && is_merged (c ∷ bs)

ends_free-snoc : (bs : List Block) (b : Block) → ends_free (bs ++ b ∷ []) ≡ is_free b
ends_free-snoc [] b = refl
ends_free-snoc (x ∷ []) b = refl
ends_free-snoc (x ∷ y ∷ bs) b = ends_free-snoc (y ∷ bs) b

is_merged-snoc :
    (bs : List Block) (b : Block)
    → is_merged (bs ++ b ∷ []) ≡ (is_merged bs && not (ends_free bs && is_free b))
is_merged-snoc [] b = refl
is_merged-snoc (x ∷ []) b = ground arith
is_merged-snoc (x ∷ y ∷ bs) b = rw (is_merged-snoc (y ∷ bs) b) (ground arith)

-- Between two runs the next block is the end or a marked object, unless the last one kept is.
abbrev Between : (ℕ → ℕ) → ℕ → Sweep → List Block → Type 0
Between marks p s bs =
    (is_merged s.blocks ≡ true) × ((ends_free s.blocks ≡ false) ⊎ Stops marks p bs)

abbrev Within : Sweep → Type 0
Within s = (is_merged s.blocks ≡ true) × (ends_free s.blocks ≡ false)

keep-Within :
    (marks : ℕ → ℕ) (p : ℕ) (b : Block) (s : Sweep)
    → is_merged s.blocks ≡ true
    → hdr_alloced b.header ≡ true
    → Within (keep_marked marks p b s)
keep-Within marks p b s w h =
    let k = keep_marked-Kept marks p b s in
    let b' : Block = record { header = b.header; class = k.class } in
    rw k.blocks (
      rw (is_merged-snoc s.blocks b') (ground arith),
      rw (ends_free-snoc s.blocks b') (ground arith),
    )

opens :
    (marks : ℕ → ℕ) (p : ℕ) (s : Sweep) (b : Block) (bs : List Block)
    → (hdr_alloced b.header ≡ false) ⊎ (marks (p + header_size) ≡ 0)
    → Between marks p s (b ∷ bs)
    → Within s
opens marks p s b bs h (m, inl e) = (m, e)
opens marks p s b bs (inl h) (m, inr stop) = cc
opens marks p s b bs (inr h) (m, inr stop) = absurd (stop.1 h)

closes : (c header : ℕ) (s : Sweep) → Within s → is_merged (close_chunk c header s).blocks ≡ true
unfolding close_chunk
closes c header s w =
    rw (is_merged-snoc s.blocks (record { header = header; class = none })) (ground arith)

Merged-rule :
    (marks : ℕ → ℕ)
    → Rule marks (Between marks) (λ c header p s bs. Within s) (λ s. is_merged s.blocks ≡ true)
Merged-rule marks = record {
  done = λ p s w. w.0;
  open_free = λ p s b bs h w. opens marks p s b bs (inl h) w;
  open_dead = λ p s b bs h m w.
      let same = drop_object-SameChunks p b s in rw same.blocks (opens marks p s b bs (inr m) w);
  keep = λ p s b bs m h e w. let k = keep-Within marks p b s w.0 h in (k.0, inl k.1);
  join_free = λ c hd p s b bs h w. w;
  join_dead = λ c hd p s b bs h m w. let same = drop_object-SameChunks p b s in rw same.blocks w;
  close = λ c hd p s bs stop w. (closes c hd s w, inr stop);
}

-- The sweep leaves no two free chunks side by side.
pub do_sweep-is_merged :
    (marks : ℕ → ℕ) (base : ℕ) (references : ObjectList) (notify : Bool) (bs : List Block)
    → is_merged (do_sweep marks base references notify bs).blocks ≡ true
unfolding do_sweep start
do_sweep-is_merged marks base references notify bs =
    scan_rule marks _ _ _ (Merged-rule marks) base (start references notify) bs (refl, inl refl)
