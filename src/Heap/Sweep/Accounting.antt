-- ===== src/Heap/Sweep/Accounting.antt =====
-- doSweep of src/alloc.c counts the bytes and the objects that it frees, and merges neighbours.
use jamiga_jamvm.Base.{ℕ, ◌+◌, ◌≡◌, refl, Bool, Option, none, some, List, arith}
use jamiga_jamvm.Heap.Block.{Block, Kind, reference, hdr_size, free_bytes}
use jamiga_jamvm.Heap.Sweep.Rule.{Rule, scan_rule}
use jamiga_jamvm.Heap.MarkPhase.ObjectList.{ObjectList}
use jamiga_jamvm.Heap.Sweep.{
  Sweep, start, handle_marked_reference, drop_object, close_chunk, keep_class, keep_marked,
  do_sweep,
}
use jamiga_jamvm.Heap.Sweep.Correct.{keep_marked-Kept, drop_object-SameChunks}
use jamiga_jamvm.Heap.Sweep.Survivors.{dead_bytes}

keep_class-freed :
    (marks : ℕ → ℕ) (p : ℕ) (b : Block) (s : Sweep) (c : Option Kind)
    → (keep_class marks p b s c).freed ≡ s.freed
unfolding keep_class handle_marked_reference
keep_class-freed marks p b s none = refl
keep_class-freed marks p b s (some (reference r)) = ground arith
keep_class-freed marks p b s (some k) = ground arith

keep_marked-freed :
    (marks : ℕ → ℕ) (p : ℕ) (b : Block) (s : Sweep) → (keep_marked marks p b s).freed ≡ s.freed
unfolding keep_marked
keep_marked-freed marks p b s = keep_class-freed marks p b s b.class

drop_object-freed :
    (p : ℕ) (b : Block) (s : Sweep) → (drop_object p b s).freed ≡ s.freed + hdr_size b.header
unfolding drop_object
drop_object-freed p b s = ground arith

close_chunk-freed :
    (c header : ℕ) (s : Sweep)
    → ((close_chunk c header s).freed ≡ s.freed)
      × ((close_chunk c header s).heapfree ≡ s.heapfree + header)
unfolding close_chunk
close_chunk-freed c header s = (refl, refl)

-- `t` bytes are free or will be, and `d` will have been freed, when the loops end.
Freed-rule :
    (marks : ℕ → ℕ) (t d : ℕ)
    → Rule marks
        (λ p s bs.
          (s.heapfree + free_bytes bs + dead_bytes marks p bs ≡ t)
          × (s.freed + dead_bytes marks p bs ≡ d))
        (λ c header p s bs.
          (s.heapfree + header + free_bytes bs + dead_bytes marks p bs ≡ t)
          × (s.freed + dead_bytes marks p bs ≡ d))
        (λ s. (s.heapfree ≡ t) × (s.freed ≡ d))
Freed-rule marks t d = record {
  done = λ p s w. omega arith;
  open_free = λ p s b bs h w. ground arith;
  open_dead = λ p s b bs h m w.
      let same = drop_object-SameChunks p b s in ground (arith, drop_object-freed p b s);
  keep = λ p s b bs m h e w.
      let kept = keep_marked-Kept marks p b s in ground (arith, keep_marked-freed marks p b s);
  join_free = λ c hd p s b bs h w. ground arith;
  join_dead = λ c hd p s b bs h m w.
      let same = drop_object-SameChunks p b s in ground (arith, drop_object-freed p b s);
  close = λ c hd p s bs stop w. omega (arith, close_chunk-freed c hd s);
}

-- The sweep frees the bytes of the unmarked objects, and adds exactly these to the free bytes.
pub do_sweep-freed :
    (marks : ℕ → ℕ) (base : ℕ) (references : ObjectList) (notify : Bool) (bs : List Block)
    → let s = do_sweep marks base references notify bs in
      (s.heapfree ≡ free_bytes bs + dead_bytes marks base bs) × (s.freed ≡ dead_bytes marks base bs)
unfolding do_sweep start
do_sweep-freed marks base references notify bs =
    scan_rule marks _ _ _ (Freed-rule marks _ _) base (start references notify) bs (omega arith)
