-- ===== src/Heap/Sweep/Survivors.antt =====
-- doSweep of src/alloc.c keeps exactly the marked objects, and counts what it frees.
use jamiga_jamvm.Base.{
  ℕ, ◌+◌, ◌%◌, ◌≡◌, refl, Bool, true, ◌++◌, List, [], ◌∷◌, arith, if◌then◌else◌, All, ◌∙◌, sym,
  append-nil, append_assoc, ◌==◌,
}
use jamiga_jamvm.Heap.Block.{
  Block, extent, hdr_size, hdr_alloced, header_size, span, objects, objects-append, IsFormed,
}
use jamiga_jamvm.Heap.Sweep.Rule.{Rule, scan_rule}
use jamiga_jamvm.Heap.MarkPhase.ObjectList.{ObjectList}
use jamiga_jamvm.Heap.Sweep.{Sweep, start, close_chunk, keep_marked, do_sweep}
use jamiga_jamvm.Heap.Sweep.Correct.{
  Outer, Inner, Swept-rule, start-Swept, keep_marked-Kept, drop_object-SameChunks,
}

-- The objects among `os` that have a mark.
abbrev pub live : (ℕ → ℕ) → List (ℕ × ℕ) → List (ℕ × ℕ)
live marks [] = []
live marks ((a, h) ∷ os) = let rest = live marks os in if marks a == 0 then rest else (a, h) ∷ rest

-- The bytes of the objects at `p` and after that have no mark.
abbrev pub dead_bytes : (ℕ → ℕ) → ℕ → List Block → ℕ
dead_bytes marks p [] = 0
dead_bytes marks p (b ∷ bs) =
    (if hdr_alloced b.header
      then if marks (p + header_size) == 0 then hdr_size b.header else 0
      else 0)
    + dead_bytes marks (p + extent b) bs

objects-keep :
    (marks : ℕ → ℕ) (base p : ℕ) (b : Block) (s : Sweep)
    → base + span s.blocks ≡ p
    → hdr_alloced b.header ≡ true
    → objects base (keep_marked marks p b s).blocks
      ≡ objects base s.blocks ++ (p + header_size, b.header) ∷ []
objects-keep marks base p b s e h =
    let k = keep_marked-Kept marks p b s in rw (k.blocks, objects-append, e) (ground arith)

objects-close :
    (base c header : ℕ) (s : Sweep)
    → base + span s.blocks ≡ c
    → header % 8 ≡ 0
    → objects base (close_chunk c header s).blocks ≡ objects base s.blocks
unfolding close_chunk
objects-close base c header s e h =
    rw objects-append (ground (arith, append-nil (objects base s.blocks)))

Survivors-rule :
    (marks : ℕ → ℕ) (base q : ℕ) (os : List (ℕ × ℕ))
    → Rule marks
        (λ p s bs. Outer base q p s bs × (objects base s.blocks ++ live marks (objects p bs) ≡ os))
        (λ c header p s bs.
          Inner base q c header p s bs × (objects base s.blocks ++ live marks (objects p bs) ≡ os))
        (λ s. objects base s.blocks ≡ os)
Survivors-rule marks base q os =
    let r = Swept-rule base marks q in
    record {
      done = λ p s w. sym (append-nil _) ∙ w.1;
      open_free = λ p s b bs h w. (r.open_free p s b bs h w.0, ground arith);
      open_dead = λ p s b bs h m w.
          let same = drop_object-SameChunks p b s in
          (r.open_dead p s b bs h m w.0, rw same.blocks (ground arith));
      keep = λ p s b bs m h e w. (
        r.keep p s b bs m h e w.0,
        rw (objects-keep marks base p b s w.0.0.reached h, append_assoc) (ground arith),
      );
      join_free = λ c hd p s b bs h w. (r.join_free c hd p s b bs h w.0, ground arith);
      join_dead = λ c hd p s b bs h m w.
          let same = drop_object-SameChunks p b s in
          (r.join_dead c hd p s b bs h m w.0, rw same.blocks (ground arith));
      close = λ c hd p s bs stop w.
          (r.close c hd p s bs stop w.0, rw (objects-close base c hd s w.0.0.reached w.0.3) w.1);
    }

-- The sweep keeps the marked objects, where they are and with their headers, and no other.
pub do_sweep-survivors :
    (marks : ℕ → ℕ) (base : ℕ) (references : ObjectList) (notify : Bool) (bs : List Block)
    → All IsFormed bs
    → objects base (do_sweep marks base references notify bs).blocks ≡ live marks (objects base bs)
unfolding do_sweep start
do_sweep-survivors marks base references notify bs f =
    scan_rule marks _ _ _ (Survivors-rule marks base (base + span bs) _) base
      (start references notify) bs ((start-Swept base references notify, f, refl), refl)
