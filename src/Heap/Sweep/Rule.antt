-- ===== src/Heap/Sweep/Rule.antt =====
-- The invariant rule of the two nested loops of doSweep (src/alloc.c).
use jamiga_jamvm.Base.{
  ℕ, suc, ◌+◌, ◌≡◌, refl, true, false, List, [], ◌∷◌, arith, Bool-cases, inl, inr, ◌≢◌, ℕ-cases,
}
use jamiga_jamvm.Heap.Block.{Block, hdr_size, hdr_alloced, header_size}
use jamiga_jamvm.Heap.Sweep.{Sweep, drop_object, close_chunk, keep_marked, scan, merge}

-- Where a run of free chunks ends: at the heap limit, or at a marked object.
abbrev pub Stops : (ℕ → ℕ) → ℕ → List Block → Type 0
Stops marks p [] = Unit
Stops marks p (b ∷ bs) = (hdr_alloced b.header ≡ true) × (marks (p + header_size) ≢ 0)

-- What an invariant `I` of the outer loop and `J` of the inner one have to satisfy for the result
-- to satisfy `F`: one premise for each way through the loops.
pub record Rule (marks : ℕ → ℕ) (I : ℕ → Sweep → List Block → Type 0)
    (J : ℕ → ℕ → ℕ → Sweep → List Block → Type 0) (F : Sweep → Type 0) : Type 0 where
  pub done : (p : ℕ) (s : Sweep) → I p s [] → F s
  pub open_free :
      (p : ℕ) (s : Sweep) (b : Block) (bs : List Block)
      → hdr_alloced b.header ≡ false
      → I p s (b ∷ bs)
      → J p b.header (p + b.header) s bs
  pub open_dead :
      (p : ℕ) (s : Sweep) (b : Block) (bs : List Block)
      → hdr_alloced b.header ≡ true
      → marks (p + header_size) ≡ 0
      → I p s (b ∷ bs)
      → J p (hdr_size b.header) (p + hdr_size b.header) (drop_object p b s) bs
  pub keep :
      (p : ℕ) (s : Sweep) (b : Block) (bs : List Block) (m : ℕ)
      → hdr_alloced b.header ≡ true
      → marks (p + header_size) ≡ suc m
      → I p s (b ∷ bs)
      → I (p + hdr_size b.header) (keep_marked marks p b s) bs
  pub join_free :
      (c header p : ℕ) (s : Sweep) (b : Block) (bs : List Block)
      → hdr_alloced b.header ≡ false
      → J c header p s (b ∷ bs)
      → J c (header + b.header) (p + b.header) s bs
  pub join_dead :
      (c header p : ℕ) (s : Sweep) (b : Block) (bs : List Block)
      → hdr_alloced b.header ≡ true
      → marks (p + header_size) ≡ 0
      → J c header p s (b ∷ bs)
      → J c (header + hdr_size b.header) (p + hdr_size b.header) (drop_object p b s) bs
  pub close :
      (c header p : ℕ) (s : Sweep) (bs : List Block)
      → Stops marks p bs
      → J c header p s bs
      → I p (close_chunk c header s) bs

scan_nil : (marks : ℕ → ℕ) (p : ℕ) (s : Sweep) → scan marks p s [] ≡ s
unfolding scan
scan_nil marks p s = refl

merge_nil :
    (marks : ℕ → ℕ) (c header p : ℕ) (s : Sweep)
    → merge marks c header p s [] ≡ close_chunk c header s
unfolding merge
merge_nil marks c header p s = refl

module _ (marks : ℕ → ℕ) (p : ℕ) (s : Sweep) (b : Block) (bs : List Block) where
  scan_free :
      hdr_alloced b.header ≡ false
      → scan marks p s (b ∷ bs) ≡ merge marks p b.header (p + b.header) s bs
  unfolding scan merge
  scan_free h = ground arith

  scan_dead :
      hdr_alloced b.header ≡ true
      → marks (p + header_size) ≡ 0
      → scan marks p s (b ∷ bs)
        ≡ merge marks p (hdr_size b.header) (p + hdr_size b.header) (drop_object p b s) bs
  unfolding scan merge
  scan_dead h m = ground arith

  scan_keep :
      (m : ℕ)
      → hdr_alloced b.header ≡ true
      → marks (p + header_size) ≡ suc m
      → scan marks p s (b ∷ bs) ≡ scan marks (p + hdr_size b.header) (keep_marked marks p b s) bs
  unfolding scan merge
  scan_keep m h e = ground arith

  module _ (c header : ℕ) where
    merge_free :
        hdr_alloced b.header ≡ false
        → merge marks c header p s (b ∷ bs) ≡ merge marks c (header + b.header) (p + b.header) s bs
    unfolding scan merge
    merge_free h = ground arith

    merge_dead :
        hdr_alloced b.header ≡ true
        → marks (p + header_size) ≡ 0
        → merge marks c header p s (b ∷ bs)
          ≡ merge marks c
              (header + hdr_size b.header)
              (p + hdr_size b.header)
              (drop_object p b s)
              bs
    unfolding scan merge
    merge_dead h m = ground arith

    merge_keep :
        (m : ℕ)
        → hdr_alloced b.header ≡ true
        → marks (p + header_size) ≡ suc m
        → merge marks c header p s (b ∷ bs)
          ≡ scan marks (p + hdr_size b.header) (keep_marked marks p b (close_chunk c header s)) bs
    unfolding scan merge
    merge_keep m h e = ground arith

module _ (marks : ℕ → ℕ) (I : ℕ → Sweep → List Block → Type 0)
    (J : ℕ → ℕ → ℕ → Sweep → List Block → Type 0) (F : Sweep → Type 0)
    (rule : Rule marks I J F) where
  mutual
    scan_ends : (p : ℕ) (s : Sweep) (bs : List Block) → I p s bs → F (scan marks p s bs)
    scan_ends p s [] i = rw (scan_nil marks p s) (rule.done p s i)
    scan_ends p s (b ∷ bs) i = elim (Bool-cases (hdr_alloced b.header)) [
      | inr h ↦
          rw (scan_free marks p s b bs h)
            (merge_ends p b.header (p + b.header) s bs (rule.open_free p s b bs h i))
      | inl h ↦ elim (ℕ-cases (marks (p + header_size))) [
        | inl m ↦ rw (scan_dead marks p s b bs h m) (
            merge_ends p (hdr_size b.header) (p + hdr_size b.header) (drop_object p b s) bs
              (rule.open_dead p s b bs h m i))
        | inr (m, e) ↦ rw (scan_keep marks p s b bs m h e) (
            scan_ends (p + hdr_size b.header) (keep_marked marks p b s) bs
              (rule.keep p s b bs m h e i))
      ]
    ]

    merge_ends :
        (c header p : ℕ) (s : Sweep) (bs : List Block)
        → J c header p s bs
        → F (merge marks c header p s bs)
    merge_ends c header p s [] j =
        rw (merge_nil marks c header p s)
          (rule.done p (close_chunk c header s) (rule.close c header p s [] tt j))
    merge_ends c header p s (b ∷ bs) j = elim (Bool-cases (hdr_alloced b.header)) [
      | inr h ↦ rw (merge_free marks p s b bs c header h) (
          merge_ends c (header + b.header) (p + b.header) s bs
            (rule.join_free c header p s b bs h j))
      | inl h ↦ elim (ℕ-cases (marks (p + header_size))) [
        | inl m ↦ rw (merge_dead marks p s b bs c header h m) (
            merge_ends c (header + hdr_size b.header) (p + hdr_size b.header) (drop_object p b s) bs
              (rule.join_dead c header p s b bs h m j))
        | inr (m, e) ↦ rw (merge_keep marks p s b bs c header m h e) (
            scan_ends (p + hdr_size b.header) (keep_marked marks p b (close_chunk c header s)) bs (
              rule.keep p (close_chunk c header s) b bs m h e
                (rule.close c header p s (b ∷ bs) (h, ground arith) j)))
      ]
    ]

  pub scan_rule : (p : ℕ) (s : Sweep) (bs : List Block) → I p s bs → F (scan marks p s bs)
  scan_rule p s bs i = scan_ends p s bs i
