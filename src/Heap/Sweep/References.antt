-- ===== src/Heap/Sweep/References.antt =====
-- What doSweep of src/alloc.c does with Reference objects: it clears those whose referent is not
-- strongly reachable, and adds those that have a queue to the list `reference`.
use jamiga_jamvm.Base.{
  ℕ, suc, ◌+◌, ◌≡◌, refl, Bool, true, ◌++◌, Option, none, some, List, [], ◌∷◌, arith, if◌then◌else◌,
  ◌∙◌, sym, Bool-cases, inl, inr, not, ◌&&◌, ◌||◌, ◌==◌, ◌==◌,
}
use jamiga_jamvm.Heap.Block.{
  Block, Kind, reference, Reference, extent, hdr_size, hdr_alloced, hdr_special_obj, header_size,
}
use jamiga_jamvm.Heap.Sweep.Rule.{Rule, scan_rule}
use jamiga_jamvm.Heap.MarkPhase.ObjectList.{ObjectList, add_to_object_list}
use jamiga_jamvm.Heap.Sweep.{
  Sweep, hard_mark, phantom_mark, start, handle_marked_reference, drop_object, close_chunk,
  keep_block, keep_special, keep_class, keep_marked, do_sweep,
}
use jamiga_jamvm.Heap.Sweep.Correct.{drop_object-SameChunks}

-- A surviving special reference is a phantom one, is cleared, or has a hard-marked referent.
abbrev pub kind_ok : (ℕ → ℕ) → Option Kind → Bool
kind_ok marks (some (reference r)) =
    r.is_phantom || (r.referent == 0 || marks r.referent == hard_mark)
kind_ok marks _ = true

abbrev pub reference_ok : (ℕ → ℕ) → Block → Bool
reference_ok marks b =
    not (hdr_alloced b.header && hdr_special_obj b.header) || kind_ok marks b.class

abbrev pub references_ok : (ℕ → ℕ) → List Block → Bool
references_ok marks [] = true
references_ok marks (b ∷ bs) = reference_ok marks b && references_ok marks bs

-- A marked special reference is due for the list `reference` if it has a queue and a referent that
-- is phantom-marked (for a phantom reference) or not hard-marked (for the others).
abbrev pub is_pending : (ℕ → ℕ) → Reference → Bool
is_pending marks r =
    not (r.queue == 0)
    && (not (r.referent == 0)
        && (if r.is_phantom
            then marks r.referent == phantom_mark
            else not (marks r.referent == hard_mark)))

abbrev pub pending_of : (ℕ → ℕ) → ℕ → ℕ → Option Kind → List ℕ
pending_of marks ob hdr (some (reference r)) =
    if hdr_special_obj hdr && is_pending marks r then ob ∷ [] else []
pending_of marks ob hdr _ = []

abbrev pub pending : (ℕ → ℕ) → ℕ → List Block → List ℕ
pending marks p [] = []
pending marks p (b ∷ bs) =
    let rest = pending marks (p + extent b) bs in
    if hdr_alloced b.header
    then if marks (p + header_size) == 0
      then rest
      else pending_of marks (p + header_size) b.header b.class ++ rest
    else rest

-- ADD_TO_OBJECT_LIST of each of these.
abbrev pub add_all : List ℕ → ObjectList → ObjectList
add_all [] l = l
add_all (ob ∷ obs) l = add_all obs (add_to_object_list ob l)

add_all-append :
    (xs ys : List ℕ) (l : ObjectList) → add_all (xs ++ ys) l ≡ add_all ys (add_all xs l)
add_all-append [] ys l = refl
add_all-append (x ∷ xs) ys l = add_all-append xs ys (add_to_object_list x l)

references_ok-snoc :
    (marks : ℕ → ℕ) (bs : List Block) (b : Block)
    → references_ok marks (bs ++ b ∷ []) ≡ (references_ok marks bs && reference_ok marks b)
references_ok-snoc marks [] b = ground arith
references_ok-snoc marks (x ∷ bs) b = rw (references_ok-snoc marks bs b) (ground arith)

handle_marked_reference-ok :
    (marks : ℕ → ℕ) (ob : ℕ) (r : Reference) (s : Sweep)
    → let (r', is_cleared, s') = handle_marked_reference marks ob r s in
      (s'.blocks ≡ s.blocks)
      × (kind_ok marks (some (reference r')) ≡ true)
      × (s'.reference ≡ add_all (if is_pending marks r then ob ∷ [] else []) s.reference)
unfolding handle_marked_reference
handle_marked_reference-ok marks ob r s = ground arith

-- What is left of a marked block's class is in order, and ADD_TO_OBJECT_LIST is called for it as it should be.
record Handled (marks : ℕ → ℕ) (p : ℕ) (b : Block) (s t : Sweep) : Type 0 where
  ok_blocks : references_ok marks t.blocks ≡ references_ok marks s.blocks
  queued : t.reference ≡ add_all (pending_of marks (p + header_size) b.header b.class) s.reference

keep_reference-Handled :
    (marks : ℕ → ℕ) (p hdr : ℕ) (r : Reference) (s : Sweep)
    → hdr_special_obj hdr ≡ true
    → let b : Block = record { header = hdr; class = some (reference r) } in
      Handled marks p b s (keep_special marks p b (reference r) s)
unfolding keep_special
keep_reference-Handled marks p hdr r s h =
    let out = handle_marked_reference marks (p + header_size) r s in
    let b' : Block = record { header = hdr; class = some (reference out.0) } in
    let ok = handle_marked_reference-ok marks (p + header_size) r s in
    record {
      ok_blocks = ground (arith, references_ok-snoc marks out.2.blocks b', ok);
      queued = ground (arith, ok);
    }

keep_other-Handled :
    (marks : ℕ → ℕ) (p : ℕ) (b : Block) (s : Sweep)
    → reference_ok marks b ≡ true
    → pending_of marks (p + header_size) b.header b.class ≡ []
    → Handled marks p b s (keep_block b s)
keep_other-Handled marks p b s h e = record {
  ok_blocks = rw (references_ok-snoc marks s.blocks b) (ground arith);
  queued = rw e refl;
}

keep_class-Handled :
    (marks : ℕ → ℕ) (p hdr : ℕ) (c : Option Kind) (s : Sweep)
    → let b : Block = record { header = hdr; class = c } in
      Handled marks p b s (keep_class marks p b s c)
unfolding keep_class
keep_class-Handled marks p hdr none s = keep_other-Handled marks p _ s (ground arith) refl
keep_class-Handled marks p hdr (some (reference r)) s =
    let b : Block = record { header = hdr; class = some (reference r) } in
    elim (Bool-cases (hdr_special_obj hdr)) [
      | inl h ↦ rw h (keep_reference-Handled marks p hdr r s h)
      | inr h ↦ rw h (keep_other-Handled marks p b s (ground arith) (ground arith))
    ]
keep_class-Handled marks p hdr (some k) s =
    let b : Block = record { header = hdr; class = some k } in
    let other = keep_other-Handled marks p b s (ground arith) refl in
    elim (Bool-cases (hdr_special_obj hdr)) [ inl h ↦ rw h other | inr h ↦ rw h other ]

keep_marked-Handled :
    (marks : ℕ → ℕ) (p : ℕ) (b : Block) (s : Sweep) → Handled marks p b s (keep_marked marks p b s)
unfolding keep_marked
keep_marked-Handled marks p b s = keep_class-Handled marks p b.header b.class s

drop_object-queue : (p : ℕ) (b : Block) (s : Sweep) → (drop_object p b s).reference ≡ s.reference
unfolding drop_object
drop_object-queue p b s = ground arith

close_chunk-queue :
    (marks : ℕ → ℕ) (c header : ℕ) (s : Sweep)
    → ((close_chunk c header s).reference ≡ s.reference)
      × (references_ok marks (close_chunk c header s).blocks ≡ references_ok marks s.blocks)
unfolding close_chunk
close_chunk-queue marks c header s = (
  refl,
  rw (references_ok-snoc marks s.blocks (record { header = header; class = none })) (ground arith),
)

-- What the loops keep: the references so far are in order, and the circular list ends as `l`.
abbrev Queued : (ℕ → ℕ) → ObjectList → ℕ → Sweep → List Block → Type 0
Queued marks l p s bs =
    (references_ok marks s.blocks ≡ true) × (add_all (pending marks p bs) s.reference ≡ l)

drop_object-Queued :
    (marks : ℕ → ℕ) (l : ObjectList) (p : ℕ) (s : Sweep) (b : Block) (bs : List Block)
    → hdr_alloced b.header ≡ true
    → marks (p + header_size) ≡ 0
    → Queued marks l p s (b ∷ bs)
    → Queued marks l (p + hdr_size b.header) (drop_object p b s) bs
drop_object-Queued marks l p s b bs h m w =
    let same = drop_object-SameChunks p b s in
    (rw same.blocks w.0, rw (drop_object-queue p b s) (ground arith))

keep_marked-Queued :
    (marks : ℕ → ℕ) (l : ObjectList) (p : ℕ) (s : Sweep) (b : Block) (bs : List Block) (m : ℕ)
    → hdr_alloced b.header ≡ true
    → marks (p + header_size) ≡ suc m
    → Queued marks l p s (b ∷ bs)
    → Queued marks l (p + hdr_size b.header) (keep_marked marks p b s) bs
keep_marked-Queued marks l p s b bs m h e w =
    let k = keep_marked-Handled marks p b s in
    let due = pending_of marks (p + header_size) b.header b.class in
    let split = add_all-append due (pending marks (p + hdr_size b.header) bs) s.reference in
    (rw k.ok_blocks w.0, rw k.queued (sym split ∙ (ground (arith, w))))

Queued-rule :
    (marks : ℕ → ℕ) (l : ObjectList)
    → Rule marks
        (Queued marks l)
        (λ c header p s bs. Queued marks l p s bs)
        (λ s. (references_ok marks s.blocks ≡ true) × (s.reference ≡ l))
Queued-rule marks l = record {
  done = λ p s w. (w.0, w.1);
  open_free = λ p s b bs h w. ground arith;
  open_dead = λ p s b bs h m w. drop_object-Queued marks l p s b bs h m w;
  keep = λ p s b bs m h e w. keep_marked-Queued marks l p s b bs m h e w;
  join_free = λ c hd p s b bs h w. ground arith;
  join_dead = λ c hd p s b bs h m w. drop_object-Queued marks l p s b bs h m w;
  close = λ c hd p s bs stop w. let k = close_chunk-queue marks c hd s in (rw k.1 w.0, rw k.0 w.1);
}

-- After the sweep every surviving special reference that is not a phantom one is cleared or has a
-- hard-marked referent, and ADD_TO_OBJECT_LIST was called for exactly the marked references that are
-- due, in address order. Whether that circular list holds on to them all is not stated.
pub do_sweep-references :
    (marks : ℕ → ℕ) (base : ℕ) (references : ObjectList) (notify : Bool) (bs : List Block)
    → let s = do_sweep marks base references notify bs in
      (references_ok marks s.blocks ≡ true)
      × (s.reference ≡ add_all (pending marks base bs) references)
unfolding do_sweep start
do_sweep-references marks base references notify bs =
    scan_rule marks _ _ _ (Queued-rule marks (add_all (pending marks base bs) references)) base
      (start references notify) bs (refl, refl)
