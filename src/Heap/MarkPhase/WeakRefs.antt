-- ===== src/Heap/MarkPhase/WeakRefs.antt =====
-- The end of doMark in src/alloc.c: scanJNIWeakGlobalRefs and markJNIClearedWeakRefs of src/jni.c, with
-- isMarkedJNIWeakGlobalRef, convertToPlaceholder and markJNIClearedWeakRef; and doMark as a whole, but for
-- freeInternedStrings, which takes unmarked strings out of a table and sets no mark. A table of references
-- is the list of its entries, with 0 for NULL; a new entry goes to the end, and the compaction of a full table
-- is left out.
use jamiga_jamvm.Base.{
  ℕ, ◌+◌, ◌-◌, ◌%◌, Bool, true, false, ◌==◌, ◌&&◌, ltb, if◌then◌else◌, Option, none, some, ◌>>=◌,
  List, [], ◌∷◌, ◌++◌,
}
use jamiga_jamvm.Heap.Block.{
  Block, extent, hdr_alloced, hdr_size, hdr_special_obj, header_size, min_object_size,
  alloced_header,
}
use jamiga_jamvm.Heap.Sweep.{Release, handle_unmarked_special}
use jamiga_jamvm.Heap.Marks.{Marks, is_marked, set_mark}
use jamiga_jamvm.Heap.MarkPhase.Objects.{Memory}
use jamiga_jamvm.Heap.MarkPhase.Roots.{RootSet}
use jamiga_jamvm.Heap.MarkPhase.DoMark.{finalizer_mark, Collection, mark_live}

-- The block of a placeholder, and the free chunk that is left of the object's block.
abbrev pub placeholder : Block → List Block
placeholder b =
    let small : Block = record { header = alloced_header min_object_size; class = none } in
    let left : Block = record { header = hdr_size b.header - min_object_size; class = none } in
    if ltb min_object_size (hdr_size b.header) then small ∷ left ∷ [] else small ∷ []

-- `if(HDR_SPECIAL_OBJ(*hdr_address) && object->class != NULL) handleUnmarkedSpecial(object)`.
abbrev pub release_special : ℕ → Block → List Release
release_special object b = elim b.class [
  | none ↦ []
  | some k ↦ if hdr_special_obj b.header then handle_unmarked_special object k else []
]

-- convertToPlaceholder, on the blocks from `ptr` on.
unfoldable pub convert_to_placeholder : ℕ → ℕ → List Block → List Block × List Release
convert_to_placeholder object ptr [] = ([], [])
convert_to_placeholder object ptr (b ∷ bs) =
    let rest = convert_to_placeholder object (ptr + extent b) bs in
    if hdr_alloced b.header && ptr + header_size == object
    then (placeholder b ++ bs, release_special object b)
    else (b ∷ rest.0, rest.1)

-- What the scan of the weak references changes: the blocks of the heap, what was released of special
-- objects, the table of cleared references, and the conservative roots.
pub record Held : Type 0 where
  pub blocks : List Block
  pub released : List Release
  pub cleared_refs : List ℕ
  pub conservative_roots : List ℕ

-- A weak reference to an unmarked object.
abbrev pub clear_weak_ref : ℕ → ℕ → Held → Held
clear_weak_ref heapbase ref h =
    let (blocks, releases) = convert_to_placeholder ref heapbase h.blocks in
    record h {
      blocks = blocks;
      released = h.released ++ releases;
      cleared_refs = h.cleared_refs ++ ref ∷ [];
    }

-- scanJNIWeakGlobalRefs: the table of weak references after it.
unfoldable pub scan_weak_refs : Marks → ℕ → List ℕ → Held → List ℕ × Held
scan_weak_refs marks heapbase [] h = ([], h)
scan_weak_refs marks heapbase (ref ∷ refs) h = elim (ref == 0) [
  | true ↦ let (table, h') = scan_weak_refs marks heapbase refs h in (0 ∷ table, h')
  | false ↦ elim (is_marked marks ref == 0) [
    | true ↦
        let (table, h') = scan_weak_refs marks heapbase refs (clear_weak_ref heapbase ref h) in
        (0 ∷ table, h')
    | false ↦
        let (table, h') =
          scan_weak_refs marks heapbase refs
            (record h { conservative_roots = h.conservative_roots ++ ref ∷ [] }) in
        (ref ∷ table, h')
  ]
]

-- `MARK(object, FINALIZER_MARK)`: the upper bit of the mark is set, the lower one stays.
unfoldable pub mark_finalizer : ℕ → Marks → Marks
mark_finalizer object s = set_mark s object (is_marked s object % 2 + finalizer_mark)

-- markJNIClearedWeakRefs: the marks, and the conservative roots.
unfoldable pub mark_cleared_refs : List ℕ → Marks → List ℕ → Marks × List ℕ
unfolding mark_finalizer
mark_cleared_refs [] s conservative_roots = (s, conservative_roots)
mark_cleared_refs (ref ∷ refs) s conservative_roots = elim (ref == 0) [
  | true ↦ mark_cleared_refs refs s conservative_roots
  | false ↦ mark_cleared_refs refs (mark_finalizer ref s) (conservative_roots ++ ref ∷ [])
]

-- What doMark leaves.
pub record Marked : Type 0 where
  pub collection : Collection
  pub weak_refs : List ℕ
  pub held : Held

-- `scanJNIWeakGlobalRefs(); markJNIClearedWeakRefs();`.
unfoldable pub mark_weak_refs : ℕ → List Block → List ℕ → List ℕ → Collection → Marked
unfolding scan_weak_refs mark_cleared_refs
mark_weak_refs heapbase blocks weak_refs cleared_refs c =
    let scanned = scan_weak_refs c.stack.marks heapbase weak_refs (record {
      blocks = blocks;
      released = [];
      cleared_refs = cleared_refs;
      conservative_roots = c.conservative_roots;
    }) in
    let held = scanned.1 in
    let marked = mark_cleared_refs held.cleared_refs c.stack.marks held.conservative_roots in
    record {
      collection = record c {
        stack = record c.stack { marks = marked.0 };
        conservative_roots = marked.1;
      };
      weak_refs = scanned.0;
      held = held;
    }

-- doMark, with the tables of the weak references and of the cleared ones.
unfoldable pub do_mark :
    Memory → Bool → ℕ → ℕ → ℕ → List Block → RootSet → List ℕ → List ℕ → Collection → Option Marked
unfolding mark_weak_refs
do_mark mem mark_soft_refs fuel rounds heapbase blocks rs weak_refs cleared_refs c = do
  t ← mark_live mem mark_soft_refs fuel rounds heapbase blocks rs c
  some (mark_weak_refs heapbase blocks weak_refs cleared_refs t)
