-- ===== src/Heap/Marks.antt =====
-- The mark bits of src/alloc.c: two bits for every grain of the heap, in an array of 32-bit words.
pub mod Laws
use jamiga_jamvm.Base.{
  ℕ, zero, suc, ◌+◌, ◌-◌, ◌*◌, ◌/◌, ◌%◌, ◌^◌, ◌≤◌, ◌<◌, ◌≡◌, ◌≢◌, Bool, true, false, arith, ltb,
  ◌==◌, if◌then◌else◌, ◌&&◌, not, List, [], ◌∷◌, ◌++◌, refl, Bool-cases, inl, inr,
}

-- The two bits of a word at offset 2k: `(w >> 2k) & 3`.
unfoldable pub get_bits : ℕ → ℕ → ℕ
get_bits zero w = w % 4
get_bits (suc k) w = get_bits k (w / 4)

-- `(w & ~(3 << 2k)) | (m << 2k)` for m < 4.
unfoldable pub put_bits : ℕ → ℕ → ℕ → ℕ
put_bits zero w m = w / 4 * 4 + m
put_bits (suc k) w m = put_bits k (w / 4) m * 4 + w % 4

-- The heap's limits and the array. An entry outside the array is never used.
pub record Marks : Type 0 where
  pub heapbase : ℕ
  pub heaplimit : ℕ
  pub markbits : ℕ → ℕ

-- The number of words that allocMarkBits allocates.
pub markbit_size : Marks → ℕ
markbit_size s = ((s.heaplimit - s.heapbase) / 2 ^ 2 + 31) / 2 ^ 5

-- MARKENTRY, and half of MARKOFFSET, which is even.
unfoldable pub mark_entry : Marks → ℕ → ℕ
mark_entry s ptr = (ptr - s.heapbase) / 2 ^ 7

unfoldable pub mark_slot : Marks → ℕ → ℕ
mark_slot s ptr = (ptr - s.heapbase) / 2 ^ 3 % 16

-- IS_MARKED.
unfoldable pub is_marked : Marks → ℕ → ℕ
unfolding get_bits mark_entry mark_slot
is_marked s ptr = get_bits (mark_slot s ptr) (s.markbits (mark_entry s ptr))

-- SET_MARK.
unfoldable pub set_mark : Marks → ℕ → ℕ → Marks
unfolding put_bits mark_entry mark_slot
set_mark s ptr mark =
    let e = mark_entry s ptr in
    record s {
      markbits =
          λ i. if i == e then put_bits (mark_slot s ptr) (s.markbits e) mark else s.markbits i;
    }

-- clearMarkBits.
unfoldable pub clear_mark_bits : Marks → Marks
clear_mark_bits s = record s { markbits = λ i. 0 }

-- IS_OBJECT: an aligned address inside the heap.
unfoldable pub is_object : Marks → ℕ → Bool
is_object s ptr = ltb s.heapbase ptr && ltb ptr s.heaplimit && ptr % 8 == 0

-- The mark stack: at most `capacity` objects wait to have their children marked, and only those
-- behind the scan pointer are pushed.
pub record MarkStack : Type 0 where
  pub marks : Marks
  pub mark_scan_ptr : ℕ
  pub mark_stack : List ℕ
  pub mark_stack_count : ℕ
  pub mark_stack_overflow : ℕ

abbrev pub mark_stack_size : ℕ
mark_stack_size = 16384

-- MARK_AND_PUSH.
unfoldable pub mark_and_push : ℕ → ℕ → MarkStack → MarkStack
mark_and_push object mark s =
    let s' = record s { marks = set_mark s.marks object mark } in
    if ltb object s.mark_scan_ptr
    then if s.mark_stack_count == mark_stack_size
      then record s' { mark_stack_overflow = s.mark_stack_overflow + 1 }
      else record s' {
        mark_stack = object ∷ s.mark_stack;
        mark_stack_count = s.mark_stack_count + 1;
      }
    else s'

-- markObject; the address 0 is NULL.
unfoldable pub mark_object : ℕ → ℕ → MarkStack → MarkStack
unfolding mark_and_push
mark_object object mark s =
    if object == 0
    then s
    else if ltb (is_marked s.marks object) mark
    then mark_and_push object mark s
    else s
