-- ===== src/Heap/Marks/Laws.antt =====
-- The mark bits of src/alloc.c behave as a map from objects to marks, inside the array.
use jamiga_jamvm.Base.{
  ℕ, zero, suc, ◌+◌, ◌-◌, ◌/◌, ◌%◌, ◌≤◌, ◌<◌, ◌≡◌, ◌≢◌, arith, ltb, ◌==◌, max, length,
  if◌then◌else◌, ◌&&◌, not, ◌∷◌, refl, Bool-cases, inl, inr, ap, ◌∙◌,
}
use jamiga_jamvm.Heap.Marks.{
  get_bits, put_bits, Marks, markbit_size, mark_entry, mark_slot, is_marked, set_mark, MarkStack,
  mark_stack_size, mark_object,
}

get_bits-put_bits_self : (k w m : ℕ) → m < 4 → get_bits k (put_bits k w m) ≡ m
unfolding get_bits put_bits
get_bits-put_bits_self zero w m l = omega arith
get_bits-put_bits_self (suc k) w m l =
    ap (get_bits k) (omega arith) ∙ get_bits-put_bits_self k (w / 4) m l

get_bits-put_bits_ne : (j k w m : ℕ) → m < 4 → j ≢ k → get_bits j (put_bits k w m) ≡ get_bits j w
unfolding get_bits put_bits
get_bits-put_bits_ne zero zero w m l n = absurd (n refl)
get_bits-put_bits_ne zero (suc k) w m l n = omega arith
get_bits-put_bits_ne (suc j) zero w m l n = ap (get_bits j) (omega arith)
get_bits-put_bits_ne (suc j) (suc k) w m l n =
    ap (get_bits j) (omega arith) ∙ get_bits-put_bits_ne j k (w / 4) m l (omega arith)

-- A place for an object of the heap.
pub record IsObject (s : Marks) (ptr : ℕ) : Type 0 where
  pub above : s.heapbase < ptr
  pub below : ptr < s.heaplimit
  pub grain : (ptr - s.heapbase) % 8 ≡ 0

-- A write of two bits, read back from any place.
get_bits-written :
    (f : ℕ → ℕ) (i k j l m : ℕ)
    → m < 4
    → get_bits l (if j == i then put_bits k (f i) m else f j)
      ≡ (if i == j && k == l then m else get_bits l (f j))
get_bits-written f i k j l m lt = elim (Bool-cases (j == i)) [
  | inr n ↦ ground arith
  | inl e ↦ elim (Bool-cases (k == l)) [
    | inl e' ↦ ground (arith, get_bits-put_bits_self k (f i) m lt)
    | inr n ↦ ground (arith, get_bits-put_bits_ne l k (f i) m lt)
  ]
]

place_injective :
    (s : Marks) (p q : ℕ)
    → IsObject s p
    → IsObject s q
    → mark_entry s p ≡ mark_entry s q
    → mark_slot s p ≡ mark_slot s q
    → p ≡ q
unfolding mark_entry mark_slot
place_injective s p q hp hq e k = omega arith

-- A mark that is set is the mark that is read, and the marks of the other objects stay.
pub is_marked-set_mark :
    (s : Marks) (p q m : ℕ)
    → IsObject s p
    → IsObject s q
    → m < 4
    → is_marked (set_mark s p m) q ≡ (if p == q then m else is_marked s q)
unfolding is_marked set_mark
is_marked-set_mark s p q m hp hq l =
    get_bits-written s.markbits (mark_entry s p) (mark_slot s p) (mark_entry s q) (mark_slot s q) m
      l
    ∙ (ground (arith, place_injective s p q hp hq))

-- In a heap of whole grains the entry of an object lies in the array that allocMarkBits allocates.
pub mark_entry-lt :
    (s : Marks) (p : ℕ)
    → IsObject s p
    → (s.heaplimit - s.heapbase) % 8 ≡ 0
    → mark_entry s p < markbit_size s
unfolding mark_entry markbit_size
mark_entry-lt s p h e = omega arith

-- markObject raises the mark of its object to the maximum of the old and the new one, and changes
-- no other. The stack never holds more than its capacity. An object below the scan pointer whose mark
-- was raised is pushed, or counted as an overflow where the stack is full.
pub mark_object_lem :
    (s : MarkStack) (p q m : ℕ)
    → IsObject s.marks p
    → IsObject s.marks q
    → m < 4
    → s.mark_stack_count ≡ length s.mark_stack
    → s.mark_stack_count ≤ mark_stack_size
    → let t = mark_object p m s in
      let pushed = ltb (is_marked s.marks p) m && ltb p s.mark_scan_ptr in
      (is_marked t.marks q ≡ (if p == q then max (is_marked s.marks p) m else is_marked s.marks q))
      × (t.mark_stack_count ≡ length t.mark_stack)
      × (t.mark_stack_count ≤ mark_stack_size)
      × (t.mark_stack ≡ (
          if pushed && not (s.mark_stack_count == mark_stack_size)
          then p ∷ s.mark_stack
          else s.mark_stack))
      × (t.mark_stack_overflow ≡ (
          if pushed && s.mark_stack_count == mark_stack_size
          then s.mark_stack_overflow + 1
          else s.mark_stack_overflow))
unfolding mark_object
mark_object_lem s p q m hp hq l e c = (
  ground (arith, is_marked-set_mark s.marks p q m hp hq l),
  ground arith,
  ground arith,
  ground arith,
  ground arith,
)

get_bits-lt : (k w : ℕ) → get_bits k w < 4
unfolding get_bits
get_bits-lt zero w = omega arith
get_bits-lt (suc k) w = get_bits-lt k (w / 4)

pub is_marked-lt : (s : Marks) (p : ℕ) → is_marked s p < 4
unfolding is_marked
is_marked-lt s p = get_bits-lt (mark_slot s p) (s.markbits (mark_entry s p))

-- markObject leaves the heap's limits and the scan pointer alone.
pub mark_object_frame :
    (s : MarkStack) (p m : ℕ)
    → ((mark_object p m s).marks.heapbase ≡ s.marks.heapbase)
      × ((mark_object p m s).marks.heaplimit ≡ s.marks.heaplimit)
      × ((mark_object p m s).mark_scan_ptr ≡ s.mark_scan_ptr)
unfolding mark_object set_mark
mark_object_frame s p m = (ground arith, ground arith, ground arith)
