-- ===== src/Heap/Block.antt =====
-- Blocks of the heap: the header word of src/alloc.c, and what the collector reads of an object.
-- Sizes are those of a 64-bit machine: a header is 8 bytes, an Object (lock word and class) is 16.
use native.Mathlib.Nat.{add_assoc}
use jamiga_jamvm.Base.{
  ◌<◌, ℕ, ◌+◌, ◌-◌, ◌*◌, ◌/◌, ◌%◌, ◌^◌, max, ◌≡◌, ap, Bool, ◌++◌, Option, List, [], ◌∷◌, arith, leb,
  bit, if◌then◌else◌,
}

abbrev pub object_grain : ℕ
object_grain = 8

abbrev pub header_size : ℕ
header_size = 8

-- sizeof(Object) + HEADER_SIZE, rounded up to the grain.
abbrev pub min_object_size : ℕ
min_object_size = (16 + header_size + object_grain - 1) / object_grain * object_grain

-- HDR_SIZE: ~(ALLOC|FLC|SPECIAL|1<<31|1<<30) is the int 0x3ffffff8, so the size is bits 3 to 29.
abbrev pub hdr_size : ℕ → ℕ
hdr_size hdr = hdr / 2 ^ 3 % 2 ^ 27 * 2 ^ 3

abbrev pub hdr_alloced : ℕ → Bool
hdr_alloced hdr = bit hdr 0

abbrev pub hdr_special_obj : ℕ → Bool
hdr_special_obj hdr = bit hdr 2

-- n | ALLOC_BIT. The lowest bit of n is clear where the code does this.
abbrev pub alloced_header : ℕ → ℕ
alloced_header n = n + 1

-- A java.lang.ref.Reference: its class's phantom flag, and its referent and queue (0 for NULL).
pub record Reference : Type 0 where
  pub is_phantom : Bool
  pub referent : ℕ
  pub queue : ℕ

-- What the sweep asks about the class of a special object.
pub data Kind : Type 0 where
  plain class_object class_loader classlib_special : Kind
  reference : Reference → Kind

-- A block: its header word, and the class of the object in it (none where ob->class is NULL).
pub record Block : Type 0 where
  pub header : ℕ
  pub class : Option Kind

-- The distance to the next header: an unallocated chunk's header is its size, with no flag.
abbrev pub extent : Block → ℕ
extent b = if hdr_alloced b.header then hdr_size b.header else b.header

abbrev pub span : List Block → ℕ
span [] = 0
span (b ∷ bs) = extent b + span bs

-- The chunks that can hold an object, by address: what the free list should be.
abbrev pub listing : ℕ → List Block → List ℕ
listing p [] = []
listing p (b ∷ bs) =
    let rest = listing (p + extent b) bs in
    if hdr_alloced b.header then rest else if leb min_object_size b.header then p ∷ rest else rest

abbrev pub free_bytes : List Block → ℕ
free_bytes [] = 0
free_bytes (b ∷ bs) = (if hdr_alloced b.header then 0 else b.header) + free_bytes bs

abbrev pub largest_chunk : List Block → ℕ
largest_chunk [] = 0
largest_chunk (b ∷ bs) = max (if hdr_alloced b.header then 0 else b.header) (largest_chunk bs)

-- The objects of the heap, by address, with their headers.
abbrev pub objects : ℕ → List Block → List (ℕ × ℕ)
objects p [] = []
objects p (b ∷ bs) =
    let rest = objects (p + extent b) bs in
    if hdr_alloced b.header then (p + header_size, b.header) ∷ rest else rest

pub span-append : (xs ys : List Block) → span (xs ++ ys) ≡ span xs + span ys
span-append [] ys = omega arith
span-append (x ∷ xs) ys = omega (arith, span-append xs ys)

pub free_bytes-append : (xs ys : List Block) → free_bytes (xs ++ ys) ≡ free_bytes xs + free_bytes ys
free_bytes-append [] ys = omega arith
free_bytes-append (x ∷ xs) ys = omega (arith, free_bytes-append xs ys)

pub largest_chunk-append :
    (xs ys : List Block) → largest_chunk (xs ++ ys) ≡ max (largest_chunk xs) (largest_chunk ys)
largest_chunk-append [] ys = omega arith
largest_chunk-append (x ∷ xs) ys = omega (arith, largest_chunk-append xs ys)

pub listing-append :
    (p : ℕ) (xs ys : List Block) → listing p (xs ++ ys) ≡ listing p xs ++ listing (p + span xs) ys
listing-append p [] ys = ap (λ q. listing q ys) (omega arith)
listing-append p (x ∷ xs) ys =
    ground (arith, listing-append (p + extent x) xs ys, add_assoc p (extent x) (span xs))

pub objects-append :
    (p : ℕ) (xs ys : List Block) → objects p (xs ++ ys) ≡ objects p xs ++ objects (p + span xs) ys
objects-append p [] ys = ap (λ q. objects q ys) (omega arith)
objects-append p (x ∷ xs) ys =
    ground (arith, objects-append (p + extent x) xs ys, add_assoc p (extent x) (span xs))

-- A block spans at least one grain, and a whole number of them.
pub record IsFormed (b : Block) : Type 0 where
  pub whole : extent b % object_grain ≡ 0
  pub positive : 0 < extent b
