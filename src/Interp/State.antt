-- ===== src/Interp/State.antt =====
-- Instructions, and the state of src/interp/engine/interp.c apart from the operand stack.
use jamiga_jamvm.Base.{
  ℕ, zero, suc, ◌+◌, ◌-◌, ◌%◌, ◌^◌, Bool, ◌&&◌, ◌||◌, List, [], ◌∷◌, leb, ◌==◌, if◌then◌else◌, ◌*◌,
  ◌/◌, ltb, Option, none, some,
}
use jamiga_jamvm.Interp.Words.{
  BinaryOp, DivOp, ShiftOp, Cond, int_range, long_range, widen, slot_of, int_of, less,
}

-- The element type of an array of one slot, and the type of a cast.
pub data ElemType : Type 0 where
  int_elem ref_elem byte_elem char_elem short_elem : ElemType

-- A value of such a type, from the bits that are stored: ARRAY_DATA(array, TYPE)[idx] as a slot.
abbrev pub load_value : ElemType → ℕ → ℕ
load_value int_elem v = slot_of v
load_value ref_elem v = v % long_range
load_value byte_elem v = widen (2 ^ 8) (v % 2 ^ 8)
load_value char_elem v = v % 2 ^ 16
load_value short_elem v = widen (2 ^ 16) (v % 2 ^ 16)

-- sizeof(TYPE).
abbrev pub element_width : ElemType → ℕ
element_width int_elem = 4
element_width ref_elem = 8
element_width byte_elem = 1
element_width char_elem = 2
element_width short_elem = 2

-- The bits that `ARRAY_DATA(array, TYPE)[idx] = val` stores.
abbrev pub store_bits : ElemType → ℕ → ℕ
store_bits int_elem v = int_of v
store_bits ref_elem v = v
store_bits byte_elem v = v % 2 ^ 8
store_bits char_elem v = v % 2 ^ 16
store_bits short_elem v = v % 2 ^ 16

-- Decoded instructions: the opcodes with their operands, and the length where it varies. An offset is a
-- word of 64 bits, as it is added to the pc; those of the switches are the ints of the code.
pub data Insn : Type 0 where
  nop : Insn
  push : ℕ → ℕ → Insn
  load store : ℕ → ℕ → Insn
  binary : BinaryOp → Insn
  int_div : DivOp → Insn
  neg : Insn
  shift : ShiftOp → Insn
  if_icmp if_zero if_acmp if_null : Cond → ℕ → Insn
  iinc : ℕ → ℕ → Insn
  pop pop2 dup dup_x1 dup_x2 dup2 dup2_x1 dup2_x2 swap : Insn
  ireturn lreturn return_void athrow : Insn
  push_long : ℕ → ℕ → Insn
  load_long store_long : ℕ → ℕ → Insn
  array_load array_store : ElemType → Insn
  array_load_long array_store_long array_store_ref array_length : Insn
  long_binary : BinaryOp → Insn
  long_div : DivOp → Insn
  long_neg : Insn
  long_shift : ShiftOp → Insn
  l2i i2l lcmp : Insn
  int_cast : ElemType → Insn
  goto_offset jsr : ℕ → Insn
  ret : ℕ → Insn
  tableswitch : ℕ → ℕ → ℕ → List ℕ → Insn
  lookupswitch : ℕ → List (ℕ × ℕ) → Insn

-- The pc, the local variables, and the arrays by address: their lengths and the bytes of their elements.
pub record Frame : Type 0 where
  pub pc : ℕ
  pub lvars : ℕ → ℕ
  pub array_len : ℕ → ℕ
  pub array_data : ℕ → ℕ → ℕ

-- What THROW_EXCEPTION raises, or athrow.
pub data Exception : Type 0 where
  null_pointer arithmetic array_store_exception : Exception
  array_index : ℕ → Exception
  thrown : ℕ → Exception

-- How an instruction ends, over states `S`: DISPATCH, an exception at the pc, a return with the words
-- that are copied to the caller, a read below the operand stack, which verified code does not do, or
-- a division that C does not define.
pub data Outcome {ℓ} (S : Type ℓ) : Type ℓ where
  dispatch : S → Outcome S
  throw : Exception → Frame → Outcome S
  return_words : List ℕ → Outcome S
  underflow : Outcome S
  undefined : Outcome S

abbrev pub map_outcome {ℓ κ} : {A : Type ℓ} {B : Type κ} → (A → B) → Outcome A → Outcome B
map_outcome f (dispatch s) = dispatch (f s)
map_outcome f (throw e r) = throw e r
map_outcome f (return_words ws) = return_words ws
map_outcome f underflow = underflow
map_outcome f undefined = undefined

-- The value of an expression that C may leave undefined.
unfoldable pub with_value {ℓ} : {S : Type ℓ} → Option ℕ → (ℕ → Outcome S) → Outcome S
with_value none k = undefined
with_value (some v) k = k v

-- `pc += ins_len`, or an offset.
abbrev pub advance : ℕ → Frame → Frame
advance n f = record f { pc = (f.pc + n) % long_range }

abbrev pub set_lvar : ℕ → ℕ → Frame → Frame
set_lvar i v f = record f { lvars = λ j. if j == i then v else f.lvars j }

-- `ARRAY_DATA(array, TYPE)[idx]` of a type of `w` bytes, on a little-endian machine.
abbrev pub read_bytes : ℕ → (ℕ → ℕ) → ℕ → ℕ
read_bytes zero bytes i = 0
read_bytes (suc w) bytes i = bytes i % 256 + 256 * read_bytes w bytes (i + 1)

abbrev pub get_element : ℕ → ℕ → ℕ → Frame → ℕ
get_element w array idx f = read_bytes w (f.array_data array) (idx * w)

-- The assignment to it writes these bytes, whatever the array's own element type is.
abbrev pub is_written : ℕ → ℕ → ℕ → Bool
is_written w idx j = leb (idx * w) j && ltb j (idx * w + w)

abbrev pub set_element : ℕ → ℕ → ℕ → ℕ → Frame → Frame
set_element w array idx v f = record f {
  array_data = λ a j.
      if a == array && is_written w idx j then v / 256 ^ (j - idx * w) % 256 else f.array_data a j;
}

-- `idx >= ARRAY_LEN(array)`: the int is widened to a uintptr_t, so that a negative one is not in bounds.
abbrev pub out_of_bounds : ℕ → ℕ → Frame → Bool
out_of_bounds array idx f = leb (f.array_len array) (slot_of idx)

-- BRANCH: the offset is taken, or the 3 bytes of the instruction.
abbrev pub branch : Bool → ℕ → ℕ
branch taken offset = if taken then offset else 3

-- `test ? deflt : ntohl(...)`: one operand is an int and the other a uint32_t, so that C converts the value
-- to an unsigned int, which DISPATCH adds to the pc.
abbrev pub unsigned_offset : ℕ → ℕ
unsigned_offset offset = offset % int_range

-- The int that a tableswitch selects; `entries` are those from `low` on.
abbrev pub nth_or : List ℕ → ℕ → ℕ → ℕ
nth_or [] i d = d
nth_or (x ∷ xs) zero d = x
nth_or (x ∷ xs) (suc i) d = nth_or xs i d

abbrev pub table_target : ℕ → ℕ → ℕ → List ℕ → ℕ → ℕ
table_target low high deflt entries index =
    if less int_range index low || less int_range high index
    then deflt
    else nth_or entries ((index + (int_range - low)) % int_range) deflt

-- The loop of lookupswitch.
abbrev pub lookup_target : ℕ → List (ℕ × ℕ) → ℕ → ℕ
lookup_target deflt [] key = deflt
lookup_target deflt ((k, handler) ∷ pairs) key =
    let rest = lookup_target deflt pairs key in if k == key then handler else rest

-- The result of lcmp, as a slot.
abbrev pub lcmp_value : ℕ → ℕ → ℕ
lcmp_value a b = if a == b then 0 else if less long_range a b then long_range - 1 else 1
