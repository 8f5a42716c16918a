-- ===== src/Interp/Plain.antt =====
-- The opcodes of src/interp/engine/interp.c as they are without USE_CACHE: the operand stack is in
-- memory, and listed here from its top. A long takes two slots, the value below one whose content does
-- not matter; `junk` is what that slot happens to hold.
use jamiga_jamvm.Base.{ℕ, ◌+◌, ◌%◌, Bool, ◌&&◌, not, List, [], ◌∷◌, ◌==◌, if◌then◌else◌}
use jamiga_jamvm.Interp.Words.{
  ShiftOp, int_range, long_range, binary_value, checked_div, shift_value, negate, holds, int_of,
  slot_of, ushr,
}
use jamiga_jamvm.Interp.State.{
  load_value, store_bits, Insn, nop, push, load, store, binary, int_div, neg, shift, if_icmp,
  if_zero, iinc, pop, pop2, dup, dup_x1, dup_x2, dup2, dup2_x1, dup2_x2, swap, ireturn, lreturn,
  return_void, athrow, push_long, load_long, store_long, array_load, array_store, array_load_long,
  array_store_long, array_store_ref, array_length, long_binary, long_div, long_neg, long_shift, l2i,
  i2l, lcmp, int_cast, goto_offset, jsr, ret, tableswitch, lookupswitch, Frame, null_pointer,
  arithmetic, array_store_exception, array_index, thrown, Outcome, dispatch, throw, return_words,
  underflow, advance, set_lvar, set_element, out_of_bounds, branch, table_target, lookup_target,
  lcmp_value, if_acmp, if_null, unsigned_offset, with_value, get_element, element_width,
}

pub record Machine : Type 0 where
  pub ostack : List ℕ
  pub frame : Frame

-- `*--ostack`.
unfoldable pub take : List ℕ → (ℕ → List ℕ → Outcome Machine) → Outcome Machine
take [] k = underflow
take (w ∷ ws) k = k w ws

-- DISPATCH(0, ins_len).
abbrev pub go : List ℕ → ℕ → Frame → Outcome Machine
go ws n f = dispatch (record { ostack = ws; frame = advance n f })

-- NULL_POINTER_CHECK and ARRAY_BOUNDS_CHECK.
abbrev pub check_array {ℓ} : {S : Type ℓ} → ℕ → ℕ → Frame → Outcome S → Outcome S
check_array array idx f k =
    if array == 0
    then throw null_pointer f
    else if out_of_bounds array idx f
    then throw (array_index idx) f
    else k

abbrev pub check_null {ℓ} : {S : Type ℓ} → ℕ → Frame → Outcome S → Outcome S
check_null ref f k = if ref == 0 then throw null_pointer f else k

-- ZERO_DIVISOR_CHECK.
abbrev pub check_divisor {ℓ} : {S : Type ℓ} → ℕ → Frame → Outcome S → Outcome S
check_divisor value f k = if value == 0 then throw arithmetic f else k

-- The int value of a shift's result: `>>` of an unsigned int is not sign-extended.
abbrev pub shift_slot : ShiftOp → ℕ → ℕ → ℕ
shift_slot op a n =
    let v = shift_value int_range op (int_of a) (n % 32) in elim op [ ushr ↦ v | _ ↦ slot_of v ]

-- `arrayStoreCheck(array->class, obj->class)`, of two objects.
module _ (array_store_check : ℕ → ℕ → Bool) (junk : ℕ) where
  -- One instruction.
  unfoldable pub plain_step : Insn → List ℕ → Frame → Outcome Machine
  unfolding take
  plain_step nop ws f = go ws 1 f
  plain_step (push v n) ws f = go (v ∷ ws) n f
  plain_step (load i n) ws f = go (f.lvars i ∷ ws) n f
  plain_step (store i n) ws f = take ws λ w rest. go rest n (set_lvar i w f)
  plain_step (binary op) ws f = take ws λ b rest.
      take rest λ a rest. go (slot_of (binary_value int_range op (int_of a) (int_of b)) ∷ rest) 1 f
  plain_step (int_div op) ws f = take ws λ b rest. check_divisor (int_of b) f (
      take rest λ a rest.
        with_value (checked_div int_range op (int_of a) (int_of b)) λ v. go (slot_of v ∷ rest) 1 f)
  plain_step neg ws f = take ws λ a rest. go (slot_of (negate int_range (int_of a)) ∷ rest) 1 f
  plain_step (shift op) ws f =
      take ws λ n rest. take rest λ a rest. go (shift_slot op a n ∷ rest) 1 f
  plain_step (if_icmp c offset) ws f = take ws λ b rest.
      take rest λ a rest. go rest (branch (holds int_range c (int_of a) (int_of b)) offset) f
  plain_step (if_zero c offset) ws f =
      take ws λ a rest. go rest (branch (holds int_range c (int_of a) 0) offset) f
  plain_step (if_acmp c offset) ws f = take ws λ b rest.
      take rest λ a rest. go rest (branch (holds int_range c (int_of a) (int_of b)) offset) f
  plain_step (if_null c offset) ws f =
      take ws λ a rest. go rest (branch (holds int_range c (int_of a) 0) offset) f
  plain_step (iinc i delta) ws f = go ws 3 (set_lvar i ((f.lvars i + delta) % long_range) f)
  plain_step pop ws f = take ws λ _ rest. go rest 1 f
  plain_step pop2 ws f = take ws λ _ rest. take rest λ _ rest. go rest 1 f
  plain_step dup ws f = take ws λ a rest. go (a ∷ a ∷ rest) 1 f
  plain_step dup_x1 ws f = take ws λ a rest. take rest λ b rest. go (a ∷ b ∷ a ∷ rest) 1 f
  plain_step dup_x2 ws f =
      take ws λ a rest. take rest λ b rest. take rest λ c rest. go (a ∷ b ∷ c ∷ a ∷ rest) 1 f
  plain_step dup2 ws f = take ws λ a rest. take rest λ b rest. go (a ∷ b ∷ a ∷ b ∷ rest) 1 f
  plain_step dup2_x1 ws f =
      take ws λ a rest. take rest λ b rest. take rest λ c rest. go (a ∷ b ∷ c ∷ a ∷ b ∷ rest) 1 f
  plain_step dup2_x2 ws f = take ws λ a rest.
      take rest
        λ b rest. take rest λ c rest. take rest λ d rest. go (a ∷ b ∷ c ∷ d ∷ a ∷ b ∷ rest) 1 f
  plain_step swap ws f = take ws λ a rest. take rest λ b rest. go (b ∷ a ∷ rest) 1 f
  plain_step ireturn ws f = take ws λ a _. return_words (a ∷ [])
  plain_step lreturn ws f = take ws λ _ rest. take rest λ a _. return_words (a ∷ [])
  plain_step return_void ws f = return_words []
  plain_step athrow ws f = take ws λ ob _. check_null ob f (throw (thrown ob) f)
  plain_step (push_long v n) ws f = go (junk ∷ v ∷ ws) n f
  plain_step (load_long i n) ws f = go (junk ∷ f.lvars i ∷ ws) n f
  plain_step (store_long i n) ws f =
      take ws λ _ rest. take rest λ v rest. go rest n (set_lvar i v f)
  plain_step (array_load ty) ws f = take ws λ idx rest. take rest λ array rest.
      check_array array (int_of idx) f
        (go (load_value ty (get_element (element_width ty) array (int_of idx) f) ∷ rest) 1 f)
  plain_step array_load_long ws f = take ws λ idx rest. take rest λ array rest.
      check_array array (int_of idx) f (go (junk ∷ get_element 8 array (int_of idx) f ∷ rest) 1 f)
  plain_step (array_store ty) ws f = take ws λ v rest. take rest λ idx rest. take rest λ array rest.
      check_array array (int_of idx) f
        (go rest 1 (set_element (element_width ty) array (int_of idx) (store_bits ty v) f))
  plain_step array_store_long ws f = take ws λ _ rest. take rest λ v rest. take rest λ idx rest.
      take rest λ array rest.
        check_array array (int_of idx) f (go rest 1 (set_element 8 array (int_of idx) v f))
  plain_step array_store_ref ws f = take ws λ v rest. take rest λ idx rest. take rest λ array rest.
      check_array array (int_of idx) f (
        if not (v == 0) && not (array_store_check array v)
        then throw array_store_exception f
        else go rest 1 (set_element 8 array (int_of idx) v f))
  plain_step array_length ws f =
      take ws λ array rest. check_null array f (go (f.array_len array ∷ rest) 1 f)
  plain_step (long_binary op) ws f = take ws λ _ rest. take rest λ b rest.
      take rest λ _ rest. take rest λ a rest. go (junk ∷ binary_value long_range op a b ∷ rest) 1 f
  plain_step (long_div op) ws f = take ws λ _ rest. take rest λ b rest. check_divisor b f (
      take rest λ _ rest.
        take rest
          λ a rest. with_value (checked_div long_range op a b) λ v. go (junk ∷ v ∷ rest) 1 f)
  plain_step long_neg ws f =
      take ws λ _ rest. take rest λ a rest. go (junk ∷ negate long_range a ∷ rest) 1 f
  plain_step (long_shift op) ws f = take ws λ n rest.
      take rest
        λ _ rest. take rest λ a rest. go (junk ∷ shift_value long_range op a (n % 64) ∷ rest) 1 f
  plain_step l2i ws f = take ws λ _ rest. take rest λ a rest. go (slot_of a ∷ rest) 1 f
  plain_step i2l ws f = take ws λ a rest. go (junk ∷ slot_of a ∷ rest) 1 f
  plain_step lcmp ws f = take ws λ _ rest.
      take rest λ b rest. take rest λ _ rest. take rest λ a rest. go (lcmp_value a b ∷ rest) 1 f
  plain_step (int_cast ty) ws f = take ws λ a rest. go (load_value ty a ∷ rest) 1 f
  plain_step (goto_offset offset) ws f = go ws offset f
  plain_step (jsr offset) ws f = go (f.pc ∷ ws) offset f
  plain_step (ret i) ws f = go ws 3 (record f { pc = f.lvars i })
  plain_step (tableswitch low high deflt entries) ws f =
      take ws λ index rest.
        go rest (unsigned_offset (table_target low high deflt entries (int_of index))) f
  plain_step (lookupswitch deflt pairs) ws f =
      take ws λ key rest. go rest (unsigned_offset (lookup_target deflt pairs (int_of key))) f
