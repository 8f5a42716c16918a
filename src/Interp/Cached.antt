-- ===== src/Interp/Cached.antt =====
-- The opcodes of src/interp/engine/interp.c with USE_CACHE: up to two slots from the top of the operand
-- stack are held in `cache.i.v1` and `cache.i.v2`, and each opcode has a handler for each number of slots.
-- `cache.l` is `cache.i.v1` on a 64-bit machine.
use jamiga_jamvm.Base.{ℕ, ◌+◌, ◌%◌, Bool, ◌&&◌, not, List, [], ◌∷◌, ◌==◌, if◌then◌else◌}
use jamiga_jamvm.Interp.Words.{
  Cond, int_range, long_range, binary_value, checked_div, shift_value, negate, holds, int_of,
  slot_of,
}
use jamiga_jamvm.Interp.State.{
  load_value, store_bits, Insn, nop, push, load, store, binary, int_div, neg, shift, if_icmp,
  if_zero, iinc, pop, pop2, dup, dup_x1, dup_x2, dup2, dup2_x1, dup2_x2, swap, ireturn, lreturn,
  return_void, athrow, push_long, load_long, store_long, array_load, array_store, array_load_long,
  array_store_long, array_store_ref, array_length, long_binary, long_div, long_neg, long_shift, l2i,
  i2l, lcmp, int_cast, goto_offset, jsr, ret, tableswitch, lookupswitch, Frame,
  array_store_exception, thrown, Outcome, dispatch, throw, return_words, underflow, advance,
  set_lvar, set_element, branch, table_target, lookup_target, lcmp_value, if_acmp, if_null,
  unsigned_offset, with_value, get_element, element_width,
}
use jamiga_jamvm.Interp.Plain.{check_array, check_null, check_divisor, shift_slot}

-- The number of slots in the cache.
pub data Level : Type 0 where
  level_0 level_1 level_2 : Level

pub record Regs : Type 0 where
  pub ostack : List ℕ
  pub v1 : ℕ
  pub v2 : ℕ
  pub frame : Frame

abbrev pub Step : Type 0
Step = Outcome (Level × Regs)

-- `*--ostack`.
unfoldable pub take : Regs → (ℕ → Regs → Step) → Step
take r k = elim r.ostack [ [] ↦ underflow | w ∷ ws ↦ k w (record r { ostack = ws }) ]

-- DISPATCH(level, ins_len).
abbrev pub go : Level → ℕ → Regs → Step
go l n r = dispatch (l, record r { frame = advance n r.frame })

-- `*ostack++ = w`.
abbrev pub spill_word : ℕ → Regs → Regs
spill_word w r = record r { ostack = w ∷ r.ostack }

-- PUSH_0, PUSH_1 and PUSH_2.
abbrev pub push_slot : Level → ℕ → ℕ → Regs → Step
push_slot level_0 v n r = go level_1 n (record r { v1 = v })
push_slot level_1 v n r = go level_2 n (record r { v2 = v })
push_slot level_2 v n r = go level_2 n (record r { ostack = r.v1 ∷ r.ostack; v1 = r.v2; v2 = v })

-- PUSH_LONG.
abbrev pub push_long_slot : ℕ → ℕ → Regs → Step
push_long_slot v n r = go level_2 n (record r { v1 = v })

-- The entries of DEF_OPC_012 lead to level 2, those of DEF_OPC_210 to level 0.
unfoldable pub fill : Level → Regs → (Regs → Step) → Step
unfolding take
fill level_2 r k = k r
fill level_1 r k = take r λ w r. k (record r { v2 = r.v1; v1 = w })
fill level_0 r k = take r λ w r. take r λ w' r. k (record r { v2 = w; v1 = w' })

abbrev pub spill : Level → Regs → Regs
spill level_2 r = record r { ostack = r.v2 ∷ r.v1 ∷ r.ostack; v1 = r.v2 }
spill level_1 r = record r { ostack = r.v1 ∷ r.ostack }
spill level_0 r = r

-- POP_0, POP_1 and POP_2, POP1 and the operand of IF.
unfoldable pub pop_slot : Level → Regs → (ℕ → Level → Regs → Step) → Step
unfolding take
pop_slot level_0 r k = take r λ w r. k w level_0 r
pop_slot level_1 r k = k r.v1 level_0 r
pop_slot level_2 r k = k r.v2 level_1 r

-- The operands of BINARY_OP, INTDIV_OP, SHIFT_OP and IF_ICMP.
unfoldable pub two_slots : Level → Regs → (ℕ → ℕ → Regs → Step) → Step
unfolding take
two_slots level_0 r k = take r λ b r. take r λ a r. k a b r
two_slots level_1 r k = take r λ a r. k a r.v1 r
two_slots level_2 r k = k r.v1 r.v2 r

-- The divisor that ZERO_DIVISOR_CHECK reads.
unfoldable pub top_slot : Level → Regs → (ℕ → Step) → Step
unfolding take
top_slot level_0 r k = take r λ b _. k b
top_slot level_1 r k = k r.v1
top_slot level_2 r k = k r.v2

-- The operand of UNARY_MINUS, and the level for its result.
unfoldable pub unary_slot : Level → Regs → (ℕ → Level → Regs → Step) → Step
unfolding take
unary_slot level_0 r k = take r λ w r. k w level_0 r
unary_slot level_1 r k = k r.v1 level_0 r
unary_slot level_2 r k = k r.v2 level_1 r

-- POP2: `ostack -= 2 - level`.
unfoldable pub pop_two : Level → Regs → Step
unfolding take
pop_two level_0 r = take r λ _ r. take r λ _ r. go level_0 1 r
pop_two level_1 r = take r λ _ r. go level_0 1 r
pop_two level_2 r = go level_0 1 r

-- IF_2 spills the slot below its operand.
unfoldable pub if_slot : Cond → ℕ → Level → Regs → Step
unfolding take
if_slot c offset level_0 r =
    take r λ a r. go level_0 (branch (holds int_range c (int_of a) 0) offset) r
if_slot c offset level_1 r = go level_0 (branch (holds int_range c (int_of r.v1) 0) offset) r
if_slot c offset level_2 r =
    go level_0 (branch (holds int_range c (int_of r.v2) 0) offset) (spill_word r.v1 r)

-- DUP_0, DUP_1 and DUP_2.
unfoldable pub dup_slot : Level → Regs → Step
unfolding take
dup_slot level_0 r = take r λ w _. push_slot level_0 w 1 r
dup_slot level_1 r = push_slot level_1 r.v1 1 r
dup_slot level_2 r = push_slot level_2 r.v2 1 r

module _ (array_store_check : ℕ → ℕ → Bool) where
  -- The handler of an instruction at a level.
  unfoldable pub cached_step : Insn → Level → Regs → Step
  unfolding take fill pop_slot two_slots top_slot unary_slot pop_two if_slot dup_slot
  cached_step nop l r = go level_0 1 (spill l r)
  cached_step (push v n) l r = push_slot l v n r
  cached_step (load i n) l r = push_slot l (r.frame.lvars i) n r
  cached_step (store i n) l r =
      pop_slot l r λ w l r. go l n (record r { frame = set_lvar i w r.frame })
  cached_step (binary op) l r =
      two_slots l r
        λ a b r. push_slot level_0 (slot_of (binary_value int_range op (int_of a) (int_of b))) 1 r
  cached_step (int_div op) l r = top_slot l r λ d. check_divisor (int_of d) r.frame (
      two_slots l r λ a b r.
        with_value (checked_div int_range op (int_of a) (int_of b))
          λ v. push_slot level_0 (slot_of v) 1 r)
  cached_step neg l r =
      unary_slot l r λ a l r. push_slot l (slot_of (negate int_range (int_of a))) 1 r
  cached_step (shift op) l r = two_slots l r λ a n r. push_slot level_0 (shift_slot op a n) 1 r
  cached_step (if_icmp c offset) l r =
      two_slots l r λ a b r. go level_0 (branch (holds int_range c (int_of a) (int_of b)) offset) r
  cached_step (if_zero c offset) l r = if_slot c offset l r
  cached_step (if_acmp c offset) l r =
      two_slots l r λ a b r. go level_0 (branch (holds int_range c (int_of a) (int_of b)) offset) r
  cached_step (if_null c offset) l r = if_slot c offset l r
  cached_step (iinc i delta) l r =
      go l 3 (record r { frame = set_lvar i ((r.frame.lvars i + delta) % long_range) r.frame })
  cached_step pop l r = pop_slot l r λ _ l r. go l 1 r
  cached_step pop2 l r = pop_two l r
  cached_step dup l r = dup_slot l r
  cached_step dup_x1 l r = fill l r λ r. go level_2 1 (spill_word r.v2 r)
  cached_step dup_x2 l r =
      fill l r λ r. take r λ w r. go level_2 1 (record r { ostack = w ∷ r.v2 ∷ r.ostack })
  cached_step dup2 l r = fill l r λ r. go level_2 1 (spill_word r.v2 (spill_word r.v1 r))
  cached_step dup2_x1 l r =
      fill l r λ r. take r λ w r. go level_2 1 (record r { ostack = w ∷ r.v2 ∷ r.v1 ∷ r.ostack })
  cached_step dup2_x2 l r = fill l r λ r.
      take r
        λ w r. take r λ w' r. go level_2 1 (record r { ostack = w ∷ w' ∷ r.v2 ∷ r.v1 ∷ r.ostack })
  cached_step swap l r = fill l r λ r. go level_2 1 (record r { v1 = r.v2; v2 = r.v1 })
  cached_step ireturn l r = pop_slot l r λ w _ _. return_words (w ∷ [])
  cached_step lreturn l r = fill l r λ r. return_words (r.v1 ∷ [])
  cached_step return_void l r = return_words []
  cached_step athrow l r =
      take (spill l r) λ ob r. check_null ob r.frame (throw (thrown ob) r.frame)
  cached_step (push_long v n) l r = push_long_slot v n (spill l r)
  cached_step (load_long i n) l r = push_long_slot (r.frame.lvars i) n (spill l r)
  cached_step (store_long i n) l r =
      fill l r λ r. go level_0 n (record r { frame = set_lvar i r.v1 r.frame })
  cached_step (array_load ty) l r = fill l r λ r. check_array r.v1 (int_of r.v2) r.frame (
      push_slot level_0 (load_value ty (get_element (element_width ty) r.v1 (int_of r.v2) r.frame))
        1 r)
  cached_step array_load_long l r = fill l r λ r.
      check_array r.v1 (int_of r.v2) r.frame
        (push_long_slot (get_element 8 r.v1 (int_of r.v2) r.frame) 1 r)
  cached_step (array_store ty) l r = fill l r λ r. take r λ array r.
      check_array array (int_of r.v1) r.frame (
        go level_0 1 (record r {
          frame = set_element (element_width ty) array (int_of r.v1) (store_bits ty r.v2) r.frame;
        }))
  cached_step array_store_long l r = fill l r λ r. take r λ idx r. take r λ array r.
      check_array array (int_of idx) r.frame
        (go level_0 1 (record r { frame = set_element 8 array (int_of idx) r.v1 r.frame }))
  cached_step array_store_ref l r = fill l r λ r. take r λ array r.
      check_array array (int_of r.v1) r.frame (
        if not (r.v2 == 0) && not (array_store_check array r.v2)
        then throw array_store_exception r.frame
        else go level_0 1 (record r { frame = set_element 8 array (int_of r.v1) r.v2 r.frame }))
  cached_step array_length l r =
      take (spill l r)
        λ array r. check_null array r.frame (push_slot level_0 (r.frame.array_len array) 1 r)
  cached_step (long_binary op) l r = fill l r λ r.
      take r λ _ r. take r λ a r. go level_2 1 (record r { v1 = binary_value long_range op a r.v1 })
  cached_step (long_div op) l r = fill l r λ r. check_divisor r.v1 r.frame (
      take r λ _ r. take r λ a r.
        with_value (checked_div long_range op a r.v1) λ v. go level_2 1 (record r { v1 = v }))
  cached_step long_neg l r = fill l r λ r. go level_2 1 (record r { v1 = negate long_range r.v1 })
  cached_step (long_shift op) l r = fill l r λ r.
      take r
        λ a r'. go level_2 1 (record r' { v2 = r.v1; v1 = shift_value long_range op a (r.v2 % 64) })
  cached_step l2i l r = fill l r λ r. push_slot level_0 (slot_of r.v1) 1 r
  cached_step i2l l r = take (spill l r) λ a r. push_long_slot (slot_of a) 1 r
  cached_step lcmp l r =
      fill l r λ r. take r λ _ r. take r λ a r. push_slot level_0 (lcmp_value a r.v1) 1 r
  cached_step (int_cast ty) l r = take (spill l r) λ a r. push_slot level_0 (load_value ty a) 1 r
  cached_step (goto_offset offset) l r = go level_0 offset (spill l r)
  cached_step (jsr offset) l r = go level_0 offset (spill_word r.frame.pc (spill l r))
  cached_step (ret i) l r =
      let r' = spill l r in
      go level_0 3 (record r' { frame = record r'.frame { pc = r'.frame.lvars i } })
  cached_step (tableswitch low high deflt entries) l r =
      take (spill l r) λ index r.
        go level_0 (unsigned_offset (table_target low high deflt entries (int_of index))) r
  cached_step (lookupswitch deflt pairs) l r =
      take (spill l r)
        λ key r. go level_0 (unsigned_offset (lookup_target deflt pairs (int_of key))) r
