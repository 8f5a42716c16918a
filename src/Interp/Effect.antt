-- ===== src/Interp/Effect.antt =====
-- How many slots of the operand stack an opcode of src/interp/engine/interp.c reads, and how many it
-- leaves in their place.
pub mod Opcodes
use jamiga_jamvm.Interp.Division.{checked_div-some}
use jamiga_jamvm.Interp.Checks.{if_throw_lem, check_null_lem, check_divisor_lem, check_array_lem}
use jamiga_jamvm.Base.{
  ℕ, suc, ◌≡◌, refl, Bool, true, false, Bool-cases, inl, inr, List, [], ◌∷◌, ◌++◌, length, drop,
  leb, arith, ◌==◌, not, ◌&&◌, if◌then◌else◌, ◌<◌,
}
use jamiga_jamvm.Interp.State.{
  Insn, nop, push, load, store, binary, int_div, neg, shift, if_icmp, if_zero, iinc, pop, pop2, dup,
  dup_x1, dup_x2, dup2, dup2_x1, dup2_x2, swap, ireturn, lreturn, return_void, athrow, push_long,
  load_long, store_long, array_load, array_load_long, array_store, array_store_long,
  array_store_ref, array_length, long_binary, long_div, long_neg, long_shift, l2i, i2l, lcmp,
  int_cast, goto_offset, jsr, ret, tableswitch, lookupswitch, Frame, Exception, Outcome, dispatch,
  throw, return_words, underflow, out_of_bounds, if_acmp, if_null, unsigned_offset, with_value,
  get_element, set_element, element_width, undefined,
}
use jamiga_jamvm.Interp.Words.{int_of, DivOp, checked_div}
use jamiga_jamvm.Interp.Plain.{
  Machine, take, go, check_array, check_null, check_divisor, plain_step,
}

-- The slots that an opcode takes, and those that it pushes, as the JVM specification gives them. A long
-- is two slots.
abbrev pub words_in : Insn → ℕ
words_in nop = 0
words_in (push _ _) = 0
words_in (load _ _) = 0
words_in (store _ _) = 1
words_in (binary _) = 2
words_in (int_div _) = 2
words_in neg = 1
words_in (shift _) = 2
words_in (if_icmp _ _) = 2
words_in (if_zero _ _) = 1
words_in (if_acmp _ _) = 2
words_in (if_null _ _) = 1
words_in (iinc _ _) = 0
words_in pop = 1
words_in pop2 = 2
words_in dup = 1
words_in dup_x1 = 2
words_in dup_x2 = 3
words_in dup2 = 2
words_in dup2_x1 = 3
words_in dup2_x2 = 4
words_in swap = 2
words_in ireturn = 1
words_in lreturn = 2
words_in return_void = 0
words_in athrow = 1
words_in (push_long _ _) = 0
words_in (load_long _ _) = 0
words_in (store_long _ _) = 2
words_in (array_load _) = 2
words_in array_load_long = 2
words_in (array_store _) = 3
words_in array_store_long = 4
words_in array_store_ref = 3
words_in array_length = 1
words_in (long_binary _) = 4
words_in (long_div _) = 4
words_in long_neg = 2
words_in (long_shift _) = 3
words_in l2i = 2
words_in i2l = 1
words_in lcmp = 4
words_in (int_cast _) = 1
words_in (goto_offset _) = 0
words_in (jsr _) = 0
words_in (ret _) = 0
words_in (tableswitch _ _ _ _) = 1
words_in (lookupswitch _ _) = 1

abbrev pub words_out : Insn → ℕ
words_out nop = 0
words_out (push _ _) = 1
words_out (load _ _) = 1
words_out (store _ _) = 0
words_out (binary _) = 1
words_out (int_div _) = 1
words_out neg = 1
words_out (shift _) = 1
words_out (if_icmp _ _) = 0
words_out (if_zero _ _) = 0
words_out (if_acmp _ _) = 0
words_out (if_null _ _) = 0
words_out (iinc _ _) = 0
words_out pop = 0
words_out pop2 = 0
words_out dup = 2
words_out dup_x1 = 3
words_out dup_x2 = 4
words_out dup2 = 4
words_out dup2_x1 = 5
words_out dup2_x2 = 6
words_out swap = 2
words_out ireturn = 0
words_out lreturn = 0
words_out return_void = 0
words_out athrow = 0
words_out (push_long _ _) = 2
words_out (load_long _ _) = 2
words_out (store_long _ _) = 0
words_out (array_load _) = 1
words_out array_load_long = 2
words_out (array_store _) = 0
words_out array_store_long = 0
words_out array_store_ref = 0
words_out array_length = 1
words_out (long_binary _) = 2
words_out (long_div _) = 2
words_out long_neg = 2
words_out (long_shift _) = 2
words_out l2i = 1
words_out i2l = 2
words_out lcmp = 1
words_out (int_cast _) = 1
words_out (goto_offset _) = 0
words_out (jsr _) = 1
words_out (ret _) = 0
words_out (tableswitch _ _ _ _) = 0
words_out (lookupswitch _ _) = 0

-- A step that dispatches has replaced the slots above `rest` by `n` slots, and no step reads below the
-- stack, or divides where C does not define it.
unfoldable pub LeavesSlots : ℕ → List ℕ → Outcome Machine → Type 0
LeavesSlots n rest (dispatch m) = (slots : List ℕ) × (length slots ≡ n) × (m.ostack ≡ slots ++ rest)
LeavesSlots n rest (throw e f) = Unit
LeavesSlots n rest (return_words ws) = Unit
LeavesSlots n rest underflow = ⊥
LeavesSlots n rest undefined = ⊥

pub take-LeavesSlots :
    (n d : ℕ) (ws : List ℕ) (k : ℕ → List ℕ → Outcome Machine)
    → leb (suc n) (length ws) ≡ true
    → ((w : ℕ) (rest : List ℕ)
        → leb n (length rest) ≡ true
        → LeavesSlots d (drop n rest) (k w rest))
    → LeavesSlots d (drop (suc n) ws) (take ws k)
unfolding take
take-LeavesSlots n d [] k le h = absurd (ground (arith, le))
take-LeavesSlots n d (w ∷ ws) k le h = h w ws (ground (arith, le))

pub check_array-LeavesSlots :
    (d : ℕ) (rest : List ℕ) (array idx : ℕ) (f : Frame) (s : Outcome Machine)
    → LeavesSlots d rest s
    → LeavesSlots d rest (check_array array idx f s)
unfolding LeavesSlots
check_array-LeavesSlots d rest array idx f s h =
    check_array_lem (LeavesSlots d rest) f (λ e. tt) array idx s (λ n i. h)

pub check_divisor-LeavesSlots :
    (d : ℕ) (rest : List ℕ) (value : ℕ) (f : Frame) (s : Outcome Machine)
    → (value == 0 ≡ false → LeavesSlots d rest s)
    → LeavesSlots d rest (check_divisor value f s)
unfolding LeavesSlots
check_divisor-LeavesSlots d rest value f s h =
    check_divisor_lem (LeavesSlots d rest) f (λ e. tt) value s h

-- A division by another value than 0 has a result.
pub with_value-LeavesSlots :
    (d : ℕ) (rest : List ℕ) (m : ℕ) (op : DivOp) (a b : ℕ) (k : ℕ → Outcome Machine)
    → 2 < m
    → (b == 0) ≡ false
    → ((v : ℕ) → LeavesSlots d rest (k v))
    → LeavesSlots d rest (with_value (checked_div m op a b) k)
unfolding with_value
with_value-LeavesSlots d rest m op a b k p n h =
    let (v, e) = checked_div-some m op a b p n in rw e (h v)

pub check_null-LeavesSlots :
    (d : ℕ) (rest : List ℕ) (ref : ℕ) (f : Frame) (s : Outcome Machine)
    → LeavesSlots d rest s
    → LeavesSlots d rest (check_null ref f s)
unfolding LeavesSlots
check_null-LeavesSlots d rest ref f s h = check_null_lem (LeavesSlots d rest) f (λ e. tt) ref s h

-- Of a test that throws.
pub if_throw-LeavesSlots :
    (d : ℕ) (rest : List ℕ) (t : Bool) (e : Exception) (f : Frame) (s : Outcome Machine)
    → LeavesSlots d rest s
    → LeavesSlots d rest (if t then throw e f else s)
unfolding LeavesSlots
if_throw-LeavesSlots d rest t e f s h = if_throw_lem (LeavesSlots d rest) f (λ e. tt) t e s h
