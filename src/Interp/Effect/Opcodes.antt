-- ===== src/Interp/Effect/Opcodes.antt =====
-- What each opcode of src/interp/engine/interp.c takes from the operand stack and leaves on it.
use jamiga_jamvm.Base.{
  ℕ, ◌≡◌, refl, Bool, true, List, [], ◌∷◌, length, drop, leb, ◌==◌, not, ◌&&◌, arith,
}
use jamiga_jamvm.Interp.State.{
  Insn, nop, push, load, store, binary, int_div, neg, shift, if_icmp, if_zero, iinc, pop, pop2, dup,
  dup_x1, dup_x2, dup2, dup2_x1, dup2_x2, swap, ireturn, lreturn, return_void, athrow, push_long,
  load_long, store_long, array_load, array_load_long, array_store, array_store_long,
  array_store_ref, array_length, long_binary, long_div, long_neg, long_shift, l2i, i2l, lcmp,
  int_cast, goto_offset, jsr, ret, tableswitch, lookupswitch, Frame, if_acmp, if_null,
}
use jamiga_jamvm.Interp.Words.{int_of, int_range, long_range, slot_of}
use jamiga_jamvm.Interp.Plain.{plain_step}
use jamiga_jamvm.Interp.Effect.{
  words_in, words_out, LeavesSlots, take-LeavesSlots, check_array-LeavesSlots,
  check_divisor-LeavesSlots, check_null-LeavesSlots, if_throw-LeavesSlots, with_value-LeavesSlots,
}

module _ (array_store_check : ℕ → ℕ → Bool) (junk : ℕ) where
  -- An opcode on a stack that has the slots it takes does not read below it, and when it dispatches, the
  -- slots that it pushes stand on the stack below those that it took, which is unchanged.
  pub plain_step-LeavesSlots :
      (i : Insn) (ws : List ℕ) (f : Frame)
      → leb (words_in i) (length ws) ≡ true
      → LeavesSlots (words_out i) (drop (words_in i) ws) (plain_step array_store_check junk i ws f)
  unfolding plain_step LeavesSlots
  plain_step-LeavesSlots nop ws f le = ([], refl, refl)
  plain_step-LeavesSlots (push v n) ws f le = (_ ∷ [], refl, refl)
  plain_step-LeavesSlots (load i n) ws f le = (_ ∷ [], refl, refl)
  plain_step-LeavesSlots (store i n) ws f le =
      take-LeavesSlots 0 0 ws _ le (λ w rest0 le0. ([], refl, refl))
  plain_step-LeavesSlots (binary op) ws f le =
      take-LeavesSlots 1 1 ws _ le
        (λ w rest0 le0. take-LeavesSlots 0 1 rest0 _ le0 (λ x rest1 le1. (_ ∷ [], refl, refl)))
  plain_step-LeavesSlots (int_div op) ws f le = take-LeavesSlots 1 1 ws _ le (λ w rest0 le0.
      check_divisor-LeavesSlots 1 (drop 1 rest0) (int_of w) f _ (λ n.
        take-LeavesSlots 0 1 rest0 _ le0 (λ x rest1 le1.
          with_value-LeavesSlots 1 rest1 int_range op (int_of x) (int_of w) _ (omega arith) n
            (λ v. (slot_of v ∷ [], refl, refl)))))
  plain_step-LeavesSlots neg ws f le =
      take-LeavesSlots 0 1 ws _ le (λ w rest0 le0. (_ ∷ [], refl, refl))
  plain_step-LeavesSlots (shift op) ws f le =
      take-LeavesSlots 1 1 ws _ le
        (λ w rest0 le0. take-LeavesSlots 0 1 rest0 _ le0 (λ x rest1 le1. (_ ∷ [], refl, refl)))
  plain_step-LeavesSlots (if_icmp k offset) ws f le =
      take-LeavesSlots 1 0 ws _ le
        (λ w rest0 le0. take-LeavesSlots 0 0 rest0 _ le0 (λ x rest1 le1. ([], refl, refl)))
  plain_step-LeavesSlots (if_zero k offset) ws f le =
      take-LeavesSlots 0 0 ws _ le (λ w rest0 le0. ([], refl, refl))
  plain_step-LeavesSlots (if_acmp k offset) ws f le =
      take-LeavesSlots 1 0 ws _ le
        (λ w rest0 le0. take-LeavesSlots 0 0 rest0 _ le0 (λ x rest1 le1. ([], refl, refl)))
  plain_step-LeavesSlots (if_null k offset) ws f le =
      take-LeavesSlots 0 0 ws _ le (λ w rest0 le0. ([], refl, refl))
  plain_step-LeavesSlots (iinc i delta) ws f le = ([], refl, refl)
  plain_step-LeavesSlots pop ws f le =
      take-LeavesSlots 0 0 ws _ le (λ w rest0 le0. ([], refl, refl))
  plain_step-LeavesSlots pop2 ws f le =
      take-LeavesSlots 1 0 ws _ le
        (λ w rest0 le0. take-LeavesSlots 0 0 rest0 _ le0 (λ x rest1 le1. ([], refl, refl)))
  plain_step-LeavesSlots dup ws f le =
      take-LeavesSlots 0 2 ws _ le (λ w rest0 le0. (_ ∷ _ ∷ [], refl, refl))
  plain_step-LeavesSlots dup_x1 ws f le = take-LeavesSlots 1 3 ws _ le (λ w rest0 le0.
      take-LeavesSlots 0 3 rest0 _ le0 (λ x rest1 le1. (_ ∷ _ ∷ _ ∷ [], refl, refl)))
  plain_step-LeavesSlots dup_x2 ws f le = take-LeavesSlots 2 4 ws _ le (λ w rest0 le0.
      take-LeavesSlots 1 4 rest0 _ le0 (λ x rest1 le1.
        take-LeavesSlots 0 4 rest1 _ le1 (λ y rest2 le2. (_ ∷ _ ∷ _ ∷ _ ∷ [], refl, refl))))
  plain_step-LeavesSlots dup2 ws f le = take-LeavesSlots 1 4 ws _ le (λ w rest0 le0.
      take-LeavesSlots 0 4 rest0 _ le0 (λ x rest1 le1. (_ ∷ _ ∷ _ ∷ _ ∷ [], refl, refl)))
  plain_step-LeavesSlots dup2_x1 ws f le = take-LeavesSlots 2 5 ws _ le (λ w rest0 le0.
      take-LeavesSlots 1 5 rest0 _ le0 (λ x rest1 le1.
        take-LeavesSlots 0 5 rest1 _ le1 (λ y rest2 le2. (_ ∷ _ ∷ _ ∷ _ ∷ _ ∷ [], refl, refl))))
  plain_step-LeavesSlots dup2_x2 ws f le = take-LeavesSlots 3 6 ws _ le (λ w rest0 le0.
      take-LeavesSlots 2 6 rest0 _ le0 (λ x rest1 le1.
        take-LeavesSlots 1 6 rest1 _ le1 (λ y rest2 le2.
          take-LeavesSlots 0 6 rest2 _ le2
            (λ z rest3 le3. (_ ∷ _ ∷ _ ∷ _ ∷ _ ∷ _ ∷ [], refl, refl)))))
  plain_step-LeavesSlots swap ws f le =
      take-LeavesSlots 1 2 ws _ le
        (λ w rest0 le0. take-LeavesSlots 0 2 rest0 _ le0 (λ x rest1 le1. (_ ∷ _ ∷ [], refl, refl)))
  plain_step-LeavesSlots ireturn ws f le = take-LeavesSlots 0 0 ws _ le (λ w rest0 le0. tt)
  plain_step-LeavesSlots lreturn ws f le =
      take-LeavesSlots 1 0 ws _ le
        (λ w rest0 le0. take-LeavesSlots 0 0 rest0 _ le0 (λ x rest1 le1. tt))
  plain_step-LeavesSlots return_void ws f le = tt
  plain_step-LeavesSlots athrow ws f le =
      take-LeavesSlots 0 0 ws _ le (λ w rest0 le0. check_null-LeavesSlots 0 rest0 w f _ tt)
  plain_step-LeavesSlots (push_long v n) ws f le = (_ ∷ _ ∷ [], refl, refl)
  plain_step-LeavesSlots (load_long i n) ws f le = (_ ∷ _ ∷ [], refl, refl)
  plain_step-LeavesSlots (store_long i n) ws f le =
      take-LeavesSlots 1 0 ws _ le
        (λ w rest0 le0. take-LeavesSlots 0 0 rest0 _ le0 (λ x rest1 le1. ([], refl, refl)))
  plain_step-LeavesSlots (array_load ty) ws f le = take-LeavesSlots 1 1 ws _ le (λ w rest0 le0.
      take-LeavesSlots 0 1 rest0 _ le0
        (λ x rest1 le1. check_array-LeavesSlots 1 rest1 x (int_of w) f _ (_ ∷ [], refl, refl)))
  plain_step-LeavesSlots array_load_long ws f le = take-LeavesSlots 1 2 ws _ le (λ w rest0 le0.
      take-LeavesSlots 0 2 rest0 _ le0
        (λ x rest1 le1. check_array-LeavesSlots 2 rest1 x (int_of w) f _ (_ ∷ _ ∷ [], refl, refl)))
  plain_step-LeavesSlots (array_store ty) ws f le = take-LeavesSlots 2 0 ws _ le (λ w rest0 le0.
      take-LeavesSlots 1 0 rest0 _ le0 (λ x rest1 le1.
        take-LeavesSlots 0 0 rest1 _ le1
          (λ y rest2 le2. check_array-LeavesSlots 0 rest2 y (int_of x) f _ ([], refl, refl))))
  plain_step-LeavesSlots array_store_long ws f le = take-LeavesSlots 3 0 ws _ le (λ w rest0 le0.
      take-LeavesSlots 2 0 rest0 _ le0 (λ x rest1 le1.
        take-LeavesSlots 1 0 rest1 _ le1 (λ y rest2 le2.
          take-LeavesSlots 0 0 rest2 _ le2
            (λ z rest3 le3. check_array-LeavesSlots 0 rest3 z (int_of y) f _ ([], refl, refl)))))
  plain_step-LeavesSlots array_store_ref ws f le = take-LeavesSlots 2 0 ws _ le (λ w rest0 le0.
      take-LeavesSlots 1 0 rest0 _ le0 (λ x rest1 le1.
        take-LeavesSlots 0 0 rest1 _ le1 (λ y rest2 le2.
          check_array-LeavesSlots 0 rest2 y (int_of x) f _ (
            if_throw-LeavesSlots 0 rest2 (not (w == 0) && not (array_store_check y w)) _ f _
              ([], refl, refl)))))
  plain_step-LeavesSlots array_length ws f le =
      take-LeavesSlots 0 1 ws _ le
        (λ w rest0 le0. check_null-LeavesSlots 1 rest0 w f _ (_ ∷ [], refl, refl))
  plain_step-LeavesSlots (long_binary op) ws f le = take-LeavesSlots 3 2 ws _ le (λ w rest0 le0.
      take-LeavesSlots 2 2 rest0 _ le0 (λ x rest1 le1.
        take-LeavesSlots 1 2 rest1 _ le1 (λ y rest2 le2.
          take-LeavesSlots 0 2 rest2 _ le2 (λ z rest3 le3. (_ ∷ _ ∷ [], refl, refl)))))
  plain_step-LeavesSlots (long_div op) ws f le = take-LeavesSlots 3 2 ws _ le (λ w rest0 le0.
      take-LeavesSlots 2 2 rest0 _ le0 (λ x rest1 le1.
        check_divisor-LeavesSlots 2 (drop 2 rest1) x f _ (λ n.
          take-LeavesSlots 1 2 rest1 _ le1 (λ y rest2 le2.
            take-LeavesSlots 0 2 rest2 _ le2 (λ z rest3 le3.
              with_value-LeavesSlots 2 rest3 long_range op z x _ (omega arith) n
                (λ v. (junk ∷ v ∷ [], refl, refl)))))))
  plain_step-LeavesSlots long_neg ws f le =
      take-LeavesSlots 1 2 ws _ le
        (λ w rest0 le0. take-LeavesSlots 0 2 rest0 _ le0 (λ x rest1 le1. (_ ∷ _ ∷ [], refl, refl)))
  plain_step-LeavesSlots (long_shift op) ws f le = take-LeavesSlots 2 2 ws _ le (λ w rest0 le0.
      take-LeavesSlots 1 2 rest0 _ le0
        (λ x rest1 le1. take-LeavesSlots 0 2 rest1 _ le1 (λ y rest2 le2. (_ ∷ _ ∷ [], refl, refl))))
  plain_step-LeavesSlots l2i ws f le =
      take-LeavesSlots 1 1 ws _ le
        (λ w rest0 le0. take-LeavesSlots 0 1 rest0 _ le0 (λ x rest1 le1. (_ ∷ [], refl, refl)))
  plain_step-LeavesSlots i2l ws f le =
      take-LeavesSlots 0 2 ws _ le (λ w rest0 le0. (_ ∷ _ ∷ [], refl, refl))
  plain_step-LeavesSlots lcmp ws f le = take-LeavesSlots 3 1 ws _ le (λ w rest0 le0.
      take-LeavesSlots 2 1 rest0 _ le0 (λ x rest1 le1.
        take-LeavesSlots 1 1 rest1 _ le1
          (λ y rest2 le2. take-LeavesSlots 0 1 rest2 _ le2 (λ z rest3 le3. (_ ∷ [], refl, refl)))))
  plain_step-LeavesSlots (int_cast ty) ws f le =
      take-LeavesSlots 0 1 ws _ le (λ w rest0 le0. (_ ∷ [], refl, refl))
  plain_step-LeavesSlots (goto_offset offset) ws f le = ([], refl, refl)
  plain_step-LeavesSlots (jsr offset) ws f le = (_ ∷ [], refl, refl)
  plain_step-LeavesSlots (ret i) ws f le = ([], refl, refl)
  plain_step-LeavesSlots (tableswitch low high deflt entries) ws f le =
      take-LeavesSlots 0 0 ws _ le (λ w rest0 le0. ([], refl, refl))
  plain_step-LeavesSlots (lookupswitch deflt pairs) ws f le =
      take-LeavesSlots 0 0 ws _ le (λ w rest0 le0. ([], refl, refl))
