-- ===== src/Interp/Arrays.antt =====
-- What an opcode of src/interp/engine/interp.c writes to arrays: ARRAY_BOUNDS_CHECK compares the index
-- as an unsigned word, so that one test keeps a negative index out as well.
use native.Mathlib.Nat.{mul-le-mul_right}
use jamiga_jamvm.Interp.Checks.{if_throw_lem, check_null_lem, check_divisor_lem, check_array_lem}
use jamiga_jamvm.Base.{
  ℕ, ◌≡◌, refl, Bool, true, false, Bool-cases, inl, inr, List, [], ◌∷◌, leb, ltb, arith, ◌==◌, not,
  ◌&&◌, ◌||◌, if◌then◌else◌, ◌^◌, Option, none, some, ◌+◌, ◌*◌, ◌≤◌, ap, ◌<◌,
}
use jamiga_jamvm.Interp.State.{
  Insn, nop, push, load, store, binary, int_div, neg, shift, if_icmp, if_zero, iinc, pop, pop2, dup,
  dup_x1, dup_x2, dup2, dup2_x1, dup2_x2, swap, ireturn, lreturn, return_void, athrow, push_long,
  load_long, store_long, array_load, array_load_long, array_store, array_store_long,
  array_store_ref, array_length, long_binary, long_div, long_neg, long_shift, l2i, i2l, lcmp,
  int_cast, goto_offset, jsr, ret, tableswitch, lookupswitch, Frame, Exception, Outcome, dispatch,
  throw, return_words, underflow, out_of_bounds, set_element, store_bits, if_acmp, if_null,
  with_value, element_width, undefined, is_written,
}
use jamiga_jamvm.Interp.Words.{int_of, slot_of, is_negative, int_range}
use jamiga_jamvm.Interp.Plain.{
  Machine, take, go, check_array, check_null, check_divisor, plain_step,
}

-- The size of the elements that an opcode stores in an array, if it does.
abbrev pub store_width : Insn → ℕ
store_width (array_store ty) = element_width ty
store_width array_store_long = 8
store_width array_store_ref = 8
store_width i = 0

-- The byte at `j` is not one of the first elements of width `w` that are as many as the array is long.
abbrev pub is_outside : ℕ → ℕ → ℕ → Frame → Bool
is_outside w a j f = a == 0 || leb (f.array_len a * w) j

-- The index test, in words: what is in bounds is not negative and below the length.
out_of_bounds_lem :
    (array idx : ℕ) (f : Frame)
    → leb (2 ^ 31) (f.array_len array) ≡ false
    → ltb idx int_range ≡ true
    → out_of_bounds array idx f ≡ (is_negative int_range idx || leb (f.array_len array) idx)
out_of_bounds_lem array idx f small word = ground arith

int_of-ltb : (x : ℕ) → ltb (int_of x) int_range ≡ true
int_of-ltb x = ground arith

slot_of-leb : (idx : ℕ) → ltb idx int_range ≡ true → leb idx (slot_of idx) ≡ true
slot_of-leb idx r = ground arith

module _ (a j : ℕ) (f : Frame) where
  -- A step that dispatches or throws leaves the byte at `j` of `a`, and all lengths.
  unfoldable pub LeavesElement : Outcome Machine → Type 0
  LeavesElement (dispatch m) =
      (m.frame.array_len ≡ f.array_len) × (m.frame.array_data a j ≡ f.array_data a j)
  LeavesElement (throw e g) = g.array_data a j ≡ f.array_data a j
  LeavesElement (return_words ws) = Unit
  LeavesElement underflow = Unit
  LeavesElement undefined = Unit

  take-LeavesElement :
      (ws : List ℕ) (k : ℕ → List ℕ → Outcome Machine)
      → ((w : ℕ) (rest : List ℕ) → LeavesElement (k w rest))
      → LeavesElement (take ws k)
  unfolding take LeavesElement
  take-LeavesElement [] k h = tt
  take-LeavesElement (w ∷ ws) k h = h w ws

  check_array-LeavesElement :
      (array idx : ℕ) (s : Outcome Machine)
      → (array == 0 ≡ false → out_of_bounds array idx f ≡ false → LeavesElement s)
      → LeavesElement (check_array array idx f s)
  unfolding LeavesElement
  check_array-LeavesElement array idx s h =
      check_array_lem LeavesElement f (λ e. refl) array idx s h

  check_divisor-LeavesElement :
      (value : ℕ) (s : Outcome Machine) → LeavesElement s → LeavesElement (check_divisor value f s)
  unfolding LeavesElement
  check_divisor-LeavesElement value s h =
      check_divisor_lem LeavesElement f (λ e. refl) value s (λ _. h)

  with_value-LeavesElement :
      (o : Option ℕ) (k : ℕ → Outcome Machine)
      → ((v : ℕ) → LeavesElement (k v))
      → LeavesElement (with_value o k)
  unfolding with_value LeavesElement
  with_value-LeavesElement none k h = tt
  with_value-LeavesElement (some v) k h = h v

  check_null-LeavesElement :
      (ref : ℕ) (s : Outcome Machine) → LeavesElement s → LeavesElement (check_null ref f s)
  unfolding LeavesElement
  check_null-LeavesElement ref s h = check_null_lem LeavesElement f (λ e. refl) ref s h

  if_throw-LeavesElement :
      (t : Bool) (e : Exception) (s : Outcome Machine)
      → LeavesElement s
      → LeavesElement (if t then throw e f else s)
  unfolding LeavesElement
  if_throw-LeavesElement t e s h = if_throw_lem LeavesElement f (λ e. refl) t e s h

  not_outside :
      (w array idx : ℕ)
      → is_outside w a j f ≡ true
      → ltb idx int_range ≡ true
      → array == 0 ≡ false
      → out_of_bounds array idx f ≡ false
      → a ≡ array
      → is_written w idx j ≡ true
      → ⊥
  not_outside w array idx o r q i e h =
      let below : idx + 1 ≤ f.array_len array = ground (arith, i, slot_of-leb idx r) in
      let last = mul-le-mul_right w below in
      let same : f.array_len a ≡ f.array_len array = ap f.array_len e in
      let far : f.array_len a * w ≤ j = ground (arith, o, q, e) in
      let near : j < idx * w + w = ground (arith, h) in
      omega (arith, last, ap (λ n. n * w) same, far, near)

  set_element-LeavesElement :
      (w array idx v n : ℕ) (ws : List ℕ)
      → is_outside w a j f ≡ true
      → ltb idx int_range ≡ true
      → array == 0 ≡ false
      → out_of_bounds array idx f ≡ false
      → LeavesElement (go ws n (set_element w array idx v f))
  unfolding LeavesElement
  set_element-LeavesElement w array idx v n ws o r q i =
      elim (Bool-cases (a == array && is_written w idx j)) [
        | inl e ↦ absurd (not_outside w array idx o r q i (ground (arith, e)) (ground (arith, e)))
        | inr e ↦ (refl, rw e refl)
      ]

  module _ (array_store_check : ℕ → ℕ → Bool) (junk : ℕ) where
    -- Whatever the opcode and the operand stack, a step that dispatches or throws writes to an array only
    -- within its first elements, as many as the array is long, taken to have the width that the opcode stores;
    -- an opcode that stores nothing in an array leaves all arrays as they are. The lengths of arrays stay.
    pub plain_step-LeavesElement :
        (i : Insn) (ws : List ℕ)
        → is_outside (store_width i) a j f ≡ true
        → LeavesElement (plain_step array_store_check junk i ws f)
    unfolding plain_step LeavesElement
    plain_step-LeavesElement nop ws o = (refl, refl)
    plain_step-LeavesElement (push v n) ws o = (refl, refl)
    plain_step-LeavesElement (load i n) ws o = (refl, refl)
    plain_step-LeavesElement (store i n) ws o = take-LeavesElement ws _ (λ w rest0. (refl, refl))
    plain_step-LeavesElement (binary op) ws o =
        take-LeavesElement ws _ (λ w rest0. take-LeavesElement rest0 _ (λ x rest1. (refl, refl)))
    plain_step-LeavesElement (int_div op) ws o = take-LeavesElement ws _ (λ w rest0.
        check_divisor-LeavesElement (int_of w) _ (
          take-LeavesElement rest0 _ (λ x rest1. with_value-LeavesElement _ _ (λ v. (refl, refl)))))
    plain_step-LeavesElement neg ws o = take-LeavesElement ws _ (λ w rest0. (refl, refl))
    plain_step-LeavesElement (shift op) ws o =
        take-LeavesElement ws _ (λ w rest0. take-LeavesElement rest0 _ (λ x rest1. (refl, refl)))
    plain_step-LeavesElement (if_icmp k offset) ws o =
        take-LeavesElement ws _ (λ w rest0. take-LeavesElement rest0 _ (λ x rest1. (refl, refl)))
    plain_step-LeavesElement (if_zero k offset) ws o =
        take-LeavesElement ws _ (λ w rest0. (refl, refl))
    plain_step-LeavesElement (if_acmp k offset) ws o =
        take-LeavesElement ws _ (λ w rest0. take-LeavesElement rest0 _ (λ x rest1. (refl, refl)))
    plain_step-LeavesElement (if_null k offset) ws o =
        take-LeavesElement ws _ (λ w rest0. (refl, refl))
    plain_step-LeavesElement (iinc i delta) ws o = (refl, refl)
    plain_step-LeavesElement pop ws o = take-LeavesElement ws _ (λ w rest0. (refl, refl))
    plain_step-LeavesElement pop2 ws o =
        take-LeavesElement ws _ (λ w rest0. take-LeavesElement rest0 _ (λ x rest1. (refl, refl)))
    plain_step-LeavesElement dup ws o = take-LeavesElement ws _ (λ w rest0. (refl, refl))
    plain_step-LeavesElement dup_x1 ws o =
        take-LeavesElement ws _ (λ w rest0. take-LeavesElement rest0 _ (λ x rest1. (refl, refl)))
    plain_step-LeavesElement dup_x2 ws o = take-LeavesElement ws _ (λ w rest0.
        take-LeavesElement rest0 _
          (λ x rest1. take-LeavesElement rest1 _ (λ y rest2. (refl, refl))))
    plain_step-LeavesElement dup2 ws o =
        take-LeavesElement ws _ (λ w rest0. take-LeavesElement rest0 _ (λ x rest1. (refl, refl)))
    plain_step-LeavesElement dup2_x1 ws o = take-LeavesElement ws _ (λ w rest0.
        take-LeavesElement rest0 _
          (λ x rest1. take-LeavesElement rest1 _ (λ y rest2. (refl, refl))))
    plain_step-LeavesElement dup2_x2 ws o = take-LeavesElement ws _ (λ w rest0.
        take-LeavesElement rest0 _ (λ x rest1.
          take-LeavesElement rest1 _
            (λ y rest2. take-LeavesElement rest2 _ (λ z rest3. (refl, refl)))))
    plain_step-LeavesElement swap ws o =
        take-LeavesElement ws _ (λ w rest0. take-LeavesElement rest0 _ (λ x rest1. (refl, refl)))
    plain_step-LeavesElement ireturn ws o = take-LeavesElement ws _ (λ w rest0. tt)
    plain_step-LeavesElement lreturn ws o =
        take-LeavesElement ws _ (λ w rest0. take-LeavesElement rest0 _ (λ x rest1. tt))
    plain_step-LeavesElement return_void ws o = tt
    plain_step-LeavesElement athrow ws o =
        take-LeavesElement ws _ (λ w rest0. check_null-LeavesElement w _ refl)
    plain_step-LeavesElement (push_long v n) ws o = (refl, refl)
    plain_step-LeavesElement (load_long i n) ws o = (refl, refl)
    plain_step-LeavesElement (store_long i n) ws o =
        take-LeavesElement ws _ (λ w rest0. take-LeavesElement rest0 _ (λ x rest1. (refl, refl)))
    plain_step-LeavesElement (array_load ty) ws o = take-LeavesElement ws _ (λ w rest0.
        take-LeavesElement rest0 _
          (λ x rest1. check_array-LeavesElement x (int_of w) _ (λ q i. (refl, refl))))
    plain_step-LeavesElement array_load_long ws o = take-LeavesElement ws _ (λ w rest0.
        take-LeavesElement rest0 _
          (λ x rest1. check_array-LeavesElement x (int_of w) _ (λ q i. (refl, refl))))
    plain_step-LeavesElement (array_store ty) ws o = take-LeavesElement ws _ (λ w rest0.
        take-LeavesElement rest0 _ (λ x rest1. take-LeavesElement rest1 _ (λ y rest2.
          check_array-LeavesElement y (int_of x) _ (λ q i.
            set_element-LeavesElement (element_width ty) y (int_of x) (store_bits ty w) 1 rest2 o
              (int_of-ltb x) q i))))
    plain_step-LeavesElement array_store_long ws o = take-LeavesElement ws _ (λ w rest0.
        take-LeavesElement rest0 _ (λ x rest1. take-LeavesElement rest1 _ (λ y rest2.
          take-LeavesElement rest2 _ (λ z rest3.
            check_array-LeavesElement z (int_of y) _
              (λ q i. set_element-LeavesElement 8 z (int_of y) x 1 rest3 o (int_of-ltb y) q i)))))
    plain_step-LeavesElement array_store_ref ws o = take-LeavesElement ws _ (λ w rest0.
        take-LeavesElement rest0 _ (λ x rest1. take-LeavesElement rest1 _ (λ y rest2.
          check_array-LeavesElement y (int_of x) _ (λ q i.
            if_throw-LeavesElement (not (w == 0) && not (array_store_check y w)) _ _
              (set_element-LeavesElement 8 y (int_of x) w 1 rest2 o (int_of-ltb x) q i)))))
    plain_step-LeavesElement array_length ws o =
        take-LeavesElement ws _ (λ w rest0. check_null-LeavesElement w _ (refl, refl))
    plain_step-LeavesElement (long_binary op) ws o = take-LeavesElement ws _ (λ w rest0.
        take-LeavesElement rest0 _ (λ x rest1.
          take-LeavesElement rest1 _
            (λ y rest2. take-LeavesElement rest2 _ (λ z rest3. (refl, refl)))))
    plain_step-LeavesElement (long_div op) ws o = take-LeavesElement ws _ (λ w rest0.
        take-LeavesElement rest0 _ (λ x rest1. check_divisor-LeavesElement x _ (
          take-LeavesElement rest1 _ (λ y rest2.
            take-LeavesElement rest2 _
              (λ z rest3. with_value-LeavesElement _ _ (λ v. (refl, refl)))))))
    plain_step-LeavesElement long_neg ws o =
        take-LeavesElement ws _ (λ w rest0. take-LeavesElement rest0 _ (λ x rest1. (refl, refl)))
    plain_step-LeavesElement (long_shift op) ws o = take-LeavesElement ws _ (λ w rest0.
        take-LeavesElement rest0 _
          (λ x rest1. take-LeavesElement rest1 _ (λ y rest2. (refl, refl))))
    plain_step-LeavesElement l2i ws o =
        take-LeavesElement ws _ (λ w rest0. take-LeavesElement rest0 _ (λ x rest1. (refl, refl)))
    plain_step-LeavesElement i2l ws o = take-LeavesElement ws _ (λ w rest0. (refl, refl))
    plain_step-LeavesElement lcmp ws o = take-LeavesElement ws _ (λ w rest0.
        take-LeavesElement rest0 _ (λ x rest1.
          take-LeavesElement rest1 _
            (λ y rest2. take-LeavesElement rest2 _ (λ z rest3. (refl, refl)))))
    plain_step-LeavesElement (int_cast ty) ws o = take-LeavesElement ws _ (λ w rest0. (refl, refl))
    plain_step-LeavesElement (goto_offset offset) ws o = (refl, refl)
    plain_step-LeavesElement (jsr offset) ws o = (refl, refl)
    plain_step-LeavesElement (ret i) ws o = (refl, refl)
    plain_step-LeavesElement (tableswitch low high deflt entries) ws o =
        take-LeavesElement ws _ (λ w rest0. (refl, refl))
    plain_step-LeavesElement (lookupswitch deflt pairs) ws o =
        take-LeavesElement ws _ (λ w rest0. (refl, refl))
