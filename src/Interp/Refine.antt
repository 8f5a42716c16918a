-- ===== src/Interp/Refine.antt =====
-- The cached handlers of src/interp/engine/interp.c seen as handlers without a cache: the operand stack with
-- the cached slots on top, and the macros of the handlers one by one.
pub mod Slots
pub mod Longs
pub mod Steps
use jamiga_jamvm.Base.{
  ℕ, ◌+◌, ◌%◌, ◌≡◌, refl, sym, ap, ◌∙◌, Bool, true, false, ◌&&◌, not, List, [], ◌∷◌, ◌==◌,
  if◌then◌else◌, Bool-cases, List-cases, inl, inr, arith, Option, none, some,
}
use jamiga_jamvm.Interp.Words.{
  BinaryOp, DivOp, ShiftOp, Cond, int_range, long_range, binary_value, checked_div, shift_value,
  negate, holds, int_of, slot_of, widen, ushr,
}
use jamiga_jamvm.Interp.State.{
  ElemType, load_value, store_bits, Insn, nop, push, load, store, binary, int_div, neg, shift,
  if_icmp, if_zero, iinc, pop, pop2, dup, dup_x1, dup_x2, dup2, dup2_x1, dup2_x2, swap, ireturn,
  lreturn, return_void, athrow, push_long, load_long, store_long, array_load, array_store,
  array_load_long, array_store_long, array_store_ref, array_length, long_binary, long_div, long_neg,
  long_shift, l2i, i2l, lcmp, int_cast, goto_offset, jsr, ret, tableswitch, lookupswitch, Frame,
  null_pointer, arithmetic, array_store_exception, array_index, thrown, Outcome, map_outcome,
  dispatch, throw, return_words, underflow, advance, set_lvar, set_element, out_of_bounds, branch,
  table_target, lookup_target, lcmp_value, if_acmp, if_null, unsigned_offset, with_value,
  get_element, element_width, undefined,
}
use jamiga_jamvm.Interp.Plain.{
  Machine, check_array, check_null, check_divisor, shift_slot, plain_step,
}
use jamiga_jamvm.Interp.Plain
use jamiga_jamvm.Interp.Cached.{
  Level, level_0, level_1, level_2, Regs, Step, take, go, spill_word, push_slot, push_long_slot,
  fill, spill, pop_slot, two_slots, top_slot, unary_slot, pop_two, if_slot, dup_slot, cached_step,
}

-- The operand stack with the cached slots on top.
abbrev pub stack_of : Level → Regs → List ℕ
stack_of level_0 r = r.ostack
stack_of level_1 r = r.v1 ∷ r.ostack
stack_of level_2 r = r.v2 ∷ r.v1 ∷ r.ostack

abbrev pub view : Level × Regs → Machine
view (l, r) = record { ostack = stack_of l r; frame = r.frame }

abbrev pub seen : Step → Outcome Machine
seen s = map_outcome view s

-- The combinators of the handlers, seen as those without a cache.
pub take_view :
    (r : Regs) (k : ℕ → Regs → Step) (k' : ℕ → List ℕ → Outcome Machine)
    → ((w : ℕ) (ws : List ℕ) → seen (k w (record r { ostack = ws })) ≡ k' w ws)
    → seen (take r k) ≡ Plain.take r.ostack k'
unfolding take Plain.take
take_view r k k' h = list_view r.ostack
  where
    list_view : (ws : List ℕ) → seen (take (record r { ostack = ws }) k) ≡ Plain.take ws k'
    list_view [] = refl
    list_view (w ∷ ws) = h w ws

pub two_slots_view :
    (l : Level) (r : Regs) (k : ℕ → ℕ → Regs → Step) (k' : ℕ → ℕ → List ℕ → Outcome Machine)
    → ((b a : ℕ) (ws : List ℕ) → seen (k a b (record r { ostack = ws })) ≡ k' b a ws)
    → seen (two_slots l r k)
      ≡ Plain.take (stack_of l r) λ b rest. Plain.take rest λ a rest. k' b a rest
unfolding two_slots Plain.take
two_slots_view level_2 r k k' h = h r.v2 r.v1 r.ostack
two_slots_view level_1 r k k' h =
    take_view r (λ a r. k a r.v1 r) (λ a rest. k' r.v1 a rest) (λ a ws. h r.v1 a ws)
two_slots_view level_0 r k k' h =
    take_view r (λ b r. take r λ a r. k a b r) (λ b rest. Plain.take rest λ a rest. k' b a rest)
      (λ b ws.
        take_view (record r { ostack = ws }) (λ a r. k a b r) (λ a rest. k' b a rest)
          (λ a ws. h b a ws))

pub pop_slot_view :
    (l : Level) (r : Regs) (k : ℕ → Level → Regs → Step) (k' : ℕ → List ℕ → Outcome Machine)
    → ((w : ℕ) (m : Level) (ws : List ℕ)
        → seen (k w m (record r { ostack = ws })) ≡ k' w (stack_of m (record r { ostack = ws })))
    → seen (pop_slot l r k) ≡ Plain.take (stack_of l r) k'
unfolding pop_slot Plain.take
pop_slot_view level_2 r k k' h = h r.v2 level_1 r.ostack
pop_slot_view level_1 r k k' h = h r.v1 level_0 r.ostack
pop_slot_view level_0 r k k' h = take_view r (λ w r. k w level_0 r) k' (λ w ws. h w level_0 ws)

pub unary_slot_view :
    (l : Level) (r : Regs) (k : ℕ → Level → Regs → Step) (k' : ℕ → List ℕ → Outcome Machine)
    → ((w : ℕ) (m : Level) (ws : List ℕ)
        → seen (k w m (record r { ostack = ws })) ≡ k' w (stack_of m (record r { ostack = ws })))
    → seen (unary_slot l r k) ≡ Plain.take (stack_of l r) k'
unfolding unary_slot Plain.take
unary_slot_view level_2 r k k' h = h r.v2 level_1 r.ostack
unary_slot_view level_1 r k k' h = h r.v1 level_0 r.ostack
unary_slot_view level_0 r k k' h = take_view r (λ w r. k w level_0 r) k' (λ w ws. h w level_0 ws)

pub top_slot_view :
    (l : Level) (r : Regs) (k : ℕ → Step) (k' : ℕ → List ℕ → Outcome Machine)
    → ((w : ℕ) (rest : List ℕ) → stack_of l r ≡ w ∷ rest → seen (k w) ≡ k' w rest)
    → seen (top_slot l r k) ≡ Plain.take (stack_of l r) k'
unfolding top_slot take Plain.take
top_slot_view level_2 r k k' h = h r.v2 (r.v1 ∷ r.ostack) refl
top_slot_view level_1 r k k' h = h r.v1 r.ostack refl
top_slot_view level_0 r k k' h = elim (List-cases r.ostack) [
  | inl e ↦ rw e refl
  | inr (b, ws, e) ↦ rw e (h b ws e)
]

pub push_view :
    (l : Level) (v n : ℕ) (r : Regs)
    → seen (push_slot l v n r) ≡ Plain.go (v ∷ stack_of l r) n r.frame
push_view level_0 v n r = refl
push_view level_1 v n r = refl
push_view level_2 v n r = refl

pub go_view : (l : Level) (n : ℕ) (r : Regs) → seen (go l n r) ≡ Plain.go (stack_of l r) n r.frame
go_view level_0 n r = refl
go_view level_1 n r = refl
go_view level_2 n r = refl

-- A result that depends on what a long's second slot holds.
abbrev pub Matches : Step → (ℕ → Outcome Machine) → Type 0
Matches s p = (junk : ℕ) × (seen s ≡ p junk)

pub fill_view :
    (l : Level) (r : Regs) (k : Regs → Step) (k' : ℕ → ℕ → ℕ → List ℕ → Outcome Machine)
    → ((b a : ℕ) (ws : List ℕ)
        → Matches (k (record r { ostack = ws; v1 = a; v2 = b })) (λ junk. k' junk b a ws))
    → Matches
        (fill l r k)
        (λ junk. Plain.take (stack_of l r) λ b rest. Plain.take rest λ a rest. k' junk b a rest)
unfolding fill take Plain.take
fill_view level_2 r k k' h = h r.v2 r.v1 r.ostack
fill_view level_1 r k k' h = elim (List-cases r.ostack) [
  | inl e ↦ (0, rw e refl)
  | inr (a, ws, e) ↦ let (j, q) = h r.v1 a ws in (j, rw e q)
]
fill_view level_0 r k k' h = elim (List-cases r.ostack) [
  | inl e ↦ (0, rw e refl)
  | inr (b, [], e) ↦ (0, rw e refl)
  | inr (b, a ∷ ws, e) ↦ let (j, q) = h b a ws in (j, rw e q)
]

pub spill_stack : (l : Level) (r : Regs) → (spill l r).ostack ≡ stack_of l r
spill_stack level_0 r = refl
spill_stack level_1 r = refl
spill_stack level_2 r = refl

pub spill_frame : (l : Level) (r : Regs) → (spill l r).frame ≡ r.frame
spill_frame level_0 r = refl
spill_frame level_1 r = refl
spill_frame level_2 r = refl

-- An opcode that starts at level 0 and reads one slot.
pub spilled_view :
    (l : Level) (r : Regs) (k : ℕ → Regs → Step) (k' : ℕ → List ℕ → Outcome Machine)
    → ((w v : ℕ) (ws : List ℕ) → seen (k w (record r { ostack = ws; v1 = v })) ≡ k' w ws)
    → seen (take (spill l r) k) ≡ Plain.take (stack_of l r) k'
unfolding take Plain.take
spilled_view level_0 r k k' h = take_view r k k' (λ w ws. h w r.v1 ws)
spilled_view level_1 r k k' h = h r.v1 r.v1 r.ostack
spilled_view level_2 r k k' h = h r.v2 r.v2 (r.v1 ∷ r.ostack)

pub check_null_view :
    (ref : ℕ) (f : Frame) (s : Step) (s' : Outcome Machine)
    → seen s ≡ s'
    → seen (check_null ref f s) ≡ check_null ref f s'
check_null_view ref f s s' h = elim (Bool-cases (ref == 0)) [ inl z ↦ rw z refl | inr n ↦ rw n h ]

pub check_divisor_view :
    (value : ℕ) (f : Frame) (s : Step) (s' : Outcome Machine)
    → seen s ≡ s'
    → seen (check_divisor value f s) ≡ check_divisor value f s'
check_divisor_view value f s s' h = elim (Bool-cases (value == 0)) [
  | inl z ↦ rw z refl
  | inr n ↦ rw n h
]

pub with_value_view :
    (o : Option ℕ) (k : ℕ → Step) (k' : ℕ → Outcome Machine)
    → ((v : ℕ) → seen (k v) ≡ k' v)
    → seen (with_value o k) ≡ with_value o k'
unfolding with_value
with_value_view none k k' h = refl
with_value_view (some v) k k' h = h v

pub check_array_view :
    (array idx : ℕ) (f : Frame) (s : Step) (s' : Outcome Machine)
    → seen s ≡ s'
    → seen (check_array array idx f s) ≡ check_array array idx f s'
check_array_view array idx f s s' h = elim (Bool-cases (array == 0)) [
  | inl z ↦ rw z refl
  | inr n ↦ elim (Bool-cases (out_of_bounds array idx f)) [
    | inl o ↦ rw (n, o) refl
    | inr i ↦ rw (n, i) h
  ]
]
