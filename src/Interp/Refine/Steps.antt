-- ===== src/Interp/Refine/Steps.antt =====
-- Each cached handler of src/interp/engine/interp.c against the handler without a cache.
use jamiga_jamvm.Base.{ℕ, ◌+◌, ◌%◌, refl, Bool, [], ◌∷◌}
use jamiga_jamvm.Interp.Words.{long_range, negate, int_of, slot_of}
use jamiga_jamvm.Interp.State.{
  load_value, Insn, nop, push, load, store, binary, int_div, neg, shift, if_icmp, if_zero, iinc,
  pop, pop2, dup, dup_x1, dup_x2, dup2, dup2_x1, dup2_x2, swap, ireturn, lreturn, return_void,
  athrow, push_long, load_long, store_long, array_load, array_store, array_load_long,
  array_store_long, array_store_ref, array_length, long_binary, long_div, long_neg, long_shift, l2i,
  i2l, lcmp, int_cast, goto_offset, jsr, ret, tableswitch, lookupswitch, thrown, throw,
  return_words, set_lvar, table_target, lookup_target, if_acmp, if_null, unsigned_offset,
  get_element, element_width,
}
use jamiga_jamvm.Interp.Plain.{
  Machine, check_array, check_null, check_divisor, shift_slot, plain_step,
}
use jamiga_jamvm.Interp.Plain
use jamiga_jamvm.Interp.Cached.{
  Level, level_0, level_1, level_2, Regs, go, push_slot, push_long_slot, cached_step,
}
use jamiga_jamvm.Interp.Refine.{
  take_view, two_slots_view, pop_slot_view, unary_slot_view, push_view, go_view, fill_view,
  spilled_view, check_null_view, check_array_view,
}
use jamiga_jamvm.Interp.Refine.Slots.{
  Refines, go_frame_view, int_div_exact, pop2-Refines, if_zero-Refines, dup-Refines, dup_x2-Refines,
  dup2_x1-Refines, dup2_x2-Refines, if_null-Refines,
}
use jamiga_jamvm.Interp.Refine.Longs.{
  array_store-Refines, array_store_long-Refines, array_store_ref-Refines, long_binary-Refines,
  long_div-Refines, long_shift-Refines, lcmp-Refines,
}

module _ (c : ℕ → ℕ → Bool) where
  -- Every handler, at each level of the cache, does what the handler without a cache does on the operand
  -- stack with the cached slots on top: it dispatches with the same stack and frame, throws the same
  -- exception, or returns the same words. The second slot of a long that is pushed holds some word.
  pub cached_step-Refines : (i : Insn) (l : Level) (r : Regs) → Refines c i l r
  unfolding cached_step plain_step
  cached_step-Refines nop level_0 r = (0, refl)
  cached_step-Refines nop level_1 r = (0, refl)
  cached_step-Refines nop level_2 r = (0, refl)
  cached_step-Refines (push v n) l r = (0, push_view l v n r)
  cached_step-Refines (load i n) l r = (0, push_view l (r.frame.lvars i) n r)
  cached_step-Refines (store i n) l r = (
    0,
    pop_slot_view l r _ (λ w ws. Plain.go ws n (set_lvar i w r.frame))
        (λ w m ws. go_frame_view c m n (record r { ostack = ws }) (set_lvar i w r.frame)),
  )
  cached_step-Refines (binary op) l r = (0, two_slots_view l r _ _ (λ b a ws. refl))
  cached_step-Refines (int_div op) l r = (0, int_div_exact c op l r)
  cached_step-Refines neg l r = (0, unary_slot_view l r _ _ (λ w m ws. push_view m _ _ _))
  cached_step-Refines (shift op) l r = (0, two_slots_view l r _ _ (λ b a ws. refl))
  cached_step-Refines (if_icmp k offset) l r = (0, two_slots_view l r _ _ (λ b a ws. refl))
  cached_step-Refines (if_zero k offset) l r = if_zero-Refines c k offset l r
  cached_step-Refines (if_acmp k offset) l r = (0, two_slots_view l r _ _ (λ b a ws. refl))
  cached_step-Refines (if_null k offset) l r = if_null-Refines c k offset l r
  cached_step-Refines (iinc i delta) l r =
      (0, go_frame_view c l 3 r (set_lvar i ((r.frame.lvars i + delta) % long_range) r.frame))
  cached_step-Refines pop l r = (0, pop_slot_view l r _ _ (λ w m ws. go_view m _ _))
  cached_step-Refines pop2 l r = pop2-Refines c l r
  cached_step-Refines dup l r = dup-Refines c l r
  cached_step-Refines dup_x1 l r =
      fill_view l r _ (λ junk a b ws. Plain.go (a ∷ b ∷ a ∷ ws) 1 r.frame) (λ b a ws. (0, refl))
  cached_step-Refines dup_x2 l r = dup_x2-Refines c l r
  cached_step-Refines dup2 l r =
      fill_view l r _ (λ junk a b ws. Plain.go (a ∷ b ∷ a ∷ b ∷ ws) 1 r.frame) (λ b a ws. (0, refl))
  cached_step-Refines dup2_x1 l r = dup2_x1-Refines c l r
  cached_step-Refines dup2_x2 l r = dup2_x2-Refines c l r
  cached_step-Refines swap l r =
      fill_view l r _ (λ junk a b ws. Plain.go (b ∷ a ∷ ws) 1 r.frame) (λ b a ws. (0, refl))
  cached_step-Refines ireturn l r = (0, pop_slot_view l r _ _ (λ w m ws. refl))
  cached_step-Refines lreturn l r =
      fill_view l r _ (λ junk b a ws. return_words (a ∷ [])) (λ b a ws. (0, refl))
  cached_step-Refines return_void l r = (0, refl)
  cached_step-Refines athrow l r = (
    0,
    spilled_view l r (λ ob r. check_null ob r.frame (throw (thrown ob) r.frame)) _
        (λ w v ws. check_null_view w r.frame (throw (thrown w) r.frame) _ refl),
  )
  cached_step-Refines (push_long v n) level_0 r = (r.v2, refl)
  cached_step-Refines (push_long v n) level_1 r = (r.v2, refl)
  cached_step-Refines (push_long v n) level_2 r = (r.v2, refl)
  cached_step-Refines (load_long i n) level_0 r = (r.v2, refl)
  cached_step-Refines (load_long i n) level_1 r = (r.v2, refl)
  cached_step-Refines (load_long i n) level_2 r = (r.v2, refl)
  cached_step-Refines (store_long i n) l r =
      fill_view l r _ (λ junk b a ws. Plain.go ws n (set_lvar i a r.frame)) (λ b a ws. (0, refl))
  cached_step-Refines (array_load ty) l r =
      fill_view l r _
        (λ junk idx array ws. check_array array (int_of idx) r.frame (
          Plain.go (load_value ty (get_element (element_width ty) array (int_of idx) r.frame) ∷ ws)
            1 r.frame))
        (λ b a ws. (0, check_array_view a (int_of b) r.frame _ _ refl))
  cached_step-Refines array_load_long l r =
      fill_view l r _
        (λ junk idx array ws.
          check_array array (int_of idx) r.frame
            (Plain.go (junk ∷ get_element 8 array (int_of idx) r.frame ∷ ws) 1 r.frame))
        (λ b a ws. (b, check_array_view a (int_of b) r.frame _ _ refl))
  cached_step-Refines (array_store ty) l r = array_store-Refines c ty l r
  cached_step-Refines array_store_long l r = array_store_long-Refines c l r
  cached_step-Refines array_store_ref l r = array_store_ref-Refines c l r
  cached_step-Refines array_length l r = (
    0,
    spilled_view l r
        (λ array r. check_null array r.frame (push_slot level_0 (r.frame.array_len array) 1 r))
        (λ w ws. check_null w r.frame (Plain.go (r.frame.array_len w ∷ ws) 1 r.frame))
        (λ w v ws.
          check_null_view w r.frame
            (push_slot level_0 (r.frame.array_len w) 1 (record r { ostack = ws; v1 = v })) _ refl),
  )
  cached_step-Refines (long_binary op) l r = long_binary-Refines c op l r
  cached_step-Refines (long_div op) l r = long_div-Refines c op l r
  cached_step-Refines long_neg l r =
      fill_view l r _ (λ junk _ a ws. Plain.go (junk ∷ negate long_range a ∷ ws) 1 r.frame)
        (λ b a ws. (b, refl))
  cached_step-Refines (long_shift op) l r = long_shift-Refines c op l r
  cached_step-Refines l2i l r =
      fill_view l r _ (λ junk _ a ws. Plain.go (slot_of a ∷ ws) 1 r.frame) (λ b a ws. (0, refl))
  cached_step-Refines i2l level_0 r =
      (r.v2, take_view r (λ a r. push_long_slot (slot_of a) 1 r) _ (λ w ws. refl))
  cached_step-Refines i2l level_1 r = (r.v2, refl)
  cached_step-Refines i2l level_2 r = (r.v2, refl)
  cached_step-Refines lcmp l r = lcmp-Refines c l r
  cached_step-Refines (int_cast ty) l r =
      (0, spilled_view l r (λ a r. push_slot level_0 (load_value ty a) 1 r) _ (λ w v ws. refl))
  cached_step-Refines (goto_offset offset) level_0 r = (0, refl)
  cached_step-Refines (goto_offset offset) level_1 r = (0, refl)
  cached_step-Refines (goto_offset offset) level_2 r = (0, refl)
  cached_step-Refines (jsr offset) level_0 r = (0, refl)
  cached_step-Refines (jsr offset) level_1 r = (0, refl)
  cached_step-Refines (jsr offset) level_2 r = (0, refl)
  cached_step-Refines (ret i) level_0 r = (0, refl)
  cached_step-Refines (ret i) level_1 r = (0, refl)
  cached_step-Refines (ret i) level_2 r = (0, refl)
  cached_step-Refines (tableswitch low high deflt entries) l r = (
    0,
    spilled_view l r
        (λ index r.
          go level_0 (unsigned_offset (table_target low high deflt entries (int_of index))) r)
        _ (λ w v ws. refl),
  )
  cached_step-Refines (lookupswitch deflt pairs) l r = (
    0,
    spilled_view l r
        (λ key r. go level_0 (unsigned_offset (lookup_target deflt pairs (int_of key))) r) _
        (λ w v ws. refl),
  )
