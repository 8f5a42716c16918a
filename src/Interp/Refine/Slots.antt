-- ===== src/Interp/Refine/Slots.antt =====
-- The cached handlers of src/interp/engine/interp.c that move and divide slots, against those without a
-- cache.
use jamiga_jamvm.Base.{ℕ, ◌≡◌, refl, ◌∙◌, Bool, List, [], ◌∷◌, List-cases, inl, inr}
use jamiga_jamvm.Interp.Words.{DivOp, Cond, int_range, checked_div, int_of, slot_of}
use jamiga_jamvm.Interp.State.{
  Insn, int_div, if_zero, pop2, dup, dup_x2, dup2_x1, dup2_x2, Frame, if_null, with_value,
}
use jamiga_jamvm.Interp.Plain.{
  Machine, check_array, check_null, check_divisor, shift_slot, plain_step,
}
use jamiga_jamvm.Interp.Plain
use jamiga_jamvm.Interp.Cached.{
  Level, level_0, level_1, level_2, Regs, take, go, push_slot, two_slots, pop_two, if_slot,
  dup_slot, cached_step,
}
use jamiga_jamvm.Interp.Refine.{
  stack_of, seen, Matches, two_slots_view, top_slot_view, fill_view, check_divisor_view,
  with_value_view,
}

module _ (c : ℕ → ℕ → Bool) where
  -- The same result, for some content of the second slot of a long that is pushed.
  abbrev pub Refines : Insn → Level → Regs → Type 0
  Refines i l r =
      Matches (cached_step c i l r) (λ (junk : ℕ). plain_step c junk i (stack_of l r) r.frame)

  pub go_frame_view :
      (l : Level) (n : ℕ) (r : Regs) (f : Frame)
      → seen (go l n (record r { frame = f })) ≡ Plain.go (stack_of l r) n f
  go_frame_view level_0 n r f = refl
  go_frame_view level_1 n r f = refl
  go_frame_view level_2 n r f = refl

  pub int_div_exact :
      (op : DivOp) (l : Level) (r : Regs)
      → seen (cached_step c (int_div op) l r) ≡ plain_step c 0 (int_div op) (stack_of l r) r.frame
  unfolding cached_step plain_step Plain.take
  int_div_exact op l r =
      top_slot_view l r _ _ λ b rest e. check_divisor_view (int_of b) r.frame _ _ (div_at b rest e)
    where
      div_at :
          (b : ℕ) (rest : List ℕ)
          → stack_of l r ≡ b ∷ rest
          → seen (
              two_slots l r λ a d r.
                with_value
                  (checked_div int_range op (int_of a) (int_of d))
                  λ v. push_slot level_0 (slot_of v) 1 r)
            ≡ Plain.take rest λ a ws.
              with_value
                (checked_div int_range op (int_of a) (int_of b))
                λ v. Plain.go (slot_of v ∷ ws) 1 r.frame
      div_at b rest e =
          two_slots_view l r _
            (λ d a ws.
              with_value (checked_div int_range op (int_of a) (int_of d))
                λ v. Plain.go (slot_of v ∷ ws) 1 r.frame)
            (λ d a ws.
              with_value_view (checked_div int_range op (int_of a) (int_of d))
                (λ v. push_slot level_0 (slot_of v) 1 (record r { ostack = ws })) _ (λ v. refl))
          ∙ rw e refl

  pub pop2-Refines : (l : Level) (r : Regs) → Refines pop2 l r
  unfolding cached_step plain_step pop_two take Plain.take
  pop2-Refines level_2 r = (0, refl)
  pop2-Refines level_1 r = elim (List-cases r.ostack) [
    | inl e ↦ (0, rw e refl)
    | inr (w, ws, e) ↦ (0, rw e refl)
  ]
  pop2-Refines level_0 r = elim (List-cases r.ostack) [
    | inl e ↦ (0, rw e refl)
    | inr (w, [], e) ↦ (0, rw e refl)
    | inr (w, v ∷ ws, e) ↦ (0, rw e refl)
  ]

  pub if_zero-Refines :
      (k : Cond) (offset : ℕ) (l : Level) (r : Regs) → Refines (if_zero k offset) l r
  unfolding cached_step plain_step if_slot take Plain.take
  if_zero-Refines k offset level_2 r = (0, refl)
  if_zero-Refines k offset level_1 r = (0, refl)
  if_zero-Refines k offset level_0 r = elim (List-cases r.ostack) [
    | inl e ↦ (0, rw e refl)
    | inr (w, ws, e) ↦ (0, rw e refl)
  ]

  pub if_null-Refines :
      (k : Cond) (offset : ℕ) (l : Level) (r : Regs) → Refines (if_null k offset) l r
  unfolding cached_step plain_step if_slot take Plain.take
  if_null-Refines k offset level_2 r = (0, refl)
  if_null-Refines k offset level_1 r = (0, refl)
  if_null-Refines k offset level_0 r = elim (List-cases r.ostack) [
    | inl e ↦ (0, rw e refl)
    | inr (w, ws, e) ↦ (0, rw e refl)
  ]

  pub dup-Refines : (l : Level) (r : Regs) → Refines dup l r
  unfolding cached_step plain_step dup_slot take Plain.take
  dup-Refines level_2 r = (0, refl)
  dup-Refines level_1 r = (0, refl)
  dup-Refines level_0 r = elim (List-cases r.ostack) [
    | inl e ↦ (0, rw e refl)
    | inr (w, ws, e) ↦ (0, rw e refl)
  ]

  pub dup_x2-Refines : (l : Level) (r : Regs) → Refines dup_x2 l r
  unfolding cached_step plain_step take Plain.take
  dup_x2-Refines l r =
      fill_view l r _
        (λ junk a b ws. Plain.take ws λ d rest. Plain.go (a ∷ b ∷ d ∷ a ∷ rest) 1 r.frame)
        (λ b a ws. elim (List-cases ws) [
          | inl e ↦ (0, rw e refl)
          | inr (w, vs, e) ↦ (0, rw e refl)
        ])

  pub dup2_x1-Refines : (l : Level) (r : Regs) → Refines dup2_x1 l r
  unfolding cached_step plain_step take Plain.take
  dup2_x1-Refines l r =
      fill_view l r _
        (λ junk a b ws. Plain.take ws λ d rest. Plain.go (a ∷ b ∷ d ∷ a ∷ b ∷ rest) 1 r.frame)
        (λ b a ws. elim (List-cases ws) [
          | inl e ↦ (0, rw e refl)
          | inr (w, vs, e) ↦ (0, rw e refl)
        ])

  pub dup2_x2-Refines : (l : Level) (r : Regs) → Refines dup2_x2 l r
  unfolding cached_step plain_step take Plain.take
  dup2_x2-Refines l r =
      fill_view l r _
        (λ junk a b ws.
          Plain.take ws
            λ d rest. Plain.take rest λ e rest. Plain.go (a ∷ b ∷ d ∷ e ∷ a ∷ b ∷ rest) 1 r.frame)
        (λ b a ws. elim (List-cases ws) [
          | inl e ↦ (0, rw e refl)
          | inr (w, [], e) ↦ (0, rw e refl)
          | inr (w, w' ∷ vs, e) ↦ (0, rw e refl)
        ])
