-- ===== src/Interp/Refine/Longs.antt =====
-- The cached handlers of src/interp/engine/interp.c that store in arrays and work on longs, against those
-- without a cache.
use jamiga_jamvm.Base.{
  ℕ, ◌%◌, ◌≡◌, refl, Bool, ◌&&◌, not, [], ◌∷◌, ◌==◌, if◌then◌else◌, Bool-cases, List-cases, inl,
  inr,
}
use jamiga_jamvm.Interp.Words.{
  BinaryOp, DivOp, ShiftOp, long_range, binary_value, checked_div, shift_value, int_of,
}
use jamiga_jamvm.Interp.State.{
  ElemType, store_bits, array_store, array_store_long, array_store_ref, long_binary, long_div,
  long_shift, lcmp, array_store_exception, throw, set_element, lcmp_value, with_value,
  element_width,
}
use jamiga_jamvm.Interp.Plain.{
  Machine, check_array, check_null, check_divisor, shift_slot, plain_step,
}
use jamiga_jamvm.Interp.Plain
use jamiga_jamvm.Interp.Cached.{Level, level_0, Regs, take, go, cached_step, level_2}
use jamiga_jamvm.Interp.Refine.{
  seen, fill_view, check_divisor_view, check_array_view, with_value_view,
}
use jamiga_jamvm.Interp.Refine.Slots.{Refines}

module _ (c : ℕ → ℕ → Bool) where
  array_store_ref_view :
      (array v idx : ℕ) (r : Regs)
      → seen (
          if not (v == 0) && not (c array v)
          then throw array_store_exception r.frame
          else go level_0 1 (record r { frame = set_element 8 array (int_of idx) v r.frame }))
        ≡ (if not (v == 0) && not (c array v)
            then throw array_store_exception r.frame
            else Plain.go r.ostack 1 (set_element 8 array (int_of idx) v r.frame))
  array_store_ref_view array v idx r = elim (Bool-cases (not (v == 0) && not (c array v))) [
    | inl z ↦ rw z refl
    | inr n ↦ rw n refl
  ]

  pub array_store-Refines : (ty : ElemType) (l : Level) (r : Regs) → Refines c (array_store ty) l r
  unfolding cached_step plain_step take Plain.take
  array_store-Refines ty l r =
      fill_view l r _
        (λ junk v idx ws. Plain.take ws λ array rest. check_array array (int_of idx) r.frame (
          Plain.go rest 1
            (set_element (element_width ty) array (int_of idx) (store_bits ty v) r.frame)))
        (λ b a ws. elim (List-cases ws) [
          | inl e ↦ (0, rw e refl)
          | inr (w, vs, e) ↦ (0, rw e (check_array_view w (int_of a) r.frame _ _ refl))
        ])

  pub array_store_long-Refines : (l : Level) (r : Regs) → Refines c array_store_long l r
  unfolding cached_step plain_step take Plain.take
  array_store_long-Refines l r =
      fill_view l r _
        (λ junk b v ws. Plain.take ws λ idx rest. Plain.take rest λ array rest.
          check_array array (int_of idx) r.frame
            (Plain.go rest 1 (set_element 8 array (int_of idx) v r.frame)))
        (λ b a ws. elim (List-cases ws) [
          | inl e ↦ (0, rw e refl)
          | inr (w, [], e) ↦ (0, rw e refl)
          | inr (w, w' ∷ vs, e) ↦ (0, rw e (check_array_view w' (int_of w) r.frame _ _ refl))
        ])

  pub array_store_ref-Refines : (l : Level) (r : Regs) → Refines c array_store_ref l r
  unfolding cached_step plain_step take Plain.take
  array_store_ref-Refines l r =
      fill_view l r _
        (λ junk v idx ws. Plain.take ws λ array rest. check_array array (int_of idx) r.frame (
          if not (v == 0) && not (c array v)
          then throw array_store_exception r.frame
          else Plain.go rest 1 (set_element 8 array (int_of idx) v r.frame)))
        (λ b a ws. elim (List-cases ws) [
          | inl e ↦ (0, rw e refl)
          | inr (w, vs, e) ↦ (
            0,
            rw e (
                check_array_view w (int_of a) r.frame _ _
                  (array_store_ref_view w b a (record r { ostack = vs; v1 = a; v2 = b }))),
          )
        ])

  pub long_binary-Refines : (op : BinaryOp) (l : Level) (r : Regs) → Refines c (long_binary op) l r
  unfolding cached_step plain_step take Plain.take
  long_binary-Refines op l r =
      fill_view l r _
        (λ junk _ b ws. Plain.take ws λ _ rest.
          Plain.take rest
            λ a rest. Plain.go (junk ∷ binary_value long_range op a b ∷ rest) 1 r.frame)
        (λ b a ws. elim (List-cases ws) [
          | inl e ↦ (0, rw e refl)
          | inr (w, [], e) ↦ (0, rw e refl)
          | inr (w, w' ∷ vs, e) ↦ (b, rw e refl)
        ])

  pub long_div-Refines : (op : DivOp) (l : Level) (r : Regs) → Refines c (long_div op) l r
  unfolding cached_step plain_step take Plain.take
  long_div-Refines op l r =
      fill_view l r _
        (λ junk _ b ws. check_divisor b r.frame (
          Plain.take ws λ _ rest. Plain.take rest λ a rest.
            with_value (checked_div long_range op a b) λ v. Plain.go (junk ∷ v ∷ rest) 1 r.frame))
        (λ b a ws. elim (List-cases ws) [
          | inl e ↦ (0, rw e (check_divisor_view a r.frame _ _ refl))
          | inr (w, [], e) ↦ (0, rw e (check_divisor_view a r.frame _ _ refl))
          | inr (w, w' ∷ vs, e) ↦ (
            b,
            rw e (
                check_divisor_view a r.frame _ _ (
                  with_value_view (checked_div long_range op w' a)
                    (λ v. go level_2 1 (record r { ostack = vs; v1 = v; v2 = b })) _ (λ v. refl))),
          )
        ])

  pub long_shift-Refines : (op : ShiftOp) (l : Level) (r : Regs) → Refines c (long_shift op) l r
  unfolding cached_step plain_step take Plain.take
  long_shift-Refines op l r =
      fill_view l r _
        (λ junk n _ ws.
          Plain.take ws
            λ a rest. Plain.go (junk ∷ shift_value long_range op a (n % 64) ∷ rest) 1 r.frame)
        (λ b a ws. elim (List-cases ws) [
          | inl e ↦ (0, rw e refl)
          | inr (w, vs, e) ↦ (a, rw e refl)
        ])

  pub lcmp-Refines : (l : Level) (r : Regs) → Refines c lcmp l r
  unfolding cached_step plain_step take Plain.take
  lcmp-Refines l r =
      fill_view l r _
        (λ junk _ b ws.
          Plain.take ws
            λ _ rest. Plain.take rest λ a rest. Plain.go (lcmp_value a b ∷ rest) 1 r.frame)
        (λ b a ws. elim (List-cases ws) [
          | inl e ↦ (0, rw e refl)
          | inr (w, [], e) ↦ (0, rw e refl)
          | inr (w, w' ∷ vs, e) ↦ (0, rw e refl)
        ])
