-- ===== src/Interp/Checks.antt =====
-- The tests of src/interp/engine/interp-indirect.h that throw, and a rule for each: what holds of an
-- exception in the frame and of the rest of the handler holds of the handler.
use jamiga_jamvm.Base.{ℕ, ◌≡◌, Bool, true, false, Bool-cases, inl, inr, ◌==◌, if◌then◌else◌}
use jamiga_jamvm.Interp.State.{Frame, Exception, Outcome, throw, out_of_bounds}
use jamiga_jamvm.Interp.Plain.{Machine, check_array, check_null, check_divisor}

module _ (P : Outcome Machine → Type 0) (f : Frame) (thrown : (e : Exception) → P (throw e f)) where
  pub if_throw_lem :
      (t : Bool) (e : Exception) (s : Outcome Machine) → P s → P (if t then throw e f else s)
  if_throw_lem true e s h = thrown e
  if_throw_lem false e s h = h

  pub check_null_lem : (ref : ℕ) (s : Outcome Machine) → P s → P (check_null ref f s)
  check_null_lem ref s h = if_throw_lem (ref == 0) _ s h

  pub check_divisor_lem :
      (value : ℕ) (s : Outcome Machine) → (value == 0 ≡ false → P s) → P (check_divisor value f s)
  check_divisor_lem value s h = elim (Bool-cases (value == 0)) [
    | inl z ↦ rw z (thrown _)
    | inr n ↦ rw n (h n)
  ]

  pub check_array_lem :
      (array idx : ℕ) (s : Outcome Machine)
      → (array == 0 ≡ false → out_of_bounds array idx f ≡ false → P s)
      → P (check_array array idx f s)
  check_array_lem array idx s h = elim (Bool-cases (array == 0)) [
    | inl z ↦ rw z (thrown _)
    | inr n ↦ elim (Bool-cases (out_of_bounds array idx f)) [
      | inl o ↦ rw (n, o) (thrown _)
      | inr i ↦ rw (n, i) (h n i)
    ]
  ]
