-- ===== src/Interp/References.antt =====
-- The comparison of references in src/interp/engine/interp.c: IF_ACMPEQ and IF_ACMPNE are handled as
-- IF_ICMPEQ and IF_ICMPNE, and IFNULL and IFNONNULL as IFEQ and IFNE, which cast both slots to `int`.
use jamiga_jamvm.Base.{ℕ, ◌+◌, ◌*◌, ◌≡◌, refl, Bool, true, List, ◌∷◌, ◌==◌, arith}
use jamiga_jamvm.Interp.Words.{eq, ne, int_of, int_range}
use jamiga_jamvm.Interp.State.{if_acmp, if_null, Frame}
use jamiga_jamvm.Interp.Plain.{take, go, plain_step}

module _ (array_store_check : ℕ → ℕ → Bool) (junk : ℕ) where
  -- An object that lies a multiple of 4 GB above another compares as the same object: IF_ACMPEQ takes the
  -- branch and IF_ACMPNE does not. One at a multiple of 4 GB compares as null in the same way.
  pub if_acmp_far_apart :
      (ob k offset : ℕ) (ws : List ℕ) (f : Frame)
      → let far = ob + k * int_range in
        let far_null = k * int_range in
        (plain_step array_store_check junk (if_acmp eq offset) (ob ∷ far ∷ ws) f ≡ go ws offset f)
        × (plain_step array_store_check junk (if_acmp ne offset) (ob ∷ far ∷ ws) f ≡ go ws 3 f)
        × (plain_step array_store_check junk (if_null eq offset) (far_null ∷ ws) f ≡ go ws offset f)
        × (plain_step array_store_check junk (if_null ne offset) (far_null ∷ ws) f ≡ go ws 3 f)
  unfolding plain_step take
  if_acmp_far_apart ob k offset ws f =
      let same : (int_of (ob + k * int_range) == int_of ob) ≡ true = ground arith in
      let null : (int_of (k * int_range) == 0) ≡ true = ground arith in
      (rw same refl, rw same refl, rw null refl, rw null refl)
