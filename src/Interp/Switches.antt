-- ===== src/Interp/Switches.antt =====
-- The offsets of tableswitch and lookupswitch in src/interp/engine/interp.c, without DIRECT:
-- `(test) ? deflt : ntohl(...)` is an unsigned int in C, whatever the sign of the offset.
use jamiga_jamvm.Base.{ℕ, ◌+◌, ◌%◌, ◌≡◌, ◌≢◌, refl, ltb, Bool, true, List, ◌∷◌, arith}
use jamiga_jamvm.Interp.Words.{int_range, long_range, int_of, slot_of, is_negative}
use jamiga_jamvm.Interp.State.{
  tableswitch, lookupswitch, table_target, lookup_target, Frame, dispatch, unsigned_offset,
}
use jamiga_jamvm.Interp.Plain.{Machine, take, plain_step}

-- An offset that stands for a negative int, added to a pc with the sign and without.
sign_lost :
    (pc offset : ℕ)
    → is_negative int_range offset ≡ true
    → ltb offset int_range ≡ true
    → (pc + unsigned_offset offset) % long_range ≢ (pc + slot_of offset) % long_range
sign_lost pc offset n l e = ground (arith, n, l, e)

module _ (array_store_check : ℕ → ℕ → Bool) (junk : ℕ) where
  -- A tableswitch and a lookupswitch whose selected offset, an int, is negative dispatch to another pc than
  -- their own plus that offset.
  pub switch_backwards :
      (low high deflt : ℕ) (entries : List ℕ) (pairs : List (ℕ × ℕ)) (key : ℕ) (ws : List ℕ)
      (f : Frame)
      → is_negative int_range (table_target low high deflt entries (int_of key)) ≡ true
      → ltb (table_target low high deflt entries (int_of key)) int_range ≡ true
      → is_negative int_range (lookup_target deflt pairs (int_of key)) ≡ true
      → ltb (lookup_target deflt pairs (int_of key)) int_range ≡ true
      → (m : Machine) × (n : Machine) × (plain_step array_store_check junk
            (tableswitch low high deflt entries)
            (key ∷ ws)
            f
          ≡ dispatch m)
        × (m.frame.pc
            ≢ (f.pc + slot_of (table_target low high deflt entries (int_of key))) % long_range)
        × (plain_step array_store_check junk (lookupswitch deflt pairs) (key ∷ ws) f ≡ dispatch n)
        × (n.frame.pc ≢ (f.pc + slot_of (lookup_target deflt pairs (int_of key))) % long_range)
  unfolding plain_step take
  switch_backwards low high deflt entries pairs key ws f n l n' l' = (
    _,
    _,
    refl,
    sign_lost f.pc (table_target low high deflt entries (int_of key)) n l,
    refl,
    sign_lost f.pc (lookup_target deflt pairs (int_of key)) n' l',
  )
