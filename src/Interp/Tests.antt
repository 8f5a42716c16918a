-- ===== src/Interp/Tests.antt =====
-- Runs of opcodes, and what the theorems say of them.
use jamiga_jamvm.Base.{
  ℕ, ◌+◌, ◌-◌, ◌*◌, ◌%◌, ◌^◌, ◌≡◌, refl, Bool, true, List, [], ◌∷◌, length, ◌==◌, not, ◌&&◌,
  if◌then◌else◌, arith, ◌≢◌, some,
}
use jamiga_jamvm.Interp.Words.{
  eq, ne, sub, quotient, remainder, int_range, long_range, is_negative, magnitude, checked_div,
  slot_of,
}
use jamiga_jamvm.Interp.State.{
  Insn, push, load, binary, dup, ireturn, push_long, l2i, lookupswitch, tableswitch, array_store,
  byte_elem, Frame, return_words, if_acmp, if_null, dispatch,
}
use jamiga_jamvm.Interp.Plain.{go, plain_step, Machine}
use jamiga_jamvm.Interp.Cached.{level_2, Regs, cached_step}
use jamiga_jamvm.Interp.Refine.{stack_of, seen}
use jamiga_jamvm.Interp.Run.{cached_run, plain_run, cached_run-plain_run}
use jamiga_jamvm.Interp.Effect.{LeavesSlots}
use jamiga_jamvm.Interp.Effect.Opcodes.{plain_step-LeavesSlots}
use jamiga_jamvm.Interp.Arrays.{LeavesElement, plain_step-LeavesElement}
use jamiga_jamvm.Interp.Division.{checked_div_lem}
use jamiga_jamvm.Interp.References.{if_acmp_far_apart}
use jamiga_jamvm.Interp.Switches.{switch_backwards}

-- A frame with an array of four elements at 1024.
abbrev frame : Frame
frame = record {
  pc = 0;
  lvars = λ i. i + 7;
  array_len = λ a. if a == 1024 then 4 else 0;
  array_data = λ a i. 0;
}

abbrev any_store : ℕ → ℕ → Bool
any_store array obj = true

-- 7 - 3, doubled as a long.
abbrev code : ℕ → Insn
code pc =
    if pc == 0
    then load 0 1
    else if pc == 1
    then push 3 1
    else if pc == 2
    then binary sub
    else if pc == 3
    then dup
    else if pc == 4
    then push_long 5 3
    else if pc == 7
    then l2i
    else ireturn

abbrev regs : Regs
regs = record { ostack = 9 ∷ []; v1 = 1; v2 = 2; frame = frame }

run_example : cached_run any_store code 7 level_2 regs ≡ return_words (5 ∷ [])
unfolding cached_run cached_step
run_example = refl

cached_run-plain_run_example :
    (junks : List ℕ) × (length junks ≡ 5)
    × (seen (cached_run any_store code 5 level_2 regs)
        ≡ plain_run any_store code junks (stack_of level_2 regs) frame)
cached_run-plain_run_example = cached_run-plain_run any_store code 5 level_2 regs

plain_step-LeavesSlots_example :
    LeavesSlots 1 (8 ∷ []) (plain_step any_store 0 (binary sub) (3 ∷ 7 ∷ 8 ∷ []) frame)
plain_step-LeavesSlots_example =
    plain_step-LeavesSlots any_store 0 (binary sub) (3 ∷ 7 ∷ 8 ∷ []) frame refl

-- The index -1.
plain_step-LeavesElement_example :
    LeavesElement 1024 5 frame
      (plain_step any_store 0 (array_store byte_elem) (3 ∷ (long_range - 1) ∷ 1024 ∷ []) frame)
plain_step-LeavesElement_example =
    plain_step-LeavesElement 1024 5 frame any_store 0 (array_store byte_elem)
      (3 ∷ (long_range - 1) ∷ 1024 ∷ []) refl

-- The least int by -1.
checked_div_lem_example :
    let b = int_range - 1 in
    (q : ℕ) × (r : ℕ) × (checked_div int_range quotient (2 ^ 31) b ≡ some q)
    × (checked_div int_range remainder (2 ^ 31) b ≡ some r)
    × ((q * b + r) % int_range ≡ 2 ^ 31)
    × (magnitude int_range q ≡ 2 ^ 31)
    × (is_negative int_range q ≡ true)
    × (magnitude int_range r ≡ 0)
    × (is_negative int_range r ≡ (true && not (r == 0)))
checked_div_lem_example =
    checked_div_lem int_range (2 ^ 31) (int_range - 1) (omega arith) (omega arith) (omega arith)
      refl

-- Two references 4 GB apart, and one at 4 GB.
if_acmp_far_apart_example :
    (plain_step any_store 0 (if_acmp eq 20) (1024 ∷ (int_range + 1024) ∷ []) frame ≡ go [] 20 frame)
    × (plain_step any_store 0 (if_acmp ne 20) (1024 ∷ (int_range + 1024) ∷ []) frame
        ≡ go [] 3 frame)
    × (plain_step any_store 0 (if_null eq 20) (int_range ∷ []) frame ≡ go [] 20 frame)
    × (plain_step any_store 0 (if_null ne 20) (int_range ∷ []) frame ≡ go [] 3 frame)
if_acmp_far_apart_example = if_acmp_far_apart any_store 0 1024 1 20 [] frame

-- A jump back by 16 bytes.
switch_backwards_example :
    (m : Machine) × (n : Machine) × (plain_step any_store 0
        (tableswitch 0 1 (int_range - 16) (20 ∷ 24 ∷ []))
        (5 ∷ [])
        frame
      ≡ dispatch m)
    × (m.frame.pc ≢ (frame.pc + slot_of (int_range - 16)) % long_range)
    × (plain_step any_store 0 (lookupswitch (int_range - 16) []) (5 ∷ []) frame ≡ dispatch n)
    × (n.frame.pc ≢ (frame.pc + slot_of (int_range - 16)) % long_range)
switch_backwards_example =
    switch_backwards any_store 0 0 1 (int_range - 16) (20 ∷ 24 ∷ []) [] 5 [] frame refl refl refl
      refl
