-- ===== src/Excep/Tests.antt =====
-- The theorems on src/excep.c for three frames and small tables.
use jamiga_jamvm.Base.{
  ℕ, ◌+◌, ◌≡◌, refl, inl, inr, arith, Bool, true, false, ◌==◌, if◌then◌else◌, List, [], ◌∷◌, Option,
  none, some,
}
use jamiga_jamvm.Excep.Handlers.{ExceptionTableEntry, MethodBlock, Frame, find_catch_block}
use jamiga_jamvm.Excep.Search.{Catches, find_catch_block_unlocks}
use jamiga_jamvm.Excep.Lines.{LineNoTableEntry}

-- Class 3 of the pool does not resolve; the exception's class is 40.
abbrev resolve : ℕ → ℕ → Option ℕ
resolve class index = if index == 3 then none else some (index + 30)

abbrev instance_of : ℕ → ℕ → Bool
instance_of class exception = class == exception

abbrev unresolved : ExceptionTableEntry
unresolved = record { start_pc = 0; end_pc = 20; handler_pc = 50; catch_type = 3 }

abbrev catching : ExceptionTableEntry
catching = record { start_pc = 5; end_pc = 9; handler_pc = 60; catch_type = 10 }

abbrev method : List ExceptionTableEntry → MethodBlock
method table = record {
  code = 1000;
  class = 7;
  is_synchronized = true;
  is_static = false;
  exception_table = table;
}

abbrev frame : List ExceptionTableEntry → ℕ → Frame
frame table this = record { mb = method table; last_pc = 6; this = this }

unresolved-passed :
    ¬ (Catches resolve instance_of 40 (frame (unresolved ∷ catching ∷ []) 503) unresolved)
unresolved-passed h = elim h.of_class [
  | inl z ↦ omega (arith, z)
  | inr (c, r, i) ↦ absurd (ground (arith, r))
]

find_catch_block_unlocks_example :
    let f = frame (unresolved ∷ catching ∷ []) 503 in
    let c = find_catch_block resolve instance_of 40 (frame [] 501) (frame [] 502 ∷ f ∷ []) in
    (c.handler_pc ≡ some 1060) × (c.unlocked ≡ 501 ∷ 502 ∷ []) × (c.frames ≡ f ∷ [])
find_catch_block_unlocks_example =
    find_catch_block_unlocks resolve instance_of 40 (frame [] 501) (frame [] 502 ∷ [])
      (frame (unresolved ∷ catching ∷ []) 503) [] (unresolved ∷ []) [] catching (tt, (tt, tt)) refl
      (unresolved-passed, tt)
      (record { from = omega arith; to = omega arith; of_class = inr (40, refl, refl) })

abbrev lines : ℕ → LineNoTableEntry
lines i = record { start_pc = i + i; line_no = 100 + i }
