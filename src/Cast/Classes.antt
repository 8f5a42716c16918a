-- ===== src/Cast/Classes.antt =====
-- The class blocks that src/cast.c reads, and its tests along superclasses and interfaces.
use jamiga_jamvm.Base.{
  ℕ, zero, suc, Bool, true, false, bit, ◌==◌, if◌then◌else◌, ◌||◌, List, [], ◌∷◌,
}

-- What is read of a `ClassBlock`. Classes are named by their addresses, and 0 is NULL.
pub record ClassBlock : Type 0 where
  pub state : ℕ
  pub access_flags : ℕ
  pub super : ℕ
  pub interfaces : List ℕ
  pub dim : ℕ
  pub element_class : ℕ

-- IS_INTERFACE and IS_ARRAY.
abbrev pub is_interface : ClassBlock → Bool
is_interface cb = bit cb.access_flags 9

abbrev pub is_array : ClassBlock → Bool
is_array cb = cb.state == 6

-- The `for` of implements, with the recursive call.
abbrev pub any_interface : (ℕ → Bool) → ℕ → List ℕ → Bool
any_interface via class [] = false
any_interface via class (i ∷ is) = if class == i || via i then true else any_interface via class is

module _ (class_cb : ℕ → ClassBlock) where
  -- implements.
  unfoldable pub implements : ℕ → ℕ → ℕ → Bool
  implements zero class test = false
  implements (suc fuel) class test =
      let via = implements fuel class in
      let cb = class_cb test in
      if any_interface via class cb.interfaces
      then true
      else if cb.super == 0
      then false
      else via cb.super

  -- isSubClassOf.
  unfoldable pub is_sub_class_of : ℕ → ℕ → ℕ → Bool
  is_sub_class_of zero class test = false
  is_sub_class_of (suc fuel) class test =
      let rest = is_sub_class_of fuel class (class_cb test).super in
      if test == 0 then false else if test == class then true else rest
