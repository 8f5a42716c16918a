-- ===== src/Access/Check.antt =====
-- isSameRuntimePackage and the access checks of src/access.c. classlibAccessCheck and isSubClassOf are
-- parameters. A name is the bytes before its terminator.
use jamiga_jamvm.Base.{ℕ, Bool, true, false, bit, ◌==◌, if◌then◌else◌, ◌&&◌, not, List, [], ◌∷◌}

-- What is read of a class block.
pub record ClassBlock : Type 0 where
  pub access_flags : ℕ
  pub class_loader : ℕ
  pub is_array : Bool
  pub element_class : ℕ
  pub name : List ℕ

-- `*ptr == '/'` somewhere from `ptr` on.
abbrev pub has_slash : List ℕ → Bool
has_slash [] = false
has_slash (c ∷ p) = if c == 0x2f then true else has_slash p

-- The comparison of two different names: both are followed up to where they differ, and neither has a
-- slash from there on.
abbrev pub is_same_package : List ℕ → List ℕ → Bool
is_same_package (c ∷ p) (d ∷ q) =
    if c == d then is_same_package p q else not (has_slash (c ∷ p)) && not (has_slash (d ∷ q))
is_same_package p q = not (has_slash p) && not (has_slash q)

module _ (class_cb : ℕ → ClassBlock) where
  -- The class whose name is compared.
  abbrev pub named_class : ℕ → ℕ
  named_class c = if (class_cb c).is_array then (class_cb c).element_class else c

  -- isSameRuntimePackage.
  unfoldable pub is_same_runtime_package : ℕ → ℕ → Bool
  is_same_runtime_package class1 class2 =
      if class1 == class2
      then true
      else if not ((class_cb class1).class_loader == (class_cb class2).class_loader)
      then false
      else if named_class class1 == named_class class2
      then true
      else is_same_package (class_cb (named_class class1)).name (class_cb (named_class class2)).name

  module _ (classlib_access_check is_sub_class_of : ℕ → ℕ → Bool) where
    -- checkClassAccess.
    unfoldable pub check_class_access : ℕ → ℕ → Bool
    unfolding is_same_runtime_package
    check_class_access class1 class2 =
        if bit (class_cb class1).access_flags 0
        then true
        else if classlib_access_check class1 class2
        then true
        else is_same_runtime_package class1 class2

    -- checkMethodOrFieldAccess.
    unfoldable pub check_method_or_field_access : ℕ → ℕ → ℕ → Bool
    unfolding is_same_runtime_package
    check_method_or_field_access access_flags decl_class class =
        if bit access_flags 0
        then true
        else if classlib_access_check decl_class class
        then true
        else if bit access_flags 1
        then decl_class == class
        else if bit access_flags 2 && is_sub_class_of decl_class class
        then true
        else is_same_runtime_package decl_class class
