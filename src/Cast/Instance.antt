-- ===== src/Cast/Instance.antt =====
-- isInstanceOf, its array cases and arrayStoreCheck of src/cast.c.
use jamiga_jamvm.Base.{ℕ, zero, suc, ◌+◌, Bool, true, false, ltb, ◌==◌, if◌then◌else◌}
use jamiga_jamvm.Cast.Classes.{ClassBlock, is_interface, is_array, implements, is_sub_class_of}

-- `fuel` is for the walks along superclasses and interfaces, `nested` for isInstanceOf and isInstOfArray0
-- calling each other.
module _ (class_cb : ℕ → ClassBlock) (fuel : ℕ) where
  unfoldable mutual
    unfolding implements is_sub_class_of

    -- isInstOfArray0.
    pub is_inst_of_array0 : ℕ → ℕ → ℕ → ℕ → Bool
    is_inst_of_array0 zero array_class test_elem test_dim = false
    is_inst_of_array0 (suc nested) array_class test_elem test_dim =
        let array_cb = class_cb array_class in
        let array_elem = array_cb.element_class in
        let same_dim = is_instance_of nested array_elem test_elem in
        if test_dim == array_cb.dim
        then same_dim
        else if ltb array_cb.dim test_dim
        then if is_interface (class_cb array_elem)
          then implements class_cb fuel array_elem array_class
          else array_elem == array_cb.super
        else false

    -- isInstOfArray.
    pub is_inst_of_array : ℕ → ℕ → ℕ → Bool
    is_inst_of_array zero class test = false
    is_inst_of_array (suc nested) class test =
        let test_cb = class_cb test in
        let array = is_inst_of_array0 nested class test_cb.element_class test_cb.dim in
        if is_array (class_cb class) then array else class == test_cb.super

    -- isInstanceOf.
    pub is_instance_of : ℕ → ℕ → ℕ → Bool
    is_instance_of zero class test = false
    is_instance_of (suc nested) class test =
        let array = is_inst_of_array nested class test in
        if class == test
        then true
        else if is_interface (class_cb class)
        then implements class_cb fuel class test
        else if is_array (class_cb test)
        then array
        else is_sub_class_of class_cb fuel class test

  -- arrayStoreCheck.
  unfoldable pub array_store_check : ℕ → ℕ → ℕ → Bool
  unfolding is_inst_of_array0
  array_store_check nested array_class test =
      let test_cb = class_cb test in
      if is_array test_cb
      then is_inst_of_array0 nested array_class test_cb.element_class (test_cb.dim + 1)
      else is_inst_of_array0 nested array_class test 1
