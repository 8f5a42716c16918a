-- ===== src/Cast/Tests.antt =====
-- The theorems on src/cast.c for a small hierarchy: Object (1), the interface Cloneable (2), a class A (3), its
-- subclass B (4), and the array classes of A (5), of A[] (6) and of B (7).
use jamiga_jamvm.Base.{
  ℕ, ◌≤◌, ◌≡◌, ◌⊎◌, ◌↔◌, inl, inr, refl, true, arith, ◌==◌, if◌then◌else◌, List, [], ◌∷◌,
}
use jamiga_jamvm.Cast.Classes.{ClassBlock, implements, is_sub_class_of}
use jamiga_jamvm.Cast.Instance.{is_instance_of, array_store_check}
use jamiga_jamvm.Cast.Hierarchy.{
  IsSubclass, IsListed, here, there, Implements, IsRanked, is_sub_class_of-IsSubclass,
  implements-Implements,
}
use jamiga_jamvm.Cast.Arrays.{HasArrays, IsArrayOf, array_store_check-is_instance_of}

abbrev block : ℕ → ℕ → List ℕ → ClassBlock
block super flags interfaces = record {
  state = 5;
  access_flags = flags;
  super = super;
  interfaces = interfaces;
  dim = 0;
  element_class = 0;
}

abbrev array_block : ℕ → ℕ → ClassBlock
array_block dim element = record {
  state = 6;
  access_flags = 0;
  super = 1;
  interfaces = 2 ∷ [];
  dim = dim;
  element_class = element;
}

abbrev classes : ℕ → ClassBlock
classes c =
    if c == 2
    then block 1 0x200 []
    else if c == 3
    then block 1 0 (2 ∷ [])
    else if c == 4
    then block 3 0 []
    else if c == 5
    then array_block 1 3
    else if c == 6
    then array_block 2 3
    else if c == 7
    then array_block 1 4
    else block 0 0 []

interfaces_of :
    (c : ℕ) → ((classes c).interfaces ≡ []) ⊎ ((3 ≤ c) × ((classes c).interfaces ≡ 2 ∷ []))
interfaces_of c = ground arith

no_more : (i : ℕ) (is : List ℕ) → is ≡ [] → IsListed i is → ⊥
no_more i _ e (here is) = ground (arith, e)
no_more i _ e (there j is l) = ground (arith, e)

listed_two : (i : ℕ) (is : List ℕ) → is ≡ 2 ∷ [] → IsListed i is → i ≡ 2
listed_two i _ e (here is) = ground (arith, e)
listed_two i _ e (there j is l) = absurd (no_more i is (ground (arith, e)) l)

classes-IsRanked : IsRanked classes (λ c. c)
classes-IsRanked = record {
  super = λ c n. ground (arith, n);
  listed = λ c i l. elim (interfaces_of c) [
    | inl e ↦ absurd (no_more i (classes c).interfaces e l)
    | inr (low, e) ↦ let two = listed_two i (classes c).interfaces e l in omega (arith, low, two)
  ];
}

classes-HasArrays : HasArrays classes 1 (2 ∷ [])
classes-HasArrays = record {
  super = λ a p. ground (arith, p);
  listed = λ a p. ground (arith, p);
  concrete = λ a p. ground (arith, p);
  element = λ a p. ground (arith, p);
  positive = λ a p. ground (arith, p);
  above = λ c. ground arith;
}

is_sub_class_of-IsSubclass_example : (is_sub_class_of classes 9 3 4 ≡ true) ↔ IsSubclass classes 3 4
is_sub_class_of-IsSubclass_example =
    is_sub_class_of-IsSubclass classes 3 (λ c. c) classes-IsRanked 9 4 (omega arith) (omega arith)

implements-Implements_example : (implements classes 9 2 4 ≡ true) ↔ Implements classes 2 4
implements-Implements_example =
    implements-Implements classes 2 (λ c. c) classes-IsRanked 9 4 (omega arith)

nested_array : IsArrayOf classes 6 5
nested_array = record { array_class = refl; element = refl; dim = refl }

array_store_check-is_instance_of_example :
    array_store_check classes 9 2 6 7 ≡ is_instance_of classes 9 4 5 7
array_store_check-is_instance_of_example =
    array_store_check-is_instance_of classes 1 (2 ∷ []) classes-HasArrays 9 0 6 5 7 nested_array
