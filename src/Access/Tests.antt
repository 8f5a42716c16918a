-- ===== src/Access/Tests.antt =====
-- Runtime packages of src/access.c for the classes a/B and a/C of one loader and the array class of a/B.
use jamiga_jamvm.Base.{ℕ, ◌≡◌, ◌↔◌, true, arith, ◌==◌, if◌then◌else◌, [], ◌∷◌}
use jamiga_jamvm.Access.Check.{ClassBlock, is_same_runtime_package}
use jamiga_jamvm.Access.Package.{package_of, is_same_runtime_package_lem}

abbrev classes : ℕ → ClassBlock
classes c = record {
  access_flags = 0;
  class_loader = 9;
  is_array = c == 3;
  element_class = 1;
  name = 0x61 ∷ 0x2f ∷ (if c == 2 then 0x43 else 0x42) ∷ [];
}

is_same_runtime_package_lem_example :
    (is_same_runtime_package classes 3 2 ≡ true)
    ↔ ((classes 3).class_loader ≡ (classes 2).class_loader)
      × (package_of (0x61 ∷ 0x2f ∷ 0x42 ∷ []) ≡ package_of (0x61 ∷ 0x2f ∷ 0x43 ∷ []))
is_same_runtime_package_lem_example = is_same_runtime_package_lem classes 3 2 (omega arith)
