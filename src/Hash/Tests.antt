-- ===== src/Hash/Tests.antt =====
-- The theorems on the tables of src/hash.h for a table of four slots whose keys are numbers.
use jamiga_jamvm.Base.{
  ℕ, ◌≡◌, ◌⊎◌, ◌↔◌, inl, inr, refl, true, false, arith, ◌==◌, Option, none, some, Bool-cases,
}
use jamiga_jamvm.Hash.Table.{Entry, HashTable, Keys, store, find_hash_entry, init_hash_table}
use jamiga_jamvm.Hash.Slots.{IsStored, store-IsChained}
use jamiga_jamvm.Hash.Resize.{IsValid, init_hash_table-IsValid}
use jamiga_jamvm.Hash.Find.{is_match}
use jamiga_jamvm.Hash.Delete.{
  IsPresent, IsMarkedDeleted, delete_hash_entry, delete_hash_entry-IsValid,
}
use jamiga_jamvm.Hash.Add.{entry_of, find_hash_entry_adds, find_hash_entry-IsValid}

abbrev keys : Keys ℕ ℕ
keys = record {
  hash_of = λ p. p;
  compare_to = λ p d hash hash'. p == d;
  prepare = λ p. some p;
  found = λ p d. d;
  is_scavenged = λ d. d == 5;
}

abbrev five : Entry ℕ
five = record { data_ = 5; hash = 5 }

-- The table with 5 in slot 1.
abbrev sample : HashTable ℕ
sample = record (init_hash_table 4) { slots = store (λ _. none) 1 five; hash_count = 1 }

empty-IsValid : IsValid {D = ℕ} (init_hash_table 4)
empty-IsValid = init_hash_table-IsValid 4 (omega arith)

sample-IsValid : IsValid sample
sample-IsValid = record {
  positive = omega arith;
  counted = refl;
  room = omega arith;
  chained =
      store-IsChained (λ _. none) 4 five empty-IsValid.chained
        (record {
          steps = 0;
          within = omega arith;
          stops = refl;
          earlier = λ i l. absurd (omega (arith, l));
        });
}

five-IsStored : IsStored sample.slots 4 five
five-IsStored = (1, omega arith, refl)

nothing_matches : (e : Entry ℕ) → IsStored sample.slots 4 e → is_match keys 9 e ≡ false
nothing_matches e (i, l, h) = elim (Bool-cases (i == 1)) [
  | inl q ↦ ground (arith, h, q)
  | inr q ↦ ground (arith, h, q)
]

find_hash_entry_adds_example :
    (t : HashTable ℕ) × (find_hash_entry keys 9 true false sample ≡ some (some 9, t))
    × IsValid t
    × (IsStored t.slots t.hash_size five
        ↔ (IsStored sample.slots 4 five ⊎ (five ≡ entry_of keys 9 9)))
find_hash_entry_adds_example =
    find_hash_entry_adds keys sample 9 false 9 five sample-IsValid refl nothing_matches (inl refl)

find_hash_entry-IsValid_example :
    (r : Option ℕ × HashTable ℕ) × (find_hash_entry keys 9 true false sample ≡ some r) × IsValid r.1
find_hash_entry-IsValid_example = find_hash_entry-IsValid keys sample 9 true false sample-IsValid

delete_hash_entry-IsValid_example :
    (t : HashTable ℕ) × (delete_hash_entry keys 0 5 sample ≡ some t)
    × IsValid t
    × (t.hash_size ≡ 4)
    × (t.hash_count ≡ 1)
    × (((t ≡ sample) × (¬ (IsPresent keys 0 5 sample))) ⊎ IsMarkedDeleted keys 0 5 sample t)
delete_hash_entry-IsValid_example = delete_hash_entry-IsValid keys 0 sample 5 sample-IsValid
